-- ===== src/Json/Next/Calls.antt =====
-- json.cpp: one call of `json_next` inside an array or an object.
use nanosrv.Common.{
  as_int, ◌^◌, ℕ, suc, ◌+◌, ◌≤◌, ◌<◌, Bool, true, false, not, ◌||◌, none, some, [], ◌∷◌, ◌++◌, ◌≡◌,
  refl, sym, ap, ◌∙◌, arith, Bytes, ltb, leb, ◌==◌, if◌then◌else◌, length, length-append,
  append_assoc, take, drop, drop-append_self, take-append_self, get_or,
}
use nanosrv.Json.Lexer.Stops.{is_stop, Stops}
use nanosrv.Json.Syntax.{Json, text, print, IsBody, IsJson}
use nanosrv.Json.Get.{json_get, is_space}
use nanosrv.Json.Get.Lookup.{json_get_whole}
use nanosrv.Json.Next.{
  JsonNext, no_next, front_token, to_colon, spaces, pass_comma, next_elem, next_member, json_next,
}

front_value :
    (v : Json) (rest : Bytes) (follow : ℕ → ℕ → JsonNext) (otherwise : JsonNext)
    → IsJson 0 v
    → Stops rest
    → length (print v ++ rest) < 2 ^ 31
    → front_token (print v ++ rest) follow otherwise ≡ follow 0 (length (print v))
unfolding front_token
front_value v rest follow otherwise ok stops small =
    let inside : ltb (length (print v ++ rest)) (0 + length (print v)) ≡ false =
      short _ _ (omega (arith, length-append (print v) rest)) in
    rw (json_get_whole v rest ok stops small, front_token, inside) refl
  where
    short : (a b : ℕ) → b ≤ a → ltb a b ≡ false
    short a b h = ground arith

taken_value : (s rest : Bytes) → take (length s) (drop 0 (s ++ rest)) ≡ s
taken_value s rest = take-append_self s rest (length s) refl

got : (p : Bytes) (c : ℕ) (rest : Bytes) → get_or (p ++ c ∷ rest) (length p) 0 ≡ c
got [] c rest = refl
got (d ∷ p) c rest = got p c rest

-- What stands behind an item: it ends it, and it is no blank.
abbrev pub Ends : ℕ → Type 0
Ends c = (is_stop c ≡ true) × (is_space [] c ≡ false)

pass_at :
    (p : Bytes) (c n : ℕ) (rest : Bytes)
    → is_space [] c ≡ false
    → length p ≡ suc n
    → pass_comma (p ++ c ∷ rest) (suc n) ≡ suc n + (if c == b',' then 1 else 0)
unfolding pass_comma spaces
pass_at p c n rest dark size =
    let here : drop (suc n) (p ++ c ∷ rest) ≡ c ∷ rest =
      drop-append_self p (c ∷ rest) (suc n) (sym size) in
    let none_here : suc n + 0 ≡ suc n = omega arith in
    let room : ltb (suc n) (length (p ++ c ∷ rest)) ≡ true =
      less _ _ (omega (arith, length-append p (c ∷ rest), size)) in
    let at : get_or (p ++ c ∷ rest) (suc n) 0 ≡ c =
      ap (λ k. get_or (p ++ c ∷ rest) k 0) (sym size) ∙ got p c rest in
    rw (here, pass_comma, dark, none_here, room, at)
      (last (c == b',') (length (p ++ c ∷ rest)) (omega (arith, length-append p (c ∷ rest), size)))
  where
    less : (a b : ℕ) → a < b → ltb a b ≡ true
    less a b h = ground arith

    last :
        (b : Bool) (m : ℕ)
        → suc n + 1 ≤ m
        → (if ltb m (if b then suc n + 1 else suc n) then 0 else if b then suc n + 1 else suc n)
          ≡ suc n + (if b then 1 else 0)
    last true m h = ground arith
    last false m h = ground arith

-- An item at the offset ofs, behind the bracket and the bytes p.
module _ (p : Bytes) (ofs : ℕ) (at : (if ofs == 0 then 1 else ofs) ≡ 1 + length p)
    (below : ofs ≤ 1 + length p) where
  -- Where the text begins, and that the tests at the start of `json_next` pass.
  begins :
      (o : ℕ) (s : Bytes)
      → 0 < length s
      → (o == b'{' || o == b'[') ≡ true
      → (let obj = o ∷ (p ++ s) in
          (drop (if ofs == 0 then 1 else ofs) obj ≡ s)
          × (leb (length obj) ofs ≡ false)
          × ((ltb (length obj) 2 || not (o == b'{' || o == b'[')) ≡ false))
  begins o s pos opens =
      let size = length-append p s in
      (
        ap (λ n. drop n (o ∷ (p ++ s))) at
            ∙ drop-append_self (o ∷ p) s (1 + length p) (omega arith),
        not_below (length (o ∷ (p ++ s))) ofs (omega (arith, size)),
        rw (opens, not_short (length (o ∷ (p ++ s))) (omega (arith, size))) refl,
      )
    where
      not_below : (a b : ℕ) → b < a → leb a b ≡ false
      not_below a b h = ground arith

      not_short : (a : ℕ) → 2 ≤ a → ltb a 2 ≡ false
      not_short a h = ground arith

  pub next_in_array :
      (v : Json) (c : ℕ) (rest : Bytes)
      → IsJson 0 v
      → Ends c
      → length (print v ++ c ∷ rest) < 2 ^ 31
      → json_next (b'[' ∷ (p ++ (print v ++ c ∷ rest))) ofs ≡ record {
        ofs = 1 + length p + length (print v) + (if c == b',' then 1 else 0);
        key = some [];
        val = some (print v);
      }
  unfolding json_next next_elem
  next_in_array v c rest ok ends small =
      let s = print v ++ c ∷ rest in
      let facts = begins b'[' s (omega (arith, length-append (print v) (c ∷ rest))) refl in
      let comma : pass_comma (b'[' ∷ (p ++ s)) (1 + length p + 0 + length (print v))
          ≡ 1 + length p + length (print v) + (if c == b',' then 1 else 0) =
        ap (λ t. pass_comma (b'[' ∷ t) (1 + length p + 0 + length (print v)))
          (sym (append_assoc p (print v) (c ∷ rest)))
        ∙ ap (pass_comma ((b'[' ∷ (p ++ print v)) ++ c ∷ rest)) (
            let z : 1 + length p + 0 + length (print v) ≡ suc (length p + length (print v)) =
              omega arith in
            z)
        ∙ pass_at (b'[' ∷ (p ++ print v)) c (length p + length (print v)) rest ends.1
            (omega (arith, length-append p (print v)))
        ∙ ap (λ n. n + (if c == b',' then 1 else 0)) (omega arith) in
      rw
        (
          facts.0,
          json_next,
          facts.1,
          facts.2,
          front_value v (c ∷ rest) _ _ ok ends.0 small,
          taken_value (print v) (c ∷ rest),
          at,
          comma,
        )
        refl

  pub next_in_object :
      (k : Bytes) (v : Json) (c : ℕ) (rest : Bytes)
      → IsBody k
      → IsJson 0 v
      → Ends c
      → length (print (text k) ++ b':' ∷ (print v ++ c ∷ rest)) < 2 ^ 31
      → json_next (b'{' ∷ (p ++ (print (text k) ++ b':' ∷ (print v ++ c ∷ rest)))) ofs ≡ record {
        ofs =
            1 + length p + length (print (text k) ++ b':' ∷ print v) + (if c == b',' then 1 else 0);
        key = some (print (text k));
        val = some (print v);
      }
  unfolding json_next next_member to_colon is_stop
  next_in_object k v c rest body ok ends small =
      let kt = print (text k) in
      let more = print v ++ c ∷ rest in
      let s = kt ++ b':' ∷ more in
      let item = kt ++ b':' ∷ print v in
      let n = length kt in
      let facts = begins b'{' s (omega (arith, length-append kt (b':' ∷ more))) refl in
      let behind : drop (0 + n) s ≡ b':' ∷ more =
        drop-append_self kt (b':' ∷ more) (0 + n) (omega arith) in
      let size = length-append kt (b':' ∷ print v) in
      let text_of : b'{' ∷ (p ++ s) ≡ (b'{' ∷ (p ++ item)) ++ c ∷ rest =
        ap (λ t. b'{' ∷ t)
          (ap (λ t. p ++ t) (sym (append_assoc kt (b':' ∷ print v) (c ∷ rest)))
            ∙ sym (append_assoc p item (c ∷ rest))) in
      let comma : pass_comma (b'{' ∷ (p ++ s)) (1 + length p + 0 + n + 1 + 0 + length (print v))
          ≡ 1 + length p + length item + (if c == b',' then 1 else 0) =
        ap (λ t. pass_comma t (1 + length p + 0 + n + 1 + 0 + length (print v))) text_of
        ∙ ap (pass_comma ((b'{' ∷ (p ++ item)) ++ c ∷ rest)) (
            let z : 1 + length p + 0 + n + 1 + 0 + length (print v) ≡ suc (length p + length item) =
              omega (arith, size) in
            z)
        ∙ pass_at (b'{' ∷ (p ++ item)) c (length p + length item) rest ends.1
            (omega (arith, length-append p item))
        ∙ ap (λ n. n + (if c == b',' then 1 else 0)) (omega arith) in
      rw
        (
          facts.0,
          json_next,
          facts.1,
          facts.2,
          front_value (text k) (b':' ∷ more) _ _ (unfold IsJson in body) refl small,
          behind,
          front_value v (c ∷ rest) _ _ ok ends.0
              (omega (arith, small, length-append kt (b':' ∷ more))),
          taken_value (print v) (c ∷ rest),
          taken_value kt (b':' ∷ more),
          at,
          comma,
        )
        refl

  pub ends_array : json_next (b'[' ∷ (p ++ b']' ∷ [])) ofs ≡ no_next none
  unfolding json_next next_elem pass_comma front_token json_get as_int
  ends_array =
      let facts = begins b'[' (b']' ∷ []) (omega arith) refl in
      rw (facts.0, json_next, facts.1, facts.2) refl

  pub ends_object : json_next (b'{' ∷ (p ++ b'}' ∷ [])) ofs ≡ no_next none
  unfolding json_next next_member pass_comma front_token json_get as_int
  ends_object =
      let facts = begins b'{' (b'}' ∷ []) (omega arith) refl in
      rw (facts.0, json_next, facts.1, facts.2) refl
