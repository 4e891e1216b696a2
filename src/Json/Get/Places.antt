-- ===== src/Json/Get/Places.antt =====
-- json.cpp, `json_get`: places in a path, and the tests of keys there.
use nanosrv.Common.{
  ℕ, zero, suc, ◌+◌, ◌-◌, Bool, true, false, ◌&&◌, some, List, [], ◌∷◌, ◌++◌, ◌≡◌, inl, inr, refl,
  sym, ap, ◌∙◌, arith, Bytes, ltb, leb, ◌==◌, if◌then◌else◌, length, length-append, append_assoc,
  drop, drop-append_self, get_or, Bool-cases, ==_iff,
}
use nanosrv.Json.Lexer.{pass_string}
use nanosrv.Json.Lexer.Stops.{pass_string-append}
use nanosrv.Json.Syntax.{Json, print, IsBody}
use nanosrv.Json.Get.{
  is_equal, minus_one, JsonState, JsonResult, token, at_depth, path_at, head_or_zero, s_key,
  s_colon, next, on_key, match_key, strncmp_equal, key_end,
}
use nanosrv.Json.Get.Reads.{leb_not}
use nanosrv.Json.Get.Paths.{
  PathStep, key, index, spell, ends_key, IsPlain, bytes_equal, key-equal, path_at-drop,
}

drop_nil : (n : ℕ) → drop {A = ℕ} n [] ≡ []
drop_nil zero = refl
drop_nil (suc n) = refl

drop-drop : (a b : ℕ) (s : Bytes) → drop (a + b) s ≡ drop b (drop a s)
drop-drop zero b s = ap (λ n. drop n s) (let e : zero + b ≡ b = omega arith in e)
drop-drop (suc a) b [] = drop_nil (suc a + b) ∙ sym (drop_nil b)
drop-drop (suc a) b (c ∷ s) =
    ap (λ n. drop n (c ∷ s)) (let e : suc a + b ≡ suc (a + b) = omega arith in e) ∙ drop-drop a b s

-- A place in a path and what stands there.
pub drop_on : (path k x : Bytes) (p : ℕ) → drop p path ≡ k ++ x → drop (p + length k) path ≡ x
drop_on path k x p e =
    drop-drop p (length k) path ∙ ap (drop (length k)) e ∙ drop-append_self k x (length k) refl

pub first_at : (path x : Bytes) (p : ℕ) → drop p path ≡ x → path_at path p ≡ head_or_zero x
unfolding head_or_zero
first_at path x p e =
    ap (path_at path) (let z : p ≡ p + 0 = omega arith in z)
    ∙ path_at-drop path p 0
    ∙ ap (λ y. get_or y 0 0) e
    ∙ first x
  where
    first : (x : Bytes) → get_or x 0 0 ≡ head_or_zero x
    first [] = refl
    first (c ∷ x) = refl

pub spell_ends : (ss : List PathStep) → ends_key (head_or_zero (spell ss)) ≡ true
unfolding ends_key head_or_zero
spell_ends [] = refl
spell_ends (key k ∷ ss) = refl
spell_ends (index t n ∷ ss) = refl

pub bytes_equal_lem : (k k' : Bytes) → bytes_equal k k' ≡ true → k ≡ k'
unfolding bytes_equal
bytes_equal_lem [] [] e = refl
bytes_equal_lem [] (d ∷ k') e = absurd (cc e)
bytes_equal_lem (c ∷ k) [] e = absurd (cc e)
bytes_equal_lem (c ∷ k) (d ∷ k') e = elim (Bool-cases (c == d)) [
  | inl t ↦
      let same = bytes_equal_lem k k' (rw t at e) in
      let head : c ≡ d = (==_iff c d).0 t in λ i. head i ∷ same i
  | inr f ↦ absurd (cc (rw f at e))
]

-- The text of w stands in a text that begins at i, and it is what the result names.
module _ (w : Json) where
  abbrev pub Finds : Bytes → ℕ → JsonResult → Type 0
  Finds s i r =
      (pre : Bytes) × (post : Bytes) × (s ≡ pre ++ (print w ++ post))
      × (r ≡ token (i + length pre) (length (print w)))

  pub moved_behind :
      (a s : Bytes) (i : ℕ) (r : JsonResult) → Finds s (i + length a) r → Finds (a ++ s) i r
  moved_behind a s i r (pre, post, e, f) = (
    a ++ pre,
    post,
    ap (λ x. a ++ x) e ∙ sym (append_assoc a pre (print w ++ post)),
    f ∙ ap (λ n. token n (length (print w))) (omega (arith, length-append a pre)),
  )

  pub moved_before : (s b : Bytes) (i : ℕ) (r : JsonResult) → Finds s i r → Finds (s ++ b) i r
  moved_before s b i r (pre, post, e, f) = (
    pre,
    post ++ b,
    ap (λ x. x ++ b) e
        ∙ append_assoc pre (print w ++ post) b
        ∙ ap (λ x. pre ++ x) (append_assoc (print w) post b),
    f,
  )

  pub moved_as :
      (s s' : Bytes) (i : ℕ) (r r' : JsonResult) → s' ≡ s → r' ≡ r → Finds s i r → Finds s' i r'
  moved_as s s' i r r' e f (pre, post, g, h) = (pre, post, e ∙ g, f ∙ h)

module _ (path : Bytes) where
  -- A key is expected at the depth that the path has reached, and the path goes on with the key k.
  pub record AtKey (k x : Bytes) (st : JsonState) : Type 0 where
    pub inner : Bytes
    pub brackets : st.nesting ≡ b'{' ∷ inner
    pub deep : st.ed ≡ length st.nesting
    pub alike : is_equal st.ci st.ei ≡ true
    pub fresh : st.ei ≡ minus_one
    pub dot : (path_at path (st.place - 1) == b'.') ≡ true
    pub here : drop st.place path ≡ k ++ x

  pub level : (st : JsonState) → st.ed ≡ length st.nesting → at_depth st ≡ true
  unfolding at_depth
  level st h = ground arith

  test_at :
      (k k' x s : Bytes) (st : JsonState)
      → AtKey k x st
      → IsPlain k
      → IsPlain k'
      → ends_key (head_or_zero x) ≡ true
      → (strncmp_equal (k' ++ b'"' ∷ s) (drop st.place path) (length k')
          && ends_key (path_at path (st.place + length k')))
        ≡ bytes_equal k k'
  test_at k k' x s st q h h' e =
      let same = key-equal k k' x s h h' e in
      rw (path_at-drop path st.place (length k'), q.here) same

  pub key_at :
      (k k' x s : Bytes) (i : ℕ) (b : Bool) (st : JsonState)
      → AtKey k x st
      → IsPlain k
      → IsPlain k'
      → ends_key (head_or_zero x) ≡ true
      → IsBody k'
      → bytes_equal k k' ≡ b
      → on_key path b'"' (k' ++ b'"' ∷ s) i (record st { expecting = s_key })
        ≡ next
            (length k' + 1)
            (record (if b then record st { place = st.place + length k' } else st) {
              expecting = s_colon;
            })
  unfolding on_key key_end match_key ends_key
  key_at k k' x s i b st q h h' e body test =
      let ends : pass_string (k' ++ b'"' ∷ s) ≡ some (length k') =
        ap pass_string (sym (append_assoc k' (b'"' ∷ []) s))
        ∙ pass_string-append (k' ++ b'"' ∷ []) s (length k') body in
      let room : leb (length (k' ++ b'"' ∷ s)) (length k') ≡ false =
        leb_not _ _ (omega (arith, length-append k' (b'"' ∷ s))) in
      let below : ltb (length st.nesting) st.ed ≡ false = let d = q.deep in ground arith in
      let at = level st q.deep in
      rw (ends, on_key, room, below, at, q.dot, test_at k k' x s st q h h' e ∙ test) (last b)
    where
      last :
          (b : Bool)
          → next
              (length k' + 1)
              (record (if b
                then record st { expecting = s_key; place = st.place + length k' }
                else record st { expecting = s_key }) { expecting = s_colon })
            ≡ next
                (length k' + 1)
                (record (if b then record st { place = st.place + length k' } else st) {
                  expecting = s_colon;
                })
      last true = refl
      last false = refl
