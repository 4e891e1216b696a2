-- ===== src/Json/Strings/RoundTrip.antt =====
-- json.cpp and printf.cpp: strings written with escapes are read back.
use nanosrv.Common.{
  ◌^◌, ℕ, zero, suc, ◌+◌, ◌-◌, ◌≤◌, ◌<◌, Bool, true, false, ◌&&◌, some, List, [], ◌∷◌, ◌++◌, ◌≡◌,
  inl, inr, refl, sym, ap, ◌∙◌, arith, Bytes, ltb, ◌==◌, length, length-append, append_assoc, take,
  drop, take-append_self, get_or, All, Bool-cases,
}
use mathlib.Core.Path.{subst}
use nanosrv.Json.Lexer.{json_esc, escapeseq, esc_loop, pass_string, longer_by}
use nanosrv.Json.Syntax.{Json, text, print, IsBody, IsJson}
use nanosrv.Json.Get.{token}
use nanosrv.Json.Get.Paths.{PathStep, spell, IsStep, resolve, HasPlainKeys}
use nanosrv.Json.Get.Lookup.{json_get_path}
use nanosrv.Json.Strings.{escape_char, esc_char, qcpy, unescape_byte, json_unescape, json_get_str}

not_escaped : (c : ℕ) → (escape_char c == 0) ≡ true → ((c == 92) ≡ false) × ((c == b'"') ≡ false)
unfolding escape_char esc_char json_esc escapeseq esc_loop
not_escaped c h = ground arith

escaped_back : (c : ℕ) → (escape_char c == 0) ≡ false → json_esc (escape_char c) false ≡ c
unfolding escape_char esc_char json_esc escapeseq esc_loop
escaped_back c h = ground arith

escaped_letter : (c : ℕ) → (escape_char c == b'u') ≡ false
unfolding escape_char esc_char json_esc escapeseq esc_loop
escaped_letter c = ground arith

-- Where the letter of an escape is not itself escaped, it passes as a plain byte.
plain_letter :
    (c : ℕ)
    → (escape_char c == 0) ≡ false
    → (json_esc (escape_char c) true == 0) ≡ true
    → ((escape_char c == 92) ≡ false)
      × ((escape_char c == 0) ≡ false)
      × ((escape_char c == b'"') ≡ false)
unfolding escape_char esc_char json_esc escapeseq esc_loop
plain_letter c h e = ground arith

zero_test : (c : ℕ) → (0 < c) → (c == 0) ≡ false
zero_test c h = ground arith

module _ (c : ℕ) (s : Bytes) (here : 0 < c) where
  qcpy_plain : (escape_char c == 0) ≡ true → qcpy (c ∷ s) ≡ c ∷ qcpy s
  unfolding qcpy
  qcpy_plain e = rw (zero_test c here, qcpy, e) refl

  qcpy_escaped : (escape_char c == 0) ≡ false → qcpy (c ∷ s) ≡ 92 ∷ escape_char c ∷ qcpy s
  unfolding qcpy
  qcpy_escaped e = rw (zero_test c here, qcpy, e) refl

  unescape_plain : (t : Bytes) → (escape_char c == 0) ≡ true → unescape_byte c t ≡ some (c, 0)
  unfolding unescape_byte
  unescape_plain [] e = refl
  unescape_plain (d ∷ t) e = rw ((not_escaped c e).0, unescape_byte) refl

  unescape_escaped :
      (t : Bytes)
      → (escape_char c == 0) ≡ false
      → unescape_byte 92 (escape_char c ∷ t) ≡ some (c, 1)
  unfolding unescape_byte
  unescape_escaped t e =
      let last : (b : Bool) → (b && false) ≡ false =
        λ b. elim (Bool-cases b) [ inl z ↦ rw z refl | inr z ↦ rw z refl ] in
      rw
        (
          escaped_letter c,
          unescape_byte,
          last (ltb 5 (length (92 ∷ escape_char c ∷ t))),
          escaped_back c e,
          zero_test c here,
        )
        refl

one_byte :
    (c d k n : ℕ) (s rest : Bytes)
    → unescape_byte c s ≡ some (d, k)
    → json_unescape (drop k s) n ≡ some rest
    → json_unescape (c ∷ s) (suc n) ≡ some (d ∷ rest)
unfolding json_unescape
one_byte c d k n s rest e f = rw (e, json_unescape, f) refl

-- What `qcpy` writes is read back by `json_unescape` into a buffer with room for the bytes and a zero.
pub json_unescape-qcpy :
    (s : Bytes) (n : ℕ) → All (λ c. 0 < c) s → length s < n → json_unescape (qcpy s) n ≡ some s
unfolding json_unescape qcpy
json_unescape-qcpy s zero h room = absurd (omega (arith, room))
json_unescape-qcpy [] (suc n) h room = refl
json_unescape-qcpy (c ∷ s) (suc n) h room =
    let ih = json_unescape-qcpy s n h.1 (omega (arith, room)) in
    elim (Bool-cases (escape_char c == 0)) [
      | inl e ↦
          ap (λ t. json_unescape t (suc n)) (qcpy_plain c s h.0 e)
          ∙ one_byte c c 0 n (qcpy s) s (unescape_plain c s h.0 (qcpy s) e) ih
      | inr e ↦
          ap (λ t. json_unescape t (suc n)) (qcpy_escaped c s h.0 e)
          ∙ one_byte 92 c 1 n (escape_char c ∷ qcpy s) s (unescape_escaped c s h.0 (qcpy s) e) ih
    ]

pass_plain :
    (c n : ℕ) (s : Bytes)
    → (c == 92) ≡ false
    → (c == 0) ≡ false
    → (c == b'"') ≡ false
    → pass_string s ≡ some n
    → pass_string (c ∷ s) ≡ some (suc n)
unfolding pass_string longer_by
pass_plain c n [] e f g h = absurd (cc h)
pass_plain c n (d ∷ s) e f g h = rw (e, pass_string, f, g, h, longer_by) (ap some (omega arith))

pass_pair :
    (e n : ℕ) (s : Bytes)
    → (json_esc e true == 0) ≡ false
    → pass_string s ≡ some n
    → pass_string (92 ∷ e ∷ s) ≡ some (suc (suc n))
unfolding pass_string longer_by
pass_pair e n s f h = rw (f, pass_string, h, longer_by) (ap some (omega arith))

pass_slash :
    (e n : ℕ) (s : Bytes)
    → (json_esc e true == 0) ≡ true
    → pass_string (e ∷ s) ≡ some n
    → pass_string (92 ∷ e ∷ s) ≡ some (suc n)
unfolding pass_string longer_by
pass_slash e n s f h = rw (f, pass_string, h, longer_by) (ap some (omega arith))

-- The quote that follows what `qcpy` writes ends the string.
pub qcpy-IsBody : (s : Bytes) → All (λ c. 0 < c) s → IsBody (qcpy s)
unfolding qcpy pass_string
qcpy-IsBody [] h = refl
qcpy-IsBody (c ∷ s) h =
    let ih = qcpy-IsBody s h.1 in
    elim (Bool-cases (escape_char c == 0)) [
      | inl e ↦ subst IsBody (sym (qcpy_plain c s h.0 e)) (
          pass_plain c (length (qcpy s)) (qcpy s ++ b'"' ∷ []) (not_escaped c e).0 (zero_test c h.0)
            (not_escaped c e).1 ih)
      | inr e ↦
          subst IsBody (sym (qcpy_escaped c s h.0 e))
            (elim (Bool-cases (json_esc (escape_char c) true == 0)) [
              | inl p ↦
                  let f = plain_letter c e p in
                  pass_slash (escape_char c) (suc (length (qcpy s))) (qcpy s ++ b'"' ∷ []) p (
                    pass_plain (escape_char c) (length (qcpy s)) (qcpy s ++ b'"' ∷ []) f.0 f.1 f.2
                      ih)
              | inr p ↦ pass_pair (escape_char c) (length (qcpy s)) (qcpy s ++ b'"' ∷ []) p ih
            ])
    ]

qcpy_longer : (s : Bytes) → All (λ c. 0 < c) s → length s ≤ length (qcpy s)
unfolding qcpy
qcpy_longer [] h = omega arith
qcpy_longer (c ∷ s) h =
    let ih = qcpy_longer s h.1 in
    elim (Bool-cases (escape_char c == 0)) [
      | inl e ↦ omega (arith, ih, ap length (qcpy_plain c s h.0 e))
      | inr e ↦ omega (arith, ih, ap length (qcpy_escaped c s h.0 e))
    ]

-- A string that stands in a text.
str_in :
    (pre body post : Bytes)
    → (let json = pre ++ ((b'"' ∷ (body ++ b'"' ∷ [])) ++ post) in
        (get_or json (length pre) 0 ≡ b'"')
        × (take (length body) (drop (length pre + 1) json) ≡ body))
str_in [] body post = (
  refl,
  ap (take (length body)) (append_assoc body (b'"' ∷ []) post)
      ∙ take-append_self body (b'"' ∷ post) (length body) refl,
)
str_in (c ∷ pre) body post =
    let json = pre ++ ((b'"' ∷ (body ++ b'"' ∷ [])) ++ post) in
    let rest = str_in pre body post in
    (
      rest.0,
      ap (λ n. take (length body) (drop n (c ∷ json)))
            (let z : suc (length pre) + 1 ≡ suc (length pre + 1) = omega arith in z)
          ∙ rest.1,
    )

-- A string without a zero, written by `qcpy` between quotes anywhere in the printed text, of less than
-- 2 ^ 31 bytes and without blanks, of a value that nests at most 30 deep and whose keys have no `.`, no
-- `[` and no zero, is read back by `json_get_str` with a path of such keys, none empty, and of decimal
-- indices below 2 ^ 31 that leads to it.
pub json_get_str-qcpy :
    (s : Bytes) (v : Json) (ss : List PathStep)
    → All (λ c. 0 < c) s
    → IsJson 0 v
    → length (print v) < 2 ^ 31
    → HasPlainKeys v
    → All IsStep ss
    → resolve ss v ≡ some (text (qcpy s))
    → json_get_str (print v) (b'$' ∷ spell ss) ≡ some s
unfolding json_get_str print
json_get_str-qcpy s v ss h ok small plain steps found =
    let (pre, post, shape, gets) = json_get_path v (text (qcpy s)) ss ok small plain steps found in
    let size : length (print (text (qcpy s))) ≡ length (qcpy s) + 2 =
      omega (arith, length-append (qcpy s) (b'"' ∷ [])) in
    let less : length (qcpy s) + 2 - 2 ≡ length (qcpy s) = omega arith in
    let long : ltb 1 (length (qcpy s) + 2) ≡ true = ground arith in
    let at = str_in pre (qcpy s) post in
    rw (gets ∙ ap (token (length pre)) size, json_get_str, less, long, shape, at.0, at.1)
      (json_unescape-qcpy s (length (qcpy s) + 2) h (omega (arith, qcpy_longer s h)))
