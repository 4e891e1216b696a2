-- ===== src/Json/Lexer.antt =====
-- json.cpp: escapes, the end of a string, and the length of a number.
pub mod Stops
use nanosrv.Common.{
  ℕ, zero, suc, ◌+◌, ◌-◌, ◌*◌, Bool, true, false, not, ◌&&◌, ◌||◌, Option, none, some, [], ◌∷◌,
  ◌++◌, ◌≡◌, refl, Bytes, codes, ltb, leb, ◌==◌, if◌then◌else◌, length,
}

-- The characters that are written by an escape, and the letters that stand for them.
unfoldable pub escapeseq : Bool → Bytes
escapeseq true = 8 ∷ 12 ∷ 10 ∷ 13 ∷ 9 ∷ 92 ∷ 34 ∷ []
escapeseq false = b'b' ∷ b'f' ∷ b'n' ∷ b'r' ∷ b't' ∷ 92 ∷ 34 ∷ []

unfoldable pub esc_loop : Bytes → Bytes → ℕ → ℕ
esc_loop (p ∷ ps) (q ∷ qs) c = let rest = esc_loop ps qs c in if p == c then q else rest
esc_loop _ _ c = 0

unfoldable pub json_esc : ℕ → Bool → ℕ
unfolding escapeseq esc_loop
json_esc c esc = esc_loop (escapeseq esc) (escapeseq (not esc)) c

unfoldable pub longer_by : ℕ → Option ℕ → Option ℕ
longer_by k none = none
longer_by k (some n) = some (k + n)

-- The number of bytes before the closing quote; `none` stands for MG_JSON_INVALID.
unfoldable pub pass_string : Bytes → Option ℕ
unfolding json_esc longer_by
pass_string [] = none
pass_string (c ∷ []) = if c == b'"' then some 0 else none
pass_string (c ∷ e ∷ s) =
    let escaped = longer_by 2 (pass_string s) in
    let plain = longer_by 1 (pass_string (e ∷ s)) in
    if c == 92 && not (json_esc e true == 0)
    then escaped
    else if c == 0
    then none
    else if c == b'"'
    then some 0
    else plain

unfoldable pub is_decimal : ℕ → Bool
is_decimal c = leb b'0' c && leb c b'9'

unfoldable pub after_sign : Bytes → Bytes
after_sign [] = []
after_sign (c ∷ s) = if c == b'-' || c == b'+' then s else c ∷ s

unfoldable pub after_digits : Bytes → Bytes
unfolding is_decimal
after_digits [] = []
after_digits (c ∷ s) = if is_decimal c then after_digits s else c ∷ s

unfoldable pub after_fraction : Bytes → Bytes
unfolding after_digits
after_fraction [] = []
after_fraction (c ∷ s) = if c == b'.' then after_digits s else c ∷ s

-- MG_DOUBLE_MAX_EXPONENT is 308.
unfoldable pub after_exponent_digits : Bytes → ℕ → Bytes
unfolding is_decimal
after_exponent_digits [] e = []
after_exponent_digits (c ∷ s) e =
    let rest = after_exponent_digits s (e * 10 + (c - b'0')) in
    if is_decimal c && ltb e 308 then rest else c ∷ s

unfoldable pub after_char : ℕ → Bytes → Bytes
after_char x [] = []
after_char x (c ∷ s) = if c == x then s else c ∷ s

unfoldable pub after_exponent : Bytes → Bytes
unfolding after_exponent_digits after_char
after_exponent [] = []
after_exponent (c ∷ s) =
    if c == b'e' || c == b'E'
    then after_exponent_digits (after_char b'+' (after_char b'-' s)) 0
    else c ∷ s

-- What `atod` leaves of the text, and the length that it reports by `numlen`.
unfoldable pub after_number : Bytes → Bytes
unfolding after_sign after_digits after_fraction after_exponent
after_number s = after_exponent (after_fraction (after_digits (after_sign s)))

unfoldable pub number_len : Bytes → ℕ
unfolding after_number
number_len s = length s - length (after_number s)

quoted : pass_string (codes "a\\\"b\" c") ≡ some 4
unfolding pass_string
quoted = refl

decimal : number_len (codes "-12.5e+3,") ≡ 8
unfolding number_len
decimal = refl
