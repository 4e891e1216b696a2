-- ===== src/Str.antt =====
-- projects/nanosrv/str.cpp: strings with a length. A `char` is a byte here; `char_rank` orders bytes as
-- signed chars, the order in which the comparisons read them.
pub mod Compare
mod Examples
pub mod Number
use nanosrv.Common.{
  ℕ, zero, suc, ◌+◌, ◌-◌, ◌*◌, ◌/◌, ◌%◌, ◌^◌, Bool, true, false, not, ◌&&◌, ◌||◌, Option, none,
  some, [], ◌∷◌, ◌≡◌, refl, Bytes, codes, ltb, leb, ◌==◌, if◌then◌else◌, length, take, drop, get_or,
}

unfoldable pub char_rank : ℕ → ℕ
char_rank c = if ltb c 128 then c + 128 else c - 128

unfoldable pub tolc : ℕ → ℕ
tolc c = if leb b'A' c && leb c b'Z' then c + b'a' - b'A' else c

-- The results -1, 0 and 1.
pub data Sign : Type 0 where
  minus zero_sign plus : Sign

-- The loop of `str_cmp` and `str_casecmp`, over the values of the characters.
unfoldable pub compare_by : (ℕ → ℕ) → Bytes → Bytes → Sign
compare_by value [] [] = zero_sign
compare_by value [] (d ∷ t) = minus
compare_by value (c ∷ s) [] = plus
compare_by value (c ∷ s) (d ∷ t) =
    let rest = compare_by value s t in
    if ltb (value c) (value d) then minus else if ltb (value d) (value c) then plus else rest

unfoldable pub str_cmp : Bytes → Bytes → Sign
unfolding compare_by char_rank
str_cmp = compare_by char_rank

unfoldable pub str_casecmp : Bytes → Bytes → Sign
unfolding compare_by char_rank tolc
str_casecmp = compare_by (λ c. char_rank (tolc c))

unfoldable pub span_loop : Bytes → ℕ → Bytes × Bytes
span_loop [] sep = ([], [])
span_loop (c ∷ s) sep =
    let rest = span_loop s sep in if c == sep then ([], s) else (c ∷ rest.0, rest.1)

-- What stands before the separator, and what stands behind it; `none` for an empty string.
unfoldable pub span : Bytes → ℕ → Option (Bytes × Bytes)
span [] sep = none
span (c ∷ s) sep = some (span_loop (c ∷ s) sep)

-- The digits of `str_to_num`; `none` stops the loop.
unfoldable pub digit_value : ℕ → ℕ → Option ℕ
digit_value base c =
    if leb b'0' c && leb c b'9' && ltb (c - b'0') base
    then some (c - b'0')
    else if base == 16 && leb b'A' c && leb c b'F'
    then some (c - b'A' + 10)
    else if base == 16 && leb b'a' c && leb c b'f'
    then some (c - b'a' + 10)
    else none

-- The loops of the three bases: the number read, how many digits, and the rest; `none` is an overflow.
unfoldable pub num_loop : ℕ → ℕ → Bytes → ℕ → ℕ → Option (ℕ × ℕ × Bytes)
num_loop base max [] result ndigits = some (result, ndigits, [])
num_loop base max (c ∷ s) result ndigits = elim (digit_value base c) [
  | none ↦ some (result, ndigits, c ∷ s)
  | some digit ↦
      let next = num_loop base max s (result * base % 2 ^ 64 + digit) (ndigits + 1) in
      if ltb (max / base) result
      then none
      else if ltb (max - digit) (result * base % 2 ^ 64)
      then none
      else next
]

-- No overflow, at least one digit, and nothing behind the digits.
unfoldable pub num_done : Option (ℕ × ℕ × Bytes) → Option ℕ
num_done none = none
num_done (some (result, ndigits, [])) = if ndigits == 0 then none else some result
num_done (some (result, ndigits, c ∷ s)) = none

abbrev pub num_max : ℕ → ℕ
num_max val_len = 2 ^ (8 * val_len) - 1

-- A prefix chooses the base if it is given as 0: the base, and where the digits begin.
unfoldable pub num_base : Bytes → ℕ → ℕ × Bytes
num_base str base =
    if base == 0 && leb 2 (length str)
    then (if get_or str 0 0 == b'0'
        then (if get_or str 1 0 == b'b'
            then (2, drop 2 str)
            else if get_or str 1 0 == b'x'
            then (16, drop 2 str)
            else (10, drop 1 str))
        else (10, str))
    else (base, str)

-- `val_len` is 1, 2, 4 or 8.
unfoldable pub str_to_num : Bytes → ℕ → ℕ → Option ℕ
unfolding num_base num_loop num_done digit_value
str_to_num str base₀ val_len =
    let (base, digits) = num_base str base₀ in
    let max = num_max val_len in
    if not (val_len == 1 || val_len == 2 || val_len == 4 || val_len == 8)
    then none
    else if not (base == 2 || base == 10 || base == 16)
    then none
    else num_done (num_loop base max digits 0 0)

hex_byte : str_to_num (codes "fF") 16 1 ≡ some 255
unfolding str_to_num
hex_byte = refl

too_large : str_to_num (codes "256") 10 1 ≡ none
unfolding str_to_num
too_large = refl

by_prefix : str_to_num (codes "0b101") 0 4 ≡ some 5
unfolding str_to_num
by_prefix = refl
