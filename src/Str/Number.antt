-- ===== src/Str/Number.antt =====
-- str.cpp, `str_to_num`: an accepted text is a run of digits whose value fits, and only such a text is
-- accepted.
use nanosrv.Common.{
  ℕ, ◌+◌, ◌-◌, ◌*◌, ◌/◌, ◌%◌, ◌^◌, ◌≤◌, ◌<◌, true, false, ◌||◌, Option, none, some, [], ◌∷◌, ◌≡◌,
  ◌⊎◌, inl, inr, refl, sym, ◌∙◌, arith, Bytes, ltb, leb, ◌==◌, if◌then◌else◌, Bool-cases,
  Option-cases,
}
use native.Mathlib.Nat.{le-div_iff_mul-le, le-mul_of_pos_right}
use nanosrv.Str.{digit_value, num_loop, num_done, num_max, num_base, str_to_num}

-- The number that a run of digits spells behind `n`, with no bound; `none` where a byte is no digit.
unfoldable pub spelled : ℕ → ℕ → Bytes → Option ℕ
spelled base n [] = some n
spelled base n (c ∷ s) = elim (digit_value base c) [
  | none ↦ none
  | some d ↦ spelled base (n * base + d) s
]

-- A value that does not fit is refused.
abbrev pub bounded : ℕ → Option ℕ → Option ℕ
bounded max none = none
bounded max (some v) = if leb v max then some v else none

digit-lt : (base c d : ℕ) → base ≤ 16 → digit_value base c ≡ some d → d < 16
unfolding digit_value
digit-lt base c d h e = ground arith

spelled_step :
    (base n c d : ℕ) (s : Bytes)
    → digit_value base c ≡ some d
    → spelled base n (c ∷ s) ≡ spelled base (n * base + d) s
unfolding spelled
spelled_step base n c d s e = rw (e, spelled)

spelled_stop :
    (base n c : ℕ) (s : Bytes) → digit_value base c ≡ none → spelled base n (c ∷ s) ≡ none
unfolding spelled
spelled_stop base n c s e = rw (e, spelled)

-- Digits only make a number larger.
le-spelled : (base n v : ℕ) (s : Bytes) → 0 < base → spelled base n s ≡ some v → n ≤ v
le-spelled base n v [] pos e = unfold spelled in ground arith
le-spelled base n v (c ∷ s) pos e = elim (Option-cases (digit_value base c)) [
  | inl bad ↦ absurd (cc (spelled_stop base n c s bad))
  | inr (d, good) ↦
      let le = le-spelled base (n * base + d) v s pos (sym (spelled_step base n c d s good) ∙ e) in
      omega (arith, le, le-mul_of_pos_right n pos)
]

-- So a number that is too large already stays refused.
too_large :
    (base max n : ℕ) (s : Bytes) → 0 < base → max < n → bounded max (spelled base n s) ≡ none
too_large base max n s pos h = elim (Option-cases (spelled base n s)) [
  | inl e ↦ rw e
  | inr (v, e) ↦
      let over : leb v max ≡ false = ground (arith, le-spelled base n v s pos e) in rw (e, over)
]

-- The loop's own tests for overflow are exact.
loop-spelled :
    (base max : ℕ) (s : Bytes) (n nd : ℕ)
    → 0 < base
    → base ≤ 16
    → 16 ≤ max
    → max < 2 ^ 64
    → n ≤ max
    → 0 < nd
    → num_done (num_loop base max s n nd) ≡ bounded max (spelled base n s)
unfolding num_loop num_done
loop-spelled base max [] n nd pos b m w h k =
    let t : leb n max ≡ true = ground arith in unfold spelled in rw t (ground arith)
loop-spelled base max (c ∷ s) n nd pos b m w h k = elim (Option-cases (digit_value base c)) [
  | inl e ↦ rw (e, num_loop, spelled_stop base n c s e) (refl)
  | inr (d, e) ↦
      let small = digit-lt base c d b e in
      let fits = le-div_iff_mul-le {k = base} {x = n} {y = max} pos in
      rw (e, num_loop, spelled_step base n c d s e)
        (elim (Bool-cases (ltb (max / base) n)) [
          | inl over ↦
              let big : max < n * base + d = grind (arith, fits.1) in
              rw (over, too_large base max (n * base + d) s pos big)
          | inr ok ↦
              let le : n * base ≤ max = fits.0 (ground arith) in
              let plain : n * base % 2 ^ 64 ≡ n * base = omega arith in
              rw (ok, plain)
                (elim (Bool-cases (ltb (max - d) (n * base))) [
                  | inl over ↦
                      let big : max < n * base + d = ground arith in
                      rw (over, too_large base max (n * base + d) s pos big)
                  | inr ok' ↦ rw ok' (
                      loop-spelled base max s (n * base + d) (nd + 1) pos b m w (ground arith)
                        (omega arith))
                ])
        ])
]

-- The bases and the widths that are supported.
abbrev pub IsBase : ℕ → Type 0
IsBase base = (base ≡ 2) ⊎ ((base ≡ 10) ⊎ (base ≡ 16))

abbrev pub IsWidth : ℕ → Type 0
IsWidth w = (w ≡ 1) ⊎ ((w ≡ 2) ⊎ ((w ≡ 4) ⊎ (w ≡ 8)))

-- What a text means: nothing if it is empty, else the number it spells if `w` bytes hold that.
abbrev pub number : ℕ → ℕ → Bytes → Option ℕ
number base w [] = none
number base w (c ∷ s) = bounded (num_max w) (spelled base 0 (c ∷ s))

-- One digit has been read behind the first step, so the count of digits is not zero.
first-spelled :
    (base max : ℕ) (c : ℕ) (s : Bytes)
    → 0 < base
    → base ≤ 16
    → 16 ≤ max
    → max < 2 ^ 64
    → num_done (num_loop base max (c ∷ s) 0 0) ≡ bounded max (spelled base 0 (c ∷ s))
unfolding num_loop num_done
first-spelled base max c s pos b m w = elim (Option-cases (digit_value base c)) [
  | inl e ↦ rw (e, num_loop, spelled_stop base 0 c s e) (refl)
  | inr (d, e) ↦
      let small = digit-lt base c d b e in
      let none_left : ltb (max / base) 0 ≡ false = ground arith in
      let plain : 0 * base % 2 ^ 64 ≡ 0 * base = omega arith in
      let fits : ltb (max - d) (0 * base) ≡ false = ground arith in
      rw (e, num_loop, spelled_step base 0 c d s e, none_left, plain, fits)
        (loop-spelled base max s (0 * base + d) 1 pos b m w (omega arith) (omega arith))
]

loop-number :
    (base w : ℕ) (s : Bytes)
    → IsBase base
    → 16 ≤ num_max w
    → num_max w < 2 ^ 64
    → num_done (num_loop base (num_max w) s 0 0) ≡ number base w s
loop-number base w [] b lo hi = unfold num_loop num_done in refl
loop-number base w (c ∷ s) b lo hi =
    first-spelled base (num_max w) c s (ground arith) (ground arith) lo hi

width-num_max : (w : ℕ) → IsWidth w → (16 ≤ num_max w) × (num_max w < 2 ^ 64)
width-num_max w (inl e) = rw e (omega arith, omega arith)
width-num_max w (inr (inl e)) = rw e (omega arith, omega arith)
width-num_max w (inr (inr (inl e))) = rw e (omega arith, omega arith)
width-num_max w (inr (inr (inr e))) = rw e (omega arith, omega arith)

num-tests :
    (base w : ℕ)
    → IsBase base
    → IsWidth w
    → ((w == 1 || w == 2 || w == 4 || w == 8) ≡ true)
      × ((base == 2 || base == 10 || base == 16) ≡ true)
num-tests base w b v = (ground arith, ground arith)

num_base-given : (base : ℕ) (s : Bytes) → IsBase base → num_base s base ≡ (base, s)
unfolding num_base
num_base-given base s b = ground arith

read_number :
    (str : Bytes) (base₀ base w : ℕ) (s : Bytes)
    → num_base str base₀ ≡ (base, s)
    → IsBase base
    → IsWidth w
    → str_to_num str base₀ w ≡ number base w s
unfolding str_to_num
read_number str base₀ base w s e b v =
    let tests = num-tests base w b v in
    let ok = width-num_max w v in rw (e, tests.0, tests.1) (loop-number base w s b ok.0 ok.1)

-- With base 2, 10 or 16 and a value of 1, 2, 4 or 8 bytes, `str_to_num` accepts exactly the nonempty
-- texts whose every byte is a digit of the base and whose value fits the bytes, and its result is
-- that value, with no loss by wrapping around. With base 0, a text behind `0x` is read in base 16 and
-- one behind `0b` in base 2.
pub str_to_num-number :
    (base w : ℕ) (s : Bytes)
    → IsBase base
    → IsWidth w
    → (str_to_num s base w ≡ number base w s)
      × (str_to_num (b'0' ∷ b'x' ∷ s) 0 w ≡ number 16 w s)
      × (str_to_num (b'0' ∷ b'b' ∷ s) 0 w ≡ number 2 w s)
unfolding num_base
str_to_num-number base w s b v = (
  read_number s base base w s (num_base-given base s b) b v,
  read_number (b'0' ∷ b'x' ∷ s) 0 16 w s (ground arith) (inr (inr refl)) v,
  read_number (b'0' ∷ b'b' ∷ s) 0 2 w s (ground arith) (inl refl) v,
)
