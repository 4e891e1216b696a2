-- ===== src/Common/Bits.antt =====
-- Bit operations: laws at every number from the digit recursion, and at bytes by tables.
use Prim.Native.Nat.{
  ℕ, zero, suc, ◌+◌, ◌*◌, ◌/◌, ◌%◌, ◌≤◌, ◌<◌, min, bit_and, bit_or, bit_xor, digits,
  bit_and-bitwise,
}
use mathlib.Core.Path.{◌≡◌, refl, ◌∙◌}
use mathlib.Core.Bool.{Bool, true, ◌&&◌}
use native.Mathlib.Decide.{ℕ_discrete}
use native.Mathlib.Omega.{arith}
use nanosrv.Common.Tests.{◌==◌, ==_iff}

-- Whether a test holds of all numbers below a bound, found by evaluation.
unfoldable pub all_below : ℕ → (ℕ → Bool) → Bool
all_below zero holds = true
all_below (suc bound) holds = holds bound && all_below bound holds

pub all_below_sound :
    (bound : ℕ) (holds : ℕ → Bool) (value : ℕ)
    → all_below bound holds ≡ true
    → value < bound
    → holds value ≡ true
unfolding all_below
all_below_sound zero holds value checked small = absurd (omega arith)
all_below_sound (suc bound) holds value checked small = elim (ℕ_discrete value bound) [
  | yes last ↦ rw last (ground arith)
  | no other ↦ all_below_sound bound holds value (ground arith) (omega arith)
]

-- Two functions of two small numbers that agree on a table agree.
pub agree_below :
    (n m : ℕ) (f g : ℕ → ℕ → ℕ) (x y : ℕ)
    → all_below n (λ a. all_below m (λ b. f a b == g a b)) ≡ true
    → x < n
    → y < m
    → f x y ≡ g x y
agree_below n m f g x y h hx hy = (==_iff (f x y) (g x y)).0 (
    all_below_sound m (λ b. f x b == g x b) y
      (all_below_sound n (λ a. all_below m (λ b. f a b == g a b)) x h hx) hy)

-- x & mask with room for n digits, as the native operation stands for it. A mask of k ones keeps the
-- k lowest digits.
abbrev masked : ℕ → ℕ → ℕ → ℕ
masked = digits (λ _. zero) min

ones₀ : (n a : ℕ) → a ≤ n → masked n a 0 ≡ 0
ones₀ zero a h = refl
ones₀ (suc n) zero h = refl
ones₀ (suc n) (suc a) h = omega (arith, ones₀ n (suc a / 2) (omega arith))

ones₁ : (n a : ℕ) → a ≤ n → masked n a 1 ≡ a % 2
ones₁ zero zero h = refl
ones₁ zero (suc a) h = absurd (omega arith)
ones₁ (suc n) zero h = refl
ones₁ (suc n) (suc a) h = omega (arith, ones₀ n (suc a / 2) (omega arith))

ones₂ : (n a : ℕ) → a ≤ n → masked n a 3 ≡ a % 4
ones₂ zero zero h = refl
ones₂ zero (suc a) h = absurd (omega arith)
ones₂ (suc n) zero h = refl
ones₂ (suc n) (suc a) h = omega (arith, ones₁ n (suc a / 2) (omega arith))

ones₃ : (n a : ℕ) → a ≤ n → masked n a 7 ≡ a % 8
ones₃ zero zero h = refl
ones₃ zero (suc a) h = absurd (omega arith)
ones₃ (suc n) zero h = refl
ones₃ (suc n) (suc a) h = omega (arith, ones₂ n (suc a / 2) (omega arith))

ones₄ : (n a : ℕ) → a ≤ n → masked n a 15 ≡ a % 16
ones₄ zero zero h = refl
ones₄ zero (suc a) h = absurd (omega arith)
ones₄ (suc n) zero h = refl
ones₄ (suc n) (suc a) h = omega (arith, ones₃ n (suc a / 2) (omega arith))

ones₅ : (n a : ℕ) → a ≤ n → masked n a 31 ≡ a % 32
ones₅ zero zero h = refl
ones₅ zero (suc a) h = absurd (omega arith)
ones₅ (suc n) zero h = refl
ones₅ (suc n) (suc a) h = omega (arith, ones₄ n (suc a / 2) (omega arith))

ones₆ : (n a : ℕ) → a ≤ n → masked n a 63 ≡ a % 64
ones₆ zero zero h = refl
ones₆ zero (suc a) h = absurd (omega arith)
ones₆ (suc n) zero h = refl
ones₆ (suc n) (suc a) h = omega (arith, ones₅ n (suc a / 2) (omega arith))

pub bit_and_three : (a : ℕ) → bit_and a 3 ≡ a % 4
bit_and_three a = bit_and-bitwise a 3 ∙ ones₂ a a (omega arith)

pub bit_and_fifteen : (a : ℕ) → bit_and a 15 ≡ a % 16
bit_and_fifteen a = bit_and-bitwise a 15 ∙ ones₄ a a (omega arith)

pub bit_and_sixty_three : (a : ℕ) → bit_and a 63 ≡ a % 64
bit_and_sixty_three a = bit_and-bitwise a 63 ∙ ones₆ a a (omega arith)

-- Two fields that do not meet are joined by |.
or_table₂ : all_below 64 (λ x. all_below 4 (λ y. bit_or (x * 4) y == x * 4 + y)) ≡ true
unfolding all_below
or_table₂ = refl

or_table₄ : all_below 64 (λ x. all_below 16 (λ y. bit_or (x * 16) y == x * 16 + y)) ≡ true
unfolding all_below
or_table₄ = refl

or_table₆ : all_below 64 (λ x. all_below 64 (λ y. bit_or (x * 64) y == x * 64 + y)) ≡ true
unfolding all_below
or_table₆ = refl

pub bit_or_join₂ : (x y : ℕ) → x < 64 → y < 4 → bit_or (x * 4) y ≡ x * 4 + y
bit_or_join₂ x y = agree_below 64 4 (λ a b. bit_or (a * 4) b) (λ a b. a * 4 + b) x y or_table₂

pub bit_or_join₄ : (x y : ℕ) → x < 64 → y < 16 → bit_or (x * 16) y ≡ x * 16 + y
bit_or_join₄ x y = agree_below 64 16 (λ a b. bit_or (a * 16) b) (λ a b. a * 16 + b) x y or_table₄

pub bit_or_join₆ : (x y : ℕ) → x < 64 → y < 64 → bit_or (x * 64) y ≡ x * 64 + y
bit_or_join₆ x y = agree_below 64 64 (λ a b. bit_or (a * 64) b) (λ a b. a * 64 + b) x y or_table₆

-- Masking a byte twice gives it back.
xor_table : all_below 256 (λ x. all_below 256 (λ m. bit_xor (bit_xor x m) m == x)) ≡ true
unfolding all_below
xor_table = refl

pub bit_xor_twice : (x m : ℕ) → x < 256 → m < 256 → bit_xor (bit_xor x m) m ≡ x
bit_xor_twice x m = agree_below 256 256 (λ a b. bit_xor (bit_xor a b) b) (λ a b. a) x m xor_table
