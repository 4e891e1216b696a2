-- ===== src/Json/Get/Paths.antt =====
-- json.cpp: the paths that `json_get` takes, and which value a path names.
use nanosrv.Common.{
  ◌-◌, ◌*◌, ◌≤◌, ◌^◌, ltb, leb, ℕ, zero, suc, ◌+◌, ◌<◌, Bool, true, false, ◌&&◌, ◌||◌, Option, none,
  some, List, [], ◌∷◌, ◌++◌, ◌≡◌, inl, inr, refl, ap, ◌∙◌, arith, Bytes, ◌==◌, if◌then◌else◌,
  length, drop, get_or, All, Bool-cases, ==_iff,
}
use nanosrv.Json.Lexer.{is_decimal}
use nanosrv.Json.Syntax.{Json, Elems, Members, array, object, no_elems, elem, no_members, member}
use nanosrv.Json.Get.{
  difference, zero_at, pos, read_index, add_digit, head_or_zero, strncmp_equal, path_at,
}

-- A key, and an index with its text.
pub data PathStep : Type 0 where
  key : Bytes → PathStep
  index : Bytes → ℕ → PathStep

abbrev pub spell : List PathStep → Bytes
spell [] = []
spell (key k ∷ ss) = b'.' ∷ (k ++ spell ss)
spell (index t n ∷ ss) = b'[' ∷ (t ++ b']' ∷ spell ss)

-- The bytes that end a key in a path.
unfoldable pub ends_key : ℕ → Bool
ends_key c = c == 0 || c == b'.' || c == b'['

abbrev pub IsPlain : Bytes → Type 0
IsPlain = All (λ c. ends_key c ≡ false)

-- The number that digits spell behind n.
abbrev pub decimal : ℕ → Bytes → ℕ
decimal n [] = n
decimal n (c ∷ t) = decimal (10 * n + (c - b'0')) t

-- A key that is not empty, or an index in digits that fits an int.
abbrev pub IsStep : PathStep → Type 0
IsStep (key k) = IsPlain k × (0 < length k)
IsStep (index t n) = All (λ c. is_decimal c ≡ true) t × (decimal 0 t ≡ n) × (n < 2 ^ 31)

unfoldable pub bytes_equal : Bytes → Bytes → Bool
bytes_equal [] [] = true
bytes_equal [] (d ∷ t) = false
bytes_equal (c ∷ s) [] = false
bytes_equal (c ∷ s) (d ∷ t) = let rest = bytes_equal s t in if c == d then rest else false

unfoldable pub find_member : Bytes → Members → Option Json
unfolding bytes_equal
find_member k no_members = none
find_member k (member k' v ms) =
    let rest = find_member k ms in if bytes_equal k k' then some v else rest

unfoldable pub find_elem : ℕ → Elems → Option Json
find_elem n no_elems = none
find_elem zero (elem v es) = some v
find_elem (suc n) (elem v es) = find_elem n es

-- The value behind one step.
unfoldable pub child : PathStep → Json → Option Json
unfolding find_member find_elem
child (key k) (object ms) = find_member k ms
child (index t n) (array es) = find_elem n es
child _ _ = none

unfoldable pub resolve : List PathStep → Json → Option Json
unfolding child
resolve [] v = some v
resolve (s ∷ ss) v = elim (child s v) [ none ↦ none | some w ↦ resolve ss w ]

-- No key in the value has a byte that ends a key in a path.
unfoldable mutual
  pub HasPlainKeys : Json → Type 0
  HasPlainKeys (array es) = ElemsHavePlainKeys es
  HasPlainKeys (object ms) = MembersHavePlainKeys ms
  HasPlainKeys _ = Unit

  pub ElemsHavePlainKeys : Elems → Type 0
  ElemsHavePlainKeys no_elems = Unit
  ElemsHavePlainKeys (elem v es) = HasPlainKeys v × ElemsHavePlainKeys es

  pub MembersHavePlainKeys : Members → Type 0
  MembersHavePlainKeys no_members = Unit
  MembersHavePlainKeys (member k v ms) = IsPlain k × HasPlainKeys v × MembersHavePlainKeys ms

other :
    (d : ℕ) (x : Bytes)
    → ends_key d ≡ false
    → ends_key (head_or_zero x) ≡ true
    → (d == head_or_zero x) ≡ false
other d x h e = elim (Bool-cases (d == head_or_zero x)) [
  | inl t ↦ absurd (cc (ap ends_key ((==_iff d (head_or_zero x)).0 t), h, e))
  | inr t ↦ t
]

turned : (c d : ℕ) (b : Bool) → (d == c) ≡ b → (c == d) ≡ b
turned c d true t = ground arith
turned c d false t = ground arith

not_zero : (d : ℕ) → ends_key d ≡ false → (d == 0) ≡ false
unfolding ends_key
not_zero d h = ground arith

-- The test of a key against the front of the path is equality.
pub key-equal :
    (k k' x s : Bytes)
    → IsPlain k
    → IsPlain k'
    → ends_key (head_or_zero x) ≡ true
    → (strncmp_equal (k' ++ b'"' ∷ s) (k ++ x) (length k')
        && ends_key (get_or (k ++ x) (length k') 0))
      ≡ bytes_equal k k'
unfolding strncmp_equal bytes_equal
key-equal [] [] x s h h' e = first_or_zero x ∙ e
  where
    first_or_zero : (x : Bytes) → ends_key (get_or x 0 0) ≡ ends_key (head_or_zero x)
    first_or_zero [] = refl
    first_or_zero (c ∷ x) = refl
key-equal [] (d ∷ k') x s h h' e = rw (other d x h'.0 e, strncmp_equal) refl
key-equal (c ∷ k) [] x s h h' e = h.0
key-equal (c ∷ k) (d ∷ k') x s h h' e = elim (Bool-cases (d == c)) [
  | inl t ↦
      rw (t, strncmp_equal, turned c d true t, not_zero d h'.0) (key-equal k k' x s h.1 h'.1 e)
  | inr t ↦ rw (t, strncmp_equal, turned c d false t) refl
]

difference_digit : (n c : ℕ) → is_decimal c ≡ true → add_digit (pos n) c ≡ pos (10 * n + (c - b'0'))
unfolding add_digit difference zero_at is_decimal
difference_digit n c h =
    let narrow : ltb c 128 ≡ true = ground arith in
    let up : leb b'0' (10 * n + c) ≡ true = ground arith in
    let low : b'0' ≤ c = ground arith in rw (narrow, up) (ap pos (omega arith))

no_end : (c : ℕ) → is_decimal c ≡ true → (c == b']' || c == 0) ≡ false
unfolding is_decimal
no_end c h = ground arith

-- The index of a path is read up to its bracket.
pub read_index_digits :
    (t x : Bytes) (n : ℕ)
    → All (λ c. is_decimal c ≡ true) t
    → read_index (t ++ b']' ∷ x) (pos n) ≡ (pos (decimal n t), length t)
unfolding read_index
read_index_digits [] x n h = refl
read_index_digits (c ∷ t) x n h =
    let ih = read_index_digits t x (10 * n + (c - b'0')) h.1 in
    let size : length t + 1 ≡ suc (length t) = omega arith in
    rw (no_end c h.0, difference_digit n c h.0, ih, size) refl

pub path_at-drop : (path : Bytes) (p n : ℕ) → path_at path (p + n) ≡ get_or (drop p path) n 0
unfolding path_at
path_at-drop path zero n = ap (λ k. get_or path k 0) (omega arith)
path_at-drop [] (suc p) n = refl
path_at-drop (c ∷ path) (suc p) n =
    ap (λ k. get_or (c ∷ path) k 0) (let e : suc p + n ≡ suc (p + n) = omega arith in e)
    ∙ path_at-drop path p n
