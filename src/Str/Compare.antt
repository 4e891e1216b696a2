-- ===== src/Str/Compare.antt =====
-- str.cpp, `str_cmp`, `str_casecmp` and `span`.
use nanosrv.Common.{
  ℕ, ◌<◌, some, [], ◌∷◌, ◌++◌, ◌≡◌, ◌≢◌, ◌↔◌, ◌⊎◌, inl, inr, refl, sym, ap, ◌∙◌, arith, Bytes, ◌==◌,
  map, All, Bool-cases, ==_iff, IsBytes,
}
use nanosrv.Str.{
  char_rank, tolc, Sign, minus, zero_sign, plus, compare_by, str_cmp, str_casecmp, span_loop, span,
}

abbrev pub opposite : Sign → Sign
opposite minus = plus
opposite zero_sign = zero_sign
opposite plus = minus

module _ (value : ℕ → ℕ) where
  compare_by-opposite : (s t : Bytes) → compare_by value t s ≡ opposite (compare_by value s t)
  unfolding compare_by
  compare_by-opposite [] [] = refl
  compare_by-opposite [] (d ∷ t) = refl
  compare_by-opposite (c ∷ s) [] = refl
  compare_by-opposite (c ∷ s) (d ∷ t) = ground (arith, compare_by-opposite s t)

  pub compare_by_equal :
      (s t : Bytes) → (compare_by value s t ≡ zero_sign) ↔ (map value s ≡ map value t)
  unfolding compare_by
  compare_by_equal [] [] = ground arith
  compare_by_equal [] (d ∷ t) = ground arith
  compare_by_equal (c ∷ s) [] = ground arith
  compare_by_equal (c ∷ s) (d ∷ t) = ground (arith, compare_by_equal s t)

  compare_by_trans :
      (s t u : Bytes)
      → compare_by value s t ≡ minus
      → compare_by value t u ≡ minus
      → compare_by value s u ≡ minus
  unfolding compare_by
  compare_by_trans [] [] u h k = ground arith
  compare_by_trans [] (d ∷ t) [] h k = ground arith
  compare_by_trans [] (d ∷ t) (e ∷ u) h k = ground arith
  compare_by_trans (c ∷ s) [] u h k = ground arith
  compare_by_trans (c ∷ s) (d ∷ t) [] h k = ground arith
  compare_by_trans (c ∷ s) (d ∷ t) (e ∷ u) h k = ground (arith, compare_by_trans s t u)

  compare_by_prefix : (s : Bytes) (c : ℕ) (t : Bytes) → compare_by value s (s ++ c ∷ t) ≡ minus
  unfolding compare_by
  compare_by_prefix [] c t = refl
  compare_by_prefix (a ∷ s) c t = ground (arith, compare_by_prefix s c t)

-- Bytes with the same rank are equal.
char_rank-injective : (c d : ℕ) → c < 256 → d < 256 → char_rank c ≡ char_rank d → c ≡ d
unfolding char_rank
char_rank-injective c d hc hd e = ground arith

tolc-injective :
    (c d : ℕ) → c < 256 → d < 256 → char_rank (tolc c) ≡ char_rank (tolc d) → tolc c ≡ tolc d
unfolding tolc char_rank
tolc-injective c d hc hd e = ground arith

-- Strings of bytes that agree in one value of the bytes agree in another that it determines.
map_determined :
    (f g : ℕ → ℕ) (s t : Bytes)
    → ((c d : ℕ) → c < 256 → d < 256 → f c ≡ f d → g c ≡ g d)
    → IsBytes s
    → IsBytes t
    → map f s ≡ map f t
    → map g s ≡ map g t
map_determined f g [] [] h hs ht e = refl
map_determined f g [] (d ∷ t) h hs ht e = ground arith
map_determined f g (c ∷ s) [] h hs ht e = ground arith
map_determined f g (c ∷ s) (d ∷ t) h hs ht e =
    let heads : g c ≡ g d = h c d hs.0 ht.0 (cc e) in
    let tails : map g s ≡ map g t = map_determined f g s t h hs.1 ht.1 (cc e) in rw (heads, tails)

map_same : (s : Bytes) → map (λ c. c) s ≡ s
map_same [] = refl
map_same (c ∷ s) = ap (◌∷◌ c) (map_same s)

map-map : (f g : ℕ → ℕ) (s : Bytes) → map (λ c. g (f c)) s ≡ map g (map f s)
map-map f g [] = refl
map-map f g (c ∷ s) = ap (◌∷◌ (g (f c))) (map-map f g s)

-- Nothing of `s` is the byte `sep`.
abbrev pub Lacks : ℕ → Bytes → Type 0
Lacks sep = All (λ c. c ≢ sep)

span_loop-splits :
    (s : Bytes) (sep : ℕ)
    → let r = span_loop s sep in Lacks sep r.0 × (((s ≡ r.0) × (r.1 ≡ [])) ⊎ (s ≡ r.0 ++ sep ∷ r.1))
unfolding span_loop
span_loop-splits [] sep = (tt, inl (refl, refl))
span_loop-splits (c ∷ s) sep = elim (Bool-cases (c == sep)) [
  | inl e ↦ rw e (tt, inr (rw ((==_iff c sep).0 e)))
  | inr e ↦
      let ih = span_loop-splits s sep in
      rw e
        ((ground arith, ih.0), elim ih.1 [ inl p ↦ inl (ap (◌∷◌ c) p.0, p.1) | inr p ↦ inr (cc p) ])
]

-- On byte strings, `str_cmp` answers 0 exactly for equal strings; turning the arguments around turns
-- the sign around; and a string stands before each of its proper extensions.
str_cmp_order :
    (s t : Bytes) (c : ℕ)
    → IsBytes s
    → IsBytes t
    → ((str_cmp s t ≡ zero_sign) ↔ (s ≡ t))
      × (str_cmp t s ≡ opposite (str_cmp s t))
      × (str_cmp s (s ++ c ∷ t) ≡ minus)
unfolding str_cmp
str_cmp_order s t c hs ht =
    let eq = compare_by_equal char_rank s t in
    let equal = λ (e : str_cmp s t ≡ zero_sign).
      sym (map_same s)
      ∙ map_determined char_rank (λ c. c) s t char_rank-injective hs ht (eq.0 e)
      ∙ map_same t in
    (
      (equal, λ e. eq.1 (ap (map char_rank) e)),
      compare_by-opposite char_rank s t,
      compare_by_prefix char_rank s c t,
    )

-- What `str_cmp` puts first stays first across a third string: -1 twice in a row is -1.
str_cmp_trans : (s t u : Bytes) → str_cmp s t ≡ minus → str_cmp t u ≡ minus → str_cmp s u ≡ minus
unfolding str_cmp
str_cmp_trans = compare_by_trans char_rank

-- On byte strings, `str_casecmp` answers 0 exactly for strings that agree when their ASCII capitals are
-- made small, and turning the arguments around turns the sign around.
str_casecmp_order :
    (s t : Bytes)
    → IsBytes s
    → IsBytes t
    → ((str_casecmp s t ≡ zero_sign) ↔ (map tolc s ≡ map tolc t))
      × (str_casecmp t s ≡ opposite (str_casecmp s t))
unfolding str_casecmp
str_casecmp_order s t hs ht =
    let value : ℕ → ℕ = λ c. char_rank (tolc c) in
    let eq = compare_by_equal value s t in
    let back = λ (e : map tolc s ≡ map tolc t).
      eq.1 (map-map tolc char_rank s ∙ ap (map char_rank) e ∙ sym (map-map tolc char_rank t)) in
    (
      (λ e. map_determined value tolc s t tolc-injective hs ht (eq.0 e), back),
      compare_by-opposite value s t,
    )

-- A nonempty string is cut at its first separator: the separator is nowhere in the first part, and
-- the two parts and the separator between them are the string; without one, the first part is all
-- of it and the second is empty.
span_splits :
    (c : ℕ) (s : Bytes) (sep : ℕ)
    → (a : Bytes) × (b : Bytes) × (span (c ∷ s) sep ≡ some (a, b))
      × Lacks sep a
      × (((c ∷ s ≡ a) × (b ≡ [])) ⊎ (c ∷ s ≡ a ++ sep ∷ b))
unfolding span
span_splits c s sep =
    let r = span_loop-splits (c ∷ s) sep in
    ((span_loop (c ∷ s) sep).0, (span_loop (c ∷ s) sep).1, refl, r.0, r.1)
