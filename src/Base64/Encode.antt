-- ===== src/Base64/Encode.antt =====
-- base64.cpp, encoder: what `base64_encode` leaves in the buffer, against the definition of base64.
use nanosrv.Common.{
  ℕ, zero, suc, ◌+◌, ◌*◌, ◌/◌, ◌%◌, ◌≤◌, ◌<◌, [], ◌∷◌, ◌≡◌, ◌≢◌, refl, ◌∙◌, arith, Bytes, length,
  IsBytes, Memory, put, text, text-put, put_self, put_other, Keeps, Grows, Grows-nil, Grows-trans,
  Grows-scratch, Grows-put, Grows-two, min, bit_and_three, bit_and_fifteen, bit_and_sixty_three,
  bit_or_join₄, bit_or_join₂,
}
use nanosrv.Base64.{
  base64_encode_single, base64_update, base64_pad, base64_final, base64_feed, base64_need,
  base64_encode,
}

-- Four characters for three bytes, and padding for one or two bytes at the end.
unfoldable pub encoding : Bytes → Bytes
encoding [] = []
encoding (a ∷ []) =
    base64_encode_single (a / 4) ∷ base64_encode_single (a % 4 * 16) ∷ b'=' ∷ b'=' ∷ []
encoding (a ∷ b ∷ []) =
    base64_encode_single (a / 4)
    ∷ base64_encode_single (a % 4 * 16 + b / 16)
    ∷ base64_encode_single (b % 16 * 4)
    ∷ b'='
    ∷ []
encoding (a ∷ b ∷ c ∷ p) =
    base64_encode_single (a / 4)
    ∷ base64_encode_single (a % 4 * 16 + b / 16)
    ∷ base64_encode_single (b % 16 * 4 + c / 64)
    ∷ base64_encode_single (c % 64)
    ∷ encoding p

-- The three cases of `base64_update`, by the number of characters written so far: what it appends,
-- and the bits that it leaves for the next byte.
update_first :
    (a : ℕ) (to : Memory) (n : ℕ)
    → n % 4 ≡ 0
    → Grows to n (base64_update a to n) (base64_encode_single (a / 4) ∷ [])
      × ((base64_update a to n).0 (base64_update a to n).1 ≡ a % 4 * 16)
update_first a to n h = rw run (Grows-scratch to n _ _, put_self _ (n + 1) (a % 4 * 16))
  where
    run :
        base64_update a to n
        ≡ (put (put to n (base64_encode_single (a / 4))) (n + 1) (a % 4 * 16), n + 1)
    run = unfold base64_update in ground (arith, bit_and_three n, bit_and_three a)

update_second :
    (b : ℕ) (to : Memory) (n x : ℕ)
    → n % 4 ≡ 1
    → b < 256
    → x < 4
    → to n ≡ x * 16
    → Grows to n (base64_update b to n) (base64_encode_single (x * 16 + b / 16) ∷ [])
      × ((base64_update b to n).0 (base64_update b to n).1 ≡ b % 16 * 4)
update_second b to n x h hb hx e = rw run (Grows-scratch to n _ _, put_self _ (n + 1) (b % 16 * 4))
  where
    run :
        base64_update b to n
        ≡ (put (put to n (base64_encode_single (x * 16 + b / 16))) (n + 1) (b % 16 * 4), n + 1)
    run =
        unfold base64_update in
        ground (arith, bit_and_three n, bit_and_fifteen b, bit_or_join₄ x (b / 16))

update_third :
    (c : ℕ) (to : Memory) (n y : ℕ)
    → n % 4 ≡ 2
    → c < 256
    → y < 16
    → to n ≡ y * 4
    → Grows to n
        (base64_update c to n)
        (base64_encode_single (y * 4 + c / 64) ∷ base64_encode_single (c % 64) ∷ [])
update_third c to n y h hc hy e = rw run (Grows-two to n _ _)
  where
    run : base64_update c to n ≡ (
      put
          (put to n (base64_encode_single (y * 4 + c / 64)))
          (n + 1)
          (base64_encode_single (c % 64)),
      n + 2,
    )
    run =
        unfold base64_update in
        ground (arith, bit_and_three n, bit_and_sixty_three c, bit_or_join₂ y (c / 64))

-- Two bytes, and three.
feed_two :
    (a b : ℕ) (p : Bytes) (to : Memory) (n : ℕ)
    → n % 4 ≡ 0
    → b < 256
    → (r : Memory × ℕ) × (base64_feed (a ∷ b ∷ p) to n ≡ base64_feed p r.0 r.1)
      × Grows to n r
          (base64_encode_single (a / 4) ∷ base64_encode_single (a % 4 * 16 + b / 16) ∷ [])
      × (r.0 r.1 ≡ b % 16 * 4)
unfolding base64_feed
feed_two a b p to n h hb =
    let r₁ = base64_update a to n in
    let (g₁, e₁) = update_first a to n h in
    let (g₂, e₂) = update_second b r₁.0 r₁.1 (a % 4) (omega (arith, g₁.ends)) hb (omega arith) e₁ in
    (base64_update b r₁.0 r₁.1, refl, Grows-trans to n r₁ _ _ _ g₁ g₂, e₂)

feed_three :
    (a b c : ℕ) (p : Bytes) (to : Memory) (n : ℕ)
    → n % 4 ≡ 0
    → b < 256
    → c < 256
    → (r : Memory × ℕ) × (base64_feed (a ∷ b ∷ c ∷ p) to n ≡ base64_feed p r.0 r.1)
      × Grows to n r (
          base64_encode_single (a / 4)
          ∷ base64_encode_single (a % 4 * 16 + b / 16)
          ∷ base64_encode_single (b % 16 * 4 + c / 64)
          ∷ base64_encode_single (c % 64)
          ∷ [])
unfolding base64_feed
feed_three a b c p to n h hb hc =
    let (r₂, run, g₂, e₂) = feed_two a b (c ∷ p) to n h hb in
    let g₃ = update_third c r₂.0 r₂.1 (b % 16) (omega (arith, g₂.ends)) hc (omega arith) e₂ in
    (base64_update c r₂.0 r₂.1, run, Grows-trans to n r₂ _ _ _ g₂ g₃)

-- The end of the text: the pending bits, the padding, and the zero behind it.
abbrev Ends : Memory → ℕ → Memory × ℕ → Bytes → Type 0
Ends to n r out = Grows to n r out × (r.0 r.1 ≡ 0)

Ends-put :
    (to : Memory) (n : ℕ) (r : Memory × ℕ) (out : Bytes)
    → Grows to n r out
    → Ends to n (put r.0 r.1 0, r.1) out
Ends-put to n r out g = (
  record {
    ends = g.ends;
    holds = text-put r.0 r.1 0 r.1 (omega arith) ∙ g.holds;
    keeps = λ i h. put_other r.0 r.1 0 i (λ e. omega (arith, g.ends)) ∙ g.keeps i h;
  },
  put_self r.0 r.1 0,
)

pad_none : (f : ℕ) (to : Memory) (n : ℕ) → n % 4 ≡ 0 → base64_pad f to n ≡ (to, n)
unfolding base64_pad
pad_none zero to n h = refl
pad_none (suc f) to n h = ground (arith, bit_and_three n)

pad_more :
    (f : ℕ) (to : Memory) (n : ℕ)
    → n % 4 ≢ 0
    → base64_pad (suc f) to n ≡ base64_pad f (put to n b'=') (n + 1)
unfolding base64_pad
pad_more f to n h = ground (arith, bit_and_three n)

pad_one : (to : Memory) (n : ℕ) → n % 4 ≡ 3 → Grows to n (base64_pad 3 to n) (b'=' ∷ [])
pad_one to n h =
    rw (pad_more 2 to n (λ e. omega arith), pad_none 2 (put to n b'=') (n + 1) (omega arith))
      (Grows-put to n b'=')

pad_two : (to : Memory) (n : ℕ) → n % 4 ≡ 2 → Grows to n (base64_pad 3 to n) (b'=' ∷ b'=' ∷ [])
pad_two to n h =
    rw
      (
        pad_more 2 to n (λ e. omega arith),
        pad_more 1 (put to n b'=') (n + 1) (λ e. omega arith),
        pad_none 1 (put (put to n b'=') (n + 1) b'=') (n + 1 + 1) (omega arith),
      )
      (Grows-trans to n (put to n b'=', n + 1) _ (b'=' ∷ []) (b'=' ∷ []) (Grows-put to n b'=')
        (Grows-put (put to n b'=') (n + 1) b'='))

final_none : (to : Memory) (n : ℕ) → n % 4 ≡ 0 → Ends to n (base64_final to n) []
final_none to n h = rw run (Ends-put to n (to, n) [] (Grows-nil to n))
  where
    run : base64_final to n ≡ (put to n 0, n)
    run = unfold base64_final in ground (arith, bit_and_three n, pad_none 3 to n h)

-- What `base64_final` does with the memory that the flush leaves.
finish : Memory → ℕ → Memory × ℕ
finish to n = (put (base64_pad 3 to n).0 (base64_pad 3 to n).1 0, (base64_pad 3 to n).1)

final_one :
    (to : Memory) (n x : ℕ)
    → n % 4 ≡ 1
    → x < 4
    → to n ≡ x * 16
    → Ends to n (base64_final to n) (base64_encode_single (x * 16) ∷ b'=' ∷ b'=' ∷ [])
unfolding finish
final_one to n x h hx e =
    let r = base64_update 0 to n in
    let (g, _) = update_second 0 to n x h (omega arith) hx e in
    let run : base64_final to n ≡ finish r.0 r.1 =
      unfold base64_final in ground (arith, bit_and_three n) in
    let g' : Grows to n r (base64_encode_single (x * 16) ∷ []) =
      let e₀ : x * 16 + 0 ≡ x * 16 = omega arith in rw e₀ at g in
    rw run
      (Ends-put to n _ _ (Grows-trans to n r _ _ _ g' (pad_two r.0 r.1 (omega (arith, g'.ends)))))

final_two :
    (to : Memory) (n y : ℕ)
    → n % 4 ≡ 2
    → y < 16
    → to n ≡ y * 4
    → Ends to n (base64_final to n) (base64_encode_single (y * 4) ∷ b'=' ∷ [])
unfolding finish
final_two to n y h hy e =
    let to' : Memory =
      put (put to n (base64_encode_single (y * 4))) (n + 1) (base64_encode_single 0) in
    let run : base64_final to n ≡ finish to' (n + 1) =
      unfold base64_final base64_update in
      ground (arith, bit_and_three n, bit_or_join₂ y 0, bit_and_three 0) in
    let g = Grows-scratch to n (base64_encode_single (y * 4)) (base64_encode_single 0) in
    rw run (
      Ends-put to n _ _ (Grows-trans to n (to', n + 1) _ _ _ g (pad_one to' (n + 1) (omega arith))))

-- From a whole number of groups on, feeding the bytes and finishing appends their encoding.
feed-final :
    (p : Bytes) (to : Memory) (n : ℕ)
    → n % 4 ≡ 0
    → IsBytes p
    → Ends to n (base64_final (base64_feed p to n).0 (base64_feed p to n).1) (encoding p)
unfolding encoding
feed-final [] to n h b = unfold base64_feed in final_none to n h
feed-final (a ∷ []) to n h b =
    let r = base64_update a to n in
    let (g, e) = update_first a to n h in
    let (g', z) = final_one r.0 r.1 (a % 4) (omega (arith, g.ends)) (omega arith) e in
    unfold base64_feed in (Grows-trans to n r _ _ _ g g', z)
feed-final (a ∷ c ∷ []) to n h b =
    let (r, run, g, e) = feed_two a c [] to n h b.1.0 in
    let (g', z) = final_two r.0 r.1 (c % 16) (omega (arith, g.ends)) (omega arith) e in
    let done : base64_feed [] r.0 r.1 ≡ r = unfold base64_feed in refl in
    rw (run, done) (Grows-trans to n r _ _ _ g g', z)
feed-final (a ∷ c ∷ d ∷ p) to n h b =
    let (r, run, g) = feed_three a c d p to n h b.1.0 b.1.1.0 in
    let (g', z) = feed-final p r.0 r.1 (omega (arith, g.ends)) b.1.1.1 in
    rw run (Grows-trans to n r _ _ _ g g', z)

pub length-encoding : (p : Bytes) → length (encoding p) + 1 ≡ base64_need (length p)
unfolding encoding
length-encoding [] = refl
length-encoding (a ∷ []) = refl
length-encoding (a ∷ b ∷ []) = refl
length-encoding (a ∷ b ∷ c ∷ p) = ground (arith, length-encoding p)

-- Given a buffer of at least the size that `base64_encode` asks for, it writes the encoding of the
-- input and a zero behind it, returns the length of the encoding, and changes no byte of memory at
-- or above the size that it asks for.
pub base64_encode_lem :
    (p : Bytes) (to : Memory) (dl : ℕ)
    → IsBytes p
    → base64_need (length p) ≤ dl
    → let r = base64_encode p to dl in
      (text r.0 r.1 ≡ encoding p)
      × (r.1 + 1 ≡ base64_need (length p))
      × (r.0 r.1 ≡ 0)
      × Keeps (base64_need (length p)) to r.0
unfolding base64_encode
base64_encode_lem p to dl b fits =
    let to' : Memory = put to 0 0 in
    let (g, z) = feed-final p to' 0 refl b in
    let r = base64_final (base64_feed p to' 0).0 (base64_feed p to' 0).1 in
    let run : base64_encode p to dl ≡ r = ground arith in
    rw run (
      (unfold text in g.holds),
      omega (arith, g.ends, length-encoding p),
      z,
      λ i h. g.keeps i (omega (arith, length-encoding p)) ∙ put_other to 0 0 i (λ e. omega arith),
    )

-- A smaller buffer is refused: the length is 0, and at most the first byte of memory is cleared.
base64_encode_refuses :
    (p : Bytes) (to : Memory) (dl : ℕ)
    → dl < base64_need (length p)
    → let r = base64_encode p to dl in (r.1 ≡ 0) × Keeps (min 1 dl) to r.0
unfolding base64_encode
base64_encode_refuses p to dl small = (ground arith, λ i h. ground (arith, put_other to 0 0 i))
