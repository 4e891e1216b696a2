-- ===== src/Base64/Decode.antt =====
-- base64.cpp, decoder: it stays within its buffer on every input, and undoes the encoder.
use nanosrv.Common.{
  ℕ, ◌+◌, ◌*◌, ◌/◌, ◌%◌, ◌≤◌, ◌<◌, Bool, true, false, Option, none, some, [], ◌∷◌, ◌≡◌,
  Option-cases, refl, ◌∙◌, arith, Bytes, length, IsBytes, ltb, ◌==◌, if◌then◌else◌, Memory, put,
  text, text-put, put_self, put_other, put-Keeps, Keeps, Keeps-trans, Grows, Grows-nil, Grows-trans,
  Grows-put, Grows-two, Grows-three, bit_or_join₄, bit_or_join₂, bit_or_join₆, bit_or, not, ◌||◌,
  ◌⊎◌, inl, inr, Bool-cases, min,
}
use nanosrv.Base64.{
  base64_encode_single, base64_decode_single, base64_decode_round, base64_decode_loop,
  base64_decode, base64_decode_string, base64_encode_string,
}
use nanosrv.Base64.Encode.{encoding, length-encoding, base64_encode_lem}

decode-encode_single : (x : ℕ) → x < 64 → base64_decode_single (base64_encode_single x) ≡ some x
unfolding base64_encode_single base64_decode_single
decode-encode_single x h = ground arith

encode_single-ne-pad : (x : ℕ) → x < 64 → (base64_encode_single x == b'=') ≡ false
unfolding base64_encode_single
encode_single-ne-pad x h = ground arith

-- Memory from `k` on is unchanged, and a length that is returned is at most `k`.
abbrev Within : ℕ → Memory → Memory × Option ℕ → Type 0
Within k dst r = Keeps k dst r.0 × ((j : ℕ) → r.1 ≡ some j → j ≤ k)

Within-none : (k : ℕ) (dst : Memory) → Within k dst (dst, none)
Within-none k dst = (λ i h. refl, λ j e. cc)

round-Within :
    (a b c d : Option ℕ) (p q : Bool) (dst : Memory) (len k : ℕ)
    (next : Memory → ℕ → Memory × Option ℕ)
    → len + 3 ≤ k
    → ((to : Memory) (m : ℕ) → m ≤ len + 3 → Within k to (next to m))
    → Within k dst (base64_decode_round a b c d p q dst len next)
unfolding base64_decode_round
round-Within (some a) (some b) (some c) (some d) p q dst len k next h rest =
    elim (Bool-cases (a == 64 || b == 64)) [
      | inl bad ↦ rw bad (Within-none k dst)
      | inr good ↦ rw good (stores p q)
    ]
  where
    dst₁ : Memory
    dst₁ = put dst len (bit_or (a * 4) (b / 16) % 256)

    dst₂ : Memory
    dst₂ = put dst₁ (len + 1) (bit_or (b * 16) (c / 4) % 256)

    dst₃ : Memory
    dst₃ = put dst₂ (len + 2) (bit_or (c * 64) d % 256)

    k₁ : Keeps k dst dst₁
    k₁ = put-Keeps k dst len _ (omega arith)

    k₂ : Keeps k dst dst₂
    k₂ = Keeps-trans k k dst dst₁ dst₂ (omega arith) k₁ (put-Keeps k dst₁ (len + 1) _ (omega arith))

    k₃ : Keeps k dst dst₃
    k₃ = Keeps-trans k k dst dst₂ dst₃ (omega arith) k₂ (put-Keeps k dst₂ (len + 2) _ (omega arith))

    after : (to : Memory) (m : ℕ) → Keeps k dst to → m ≤ len + 3 → Within k dst (next to m)
    after to m ks le =
        let (ks', ends) = rest to m le in (Keeps-trans k k dst to _ (omega arith) ks ks', ends)

    stores :
        (p q : Bool)
        → Within k dst (
            if p
            then next dst₁ (len + 1)
            else if q
            then next dst₂ (len + 2)
            else next dst₃ (len + 3))
    stores true q = after dst₁ (len + 1) k₁ (omega arith)
    stores false true = after dst₂ (len + 2) k₂ (omega arith)
    stores false false = after dst₃ (len + 3) k₃ (omega arith)
round-Within _ _ _ _ p q dst len k next h rest = Within-none k dst

-- On every input the loop writes inside three bytes for each group of four characters.
loop-Within :
    (src : Bytes) (dst : Memory) (len k : ℕ)
    → len + length src / 4 * 3 ≤ k
    → Within k dst (base64_decode_loop src dst len)
unfolding base64_decode_loop
loop-Within [] dst len k h = (λ i h. refl, λ j e. ground arith)
loop-Within (a ∷ []) dst len k h = (λ i h. refl, λ j e. ground arith)
loop-Within (a ∷ b ∷ []) dst len k h = (λ i h. refl, λ j e. ground arith)
loop-Within (a ∷ b ∷ c ∷ []) dst len k h = (λ i h. refl, λ j e. ground arith)
loop-Within (a ∷ b ∷ c ∷ d ∷ src) dst len k h =
    round-Within _ _ _ _ _ _ dst len k (base64_decode_loop src) (omega arith)
      λ to m le. loop-Within src to m k (omega arith)

-- On every input, valid or not, the decoder writes at most three quarters of its length and a zero
-- behind that, never past the buffer, and returns a length that leaves room for the zero.
pub base64_decode_bounds :
    (src : Bytes) (dst : Memory) (dl : ℕ)
    → let r = base64_decode src dst dl in
      Keeps (min dl (length src / 4 * 3 + 1)) dst r.0
      × ((r.1 ≡ 0) ⊎ (r.1 + 1 ≤ min dl (length src / 4 * 3 + 1)))
unfolding base64_decode
base64_decode_bounds src dst dl =
    let (keeps, ends) = loop-Within src dst 0 (length src / 4 * 3) (omega arith) in
    elim (Bool-cases (not (length src % 4 == 0) || ltb dl (length src / 4 * 3 + 1))) [
      | inl bad ↦ rw bad (λ i h. ground (arith, put_other dst 0 0 i), inl refl)
      | inr good ↦
          let room : length src / 4 * 3 + 1 ≤ dl = ground arith in
          rw good (elim (Option-cases (base64_decode_loop src dst 0).1) [
            | inl e ↦ rw e (
              λ i h.
                  ground (
                    arith,
                    keeps i (omega arith),
                    put_other (base64_decode_loop src dst 0).0 0 0 i,
                  ),
              inl refl,
            )
            | inr (len, e) ↦ rw e (
              λ i h. ground (
                arith,
                keeps i (omega arith),
                ends len e,
                put_other (base64_decode_loop src dst 0).0 len 0 i,
              ),
              inr (ground (arith, ends len e)),
            )
          ])
    ]

-- The characters of a group are decoded to the six bits that they were made from.
loop_group :
    (w x y z : ℕ) (src : Bytes) (dst : Memory) (len : ℕ)
    → w < 64
    → x < 64
    → y < 64
    → z < 64
    → base64_decode_loop
        (base64_encode_single w
          ∷ base64_encode_single x
          ∷ base64_encode_single y
          ∷ base64_encode_single z
          ∷ src)
        dst
        len
      ≡ base64_decode_round
          (some w)
          (some x)
          (some y)
          (some z)
          false
          false
          dst
          len
          (base64_decode_loop src)
unfolding base64_decode_loop
loop_group w x y z src dst len hw hx hy hz = rw (
  decode-encode_single w hw,
  decode-encode_single x hx,
  decode-encode_single y hy,
  decode-encode_single z hz,
  encode_single-ne-pad y hy,
  encode_single-ne-pad z hz,
)

round_three :
    (a b c : ℕ) (dst : Memory) (len : ℕ) (next : Memory → ℕ → Memory × Option ℕ)
    → a < 256
    → b < 256
    → c < 256
    → base64_decode_round
        (some (a / 4))
        (some (a % 4 * 16 + b / 16))
        (some (b % 16 * 4 + c / 64))
        (some (c % 64))
        false
        false
        dst
        len
        next
      ≡ next (put (put (put dst len a) (len + 1) b) (len + 2) c) (len + 3)
unfolding base64_decode_round
round_three a b c dst len next ha hb hc = ground (
  arith,
  bit_or_join₂ (a / 4) ((a % 4 * 16 + b / 16) / 16),
  bit_or_join₄ (a % 4 * 16 + b / 16) ((b % 16 * 4 + c / 64) / 4),
  bit_or_join₆ (b % 16 * 4 + c / 64) (c % 64),
)

round_two :
    (a b : ℕ) (dst : Memory) (len : ℕ) (next : Memory → ℕ → Memory × Option ℕ)
    → a < 256
    → b < 256
    → base64_decode_round
        (some (a / 4))
        (some (a % 4 * 16 + b / 16))
        (some (b % 16 * 4))
        (some 64)
        false
        true
        dst
        len
        next
      ≡ next (put (put dst len a) (len + 1) b) (len + 2)
unfolding base64_decode_round
round_two a b dst len next ha hb = ground (
  arith,
  bit_or_join₂ (a / 4) ((a % 4 * 16 + b / 16) / 16),
  bit_or_join₄ (a % 4 * 16 + b / 16) (b % 16 * 4 / 4),
)

round_one :
    (a : ℕ) (dst : Memory) (len : ℕ) (next : Memory → ℕ → Memory × Option ℕ)
    → a < 256
    → base64_decode_round
        (some (a / 4))
        (some (a % 4 * 16))
        (some 64)
        (some 64)
        true
        true
        dst
        len
        next
      ≡ next (put dst len a) (len + 1)
unfolding base64_decode_round
round_one a dst len next ha = ground (arith, bit_or_join₂ (a / 4) (a % 4 * 16 / 16))

pad_value : base64_decode_single b'=' ≡ some 64
unfolding base64_decode_single
pad_value = refl

-- The decoder has appended `p` at `len` and succeeded.
abbrev Decodes : Bytes → Memory → ℕ → Memory × Option ℕ → Type 0
Decodes p dst len r = (m : ℕ) × (r.1 ≡ some m) × Grows dst len (r.0, m) p

loop_nil : (dst : Memory) (len : ℕ) → base64_decode_loop [] dst len ≡ (dst, some len)
unfolding base64_decode_loop
loop_nil dst len = refl

loop-encoding :
    (p : Bytes) (dst : Memory) (len : ℕ)
    → IsBytes p
    → Decodes p dst len (base64_decode_loop (encoding p) dst len)
unfolding encoding
loop-encoding [] dst len b = rw loop_nil (len, refl, Grows-nil dst len)
loop-encoding (a ∷ []) dst len b =
    let run : base64_decode_loop (encoding (a ∷ [])) dst len ≡ (put dst len a, some (len + 1)) =
      unfold base64_decode_loop in
      rw (
        decode-encode_single (a / 4) (omega arith),
        decode-encode_single (a % 4 * 16) (omega arith),
        pad_value,
        round_one a dst len (base64_decode_loop []) b.0,
      ) in
    rw run (len + 1, refl, Grows-put dst len a)
loop-encoding (a ∷ c ∷ []) dst len b =
    let run : base64_decode_loop (encoding (a ∷ c ∷ [])) dst len
        ≡ (put (put dst len a) (len + 1) c, some (len + 2)) =
      unfold base64_decode_loop in
      rw (
        decode-encode_single (a / 4) (omega arith),
        decode-encode_single (a % 4 * 16 + c / 16) (omega arith),
        decode-encode_single (c % 16 * 4) (omega arith),
        pad_value,
        encode_single-ne-pad (c % 16 * 4) (omega arith),
        round_two a c dst len (base64_decode_loop []) b.0 b.1.0,
      ) in
    rw run (len + 2, refl, Grows-two dst len a c)
loop-encoding (a ∷ c ∷ d ∷ p) dst len b =
    let to : Memory = put (put (put dst len a) (len + 1) c) (len + 2) d in
    let (m, e, g) = loop-encoding p to (len + 3) b.1.1.1 in
    rw
      (
        loop_group (a / 4) (a % 4 * 16 + c / 16) (c % 16 * 4 + d / 64) (d % 64) (encoding p) dst len
            (omega arith) (omega arith) (omega arith) (omega arith),
        round_three a c d dst len (base64_decode_loop (encoding p)) b.0 b.1.0 b.1.1.0,
      )
      (m, e, Grows-trans dst len (to, len + 3) _ _ _ (Grows-three dst len a c d) g)

-- The decoder undoes the encoding of any bytes: it returns their number, puts a zero behind them,
-- and changes nothing further on.
pub base64_decode-encoding :
    (p : Bytes) (dst : Memory) (dl : ℕ)
    → IsBytes p
    → (length p + 2) / 3 * 3 + 1 ≤ dl
    → let r = base64_decode (encoding p) dst dl in
      (text r.0 r.1 ≡ p) × (r.1 ≡ length p) × (r.0 r.1 ≡ 0) × Keeps (length p + 1) dst r.0
base64_decode-encoding p dst dl b room =
    let (m, ok, g) = loop-encoding p dst 0 b in
    let to' : Memory = (base64_decode_loop (encoding p) dst 0).0 in
    let need = length-encoding p in
    let run : base64_decode (encoding p) dst dl ≡ (put to' m 0, m) =
      unfold base64_decode in ground (arith, need) in
    rw run (
      text-put to' m 0 m (omega arith) ∙ (unfold text in g.holds),
      g.ends ∙ omega arith,
      put_self to' m 0,
      λ i h. put_other to' m 0 i (λ e. omega (arith, g.ends)) ∙ g.keeps i (omega arith),
    )

-- Decoding the text that `base64_encode` returns for a string gives the string back.
pub decode-encode_string :
    (p : Bytes) → IsBytes p → base64_decode_string (base64_encode_string p) ≡ p
unfolding base64_decode_string base64_encode_string
decode-encode_string p b =
    let (e, _, _, _) = base64_encode_lem p (λ _. 0) ((length p / 3 + 1) * 4 + 1) b (ground arith) in
    let need = length-encoding p in
    rw e
      (base64_decode-encoding p (λ _. 0) (length (encoding p) / 4 * 3 + 1) b
        (ground (arith, need))).0
