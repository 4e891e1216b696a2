-- ===== src/Base64.antt =====
-- projects/nanosrv/base64.cpp: the encoder writes through a buffer, and keeps in the cell after the
-- text the bits of the byte that is not yet complete.
pub mod Encode
pub mod Decode
mod Examples
use nanosrv.Common.{
  ℕ, zero, suc, ◌+◌, ◌-◌, ◌*◌, ◌/◌, ◌%◌, bit_and, bit_or, Bool, true, false, not, ◌&&◌, ◌||◌,
  Option, none, some, [], ◌∷◌, ◌≡◌, refl, Bytes, codes, ltb, leb, ◌==◌, if◌then◌else◌, length,
  Memory, put, text,
}

unfoldable pub base64_encode_single : ℕ → ℕ
base64_encode_single c =
    if ltb c 26
    then c + b'A'
    else if ltb c 52
    then c - 26 + b'a'
    else if ltb c 62
    then c - 52 + b'0'
    else if c == 62
    then b'+'
    else b'/'

-- `none` stands for -1.
unfoldable pub base64_decode_single : ℕ → Option ℕ
base64_decode_single c =
    if leb b'A' c && leb c b'Z'
    then some (c - b'A')
    else if leb b'a' c && leb c b'z'
    then some (c + 26 - b'a')
    else if leb b'0' c && leb c b'9'
    then some (c + 52 - b'0')
    else if c == b'+'
    then some 62
    else if c == b'/'
    then some 63
    else if c == b'='
    then some 64
    else none

unfoldable pub base64_update : ℕ → Memory → ℕ → Memory × ℕ
base64_update ch to n =
    let rem = bit_and n 3 % 3 in
    if rem == 0
    then (put (put to n (base64_encode_single (ch / 4))) (n + 1) (bit_and ch 3 * 16), n + 1)
    else if rem == 1
    then (
      put (put to n (base64_encode_single (bit_or (to n) (ch / 16)))) (n + 1) (bit_and ch 15 * 4),
      n + 1,
    )
    else (
      put (put to n (base64_encode_single (bit_or (to n) (ch / 64)))) (n + 1)
          (base64_encode_single (bit_and ch 63)),
      n + 2,
    )

-- `while (n & 3) to[n++] = '=';` makes three rounds at most.
unfoldable pub base64_pad : ℕ → Memory → ℕ → Memory × ℕ
base64_pad zero to n = (to, n)
base64_pad (suc f) to n = elim (bit_and n 3 == 0) [
  | true ↦ (to, n)
  | false ↦ base64_pad f (put to n b'=') (n + 1)
]

-- The call of `base64_update` that flushes the pending bits.
unfoldable pub base64_flush : Memory → ℕ → Memory × ℕ
base64_flush to n = if bit_and n 3 == 0 then (to, n) else base64_update 0 to n

unfoldable pub base64_final : Memory → ℕ → Memory × ℕ
unfolding base64_flush base64_pad
base64_final to saved =
    let (to₁, n₁) = base64_flush to saved in
    let n₂ = if bit_and saved 3 == 2 then n₁ - 1 else n₁ in
    let (to₂, n₃) = base64_pad 3 to₁ n₂ in (put to₂ n₃ 0, n₃)

-- `for (i = 0; i < n; i++) len = base64_update(p[i], to, len);`
unfoldable pub base64_feed : Bytes → Memory → ℕ → Memory × ℕ
base64_feed [] to len = (to, len)
base64_feed (ch ∷ p) to len = let r = base64_update ch to len in base64_feed p r.0 r.1

-- The buffer that `base64_encode` asks for.
abbrev pub base64_need : ℕ → ℕ
base64_need n = (n / 3 + (if n % 3 == 0 then 0 else 1)) * 4 + 1

unfoldable pub base64_encode : Bytes → Memory → ℕ → Memory × ℕ
unfolding base64_feed base64_final
base64_encode p to dl =
    let to' = if ltb 0 dl then put to 0 0 else to in
    let r = base64_feed p to' 0 in
    if ltb dl (base64_need (length p)) then (to', 0) else base64_final r.0 r.1

-- The body of the decoder's loop, from the values of the four characters on, and the next round.
unfoldable pub base64_decode_round :
    Option ℕ
    → Option ℕ
    → Option ℕ
    → Option ℕ
    → Bool
    → Bool
    → Memory
    → ℕ
    → (Memory → ℕ → Memory × Option ℕ)
    → Memory × Option ℕ
base64_decode_round (some a) (some b) (some c) (some d) pad₂ pad₃ dst len next =
    let dst₁ = put dst len (bit_or (a * 4) (b / 16) % 256) in
    let dst₂ = put dst₁ (len + 1) (bit_or (b * 16) (c / 4) % 256) in
    let dst₃ = put dst₂ (len + 2) (bit_or (c * 64) d % 256) in
    if a == 64 || b == 64
    then (dst, none)
    else if pad₂
    then next dst₁ (len + 1)
    else if pad₃
    then next dst₂ (len + 2)
    else next dst₃ (len + 3)
base64_decode_round _ _ _ _ _ _ dst len next = (dst, none)

-- One round for four characters; `none` stands for `goto fail`, with the memory written so far.
unfoldable pub base64_decode_loop : Bytes → Memory → ℕ → Memory × Option ℕ
base64_decode_loop (s₀ ∷ s₁ ∷ s₂ ∷ s₃ ∷ src) dst len =
    base64_decode_round (base64_decode_single s₀) (base64_decode_single s₁)
      (base64_decode_single s₂) (base64_decode_single s₃) (s₂ == b'=') (s₃ == b'=') dst len
      (base64_decode_loop src)
base64_decode_loop src dst len = (dst, some len)

-- `src` is not NULL; an empty text is decoded to an empty text.
unfoldable pub base64_decode : Bytes → Memory → ℕ → Memory × ℕ
base64_decode src dst dl =
    let n = length src in
    let fail = λ (to : Memory). (if ltb 0 dl then put to 0 0 else to) in
    let r = base64_decode_loop src dst 0 in
    if not (n % 4 == 0) || ltb dl (n / 4 * 3 + 1)
    then (fail dst, 0)
    else elim r.1 [ some len ↦ (put r.0 len 0, len) | none ↦ (fail r.0, 0) ]

-- The overloads on strings: a buffer that is cleared and large enough, cut to the length.
unfoldable pub base64_encode_string : Bytes → Bytes
base64_encode_string input =
    let r = base64_encode input (λ _. 0) ((length input / 3 + 1) * 4 + 1) in text r.0 r.1

unfoldable pub base64_decode_string : Bytes → Bytes
base64_decode_string input =
    let r = base64_decode input (λ _. 0) (length input / 4 * 3 + 1) in text r.0 r.1

man : text (base64_encode (codes "Man") (λ _. 0) 5).0 4 ≡ codes "TWFu"
unfolding base64_encode base64_update base64_encode_single put text
man = refl

ma : text (base64_encode (codes "Ma") (λ _. 7) 5).0 4 ≡ codes "TWE="
unfolding base64_encode base64_update base64_encode_single put text
ma = refl

back : (base64_decode (codes "TWE=") (λ _. 7) 4).1 ≡ 2
unfolding base64_decode base64_decode_loop base64_decode_round base64_decode_single put
back = refl
