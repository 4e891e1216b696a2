-- ===== src/UrlCode.antt =====
-- projects/nanosrv/http.cpp, `url_encode` and `url_decode`: percent encoding between two buffers.
pub mod Encode
pub mod Decode
mod Examples
use nanosrv.Common.{
  as_int, ℕ, zero, suc, ◌+◌, ◌-◌, ◌*◌, ◌/◌, ◌%◌, Bool, true, false, ◌&&◌, ◌||◌, Option, none, some,
  [], ◌∷◌, ◌≡◌, refl, Bytes, codes, ltb, leb, ◌==◌, if◌then◌else◌, length, Memory, put, text,
}
use nanosrv.Str.{str_to_num}

unfoldable pub is_url_safe : ℕ → Bool
is_url_safe c =
    leb b'0' c && leb c b'9'
    || leb b'a' c && leb c b'z'
    || leb b'A' c && leb c b'Z'
    || c == b'.'
    || c == b'_'
    || c == b'-'
    || c == b'~'

-- hex[d]
unfoldable pub hex_digit : ℕ → ℕ
hex_digit d = if ltb d 10 then b'0' + d else b'a' + (d - 10)

-- `snprintf_(&buf[n], 4, "%%%M", print_hex, 1, &s[i])`, its final zero included.
unfoldable pub put_escape : Memory → ℕ → ℕ → Memory
put_escape buf n c =
    put (put (put (put buf n b'%') (n + 1) (hex_digit (c / 16 % 16))) (n + 2) (hex_digit (c % 16)))
      (n + 3) 0

-- The loop; `none` is the early return of 0.
unfoldable pub url_encode_loop : Bytes → Memory → ℕ → ℕ → Memory × Option ℕ
url_encode_loop [] buf len n = (buf, some n)
url_encode_loop (c ∷ s) buf len n =
    let plain = url_encode_loop s (put buf n c) len (n + 1) in
    let coded = url_encode_loop s (put_escape buf n c) len (n + 3) in
    if leb len (n + 4) then (buf, none) else if is_url_safe c then plain else coded

-- The zero behind the text, and the one at the end of the buffer.
unfoldable pub terminate : Memory → ℕ → ℕ → Memory
terminate buf len n =
    let buf₁ = if ltb 0 len && ltb n (len - 1) then put buf n 0 else buf in
    if ltb 0 len then put buf₁ (len - 1) 0 else buf₁

unfoldable pub url_encode : Bytes → Memory → ℕ → Memory × ℕ
unfolding url_encode_loop terminate
url_encode s buf len =
    let r = url_encode_loop s buf len 0 in
    elim r.1 [ none ↦ (r.0, 0) | some n ↦ (terminate r.0 len n, n) ]

unfoldable pub isx : ℕ → Bool
isx c = leb b'0' c && leb c b'9' || leb b'a' c && leb c b'f' || leb b'A' c && leb c b'F'

-- `str_to_num(str_n(src + i + 1, 2), 16, &dst[j], sizeof(uint8_t))`
unfoldable pub put_decoded : Memory → ℕ → ℕ → ℕ → Memory
put_decoded dst j h l = elim (str_to_num (h ∷ l ∷ []) 16 1) [ none ↦ dst | some v ↦ put dst j v ]

-- A byte that is copied; a plus sign stands for a space in a form.
unfoldable pub plain_byte : Bool → ℕ → ℕ
plain_byte form c = if form && c == b'+' then b' ' else c

-- How the loop is left: the memory, j, whether the source was read to its end; `none` is the early
-- return of -1.
unfoldable pub url_decode_loop : Bool → Bytes → Memory → ℕ → ℕ → Memory × Option (ℕ × Bool)
url_decode_loop form (c ∷ h ∷ l ∷ s) dst dst_len j =
    let plain = url_decode_loop form (h ∷ l ∷ s) (put dst j (plain_byte form c)) dst_len (j + 1) in
    let coded = url_decode_loop form s (put_decoded dst j h l) dst_len (j + 1) in
    if leb dst_len (j + 1)
    then (dst, some (j, false))
    else if c == b'%'
    then (if isx h && isx l then coded else (dst, none))
    else plain
url_decode_loop form (c ∷ s) dst dst_len j =
    let plain = url_decode_loop form s (put dst j (plain_byte form c)) dst_len (j + 1) in
    if leb dst_len (j + 1) then (dst, some (j, false)) else if c == b'%' then (dst, none) else plain
url_decode_loop form [] dst dst_len j = (dst, some (j, true))

-- `none` stands for a negative result.
unfoldable pub url_decode : Bool → Bytes → Memory → ℕ → Memory × Option ℕ
unfolding url_decode_loop put_decoded plain_byte as_int
url_decode form src dst dst_len =
    let r = url_decode_loop form src dst dst_len 0 in
    elim r.1 [
      | none ↦ (r.0, none)
      | some (j, all) ↦ (
        if ltb j dst_len then put r.0 j 0 else r.0,
        if all && ltb j dst_len then as_int j else none,
      )
    ]

-- The overloads on strings: a buffer that is cleared, cut to the length.
unfoldable pub url_encode_string : Bytes → Bytes
url_encode_string input = let r = url_encode input (λ _. 0) (length input * 3 + 1) in text r.0 r.1

unfoldable pub url_decode_string : Bytes → Bytes
url_decode_string input =
    let r = url_decode false input (λ _. 0) (length input + 1) in
    elim r.1 [ none ↦ [] | some n ↦ text r.0 n ]

plain : url_encode_string (codes "a/b.c") ≡ codes "a%2fb.c"
unfolding url_encode_string url_encode put_escape hex_digit is_url_safe put text
plain = refl

back : url_decode_string (codes "a%2Fb+%7e") ≡ codes "a/b+~"
unfolding url_decode_string url_decode isx str_to_num put text
back = refl

cut_short : url_encode_string (codes "a") ≡ []
unfolding url_encode_string url_encode put_escape hex_digit is_url_safe put text
cut_short = refl
