-- ===== src/Http/Chunks.antt =====
-- http.cpp: chunked bodies. `skip_chunk` finds the next chunk, and `http_cb` moves the data of all
-- chunks together at the front of the body, inside the receive buffer.
pub mod Bounds
pub mod Texts
pub mod Body
use nanosrv.Common.{
  ℕ, zero, suc, ◌+◌, ◌-◌, ◌*◌, ◌^◌, Bool, true, false, not, ◌&&◌, ◌||◌, Option, none, some, [], ◌∷◌,
  ◌++◌, ◌≡◌, refl, Bytes, codes, ltb, leb, ◌==◌, if◌then◌else◌, length, take, drop, get_or,
}
use nanosrv.Str.{str_to_num}
use nanosrv.IoBuf.{memmove}

-- The results of `skip_chunk`: -1, 0, and the size of the line, of the data and of the whole chunk.
pub data Chunk : Type 0 where
  invalid partial : Chunk
  chunk : ℕ → ℕ → ℕ → Chunk

unfoldable pub is_hex_digit : ℕ → Bool
is_hex_digit c = leb b'0' c && leb c b'9' || leb b'a' c && leb c b'f' || leb b'A' c && leb c b'F'

-- `while (i < len && is_hex_digit(buf[i])) i++;`
unfoldable pub hex_run : Bytes → ℕ
unfolding is_hex_digit
hex_run [] = 0
hex_run (c ∷ s) = if is_hex_digit c then suc (hex_run s) else 0

-- `beyond` is the byte behind the end of the text, which the test of the line's end may read.
unfoldable pub skip_chunk : ℕ → Bytes → Chunk
unfolding hex_run
skip_chunk beyond buf =
    let len = length buf in
    let i = hex_run buf in
    if ltb len 3
    then partial
    else if i == 0
    then invalid
    else if ltb 8 i
    then invalid
    else if ltb len (i + 1)
        || not (get_or buf i beyond == b'\r')
        || not (get_or buf (i + 1) beyond == b'\n')
    then invalid
    else elim (str_to_num (take i buf) 16 4) [
      | none ↦ invalid
      | some n ↦
          if leb (2 ^ 31) n
          then invalid
          else if ltb len (i + n + 4)
          then partial
          else if not (get_or buf (i + n + 2) 0 == b'\r') || not (get_or buf (i + n + 3) 0 == b'\n')
          then invalid
          else chunk (i + 2) n (i + 2 + n + 2)
    ]

-- How the search for the chunk of length zero ends: with a bad chunk, for want of data, or there.
pub data Scan : Type 0 where
  broken wanting complete : Scan

-- `while ((cl = skip_chunk(s + o, len - o, &pl, &dl)) > 0 && dl) o += cl;` Each round passes five bytes
-- at least, so the length of the text is fuel enough.
unfoldable pub scan_chunks : ℕ → ℕ → Bytes → Scan
scan_chunks zero beyond s = wanting
scan_chunks (suc f) beyond s = elim (skip_chunk beyond s) [
  | invalid ↦ broken
  | partial ↦ wanting
  | chunk pl dl cl ↦ elim (dl == 0) [ true ↦ complete | false ↦ scan_chunks f beyond (drop cl s) ]
]

-- The second pass: the buffer, the length of the body, and the offset behind the last chunk.
unfoldable pub relocate : ℕ → ℕ → Bytes → ℕ → ℕ → Bytes × ℕ × ℕ
relocate zero beyond s body_len o = (s, body_len, o)
relocate (suc f) beyond s body_len o = elim (skip_chunk beyond (drop o s)) [
  | invalid ↦ (s, body_len, o)
  | partial ↦ (s, body_len, o)
  | chunk pl dl cl ↦
      let s' = memmove s body_len (o + pl) dl in
      let next = relocate f beyond s' (body_len + dl) (o + cl) in
      if dl == 0 then (s', body_len + dl, o + cl) else next
]

-- `MG_EV_READ` of a whole chunked body.
abbrev hello : Bytes
hello = codes "5\r\nhello\r\n1\r\n!\r\n0\r\n\r\nGET"

scan_hello : scan_chunks 30 0 hello ≡ complete
unfolding scan_chunks skip_chunk str_to_num
scan_hello = refl

both_passes :
    let r = relocate 30 0 hello 0 0 in
    (take r.1 r.0 ≡ codes "hello!") × (drop r.2 r.0 ≡ codes "GET")
unfolding relocate skip_chunk memmove str_to_num
both_passes = (refl, refl)
