-- ===== src/Ws.antt =====
-- projects/nanosrv/ws.cpp: frames of RFC 6455, and the loop that takes them off a connection's
-- receive buffer. A string of bytes stands for the content of an IOBuffer, as IoBuf.Refines relates
-- the two; the mask that `random_` draws is an argument.
pub mod Frames
pub mod RoundTrip
pub mod Receive
mod Examples
use nanosrv.Common.{
  ℕ, suc, ◌+◌, ◌-◌, ◌*◌, ◌/◌, ◌%◌, ◌^◌, bit_and, bit_or, bit_xor, Bool, true, false, not, ◌&&◌,
  ◌||◌, List, [], ◌∷◌, ◌++◌, ◌≡◌, refl, Bytes, codes, ltb, leb, ◌==◌, if◌then◌else◌, length, get_or,
  take, drop,
}

-- struct ws_msg
pub record WsMsg : Type 0 where
  pub flags : ℕ
  pub masked : Bool
  pub header_len : ℕ
  pub data_len : ℕ

abbrev pub max_data_len : ℕ
max_data_len = 2 ^ 30

-- buf[i], read inside the buffer
abbrev pub byte_at : Bytes → ℕ → ℕ
byte_at buf i = get_or buf i 0

unfoldable pub be32 : Bytes → ℕ → ℕ
be32 buf i =
    byte_at buf (i + 3)
    + byte_at buf (i + 2) * 2 ^ 8
    + byte_at buf (i + 1) * 2 ^ 16
    + byte_at buf i * 2 ^ 24

-- p[i] ^= m[i & 3], from the byte at `i` on
unfoldable pub ws_xor : Bytes → ℕ → Bytes → Bytes
ws_xor m i [] = []
ws_xor m i (x ∷ p) = bit_xor x (byte_at m (bit_and i 3)) ∷ ws_xor m (suc i) p

unfoldable pub ws_fields : Bytes → ℕ → ℕ → ℕ → WsMsg
ws_fields buf mask_len header_len data_len = record {
  flags = byte_at buf 0;
  masked = ltb 0 mask_len;
  header_len = header_len;
  data_len = data_len;
}

abbrev pub mask_len : Bytes → ℕ
mask_len buf = if bit_and (byte_at buf 1) 128 == 0 then 0 else 4

-- The header of a frame, as far as it is in the buffer.
unfoldable pub ws_header : Bytes → WsMsg
unfolding be32 ws_fields
ws_header buf =
    let len = length buf in
    let n = bit_and (byte_at buf 1) 127 in
    let mask = mask_len buf in
    if ltb len 2
    then record { flags = 0; masked = false; header_len = 0; data_len = 0 }
    else if ltb n 126 && leb mask len
    then ws_fields buf mask (2 + mask) n
    else if n == 126 && leb (4 + mask) len
    then ws_fields buf mask (4 + mask) (byte_at buf 2 * 2 ^ 8 + byte_at buf 3)
    else if leb (10 + mask) len
    then ws_fields buf mask (10 + mask) (be32 buf 2 * 2 ^ 32 + be32 buf 6)
    else ws_fields buf mask 0 0

-- Unmasking the payload in place: `m` is the four bytes before it.
unfoldable pub ws_unmask : Bytes → WsMsg → Bytes
unfolding ws_xor
ws_unmask buf msg =
    let p = drop msg.header_len buf in
    let m = drop (msg.header_len - 4) buf in
    if msg.masked
    then take msg.header_len buf ++ (ws_xor m 0 (take msg.data_len p) ++ drop msg.data_len p)
    else buf

-- The buffer with the payload unmasked, what the header says, and the size of the frame, 0 where no
-- whole frame is there.
unfoldable pub ws_process : Bytes → Bytes × WsMsg × ℕ
unfolding ws_header ws_unmask
ws_process buf =
    let msg = ws_header buf in
    let total = msg.header_len + msg.data_len in
    if ltb max_data_len msg.data_len || ltb (length buf) total
    then (buf, msg, 0)
    else (ws_unmask buf msg, msg, total)

-- A frame's header from its second byte on; `random_` draws `key` for a client.
unfoldable pub mkhdr_size : ℕ → Bool → Bytes → Bytes
mkhdr_size len is_client key =
    let mask_bit = if is_client then 128 else 0 in
    let mask = if is_client then key else [] in
    let byte = λ (k : ℕ). len / 2 ^ k % 256 in
    if ltb len 126
    then bit_or len mask_bit ∷ mask
    else if ltb len 65536
    then bit_or 126 mask_bit ∷ byte 8 ∷ byte 0 ∷ mask
    else bit_or 127 mask_bit
      ∷ byte 56
      ∷ byte 48
      ∷ byte 40
      ∷ byte 32
      ∷ byte 24
      ∷ byte 16
      ∷ byte 8
      ∷ byte 0
      ∷ mask

unfoldable pub mkhdr : ℕ → ℕ → Bool → Bytes → Bytes
unfolding mkhdr_size
mkhdr len op is_client key = bit_or op 128 % 256 ∷ mkhdr_size len is_client key

-- What `ws_send` appends to the send buffer: the header, and the payload that `ws_mask` masks.
unfoldable pub ws_frame : Bytes → Bool → ℕ → Bytes → Bytes
unfolding mkhdr ws_xor
ws_frame key is_client op payload =
    mkhdr (length payload) op is_client key ++ (if is_client then ws_xor key 0 payload else payload)

server_text : ws_frame [] false 1 (codes "Hi") ≡ 0x81 ∷ 2 ∷ codes "Hi"
unfolding ws_frame
server_text = refl

client_text : ws_process (ws_frame (1 ∷ 2 ∷ 3 ∷ 4 ∷ []) true 1 (codes "Hello")) ≡ (
  0x81 ∷ 0x85 ∷ 1 ∷ 2 ∷ 3 ∷ 4 ∷ codes "Hello",
  record { flags = 0x81; masked = true; header_len = 6; data_len = 5 },
  11,
)
unfolding ws_frame ws_process
client_text = refl
