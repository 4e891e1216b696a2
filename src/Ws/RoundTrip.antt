-- ===== src/Ws/RoundTrip.antt =====
-- ws.cpp: `ws_process` reads back the frames that `ws_send` writes, masked or not, in each of the
-- three forms of the length.
use nanosrv.Common.{
  ℕ, suc, ◌+◌, ◌-◌, ◌%◌, ◌≤◌, ◌<◌, bit_and, bit_or, Bool, true, false, ◌&&◌, ◌||◌, [], ◌∷◌, ◌++◌,
  ◌≡◌, refl, sym, arith, Bytes, IsBytes, ltb, ◌==◌, if◌then◌else◌, length, drop, inl, inr,
  Bool-cases, length-append, take-append_self, drop-append_self, append_assoc, all_below,
  all_below_sound,
}
use nanosrv.Ws.{
  WsMsg, ws_xor, ws_fields, ws_header, ws_unmask, ws_process, mkhdr, mkhdr_size, ws_frame,
  max_data_len,
}
use nanosrv.Ws.Frames.{ws_xor_twice, ws_xor-append, length-ws_xor}

-- The second byte of a header: the mask bit and a length below 128.
second_table :
    all_below 128 (λ x.
      (bit_and (bit_or x 128) 127 == x)
      && (bit_and (bit_or x 128) 128 == 128)
      && (bit_and (bit_or x 0) 127 == x)
      && (bit_and (bit_or x 0) 128 == 0))
    ≡ true
unfolding all_below
second_table = refl

second_byte :
    (x : ℕ) (cl : Bool)
    → x < 128
    → (bit_and (bit_or x (if cl then 128 else 0)) 127 ≡ x)
      × (bit_and (bit_or x (if cl then 128 else 0)) 128 ≡ (if cl then 128 else 0))
second_byte x true h =
    let t = all_below_sound 128 _ x second_table h in (ground (arith, t), ground (arith, t))
second_byte x false h =
    let t = all_below_sound 128 _ x second_table h in (ground (arith, t), ground (arith, t))

abbrev mask_of : Bool → Bytes → Bytes
mask_of cl key = if cl then key else []

-- What the header of a frame says, whatever follows it: the three forms of the length.
short_header :
    (len b : ℕ) (cl : Bool) (key tail : Bytes)
    → length key ≡ 4
    → len < 126
    → ws_header (b ∷ (mkhdr_size len cl key ++ tail)) ≡ record {
      flags = b;
      masked = cl;
      header_len = length (b ∷ mkhdr_size len cl key);
      data_len = len;
    }
unfolding ws_header ws_fields mkhdr_size
short_header len b true key tail k h =
    ground (arith, second_byte len true (omega arith), length-append key tail)
short_header len b false key tail k h = ground (arith, second_byte len false (omega arith))

medium_header :
    (len b : ℕ) (cl : Bool) (key tail : Bytes)
    → length key ≡ 4
    → 126 ≤ len
    → len < 65536
    → ws_header (b ∷ (mkhdr_size len cl key ++ tail)) ≡ record {
      flags = b;
      masked = cl;
      header_len = length (b ∷ mkhdr_size len cl key);
      data_len = len;
    }
unfolding ws_header ws_fields mkhdr_size
medium_header len b true key tail k h h' = ground (arith, length-append key tail)
medium_header len b false key tail k h h' = ground arith

large_header :
    (len b : ℕ) (cl : Bool) (key tail : Bytes)
    → length key ≡ 4
    → 65536 ≤ len
    → len ≤ max_data_len
    → ws_header (b ∷ (mkhdr_size len cl key ++ tail)) ≡ record {
      flags = b;
      masked = cl;
      header_len = length (b ∷ mkhdr_size len cl key);
      data_len = len;
    }
unfolding ws_header ws_fields mkhdr_size
large_header len b true key tail k h h' = ground (arith, length-append key tail)
large_header len b false key tail k h h' = ground arith

header_size :
    (len b : ℕ) (cl : Bool) (key tail : Bytes)
    → length key ≡ 4
    → len ≤ max_data_len
    → ws_header (b ∷ (mkhdr_size len cl key ++ tail)) ≡ record {
      flags = b;
      masked = cl;
      header_len = length (b ∷ mkhdr_size len cl key);
      data_len = len;
    }
header_size len b cl key tail k small = elim (Bool-cases (ltb len 126)) [
  | inl h ↦ short_header len b cl key tail k (ground arith)
  | inr h ↦ elim (Bool-cases (ltb len 65536)) [
    | inl h' ↦ medium_header len b cl key tail k (ground arith) (ground arith)
    | inr h' ↦ large_header len b cl key tail k (ground arith) small
  ]
]

-- The mask is the last four bytes of a client's header.
mask_place :
    (len b : ℕ) (key tail : Bytes)
    → length key ≡ 4
    → drop (length (b ∷ mkhdr_size len true key) - 4) (b ∷ (mkhdr_size len true key ++ tail))
      ≡ key ++ tail
unfolding mkhdr_size
mask_place len b key tail k = elim (Bool-cases (ltb len 126)) [
  | inl h ↦ rw h (let e : suc (suc (length key)) - 4 ≡ 2 = omega arith in rw e)
  | inr h ↦ elim (Bool-cases (ltb len 65536)) [
    | inl h' ↦ rw (h, h') (let e : suc (suc (suc (suc (length key)))) - 4 ≡ 4 = omega arith in rw e)
    | inr h' ↦
        rw (h, h')
          (let e : suc (suc (suc (suc (suc (suc (suc (suc (suc (suc (length key)))))))))) - 4 ≡ 10 =
              omega arith in
            rw e)
  ]
]

-- The payload as it is sent.
abbrev pub sent : Bytes → Bool → Bytes → Bytes
sent key cl payload = if cl then ws_xor key 0 payload else payload

length-sent :
    (key : Bytes) (cl : Bool) (payload : Bytes) → length (sent key cl payload) ≡ length payload
length-sent key true payload = length-ws_xor key 0 payload
length-sent key false payload = refl

-- Unmasking a client's payload behind its header, and leaving a server's alone.
unmask-sent :
    (key : Bytes) (cl : Bool) (b : ℕ) (payload rest : Bytes) (msg : WsMsg)
    → length key ≡ 4
    → IsBytes key
    → IsBytes payload
    → msg.masked ≡ cl
    → msg.header_len ≡ length (b ∷ mkhdr_size (length payload) cl key)
    → msg.data_len ≡ length payload
    → ws_unmask ((b ∷ mkhdr_size (length payload) cl key) ++ (sent key cl payload ++ rest)) msg
      ≡ (b ∷ mkhdr_size (length payload) cl key) ++ (payload ++ rest)
unfolding ws_unmask
unmask-sent key false b payload rest msg k bk bp m h d = rw m
unmask-sent key true b payload rest msg k bk bp m h d =
    let header : Bytes = mkhdr_size (length payload) true key in
    let body : Bytes = ws_xor key 0 payload in
    let l : length payload ≡ length body = sym (length-ws_xor key 0 payload) in
    rw (
      m,
      h,
      d,
      mask_place (length payload) b key (body ++ rest) k,
      drop-append_self header (body ++ rest) (length header) refl,
      take-append_self header (body ++ rest) (length header) refl,
      take-append_self body rest (length payload) l,
      drop-append_self body rest (length payload) l,
      ws_xor-append key (body ++ rest) 0 body k,
      ws_xor_twice key 0 payload bk bp,
    )

-- `ws_process` takes a frame from the front of any input, whatever its first byte: it reports that
-- byte, whether the frame was masked, and both sizes, and leaves the payload unmasked in place and
-- all later bytes as they were.
pub ws_process_frame :
    (key : Bytes) (cl : Bool) (b : ℕ) (payload rest : Bytes)
    → length key ≡ 4
    → IsBytes key
    → IsBytes payload
    → length payload ≤ max_data_len
    → let header = b ∷ mkhdr_size (length payload) cl key in
      ws_process (header ++ (sent key cl payload ++ rest)) ≡ (
        header ++ (payload ++ rest),
        record { flags = b; masked = cl; header_len = length header; data_len = length payload },
        length header + length payload,
      )
unfolding ws_process
ws_process_frame key cl b payload rest k bk bp small =
    let header : Bytes = b ∷ mkhdr_size (length payload) cl key in
    let body : Bytes = sent key cl payload in
    let whole : length header + length payload ≤ length (header ++ (body ++ rest)) = omega (
      arith,
      length-append header (body ++ rest),
      length-append body rest,
      length-sent key cl payload,
    ) in
    let fits : (ltb max_data_len (length payload)
          || ltb (length (header ++ (body ++ rest))) (length header + length payload))
        ≡ false =
      ground arith in
    let msg : WsMsg = record {
      flags = b;
      masked = cl;
      header_len = length header;
      data_len = length payload;
    } in
    rw (
      header_size (length payload) b cl key (body ++ rest) k small,
      fits,
      unmask-sent key cl b payload rest msg k bk bp refl refl refl,
    )

-- `ws_process` takes a frame that `ws_send` wrote from the front of any input, masked or not, with a
-- payload of any size up to the limit: it reports the opcode with the FIN bit and both sizes, and
-- leaves the payload in the clear and all later bytes as they were.
pub ws_process-ws_frame :
    (key : Bytes) (cl : Bool) (op : ℕ) (payload rest : Bytes)
    → length key ≡ 4
    → IsBytes key
    → IsBytes payload
    → length payload ≤ max_data_len
    → let header = mkhdr (length payload) op cl key in
      ws_process (ws_frame key cl op payload ++ rest) ≡ (
        header ++ (payload ++ rest),
        record {
          flags = bit_or op 128 % 256;
          masked = cl;
          header_len = length header;
          data_len = length payload;
        },
        length header + length payload,
      )
ws_process-ws_frame key cl op payload rest k bk bp small =
    let header : Bytes = mkhdr (length payload) op cl key in
    let input : ws_frame key cl op payload ++ rest ≡ header ++ (sent key cl payload ++ rest) =
      unfold ws_frame in append_assoc header (sent key cl payload) rest in
    rw input
      (unfold mkhdr in ws_process_frame key cl (bit_or op 128 % 256) payload rest k bk bp small)
