-- ===== src/Ws/Examples.antt =====
-- ws.cpp: the theorems at concrete frames, and tests of the receive loop.
use nanosrv.Common.{
  Bytes, ◌+◌, ◌-◌, ◌≤◌, true, false, [], ◌∷◌, ◌++◌, ◌≡◌, ◌⊎◌, inl, refl, arith, codes, length, take,
  drop, bit_or, ◌%◌,
}
use nanosrv.Ws.{ws_process, ws_frame, mkhdr, max_data_len}
use nanosrv.Ws.Frames.{ws_process_bounds}
use nanosrv.Ws.RoundTrip.{ws_process-ws_frame}
use nanosrv.Ws.Receive.{ctl, message, sent, WsConn, done, more, ws_round, ws_read, server, key_1234}
use nanosrv.Ws.Receive.Fragments.{framed, frames, joined, reading, fragmented_message}
use nanosrv.Ws.Receive.Rules.{
  next_msg, op_of, final_of, ws_read_total, ws_round_conforms, stray_continuation,
}

ws_process_bounds_example :
    let buf = 0x81 ∷ 2 ∷ codes "Hi!" in
    let r = ws_process buf in
    (length r.0 ≡ 5)
    × (((r.2 ≡ 0) × (r.0 ≡ buf))
        ⊎ ((r.2 ≡ r.1.header_len + r.1.data_len)
            × (2 ≤ r.1.header_len)
            × (r.2 ≤ 5)
            × (r.1.data_len ≤ max_data_len)
            × (take r.1.header_len r.0 ≡ take r.1.header_len buf)
            × (drop r.2 r.0 ≡ drop r.2 buf)))
ws_process_bounds_example = ws_process_bounds (0x81 ∷ 2 ∷ codes "Hi!")

ws_process-ws_frame_example :
    let header = mkhdr 5 1 true key_1234 in
    ws_process (ws_frame key_1234 true 1 (codes "Hello") ++ codes "rest") ≡ (
      header ++ codes "Hellorest",
      record {
        flags = bit_or 1 128 % 256;
        masked = true;
        header_len = length header;
        data_len = 5;
      },
      length header + 5,
    )
ws_process-ws_frame_example =
    ws_process-ws_frame key_1234 true 1 (codes "Hello") (codes "rest") refl (omega arith)
      (omega arith) (omega arith)

abbrev key_5678 : Bytes
key_5678 = 5 ∷ 6 ∷ 7 ∷ 8 ∷ []

fragmented_message_example :
    ws_read key_1234 4 (
      reading
        (server [])
        []
        (framed key_1234 1 (codes "He")
          ++ (frames ((key_5678, codes "ll") ∷ []) ++ (framed key_1234 128 (codes "o") ++ [])))
        [])
    ≡ ws_read key_1234 (4 - (1 + 2)) (
        reading (server []) [] [] (
          ctl 0 (codes "ll")
          ∷ ctl 128 (codes "o")
          ∷ message 1 (codes "He" ++ (joined ((key_5678, codes "ll") ∷ []) ++ codes "o"))
          ∷ []))
fragmented_message_example =
    fragmented_message key_1234 4 (server []) 1 (key_1234, codes "He") ((key_5678, codes "ll") ∷ [])
      (key_1234, codes "o") [] [] (inl refl) (omega arith) (refl, omega arith, (omega arith))
      ((refl, omega arith, (omega arith)), tt) (refl, omega arith, (omega arith))

ws_read_total_example :
    (last : WsConn) × (ws_round key_1234 last
      ≡ done (ws_read key_1234 9 (server (0x81 ∷ 2 ∷ codes "Hi"))))
ws_read_total_example =
    ws_read_total key_1234 9 (server (0x81 ∷ 2 ∷ codes "Hi")) (omega arith) (omega arith)

ws_round_conforms_example :
    let c = server (0x81 ∷ 2 ∷ codes "Hi") in
    (ws_round key_1234 c ≡ more c
      → (false ≡ false → (next_msg c).masked ≡ true)
        × (8 ≤ op_of (next_msg c) → (final_of (next_msg c) ≡ true) × ((next_msg c).data_len ≤ 125)))
    × (ws_round key_1234 c ≡ done c
        → ([] ≡ c.effects)
          ⊎ (([] ≡ c.effects ++ sent (ws_frame key_1234 false 8 (3 ∷ 234 ∷ [])) ∷ [])
              × (false ≡ true)))
ws_round_conforms_example =
    ws_round_conforms key_1234 (server (0x81 ∷ 2 ∷ codes "Hi")) (server (0x81 ∷ 2 ∷ codes "Hi"))

stray_continuation_example :
    ws_round key_1234 (reading (server []) [] (framed key_1234 128 (codes "xyz") ++ []) [])
    ≡ more (reading (server []) [] [] (ctl 128 (codes "xyz") ∷ message b'x' (codes "yz") ∷ []))
stray_continuation_example =
    stray_continuation key_1234 key_1234 (server []) b'x' (codes "yz") [] [] refl (omega arith)
      (omega arith)
