-- ===== src/Ws/Receive/Fragments.antt =====
-- ws.cpp, `ws_cb`: a fragmented message is put together from its frames.
use nanosrv.Common.{
  ℕ, zero, suc, ◌+◌, ◌-◌, ◌≤◌, true, false, List, [], ◌∷◌, ◌++◌, ◌≡◌, ◌⊎◌, inl, inr, refl, sym, ◌∙◌,
  arith, Bytes, IsBytes, All, ltb, ◌==◌, length, take, drop, length-append, take-append_self,
  drop-append_self, drop-append_add, append_assoc, map,
}
use nanosrv.Ws.{ws_process, mkhdr_size, ws_xor, max_data_len}
use nanosrv.Ws.RoundTrip.{ws_process_frame}
use nanosrv.Ws.Receive.{Effect, ctl, message, WsConn, more, ws_round, ws_read}

-- A masked frame with the given first byte.
unfoldable pub framed : Bytes → ℕ → Bytes → Bytes
framed key b payload = b ∷ (mkhdr_size (length payload) true key ++ ws_xor key 0 payload)

-- A payload that the peer may send in one frame.
abbrev pub IsPayload : Bytes → Type 0
IsPayload p = IsBytes p × (length p ≤ max_data_len)

-- A server that has kept `acc` of the fragments so far, with `input` to read.
abbrev pub reading : WsConn → Bytes → Bytes → List Effect → WsConn
reading c acc input es = record c {
  is_client = false;
  recv = acc ++ input;
  ofs = length acc;
  effects = es;
}

-- A fragment: its masking key and its payload.
abbrev pub Fragment : Type 0
Fragment = Bytes × Bytes

abbrev pub IsFragment : Fragment → Type 0
IsFragment p = (length p.0 ≡ 4) × IsBytes p.0 × IsPayload p.1

-- The payloads of the fragments between the first and the last, joined, and their frames.
unfoldable pub joined : List Fragment → Bytes
joined [] = []
joined (p ∷ ps) = p.1 ++ joined ps

unfoldable pub frames : List Fragment → Bytes
unfolding framed
frames [] = []
frames (p ∷ ps) = framed p.0 0 p.1 ++ frames ps

module _ (key mask : Bytes) (k : length mask ≡ 4) (bk : IsBytes mask) where
  -- The frame at the front of the input, as the round sees it.
  pub front :
      (b : ℕ) (p rest acc : Bytes)
      → IsPayload p
      → ws_process (drop (length acc) (acc ++ (framed mask b p ++ rest))) ≡ (
        (b ∷ mkhdr_size (length p) true mask) ++ (p ++ rest),
        record {
          flags = b;
          masked = true;
          header_len = suc (length (mkhdr_size (length p) true mask));
          data_len = length p;
        },
        suc (length (mkhdr_size (length p) true mask)) + length p,
      )
  unfolding framed
  front b p rest acc (bp, small) =
      let size : Bytes = mkhdr_size (length p) true mask in
      rw
        (
          drop-append_self acc (b ∷ ((size ++ ws_xor mask 0 p) ++ rest)) (length acc) refl,
          append_assoc size (ws_xor mask 0 p) rest,
        )
        (ws_process_frame mask true b p rest k bk bp small)

  -- The pieces of the buffer around a frame.
  pub payload_lem :
      (p rest : Bytes)
      → let size = mkhdr_size (length p) true mask in
        take (length p) (drop (length size) (size ++ (p ++ rest))) ≡ p
  payload_lem p rest =
      let size : Bytes = mkhdr_size (length p) true mask in
      rw (drop-append_self size (p ++ rest) (length size) refl)
        (take-append_self p rest (length p) refl)

  pub behind_lem :
      (b : ℕ) (p rest acc : Bytes)
      → let size = mkhdr_size (length p) true mask in
        drop (length acc + suc (length size)) (acc ++ (b ∷ (size ++ (p ++ rest)))) ≡ p ++ rest
  behind_lem b p rest acc =
      let size : Bytes = mkhdr_size (length p) true mask in
      rw (drop-append_add (suc (length size)) acc (b ∷ (size ++ (p ++ rest))))
        (drop-append_self size (p ++ rest) (length size) refl)

  -- A fragment that continues the message keeps its payload and drops its header.
  continue_round :
      (c : WsConn) (p rest acc : Bytes) (es : List Effect)
      → IsPayload p
      → ws_round key (reading c acc (framed mask 0 p ++ rest) es)
        ≡ more (reading c (acc ++ p) rest (es ++ ctl 0 p ∷ []))
  unfolding ws_round
  continue_round c p rest acc es ok =
      let size : Bytes = mkhdr_size (length p) true mask in
      let some_left : (suc (length size) + length p == 0) ≡ false = ground arith in
      let place : length acc + (suc (length size) + length p - suc (length size))
          ≡ length (acc ++ p) =
        omega (arith, length-append acc p) in
      rw (
        front 0 p rest acc ok,
        some_left,
        payload_lem p rest,
        take-append_self acc (framed mask 0 p ++ rest) (length acc) refl,
        take-append_self acc (0 ∷ (size ++ (p ++ rest))) (length acc) refl,
        behind_lem 0 p rest acc,
        place,
        append_assoc acc p rest,
      )

  -- The first fragment also keeps its first byte, the opcode.
  first_round :
      (c : WsConn) (op : ℕ) (p rest : Bytes) (es : List Effect)
      → (op ≡ 1) ⊎ (op ≡ 2)
      → IsPayload p
      → ws_round key (reading c [] (framed mask op p ++ rest) es)
        ≡ more (reading c (op ∷ p) rest es)
  unfolding ws_round
  first_round c op p rest es (inl e) ok =
      let size : Bytes = mkhdr_size (length p) true mask in
      let some_left : (suc (length size) + length p == 0) ≡ false = ground arith in
      let cut : 1 + (suc (length size) - 1) ≡ suc (length size) = omega arith in
      let place : 1 + (suc (length size) + length p - 1 - (suc (length size) - 1))
          ≡ suc (length p) =
        omega arith in
      rw (
        e,
        front 1 p rest [] ok,
        some_left,
        place,
        cut,
        drop-append_self size (p ++ rest) (length size) refl,
      )
  first_round c op p rest es (inr e) ok =
      let size : Bytes = mkhdr_size (length p) true mask in
      let some_left : (suc (length size) + length p == 0) ≡ false = ground arith in
      let cut : 1 + (suc (length size) - 1) ≡ suc (length size) = omega arith in
      let place : 1 + (suc (length size) + length p - 1 - (suc (length size) - 1))
          ≡ suc (length p) =
        omega arith in
      rw (
        e,
        front 2 p rest [] ok,
        some_left,
        place,
        cut,
        drop-append_self size (p ++ rest) (length size) refl,
      )

  -- The last fragment delivers the whole message under the opcode of the first.
  last_round :
      (c : WsConn) (op : ℕ) (p rest acc : Bytes) (es : List Effect)
      → IsPayload p
      → ws_round key (reading c (op ∷ acc) (framed mask 128 p ++ rest) es)
        ≡ more (reading c [] rest (es ++ ctl 128 p ∷ message op (acc ++ p) ∷ []))
  unfolding ws_round
  last_round c op p rest acc es ok =
      let size : Bytes = mkhdr_size (length p) true mask in
      let n : ℕ = length acc + length p in
      let some_left : (suc (length size) + length p == 0) ≡ false = ground arith in
      let place : suc (length acc) + (suc (length size) + length p - suc (length size)) ≡ suc n =
        omega arith in
      let start : 0 + suc n ≡ suc n = omega arith in
      let held : ltb 0 (suc n) ≡ true = ground arith in
      let count : suc n - 1 ≡ n = omega arith in
      let whole : n ≡ length (acc ++ p) = sym (length-append acc p) in
      rw (
        front 128 p rest (op ∷ acc) ok,
        some_left,
        place,
        payload_lem p rest,
        take-append_self acc (framed mask 128 p ++ rest) (length acc) refl,
        take-append_self acc (128 ∷ (size ++ (p ++ rest))) (length acc) refl,
        behind_lem 128 p rest (op ∷ acc),
        start,
        held,
        count,
        ← append_assoc acc p rest,
        take-append_self (acc ++ p) rest n whole,
        drop-append_self (acc ++ p) rest n whole,
        append_assoc es (ctl 128 p ∷ []) (message op (acc ++ p) ∷ []),
      )

module _ (key : Bytes) where
  step_more :
      (f : ℕ) (c c' : WsConn) → ws_round key c ≡ more c' → ws_read key (suc f) c ≡ ws_read key f c'
  unfolding ws_read
  step_more f c c' e = rw (e, ws_read)

  -- From the first fragment on.
  read_continued :
      (f : ℕ) (c : WsConn) (op : ℕ) (acc : Bytes) (ps : List Fragment) (q : Fragment) (rest : Bytes)
      (es : List Effect)
      → length ps + 1 ≤ f
      → All IsFragment ps
      → IsFragment q
      → ws_read key f (reading c (op ∷ acc) (frames ps ++ (framed q.0 128 q.1 ++ rest)) es)
        ≡ ws_read key (f - (length ps + 1)) (
            reading c [] rest (
              es
              ++ (map (λ p. ctl 0 p.1) ps
                  ++ (ctl 128 q.1 ∷ message op (acc ++ (joined ps ++ q.1)) ∷ []))))
  unfolding frames joined
  read_continued zero c op acc ps q rest es h oks ok = absurd (omega arith)
  read_continued (suc f) c op acc [] q rest es h oks ok =
      let e : suc f - (0 + 1) ≡ f = omega arith in
      rw e (step_more f _ _ (last_round key q.0 ok.0 ok.1 c op q.1 rest acc es ok.2))
  read_continued (suc f) c op acc (p ∷ ps) q rest es h oks ok =
      let e : suc f - (suc (length ps) + 1) ≡ f - (length ps + 1) = omega arith in
      let tail : Bytes = frames ps ++ (framed q.0 128 q.1 ++ rest) in
      let input : (framed p.0 0 p.1 ++ frames ps) ++ (framed q.0 128 q.1 ++ rest)
          ≡ framed p.0 0 p.1 ++ tail =
        append_assoc (framed p.0 0 p.1) (frames ps) (framed q.0 128 q.1 ++ rest) in
      rw (e, input)
        (step_more f _ _ (continue_round key p.0 oks.0.0 oks.0.1 c p.1 tail (op ∷ acc) es oks.0.2)
          ∙ read_continued f c op (acc ++ p.1) ps q rest (es ++ ctl 0 p.1 ∷ []) (omega arith) oks.1
              ok
          ∙ simp append_assoc)

  -- A server that reads a message in fragments (a first one with the opcode of a text or a binary
  -- message, any number that continue it, and a last one with the FIN bit), each masked by the client
  -- with a key of its own and with no other frame between them, delivers one message, under the opcode
  -- of the first fragment and with all payloads in order. Before it, every fragment but the first is
  -- reported as a control event. What follows in the buffer is left for the next rounds of the loop.
  pub fragmented_message :
      (f : ℕ) (c : WsConn) (op : ℕ) (p : Fragment) (ps : List Fragment) (q : Fragment)
      (rest : Bytes) (es : List Effect)
      → (op ≡ 1) ⊎ (op ≡ 2)
      → length ps + 2 ≤ f
      → IsFragment p
      → All IsFragment ps
      → IsFragment q
      → ws_read key f
          (reading c [] (framed p.0 op p.1 ++ (frames ps ++ (framed q.0 128 q.1 ++ rest))) es)
        ≡ ws_read key (f - (length ps + 2)) (
            reading c [] rest (
              es
              ++ (map (λ x. ctl 0 x.1) ps
                  ++ (ctl 128 q.1 ∷ message op (p.1 ++ (joined ps ++ q.1)) ∷ []))))
  fragmented_message zero c op p ps q rest es o h okp oks ok = absurd (omega arith)
  fragmented_message (suc f) c op p ps q rest es o h okp oks ok =
      let e : suc f - (length ps + 2) ≡ f - (length ps + 1) = omega arith in
      rw e (
        step_more f _ _ (
          first_round key p.0 okp.0 okp.1 c op p.1 (frames ps ++ (framed q.0 128 q.1 ++ rest)) es o
            okp.2)
        ∙ read_continued f c op p.1 ps q rest es (omega arith) oks ok)
