-- ===== src/Ws/Receive/Rules.antt =====
-- ws.cpp, `ws_cb`: the loop ends on every input, and what it does with frames that RFC 6455 forbids.
use nanosrv.Common.{
  ℕ, zero, suc, ◌+◌, ◌-◌, ◌≤◌, ◌<◌, bit_and, Bool, true, false, List, not, ◌&&◌, ◌||◌, [], ◌∷◌,
  ◌++◌, ◌≡◌, ◌≢◌, ◌⊎◌, inl, inr, refl, sym, ap, ◌∙◌, arith, Bytes, IsBytes, ltb, leb, ◌==◌, length,
  take, drop, Bool-cases, length-append, length-take, length-drop, append_assoc, take-append_self,
  drop-append_self,
}
use nanosrv.Ws.{WsMsg, ws_process, ws_frame, mkhdr_size}
use nanosrv.Ws.Frames.{ws_process_bounds}
use nanosrv.Ws.Receive.{
  Effect, ctl, message, sent, WsConn, deleted, ws_close_with_code, ws_dispatch, ws_consume, Round,
  done, more, ws_round, ws_read,
}
use nanosrv.Ws.Receive.Fragments.{framed, IsPayload, reading, front}

length-deleted :
    (recv : Bytes) (ofs n : ℕ)
    → ofs + n ≤ length recv
    → length (deleted recv ofs n) + n ≡ length recv
length-deleted recv ofs n h = omega (
  arith,
  length-append (take ofs recv) (drop (ofs + n) recv),
  length-take ofs recv,
  length-drop (ofs + n) recv,
)

-- The bytes that the loop has not yet seen.
abbrev pub unread : WsConn → ℕ
unread c = length c.recv - c.ofs

-- The dispatch leaves the receive buffer alone.
dispatch_keeps :
    (key : Bytes) (c : WsConn) (op : ℕ) (final : Bool) (flags : ℕ) (p : Bytes)
    → ((ws_dispatch key c op final flags p).recv ≡ c.recv)
      × ((ws_dispatch key c op final flags p).ofs ≡ c.ofs)
unfolding ws_dispatch
dispatch_keeps key c op final flags p = ground arith

-- A frame of `len` bytes is taken off what is unread.
consume_unread :
    (c : WsConn) (op : ℕ) (final : Bool) (header len : ℕ)
    → 1 ≤ header
    → header ≤ len
    → c.ofs + len ≤ length c.recv
    → let c' = ws_consume c op final header len in
      (unread c' + len ≡ unread c) × (c'.ofs ≤ length c'.recv)
unfolding ws_consume
consume_unread c op final header len h h' room = ground (
  arith,
  length-deleted c.recv c.ofs len,
  length-deleted c.recv c.ofs header,
  length-deleted c.recv (c.ofs + 1) (header - 1),
  length-deleted (deleted c.recv c.ofs header) 0 (c.ofs + (len - header)),
)

-- The connection with its next frame unmasked, and what the frame says.
abbrev opened : WsConn → WsConn
opened c = record c { recv = take c.ofs c.recv ++ (ws_process (drop c.ofs c.recv)).0 }

abbrev pub next_msg : WsConn → WsMsg
next_msg c = (ws_process (drop c.ofs c.recv)).1

abbrev pub op_of : WsMsg → ℕ
op_of msg = bit_and msg.flags 15

abbrev pub final_of : WsMsg → Bool
final_of msg = not (bit_and msg.flags 128 == 0)

-- The ways through one round: no whole frame, a forbidden one, or one that is handled.
data Way (key : Bytes) (c : WsConn) (r : Round) : Type 0 where
  none_there : (ws_process (drop c.ofs c.recv)).2 ≡ 0 → r ≡ done (opened c) → Way key c r
  forbidden : r ≡ done (ws_close_with_code key (opened c) 1002) → Way key c r
  handled :
      (ws_process (drop c.ofs c.recv)).2 ≢ 0
      → (c.is_client ≡ false → (next_msg c).masked ≡ true)
      → (8 ≤ op_of (next_msg c) → (final_of (next_msg c) ≡ true) × ((next_msg c).data_len ≤ 125))
      → r
        ≡ more (
            ws_consume
              (ws_dispatch key
                (opened c)
                (op_of (next_msg c))
                (final_of (next_msg c))
                (next_msg c).flags
                (take
                  (next_msg c).data_len
                  (drop (next_msg c).header_len (ws_process (drop c.ofs c.recv)).0)))
              (op_of (next_msg c))
              (final_of (next_msg c))
              (next_msg c).header_len
              ((next_msg c).header_len + (next_msg c).data_len))
      → Way key c r

round_ways : (key : Bytes) (c : WsConn) → Way key c (ws_round key c)
unfolding ws_round
round_ways key c = elim (Bool-cases ((ws_process (drop c.ofs c.recv)).2 == 0)) [
  | inl z ↦ none_there (ground arith) (rw z)
  | inr nz ↦ elim (Bool-cases (not c.is_client && not (next_msg c).masked)) [
    | inl plain ↦ forbidden (rw (nz, plain))
    | inr masked ↦
        elim (Bool-cases (
          leb 8 (op_of (next_msg c))
          && (not (final_of (next_msg c)) || ltb 125 (next_msg c).data_len))) [
            | inl bad ↦ forbidden (rw (nz, masked, bad))
            | inr good ↦
                handled (ground arith) (λ e. ground arith) (λ e. (ground arith, ground arith))
                  (rw (nz, masked, good))
          ]
  ]
]

abbrev state_of : Round → WsConn
state_of (done c) = c
state_of (more c) = c

abbrev effects_of : Round → List Effect
effects_of r = (state_of r).effects

abbrev draining_of : Round → Bool
draining_of r = (state_of r).is_draining

Round-cases : (r : Round) → ((c : WsConn) × (r ≡ done c)) ⊎ ((c : WsConn) × (r ≡ more c))
Round-cases (done c) = inl (c, refl)
Round-cases (more c) = inr (c, refl)

more-injective : {c d : WsConn} → more c ≡ more d → c ≡ d
more-injective e = cc

-- A round that goes on has taken at least two bytes off what is unread.
round_unread :
    (key : Bytes) (c c' : WsConn)
    → c.ofs ≤ length c.recv
    → ws_round key c ≡ more c'
    → (unread c' < unread c) × (c'.ofs ≤ length c'.recv)
round_unread key c c' h e = elim (round_ways key c) [
  | none_there _ r ↦ cc
  | forbidden r ↦ cc
  | handled nz _ _ r ↦
      let msg = next_msg c in
      let d =
        ws_dispatch key (opened c) (op_of msg) (final_of msg) msg.flags
          (take msg.data_len (drop msg.header_len (ws_process (drop c.ofs c.recv)).0)) in
      let (kr, ko) =
        dispatch_keeps key (opened c) (op_of msg) (final_of msg) msg.flags
          (take msg.data_len (drop msg.header_len (ws_process (drop c.ofs c.recv)).0)) in
      let (same_length, taken) = ws_process_bounds (drop c.ofs c.recv) in
      let size : length (opened c).recv ≡ length c.recv = omega (
        arith,
        length-append (take c.ofs c.recv) (ws_process (drop c.ofs c.recv)).0,
        length-take c.ofs c.recv,
        length-drop c.ofs c.recv,
        same_length,
      ) in
      let went : c'
          ≡ ws_consume d (op_of msg) (final_of msg) msg.header_len (msg.header_len + msg.data_len) =
        more-injective (sym e ∙ r) in
      elim taken [
        | inl (z, _) ↦ absurd (nz z)
        | inr (n, two, inside, _, _, _) ↦
            let (u, o) =
              consume_unread d (op_of msg) (final_of msg) msg.header_len
                (msg.header_len + msg.data_len) (omega arith) (omega arith)
                (omega (arith, ap length kr, ko, size, length-drop c.ofs c.recv)) in
            rw went (omega (arith, u, ap length kr, ko, size), o)
      ]
]

-- With one unit of fuel more than there are unread bytes the loop ends by itself, on every input: the
-- state that it returns comes from a round that found no whole frame or a forbidden one.
pub ws_read_total :
    (key : Bytes) (f : ℕ) (c : WsConn)
    → c.ofs ≤ length c.recv
    → unread c < f
    → (last : WsConn) × (ws_round key last ≡ done (ws_read key f c))
unfolding ws_read
ws_read_total key zero c h fuel = absurd (omega arith)
ws_read_total key (suc f) c h fuel = elim (Round-cases (ws_round key c)) [
  | inl (c', e) ↦ (c, rw (e, ws_read))
  | inr (c', e) ↦
      let (less, inside) = round_unread key c c' h e in
      let (last, stop) = ws_read_total key f c' inside (omega arith) in (last, rw (e, ws_read) stop)
]

-- The rules on masks and on control frames hold before a handler is called. A round that goes on has
-- read a frame that is masked if the reader is a server, and that is final with at most 125 bytes if it is a control
-- frame; a round that ends the loop has called no handler, and has sent nothing or only a close frame
-- with code 1002, after which the connection drains.
pub ws_round_conforms :
    (key : Bytes) (c c' : WsConn)
    → (ws_round key c ≡ more c'
        → (c.is_client ≡ false → (next_msg c).masked ≡ true)
          × (8 ≤ op_of (next_msg c)
              → (final_of (next_msg c) ≡ true) × ((next_msg c).data_len ≤ 125)))
      × (ws_round key c ≡ done c'
          → (c'.effects ≡ c.effects)
            ⊎ ((c'.effects ≡ c.effects ++ sent (ws_frame key c.is_client 8 (3 ∷ 234 ∷ [])) ∷ [])
                × (c'.is_draining ≡ true)))
unfolding ws_close_with_code
ws_round_conforms key c c' = elim (round_ways key c) [
  | none_there _ r ↦ (λ e. cc, λ e. inl (ap effects_of (sym e ∙ r)))
  | forbidden r ↦ (λ e. cc, λ e. inr (ap effects_of (sym e ∙ r), ap draining_of (sym e ∙ r)))
  | handled _ m k r ↦ (λ e. (m, k), λ e. cc)
]

-- A final continuation frame that continues nothing is not refused: the first byte of its payload is
-- taken for the opcode byte of a message, and the rest is delivered as its data.
pub stray_continuation :
    (key mask : Bytes) (c : WsConn) (x : ℕ) (p rest : Bytes) (es : List Effect)
    → length mask ≡ 4
    → IsBytes mask
    → IsPayload (x ∷ p)
    → ws_round key (reading c [] (framed mask 128 (x ∷ p) ++ rest) es)
      ≡ more (reading c [] rest (es ++ ctl 128 (x ∷ p) ∷ message x p ∷ []))
unfolding ws_round
stray_continuation key mask c x p rest es k bk ok =
    let size : Bytes = mkhdr_size (length (x ∷ p)) true mask in
    let n : ℕ = length p in
    let some_left : (suc (length size) + suc n == 0) ≡ false = ground arith in
    let place : 0 + (suc (length size) + suc n - suc (length size)) ≡ suc n = omega arith in
    let cut : 0 + suc (length size) ≡ suc (length size) = omega arith in
    let start : 0 + suc n ≡ suc n = omega arith in
    let count : suc n - 1 ≡ n = omega arith in
    let held : ltb 0 (suc n) ≡ true = ground arith in
    rw (
      front key mask k bk 128 (x ∷ p) rest [] ok,
      some_left,
      place,
      cut,
      drop-append_self size (x ∷ (p ++ rest)) (length size) refl,
      start,
      held,
      count,
      take-append_self p rest n refl,
      drop-append_self p rest n refl,
      append_assoc es (ctl 128 (x ∷ p) ∷ []) (message x p ∷ []),
    )
