-- ===== src/Ws/Receive.antt =====
-- ws.cpp, the MG_EV_READ part of `ws_cb`: frames are taken off the receive buffer one by one, replies
-- are sent, and the application is called. What the connection does is recorded in order. The
-- handlers that are called do not touch the receive buffer.
pub mod Fragments
pub mod Rules
use nanosrv.Common.{
  ℕ, zero, suc, ◌+◌, ◌-◌, ◌*◌, ◌/◌, ◌%◌, bit_and, Bool, true, false, not, ◌&&◌, ◌||◌, List, [], ◌∷◌,
  ◌++◌, ◌≡◌, refl, Bytes, codes, ltb, leb, ◌==◌, if◌then◌else◌, length, take, drop, get_or,
}
use nanosrv.Ws.{WsMsg, ws_process, ws_frame}

-- The calls of the handler with MG_EV_WS_CTL and MG_EV_WS_MSG, the bytes given to `ws_send`, and the
-- call of `error` for an unknown opcode.
pub data Effect : Type 0 where
  ctl : ℕ → Bytes → Effect
  message : ℕ → Bytes → Effect
  sent : Bytes → Effect
  unknown_op : ℕ → Effect

-- The fields of struct Connection that the callback reads; `ofs` is `pfn_data`.
pub record WsConn : Type 0 where
  pub is_client : Bool
  pub recv : Bytes
  pub ofs : ℕ
  pub is_draining : Bool
  pub is_closing : Bool
  pub effects : List Effect

-- `iobuf_del` on the content of a buffer
abbrev pub deleted : Bytes → ℕ → ℕ → Bytes
deleted recv ofs n = take ofs recv ++ drop (ofs + n) recv

abbrev pub emit : WsConn → List Effect → WsConn
emit c es = record c { effects = c.effects ++ es }

module _ (key : Bytes) where
  unfoldable pub ws_close_with_code : WsConn → ℕ → WsConn
  ws_close_with_code c code = record c {
    is_draining = true;
    effects =
        c.effects ++ sent (ws_frame key c.is_client 8 (code / 256 % 256 ∷ code % 256 ∷ [])) ∷ [];
  }

  -- The switch on the opcode.
  unfoldable pub ws_dispatch : WsConn → ℕ → Bool → ℕ → Bytes → WsConn
  ws_dispatch c op final flags payload =
      if op == 0
      then emit c (ctl flags payload ∷ [])
      else if op == 9
      then emit c (sent (ws_frame key c.is_client 10 payload) ∷ ctl flags payload ∷ [])
      else if op == 10
      then emit c (ctl flags payload ∷ [])
      else if op == 1 || op == 2
      then (if final then emit c (message flags payload ∷ []) else c)
      else if op == 8
      then record c {
        is_draining = true;
        effects = c.effects ++ ctl flags payload ∷ sent (ws_frame key c.is_client 8 payload) ∷ [];
      }
      else record c { is_closing = true; effects = c.effects ++ unknown_op op ∷ [] }

-- What stays in the receive buffer after a frame: a fragment keeps its payload, the first one also its
-- first byte; a complete frame goes; the last fragment delivers all of them.
unfoldable pub ws_consume : WsConn → ℕ → Bool → ℕ → ℕ → WsConn
ws_consume c op final header_len len =
    let first = not (op == 0) in
    let ofs = if first then c.ofs + 1 else c.ofs in
    let header = if first then header_len - 1 else header_len in
    let rest = if first then len - 1 else len in
    let fragment = record c { recv = deleted c.recv ofs header; ofs = ofs + (rest - header) } in
    if final && first
    then record c { recv = deleted c.recv c.ofs len }
    else if final && ltb 0 fragment.ofs
    then record fragment {
      recv = deleted fragment.recv 0 fragment.ofs;
      ofs = 0;
      effects =
          c.effects
          ++ message (get_or fragment.recv 0 0) (take (fragment.ofs - 1) (drop 1 fragment.recv))
            ∷ [];
    }
    else fragment

-- The end of the loop, or the state for the next round.
pub data Round : Type 0 where
  done : WsConn → Round
  more : WsConn → Round

module _ (key : Bytes) where
  unfoldable pub ws_round : WsConn → Round
  unfolding ws_close_with_code ws_dispatch ws_consume
  ws_round c =
      let (unmasked, msg, n) = ws_process (drop c.ofs c.recv) in
      let c' = record c { recv = take c.ofs c.recv ++ unmasked } in
      let payload = take msg.data_len (drop msg.header_len unmasked) in
      let final = not (bit_and msg.flags 128 == 0) in
      let op = bit_and msg.flags 15 in
      if n == 0
      then done c'
      else if not c.is_client && not msg.masked
      then done (ws_close_with_code key c' 1002)
      else if leb 8 op && (not final || ltb 125 msg.data_len)
      then done (ws_close_with_code key c' 1002)
      else more (
          ws_consume (ws_dispatch key c' op final msg.flags payload) op final msg.header_len
            (msg.header_len + msg.data_len))

  -- The loop, with fuel.
  unfoldable pub ws_read : ℕ → WsConn → WsConn
  unfolding ws_round
  ws_read zero c = c
  ws_read (suc f) c = elim (ws_round c) [ done c' ↦ c' | more c' ↦ ws_read f c' ]

-- The key of a client in the tests.
abbrev pub key_1234 : Bytes
key_1234 = 1 ∷ 2 ∷ 3 ∷ 4 ∷ []

abbrev pub server : Bytes → WsConn
server input = record {
  is_client = false;
  recv = input;
  ofs = 0;
  is_draining = false;
  is_closing = false;
  effects = [];
}

-- Three fragments: FIN is clear in the first two.
fragments : Bytes
fragments =
    (1 ∷ 0x83 ∷ 0 ∷ 0 ∷ 0 ∷ 0 ∷ codes "Hel")
    ++ (0 ∷ 0x81 ∷ 0 ∷ 0 ∷ 0 ∷ 0 ∷ codes "l")
    ++ ws_frame key_1234 true 0 (codes "o!")

reassembled :
    (ws_read key_1234 9 (server fragments)).effects
    ≡ ctl 0 (codes "l") ∷ ctl 128 (codes "o!") ∷ message 1 (codes "Hello!") ∷ []
unfolding fragments ws_read ws_frame ws_process
reassembled = refl
