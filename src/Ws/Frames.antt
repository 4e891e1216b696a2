-- ===== src/Ws/Frames.antt =====
-- ws.cpp, frames: what `ws_process` accepts, and that it reads back what `ws_send` writes.
use nanosrv.Common.{
  ℕ, zero, suc, ◌+◌, ◌-◌, ◌≤◌, ◌<◌, bit_and, true, ◌||◌, [], ◌∷◌, ◌++◌, ◌≡◌, refl, sym, ap, ◌∙◌,
  arith, Bytes, IsBytes, ltb, length, get_or, take, drop, ◌⊎◌, inl, inr, Bool-cases, length-append,
  length-take, length-drop, take-append_self, drop-append_self, bit_and_three, drop-drop,
  bit_xor_twice, get_or-append,
}
use nanosrv.Ws.{WsMsg, byte_at, ws_xor, ws_header, ws_fields, ws_unmask, ws_process, max_data_len}

pub length-ws_xor : (m : Bytes) (i : ℕ) (p : Bytes) → length (ws_xor m i p) ≡ length p
unfolding ws_xor
length-ws_xor m i [] = refl
length-ws_xor m i (x ∷ p) = ap suc (length-ws_xor m (suc i) p)

IsByte-get_or : (m : Bytes) (i : ℕ) → IsBytes m → get_or m i 0 < 256
IsByte-get_or [] i h = omega arith
IsByte-get_or (x ∷ m) zero h = h.0
IsByte-get_or (x ∷ m) (suc i) h = IsByte-get_or m i h.1

-- Masking twice with the same four bytes gives the payload back.
pub ws_xor_twice :
    (m : Bytes) (i : ℕ) (p : Bytes) → IsBytes m → IsBytes p → ws_xor m i (ws_xor m i p) ≡ p
unfolding ws_xor
ws_xor_twice m i [] hm hp = refl
ws_xor_twice m i (x ∷ p) hm hp = rw (
  bit_xor_twice x (byte_at m (bit_and i 3)) hp.0 (IsByte-get_or m (bit_and i 3) hm),
  ws_xor_twice m (suc i) p hm hp.1,
)

-- Only the first bytes of the mask are read.
pub ws_xor-append :
    (m rest : Bytes) (i : ℕ) (p : Bytes) → length m ≡ 4 → ws_xor (m ++ rest) i p ≡ ws_xor m i p
unfolding ws_xor
ws_xor-append m rest i [] h = refl
ws_xor-append m rest i (x ∷ p) h = rw (
  get_or-append m rest (bit_and i 3) 0 (omega (arith, bit_and_three i)),
  ws_xor-append m rest (suc i) p h,
)

-- A header is in the buffer with its mask, or none is and the frame is empty.
header_cases :
    (buf : Bytes)
    → (((ws_header buf).header_len ≡ 0) × ((ws_header buf).data_len ≡ 0))
      ⊎ ((2 ≤ (ws_header buf).header_len)
          × ((ws_header buf).masked ≡ true → 4 ≤ (ws_header buf).header_len))
unfolding ws_header ws_fields
header_cases buf = ground arith

-- Unmasking changes the payload alone.
unmask_lem :
    (buf : Bytes) (msg : WsMsg)
    → msg.header_len + msg.data_len ≤ length buf
    → let n = msg.header_len + msg.data_len in
      (length (ws_unmask buf msg) ≡ length buf)
      × (take msg.header_len (ws_unmask buf msg) ≡ take msg.header_len buf)
      × (drop n (ws_unmask buf msg) ≡ drop n buf)
unfolding ws_unmask
unmask_lem buf msg h = elim (Bool-cases msg.masked) [
  | inr plain ↦ rw plain (refl, refl, refl)
  | inl masked ↦ rw masked (
    omega (
      arith,
      length-append head (body ++ rest),
      length-append body rest,
      length-head,
      length-body,
      length-drop msg.data_len p,
      length-drop msg.header_len buf,
    ),
    take-append_self head (body ++ rest) msg.header_len (sym length-head),
    sym (drop-drop msg.data_len msg.header_len (head ++ (body ++ rest)))
        ∙ ap (drop msg.data_len)
            (drop-append_self head (body ++ rest) msg.header_len (sym length-head))
        ∙ drop-append_self body rest msg.data_len (sym length-body)
        ∙ drop-drop msg.data_len msg.header_len buf,
  )
]
  where
    p : Bytes
    p = drop msg.header_len buf

    head : Bytes
    head = take msg.header_len buf

    body : Bytes
    body = ws_xor (drop (msg.header_len - 4) buf) 0 (take msg.data_len p)

    rest : Bytes
    rest = drop msg.data_len p

    length-head : length head ≡ msg.header_len
    length-head = omega (arith, length-take msg.header_len buf)

    length-body : length body ≡ msg.data_len
    length-body =
        length-ws_xor _ 0 (take msg.data_len p)
        ∙ omega (arith, length-take msg.data_len p, length-drop msg.header_len buf)

-- The two ways through `ws_process`.
process_cases :
    (buf : Bytes)
    → let msg = ws_header buf in
      let n = msg.header_len + msg.data_len in
      (ws_process buf ≡ (buf, msg, 0))
      ⊎ ((ws_process buf ≡ (ws_unmask buf msg, msg, n))
          × (msg.data_len ≤ max_data_len)
          × (n ≤ length buf))
unfolding ws_process
process_cases buf =
    let msg = ws_header buf in
    elim (Bool-cases
      (ltb max_data_len msg.data_len || ltb (length buf) (msg.header_len + msg.data_len))) [
        | inl bad ↦ inl (rw bad)
        | inr good ↦ inr (rw good, ground arith, ground arith)
      ]

unmask_empty :
    (buf : Bytes) (msg : WsMsg) → msg.header_len ≡ 0 → msg.data_len ≡ 0 → ws_unmask buf msg ≡ buf
unfolding ws_unmask ws_xor
unmask_empty buf msg h d = rw (h, d) (ground arith)

-- Whatever the peer sends, a frame that is taken lies inside the buffer, is not larger than the
-- limit, and changes only its payload: header and later bytes stay, and so does the buffer's length.
-- Where no whole frame is there, nothing changes.
pub ws_process_bounds :
    (buf : Bytes)
    → let r = ws_process buf in
      (length r.0 ≡ length buf)
      × (((r.2 ≡ 0) × (r.0 ≡ buf))
          ⊎ ((r.2 ≡ r.1.header_len + r.1.data_len)
              × (2 ≤ r.1.header_len)
              × (r.2 ≤ length buf)
              × (r.1.data_len ≤ max_data_len)
              × (take r.1.header_len r.0 ≡ take r.1.header_len buf)
              × (drop r.2 r.0 ≡ drop r.2 buf)))
ws_process_bounds buf =
    let msg = ws_header buf in
    elim (process_cases buf) [
      | inl e ↦ rw e (refl, inl (refl, refl))
      | inr (e, small, inside) ↦ elim (header_cases buf) [
        | inl (h, d) ↦
            let same = unmask_empty buf msg h d in rw e (ap length same, inl (omega arith, same))
        | inr (h, _) ↦
            let (l, t, r) = unmask_lem buf msg inside in
            rw e (l, inr (refl, h, inside, small, t, r))
      ]
    ]
