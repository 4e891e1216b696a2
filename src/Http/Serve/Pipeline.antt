-- ===== src/Http/Serve/Pipeline.antt =====
-- http.cpp, `http_cb`: requests that stand one behind the other in the buffer.
use nanosrv.Common.{
  ℕ, zero, suc, ◌+◌, ◌-◌, ◌≤◌, ◌<◌, Bool, true, false, ◌||◌, none, some, List, [], ◌∷◌, ◌++◌, ◌≡◌,
  ◌⊎◌, inl, inr, refl, sym, ap, ◌∙◌, arith, Bytes, ltb, leb, if◌then◌else◌, length, take, drop,
  length-append, length-drop, take-append_self, drop-append_le, drop-append_self, drop-drop,
  append_assoc, append-nil, Bool-cases, All,
}
use nanosrv.Http.Lines.{more, http_get_request_len}
use nanosrv.Http.Message.{HttpMessage, incomplete, parsed, http_parse}
use nanosrv.Http.Heads.{http_parse-append, parse_more}
use nanosrv.Http.Accepted.{http_parse_accepts}
use nanosrv.Http.Serve.{
  Effect, hdrs, msg, read, HttpConn, App, emit, plain, framing, leave, go, over_cap, wants_close,
  deliver, plain_round, framed_round, at_close, head_round, http_round, http_loop, acts_on, http_cb,
}

-- A request with a body of known length, or none, that the cap admits and that keeps the connection.
pub record Request : Type 0 where
  pub wire : Bytes
  pub head_len : ℕ
  pub message : HttpMessage

pub record IsRequest (cap : ℕ) (q : Request) : Type 0 where
  pub parses : http_parse q.wire ≡ parsed q.head_len q.message
  pub sized : length q.wire ≡ q.head_len + q.message.body_len
  pub framed : framing q.message ≡ plain
  pub capped : (cap ≡ 0) ⊎ (q.message.body_len ≤ cap)
  pub stays : wants_close q.message ≡ false

abbrev pub texts : List Request → Bytes → Bytes
texts [] rest = rest
texts (q ∷ qs) rest = q.wire ++ texts qs rest

abbrev pub body : Request → Bytes
body q = drop q.head_len q.wire

abbrev pub deliveries : List Request → List Effect
deliveries [] = []
deliveries (q ∷ qs) = hdrs q.message ∷ msg q.message (body q) ∷ deliveries qs

-- An application that leaves the buffer alone and replies at once.
pub record IsPrompt (app : App) : Type 0 where
  pub leaves_buffer : (ofs : ℕ) (hm : HttpMessage) → app.changes ofs hm ≡ none
  pub replies_at_once : (ofs : ℕ) (hm : HttpMessage) → app.replies ofs hm ≡ true

-- The connection after the effects.
abbrev pub served : HttpConn → List Effect → HttpConn
served c es = record c { is_resp = false; effects = c.effects ++ es }

parses-append :
    (cap : ℕ) (q : Request) (t : Bytes)
    → IsRequest cap q
    → http_parse (q.wire ++ t) ≡ parsed q.head_len q.message
parses-append cap q t r =
    http_parse-append q.wire t (λ m. absurd (cc (parse_more q.wire m, r.parses))) ∙ r.parses

admitted :
    (c : HttpConn) (hm : HttpMessage)
    → (c.max_body_size ≡ 0) ⊎ (hm.body_len ≤ c.max_body_size)
    → over_cap c hm ≡ false
unfolding over_cap
admitted c hm h = ground arith

busy_not : (b : Bool) (ofs len : ℕ) → b ≡ false → ofs < len → (b || leb len ofs) ≡ false
busy_not b ofs len e lt = ground arith

at_end : (b : Bool) (ofs len : ℕ) → len ≤ ofs → (b || leb len ofs) ≡ true
at_end true ofs len le = refl
at_end false ofs len le = ground arith

ltb_not : (a b : ℕ) → b ≤ a → ltb a b ≡ false
ltb_not a b le = ground arith

kept :
    (c : HttpConn) (ofs : ℕ)
    → (if ltb 0 ofs then record c { recv = drop ofs c.recv } else c)
      ≡ record c { recv = drop ofs c.recv }
kept c zero = refl
kept c (suc ofs) = let e : ltb 0 (suc ofs) ≡ true = ground arith in rw e refl

module _ (app : App) (prompt : IsPrompt app) (beyond : ℕ) where
  deliver_prompt :
      (c : HttpConn) (ofs n : ℕ) (hm : HttpMessage) (next : ℕ)
      → wants_close hm ≡ false
      → deliver app c ofs n hm next
        ≡ go (served c (msg hm (take hm.body_len (drop (ofs + n) c.recv)) ∷ [])) next
  unfolding deliver
  deliver_prompt c ofs n hm next e = ground (arith, prompt.replies_at_once ofs hm, e)

  round_prompt :
      (c : HttpConn) (q : Request) (ofs : ℕ) (t : Bytes)
      → IsRequest c.max_body_size q
      → c.is_resp ≡ false
      → drop ofs c.recv ≡ q.wire ++ t
      → http_round app read beyond c ofs
        ≡ go (served c (hdrs q.message ∷ msg q.message (body q) ∷ [])) (ofs + length q.wire)
  unfolding http_round head_round at_close framed_round plain_round
  round_prompt c q ofs t r idle e =
      let p : http_parse (drop ofs c.recv) ≡ parsed q.head_len q.message =
        ap http_parse e ∙ parses-append c.max_body_size q t r in
      let pos : 0 < q.head_len = (http_parse_accepts q.wire q.head_len q.message r.parses).0 in
      let room : ofs + length q.wire ≤ length c.recv =
        omega (arith, length-append q.wire t, length-drop ofs c.recv, ap length e, r.sized, pos) in
      let left : (c.is_resp || leb (length c.recv) ofs) ≡ false =
        busy_not c.is_resp ofs (length c.recv) idle (omega (arith, room, r.sized, pos)) in
      let fits : over_cap (emit c (hdrs q.message)) q.message ≡ false =
        admitted (emit c (hdrs q.message)) q.message r.capped in
      let whole : ltb (length c.recv - ofs - q.head_len) q.message.body_len ≡ false =
        ltb_not _ _ (omega (arith, room, r.sized)) in
      let start : http_round app read beyond c ofs
          ≡ head_round app read beyond c ofs q.head_len q.message =
        rw (left, http_round) (rw (p, http_round) refl) in
      let mid : head_round app read beyond c ofs q.head_len q.message
          ≡ plain_round app (emit c (hdrs q.message)) ofs q.head_len q.message =
        rw (prompt.leaves_buffer ofs q.message, head_round) (rw (r.framed, head_round) refl) in
      let last : plain_round app (emit c (hdrs q.message)) ofs q.head_len q.message
          ≡ deliver app (emit c (hdrs q.message)) ofs q.head_len q.message
              (ofs + q.head_len + q.message.body_len) =
        rw (fits, plain_round) (rw (whole, plain_round) refl) in
      let payload : take q.message.body_len (drop (ofs + q.head_len) c.recv) ≡ body q =
        ap (take q.message.body_len) (
          sym (drop-drop q.head_len ofs c.recv)
          ∙ ap (drop q.head_len) e
          ∙ drop-append_le q.head_len q.wire t (omega (arith, r.sized)))
        ∙ take-append_self (body q) t q.message.body_len
            (omega (arith, length-drop q.head_len q.wire, r.sized)) in
      let next : ofs + q.head_len + q.message.body_len ≡ ofs + length q.wire =
        omega (arith, r.sized) in
      start
      ∙ mid
      ∙ last
      ∙ deliver_prompt (emit c (hdrs q.message)) ofs q.head_len q.message _ r.stays
      ∙ rw
          (
            payload,
            next,
            append_assoc c.effects (hdrs q.message ∷ []) (msg q.message (body q) ∷ []),
          )
          refl

  waits :
      (c : HttpConn) (ofs : ℕ) (rest : Bytes)
      → drop ofs c.recv ≡ rest
      → (rest ≡ []) ⊎ (http_get_request_len rest ≡ more)
      → http_round app read beyond c ofs ≡ leave c ofs
  unfolding http_round
  waits c ofs rest e (inl none_left) =
      let gone : length c.recv ≤ ofs =
        omega (arith, length-drop ofs c.recv, ap length e, ap length none_left) in
      rw (at_end c.is_resp ofs (length c.recv) gone, http_round) refl
  waits c ofs rest e (inr partly) =
      let p : http_parse (drop ofs c.recv) ≡ incomplete =
        parse_more (drop ofs c.recv) (ap http_get_request_len e ∙ partly) in
      elim (Bool-cases (c.is_resp || leb (length c.recv) ofs)) [
        | inl b ↦ rw (b, http_round) refl
        | inr b ↦ rw (b, http_round) (rw (p, http_round) refl)
      ]

  loop_prompt :
      (f : ℕ) (qs : List Request) (c : HttpConn) (ofs : ℕ) (rest : Bytes)
      → All (IsRequest c.max_body_size) qs
      → c.is_resp ≡ false
      → drop ofs c.recv ≡ texts qs rest
      → (rest ≡ []) ⊎ (http_get_request_len rest ≡ more)
      → length (drop ofs c.recv) < f
      → http_loop app f read beyond c ofs
        ≡ some (record c { recv = rest; is_resp = false; effects = c.effects ++ deliveries qs })
  unfolding http_loop
  loop_prompt zero qs c ofs rest all idle e stop enough = absurd (omega arith)
  loop_prompt (suc f) [] c ofs rest all idle e stop enough =
      rw (waits c ofs rest e stop, http_loop) (ap some (kept c ofs) ∙ settled c ofs rest e idle)
    where
      settled :
          (c : HttpConn) (ofs : ℕ) (rest : Bytes)
          → drop ofs c.recv ≡ rest
          → c.is_resp ≡ false
          → some (record c { recv = drop ofs c.recv })
            ≡ some (record c { recv = rest; is_resp = false; effects = c.effects ++ [] })
      settled c ofs rest e idle = λ i.
          some (record c { recv = e i; is_resp = idle i; effects = sym (append-nil c.effects) i })
  loop_prompt (suc f) (q ∷ qs) c ofs rest all idle e stop enough =
      let pos : 0 < length q.wire =
        omega
          (arith, (http_parse_accepts q.wire q.head_len q.message all.0.parses).0, all.0.sized) in
      let behind : drop (ofs + length q.wire) c.recv ≡ texts qs rest =
        sym (drop-drop (length q.wire) ofs c.recv)
        ∙ ap (drop (length q.wire)) e
        ∙ drop-append_self q.wire (texts qs rest) (length q.wire) refl in
      let room : length (drop ofs c.recv) ≡ length q.wire + length (texts qs rest) =
        ap length e ∙ length-append q.wire (texts qs rest) in
      let c' = served c (hdrs q.message ∷ msg q.message (body q) ∷ []) in
      rw (round_prompt c q ofs (texts qs rest) all.0 idle e, http_loop)
        (loop_prompt f qs c' (ofs + length q.wire) rest all.1 refl behind stop (
            omega (
              arith,
              enough,
              pos,
              length-drop ofs c.recv,
              length-drop (ofs + length q.wire) c.recv,
              room,
            ))
          ∙ rw
              (append_assoc c.effects (hdrs q.message ∷ msg q.message (body q) ∷ [])
                (deliveries qs))
              refl)

  -- Requests that stand one behind the other in the buffer, each whole and with a body of known length
  -- (within the cap where there is one) and without `Connection: close`, are taken in one call of
  -- `http_cb`, if the application replies at once and leaves the buffer alone: the handler is called
  -- with the headers and with the message of each, in order and with its own body, and what follows, which
  -- is nothing or an incomplete head, stays in the buffer.
  pub http_cb_pipelined :
      (c : HttpConn) (qs : List Request) (rest : Bytes)
      → All (IsRequest c.max_body_size) qs
      → c.is_resp ≡ false
      → c.recv ≡ texts qs rest
      → (rest ≡ []) ⊎ (http_get_request_len rest ≡ more)
      → http_cb app read beyond c
        ≡ some (record c { recv = rest; is_resp = false; effects = c.effects ++ deliveries qs })
  unfolding http_cb acts_on
  http_cb_pipelined c qs rest all idle e stop =
      loop_prompt (length c.recv + 1) qs c 0 rest all idle e stop (omega arith)
