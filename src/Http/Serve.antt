-- ===== src/Http/Serve.antt =====
-- http.cpp, `http_cb`: messages are taken off the receive buffer one by one, and the application is
-- called. What the connection does is recorded in order.
pub mod Safety
pub mod Pipeline
use nanosrv.Common.{
  ℕ, zero, suc, ◌+◌, ◌-◌, ◌*◌, Bool, true, false, not, ◌&&◌, ◌||◌, Option, none, some, List, [],
  ◌∷◌, ◌++◌, ◌≡◌, refl, Bytes, codes, ltb, leb, ◌==◌, if◌then◌else◌, length, take, drop,
}
use nanosrv.Http.Lines.{ncase_equal}
use nanosrv.Http.Message.{
  HttpHeader, HttpMessage, Parsed, invalid, too_many, incomplete, parsed, http_parse,
  http_get_header, equals_casecmp, is_digit,
}
use nanosrv.Http.Chunks.{Scan, broken, wanting, complete, scan_chunks, relocate}

-- The calls of the handler with MG_EV_HTTP_HDRS and MG_EV_HTTP_MSG, the latter with the body; of
-- `http_reply`, with the status; and of `error`.
pub data Effect : Type 0 where
  hdrs : HttpMessage → Effect
  msg : HttpMessage → Bytes → Effect
  reply : ℕ → Effect
  error : Effect

-- The events to which the callback listens.
pub data Event : Type 0 where
  read close poll : Event

-- The fields of struct Connection, and of its manager, that the callback reads and writes; `detached`
-- says that `pfn` is NULL.
pub record HttpConn : Type 0 where
  pub recv : Bytes
  pub is_client : Bool
  pub is_accepted : Bool
  pub is_resp : Bool
  pub is_draining : Bool
  pub is_closing : Bool
  pub detached : Bool
  pub max_body_size : ℕ
  pub effects : List Effect

-- What the application does at a message that begins at an offset: whether its handler of the
-- headers changes the length of the receive buffer, and to which bytes, and whether its handler of
-- the message has replied when it returns, so that it has cleared `is_resp`.
pub record App : Type 0 where
  pub changes : ℕ → HttpMessage → Option Bytes
  pub replies : ℕ → HttpMessage → Bool

abbrev pub emit : HttpConn → Effect → HttpConn
emit c e = record c { effects = c.effects ++ e ∷ [] }

-- `atoi` of a text with no blank in front; a negative number is 0 here.
unfoldable pub digits_from : ℕ → Bytes → ℕ
unfolding is_digit
digits_from n [] = n
digits_from n (c ∷ s) = if is_digit c then digits_from (n * 10 + (c - b'0')) s else n

unfoldable pub http_status : HttpMessage → ℕ
unfolding digits_from
http_status hm = elim hm.uri [
  | [] ↦ 0
  | c ∷ s ↦ if c == b'+' then digits_from 0 s else digits_from 0 (c ∷ s)
]

-- `require_content_len`, where neither Transfer-Encoding nor Content-Length is given.
unfoldable pub require_content_len : HttpMessage → Bool
unfolding ncase_equal equals_casecmp http_status
require_content_len hm =
    let is_response = ncase_equal hm.head (codes "HTTP/") 5 in
    let status = http_status hm in
    if not is_response
      && (equals_casecmp hm.method (codes "POST") || equals_casecmp hm.method (codes "PUT"))
    then not (hm.body_len == 0)
    else is_response && leb 200 status && not (status == 204) && not (status == 304)

-- How the body is framed.
pub data Framing : Type 0 where
  chunked unknown_encoding plain length_missing : Framing

unfoldable pub is_http_1_0 : HttpMessage → Bool
unfolding ncase_equal
is_http_1_0 hm = ltb 8 (length hm.proto) && ncase_equal hm.proto (codes "HTTP/1.0") 8

unfoldable pub by_length : HttpMessage → Framing
unfolding require_content_len
by_length hm = elim (http_get_header hm.headers (codes "Content-length")) [
  | some _ ↦ plain
  | none ↦ if require_content_len hm then length_missing else plain
]

unfoldable pub framing : HttpMessage → Framing
unfolding is_http_1_0 by_length http_get_header equals_casecmp
framing hm = elim (http_get_header hm.headers (codes "Transfer-Encoding")) [
  | none ↦ by_length hm
  | some te ↦
      if is_http_1_0 hm
      then by_length hm
      else if equals_casecmp te (codes "chunked")
      then chunked
      else unknown_encoding
]

-- A round of the loop: `return`, `break` with the offset reached, and the next round.
pub data Round : Type 0 where
  quit : HttpConn → Round
  leave go : HttpConn → ℕ → Round

-- `http_reply(c, 413, ...)` and what follows: the request is discarded.
unfoldable pub reject_body : HttpConn → Round
reject_body c =
    quit (record c { recv = []; is_draining = true; effects = c.effects ++ reply 413 ∷ [] })

unfoldable pub over_cap : HttpConn → HttpMessage → Bool
over_cap c hm = ltb 0 c.max_body_size && c.is_accepted && ltb c.max_body_size hm.body_len

-- A header `Connection: close`.
unfoldable pub wants_close : HttpMessage → Bool
unfolding http_get_header equals_casecmp
wants_close hm = elim (http_get_header hm.headers (codes "Connection")) [
  | none ↦ false
  | some cc ↦ equals_casecmp cc (codes "close")
]

module _ (app : App) where
  -- MG_EV_HTTP_MSG for the message at `ofs`, whose head has n bytes; `next` is behind it.
  unfoldable pub deliver : HttpConn → ℕ → ℕ → HttpMessage → ℕ → Round
  unfolding wants_close
  deliver c ofs n hm next =
      let body = take hm.body_len (drop (ofs + n) c.recv) in
      let resp = (c.is_resp || c.is_accepted) && not (app.replies ofs hm) in
      let c₁ = record c { is_resp = resp; effects = c.effects ++ msg hm body ∷ [] } in
      if c.is_accepted && not resp && wants_close hm
      then leave (record c₁ { is_draining = true }) next
      else go c₁ next

  -- A body in chunks. `beyond` is the byte behind the buffer.
  unfoldable pub chunked_round : ℕ → HttpConn → ℕ → ℕ → HttpMessage → Round
  unfolding scan_chunks relocate over_cap reject_body deliver
  chunked_round beyond c ofs n hm =
      let s = drop (ofs + n) c.recv in
      elim (scan_chunks (length s) beyond s) [
        | wanting ↦ leave c ofs
        | broken ↦ leave (record c { is_closing = true; effects = c.effects ++ error ∷ [] }) ofs
        | complete ↦
            let r = relocate (length s) beyond s 0 0 in
            let hm' = record hm { body_len = r.1; message_len = n + r.1 } in
            let c' = record c { recv = take (ofs + n) c.recv ++ r.0 } in
            if over_cap c' hm' then reject_body c' else deliver c' ofs n hm' (ofs + n + r.2)
      ]

  -- A body of known length.
  unfoldable pub plain_round : HttpConn → ℕ → ℕ → HttpMessage → Round
  unfolding over_cap reject_body deliver
  plain_round c ofs n hm =
      if over_cap c hm
      then reject_body c
      else if ltb (length c.recv - ofs - n) hm.body_len
      then leave c ofs
      else deliver c ofs n hm (ofs + n + hm.body_len)

  unfoldable pub framed_round : Framing → ℕ → HttpConn → ℕ → ℕ → HttpMessage → Round
  unfolding plain_round chunked_round
  framed_round chunked beyond c ofs n hm = chunked_round beyond c ofs n hm
  framed_round unknown_encoding beyond c ofs n hm =
      quit (record c { is_closing = true; effects = c.effects ++ error ∷ [] })
  framed_round plain beyond c ofs n hm = plain_round c ofs n hm
  framed_round length_missing beyond c ofs n hm =
      plain_round (if c.is_client then c else emit c (reply 411)) ofs n hm

  -- At the end of the connection the rest of the buffer is the message.
  unfoldable pub at_close : Event → HttpConn → ℕ → ℕ → HttpMessage → HttpMessage
  at_close read c ofs n hm = hm
  at_close poll c ofs n hm = hm
  at_close close c ofs n hm = record hm {
    message_len = length c.recv - ofs;
    body_len = length c.recv - ofs - n;
  }

  -- A complete head.
  unfoldable pub head_round : Event → ℕ → HttpConn → ℕ → ℕ → HttpMessage → Round
  unfolding at_close framing framed_round
  head_round ev beyond c ofs n hm =
      let c₁ = emit c (hdrs hm) in
      let hm₁ = at_close ev c ofs n hm in
      elim (app.changes ofs hm) [
        | some recv ↦ quit (record c₁ { recv = recv; detached = true })
        | none ↦ framed_round (framing hm₁) beyond c₁ ofs n hm₁
      ]

  unfoldable pub http_round : Event → ℕ → HttpConn → ℕ → Round
  unfolding head_round http_parse
  http_round ev beyond c ofs =
      if c.is_resp || leb (length c.recv) ofs
      then leave c ofs
      else elim (http_parse (drop ofs c.recv)) [
        | too_many ↦ quit (record c {
          recv = [];
          is_draining = true;
          effects = if c.is_client then c.effects else c.effects ++ reply 431 ∷ [];
        })
        | invalid ↦ quit (record c { recv = []; is_draining = true })
        | incomplete ↦ leave c ofs
        | parsed n hm ↦ head_round ev beyond c ofs n hm
      ]

  -- The loop, and `iobuf_del(&c->recv, 0, ofs)` behind it; `none` where the rounds do not suffice.
  unfoldable pub http_loop : ℕ → Event → ℕ → HttpConn → ℕ → Option HttpConn
  http_loop zero ev beyond c ofs = none
  http_loop (suc f) ev beyond c ofs = elim (http_round ev beyond c ofs) [
    | quit c' ↦ some c'
    | leave c' ofs' ↦ some (if ltb 0 ofs' then record c' { recv = drop ofs' c'.recv } else c')
    | go c' ofs' ↦ http_loop f ev beyond c' ofs'
  ]

  -- Whether the callback acts on the event.
  unfoldable pub acts_on : Event → HttpConn → Bool
  acts_on read c = true
  acts_on close c = true
  acts_on poll c = c.is_accepted && not c.is_draining && ltb 0 (length c.recv)

  unfoldable pub http_cb : Event → ℕ → HttpConn → Option HttpConn
  unfolding acts_on http_loop http_round
  http_cb ev beyond c = if acts_on ev c then http_loop (length c.recv + 1) ev beyond c 0 else some c
