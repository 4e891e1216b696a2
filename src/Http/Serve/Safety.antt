-- ===== src/Http/Serve/Safety.antt =====
-- http.cpp, `http_cb`: it ends, and what it delivers is whole and within the cap.
use nanosrv.Common.{Bytes, ℕ, ◌≤◌, ◌<◌, Bool, false, ◌≡◌, ◌⊎◌, length, All}
use nanosrv.Http.Message.{HttpMessage, parsed, http_parse}
use nanosrv.Http.Serve.{
  close, Effect, hdrs, msg, reply, error, Event, HttpConn, chunked, framing, Round, quit, leave, go,
}

-- The lengths of a message are those of its head, or, where the head says that the body is in chunks,
-- those of the joined chunks. At the end of a connection what has arrived is the message.
abbrev pub IsSized : Event → HttpMessage → Type 0
IsSized ev hm =
    (ev ≡ close)
    ⊎ ((head : HttpMessage) × (text : Bytes) × (n : ℕ) × (http_parse text ≡ parsed n head)
        × ((hm ≡ head)
            ⊎ ((framing head ≡ chunked)
                × ((b : ℕ) × (l : ℕ) × (hm ≡ record head { body_len = b; message_len = l })))))

-- A delivered message has its whole body, which is within the cap on an accepted connection.
abbrev pub IsWhole : Event → ℕ → Bool → Effect → Type 0
IsWhole ev cap accepted (hdrs hm) = Unit
IsWhole ev cap accepted (reply code) = Unit
IsWhole ev cap accepted error = Unit
IsWhole ev cap accepted (msg hm body) =
    (length body ≡ hm.body_len)
    × ((cap ≡ 0) ⊎ ((accepted ≡ false) ⊎ (hm.body_len ≤ cap)))
    × IsSized ev hm

module _ (ev : Event) (cap : ℕ) (accepted : Bool) where
  pub record IsFine (c : HttpConn) : Type 0 where
    pub same_cap : c.max_body_size ≡ cap
    pub same_kind : c.is_accepted ≡ accepted
    pub whole : All (IsWhole ev cap accepted) c.effects

  -- A round that goes on comes nearer to the end of the buffer, and keeps its length.
  data RoundOk (len ofs : ℕ) : Round → Type 0 where
    quits : {c : HttpConn} → IsFine c → RoundOk len ofs (quit c)
    leaves : {c : HttpConn} {o : ℕ} → IsFine c → RoundOk len ofs (leave c o)
    goes :
        {c : HttpConn} {o : ℕ}
        → IsFine c
        → ofs < o
        → o ≤ len
        → length c.recv ≡ len
        → RoundOk len ofs (go c o)
