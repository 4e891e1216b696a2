-- ===== src/Http/Lengths.antt =====
-- http.cpp: how long the body of a request is.
use nanosrv.Common.{
  ℕ, ◌+◌, ◌^◌, ◌%◌, ◌≤◌, ◌<◌, true, false, none, some, List, ◌≡◌, ◌≢◌, ◌⊎◌, inl, inr, refl, ◌∙◌,
  arith, Bytes, codes, ltb, ◌==◌, if◌then◌else◌, Bool-cases,
}
use nanosrv.Http.Lines.{to_size_t}
use nanosrv.Http.Message.{HttpHeader, http_get_header, settle_lengths, message_lengths, unknown_len}

settled_unknown :
    (req_len : ℕ) (uri : Bytes) (m : ℕ)
    → settle_lengths req_len false uri (unknown_len, m) ≡ some (0, req_len)
unfolding settle_lengths
settled_unknown req_len uri m = ground arith

settled_known :
    (req_len n m : ℕ) (uri : Bytes)
    → n ≢ unknown_len
    → settle_lengths req_len false uri (n, m) ≡ (if ltb m req_len then none else some (n, m))
unfolding settle_lengths
settled_known req_len n m uri h =
    let e : (n == unknown_len) ≡ false = ground arith in
    rw (e, settle_lengths) (rw (e, settle_lengths) refl)

message_lengths_given :
    (req_len n : ℕ) (uri v : Bytes) (headers : List HttpHeader)
    → http_get_header headers (codes "Content-Length") ≡ some v
    → to_size_t v ≡ some n
    → message_lengths req_len false uri headers
      ≡ settle_lengths req_len false uri (n, (req_len + n) % 2 ^ 64)
unfolding message_lengths
message_lengths_given req_len n uri v headers at size =
    rw (at, message_lengths) (rw (size, message_lengths) refl)

-- A request whose Content-Length is a number n has a body of n bytes, and is refused where the length
-- of the whole message does not fit a size_t. The largest size_t is the exception: it also marks a
-- length that is not given, and such a request is accepted with a body of length 0.
pub message_lengths-request :
    (req_len n : ℕ) (uri v : Bytes) (headers : List HttpHeader)
    → http_get_header headers (codes "Content-Length") ≡ some v
    → to_size_t v ≡ some n
    → req_len < 2 ^ 31
    → n < 2 ^ 64
    → let r = message_lengths req_len false uri headers in
      ((n ≡ unknown_len) × (r ≡ some (0, req_len)))
      ⊎ (((n ≢ unknown_len) × (2 ^ 64 ≤ req_len + n) × (r ≡ none))
          ⊎ ((n ≢ unknown_len) × (req_len + n < 2 ^ 64) × (r ≡ some (n, req_len + n))))
message_lengths-request req_len n uri v headers at size h k =
    let start = message_lengths_given req_len n uri v headers at size in
    elim (Bool-cases (n == unknown_len)) [
      | inl e ↦
          let largest : n ≡ unknown_len = ground arith in
          inl (largest, start ∙ rw largest (settled_unknown req_len uri _))
      | inr e ↦
          let ne : n ≢ unknown_len = ground arith in
          elim (Bool-cases (ltb (req_len + n) (2 ^ 64))) [
            | inl fits ↦
                let below : req_len + n < 2 ^ 64 = ground arith in
                let same : (req_len + n) % 2 ^ 64 ≡ req_len + n = omega arith in
                let enough : ltb (req_len + n) req_len ≡ false = ground arith in
                inr (
                  inr
                    (ne, below, start ∙ settled_known req_len n _ uri ne ∙ rw (same, enough) refl))
            | inr over ↦
                let above : 2 ^ 64 ≤ req_len + n = ground arith in
                let wraps : ltb ((req_len + n) % 2 ^ 64) req_len ≡ true = ground arith in
                inr (inl (ne, above, start ∙ settled_known req_len n _ uri ne ∙ rw wraps refl))
          ]
    ]
