-- ===== src/Http/Heads.antt =====
-- http.cpp: what `http_parse` makes of a buffer depends on the first head in it alone.
use nanosrv.Common.{
  ℕ, suc, ◌+◌, ◌≤◌, ◌<◌, [], ◌∷◌, ◌++◌, ◌≡◌, ◌≢◌, ◌⊎◌, inl, inr, refl, sym, ap, ◌∙◌, arith, Bytes,
  length, take, take-append_le,
}
use nanosrv.Http.Lines.{HeadLen, bad, more, ends_at, request_len, http_get_request_len}
use nanosrv.Http.Message.{invalid, incomplete, parse_head, http_parse}

-- A head that is found, and a byte that is refused, stay so whatever follows.
request_len-append :
    (i p q : ℕ) (s t : Bytes) (r : HeadLen)
    → request_len i p q s ≡ r
    → r ≢ more
    → request_len i p q (s ++ t) ≡ r
unfolding request_len
request_len-append i p q [] t r e h = absurd (h (sym e))
request_len-append i p q (c ∷ s) t r e h = ground (arith, request_len-append (suc i) c p s t r)

request_len_bounds :
    (i p q : ℕ) (s : Bytes) (n : ℕ) → request_len i p q s ≡ ends_at n → (i < n) × (n ≤ i + length s)
unfolding request_len
request_len_bounds i p q [] n e = absurd (cc e)
request_len_bounds i p q (c ∷ s) n e = ground (arith, request_len_bounds (suc i) c p s n)

pub head_bounds :
    (s : Bytes) (n : ℕ) → http_get_request_len s ≡ ends_at n → (0 < n) × (n ≤ length s)
unfolding http_get_request_len
head_bounds s n e = omega (arith, request_len_bounds 0 0 0 s n e)

head-append :
    (s t : Bytes) (r : HeadLen)
    → http_get_request_len s ≡ r
    → r ≢ more
    → http_get_request_len (s ++ t) ≡ r
unfolding http_get_request_len
head-append s t r = request_len-append 0 0 0 s t r

pub HeadLen-cases : (r : HeadLen) → (r ≡ bad) ⊎ ((r ≡ more) ⊎ ((n : ℕ) × (r ≡ ends_at n)))
HeadLen-cases bad = inl refl
HeadLen-cases more = inr (inl refl)
HeadLen-cases (ends_at n) = inr (inr (n, refl))

pub parse_at :
    (s : Bytes) (n : ℕ) → http_get_request_len s ≡ ends_at n → http_parse s ≡ parse_head (take n s)
unfolding http_parse
parse_at s n e = rw (e, http_parse) refl

pub parse_bad : (s : Bytes) → http_get_request_len s ≡ bad → http_parse s ≡ invalid
unfolding http_parse
parse_bad s e = rw (e, http_parse) refl

pub parse_more : (s : Bytes) → http_get_request_len s ≡ more → http_parse s ≡ incomplete
unfolding http_parse
parse_more s e = rw (e, http_parse) refl

-- Once the head is complete, or a byte in it is refused, the result of `http_parse` is settled: bytes
-- that arrive later do not change it.
pub http_parse-append :
    (s t : Bytes) → http_get_request_len s ≢ more → http_parse (s ++ t) ≡ http_parse s
http_parse-append s t h = elim (HeadLen-cases (http_get_request_len s)) [
  | inl e ↦ parse_bad (s ++ t) (head-append s t bad e (λ k. cc k)) ∙ sym (parse_bad s e)
  | inr (inl e) ↦ absurd (h e)
  | inr (inr (n, e)) ↦
      parse_at (s ++ t) n (head-append s t (ends_at n) e (λ k. cc k))
      ∙ ap parse_head (take-append_le n s t (head_bounds s n e).1)
      ∙ sym (parse_at s n e)
]
