-- ===== src/Http/Accepted.antt =====
-- http.cpp: what holds of each message that `http_parse` accepts.
use nanosrv.Common.{
  ℕ, zero, suc, ◌+◌, ◌≤◌, ◌<◌, Bool, false, not, ◌&&◌, ◌||◌, none, some, List, [], ◌∷◌, ◌≡◌, inl,
  inr, refl, sym, ap, ◌∙◌, arith, Bytes, codes, ltb, ◌==◌, if◌then◌else◌, if-both, length, take,
  length-take, Bool-cases, Option-cases,
}
use mathlib.Core.Path.{subst}
use nanosrv.Http.Lines.{http_get_request_len, chars, skip_spaces, skiptorn}
use nanosrv.Http.Message.{
  HttpHeader, HttpMessage, Parsed, invalid, too_many, incomplete, parsed, parse_head, http_parse,
  finish_parse, Headers, refused, overflow, found, add_header, http_parse_headers, header_line,
  at_blank_line, is_duplicate, counted, Counts, no_counts, equals_casecmp, http_get_header,
  message_lengths, settle_lengths, given_lengths, max_http_headers, has_version_prefix, bad_version,
  split_query,
}
use nanosrv.Http.Heads.{head_bounds, parse_at, parse_bad, parse_more, HeadLen-cases}

-- How many of the headers have the name, up to case.
unfoldable pub occurrences : Bytes → List HttpHeader → ℕ
occurrences name [] = 0
occurrences name (h ∷ hs) = (if equals_casecmp h.name name then 1 else 0) + occurrences name hs

-- The headers that stand once at most.
pub record IsSingle (n : Counts) (hs : List HttpHeader) : Type 0 where
  pub content_length : n.cl + occurrences (codes "Content-Length") hs ≤ 1
  pub transfer_encoding : n.te + occurrences (codes "Transfer-Encoding") hs ≤ 1
  pub authorization : n.auth + occurrences (codes "Authorization") hs ≤ 1
  pub cookies : n.cookie + occurrences (codes "Cookie") hs ≤ 1
  pub connection : n.conn + occurrences (codes "Connection") hs ≤ 1

counted_single :
    (k name : Bytes) (c rest : ℕ)
    → (counted k name c).1 ≡ false
    → c ≤ 1
    → (counted k name c).0 + rest ≤ 1
    → c + ((if equals_casecmp k name then 1 else 0) + rest) ≤ 1
unfolding counted
counted_single k name c rest e h le = ground arith

counted_le :
    (k name : Bytes) (c : ℕ) → (counted k name c).1 ≡ false → c ≤ 1 → (counted k name c).0 ≤ 1
unfolding counted
counted_le k name c e h = ground arith

not_any :
    (a b c d e : Bool)
    → (a || b || c || d || e) ≡ false
    → (a ≡ false) × (b ≡ false) × (c ≡ false) × (d ≡ false) × (e ≡ false)
not_any a b c d e h = ground arith

IsSingle-start : (n : Counts) (hs : List HttpHeader) → IsSingle n hs → IsSingle n []
unfolding occurrences
IsSingle-start n hs s = record {
  content_length = omega arith;
  transfer_encoding = omega arith;
  authorization = omega arith;
  cookies = omega arith;
  connection = omega arith;
}

IsSingle-cons :
    (h : HttpHeader) (n : Counts) (hs : List HttpHeader)
    → (is_duplicate h.name n).1 ≡ false
    → IsSingle n []
    → IsSingle (is_duplicate h.name n).0 hs
    → IsSingle n (h ∷ hs)
unfolding is_duplicate occurrences
IsSingle-cons h n hs e s r =
    let (a, b, c, d, f) = not_any _ _ _ _ _ e in
    record {
      content_length =
          counted_single h.name (codes "Content-Length") n.cl _ a (omega arith) r.content_length;
      transfer_encoding =
          counted_single h.name (codes "Transfer-Encoding") n.te _ b (omega arith)
            r.transfer_encoding;
      authorization =
          counted_single h.name (codes "Authorization") n.auth _ c (omega arith) r.authorization;
      cookies = counted_single h.name (codes "Cookie") n.cookie _ d (omega arith) r.cookies;
      connection = counted_single h.name (codes "Connection") n.conn _ f (omega arith) r.connection;
    }

IsSingle-next :
    (k : Bytes) (n : Counts)
    → (is_duplicate k n).1 ≡ false
    → IsSingle n []
    → IsSingle (is_duplicate k n).0 []
unfolding is_duplicate occurrences
IsSingle-next k n e s =
    let (a, b, c, d, f) = not_any _ _ _ _ _ e in
    record {
      content_length = omega (arith, counted_le k (codes "Content-Length") n.cl a);
      transfer_encoding = omega (arith, counted_le k (codes "Transfer-Encoding") n.te b);
      authorization = omega (arith, counted_le k (codes "Authorization") n.auth c);
      cookies = omega (arith, counted_le k (codes "Cookie") n.cookie d);
      connection = omega (arith, counted_le k (codes "Connection") n.conn f);
    }

-- What the loop over the lines gives.
abbrev Sound : ℕ → Counts → Headers → Type 0
Sound slots n refused = Unit
Sound slots n overflow = Unit
Sound slots n (found hs) = IsSingle n hs × (length hs ≤ slots)

Sound-add :
    (slots : ℕ) (n : Counts) (h : HttpHeader) (r : Headers)
    → (is_duplicate h.name n).1 ≡ false
    → IsSingle n []
    → Sound slots (is_duplicate h.name n).0 r
    → Sound (suc slots) n (add_header h r)
unfolding add_header
Sound-add slots n h refused e s r = tt
Sound-add slots n h overflow e s r = tt
Sound-add slots n h (found hs) e s r = (IsSingle-cons h n hs e s r.0, omega (arith, r.1))

headers-Sound :
    (slots : ℕ) (n : Counts) (s : Bytes)
    → IsSingle n []
    → Sound slots n (http_parse_headers slots n s)
unfolding http_parse_headers
headers-Sound zero n s h =
    if-both (Sound 0 n) (ltb 0 (length s) && not (at_blank_line s)) overflow (found []) (λ _. tt)
      (λ _. (h, omega arith))
headers-Sound (suc slots) n s h = elim (Bool-cases (length s == 0)) [
  | inl e ↦ rw (e, http_parse_headers) tt
  | inr e ↦
      rw (e, http_parse_headers)
        (elim (Bool-cases (at_blank_line s)) [
          | inl b ↦ rw (b, http_parse_headers) (h, omega arith)
          | inr b ↦
              rw (b, http_parse_headers)
                (elim (Option-cases (header_line s)) [
                  | inl l ↦ rw (l, http_parse_headers) tt
                  | inr ((k, rest), l) ↦
                      rw (l, http_parse_headers)
                        (if-both (Sound (suc slots) n) (is_duplicate k.name n).1 refused _ (λ _. tt)
                          (λ d. Sound-add slots n k _ d h (
                            headers-Sound slots (is_duplicate k.name n).0 rest
                              (IsSingle-next k.name n d h))))
                ])
        ])
]

-- What an accepted message satisfies, by its head.
abbrev pub IsOf : Bytes → Parsed → Type 0
IsOf head (parsed n hm) =
    (n ≡ length head)
    × (hm.head ≡ head)
    × IsSingle no_counts hm.headers
    × (length hm.headers ≤ max_http_headers)
    × (n ≤ hm.message_len)
IsOf head invalid = Unit
IsOf head too_many = Unit
IsOf head incomplete = Unit

lengths_bound :
    (req_len : ℕ) (r : Bool) (uri : Bytes) (lens : ℕ × ℕ) (b m : ℕ)
    → settle_lengths req_len r uri lens ≡ some (b, m)
    → req_len ≤ m
unfolding settle_lengths
lengths_bound req_len r uri lens b m e = ground arith

message_bound :
    (req_len : ℕ) (r : Bool) (uri : Bytes) (hs : List HttpHeader) (b m : ℕ)
    → message_lengths req_len r uri hs ≡ some (b, m)
    → req_len ≤ m
unfolding message_lengths
message_bound req_len r uri hs b m e =
    elim (Option-cases (given_lengths req_len (http_get_header hs (codes "Content-Length")))) [
      | inl g ↦ absurd (cc (e, none_of g))
      | inr (lens, g) ↦ lengths_bound req_len r uri lens b m (sym (some_of lens g) ∙ e)
    ]
  where
    none_of :
        given_lengths req_len (http_get_header hs (codes "Content-Length")) ≡ none
        → message_lengths req_len r uri hs ≡ none
    none_of g = rw (g, message_lengths) refl

    some_of :
        (lens : ℕ × ℕ)
        → given_lengths req_len (http_get_header hs (codes "Content-Length")) ≡ some lens
        → message_lengths req_len r uri hs ≡ settle_lengths req_len r uri lens
    some_of lens g = rw (g, message_lengths) refl

finish-IsOf :
    (head : Bytes) (r : Bool) (method uri query proto : Bytes) (hs : Headers)
    → Sound max_http_headers no_counts hs
    → IsOf head (finish_parse head r method uri query proto hs)
unfolding finish_parse message_lengths
finish-IsOf head r method uri query proto refused h = tt
finish-IsOf head r method uri query proto overflow h = tt
finish-IsOf head r method uri query proto (found hs) h =
    elim (Option-cases (message_lengths (length head) r uri hs)) [
      | inl e ↦ rw (e, finish_parse) tt
      | inr ((b, m), e) ↦
          rw (e, finish_parse) (refl, refl, h.0, h.1, message_bound (length head) r uri hs b m e)
    ]

start-IsSingle : IsSingle no_counts []
unfolding occurrences
start-IsSingle = record {
  content_length = omega arith;
  transfer_encoding = omega arith;
  authorization = omega arith;
  cookies = omega arith;
  connection = omega arith;
}

parse_head-IsOf : (head : Bytes) → IsOf head (parse_head head)
unfolding parse_head
parse_head-IsOf head =
    let (method, s₁) = chars none 0 head in
    let (target, s₂) = chars none 0 (skip_spaces s₁) in
    let is_response = has_version_prefix method in
    let (uri, query) = split_query target in
    elim (Option-cases (skiptorn (skip_spaces s₂))) [
      | inl e ↦ rw (e, parse_head) tt
      | inr ((proto, s₃), e) ↦
          rw (e, parse_head)
            (if-both (IsOf head) (not is_response && bad_version proto) invalid _ (λ _. tt)
              (λ _.
                if-both (IsOf head) (length method == 0 || length uri == 0) invalid _ (λ _. tt)
                  (λ _.
                    finish-IsOf head is_response method uri query proto _
                      (headers-Sound max_http_headers no_counts s₃ start-IsSingle))))
    ]

-- A message that `http_parse` accepts is read from a head at the front of the buffer, and no more of
-- the buffer; it has 30 headers at most, and Content-Length, Transfer-Encoding, Authorization, Cookie
-- and Connection stand among them once at most, in whatever case; and the length of the message is
-- not less than that of the head.
pub http_parse_accepts :
    (s : Bytes) (n : ℕ) (hm : HttpMessage)
    → http_parse s ≡ parsed n hm
    → (0 < n)
      × (n ≤ length s)
      × (hm.head ≡ take n s)
      × IsSingle no_counts hm.headers
      × (length hm.headers ≤ max_http_headers)
      × (n ≤ hm.message_len)
http_parse_accepts s n hm e = elim (HeadLen-cases (http_get_request_len s)) [
  | inl b ↦ absurd (cc (e, parse_bad s b))
  | inr (inl m) ↦ absurd (cc (e, parse_more s m))
  | inr (inr (k, at)) ↦
      let found_head = parse_at s k at in
      let facts : IsOf (take k s) (parsed n hm) =
        subst (IsOf (take k s)) (sym found_head ∙ e) (parse_head-IsOf (take k s)) in
      let bounds = head_bounds s k at in
      let same : n ≡ k = omega (arith, facts.0, length-take k s, bounds) in
      (
        omega (arith, bounds, same),
        omega (arith, bounds, same),
        facts.1 ∙ ap (λ j. take j s) (sym same),
        facts.2,
        facts.3,
        facts.4,
      )
]
