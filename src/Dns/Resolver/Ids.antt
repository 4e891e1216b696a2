-- ===== src/Dns/Resolver/Ids.antt =====
-- dns.cpp: the transaction ids of the lookups in flight.
use nanosrv.Common.{
  ℕ, zero, suc, ◌+◌, ◌≤◌, ◌<◌, Bool, true, false, ◌&&◌, List, [], ◌∷◌, ◌≡◌, inl, inr, refl, sym, ap,
  arith, Bytes, ◌==◌, if-both, length, Memory, Bool-cases, Option-cases,
}
use mathlib.Core.Path.{subst}
use nanosrv.Dns.{DnsMessage, dns_parse}
use nanosrv.Dns.Resolver.{
  DnsRequest, Resolver, is_answered, dns_read, is_taken, pick_txnid, sendnsreq, without, DnsEvent,
  request, reply, tick, cancel, closed, dns_step, dns_run,
}
use nanosrv.Dns.Resolver.Replies.{unmatched, dns_read_answers}

-- No two requests have the same id.
abbrev pub IsDistinct : List DnsRequest → Type 0
IsDistinct [] = Unit
IsDistinct (d ∷ ds) = (is_taken d.txnid ds ≡ false) × IsDistinct ds

taken_unmatched :
    (p : DnsRequest → Bool) (id : ℕ) (ds : List DnsRequest)
    → is_taken id ds ≡ false
    → is_taken id (unmatched p ds) ≡ false
unfolding is_taken
taken_unmatched p id [] h = refl
taken_unmatched p id (d ∷ ds) h = elim (Bool-cases (p d)) [
  | inl e ↦ rw e (taken_unmatched p id ds (ground arith))
  | inr e ↦ rw e (ground (arith, taken_unmatched p id ds))
]

unmatched-IsDistinct :
    (p : DnsRequest → Bool) (ds : List DnsRequest) → IsDistinct ds → IsDistinct (unmatched p ds)
unmatched-IsDistinct p [] h = tt
unmatched-IsDistinct p (d ∷ ds) h =
    if-both IsDistinct (p d) _ _ (λ _. unmatched-IsDistinct p ds h.1)
      (λ _. (taken_unmatched p d.txnid ds h.0, unmatched-IsDistinct p ds h.1))

without-unmatched : (c : ℕ) (ds : List DnsRequest) → without c ds ≡ unmatched (λ d. d.conn == c) ds
unfolding without
without-unmatched c [] = refl
without-unmatched c (d ∷ ds) = rw (without-unmatched c ds) refl

-- A fresh draw among the attempts that are left.
pick_fresh :
    (f : ℕ) (draws : ℕ → ℕ) (attempt : ℕ) (ds : List DnsRequest) (n : ℕ)
    → n < f
    → is_taken (draws (attempt + n)) ds ≡ false
    → is_taken (pick_txnid f draws attempt ds) ds ≡ false
unfolding pick_txnid
pick_fresh zero draws attempt ds n lt h = absurd (omega arith)
pick_fresh (suc f) draws attempt ds zero lt h =
    let first : is_taken (draws attempt) ds ≡ false =
      (let e : attempt + 0 ≡ attempt = omega arith in
        subst (λ k. is_taken (draws k) ds ≡ false) e h) in
    rw (first, pick_txnid) first
pick_fresh (suc f) draws attempt ds (suc n) lt h = elim (Bool-cases (is_taken (draws attempt) ds)) [
  | inl e ↦
      let later : attempt + suc n ≡ attempt + 1 + n = omega arith in
      rw (e, pick_txnid)
        (pick_fresh f draws (attempt + 1) ds n (omega arith)
          (subst (λ k. is_taken (draws k) ds ≡ false) later h))
  | inr e ↦ rw (e, pick_txnid) e
]

-- Each request finds an id that is not taken among the numbers that it may draw.
abbrev pub AreFresh : List DnsEvent → Resolver → Type 0
AreFresh [] r = Unit
AreFresh (request ready sent draws expire c name ∷ es) r =
    ((n : ℕ) × (n < 0x10000) × (is_taken (draws n) r.requests ≡ false))
    × AreFresh es (dns_step (request ready sent draws expire c name) r)
AreFresh (reply junk s ∷ es) r = AreFresh es (dns_step (reply junk s) r)
AreFresh (tick now ∷ es) r = AreFresh es (dns_step (tick now) r)
AreFresh (cancel c ∷ es) r = AreFresh es (dns_step (cancel c) r)
AreFresh (closed ∷ es) r = AreFresh es (dns_step closed r)

send-IsDistinct :
    (ready sent : Bool) (draws : ℕ → ℕ) (expire c : ℕ) (name : Bytes) (r : Resolver) (n : ℕ)
    → n < 0x10000
    → is_taken (draws n) r.requests ≡ false
    → IsDistinct r.requests
    → IsDistinct (sendnsreq ready sent draws expire c name r).requests
unfolding sendnsreq
send-IsDistinct ready sent draws expire c name r n lt fresh h =
    if-both (λ (q : Resolver). IsDistinct q.requests) ready _ _
      (λ _. (
        pick_fresh 0x10000 draws 0 r.requests n lt (let e : 0 + n ≡ n = omega arith in rw e fresh),
        h,
      ))
      (λ _. h)

read-IsDistinct :
    (junk : Memory) (s : Bytes) (r : Resolver)
    → IsDistinct r.requests
    → IsDistinct (dns_read junk s r).requests
unfolding dns_read
read-IsDistinct junk s r h = elim (Option-cases (dns_parse s)) [
  | inl e ↦ rw (e, dns_read) h
  | inr (dm, e) ↦
      subst IsDistinct (sym (dns_read_answers junk s r dm e).1)
        (unmatched-IsDistinct (is_answered junk s dm) r.requests h)
]

run-IsDistinct :
    (es : List DnsEvent) (r : Resolver)
    → AreFresh es r
    → IsDistinct r.requests
    → IsDistinct (dns_run es r).requests
unfolding dns_run dns_step
run-IsDistinct [] r a h = h
run-IsDistinct (request ready sent draws expire c name ∷ es) r a h =
    run-IsDistinct es (dns_step (request ready sent draws expire c name) r) a.1
      (send-IsDistinct ready sent draws expire c name r a.0.0 a.0.1 a.0.2 h)
run-IsDistinct (reply junk s ∷ es) r a h =
    run-IsDistinct es (dns_step (reply junk s) r) a (read-IsDistinct junk s r h)
run-IsDistinct (tick now ∷ es) r a h = run-IsDistinct es (dns_step (tick now) r) a h
run-IsDistinct (cancel c ∷ es) r a h = run-IsDistinct es (dns_step (cancel c) r) a (
    subst IsDistinct (sym (without-unmatched c r.requests))
      (unmatched-IsDistinct (λ d. d.conn == c) r.requests h))
run-IsDistinct (closed ∷ es) r a h = run-IsDistinct es (dns_step closed r) a tt

unmatched_none :
    (p : DnsRequest → Bool) (id : ℕ) (ds : List DnsRequest)
    → ((d : DnsRequest) → p d ≡ true → id ≡ d.txnid)
    → is_taken id ds ≡ false
    → unmatched p ds ≡ ds
unfolding is_taken
unmatched_none p id [] only h = refl
unmatched_none p id (d ∷ ds) only h =
    let other : (d.txnid == id) ≡ false = ground arith in
    let rest : is_taken id ds ≡ false = ground arith in
    elim (Bool-cases (p d)) [
      | inl e ↦ let same = only d e in absurd (ground (arith, other, same))
      | inr e ↦ rw e (ap (λ x. d ∷ x) (unmatched_none p id ds only rest))
    ]

unmatched_one :
    (p : DnsRequest → Bool) (id : ℕ) (ds : List DnsRequest)
    → ((d : DnsRequest) → p d ≡ true → id ≡ d.txnid)
    → IsDistinct ds
    → length ds ≤ suc (length (unmatched p ds))
unmatched_one p id [] only h = omega arith
unmatched_one p id (d ∷ ds) only h = elim (Bool-cases (p d)) [
  | inl e ↦
      rw (e, unmatched_none p id ds only (subst (λ x. is_taken x ds ≡ false) (sym (only d e)) h.0))
        (omega arith)
  | inr e ↦ rw e (omega (arith, unmatched_one p id ds only h.1))
]

first_holds : (a b : ℕ) (c : Bool) → (a == b && c) ≡ true → a ≡ b
first_holds a b c e = ground arith

answered_txnid :
    (junk : Memory) (s : Bytes) (dm : DnsMessage) (d : DnsRequest)
    → is_answered junk s dm d ≡ true
    → dm.txnid ≡ d.txnid
unfolding is_answered
answered_txnid junk s dm d e = first_holds dm.txnid d.txnid _ e

read_one :
    (junk : Memory) (s : Bytes) (r : Resolver)
    → IsDistinct r.requests
    → length r.requests ≤ suc (length (dns_read junk s r).requests)
unfolding dns_read
read_one junk s r h = elim (Option-cases (dns_parse s)) [
  | inl e ↦ rw (e, dns_read) (omega arith)
  | inr (dm, e) ↦
      let left = (dns_read_answers junk s r dm e).1 in
      rw left
        (unmatched_one (is_answered junk s dm) dm.txnid r.requests (answered_txnid junk s dm) h)
]

-- The ids of the requests in flight stay distinct through any sequence of requests, replies, timeouts and
-- cancellations in which each request finds a free id within its 65,536 attempts; therefore a reply,
-- whatever it holds, answers one of them at most.
pub dns_run_one_reply :
    (es : List DnsEvent) (r : Resolver) (junk : Memory) (s : Bytes)
    → AreFresh es r
    → IsDistinct r.requests
    → IsDistinct (dns_run es r).requests
      × (length (dns_run es r).requests ≤ suc (length (dns_read junk s (dns_run es r)).requests))
dns_run_one_reply es r junk s a h =
    let kept = run-IsDistinct es r a h in (kept, read_one junk s (dns_run es r) kept)
