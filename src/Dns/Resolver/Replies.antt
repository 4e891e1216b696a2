-- ===== src/Dns/Resolver/Replies.antt =====
-- dns.cpp, `dns_cb` at a reply: which requests it answers, and what is called for them.
use nanosrv.Common.{
  not, ◌&&◌, ◌↔◌, map, Option, none, ◌==◌, ==_iff, ℕ, Bool, true, false, some, List, [], ◌∷◌, ◌++◌,
  ◌≡◌, ◌⊎◌, inl, inr, refl, sym, ap, ◌∙◌, arith, Bytes, if◌then◌else◌, if-both, append-nil,
  append_assoc, Memory, All, All-append, Bool-cases,
}
use mathlib.Core.Path.{subst}
use nanosrv.Str.{tolc}
use nanosrv.Str.Compare.{compare_by_equal}
use nanosrv.Dns.{be16, dns_parse_name, DnsMessage, dns_parse}
use nanosrv.Dns.Resolver.{
  DnsRequest, Call, asked, connected, failed, resolver_failed, c_text, casecmp_equal,
  dns_question_is, Resolver, set_flag, is_answered, answer_request, answer_all, dns_read,
}

abbrev pub IsIn : DnsRequest → List DnsRequest → Type 0
IsIn d [] = ⊥
IsIn d (x ∷ xs) = (d ≡ x) ⊎ IsIn d xs

-- The requests that do not have the property.
abbrev pub unmatched : (DnsRequest → Bool) → List DnsRequest → List DnsRequest
unmatched answered [] = []
unmatched answered (d ∷ ds) =
    if answered d then unmatched answered ds else d ∷ unmatched answered ds

-- A call for a request of the list that the reply answers, of a connection that was resolving.
abbrev pub IsDue : (DnsRequest → Bool) → (ℕ → Bool) → List DnsRequest → ℕ → Type 0
IsDue answered flags ds c =
    (flags c ≡ true) × ((d : DnsRequest) × IsIn d ds × (d.conn ≡ c) × (answered d ≡ true))

abbrev pub IsJustified :
    DnsMessage → (DnsRequest → Bool) → (ℕ → Bool) → List DnsRequest → Call → Type 0
IsJustified dm answered flags ds (asked c name id) = ⊥
IsJustified dm answered flags ds resolver_failed = ⊥
IsJustified dm answered flags ds (connected c addr) =
    (dm.resolved ≡ true) × (addr ≡ dm.addr) × IsDue answered flags ds c
IsJustified dm answered flags ds (failed c) = (dm.resolved ≡ false) × IsDue answered flags ds c

-- What is called for a connection.
abbrev pub due_call : DnsMessage → ℕ → Call
due_call dm c = if dm.resolved then connected c dm.addr else failed c

abbrev pub IsCallIn : Call → List Call → Type 0
IsCallIn k [] = ⊥
IsCallIn k (x ∷ xs) = (k ≡ x) ⊎ IsCallIn k xs

in_front : (k : Call) (xs ys : List Call) → IsCallIn k xs → IsCallIn k (xs ++ ys)
in_front k [] ys h = absurd h
in_front k (x ∷ xs) ys (inl e) = inl e
in_front k (x ∷ xs) ys (inr h) = inr (in_front k xs ys h)

in_back : (k : Call) (xs ys : List Call) → IsCallIn k ys → IsCallIn k (xs ++ ys)
in_back k [] ys h = h
in_back k (x ∷ xs) ys h = inr (in_back k xs ys h)

-- The reply has the id of the request and one question, whose name is that of the request but for the
-- case of its letters.
abbrev pub IsReplyTo : Memory → Bytes → DnsMessage → DnsRequest → Type 0
IsReplyTo junk s dm d =
    (dm.txnid ≡ d.txnid)
    × (be16 s 4 ≡ 1)
    × ((question : Memory) × (n : ℕ) × (dns_parse_name s 256 12 junk ≡ some (question, n))
        × (map tolc (c_text question 0 256) ≡ map tolc d.name))

same_name : (s t : Bytes) → (casecmp_equal s t ≡ true) ↔ (map tolc s ≡ map tolc t)
unfolding casecmp_equal
same_name s t = ground (arith, compare_by_equal tolc s t)

question_shape :
    (junk : Memory) (s name : Bytes) (o : Option (Memory × ℕ))
    → dns_parse_name s 256 12 junk ≡ o
    → dns_question_is junk s name ≡ (
        if not (be16 s 4 == 1)
        then false
        else (elim o [ none ↦ false | some p ↦ casecmp_equal (c_text p.0 0 256) name ]))
unfolding dns_question_is
question_shape junk s name o e =
    ap
      (λ (o : Option (Memory × ℕ)).
        if not (be16 s 4 == 1)
        then false
        else (elim o [ none ↦ false | some p ↦ casecmp_equal (c_text p.0 0 256) name ]))
      e

both_hold : (b x : Bool) → (if not b then false else x) ≡ true → (b ≡ true) × (x ≡ true)
both_hold true x h = (refl, h)
both_hold false x h = absurd (cc h)

question_matches :
    (junk : Memory) (s name : Bytes) (o : Option (Memory × ℕ))
    → dns_parse_name s 256 12 junk ≡ o
    → (dns_question_is junk s name ≡ true) ↔ (
        (be16 s 4 ≡ 1)
        × ((question : Memory) × (n : ℕ) × (dns_parse_name s 256 12 junk ≡ some (question, n))
            × (map tolc (c_text question 0 256) ≡ map tolc name)))
question_matches junk s name none e = (
  λ h.
      let (one, x) =
        both_hold (be16 s 4 == 1) false (sym (question_shape junk s name none e) ∙ h) in
      absurd (cc x),
  λ g. absurd (cc (e, g.1.2)),
)
question_matches junk s name (some (q, n)) e = (
  λ h.
      let (one, x) =
        both_hold (be16 s 4 == 1) (casecmp_equal (c_text q 0 256) name)
          (sym (question_shape junk s name (some (q, n)) e) ∙ h) in
      ((==_iff (be16 s 4) 1).0 one, (q, n, e, (same_name (c_text q 0 256) name).0 x)),
  λ g.
      let same : q ≡ g.1.0 =
        ap (λ (o : Option (Memory × ℕ)). elim o [ none ↦ q | some p ↦ p.0 ]) (sym e ∙ g.1.2) in
      question_shape junk s name (some (q, n)) e
      ∙ rw ((==_iff (be16 s 4) 1).1 g.0, same) ((same_name (c_text g.1.0 0 256) name).1 g.1.3),
)

pub is_answered-IsReplyTo :
    (junk : Memory) (s : Bytes) (dm : DnsMessage) (d : DnsRequest)
    → (is_answered junk s dm d ≡ true) ↔ IsReplyTo junk s dm d
is_answered-IsReplyTo junk s dm d =
    let q = question_matches junk s d.name (dns_parse_name s 256 12 junk) refl in
    let shape : is_answered junk s dm d ≡ ((dm.txnid == d.txnid) && dns_question_is junk s d.name) =
      unfold is_answered in refl in
    let split = both_true (dm.txnid == d.txnid) (dns_question_is junk s d.name) in
    (
      λ h.
          let (id, named) = split.0 (sym shape ∙ h) in
          ((==_iff dm.txnid d.txnid).0 id, (q.0 named).0, (q.0 named).1),
      λ g. shape ∙ split.1 ((==_iff dm.txnid d.txnid).1 g.0, q.1 (g.1, g.2)),
    )
  where
    both_true : (a b : Bool) → ((a && b) ≡ true) ↔ ((a ≡ true) × (b ≡ true))
    both_true true b = (λ h. (refl, h), λ g. g.1)
    both_true false b = (λ h. absurd (cc h), λ g. absurd (cc g.0))

module _ (dm : DnsMessage) (d : DnsRequest) where
  answered_flags :
      (r : Resolver) (i : ℕ) → (answer_request dm d r).resolving i ≡ true → r.resolving i ≡ true
  unfolding answer_request set_flag
  answered_flags r i e = ground arith

  answered_requests : (r : Resolver) → (answer_request dm d r).requests ≡ r.requests
  unfolding answer_request
  answered_requests r =
      if-both (λ (q : Resolver). q.requests ≡ r.requests) (r.resolving d.conn) _ r
        (λ _.
          if-both (λ (q : Resolver). q.requests ≡ r.requests) dm.resolved _ _ (λ _. refl)
            (λ _. refl))
        (λ _. refl)

  -- A connection that was resolving is still, or has been called.
  abbrev Calls : Resolver → List Call → Resolver → Type 0
  Calls r new q =
      ((c : ℕ) → r.resolving c ≡ true → (q.resolving c ≡ true) ⊎ IsCallIn (due_call dm c) new)
      × (r.resolving d.conn ≡ true → IsCallIn (due_call dm d.conn) new)

  answered_calls :
      (answered : DnsRequest → Bool) (flags : ℕ → Bool) (all : List DnsRequest) (r : Resolver)
      → ((i : ℕ) → r.resolving i ≡ true → flags i ≡ true)
      → IsIn d all
      → answered d ≡ true
      → (new : List Call) × ((answer_request dm d r).calls ≡ r.calls ++ new)
        × All (IsJustified dm answered flags all) new
        × Calls r new (answer_request dm d r)
  unfolding answer_request
  answered_calls answered flags all r before here yes_it_is =
      let P = λ (q : Resolver).
        (new : List Call) × (q.calls ≡ r.calls ++ new)
        × All (IsJustified dm answered flags all) new
        × Calls r new q in
      if-both P (r.resolving d.conn) _ r
        (λ busy.
          let due : IsDue answered flags all d.conn =
            (before d.conn busy, (d, here, refl, yes_it_is)) in
          if-both P dm.resolved _ _
            (λ e. (
              connected d.conn dm.addr ∷ [],
              refl,
              ((e, refl, due), tt),
              (
                λ c b. elim (Bool-cases (c == d.conn)) [
                  | inl same ↦ inr (inl (rw (e, (==_iff c d.conn).0 same) refl))
                  | inr other ↦ inl (unfold set_flag in rw other b)
                ],
                λ b. inl (rw e refl),
              ),
            ))
            (λ e. (failed d.conn ∷ [], refl, ((e, due), tt), (λ c b. inl b, λ b. inl (rw e refl)))))
        (λ idle. ([], sym (append-nil r.calls), tt, (λ c b. inl b, λ b. absurd (cc (b, idle)))))

module _ (junk : Memory) (s : Bytes) (dm : DnsMessage) where
  loop_requests :
      (ds : List DnsRequest) (r : Resolver)
      → (answer_all junk s dm ds r).requests ≡ r.requests ++ unmatched (is_answered junk s dm) ds
  unfolding answer_all
  loop_requests [] r = sym (append-nil r.requests)
  loop_requests (d ∷ ds) r = elim (Bool-cases (is_answered junk s dm d)) [
    | inl e ↦
        rw (e, answer_all)
          (loop_requests ds (answer_request dm d r)
            ∙ ap (λ x. x ++ unmatched (is_answered junk s dm) ds) (answered_requests dm d r))
    | inr e ↦
        rw (e, answer_all)
          (loop_requests ds (record r { requests = r.requests ++ d ∷ [] })
            ∙ append_assoc r.requests (d ∷ []) (unmatched (is_answered junk s dm) ds))
  ]

  abbrev Called : (ℕ → Bool) → List DnsRequest → List Call → Type 0
  Called flags ds new =
      (c : ℕ) → IsDue (is_answered junk s dm) flags ds c → IsCallIn (due_call dm c) new

  loop_calls :
      (flags : ℕ → Bool) (all ds : List DnsRequest) (r : Resolver)
      → ((i : ℕ) → r.resolving i ≡ true → flags i ≡ true)
      → ((d : DnsRequest) → IsIn d ds → IsIn d all)
      → (new : List Call) × ((answer_all junk s dm ds r).calls ≡ r.calls ++ new)
        × All (IsJustified dm (is_answered junk s dm) flags all) new
        × Called r.resolving ds new
  unfolding answer_all
  loop_calls flags all [] r before inside =
      ([], sym (append-nil r.calls), tt, λ c due. absurd due.1.1)
  loop_calls flags all (d ∷ ds) r before inside =
      let P = λ (q : Resolver).
        (new : List Call) × (q.calls ≡ r.calls ++ new)
        × All (IsJustified dm (is_answered junk s dm) flags all) new
        × Called r.resolving (d ∷ ds) new in
      if-both P (is_answered junk s dm d) _ _
        (λ e.
          let (new, c, j, (kept, own)) =
            answered_calls dm d (is_answered junk s dm) flags all r before (inside d (inl refl))
              e in
          let (more, c', j', later) =
            loop_calls flags all ds (answer_request dm d r)
              (λ i b. before i (answered_flags dm d r i b)) (λ x h. inside x (inr h)) in
          (
            new ++ more,
            c' ∙ ap (λ x. x ++ more) c ∙ append_assoc r.calls new more,
            All-append (IsJustified dm (is_answered junk s dm) flags all) new more j j',
            λ k due. in_front_or_back k due new more own kept later,
          ))
        (λ not_it.
          let (new, c, j, later) =
            loop_calls flags all ds (record r { requests = r.requests ++ d ∷ [] }) before
              (λ x h. inside x (inr h)) in
          (new, c, j, λ k due. later k (behind k due not_it)))
    where
      in_front_or_back :
          (k : ℕ)
          → IsDue (is_answered junk s dm) r.resolving (d ∷ ds) k
          → (new more : List Call) → (r.resolving d.conn ≡ true → IsCallIn (due_call dm d.conn) new)
          → ((c : ℕ)
              → r.resolving c ≡ true
              → ((answer_request dm d r).resolving c ≡ true) ⊎ IsCallIn (due_call dm c) new)
          → Called (answer_request dm d r).resolving ds more
          → IsCallIn (due_call dm k) (new ++ more)
      in_front_or_back k (busy, (x, inl same, conn, hit)) new more own kept later =
          let here : d.conn ≡ k = ap (λ (y : DnsRequest). y.conn) (sym same) ∙ conn in
          in_front (due_call dm k) new more (
            subst (λ k. IsCallIn (due_call dm k) new) here
              (own (subst (λ k. r.resolving k ≡ true) (sym here) busy)))
      in_front_or_back k (busy, (x, inr rest, conn, hit)) new more own kept later =
          elim (kept k busy) [
            | inl still ↦ in_back (due_call dm k) new more (later k (still, (x, rest, conn, hit)))
            | inr done ↦ in_front (due_call dm k) new more done
          ]

      behind :
          (k : ℕ)
          → IsDue (is_answered junk s dm) r.resolving (d ∷ ds) k
          → is_answered junk s dm d ≡ false
          → IsDue (is_answered junk s dm) r.resolving ds k
      behind k (busy, (x, inl same, conn, hit)) other =
          absurd (cc (ap (is_answered junk s dm) same, hit, other))
      behind k (busy, (x, inr rest, conn, hit)) other = (busy, (x, rest, conn, hit))

read_parsed :
    (junk : Memory) (s : Bytes) (r : Resolver) (dm : DnsMessage)
    → dns_parse s ≡ some dm
    → dns_read junk s r ≡ answer_all junk s dm r.requests (record r { requests = [] })
unfolding dns_read
read_parsed junk s r dm e =
    ap
      (λ (o : Option DnsMessage). elim o [
        | none ↦ r
        | some dm ↦ answer_all junk s dm r.requests (record r { requests = [] })
      ])
      e

-- A reply that parses takes exactly the requests off the list that it answers: those with its
-- transaction id, where the reply has one question, with the name of the request but for the case of
-- letters. A connection is called exactly where it was resolving and has such a request: it is
-- connected, to the address in the reply, if the reply has one, and failed otherwise.
pub dns_read_answers :
    (junk : Memory) (s : Bytes) (r : Resolver) (dm : DnsMessage)
    → dns_parse s ≡ some dm
    → let answered = is_answered junk s dm in
      let r' = dns_read junk s r in
      ((d : DnsRequest) → (answered d ≡ true) ↔ IsReplyTo junk s dm d)
      × (r'.requests ≡ unmatched answered r.requests)
      × ((new : List Call) × (r'.calls ≡ r.calls ++ new)
          × All (IsJustified dm answered r.resolving r.requests) new
          × ((c : ℕ) → IsDue answered r.resolving r.requests c → IsCallIn (due_call dm c) new))
dns_read_answers junk s r dm e =
    let run = read_parsed junk s r dm e in
    let (new, c, j, all) =
      loop_calls junk s dm r.resolving r.requests r.requests (record r { requests = [] }) (λ i b. b)
        (λ d h. h) in
    (
      is_answered-IsReplyTo junk s dm,
      ap (λ (q : Resolver). q.requests) run
          ∙ loop_requests junk s dm r.requests (record r { requests = [] }),
      (new, ap (λ (q : Resolver). q.calls) run ∙ c, j, all),
    )
