-- ===== src/Dns/Answers.antt =====
-- dns.cpp, `dns_parse`: what holds of a message that it accepts.
use nanosrv.Common.{
  [], ℕ, zero, suc, ◌+◌, ◌-◌, ◌%◌, ◌^◌, ◌≤◌, Bool, true, false, ◌&&◌, ◌||◌, Option, none, some, ◌≡◌,
  ◌⊎◌, inl, inr, refl, arith, Bytes, ltb, leb, ◌==◌, if◌then◌else◌, if-both, length, take, drop,
  Keeps, Keeps-trans, Option-cases,
}
use mathlib.Core.Path.{subst}
use nanosrv.Dns.{
  be16, DnsRr, rr_fields, dns_parse_rr, DnsMessage, with_name, address_at, answers, question,
  is_response, answer_count, empty_message, dns_parse,
}
use nanosrv.Dns.Names.{dns_parse_name_bounds}

-- A record that is taken lies inside the packet, with the bytes that it carries at its end.
RrFits : Bytes → ℕ → Option (ℕ × DnsRr) → Type 0
RrFits s ofs none = Unit
RrFits s ofs (some (n, rr)) = (ofs + n ≤ length s) × (rr.alen ≤ n)

fields-RrFits : (s : Bytes) (ofs : ℕ) (b : Bool) (nlen : ℕ) → RrFits s ofs (rr_fields s ofs b nlen)
unfolding rr_fields RrFits
fields-RrFits s ofs b nlen =
    let alen = be16 s (ofs + nlen + 8) in
    let P = RrFits s ofs in
    if-both P (ltb (length s) (ofs + nlen + 4)) _ _ (λ _. tt)
      (λ e₁.
        if-both P b _ _ (λ _. (ground arith, omega arith))
          (λ _.
            if-both P (ltb (length s) (ofs + nlen + 10)) _ _ (λ _. tt)
              (λ e₂.
                if-both P (ltb (length s) (ofs + nlen + 10 + alen)) _ _ (λ _. tt)
                  (λ e₃. (ground arith, omega arith)))))

rr-RrFits : (s : Bytes) (ofs : ℕ) (b : Bool) → RrFits s ofs (dns_parse_rr s ofs b)
unfolding dns_parse_rr RrFits
rr-RrFits s ofs b =
    let P = RrFits s ofs in
    let (to, n, e, _, _, _) = dns_parse_name_bounds s [] 0 ofs (λ _. 0) in
    if-both P (ltb (length s) 12 || ltb 512 (length s) || leb (length s) ofs) _ _ (λ _. tt)
      (λ _.
        rw e (if-both P (n % 2 ^ 16 == 0) _ _ (λ _. tt) (λ _. fields-RrFits s ofs b (n % 2 ^ 16))))

-- The address, where there is one, is a part of the packet.
abbrev pub HasAddress : Bytes → DnsMessage → Type 0
HasAddress s dm =
    let size = if dm.is_ip6 then 16 else 4 in
    (at : ℕ) × (at + size ≤ length s) × (dm.addr ≡ take size (drop at s))

pub record IsSound (s : Bytes) (txnid : ℕ) (dm : DnsMessage) : Type 0 where
  pub same_txnid : dm.txnid ≡ txnid
  pub name_inside : Keeps 256 (λ _. 0) dm.name
  pub address : (dm.resolved ≡ false) ⊎ ((is_response s ≡ true) × HasAddress s dm)

IsAnswer : Bytes → ℕ → Option DnsMessage → Type 0
IsAnswer s txnid none = Unit
IsAnswer s txnid (some dm) = IsSound s txnid dm

with_name-IsSound :
    (s : Bytes) (txnid ofs : ℕ) (dm : DnsMessage)
    → IsSound s txnid dm
    → (dm' : DnsMessage) × (with_name s ofs dm ≡ some dm') × IsSound s txnid dm'
unfolding with_name
with_name-IsSound s txnid ofs dm h =
    let (name, n, parsed_name, _, keeps, _) = dns_parse_name_bounds s [] 256 ofs dm.name in
    (
      record dm { name = name },
      rw (parsed_name, with_name) refl,
      record {
        same_txnid = h.same_txnid;
        name_inside = Keeps-trans 256 256 (λ _. 0) dm.name name (omega arith) h.name_inside keeps;
        address = h.address;
      },
    )

address-IsAnswer :
    (s : Bytes) (txnid ofs : ℕ) (rr : DnsRr) (dm : DnsMessage)
    → IsSound s txnid dm
    → is_response s ≡ true
    → rr.alen ≤ ofs
    → ofs ≤ length s
    → IsAnswer s txnid (address_at s ofs rr dm)
unfolding address_at IsAnswer
address-IsAnswer s txnid ofs rr dm h reply le end =
    let P = IsAnswer s txnid in
    if-both P (rr.alen == 4 && rr.atype == 1 && rr.aclass == 1) _ _
      (λ e.
        let size : rr.alen ≡ 4 = ground arith in
        record {
          same_txnid = h.same_txnid;
          name_inside = h.name_inside;
          address = inr (reply, (ofs - 4, omega arith, refl));
        })
      (λ _.
        if-both P (rr.alen == 16 && rr.atype == 28 && rr.aclass == 1) _ _
          (λ e.
            let size : rr.alen ≡ 16 = ground arith in
            record {
              same_txnid = h.same_txnid;
              name_inside = h.name_inside;
              address = inr (reply, (ofs - 16, omega arith, refl));
            })
          (λ _. tt))

answers-IsAnswer :
    (s : Bytes) (txnid left ofs : ℕ) (dm : DnsMessage)
    → is_response s ≡ true
    → IsSound s txnid dm
    → IsAnswer s txnid (answers s left ofs dm)
unfolding answers IsAnswer RrFits
answers-IsAnswer s txnid zero ofs dm reply h = h
answers-IsAnswer s txnid (suc left) ofs dm reply h =
    elim (Option-cases (dns_parse_rr s ofs false)) [
      | inl e ↦ rw (e, answers) tt
      | inr ((n, rr), e) ↦
          let fits : RrFits s ofs (some (n, rr)) = subst (RrFits s ofs) e (rr-RrFits s ofs false) in
          let (dm', named, h') = with_name-IsSound s txnid ofs dm h in
          let ends =
            address-IsAnswer s txnid (ofs + n) rr dm' h' reply (fits_alen n rr fits)
              (fits_end n rr fits) in
          rw (e, answers, named)
            (elim (Option-cases (address_at s (ofs + n) rr dm')) [
              | inl a ↦ rw (a, answers) (answers-IsAnswer s txnid left (ofs + n) dm' reply h')
              | inr (found, a) ↦ rw (a, answers) (subst (IsAnswer s txnid) a ends)
            ])
    ]
  where
    fits_alen : (n : ℕ) (rr : DnsRr) → (ofs + n ≤ length s) × (rr.alen ≤ n) → rr.alen ≤ ofs + n
    fits_alen n rr h = omega (arith, h)

    fits_end : (n : ℕ) (rr : DnsRr) → (ofs + n ≤ length s) × (rr.alen ≤ n) → ofs + n ≤ length s
    fits_end n rr h = h.0

IsAsked : Bytes → ℕ → Option (DnsMessage × ℕ) → Type 0
IsAsked s txnid none = Unit
IsAsked s txnid (some (dm, ofs)) = IsSound s txnid dm

question-IsAsked :
    (s : Bytes) (txnid n : ℕ) (dm : DnsMessage)
    → IsSound s txnid dm
    → IsAsked s txnid (question s n dm)
unfolding question IsAsked
question-IsAsked s txnid zero dm h = h
question-IsAsked s txnid (suc n) dm h = elim (Option-cases (dns_parse_rr s 12 true)) [
  | inl e ↦ rw (e, question) tt
  | inr ((m, rr), e) ↦
      let (dm', named, h') = with_name-IsSound s txnid 12 dm h in rw (e, question, named) h'
]

empty-IsSound : (s : Bytes) (txnid : ℕ) → IsSound s txnid (empty_message txnid)
unfolding empty_message
empty-IsSound s txnid = record { same_txnid = refl; name_inside = λ i le. refl; address = inl refl }

IsAccepted : Bytes → Option DnsMessage → Type 0
IsAccepted s none = Unit
IsAccepted s (some dm) = (12 ≤ length s) × (be16 s 4 ≤ 1) × IsSound s (be16 s 0) dm

IsAnswer-IsAccepted :
    (s : Bytes) (r : Option DnsMessage)
    → 12 ≤ length s
    → be16 s 4 ≤ 1
    → IsAnswer s (be16 s 0) r
    → IsAccepted s r
unfolding IsAnswer IsAccepted
IsAnswer-IsAccepted s none h k a = tt
IsAnswer-IsAccepted s (some dm) h k a = (h, k, a)

at_least : (a b : ℕ) → ltb a b ≡ false → b ≤ a
at_least a b e = ground arith

parse-IsAccepted : (s : Bytes) → IsAccepted s (dns_parse s)
unfolding dns_parse IsAccepted IsAsked IsAnswer
parse-IsAccepted s =
    let P = IsAccepted s in
    let dm₀ = empty_message (be16 s 0) in
    let asked = question-IsAsked s (be16 s 0) (be16 s 4) dm₀ (empty-IsSound s (be16 s 0)) in
    if-both P (ltb (length s) 12) _ _ (λ _. tt)
      (λ e₁.
        if-both P (ltb 1 (be16 s 4)) _ _ (λ _. tt)
          (λ e₂.
            let header : 12 ≤ length s = at_least (length s) 12 e₁ in
            let one : be16 s 4 ≤ 1 = at_least 1 (be16 s 4) e₂ in
            elim (Option-cases (question s (be16 s 4) dm₀)) [
              | inl q ↦ rw (q, dns_parse) tt
              | inr ((dm, ofs), q) ↦
                  let h : IsSound s (be16 s 0) dm = subst (IsAsked s (be16 s 0)) q asked in
                  rw (q, dns_parse)
                    (if-both P (is_response s) _ _
                      (λ reply.
                        IsAnswer-IsAccepted s _ header one
                          (answers-IsAnswer s (be16 s 0) (answer_count s) ofs dm reply h))
                      (λ _. (header, one, h)))
            ]))

-- A message that `dns_parse` accepts has a header and one question at most, and carries the
-- transaction id of the packet. Its name was written inside the 256 bytes of the buffer. Where it is
-- resolved, the packet is a response, and the address is 4 bytes of the packet, or 16 for IPv6.
pub dns_parse_accepts :
    (s : Bytes) (dm : DnsMessage)
    → dns_parse s ≡ some dm
    → (12 ≤ length s) × (be16 s 4 ≤ 1) × IsSound s (be16 s 0) dm
dns_parse_accepts s dm e = unfold IsAccepted in subst (IsAccepted s) e (parse-IsAccepted s)
