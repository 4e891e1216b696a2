-- ===== src/Dns.antt =====
-- projects/nanosrv/dns.cpp: the parser of DNS messages. Names are written through a buffer, compressed
-- ones by calls of the parser at the place to which they point.
pub mod Names
pub mod Answers
pub mod Resolver
mod Examples
use nanosrv.Common.{
  ℕ, zero, suc, ◌+◌, ◌-◌, ◌*◌, ◌%◌, ◌^◌, bit_and, bit_or, Bool, true, false, not, ◌&&◌, ◌||◌,
  Option, none, some, [], ◌∷◌, ◌++◌, ◌≡◌, refl, Bytes, codes, ltb, leb, ◌==◌, if◌then◌else◌, length,
  take, drop, get_or, Memory, put, text,
}

-- memcpy(&to[j], ...)
unfoldable pub copy : Memory → ℕ → Bytes → Memory
copy to j [] = to
copy to j (b ∷ bs) = copy (put to j b) (j + 1) bs

-- `if (tolen > 0) to[tolen - 1] = '\0';`
unfoldable pub finish : Memory → ℕ → Memory
finish to tolen = if ltb 0 tolen then put to (tolen - 1) 0 else to

-- A name that ends after i bytes.
unfoldable pub ended : Memory → ℕ → ℕ → Option (Memory × ℕ)
unfolding finish
ended to tolen i = some (finish to tolen, i)

-- A label of n bytes behind the j characters so far, and how many these are then.
unfoldable pub put_label : Memory → ℕ → ℕ → Bytes → Memory × ℕ
unfolding copy
put_label to tolen j label =
    let n = length label in
    let to₁ = if ltb 0 j && ltb j tolen then put to j b'.' else to in
    let j₁ = if ltb 0 j then j + 1 else j in
    let to₂ = if ltb (j₁ + n) tolen then copy to₁ j₁ label else to₁ in
    let to₃ = if ltb (j₁ + n) tolen then put to₂ (j₁ + n) 0 else to₂ in (to₃, j₁ + n)

-- The place to which the two bytes of a compressed name point.
unfoldable pub pointer : ℕ → ℕ → ℕ
pointer n m = bit_or (bit_and n 0x3f * 256) m

unfoldable pub is_pointer : ℕ → Bool
is_pointer n = not (bit_and n 0xc0 == 0)

-- What the call one level deeper gives; a result of 0 there is one here.
unfoldable pub followed : Option (Memory × ℕ) → ℕ → ℕ → Option (Memory × ℕ)
unfolding ended
followed none tolen i = none
followed (some (to, n)) tolen i = if n == 0 then some (to, 0) else ended to tolen (i + 2)

-- A packet of len bytes in front of the memory s.
module _ (s : Bytes) (len tolen : ℕ) where
  -- The loop over the labels at ofs + i, with the call one level deeper as an argument; the result is
  -- the memory and what is returned, `none` where the rounds do not suffice.
  unfoldable pub name_loop :
      (ℕ → Memory → ℕ → Option (Memory × ℕ)) → ℕ → ℕ → Memory → ℕ → ℕ → Option (Memory × ℕ)
  unfolding followed ended put_label pointer is_pointer
  name_loop follow zero ofs to j i = none
  name_loop follow (suc f) ofs to j i =
      let n = get_or s (ofs + i) 0 in
      let ptr = pointer n (get_or s (ofs + i + 1) 0) in
      let r = put_label to tolen j (take n (drop (ofs + i + 1) s)) in
      let next = name_loop follow f ofs r.0 r.1 (i + n + 1) in
      if leb len (ofs + i + 1)
      then ended to tolen i
      else if n == 0
      then ended to tolen (i + 1)
      else if is_pointer n
      then (if ltb (ptr + 1) len && not (is_pointer (get_or s ptr 0))
          then followed (follow ptr to j) tolen i
          else ended to tolen (i + 2))
      else if leb len (ofs + i + n + 1)
      then some (to, 0)
      else next

  -- The first argument counts the levels that are left; behind the last one the result is 0.
  unfoldable pub dns_parse_name_depth : ℕ → ℕ → Memory → ℕ → Option (Memory × ℕ)
  unfolding name_loop
  dns_parse_name_depth zero ofs to j = some (to, 0)
  dns_parse_name_depth (suc left) ofs to j =
      name_loop (dns_parse_name_depth left) (len + 1) ofs to j 0

  -- MG_DNS_MAX_RECURSION_DEPTH is 5.
  unfoldable pub dns_parse_name_at : ℕ → Memory → Option (Memory × ℕ)
  unfolding dns_parse_name_depth
  dns_parse_name_at ofs to = dns_parse_name_depth 6 ofs (if ltb 0 tolen then put to 0 0 else to) 0

-- A packet on its own.
unfoldable pub dns_parse_name : Bytes → ℕ → ℕ → Memory → Option (Memory × ℕ)
unfolding dns_parse_name_at
dns_parse_name s tolen ofs to = dns_parse_name_at s (length s) tolen ofs to

unfoldable pub be16 : Bytes → ℕ → ℕ
be16 s i = get_or s i 0 * 256 + get_or s (i + 1) 0

pub record DnsRr : Type 0 where
  pub nlen : ℕ
  pub atype : ℕ
  pub aclass : ℕ
  pub alen : ℕ

-- Behind a name of nlen bytes.
unfoldable pub rr_fields : Bytes → ℕ → Bool → ℕ → Option (ℕ × DnsRr)
unfolding be16
rr_fields s ofs is_question nlen =
    let at = ofs + nlen in
    let alen = be16 s (at + 8) in
    if ltb (length s) (at + 4)
    then none
    else if is_question
    then some
        (nlen + 4, record { nlen = nlen; atype = be16 s at; aclass = be16 s (at + 2); alen = 0 })
    else if ltb (length s) (at + 10)
    then none
    else if ltb (length s) (at + 10 + alen)
    then none
    else some (
      nlen + alen + 10,
      record { nlen = nlen; atype = be16 s at; aclass = be16 s (at + 2); alen = alen },
    )

-- `none` stands for 0.
unfoldable pub dns_parse_rr : Bytes → ℕ → Bool → Option (ℕ × DnsRr)
unfolding dns_parse_name rr_fields
dns_parse_rr s ofs is_question =
    if ltb (length s) 12 || ltb 512 (length s) || leb (length s) ofs
    then none
    else elim (dns_parse_name s 0 ofs (λ _. 0)) [
      | none ↦ none
      | some (to, n) ↦ if n % 2 ^ 16 == 0 then none else rr_fields s ofs is_question (n % 2 ^ 16)
    ]

-- struct DnsMessage, with the bytes of the address.
pub record DnsMessage : Type 0 where
  pub txnid : ℕ
  pub resolved : Bool
  pub is_ip6 : Bool
  pub addr : Bytes
  pub name : Memory

-- The name at an offset, into `dm->name`.
unfoldable pub with_name : Bytes → ℕ → DnsMessage → Option DnsMessage
unfolding dns_parse_name
with_name s ofs dm = elim (dns_parse_name s 256 ofs dm.name) [
  | none ↦ none
  | some (name, n) ↦ some (record dm { name = name })
]

-- A record of an address, which ends the search.
unfoldable pub address_at : Bytes → ℕ → DnsRr → DnsMessage → Option DnsMessage
address_at s ofs rr dm =
    if rr.alen == 4 && rr.atype == 1 && rr.aclass == 1
    then some (record dm { resolved = true; is_ip6 = false; addr = take 4 (drop (ofs - 4) s) })
    else if rr.alen == 16 && rr.atype == 28 && rr.aclass == 1
    then some (record dm { resolved = true; is_ip6 = true; addr = take 16 (drop (ofs - 16) s) })
    else none

-- The loop over the answers; `none` stands for false.
unfoldable pub answers : Bytes → ℕ → ℕ → DnsMessage → Option DnsMessage
unfolding with_name address_at
answers s zero ofs dm = some dm
answers s (suc left) ofs dm = elim (dns_parse_rr s ofs false) [
  | none ↦ none
  | some (n, rr) ↦ elim (with_name s ofs dm) [
    | none ↦ none
    | some dm' ↦ elim (address_at s (ofs + n) rr dm') [
      | some found ↦ some found
      | none ↦ answers s left (ofs + n) dm'
    ]
  ]
]

-- The loop over the questions, of which there are at most one: the message, and the offset behind.
unfoldable pub question : Bytes → ℕ → DnsMessage → Option (DnsMessage × ℕ)
unfolding with_name
question s zero dm = some (dm, 12)
question s (suc n) dm = elim (dns_parse_rr s 12 true) [
  | none ↦ none
  | some (n, rr) ↦ elim (with_name s 12 dm) [ none ↦ none | some dm' ↦ some (dm', 12 + n) ]
]

unfoldable pub is_response : Bytes → Bool
unfolding be16
is_response s = not (bit_and (be16 s 2) 0x8000 == 0)

-- No more than MG_DNS_MAX_ANSWERS, which is 10.
unfoldable pub answer_count : Bytes → ℕ
unfolding be16
answer_count s = if ltb 10 (be16 s 6) then 10 else be16 s 6

unfoldable pub empty_message : ℕ → DnsMessage
empty_message txnid = record {
  txnid = txnid;
  resolved = false;
  is_ip6 = false;
  addr = [];
  name = λ _. 0;
}

unfoldable pub dns_parse : Bytes → Option DnsMessage
unfolding question answers is_response answer_count empty_message dns_parse_rr be16
dns_parse s =
    if ltb (length s) 12
    then none
    else if ltb 1 (be16 s 4)
    then none
    else elim (question s (be16 s 4) (empty_message (be16 s 0))) [
      | none ↦ none
      | some (dm, ofs) ↦ if is_response s then answers s (answer_count s) ofs dm else some dm
    ]

-- A response: a question for `a.bc`, and an answer whose name points to it.
abbrev pub response : Bytes
response =
    0 ∷ 7 ∷ 0x81 ∷ 0x80 ∷ 0 ∷ 1 ∷ 0 ∷ 1 ∷ 0 ∷ 0 ∷ 0 ∷ 0 ∷ 1 ∷ b'a' ∷ 2 ∷ b'b' ∷ b'c' ∷ 0 ∷ 0 ∷ 1 ∷ 0
    ∷ 1 ∷ 0xc0 ∷ 12 ∷ 0 ∷ 1 ∷ 0 ∷ 1 ∷ 0 ∷ 0 ∷ 0 ∷ 60 ∷ 0 ∷ 4 ∷ 10 ∷ 0 ∷ 0 ∷ 9 ∷ []

abbrev shown : Option DnsMessage → Bytes × Bytes
shown none = ([], [])
shown (some dm) = (dm.addr, text dm.name 5)

resolves : shown (dns_parse response) ≡ (10 ∷ 0 ∷ 0 ∷ 9 ∷ [], codes "a.bc" ++ 0 ∷ [])
unfolding dns_parse dns_parse_rr put text
resolves = refl
