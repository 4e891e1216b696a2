-- ===== src/Dns/Examples.antt =====
-- dns.cpp: the theorems at concrete packets.
use nanosrv.Common.{
  ◌↔◌, arith, List, ◌++◌, codes, All, ◌==◌, suc, true, Option, none, put, ℕ, ◌+◌, ◌≤◌, false, some,
  [], ◌∷◌, ◌≡◌, ◌⊎◌, refl, Bytes, length, Memory, Keeps,
}
use nanosrv.Dns.{
  dns_parse_rr, response, dns_parse_name, dns_parse_name_at, DnsMessage, dns_parse, be16,
}
use nanosrv.Dns.Resolver.{
  DnsRequest, Call, connected, Resolver, DnsEvent, request, tick, is_answered, is_taken, dns_read,
  dns_run,
}
use nanosrv.Dns.Resolver.Replies.{
  IsDue, IsReplyTo, due_call, IsCallIn, unmatched, IsJustified, dns_read_answers,
}
use nanosrv.Dns.Resolver.Ids.{IsDistinct, AreFresh, dns_run_one_reply}
use nanosrv.Dns.Names.{dns_parse_name_bounds}
use nanosrv.Dns.Answers.{IsSound, dns_parse_accepts}

-- A pointer to a name whose end points to the same name.
abbrev circle : Bytes
circle = 1 ∷ b'a' ∷ 0xc0 ∷ 0 ∷ []

dns_parse_name_bounds_example :
    (to' : Memory) × (i : ℕ) × (dns_parse_name circle 3 0 (λ _. 7) ≡ some (to', i))
    × (dns_parse_name_at (circle ++ 9 ∷ []) 4 3 0 (λ _. 7) ≡ some (to', i))
    × Keeps 3 (λ _. 7) to'
    × ((i ≡ 0) ⊎ (0 + i ≤ length circle))
dns_parse_name_bounds_example = dns_parse_name_bounds circle (9 ∷ []) 3 0 (λ _. 7)

abbrev message_of : Option DnsMessage → DnsMessage
message_of none = record { txnid = 0; resolved = false; is_ip6 = false; addr = []; name = λ _. 0 }
message_of (some dm) = dm

response_parses : dns_parse response ≡ some (message_of (dns_parse response))
unfolding dns_parse dns_parse_rr put
response_parses = refl

dns_parse_accepts_example :
    (12 ≤ length response)
    × (be16 response 4 ≤ 1)
    × IsSound response (be16 response 0) (message_of (dns_parse response))
dns_parse_accepts_example =
    dns_parse_accepts response (message_of (dns_parse response)) response_parses

abbrev waiting : Resolver
waiting = record {
  requests = record { conn = 3; expire = 100; txnid = 7; name = codes "A.bc" } ∷ [];
  resolving = λ c. c == 3;
  calls = [];
}

dns_read_answers_example :
    let dm = message_of (dns_parse response) in
    let answered = is_answered (λ _. 9) response dm in
    let r' = dns_read (λ _. 9) response waiting in
    ((d : DnsRequest) → (answered d ≡ true) ↔ IsReplyTo (λ _. 9) response dm d)
    × (r'.requests ≡ unmatched answered waiting.requests)
    × ((new : List Call) × (r'.calls ≡ [] ++ new)
        × All (IsJustified dm answered waiting.resolving waiting.requests) new
        × ((c : ℕ)
            → IsDue answered waiting.resolving waiting.requests c
            → IsCallIn (due_call dm c) new))
dns_read_answers_example =
    dns_read_answers (λ _. 9) response waiting (message_of (dns_parse response)) response_parses

-- The reply is taken for the request.
reply_connects : (dns_read (λ _. 9) response waiting).calls ≡ connected 3 (10 ∷ 0 ∷ 0 ∷ 9 ∷ []) ∷ []
unfolding dns_read dns_parse dns_parse_rr put
reply_connects = refl

abbrev second : List DnsEvent
second = request true true (λ n. n) 200 4 (codes "b.c.") ∷ tick 150 ∷ []

second-AreFresh : AreFresh second waiting
unfolding is_taken
second-AreFresh = ((0, omega arith, refl), tt)

waiting-IsDistinct : IsDistinct waiting.requests
unfolding is_taken
waiting-IsDistinct = (refl, tt)

dns_run_one_reply_example :
    IsDistinct (dns_run second waiting).requests
    × (length (dns_run second waiting).requests
        ≤ suc (length (dns_read (λ _. 9) response (dns_run second waiting)).requests))
dns_run_one_reply_example =
    dns_run_one_reply second waiting (λ _. 9) response second-AreFresh waiting-IsDistinct
