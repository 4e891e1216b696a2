-- ===== src/Dns/Resolver.antt =====
-- dns.cpp: the lookups in flight, the replies of the resolver, and what ends a lookup. The handlers that
-- `connect_resolved` and `error` call are taken to leave the list alone.
pub mod Replies
pub mod Ids
use nanosrv.Common.{
  ℕ, zero, suc, ◌+◌, ◌-◌, ◌%◌, ◌^◌, Bool, true, false, not, ◌&&◌, Option, none, some, List, [], ◌∷◌,
  ◌++◌, ◌≡◌, refl, Bytes, codes, ltb, ◌==◌, if◌then◌else◌, length, take, get_or, Memory,
}
use nanosrv.Str.{Sign, minus, zero_sign, plus, compare_by, tolc}
use nanosrv.Dns.{dns_parse_name, be16, DnsMessage, dns_parse}

-- struct dns_data; the connection is given by its id, the name without its zero.
pub record DnsRequest : Type 0 where
  pub conn : ℕ
  pub expire : ℕ
  pub txnid : ℕ
  pub name : Bytes

-- The calls of `dns_send`, of `connect_resolved` with the address that it finds in `rem`, and of
-- `error` for a connection, and that of `error` for the connection to the resolver itself.
pub data Call : Type 0 where
  asked : ℕ → Bytes → ℕ → Call
  connected : ℕ → Bytes → Call
  failed : ℕ → Call
  resolver_failed : Call

-- The list of the manager, which connections are resolving, and the calls so far.
pub record Resolver : Type 0 where
  pub requests : List DnsRequest
  pub resolving : ℕ → Bool
  pub calls : List Call

unfoldable pub set_flag : (ℕ → Bool) → ℕ → Bool → ℕ → Bool
set_flag flags c b i = if i == c then b else flags i

-- The text up to the first zero, in a buffer of that size.
unfoldable pub c_text : Memory → ℕ → ℕ → Bytes
c_text to at zero = []
c_text to at (suc n) = let rest = c_text to (at + 1) n in if to at == 0 then [] else to at ∷ rest

-- `casecmp(s1, s2) == 0`
unfoldable pub casecmp_equal : Bytes → Bytes → Bool
unfolding compare_by tolc
casecmp_equal s t = elim (compare_by tolc s t) [ minus ↦ false | zero_sign ↦ true | plus ↦ false ]

-- `junk` is what the buffer on the stack holds.
unfoldable pub dns_question_is : Memory → Bytes → Bytes → Bool
unfolding be16 dns_parse_name c_text casecmp_equal
dns_question_is junk s name =
    if not (be16 s 4 == 1) then false else elim (dns_parse_name s 256 12 junk) [
      | none ↦ false
      | some (question, n) ↦ casecmp_equal (c_text question 0 256) name
    ]

unfoldable pub is_answered : Memory → Bytes → DnsMessage → DnsRequest → Bool
unfolding dns_question_is
is_answered junk s dm d = dm.txnid == d.txnid && dns_question_is junk s d.name

-- A request that the reply answers.
unfoldable pub answer_request : DnsMessage → DnsRequest → Resolver → Resolver
unfolding set_flag
answer_request dm d r =
    if r.resolving d.conn
    then (if dm.resolved
        then record r {
          resolving = set_flag r.resolving d.conn false;
          calls = r.calls ++ connected d.conn dm.addr ∷ [];
        }
        else record r { calls = r.calls ++ failed d.conn ∷ [] })
    else r

-- The loop over the list. Those that are answered leave it.
unfoldable pub answer_all : Memory → Bytes → DnsMessage → List DnsRequest → Resolver → Resolver
unfolding is_answered answer_request
answer_all junk s dm [] r = r
answer_all junk s dm (d ∷ ds) r =
    if is_answered junk s dm d
    then answer_all junk s dm ds (answer_request dm d r)
    else answer_all junk s dm ds (record r { requests = r.requests ++ d ∷ [] })

-- MG_EV_READ.
unfoldable pub dns_read : Memory → Bytes → Resolver → Resolver
unfolding dns_parse answer_all
dns_read junk s r = elim (dns_parse s) [
  | none ↦ r
  | some dm ↦ answer_all junk s dm r.requests (record r { requests = [] })
]

-- MG_EV_POLL.
unfoldable pub timed_out : ℕ → List DnsRequest → List Call
timed_out now [] = []
timed_out now (d ∷ ds) =
    let rest = timed_out now ds in if ltb d.expire now then failed d.conn ∷ rest else rest

-- MG_EV_CLOSE.
unfoldable pub all_failed : List DnsRequest → List Call
all_failed [] = []
all_failed (d ∷ ds) = failed d.conn ∷ all_failed ds

unfoldable pub without : ℕ → List DnsRequest → List DnsRequest
without c [] = []
without c (d ∷ ds) = let rest = without c ds in if d.conn == c then rest else d ∷ rest

unfoldable pub is_taken : ℕ → List DnsRequest → Bool
is_taken id [] = false
is_taken id (d ∷ ds) = let rest = is_taken id ds in if d.txnid == id then true else rest

-- The id of the last attempt; `draws` are the numbers that random_ gives from an attempt on.
unfoldable pub pick_txnid : ℕ → (ℕ → ℕ) → ℕ → List DnsRequest → ℕ
unfolding is_taken
pick_txnid zero draws attempt ds = draws (attempt - 1)
pick_txnid (suc f) draws attempt ds = elim (is_taken (draws attempt) ds) [
  | true ↦ pick_txnid f draws (attempt + 1) ds
  | false ↦ draws attempt
]

-- `d->name`: cut to the buffer, without the dot of the root.
unfoldable pub asked_name : Bytes → Bytes
asked_name name =
    let n = if ltb (length name) 256 then length name else 255 in
    take (if ltb 0 n && get_or name (n - 1) 0 == b'.' then n - 1 else n) name

-- `sendnsreq`, where the resolver's connection and the memory are there, or not, and where `dns_send`
-- succeeds, or not.
unfoldable pub sendnsreq : Bool → Bool → (ℕ → ℕ) → ℕ → ℕ → Bytes → Resolver → Resolver
unfolding pick_txnid asked_name set_flag
sendnsreq ready sent draws expire c name r =
    let id = pick_txnid 0x10000 draws 0 r.requests in
    if ready
    then record {
      requests =
          record { conn = c; expire = expire; txnid = id; name = asked_name name } ∷ r.requests;
      resolving = set_flag r.resolving c true;
      calls = r.calls ++ asked c name id ∷ (if sent then [] else resolver_failed ∷ []);
    }
    else record r { calls = r.calls ++ failed c ∷ [] }

-- What happens to the resolver.
pub data DnsEvent : Type 0 where
  request : Bool → Bool → (ℕ → ℕ) → ℕ → ℕ → Bytes → DnsEvent
  reply : Memory → Bytes → DnsEvent
  tick : ℕ → DnsEvent
  cancel : ℕ → DnsEvent
  closed : DnsEvent

unfoldable pub dns_step : DnsEvent → Resolver → Resolver
unfolding sendnsreq dns_read timed_out without all_failed
dns_step (request ready sent draws expire c name) r = sendnsreq ready sent draws expire c name r
dns_step (reply junk s) r = dns_read junk s r
dns_step (tick now) r = record r { calls = r.calls ++ timed_out now r.requests }
dns_step (cancel c) r = record r { requests = without c r.requests }
dns_step closed r = record r { requests = []; calls = r.calls ++ all_failed r.requests }

unfoldable pub dns_run : List DnsEvent → Resolver → Resolver
unfolding dns_step
dns_run [] r = r
dns_run (e ∷ es) r = dns_run es (dns_step e r)
