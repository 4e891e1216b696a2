-- ===== src/Http/Examples.antt =====
-- http.cpp: the theorems at concrete requests.
use nanosrv.Common.{
  ◌+◌, ◌^◌, ◌≤◌, ◌<◌, true, false, none, some, [], ◌∷◌, ◌++◌, ◌≡◌, ◌≢◌, ◌⊎◌, inr, refl, arith,
  Bytes, codes, length, take, drop, All, List,
}
use nanosrv.Str.{str_to_num}
use nanosrv.Http.Lines.{more, request_len, isok, http_get_request_len, to_size_t}
use nanosrv.Http.Message.{
  HttpMessage, parsed, http_parse, no_counts, message_lengths, unknown_len, http_get_header,
}
use nanosrv.Http.Heads.{http_parse-append}
use nanosrv.Http.Accepted.{IsSingle, http_parse_accepts}
use nanosrv.Http.Lengths.{message_lengths-request}
use nanosrv.Http.Chunks.{invalid, skip_chunk, is_hex_digit, scan_chunks, complete, relocate}
use nanosrv.Http.Chunks.Texts.{IsSize, skip_chunk_split}
use nanosrv.Http.Chunks.Body.{body_text, all_data, AreSizes, wire_len, chunked_body}
use nanosrv.Http.Serve.{HttpConn, App, read, http_cb, framing, wants_close}
use nanosrv.Http.Serve.Pipeline.{Request, IsRequest, deliveries, http_cb_pipelined}

abbrev get_text : Bytes
get_text = codes "GET /a HTTP/1.1\r\nHost: b\r\n\r\n"

get_text_ends : http_get_request_len get_text ≢ more
unfolding http_get_request_len request_len isok
get_text_ends e = absurd (cc e)

http_parse-append_example : http_parse (get_text ++ codes "more") ≡ http_parse get_text
http_parse-append_example = http_parse-append get_text (codes "more") get_text_ends

abbrev get_message : HttpMessage
get_message = record {
  method = codes "GET";
  uri = codes "/a";
  query = [];
  proto = codes "HTTP/1.1";
  headers = record { name = codes "Host"; value = codes "b" } ∷ [];
  head = get_text;
  body_len = 0;
  message_len = 28;
}

get_parses : http_parse get_text ≡ parsed 28 get_message
unfolding http_parse
get_parses = refl

http_parse_accepts_example :
    (0 < 28)
    × (28 ≤ 28)
    × (get_message.head ≡ take 28 get_text)
    × IsSingle no_counts get_message.headers
    × (1 ≤ 30)
    × (28 ≤ 28)
http_parse_accepts_example = http_parse_accepts get_text 28 get_message get_parses

host_header :
    http_get_header
      (record { name = codes "Content-Length"; value = codes "18446744073709551615" } ∷ [])
      (codes "Content-Length")
    ≡ some (codes "18446744073709551615")
unfolding http_get_header
host_header = refl

largest : to_size_t (codes "18446744073709551615") ≡ some unknown_len
unfolding to_size_t
largest = refl

message_lengths-request_example :
    let r =
      message_lengths 60 false
        (codes "/")
        (record { name = codes "Content-Length"; value = codes "18446744073709551615" } ∷ []) in
    ((unknown_len ≡ unknown_len) × (r ≡ some (0, 60)))
    ⊎ (((unknown_len ≢ unknown_len) × (2 ^ 64 ≤ 60 + unknown_len) × (r ≡ none))
        ⊎ ((unknown_len ≢ unknown_len)
            × (60 + unknown_len < 2 ^ 64)
            × (r ≡ some (unknown_len, 60 + unknown_len))))
message_lengths-request_example =
    message_lengths-request 60 unknown_len (codes "/") (codes "18446744073709551615")
      (record { name = codes "Content-Length"; value = codes "18446744073709551615" } ∷ [])
      host_header largest (omega arith) (omega arith)

five-IsSize : IsSize (codes "5") 5
unfolding is_hex_digit str_to_num
five-IsSize = record {
  digits = (refl, tt);
  some_digit = omega arith;
  short = omega arith;
  spells = refl;
  fits = omega arith;
}

zero-IsSize : IsSize (codes "0") 0
unfolding is_hex_digit str_to_num
zero-IsSize = record {
  digits = (refl, tt);
  some_digit = omega arith;
  short = omega arith;
  spells = refl;
  fits = omega arith;
}

hex_100 : All (λ c. is_hex_digit c ≡ true) (codes "100")
unfolding is_hex_digit
hex_100 = (refl, (refl, (refl, tt)))

skip_chunk_split_example : skip_chunk 0 (codes "100") ≡ invalid
skip_chunk_split_example = skip_chunk_split 0 (codes "100") hex_100 (omega arith)

abbrev hello : List (Bytes × Bytes)
hello = (codes "5", codes "hello") ∷ []

hello_sizes : AreSizes hello
hello_sizes = ((five-IsSize, omega arith), tt)

chunked_body_example :
    let cs = hello in
    let s = body_text cs (codes "0") (codes "GET") in
    let r = relocate (length s) 0 s 0 0 in
    (scan_chunks (length s) 0 s ≡ complete)
    × (r.1 ≡ 5)
    × (take r.1 r.0 ≡ all_data cs)
    × (drop r.2 r.0 ≡ codes "GET")
    × (r.2 ≡ wire_len cs (codes "0"))
chunked_body_example = chunked_body 0 hello (codes "0") (codes "GET") hello_sizes zero-IsSize

abbrev accepted : Bytes → HttpConn
accepted s = record {
  recv = s;
  is_client = false;
  is_accepted = true;
  is_resp = false;
  is_draining = false;
  is_closing = false;
  detached = false;
  max_body_size = 100;
  effects = [];
}

abbrev prompt_app : App
prompt_app = record { changes = λ ofs hm. none; replies = λ ofs hm. true }

abbrev get_request : Request
get_request = record { wire = get_text; head_len = 28; message = get_message }

get_request-IsRequest : IsRequest 100 get_request
unfolding framing wants_close
get_request-IsRequest = record {
  parses = get_parses;
  sized = refl;
  framed = refl;
  capped = inr (omega arith);
  stays = refl;
}

start_only : http_get_request_len (codes "GET") ≡ more
unfolding http_get_request_len request_len isok
start_only = refl

http_cb_pipelined_example :
    let c = accepted (get_text ++ (get_text ++ codes "GET")) in
    http_cb prompt_app read 0 c
    ≡ some (record c {
      recv = codes "GET";
      is_resp = false;
      effects = deliveries (get_request ∷ get_request ∷ []);
    })
http_cb_pipelined_example =
    http_cb_pipelined prompt_app
      (record { leaves_buffer = λ ofs hm. refl; replies_at_once = λ ofs hm. refl }) 0
      (accepted (get_text ++ (get_text ++ codes "GET"))) (get_request ∷ get_request ∷ [])
      (codes "GET") (get_request-IsRequest, (get_request-IsRequest, tt)) refl refl (inr start_only)
