-- ===== src/Http/Message.antt =====
-- http.cpp, `http_parse` and `http_parse_headers`: a message's head is taken apart. A `Str` is the text
-- that it shows, an unset one is empty, and the pointers into the buffer are offsets from its front.
use nanosrv.Common.{
  ℕ, zero, suc, ◌+◌, ◌-◌, ◌%◌, ◌^◌, Bool, true, false, not, ◌&&◌, ◌||◌, Option, none, some, List,
  [], ◌∷◌, ◌≡◌, refl, Bytes, codes, ltb, leb, ◌==◌, if◌then◌else◌, length, take, drop, get_or,
}
use nanosrv.Str.{zero_sign, minus, plus, str_casecmp}
use nanosrv.Http.Lines.{
  bad, more, ends_at, http_get_request_len, clen, chars, skip_spaces, skip_blanks, trim_end,
  skiptorn, ncase_equal, to_size_t, request_len, isok,
}

pub record HttpHeader : Type 0 where
  pub name : Bytes
  pub value : Bytes

-- struct HttpMessage. The body stands behind the head; `body_len` and `message_len` are its length and
-- that of the whole message, 2 ^ 64 - 1 where it is not known.
pub record HttpMessage : Type 0 where
  pub method : Bytes
  pub uri : Bytes
  pub query : Bytes
  pub proto : Bytes
  pub headers : List HttpHeader
  pub head : Bytes
  pub body_len : ℕ
  pub message_len : ℕ

-- The results of `http_parse`: -1, -2 for too many headers, 0 for a message that is not complete, and
-- the length of the head with the message.
pub data Parsed : Type 0 where
  invalid too_many incomplete : Parsed
  parsed : ℕ → HttpMessage → Parsed

unfoldable pub equals_casecmp : Bytes → Bytes → Bool
unfolding str_casecmp
equals_casecmp s t = elim (str_casecmp s t) [ zero_sign ↦ true | minus ↦ false | plus ↦ false ]

-- The counters of the headers that may stand once only.
pub record Counts : Type 0 where
  pub cl : ℕ
  pub te : ℕ
  pub auth : ℕ
  pub cookie : ℕ
  pub conn : ℕ

-- `str_casecmp(k, Str(name)) == 0 && ++count > 1`: the counter, and whether the test holds.
unfoldable pub counted : Bytes → Bytes → ℕ → ℕ × Bool
counted k name count =
    if equals_casecmp k name then (count + 1, ltb 1 (count + 1)) else (count, false)

-- A test that holds ends the chain, and the caller refuses the message.
unfoldable pub is_duplicate : Bytes → Counts → Counts × Bool
unfolding counted
is_duplicate k n =
    let cl = counted k (codes "Content-Length") n.cl in
    let te = counted k (codes "Transfer-Encoding") n.te in
    let auth = counted k (codes "Authorization") n.auth in
    let cookie = counted k (codes "Cookie") n.cookie in
    let conn = counted k (codes "Connection") n.conn in
    (
      record { cl = cl.0; te = te.0; auth = auth.0; cookie = cookie.0; conn = conn.0 },
      cl.1 || te.1 || auth.1 || cookie.1 || conn.1,
    )

-- `s[0] == '\n' || (s[0] == '\r' && s[1] == '\n')`
unfoldable pub at_blank_line : Bytes → Bool
at_blank_line s = get_or s 0 0 == b'\n' || get_or s 0 0 == b'\r' && get_or s 1 0 == b'\n'

-- One line: the header, and the rest; `none` where the line is refused.
unfoldable pub header_value : Bytes → Bytes → Option (HttpHeader × Bytes)
unfolding skip_blanks skiptorn trim_end
header_value k s = elim (skiptorn (skip_blanks s)) [
  | none ↦ none
  | some (v, rest) ↦ some (record { name = k; value = trim_end v }, rest)
]

unfoldable pub header_line : Bytes → Option (HttpHeader × Bytes)
unfolding chars clen header_value
header_line s =
    let r = chars (some b':') 0 s in
    if length r.0 == 0 || length r.1 == 0 || clen r.1 == 0
    then none
    else if not (get_or r.1 0 0 == b':')
    then none
    else header_value r.0 (drop 1 r.1)

-- The result of `http_parse_headers`, with `*overflow` apart from the other refusals.
pub data Headers : Type 0 where
  refused overflow : Headers
  found : List HttpHeader → Headers

unfoldable pub add_header : HttpHeader → Headers → Headers
add_header h refused = refused
add_header h overflow = overflow
add_header h (found hs) = found (h ∷ hs)

-- The first argument counts the slots that are left.
unfoldable pub http_parse_headers : ℕ → Counts → Bytes → Headers
unfolding at_blank_line add_header
http_parse_headers zero n s =
    if ltb 0 (length s) && not (at_blank_line s) then overflow else found []
http_parse_headers (suc slots) n s =
    let line = header_line s in
    elim (length s == 0) [
      | true ↦ refused
      | false ↦ elim (at_blank_line s) [
        | true ↦ found []
        | false ↦ elim line [
          | none ↦ refused
          | some (h, rest) ↦
              let next = http_parse_headers slots (is_duplicate h.name n).0 rest in
              if (is_duplicate h.name n).1 then refused else add_header h next
        ]
      ]
    ]

abbrev pub max_http_headers : ℕ
max_http_headers = 30

-- The slots that are used come first; those behind them have empty names.
unfoldable pub http_get_header : List HttpHeader → Bytes → Option Bytes
unfolding ncase_equal
http_get_header [] name = none
http_get_header (h ∷ hs) name =
    if length h.name == 0
    then none
    else if length name == length h.name && ncase_equal h.name name (length name)
    then some h.value
    else http_get_header hs name

-- The text before the question mark, and that behind it.
unfoldable pub split_query : Bytes → Bytes × Bytes
split_query [] = ([], [])
split_query (c ∷ s) = let r = split_query s in if c == b'?' then ([], s) else (c ∷ r.0, r.1)

-- `HTTP/` at the front of a longer text.
unfoldable pub has_version_prefix : Bytes → Bool
unfolding ncase_equal
has_version_prefix s = ltb 5 (length s) && ncase_equal s (codes "HTTP/") 5

unfoldable pub is_digit : ℕ → Bool
is_digit c = leb b'0' c && leb c b'9'

-- Whether the version of a request is refused.
unfoldable pub bad_version : Bytes → Bool
unfolding has_version_prefix is_digit
bad_version proto =
    not (has_version_prefix proto)
    || ltb 0 (length proto)
      && (not (has_version_prefix proto)
          || not (length proto == 8)
          || not (is_digit (get_or proto 5 0))
          || not (get_or proto 6 0 == b'.')
          || not (is_digit (get_or proto 7 0)))

abbrev pub unknown_len : ℕ
unknown_len = 2 ^ 64 - 1

-- The lengths of the body and of the message where a Content-Length is given, or none.
unfoldable pub given_lengths : ℕ → Option Bytes → Option (ℕ × ℕ)
unfolding to_size_t
given_lengths req_len none = some (unknown_len, unknown_len)
given_lengths req_len (some v) = elim (to_size_t v) [
  | none ↦ none
  | some n ↦ some (n, (req_len + n) % 2 ^ 64)
]

-- A length that is not known is 0 for a request, and for a response with the status 204.
unfoldable pub settle_lengths : ℕ → Bool → Bytes → ℕ × ℕ → Option (ℕ × ℕ)
unfolding equals_casecmp
settle_lengths req_len is_response uri (body, message) =
    let known : ℕ × ℕ =
      if body == unknown_len && not is_response then (0, req_len) else (body, message) in
    let settled : ℕ × ℕ =
      if known.0 == unknown_len && is_response && equals_casecmp uri (codes "204")
      then (0, req_len)
      else known in
    if ltb settled.1 req_len then none else some settled

unfoldable pub message_lengths : ℕ → Bool → Bytes → List HttpHeader → Option (ℕ × ℕ)
unfolding given_lengths settle_lengths http_get_header
message_lengths req_len is_response uri headers =
    elim (given_lengths req_len (http_get_header headers (codes "Content-Length"))) [
      | none ↦ none
      | some lens ↦ settle_lengths req_len is_response uri lens
    ]

-- Behind the first line.
unfoldable pub finish_parse : Bytes → Bool → Bytes → Bytes → Bytes → Bytes → Headers → Parsed
unfolding message_lengths
finish_parse head is_response method uri query proto refused = invalid
finish_parse head is_response method uri query proto overflow = too_many
finish_parse head is_response method uri query proto (found headers) =
    elim (message_lengths (length head) is_response uri headers) [
      | none ↦ invalid
      | some (body_len, message_len) ↦ parsed (length head) (record {
        method = method;
        uri = uri;
        query = query;
        proto = proto;
        headers = headers;
        head = head;
        body_len = body_len;
        message_len = message_len;
      })
    ]

abbrev pub no_counts : Counts
no_counts = record { cl = 0; te = 0; auth = 0; cookie = 0; conn = 0 }

-- The parse of a complete head. Where the first line ends badly, the source returns `false`, which is 0.
unfoldable pub parse_head : Bytes → Parsed
unfolding chars clen skip_spaces skiptorn bad_version split_query http_parse_headers is_duplicate
    header_line finish_parse
parse_head head =
    let (method, s₁) = chars none 0 head in
    let (target, s₂) = chars none 0 (skip_spaces s₁) in
    let is_response = has_version_prefix method in
    let (uri, query) = split_query target in
    elim (skiptorn (skip_spaces s₂)) [
      | none ↦ incomplete
      | some (proto, s₃) ↦
          if not is_response && bad_version proto
          then invalid
          else if length method == 0 || length uri == 0
          then invalid
          else finish_parse head is_response method uri query proto
              (http_parse_headers max_http_headers no_counts s₃)
    ]

unfoldable pub http_parse : Bytes → Parsed
unfolding http_get_request_len request_len isok parse_head
http_parse s = elim (http_get_request_len s) [
  | bad ↦ invalid
  | more ↦ incomplete
  | ends_at n ↦ parse_head (take n s)
]

abbrev method_of : Parsed → Bytes
method_of (parsed n hm) = hm.query
method_of _ = []

get_request :
    method_of (http_parse (codes "GET /a?b=c HTTP/1.1\r\nContent-Length: 5\r\n\r\nhello"))
    ≡ codes "b=c"
unfolding http_parse
get_request = refl

twice : http_parse (codes "GET / HTTP/1.1\r\nCookie: a\r\ncookie: b\r\n\r\n") ≡ invalid
unfolding http_parse
twice = refl

stray_return : http_parse (codes "GET / HTTP/1.1\rx\n\n") ≡ incomplete
unfolding http_parse
stray_return = refl
