-- ===== src/Lib.antt =====
-- nanosrv: an embedded HTTP and WebSocket server library in C++. The library's core stands in
-- projects/nanosrv, with its types in include/nanosrv; a connection reads bytes into an IOBuffer, a
-- protocol handler takes messages off it and calls the application, and replies go to a second IOBuffer.
--
-- Which file models what:
--   Common        lists, bytes, bit operations, memory behind a pointer, tests on numbers
--   Base64        projects/nanosrv/base64.cpp: base64_update, base64_final, base64_encode, base64_decode,
--                 each writing through a Memory, one byte at each offset from the pointer
--   IoBuf         projects/nanosrv/iobuf.cpp: iobuf_resize, iobuf_add, iobuf_del and the rest, over the
--                 struct IOBuffer of include/nanosrv/types.hpp; the allocator is an argument
--   Ws            projects/nanosrv/ws.cpp: ws_process, mkhdr and ws_mask, the bytes of a frame
--   Ws.Receive    the read part of ws_cb: the loop over frames, with the calls of the handler and of
--                 ws_send recorded in order; a round is one pass through the loop
--   Str           projects/nanosrv/str.cpp: str_cmp, str_casecmp, span, str_to_num
--   UrlCode       projects/nanosrv/http.cpp: url_encode and url_decode, between two memories
--   Http          projects/nanosrv/http.cpp. Http.Lines: http_get_request_len, clen, skiptorn, to_size_t;
--                 Http.Message: http_parse_headers, http_parse, http_get_header; Http.Chunks: skip_chunk and
--                 the two passes over a chunked body; Http.Serve: http_cb, with what it calls recorded in
--                 order, and with the application's handler as an argument
--   Dns           projects/nanosrv/dns.cpp: dns_parse_name, dns_parse_rr, dns_parse; a name is written
--                 through a Memory, and a loop over a name has one unit of fuel more than the packet has bytes
--   Dns.Resolver  dns_cb, sendnsreq and resolve_cancel: the list of lookups in flight and the flags
--                 is_resolving, without MG_ENABLE_IPV6; the numbers that random_ draws are arguments
--   Url           projects/nanosrv/url.cpp: urlparse, url_host, url_uri, url_user, url_pass
--   Json          projects/nanosrv/json.cpp. Json.Lexer: pass_string and the end of a number (atod without its
--                 value); Json.Get: json_get, one step for each byte, with the innermost bracket at the head
--                 of `nesting`; Json.Next: json_next; Json.Strings: json_unescape, json_get_tok, json_get_bool,
--                 json_get_str, and qcpy of projects/nanosrv/printf.cpp. Json.Syntax has the values and their
--                 texts, without blanks, against which these are described. The length of a text is cut to
--                 an int as in the code, but an index in a path is read without the bound of an int;
--                 mem_calloc gives its memory
--   Timer         projects/nanosrv/timer.cpp: timer_init, timer_expired, timer_poll; the callbacks are
--                 recorded and change no timer
--   Sharded       projects/nanosrv/sharded.cpp: the hand-over of connections from the acceptor to the
--                 workers, with the shared count of live connections; the atomic actions of all the
--                 threads are events, and a run is a list of events, hence any interleaving. The sockets
--                 that detach_fd and wrapfd give or refuse are arguments of the events.
--                 Sharded.Ids has the numbering of connections, with alloc_conn of
--                 projects/nanosrv/net.cpp
--
-- A byte is a number below 256 and a string of bytes a list of them. Sizes are natural numbers; where a
-- size_t may wrap around and the code does not test it, the reduction modulo 2 ^ 64 is written out.
-- Ws.Receive works on the content of the receive buffer, which IoBuf.Refines relates to the struct.
-- Its loop takes fuel: one unit more than the bytes that are unread is enough, since every round that
-- goes on takes at least two of them. The bytes that random_ draws are an argument.
-- The loop of Http.Serve takes the length of the buffer and one more, which Http.Serve.Safety shows to
-- be enough. http.cpp keeps the lengths of chunked bodies in an int; the buffer is taken to be below
-- 2 ^ 31 bytes. skip_chunk may read one byte behind the buffer, which is an argument; the handler of
-- MG_EV_HTTP_MSG is taken to leave the receive buffer alone.
--
-- Not modelled: sockets, TLS, threads and files, the printf family, the bindings for Python, and the
-- vendored third-party code; of JSON, the values of numbers, which are doubles, and the readers that need
-- them, base64 and hexadecimal strings; of URLs, the port and url_is_ssl; of DNS, the writer of queries; of HTTP, multipart bodies, credentials, form variables and the writers of replies.
pub mod Common
pub mod Base64
pub mod Http
pub mod Dns
pub mod Url
pub mod Json
pub mod IoBuf
pub mod Ws
pub mod Sharded
pub mod Str
pub mod Timer
pub mod UrlCode
