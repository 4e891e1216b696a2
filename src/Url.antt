-- ===== src/Url.antt =====
-- projects/nanosrv/url.cpp: the parts of a URL, as offsets into the text. A text has no zero byte.
pub mod Bounds
mod Examples
use nanosrv.Common.{
  ℕ, zero, suc, ◌+◌, ◌-◌, Bool, true, false, not, ◌&&◌, [], ◌∷◌, ◌≡◌, refl, Bytes, codes, ltb, ◌==◌,
  if◌then◌else◌, take, drop,
}

pub record Url : Type 0 where
  pub user : ℕ
  pub pass : ℕ
  pub host : ℕ
  pub port : ℕ
  pub uri : ℕ
  pub end : ℕ

-- The body of the loop, at the byte c with the byte `before` in front of it.
unfoldable pub url_byte : ℕ → ℕ → ℕ → Url → Url
url_byte i before c u =
    if c == b'/' && ltb 0 i && u.host == 0 && before == b'/'
    then record u { host = i + 1; port = 0 }
    else if c == b']'
    then record u { port = 0 }
    else if c == b':' && u.port == 0 && u.uri == 0
    then record u { port = i + 1 }
    else if c == b'@' && u.user == 0 && u.pass == 0 && u.uri == 0
    then record u { user = u.host; pass = u.port; host = i + 1; port = 0 }
    else if c == b'/' && not (u.host == 0) && u.uri == 0
    then record u { uri = i }
    else u

unfoldable pub url_loop : ℕ → ℕ → Bytes → Url → Url
unfolding url_byte
url_loop i before [] u = record u { end = i }
url_loop i before (c ∷ s) u = url_loop (i + 1) c s (url_byte i before c u)

unfoldable pub urlparse : Bytes → Url
unfolding url_loop
urlparse url =
    url_loop 0 0 url (record { user = 0; pass = 0; host = 0; port = 0; uri = 0; end = 0 })

-- The length of the host.
unfoldable pub host_len : Url → ℕ
host_len u =
    if not (u.port == 0)
    then u.port - u.host - 1
    else if not (u.uri == 0)
    then u.uri - u.host
    else u.end - u.host

unfoldable pub url_host : Bytes → Bytes
unfolding urlparse host_len
url_host url = let u = urlparse url in take (host_len u) (drop u.host url)

unfoldable pub url_uri : Bytes → Bytes
unfolding urlparse
url_uri url = let u = urlparse url in if not (u.uri == 0) then drop u.uri url else codes "/"

unfoldable pub url_user : Bytes → Bytes
unfolding urlparse
url_user url =
    let u = urlparse url in
    if not (u.user == 0) && not (u.pass == 0 && u.host == 0)
    then take (if not (u.pass == 0) then u.pass - u.user - 1 else u.host - u.user - 1)
        (drop u.user url)
    else []

unfoldable pub url_pass : Bytes → Bytes
unfolding urlparse
url_pass url =
    let u = urlparse url in
    if not (u.pass == 0) && not (u.host == 0)
    then take (u.host - u.pass - 1) (drop u.pass url)
    else []

whole : url_host (codes "http://u:p@a.b:80/c") ≡ codes "a.b"
unfolding url_host
whole = refl

target : url_uri (codes "http://u:p@a.b:80/c") ≡ codes "/c"
unfolding url_uri
target = refl

login :
    (url_user (codes "http://u:p@a.b:80/c") ≡ codes "u")
    × (url_pass (codes "http://u:p@a.b:80/c") ≡ codes "p")
unfolding url_user url_pass
login = (refl, refl)
