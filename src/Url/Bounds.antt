-- ===== src/Url/Bounds.antt =====
-- url.cpp: the offsets are in order, so that no length wraps around.
use nanosrv.Common.{
  ℕ, suc, ◌+◌, ◌≤◌, ◌<◌, Bool, true, not, ◌&&◌, [], ◌∷◌, ◌≡◌, ◌⊎◌, inl, inr, refl, arith, Bytes,
  ltb, ◌==◌, if-both, length,
}
use nanosrv.Url.{Url, url_byte, url_loop, urlparse, host_len}

-- Before the byte i.
pub record IsOrdered (i : ℕ) (u : Url) : Type 0 where
  pub host_at : u.host ≤ i
  pub port_at : u.port ≤ i
  pub port_behind : (u.port ≡ 0) ⊎ (u.host < u.port)
  pub uri_at : u.uri ≤ i
  pub uri_behind : (u.uri ≡ 0) ⊎ ((0 < u.host) × (u.host ≤ u.uri))
  pub pass_before : (u.pass ≡ 0) ⊎ ((u.user < u.pass) × (u.pass < u.host))
  pub user_before : (u.user ≡ 0) ⊎ (u.user < u.host)

is_zero : (n : ℕ) → (n == 0) ≡ true → n ≡ 0
is_zero n e = ground arith

both_true : (a b : Bool) → (a && b) ≡ true → (a ≡ true) × (b ≡ true)
both_true a b e = ground arith

positive : (n : ℕ) → not (n == 0) ≡ true → 0 < n
positive n e = ground arith

host_found :
    (i : ℕ) (u : Url)
    → IsOrdered i u
    → u.host ≡ 0
    → IsOrdered (i + 1) (record u { host = i + 1; port = 0 })
host_found i u h e = record {
  host_at = omega arith;
  port_at = omega arith;
  port_behind = inl refl;
  uri_at = omega (arith, h.uri_at);
  uri_behind = inl (omega (arith, h.uri_behind));
  pass_before = inl (omega (arith, h.pass_before));
  user_before = inl (omega (arith, h.user_before));
}

login_found :
    (i : ℕ) (u : Url)
    → IsOrdered i u
    → u.uri ≡ 0
    → IsOrdered (i + 1) (record u { user = u.host; pass = u.port; host = i + 1; port = 0 })
login_found i u h e = record {
  host_at = omega arith;
  port_at = omega arith;
  port_behind = inl refl;
  uri_at = omega arith;
  uri_behind = inl e;
  pass_before = elim h.port_behind [ inl z ↦ inl z | inr lt ↦ inr (lt, omega (arith, h.port_at)) ];
  user_before = inr (omega (arith, h.host_at));
}

byte-IsOrdered :
    (i before c : ℕ) (u : Url) → IsOrdered i u → IsOrdered (i + 1) (url_byte i before c u)
unfolding url_byte
byte-IsOrdered i before c u h =
    let P = IsOrdered (i + 1) in
    if-both P (c == b'/' && ltb 0 i && u.host == 0 && before == b'/') _ _
      (λ e. let t = (both_true _ _ (both_true _ _ e).0).1 in host_found i u h (is_zero u.host t))
      (λ _.
        if-both P (c == b']') _ _
          (λ _. record {
            host_at = omega (arith, h.host_at);
            port_at = omega arith;
            port_behind = inl refl;
            uri_at = omega (arith, h.uri_at);
            uri_behind = h.uri_behind;
            pass_before = h.pass_before;
            user_before = h.user_before;
          })
          (λ _.
            if-both P (c == b':' && u.port == 0 && u.uri == 0) _ _
              (λ _. record {
                host_at = omega (arith, h.host_at);
                port_at = omega arith;
                port_behind = inr (omega (arith, h.host_at));
                uri_at = omega (arith, h.uri_at);
                uri_behind = h.uri_behind;
                pass_before = h.pass_before;
                user_before = h.user_before;
              })
              (λ _.
                if-both P (c == b'@' && u.user == 0 && u.pass == 0 && u.uri == 0) _ _
                  (λ e. let t = (both_true _ _ e).1 in login_found i u h (is_zero u.uri t))
                  (λ _.
                    if-both P (c == b'/' && not (u.host == 0) && u.uri == 0) _ u
                      (λ e.
                        let t = (both_true _ _ (both_true _ _ e).0).1 in
                        record {
                          host_at = omega (arith, h.host_at);
                          port_at = omega (arith, h.port_at);
                          port_behind = h.port_behind;
                          uri_at = omega arith;
                          uri_behind = inr (positive u.host t, h.host_at);
                          pass_before = h.pass_before;
                          user_before = h.user_before;
                        })
                      (λ _. record {
                        host_at = omega (arith, h.host_at);
                        port_at = omega (arith, h.port_at);
                        port_behind = h.port_behind;
                        uri_at = omega (arith, h.uri_at);
                        uri_behind = h.uri_behind;
                        pass_before = h.pass_before;
                        user_before = h.user_before;
                      })))))

loop-IsOrdered :
    (i before : ℕ) (s : Bytes) (u : Url)
    → IsOrdered i u
    → IsOrdered (i + length s) (url_loop i before s u)
      × ((url_loop i before s u).end ≡ i + length s)
unfolding url_loop
loop-IsOrdered i before [] u h =
    let e : i + 0 ≡ i = omega arith in
    rw e (
      record {
        host_at = h.host_at;
        port_at = h.port_at;
        port_behind = h.port_behind;
        uri_at = h.uri_at;
        uri_behind = h.uri_behind;
        pass_before = h.pass_before;
        user_before = h.user_before;
      },
      refl,
    )
loop-IsOrdered i before (c ∷ s) u h =
    let e : i + suc (length s) ≡ i + 1 + length s = omega arith in
    rw e (loop-IsOrdered (i + 1) c s (url_byte i before c u) (byte-IsOrdered i before c u h))

host_room : (n : ℕ) (u : Url) → IsOrdered n u → u.end ≡ n → u.host + host_len u ≤ n
unfolding host_len
host_room n u h e =
    let P = λ (k : ℕ). u.host + k ≤ n in
    if-both P (not (u.port == 0)) _ _
      (λ p. let pos = positive u.port p in omega (arith, h.port_behind, h.port_at, pos))
      (λ _.
        if-both P (not (u.uri == 0)) _ _
          (λ p. let pos = positive u.uri p in omega (arith, h.uri_behind, h.uri_at, pos))
          (λ _. omega (arith, h.host_at, e)))

-- On every text, the offsets that `urlparse` finds are in order: user before password before host, and
-- the host before a port and before a path. So none of the lengths that are taken as differences of
-- them wraps around, and the host lies inside the text.
pub urlparse-IsOrdered :
    (url : Bytes)
    → let u = urlparse url in IsOrdered (length url) u × (u.host + host_len u ≤ length url)
unfolding urlparse
urlparse-IsOrdered url =
    let start : IsOrdered 0 (record { user = 0; pass = 0; host = 0; port = 0; uri = 0; end = 0 }) =
      record {
        host_at = omega arith;
        port_at = omega arith;
        port_behind = inl refl;
        uri_at = omega arith;
        uri_behind = inl refl;
        pass_before = inl refl;
        user_before = inl refl;
      } in
    let (h, e) = loop-IsOrdered 0 0 url _ start in
    let z : 0 + length url ≡ length url = omega arith in
    rw (← z) (h, host_room (0 + length url) _ h e)
