-- ===== src/UrlCode/Examples.antt =====
-- http.cpp, `url_encode` and `url_decode`: the theorems at concrete strings.
use nanosrv.Common.{
  none, ◌≡◌, ◌≤◌, ◌+◌, ◌<◌, ◌⊎◌, refl, arith, codes, true, some, ◌++◌, ◌∷◌, [], ℕ, length, Keeps,
  text,
}
use nanosrv.UrlCode.{is_url_safe, url_encode, url_decode, url_encode_string}
use nanosrv.UrlCode.Encode.{
  escape, escaped, url_encode_lem, url_encode_bounds, url_encode_string_starves,
}
use nanosrv.UrlCode.Decode.{url_decode-url_encode, url_decode_bounds}

url_encode_example :
    let r = url_encode (codes "a b") (λ _. 7) 9 in
    (text r.0 r.1 ≡ escaped (codes "a b"))
    × (r.1 ≡ length (escaped (codes "a b")))
    × (r.0 r.1 ≡ 0)
    × Keeps 9 (λ _. 7) r.0
url_encode_example =
    url_encode_lem (codes "a b") (λ _. 7) 9 (unfold escaped escape is_url_safe in omega arith)

url_encode_bounds_example :
    let r = url_encode (codes "a b") (λ _. 7) 6 in
    Keeps 6 (λ _. 7) r.0
    × ((r.1 ≡ 0) ⊎ (r.1 < 6))
    × ((codes "a b" ≡ []) ⊎ (length (escaped (codes "a b")) + 1 < 6) ⊎ (r.1 ≡ 0))
url_encode_bounds_example = url_encode_bounds (codes "a b") (λ _. 7) 6

url_encode_string_starves_example : url_encode_string (codes "/ " ++ b'a' ∷ []) ≡ []
url_encode_string_starves_example =
    url_encode_string_starves (codes "/ ") b'a' (unfold is_url_safe in (refl, (refl, tt)))

url_decode-url_encode_example :
    let w = url_encode (codes "a b") (λ _. 7) 9 in
    let r = url_decode true (text w.0 w.1) (λ _. 9) 4 in (r.1 ≡ some 3) × (text r.0 3 ≡ codes "a b")
url_decode-url_encode_example =
    url_decode-url_encode true (codes "a b") (λ _. 7) (λ _. 9) 9 4
      (omega arith, (omega arith, (omega arith, tt)))
      (unfold escaped escape is_url_safe in omega arith) (omega arith) (omega arith)

url_decode_bounds_example :
    let r = url_decode true (codes "a%2") (λ _. 7) 4 in
    Keeps 4 (λ _. 7) r.0 × ((r.1 ≡ none) ⊎ ((n : ℕ) × (r.1 ≡ some n) × (n < 4) × (n ≤ 3)))
url_decode_bounds_example = url_decode_bounds true (codes "a%2") (λ _. 7) 4
