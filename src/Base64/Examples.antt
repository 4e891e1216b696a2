-- ===== src/Base64/Examples.antt =====
-- base64.cpp: the theorems at concrete strings.
use nanosrv.Common.{◌+◌, ◌≤◌, ◌≡◌, ◌⊎◌, arith, codes, text, Keeps, min, ◌*◌, ◌/◌}
use nanosrv.Base64.{
  base64_need, base64_encode, base64_decode, base64_encode_string, base64_decode_string,
}
use nanosrv.Base64.Encode.{encoding, base64_encode_lem}
use nanosrv.Base64.Decode.{base64_decode_bounds, base64_decode-encoding, decode-encode_string}

base64_encode_example :
    let r = base64_encode (codes "Man") (λ _. 7) 9 in
    (text r.0 r.1 ≡ encoding (codes "Man"))
    × (r.1 + 1 ≡ base64_need 3)
    × (r.0 r.1 ≡ 0)
    × Keeps (base64_need 3) (λ _. 7) r.0
base64_encode_example = base64_encode_lem (codes "Man") (λ _. 7) 9 (omega arith) (omega arith)

base64_decode_bounds_example :
    let r = base64_decode (codes "TWE!") (λ _. 7) 9 in
    Keeps (min 9 (4 / 4 * 3 + 1)) (λ _. 7) r.0 × ((r.1 ≡ 0) ⊎ (r.1 + 1 ≤ min 9 (4 / 4 * 3 + 1)))
base64_decode_bounds_example = base64_decode_bounds (codes "TWE!") (λ _. 7) 9

base64_decode-encoding_example :
    let r = base64_decode (encoding (codes "Ma")) (λ _. 7) 4 in
    (text r.0 r.1 ≡ codes "Ma") × (r.1 ≡ 2) × (r.0 r.1 ≡ 0) × Keeps (2 + 1) (λ _. 7) r.0
base64_decode-encoding_example =
    base64_decode-encoding (codes "Ma") (λ _. 7) 4 (omega arith) (omega arith)

decode-encode_string_example :
    base64_decode_string (base64_encode_string (codes "user:pass")) ≡ codes "user:pass"
decode-encode_string_example = decode-encode_string (codes "user:pass") (omega arith)
