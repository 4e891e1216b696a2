-- ===== src/Json/Strings.antt =====
-- json.cpp: the escapes of strings, and the functions that read a token, a truth value or a string
-- behind a path; printf.cpp: the function `qcpy`, which writes the escapes.
pub mod RoundTrip
use nanosrv.Common.{
  as_int, ℕ, zero, suc, ◌+◌, ◌-◌, ◌*◌, Bool, true, false, not, ◌&&◌, ◌||◌, Option, none, some, List,
  [], ◌∷◌, ◌++◌, ◌≡◌, refl, Bytes, codes, ltb, leb, ◌==◌, if◌then◌else◌, length, take, drop, get_or,
}
use nanosrv.Str.{str_to_num}
use nanosrv.Json.Lexer.{json_esc}
use nanosrv.Json.Get.{JsonResult, too_deep, invalid, not_found, token, json_get}

-- `esc_char`, with the tables of `json_esc`.
unfoldable pub esc_char : ℕ → Bool → ℕ
unfolding json_esc
esc_char c esc = json_esc c esc

unfoldable pub escape_char : ℕ → ℕ
unfolding esc_char
escape_char c = esc_char c true

-- The bytes that are written.
unfoldable pub qcpy : Bytes → Bytes
unfolding escape_char
qcpy [] = []
qcpy (c ∷ s) =
    let rest = qcpy s in
    let e = escape_char c in if c == 0 then [] else if e == 0 then c ∷ rest else 92 ∷ e ∷ rest

-- One round of `json_unescape` at the byte c: the byte it writes, and how many more it reads.
unfoldable pub unescape_byte : ℕ → Bytes → Option (ℕ × ℕ)
unfolding json_esc str_to_num
unescape_byte c [] = some (c, 0)
unescape_byte c (e ∷ s) =
    if c == 92 && ltb 5 (length (c ∷ e ∷ s)) && e == b'u'
    then elim (str_to_num (take 4 s) 16 1) [ none ↦ none | some v ↦ some (v, 5) ]
    else if c == 92
    then (if json_esc e false == 0 then none else some (json_esc e false, 1))
    else some (c, 0)

abbrev pub with_first : ℕ → Option Bytes → Option Bytes
with_first c none = none
with_first c (some s) = some (c ∷ s)

-- The bytes in front of the zero that is written last, where there is room for n bytes.
unfoldable pub json_unescape : Bytes → ℕ → Option Bytes
unfolding unescape_byte
json_unescape s zero = none
json_unescape [] (suc n) = some []
json_unescape (c ∷ s) (suc n) = elim (unescape_byte c s) [
  | none ↦ none
  | some r ↦ with_first r.0 (json_unescape (drop r.1 s) n)
]

-- The pointer is none where it is NULL.
unfoldable pub json_get_tok : Bytes → Bytes → Option Bytes
json_get_tok json path = elim (json_get path json) [
  | token ofs len ↦ some (take len (drop ofs json))
  | too_deep ↦ none
  | invalid ↦ none
  | not_found ↦ none
]

unfoldable pub json_get_bool : Bytes → Bytes → Option Bool
json_get_bool json path = elim (json_get path json) [
  | token off len ↦
      let c = get_or json off 0 in if c == b't' || c == b'f' then some (c == b't') else none
  | too_deep ↦ none
  | invalid ↦ none
  | not_found ↦ none
]

-- Memory for the string is there.
unfoldable pub json_get_str : Bytes → Bytes → Option Bytes
unfolding json_unescape
json_get_str json path = elim (json_get path json) [
  | token off len ↦
      if ltb 1 len && get_or json off 0 == b'"'
      then json_unescape (take (len - 2) (drop (off + 1) json)) len
      else none
  | too_deep ↦ none
  | invalid ↦ none
  | not_found ↦ none
]

read_back :
    json_get_str (codes "{\"a\":\"x\\n\\u0041\"}") (codes "$.a") ≡ some (b'x' ∷ 10 ∷ b'A' ∷ [])
unfolding json_get_str json_get as_int
read_back = refl
