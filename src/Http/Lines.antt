-- ===== src/Http/Lines.antt =====
-- http.cpp: where the header block ends, and the pieces of its lines. A text of the source that is
-- bounded by `end` is the list of the bytes before it.
use nanosrv.Common.{
  ℕ, zero, suc, ◌+◌, ◌-◌, ◌^◌, bit_and, Bool, true, false, not, ◌&&◌, ◌||◌, Option, none, some, [],
  ◌∷◌, ◌≡◌, refl, Bytes, codes, ltb, leb, ◌==◌, if◌then◌else◌,
}
use nanosrv.Str.{num_loop, digit_value}

-- The results of `http_get_request_len`: -1, 0 and a length.
pub data HeadLen : Type 0 where
  bad more : HeadLen
  ends_at : ℕ → HeadLen

unfoldable pub isok : ℕ → Bool
isok c = c == b'\n' || c == b'\r' || c == b'\t' || leb b' ' c

-- The loop at position i, where `p`, `q` are the bytes before the position, the nearer one first.
unfoldable pub request_len : ℕ → ℕ → ℕ → Bytes → HeadLen
request_len i p q [] = more
request_len i p q (c ∷ s) =
    let next = request_len (suc i) c p s in
    if not (isok c)
    then bad
    else if ltb 0 i && c == b'\n' && p == b'\n' || ltb 3 i && c == b'\n' && p == b'\r' && q == b'\n'
    then ends_at (suc i)
    else next

unfoldable pub http_get_request_len : Bytes → HeadLen
http_get_request_len = request_len 0 0 0

-- Is it a valid utf-8 continuation byte
unfoldable pub vcb : ℕ → Bool
vcb c = bit_and c 0xc0 == 0x80

-- The length of the character at the front, 0 where there is none.
unfoldable pub clen : Bytes → ℕ
unfolding vcb
clen [] = 0
clen (c ∷ []) = if ltb b' ' c && leb c b'~' then 1 else 0
clen (c ∷ d ∷ []) =
    if ltb b' ' c && leb c b'~' then 1 else if bit_and c 0xe0 == 0xc0 && vcb d then 2 else 0
clen (c ∷ d ∷ e ∷ []) =
    if ltb b' ' c && leb c b'~'
    then 1
    else if bit_and c 0xe0 == 0xc0 && vcb d
    then 2
    else if bit_and c 0xf0 == 0xe0 && vcb d && vcb e
    then 3
    else 0
clen (c ∷ d ∷ e ∷ f ∷ s) =
    if ltb b' ' c && leb c b'~'
    then 1
    else if bit_and c 0xe0 == 0xc0 && vcb d
    then 2
    else if bit_and c 0xf0 == 0xe0 && vcb d && vcb e
    then 3
    else if bit_and c 0xf8 == 0xf0 && vcb d && vcb e && vcb f
    then 4
    else 0

-- `while (s < end && s[0] != stop && (n = clen(s, end)) > 0) s += n`: what is read, and the rest. The
-- first argument counts the bytes of the present character that are still to be passed.
unfoldable pub chars : Option ℕ → ℕ → Bytes → Bytes × Bytes
chars stop inside [] = ([], [])
chars stop (suc n) (c ∷ s) = let r = chars stop n s in (c ∷ r.0, r.1)
chars stop zero (c ∷ s) =
    let n = clen (c ∷ s) in
    let r = chars stop (n - 1) s in
    let stops : Bool = elim stop [ none ↦ false | some x ↦ c == x ] in
    if stops || n == 0 then ([], c ∷ s) else (c ∷ r.0, r.1)

-- `while (s < end && s[0] == ' ') s++`
unfoldable pub skip_spaces : Bytes → Bytes
skip_spaces [] = []
skip_spaces (c ∷ s) = if c == b' ' then skip_spaces s else c ∷ s

-- The same for spaces and tabs.
unfoldable pub skip_blanks : Bytes → Bytes
skip_blanks [] = []
skip_blanks (c ∷ s) = if c == b' ' || c == b'\t' then skip_blanks s else c ∷ s

-- Spaces and tabs at the end.
unfoldable pub trim_end : Bytes → Bytes
trim_end [] = []
trim_end (c ∷ s) = elim (trim_end s) [
  | [] ↦ if c == b' ' || c == b'\t' then [] else c ∷ []
  | d ∷ t ↦ c ∷ d ∷ t
]

-- The line up to its end, and what follows; `none` stands for NULL. A carriage return must be followed
-- by a newline.
unfoldable pub skiptorn : Bytes → Option (Bytes × Bytes)
skiptorn [] = none
skiptorn (c ∷ []) = if c == b'\n' then some ([], []) else none
skiptorn (c ∷ d ∷ s) =
    let rest = skiptorn (d ∷ s) in
    if c == b'\n'
    then some ([], d ∷ s)
    else if c == b'\r'
    then (if d == b'\n' then some ([], s) else none)
    else elim rest [ none ↦ none | some (v, t) ↦ some (c ∷ v, t) ]

-- The loop of `ncasecmp`, down to whether the result is 0. A zero byte ends both texts.
unfoldable pub ncase_equal : Bytes → Bytes → ℕ → Bool
ncase_equal s t zero = true
ncase_equal (c ∷ s) (d ∷ t) (suc len) =
    let lower = λ (x : ℕ). (if leb b'A' x && leb x b'Z' then x + 32 else x) in
    let rest = ncase_equal s t len in
    if not (lower c == lower d) then false else if c == 0 then true else rest
ncase_equal s t (suc len) = false

-- The end of `to_size_t`: a digit has been read, and only blanks follow.
unfoldable pub size_done : Option (ℕ × ℕ × Bytes) → Option ℕ
unfolding skip_blanks
size_done none = none
size_done (some (result, ndigits, rest)) =
    if ndigits == 0 then none else elim (skip_blanks rest) [ [] ↦ some result | c ∷ s ↦ none ]

unfoldable pub size_digits : Bytes → Option ℕ
unfolding num_loop digit_value size_done
size_digits [] = none
size_digits (c ∷ s) = if c == b'-' then none else size_done (num_loop 10 (2 ^ 64 - 1) (c ∷ s) 0 0)

-- The digits of a length between blanks, as a size_t; `none` stands for false.
unfoldable pub to_size_t : Bytes → Option ℕ
unfolding size_digits skip_blanks
to_size_t str = size_digits (skip_blanks str)

two_lines : http_get_request_len (codes "GET / HTTP/1.1\r\nA: b\r\n\r\nrest") ≡ ends_at 24
unfolding http_get_request_len request_len isok
two_lines = refl

one_line : skiptorn (codes "abc\r\nd") ≡ some (codes "abc", codes "d")
unfolding skiptorn
one_line = refl

padded_length : to_size_t (codes " 123\t ") ≡ some 123
unfolding to_size_t
padded_length = refl
