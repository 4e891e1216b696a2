-- ===== src/Json/Get.antt =====
-- json.cpp, `json_get`: a state machine over the bytes of a text.
pub mod Reads
pub mod Below
pub mod Values
pub mod Paths
pub mod Places
pub mod Steps
pub mod Members
pub mod Indices
pub mod Lookup
use nanosrv.Common.{
  as_int, as_int_small, take_all, ◌^◌, ◌<◌, arith, ℕ, zero, suc, ◌+◌, ◌-◌, ◌*◌, Bool, true, false,
  not, ◌&&◌, ◌||◌, Option, none, some, [], ◌∷◌, ◌≡◌, refl, Bytes, codes, ltb, leb, ◌==◌,
  if◌then◌else◌, length, take, drop, get_or,
}
use nanosrv.Json.Lexer.{pass_string, is_decimal, number_len}

-- The indices, which start at -1; a path may give any number.
pub data ℤ : Type 0 where
  pos negsuc : ℕ → ℤ

unfoldable pub is_equal : ℤ → ℤ → Bool
is_equal (pos m) (pos n) = m == n
is_equal (negsuc m) (negsuc n) = m == n
is_equal (pos m) (negsuc n) = false
is_equal (negsuc m) (pos n) = false

abbrev pub minus_one : ℤ
minus_one = negsuc 0

unfoldable pub next_index : ℤ → ℤ
next_index (pos n) = pos (n + 1)
next_index (negsuc zero) = pos 0
next_index (negsuc (suc n)) = negsuc n

-- m - n
unfoldable pub difference : ℕ → ℕ → ℤ
difference m n = if leb n m then pos (m - n) else negsuc (n - m - 1)

-- What `c - '0'` takes off a byte: c is a char, which is negative from 128 on.
unfoldable pub zero_at : ℕ → ℕ
zero_at c = if ltb c 128 then b'0' else b'0' + 256

-- `ei *= 10; ei += c - '0'`
unfoldable pub add_digit : ℤ → ℕ → ℤ
unfolding difference zero_at
add_digit (pos n) c = difference (10 * n + c) (zero_at c)
add_digit (negsuc n) c = difference c (10 * n + 10 + zero_at c)

-- The index in a path up to the bracket, and how many bytes it takes.
unfoldable pub read_index : Bytes → ℤ → ℤ × ℕ
unfolding add_digit
read_index [] ei = (ei, 0)
read_index (c ∷ s) ei =
    let rest = read_index s (add_digit ei c) in
    if c == b']' || c == 0 then (ei, 0) else (rest.0, rest.1 + 1)

unfoldable pub head_or_zero : Bytes → ℕ
head_or_zero [] = 0
head_or_zero (c ∷ s) = c

-- `strncmp(s, t, n) == 0`, where both texts end in a zero.
unfoldable pub strncmp_equal : Bytes → Bytes → ℕ → Bool
unfolding head_or_zero
strncmp_equal s t zero = true
strncmp_equal s t (suc n) =
    let rest = strncmp_equal (drop 1 s) (drop 1 t) n in
    if not (head_or_zero s == head_or_zero t)
    then false
    else if head_or_zero s == 0
    then true
    else rest

unfoldable pub has_prefix : Bytes → Bytes → Bool
has_prefix [] s = true
has_prefix (c ∷ p) [] = false
has_prefix (c ∷ p) (d ∷ s) = let rest = has_prefix p s in if c == d then rest else false

pub data Expecting : Type 0 where
  s_value s_key s_colon s_comma_or_eoo : Expecting

-- The innermost bracket comes first in `nesting`, whose length is the depth.
pub record JsonState : Type 0 where
  pub expecting : Expecting
  pub nesting : Bytes
  pub j : ℕ
  pub ed : ℕ
  pub place : ℕ
  pub ci : ℤ
  pub ei : ℤ

-- The error codes, and an offset with the length of the token.
pub data JsonResult : Type 0 where
  too_deep invalid not_found : JsonResult
  token : ℕ → ℕ → JsonResult

-- `return`, and the next byte, behind those that are passed besides the one at hand.
pub data JsonStep : Type 0 where
  stop : JsonResult → JsonStep
  next : ℕ → JsonState → JsonStep

unfoldable pub at_depth : JsonState → Bool
at_depth st = length st.nesting == st.ed

-- `if (depth == ed && ei >= 0) ci++;`
unfoldable pub count_value : JsonState → JsonState
unfolding at_depth next_index
count_value st =
    let counts = at_depth st && (elim st.ei [ pos n ↦ true | negsuc n ↦ false ]) in
    record st { ci = if counts then next_index st.ci else st.ci }

-- A bracket is opened.
unfoldable pub nested : ℕ → JsonState → JsonState
nested c st = record st { nesting = c ∷ st.nesting }

module _ (path : Bytes) where
  unfoldable pub path_at : ℕ → ℕ
  path_at p = get_or path p 0

  -- The test of MG_CHECKRET.
  unfoldable pub is_found : JsonState → Bool
  unfolding at_depth path_at is_equal
  is_found st = at_depth st && path_at st.place == 0 && is_equal st.ci st.ei

  -- MG_CHECKRET, with the offset of the last byte, and what follows it.
  unfoldable pub check_ret : ℕ → JsonState → JsonStep → JsonStep
  unfolding is_found
  check_ret i st otherwise = if is_found st then stop (token st.j (i - st.j + 1)) else otherwise

  -- MG_EOO, and what follows it.
  unfoldable pub end_of : ℕ → ℕ → JsonState → (JsonState → JsonStep) → JsonStep
  unfolding at_depth is_equal check_ret
  end_of c i st follow =
      if at_depth st && not (is_equal st.ci st.ei) then stop not_found else elim st.nesting [
        | [] ↦ stop invalid
        | n ∷ ns ↦
            let st' = record st { nesting = ns } in
            if c == n + 2 then check_ret i st' (follow st') else stop invalid
      ]

  -- Behind a value whose last byte is `passed` bytes on.
  unfoldable pub after_value : ℕ → ℕ → JsonState → JsonStep
  unfolding check_ret count_value
  after_value passed i st =
      check_ret (i + passed) st
        (next passed (record (count_value st) { expecting = s_comma_or_eoo }))

  unfoldable pub enter_object : JsonState → JsonState
  unfolding at_depth path_at is_equal nested
  enter_object st =
      if at_depth st && path_at st.place == b'.' && is_equal st.ci st.ei
      then record st { ed = st.ed + 1; place = st.place + 1; ci = minus_one; ei = minus_one }
      else st

  unfoldable pub enter_array : JsonState → JsonState
  unfolding at_depth path_at is_equal read_index
  enter_array st =
      let r = read_index (drop (st.place + 1) path) (pos 0) in
      let p = st.place + 1 + r.1 in
      if at_depth st && path_at st.place == b'[' && is_equal st.ei st.ci
      then record st {
        ed = st.ed + 1;
        place = if path_at p == 0 then p else p + 1;
        ci = pos 0;
        ei = r.0;
      }
      else st

  -- S_VALUE. MG_JSON_MAX_DEPTH is 30.
  unfoldable pub value_byte : ℕ → Bytes → ℕ → JsonState → JsonStep
  unfolding nested enter_object enter_array end_of after_value has_prefix pass_string number_len
      is_decimal
  value_byte c rest i st =
      if c == b'{'
      then (if leb 30 (length st.nesting)
          then stop too_deep
          else next 0 (record (nested c (enter_object st)) { expecting = s_key }))
      else if c == b'['
      then (if leb 30 (length st.nesting)
          then stop too_deep
          else next 0 (nested c (enter_array st)))
      else if c == b']' && ltb 0 (length st.nesting)
      then end_of c i st (after_value 0 i)
      else if has_prefix (codes "true") (c ∷ rest) || has_prefix (codes "null") (c ∷ rest)
      then after_value 3 i st
      else if has_prefix (codes "false") (c ∷ rest)
      then after_value 4 i st
      else if c == b'-' || is_decimal c
      then after_value (number_len (c ∷ rest) - 1) i st
      else if c == b'"'
      then elim (pass_string rest) [ none ↦ stop invalid | some n ↦ after_value (n + 1) i st ]
      else stop invalid

  unfoldable pub on_value : ℕ → Bytes → ℕ → JsonState → JsonStep
  unfolding at_depth value_byte
  on_value c rest i st = value_byte c rest i (record st { j = if at_depth st then i else st.j })

  -- A key of n bytes: the place in the path behind it, if it is the one looked for.
  unfoldable pub match_key : Bytes → ℕ → JsonState → JsonState
  unfolding at_depth path_at strncmp_equal
  match_key rest n st =
      let behind = path_at (st.place + n) in
      if at_depth st
        && path_at (st.place - 1) == b'.'
        && strncmp_equal rest (drop st.place path) n
        && (behind == 0 || behind == b'.' || behind == b'[')
      then record st { place = st.place + n }
      else st

  unfoldable pub key_end : Bytes → ℕ → JsonState → JsonStep
  unfolding at_depth path_at match_key
  key_end rest n st =
      if leb (length rest) n
      then stop not_found
      else if ltb (length st.nesting) st.ed
      then stop not_found
      else if at_depth st && not (path_at (st.place - 1) == b'.')
      then stop not_found
      else next (n + 1) (record (match_key rest n st) { expecting = s_colon })

  -- S_KEY.
  unfoldable pub on_key : ℕ → Bytes → ℕ → JsonState → JsonStep
  unfolding pass_string key_end end_of count_value
  on_key c rest i st =
      if c == b'"'
      then elim (pass_string rest) [ none ↦ stop invalid | some n ↦ key_end rest n st ]
      else if c == b'}'
      then end_of c i st (λ st'. next 0 (count_value (record st' { expecting = s_comma_or_eoo })))
      else stop invalid

  -- S_COLON.
  unfoldable pub on_colon : ℕ → JsonState → JsonStep
  on_colon c st = if c == b':' then next 0 (record st { expecting = s_value }) else stop invalid

  -- S_COMMA_OR_EOO.
  unfoldable pub on_comma : ℕ → ℕ → JsonState → JsonStep
  unfolding at_depth path_at end_of count_value
  on_comma c i st = elim st.nesting [
    | [] ↦ stop invalid
    | n ∷ ns ↦
        if c == b','
        then next 0 (record st { expecting = if n == b'{' then s_key else s_value })
        else if c == b']' || c == b'}'
        then (if at_depth st && c == b'}' && path_at (st.place - 1) == b'.'
            then stop not_found
            else if at_depth st && c == b']' && path_at (st.place - 1) == b','
            then stop not_found
            else end_of c i st (λ st'. next 0 (count_value st')))
        else stop invalid
  ]

  unfoldable pub is_space : ℕ → Bool
  is_space c = c == b' ' || c == 9 || c == 10 || c == 13

  unfoldable pub json_step : ℕ → Bytes → ℕ → JsonState → JsonStep
  unfolding is_space on_value on_key on_colon on_comma
  json_step c rest i st = if is_space c then next 0 st else elim st.expecting [
    | s_value ↦ on_value c rest i st
    | s_key ↦ on_key c rest i st
    | s_colon ↦ on_colon c st
    | s_comma_or_eoo ↦ on_comma c i st
  ]

  -- The loop, at the byte with the offset i, with as many bytes to pass as the number before says.
  unfoldable pub json_run : Bytes → ℕ → ℕ → JsonState → JsonResult
  unfolding json_step
  json_run [] k i st = not_found
  json_run (c ∷ s) (suc k) i st = json_run s k (i + 1) st
  json_run (c ∷ s) zero i st = elim (json_step c s i st) [
    | stop r ↦ r
    | next k st' ↦ json_run s k (i + 1) st'
  ]

  abbrev pub at_start : JsonState
  at_start = record {
    expecting = s_value;
    nesting = [];
    j = 0;
    ed = 0;
    place = 1;
    ci = minus_one;
    ei = minus_one;
  }

  -- `len` is an int: where it is negative the loop is not entered.
  unfoldable pub json_get : Bytes → JsonResult
  unfolding json_run path_at
  json_get json =
      if path_at 0 == b'$'
      then elim (as_int (length json)) [
        | none ↦ not_found
        | some len ↦ json_run (take len json) 0 0 at_start
      ]
      else invalid

  pub json_get_small :
      (json : Bytes)
      → length json < 2 ^ 31
      → (path_at 0 == b'$') ≡ true
      → json_get json ≡ json_run json 0 0 at_start
  unfolding json_get
  json_get_small json h e =
      rw (e, json_get, as_int_small (length json) h, take_all json (length json) (omega arith)) refl

sample : Bytes
sample = codes "{\"a\": [1, {\"b\":true}], \"c\":-2}"

by_key : json_get (codes "$.c") sample ≡ token 27 2
unfolding json_get as_int sample
by_key = refl

by_index : json_get (codes "$.a[1].b") sample ≡ token 15 4
unfolding json_get as_int sample
by_index = refl

missing : json_get (codes "$.b") sample ≡ not_found
unfolding json_get as_int sample
missing = refl

-- An index one past the end of an inner array finds an element of the next one.
past_end : json_get (codes "$[0][2]") (codes "[[1,2],[5]]") ≡ token 8 1
unfolding json_get as_int
past_end = refl
