-- ===== src/Json/Get/Reads.antt =====
-- json.cpp, `json_get`: what the state machine does at the text of a whole value.
use nanosrv.Common.{
  if_alike_else, ℕ, suc, ◌+◌, ◌-◌, ◌≤◌, ◌<◌, Bool, true, false, ◌&&◌, ◌||◌, [], ◌∷◌, ◌++◌, ◌≡◌,
  refl, ap, ◌∙◌, arith, Bytes, codes, ltb, leb, ◌==◌, if◌then◌else◌, length, length-append,
}
use nanosrv.Json.Lexer.{is_decimal, number_len}
use nanosrv.Json.Lexer.Stops.{pass_string-append, Stops, number_len-append}
use nanosrv.Json.Syntax.{
  Json, null, true_value, false_value, number, text, print, IsBody, IsNumber, IsJson,
}
use nanosrv.Json.Get.{
  is_equal, s_value, s_comma_or_eoo, JsonState, JsonResult, token, JsonStep, stop, next, at_depth,
  count_value, path_at, is_found, check_ret, after_value, enter_object, enter_array, value_byte,
  on_value, is_space, json_step, json_run,
}

if_alike {ℓ} :
    {A : Type ℓ} (b : Bool) (x x' y y' : A)
    → x ≡ x'
    → y ≡ y'
    → (if b then x else y) ≡ (if b then x' else y')
if_alike true x x' y y' e f = e
if_alike false x x' y y' e f = f

pub equal_test : (a b : ℕ) → a ≡ b → (a == b) ≡ true
equal_test a b h = ground arith

pub leb_not : (a b : ℕ) → b < a → leb a b ≡ false
leb_not a b h = ground arith

pub ltb_not : (a b : ℕ) → b ≤ a → ltb a b ≡ false
ltb_not a b h = ground arith

number_facts :
    (path : Bytes) (c : ℕ)
    → (c == b'-' || is_decimal c) ≡ true
    → ((c == b'{') ≡ false)
      × ((c == b'[') ≡ false)
      × ((c == b']') ≡ false)
      × ((b't' == c) ≡ false)
      × ((b'n' == c) ≡ false)
      × (is_space path c ≡ false)
      × ((b'f' == c) ≡ false)
unfolding is_space is_decimal
number_facts path c h = ground arith

module _ (path : Bytes) where
  -- What a step leads to.
  abbrev pub stepped : Bytes → ℕ → JsonStep → JsonResult
  stepped s i (stop r) = r
  stepped s i (next k st) = json_run path s k (i + 1) st

  pub run_byte :
      (c : ℕ) (s : Bytes) (i : ℕ) (st : JsonState)
      → json_run path (c ∷ s) 0 i st ≡ stepped s i (json_step path c s i st)
  unfolding json_run
  run_byte c s i st =
      elim (json_step path c s i st)
        as (λ x.
          (elim x [ stop r ↦ r | next k st' ↦ json_run path s k (i + 1) st' ]) ≡ stepped s i x) [
            | stop r ↦ refl
            | next k st' ↦ refl
          ]

  stepped-if :
      (s : Bytes) (i : ℕ) (b : Bool) (x y : JsonStep)
      → stepped s i (if b then x else y) ≡ (if b then stepped s i x else stepped s i y)
  stepped-if s i true x y = refl
  stepped-if s i false x y = refl

  -- Bytes that are passed.
  pub run_passed :
      (p s : Bytes) (i : ℕ) (st : JsonState)
      → json_run path (p ++ s) (length p) i st ≡ json_run path s 0 (i + length p) st
  unfolding json_run
  run_passed [] s i st = rw (let e : i + 0 ≡ i = omega arith in e) refl
  run_passed (c ∷ p) s i st =
      run_passed p s (i + 1) st
      ∙ ap (λ k. json_run path s 0 k st)
          (let e : i + 1 + length p ≡ i + suc (length p) = omega arith in e)

  -- A value ends at the byte `last`; the rest follows.
  unfoldable pub ended : ℕ → JsonState → Bytes → JsonResult
  unfolding is_found count_value
  ended last st rest =
      if is_found path st
      then token st.j (last - st.j + 1)
      else json_run path rest 0 (last + 1) (record (count_value st) { expecting = s_comma_or_eoo })

  -- The state in which the value at i is read.
  unfoldable pub marked : ℕ → JsonState → JsonState
  unfolding at_depth
  marked i st = record st { j = if at_depth st then i else st.j }

  pub stepped-after_value :
      (p rest : Bytes) (i : ℕ) (st : JsonState)
      → stepped (p ++ rest) i (after_value path (length p) i st) ≡ ended (i + length p) st rest
  unfolding after_value check_ret ended
  stepped-after_value p rest i st =
      stepped-if (p ++ rest) i (is_found path st) _ _
      ∙ if_alike (is_found path st) _ _ _ _ refl (
          run_passed p rest (i + 1) (record (count_value st) { expecting = s_comma_or_eoo })
          ∙ ap
              (λ k. json_run path rest 0 k (record (count_value st) { expecting = s_comma_or_eoo }))
              (let e : i + 1 + length p ≡ i + length p + 1 = omega arith in e))

  pub stepped-check_ret :
      (s : Bytes) (i last : ℕ) (st : JsonState) (x : JsonStep) (r : JsonResult)
      → (is_found path st ≡ false → stepped s i x ≡ r)
      → stepped s i (check_ret path last st x)
        ≡ (if is_found path st then token st.j (last - st.j + 1) else r)
  unfolding check_ret
  stepped-check_ret s i last st x r h =
      stepped-if s i (is_found path st) _ _ ∙ if_alike_else (is_found path st) _ _ _ h

  -- No path is entered at a bracket.
  pub record IsPassive (st : JsonState) : Type 0 where
    pub no_object : (at_depth st && path_at path st.place == b'.' && is_equal st.ci st.ei) ≡ false
    pub no_array : (at_depth st && path_at path st.place == b'[' && is_equal st.ei st.ci) ≡ false

  pub not_entered_object : (st : JsonState) → IsPassive st → enter_object path st ≡ st
  unfolding enter_object
  not_entered_object st h = rw (h.no_object, enter_object) refl

  pub not_entered_array : (st : JsonState) → IsPassive st → enter_array path st ≡ st
  unfolding enter_array
  not_entered_array st h = rw (h.no_array, enter_array) refl

  -- What reading a value comes to.
  abbrev pub ReadsValue : Json → Type 0
  ReadsValue v =
      (rest : Bytes) (i : ℕ) (st : JsonState)
      → IsJson (length st.nesting) v
      → Stops rest
      → st.ed ≤ length st.nesting
      → IsPassive st
      → json_run path (print v ++ rest) 0 i (record st { expecting = s_value })
        ≡ ended (i + length (print v) - 1) (marked i st) rest

  abbrev pub waiting : JsonState → JsonState
  waiting st = record st { expecting = s_value }

  on_waiting :
      (c : ℕ) (s : Bytes) (i : ℕ) (st : JsonState)
      → is_space path c ≡ false
      → json_step path c s i (waiting st) ≡ value_byte path c s i (marked i (waiting st))
  unfolding json_step on_value marked
  on_waiting c s i st e = rw (e, json_step) refl

  pub run_value :
      (c : ℕ) (s : Bytes) (i : ℕ) (st : JsonState)
      → is_space path c ≡ false
      → json_run path (c ∷ s) 0 i (waiting st)
        ≡ stepped s i (value_byte path c s i (marked i (waiting st)))
  run_value c s i st e = run_byte c s i (waiting st) ∙ ap (stepped s i) (on_waiting c s i st e)

  -- A value that starts with c and is passed at once.
  run_scalar :
      (c : ℕ) (p rest : Bytes) (i : ℕ) (st : JsonState)
      → is_space path c ≡ false
      → value_byte path c (p ++ rest) i (marked i (waiting st))
        ≡ after_value path (length p) i (marked i (waiting st))
      → json_run path (c ∷ (p ++ rest)) 0 i (waiting st) ≡ ended (i + length p) (marked i st) rest
  unfolding marked ended
  run_scalar c p rest i st e h =
      run_value c (p ++ rest) i st e
      ∙ ap (stepped (p ++ rest) i) h
      ∙ stepped-after_value p rest i (marked i (waiting st))

  pub reads_null : ReadsValue null
  unfolding print is_space value_byte
  reads_null rest i st v z d q =
      run_scalar b'n' (codes "ull") rest i st refl refl
      ∙ ap (λ k. ended k (marked i st) rest) (omega arith)

  pub reads_true : ReadsValue true_value
  unfolding print is_space value_byte
  reads_true rest i st v z d q =
      run_scalar b't' (codes "rue") rest i st refl refl
      ∙ ap (λ k. ended k (marked i st) rest) (omega arith)

  pub reads_false : ReadsValue false_value
  unfolding print is_space value_byte
  reads_false rest i st v z d q =
      run_scalar b'f' (codes "alse") rest i st refl refl
      ∙ ap (λ k. ended k (marked i st) rest) (omega arith)

  text_step :
      (s rest : Bytes) (i : ℕ) (st : JsonState)
      → IsBody s
      → value_byte path b'"' ((s ++ b'"' ∷ []) ++ rest) i st
        ≡ after_value path (length (s ++ b'"' ∷ [])) i st
  unfolding value_byte
  text_step s rest i st v =
      let ends = pass_string-append (s ++ b'"' ∷ []) rest (length s) v in
      let size : length (s ++ b'"' ∷ []) ≡ length s + 1 =
        omega (arith, length-append s (b'"' ∷ [])) in
      rw (ends, value_byte, size) refl

  pub reads_text : (s : Bytes) → ReadsValue (text s)
  unfolding print is_space value_byte IsJson
  reads_text s rest i st v z d q =
      run_scalar b'"' (s ++ b'"' ∷ []) rest i st refl (text_step s rest i (marked i (waiting st)) v)
      ∙ ap (λ k. ended k (marked i st) rest) (omega arith)

  number_step :
      (c : ℕ) (s rest : Bytes) (i : ℕ) (st : JsonState)
      → IsNumber (c ∷ s)
      → Stops rest
      → value_byte path c (s ++ rest) i st ≡ after_value path (length s) i st
  unfolding value_byte
  number_step c s rest i st v z =
      let f = number_facts path c v.0 in
      let size : number_len (c ∷ (s ++ rest)) ≡ suc (length s) =
        number_len-append rest z (c ∷ s) v.1 in
      let less : suc (length s) - 1 ≡ length s = omega arith in
      rw (f.0, value_byte, f.1, f.2, f.3, f.4, f.6, v.0, size, less) refl

  pub reads_number : (s : Bytes) → ReadsValue (number s)
  unfolding print IsJson
  reads_number [] rest i st v z d q = absurd v
  reads_number (c ∷ s) rest i st v z d q =
      run_scalar c s rest i st (number_facts path c v.0).5
        (number_step c s rest i (marked i (waiting st)) v z)
      ∙ ap (λ k. ended k (marked i st) rest) (omega arith)
