-- ===== src/Json/Get/Below.antt =====
-- json.cpp, `json_get`: values below the depth that a path has reached, and closing brackets.
use nanosrv.Common.{
  ℕ, suc, ◌+◌, ◌-◌, ◌≤◌, ◌<◌, Bool, true, false, ◌||◌, [], ◌∷◌, ◌++◌, ◌≡◌, refl, sym, ap, ◌∙◌,
  arith, Bytes, ltb, leb, ◌==◌, if◌then◌else◌, length, length-append, append_assoc,
}
use nanosrv.Json.Lexer.Stops.{pass_string-append, Stops}
use nanosrv.Json.Syntax.{
  Json, null, true_value, false_value, number, text, array, object, quote, print, IsBody, IsJson,
}
use nanosrv.Json.Get.{
  Expecting, s_value, s_key, s_colon, s_comma_or_eoo, JsonState, JsonResult, JsonStep, next,
  at_depth, count_value, is_found, check_ret, end_of, after_value, value_byte, on_key, on_colon,
  on_comma, is_space, json_step, json_run,
}
use nanosrv.Json.Get.Reads.{
  stepped-after_value, stepped-check_ret, stepped, run_byte, run_passed, ended, marked, IsPassive,
  ReadsValue, waiting, run_value, equal_test, leb_not, ltb_not,
}

module _ (path : Bytes) where
  -- Below the depth that the path has reached, a value changes nothing.
  pub above : (st : JsonState) → st.ed < length st.nesting → at_depth st ≡ false
  unfolding at_depth
  above st h = ground arith

  above-IsPassive : (st : JsonState) → st.ed < length st.nesting → IsPassive path st
  above-IsPassive st h =
      let e = above st h in record { no_object = rw e refl; no_array = rw e refl }

  ended_above :
      (last i : ℕ) (st : JsonState) (rest : Bytes)
      → st.ed < length st.nesting
      → ended path last (marked path i st) rest
        ≡ json_run path rest 0 (last + 1) (record st { expecting = s_comma_or_eoo })
  unfolding ended marked is_found count_value
  ended_above last i st rest h = let e = above st h in rw (e, ended) refl

  pub print_pos : (d : ℕ) (v : Json) → IsJson d v → 0 < length (print v)
  unfolding print IsJson
  print_pos d (number []) h = absurd h
  print_pos d (number (c ∷ s)) h = omega arith
  print_pos d null h = omega arith
  print_pos d true_value h = omega arith
  print_pos d false_value h = omega arith
  print_pos d (text s) h = omega arith
  print_pos d (array es) h = omega arith
  print_pos d (object ms) h = omega arith

  pub inert :
      (v : Json)
      → ReadsValue path v
      → (rest : Bytes) (i : ℕ) (st : JsonState) → IsJson (length st.nesting) v
      → Stops rest
      → st.ed < length st.nesting
      → json_run path (print v ++ rest) 0 i (waiting path st)
        ≡ json_run path rest 0 (i + length (print v)) (record st { expecting = s_comma_or_eoo })
  inert v reads rest i st h stops lt =
      reads rest i st h stops (omega arith) (above-IsPassive st lt)
      ∙ ended_above (i + length (print v) - 1) i st rest lt
      ∙ ap (λ k. json_run path rest 0 k (record st { expecting = s_comma_or_eoo }))
          (omega (arith, print_pos (length st.nesting) v h))

  if_twice :
      (b : Bool) (x y : JsonResult) → (if b then x else (if b then x else y)) ≡ (if b then x else y)
  if_twice true x y = refl
  if_twice false x y = refl

  marked_above : (i : ℕ) (st : JsonState) → st.ed < length st.nesting → marked path i st ≡ st
  unfolding marked
  marked_above i st h = rw (above st h) refl

  -- The state inside a bracket.
  abbrev pub inside : ℕ → Expecting → JsonState → JsonState
  inside n e st = record st { nesting = n ∷ st.nesting; expecting = e }

  end_inside :
      (n c i : ℕ) (e : Expecting) (st : JsonState) (follow : JsonState → JsonStep)
      → c ≡ n + 2
      → st.ed ≤ length st.nesting
      → end_of path c i (inside n e st) follow
        ≡ check_ret path i (record st { expecting = e }) (follow (record st { expecting = e }))
  unfolding end_of
  end_inside n c i e st follow same h =
      let deeper = above (inside n e st) (omega arith) in
      let match : (c == n + 2) ≡ true = ground arith in rw (deeper, end_of, match) refl

  -- The closing bracket of a value that has begun in the state st.
  module _ (rest : Bytes) (i : ℕ) (st : JsonState) (h : st.ed ≤ length st.nesting) where
    not_found_here :
        (e : Expecting) (x : JsonStep)
        → (is_found path st ≡ false → stepped path rest i x ≡ ended path i st rest)
        → stepped path rest i (check_ret path i (record st { expecting = e }) x)
          ≡ ended path i st rest
    unfolding ended is_found
    not_found_here e x k =
        stepped-check_ret path rest i i (record st { expecting = e }) x (ended path i st rest) k
        ∙ if_twice (is_found path st) _ _

    after_nothing :
        (e : Expecting)
        → stepped path rest i (after_value path 0 i (record st { expecting = e }))
          ≡ ended path i st rest
    unfolding ended
    after_nothing e =
        stepped-after_value path [] rest i (record st { expecting = e })
        ∙ ap (λ k. ended path k st rest) (omega arith)

    value_closes :
        value_byte path b']' rest i (inside b'[' s_value st)
        ≡ check_ret path i
            (record st { expecting = s_value })
            (after_value path 0 i (record st { expecting = s_value }))
    unfolding value_byte
    value_closes =
        let deep : ltb 0 (suc (length st.nesting)) ≡ true = ground arith in
        rw deep (end_inside b'[' b']' i s_value st (after_value path 0 i) refl h)

    pub close_empty :
        json_run path (b']' ∷ rest) 0 i (inside b'[' s_value st) ≡ ended path i st rest
    unfolding is_space
    close_empty =
        run_value path b']' rest i (inside b'[' s_value st) refl
        ∙ ap (λ x. stepped path rest i (value_byte path b']' rest i x))
            (marked_above i (inside b'[' s_value st) (omega arith))
        ∙ ap (stepped path rest i) value_closes
        ∙ not_found_here s_value _ (λ _. after_nothing s_value)

    key_closes :
        json_step path b'}' rest i (inside b'{' s_key st)
        ≡ check_ret path i
            (record st { expecting = s_key })
            (next 0 (count_value (record st { expecting = s_comma_or_eoo })))
    unfolding json_step is_space on_key
    key_closes =
        end_inside b'{' b'}' i s_key st
          (λ st'. next 0 (count_value (record st' { expecting = s_comma_or_eoo }))) refl h

    counts_here :
        (e : Expecting)
        → e ≡ s_comma_or_eoo
        → is_found path st ≡ false
        → stepped path rest i (next 0 (count_value (record st { expecting = e })))
          ≡ ended path i st rest
    unfolding ended count_value
    counts_here e same f = rw (same, f, ended) refl

    pub close_members_empty :
        json_run path (b'}' ∷ rest) 0 i (inside b'{' s_key st) ≡ ended path i st rest
    close_members_empty =
        run_byte path b'}' rest i (inside b'{' s_key st)
        ∙ ap (stepped path rest i) key_closes
        ∙ not_found_here s_key _ (counts_here s_comma_or_eoo refl)

    comma_closes :
        (n c : ℕ)
        → c ≡ n + 2
        → (c == b']' || c == b'}') ≡ true
        → (c == b',') ≡ false
        → on_comma path c i (inside n s_comma_or_eoo st)
          ≡ check_ret path i
              (record st { expecting = s_comma_or_eoo })
              (next 0 (count_value (record st { expecting = s_comma_or_eoo })))
    unfolding on_comma
    comma_closes n c same closing other =
        let deeper = above (inside n s_comma_or_eoo st) (omega arith) in
        let match : (c == n + 2) ≡ true = equal_test c (n + 2) same in
        rw (other, on_comma, closing, deeper, match) refl

    comma_step :
        (n c : ℕ)
        → c ≡ n + 2
        → (c == b']' || c == b'}') ≡ true
        → (c == b',') ≡ false
        → is_space path c ≡ false
        → json_step path c rest i (inside n s_comma_or_eoo st)
          ≡ check_ret path i
              (record st { expecting = s_comma_or_eoo })
              (next 0 (count_value (record st { expecting = s_comma_or_eoo })))
    unfolding json_step
    comma_step n c same closing other dark =
        rw (dark, json_step) (comma_closes n c same closing other)

    pub close_comma :
        (n c : ℕ)
        → c ≡ n + 2
        → (c == b']' || c == b'}') ≡ true
        → (c == b',') ≡ false
        → is_space path c ≡ false
        → json_run path (c ∷ rest) 0 i (inside n s_comma_or_eoo st) ≡ ended path i st rest
    close_comma n c same closing other dark =
        run_byte path c rest i (inside n s_comma_or_eoo st)
        ∙ ap (stepped path rest i) (comma_step n c same closing other dark)
        ∙ not_found_here s_comma_or_eoo _ (counts_here s_comma_or_eoo refl)

  -- A comma, and what is expected behind it.
  pub run_comma :
      (n : ℕ) (e : Expecting) (s : Bytes) (i : ℕ) (st : JsonState)
      → (if n == b'{' then s_key else s_value) ≡ e
      → json_run path (b',' ∷ s) 0 i (inside n s_comma_or_eoo st)
        ≡ json_run path s 0 (i + 1) (inside n e st)
  unfolding json_step is_space on_comma
  run_comma n e s i st h =
      run_byte path b',' s i (inside n s_comma_or_eoo st)
      ∙ ap (λ x. json_run path s 0 (i + 1) (inside n x st)) h

  pub run_colon :
      (s : Bytes) (i : ℕ) (st : JsonState)
      → json_run path (b':' ∷ s) 0 i (record st { expecting = s_colon })
        ≡ json_run path s 0 (i + 1) (waiting path st)
  unfolding json_step is_space on_colon
  run_colon s i st = run_byte path b':' s i (record st { expecting = s_colon })

  -- A key below the depth that the path has reached.
  key_step :
      (k s : Bytes) (i : ℕ) (st : JsonState)
      → IsBody k
      → st.ed < length st.nesting
      → on_key path b'"' ((k ++ b'"' ∷ []) ++ s) i (record st { expecting = s_key })
        ≡ next (length (k ++ b'"' ∷ [])) (record st { expecting = s_colon })
  unfolding on_key
  key_step k s i st h lt =
      let ends = pass_string-append (k ++ b'"' ∷ []) s (length k) h in
      let size : length (k ++ b'"' ∷ []) ≡ length k + 1 =
        omega (arith, length-append k (b'"' ∷ [])) in
      let deeper = above st lt in
      let room : leb (length ((k ++ b'"' ∷ []) ++ s)) (length k) ≡ false =
        leb_not _ _ (omega (arith, length-append (k ++ b'"' ∷ []) s, size)) in
      let below : ltb (length st.nesting) st.ed ≡ false = ltb_not _ _ (omega arith) in
      rw (ends, on_key, size, room, below, deeper) refl

  pub run_key :
      (k s : Bytes) (i : ℕ) (st : JsonState)
      → IsBody k
      → st.ed < length st.nesting
      → json_run path (quote k s) 0 i (record st { expecting = s_key })
        ≡ json_run path s 0 (i + 1 + length (k ++ b'"' ∷ [])) (record st { expecting = s_colon })
  unfolding json_step is_space
  run_key k s i st h lt =
      ap (λ x. json_run path (b'"' ∷ x) 0 i (record st { expecting = s_key }))
        (sym (append_assoc k (b'"' ∷ []) s))
      ∙ run_byte path b'"' ((k ++ b'"' ∷ []) ++ s) i (record st { expecting = s_key })
      ∙ ap (stepped path ((k ++ b'"' ∷ []) ++ s) i) (key_step k s i st h lt)
      ∙ run_passed path (k ++ b'"' ∷ []) s (i + 1) (record st { expecting = s_colon })
