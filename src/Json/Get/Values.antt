-- ===== src/Json/Get/Values.antt =====
-- json.cpp, `json_get`: what the state machine does at the text of a whole value, arrays and objects
-- included.
use nanosrv.Common.{
  ℕ, suc, ◌+◌, ◌≤◌, ◌<◌, Bool, true, false, [], ◌∷◌, ◌++◌, ◌≡◌, refl, ap, ◌∙◌, arith, Bytes,
  if◌then◌else◌, length, length-append, append_assoc,
}
use nanosrv.Json.Lexer.Stops.{is_stop, Stops}
use nanosrv.Json.Syntax.{
  Json, Elems, Members, null, true_value, false_value, number, text, array, object, no_elems, elem,
  no_members, member, quote, print, print_elems, print_members, IsBody, IsJson, AreElems,
  AreMembers,
}
use nanosrv.Json.Get.{
  Expecting, s_value, s_key, s_comma_or_eoo, JsonState, next, at_depth, nested, path_at, value_byte,
  is_space, json_run,
}
use nanosrv.Json.Get.Reads.{
  stepped, ended, marked, IsPassive, ReadsValue, reads_null, reads_true, reads_false, reads_text,
  reads_number, waiting, not_entered_object, not_entered_array, run_value, leb_not,
}
use nanosrv.Json.Get.Below.{
  inside, run_colon, run_comma, run_key, inert, close_empty, close_members_empty, close_comma,
}

pub quote-append :
    (k v more rest : Bytes)
    → quote k (b':' ∷ (v ++ more)) ++ rest ≡ quote k (b':' ∷ (v ++ (more ++ rest)))
quote-append k v more rest =
    ap (λ x. b'"' ∷ x)
      (append_assoc k (b'"' ∷ b':' ∷ (v ++ more)) rest
        ∙ ap (λ x. k ++ b'"' ∷ b':' ∷ x) (append_assoc v more rest))

length-quote : (k rest : Bytes) → length (quote k rest) ≡ 1 + length (k ++ b'"' ∷ []) + length rest
length-quote k rest = omega (arith, length-append k (b'"' ∷ rest), length-append k (b'"' ∷ []))

module _ (path : Bytes) where
  unfoldable pub after_elems : Elems → Bool → Expecting
  after_elems no_elems first = if first then s_value else s_comma_or_eoo
  after_elems (elem v es) first = s_comma_or_eoo

  comma_after : (es : Elems) → after_elems es false ≡ s_comma_or_eoo
  unfolding after_elems
  comma_after no_elems = refl
  comma_after (elem v es) = refl

  unfoldable pub after_members : Members → Bool → Expecting
  after_members no_members first = if first then s_key else s_comma_or_eoo
  after_members (member k v ms) first = s_comma_or_eoo

  comma_behind : (ms : Members) → after_members ms false ≡ s_comma_or_eoo
  unfolding after_members
  comma_behind no_members = refl
  comma_behind (member k v ms) = refl

  abbrev ReadsElems : Elems → Type 0
  ReadsElems es =
      (first : Bool) (rest : Bytes) (i : ℕ) (st : JsonState)
      → AreElems (suc (length st.nesting)) es
      → st.ed ≤ length st.nesting
      → json_run path (print_elems es first ++ b']' ∷ rest) 0 i
          (inside path b'[' (if first then s_value else s_comma_or_eoo) st)
        ≡ json_run path (b']' ∷ rest) 0 (i + length (print_elems es first))
            (inside path b'[' (after_elems es first) st)

  abbrev ReadsMembers : Members → Type 0
  ReadsMembers ms =
      (first : Bool) (rest : Bytes) (i : ℕ) (st : JsonState)
      → AreMembers (suc (length st.nesting)) ms
      → st.ed ≤ length st.nesting
      → json_run path (print_members ms first ++ b'}' ∷ rest) 0 i
          (inside path b'{' (if first then s_key else s_comma_or_eoo) st)
        ≡ json_run path (b'}' ∷ rest) 0 (i + length (print_members ms first))
            (inside path b'{' (after_members ms first) st)

  pub elems_stop : (es : Elems) (rest : Bytes) → Stops (print_elems es false ++ b']' ∷ rest)
  unfolding print_elems is_stop
  elems_stop no_elems rest = refl
  elems_stop (elem v es) rest = refl

  pub members_stop : (ms : Members) (rest : Bytes) → Stops (print_members ms false ++ b'}' ∷ rest)
  unfolding print_members is_stop
  members_stop no_members rest = refl
  members_stop (member k v ms) rest = refl

  -- The first element of what is left, without the comma in front of it.
  reads_elem :
      (v : Json) (es : Elems)
      → ReadsValue path v
      → ReadsElems es
      → (rest : Bytes) (i : ℕ) (st : JsonState) → IsJson (suc (length st.nesting)) v
      → AreElems (suc (length st.nesting)) es
      → st.ed ≤ length st.nesting
      → json_run path
          ((print v ++ print_elems es false) ++ b']' ∷ rest)
          0
          i
          (inside path b'[' s_value st)
        ≡ json_run path
            (b']' ∷ rest)
            0
            (i + length (print v ++ print_elems es false))
            (inside path b'[' s_comma_or_eoo st)
  reads_elem v es reads ih rest i st h hs le =
      let more = print_elems es false in
      ap (λ x. json_run path x 0 i (inside path b'[' s_value st))
        (append_assoc (print v) more (b']' ∷ rest))
      ∙ inert path v reads (more ++ b']' ∷ rest) i (inside path b'[' s_value st) h
          (elems_stop es rest) (omega arith)
      ∙ ih false rest (i + length (print v)) st hs le
      ∙ ap (λ k. json_run path (b']' ∷ rest) 0 k (inside path b'[' (after_elems es false) st))
          (omega (arith, length-append (print v) more))
      ∙ ap
          (λ e.
            json_run path (b']' ∷ rest) 0 (i + length (print v ++ more)) (inside path b'[' e st))
          (comma_after es)

  reads_elems : (v : Json) (es : Elems) → ReadsValue path v → ReadsElems es → ReadsElems (elem v es)
  unfolding print_elems after_elems AreElems
  reads_elems v es reads ih true rest i st h le = reads_elem v es reads ih rest i st h.0 h.1 le
  reads_elems v es reads ih false rest i st h le =
      run_comma path b'[' s_value ((print v ++ print_elems es false) ++ b']' ∷ rest) i st refl
      ∙ reads_elem v es reads ih rest (i + 1) st h.0 h.1 le
      ∙ ap (λ k. json_run path (b']' ∷ rest) 0 k (inside path b'[' s_comma_or_eoo st)) (omega arith)

  reads_member :
      (k : Bytes) (v : Json) (ms : Members)
      → ReadsValue path v
      → ReadsMembers ms
      → (rest : Bytes) (i : ℕ) (st : JsonState) → IsBody k
      → IsJson (suc (length st.nesting)) v
      → AreMembers (suc (length st.nesting)) ms
      → st.ed ≤ length st.nesting
      → json_run path
          (quote k (b':' ∷ (print v ++ print_members ms false)) ++ b'}' ∷ rest)
          0
          i
          (inside path b'{' s_key st)
        ≡ json_run path
            (b'}' ∷ rest)
            0
            (i + length (quote k (b':' ∷ (print v ++ print_members ms false))))
            (inside path b'{' s_comma_or_eoo st)
  reads_member k v ms reads ih rest i st hk h hs le =
      let more = print_members ms false in
      let behind = b':' ∷ (print v ++ (more ++ b'}' ∷ rest)) in
      let at = i + 1 + length (k ++ b'"' ∷ []) in
      ap (λ x. json_run path x 0 i (inside path b'{' s_key st))
        (quote-append k (print v) more (b'}' ∷ rest))
      ∙ run_key path k behind i (inside path b'{' s_key st) hk (omega arith)
      ∙ run_colon path (print v ++ (more ++ b'}' ∷ rest)) at (inside path b'{' s_key st)
      ∙ inert path v reads (more ++ b'}' ∷ rest) (at + 1) (inside path b'{' s_value st) h
          (members_stop ms rest) (omega arith)
      ∙ ih false rest (at + 1 + length (print v)) st hs le
      ∙ ap (λ j. json_run path (b'}' ∷ rest) 0 j (inside path b'{' (after_members ms false) st))
          (omega (arith, length-quote k (b':' ∷ (print v ++ more)), length-append (print v) more))
      ∙ ap
          (λ e.
            json_run path (b'}' ∷ rest) 0 (i + length (quote k (b':' ∷ (print v ++ more))))
              (inside path b'{' e st))
          (comma_behind ms)

  reads_members :
      (k : Bytes) (v : Json) (ms : Members)
      → ReadsValue path v
      → ReadsMembers ms
      → ReadsMembers (member k v ms)
  unfolding print_members after_members AreMembers
  reads_members k v ms reads ih true rest i st h le =
      reads_member k v ms reads ih rest i st h.0 h.1 h.2 le
  reads_members k v ms reads ih false rest i st h le =
      run_comma path b'{' s_key
        (quote k (b':' ∷ (print v ++ print_members ms false)) ++ b'}' ∷ rest) i st refl
      ∙ reads_member k v ms reads ih rest (i + 1) st h.0 h.1 h.2 le
      ∙ ap (λ j. json_run path (b'}' ∷ rest) 0 j (inside path b'{' s_comma_or_eoo st)) (omega arith)

  no_elems_read : ReadsElems no_elems
  unfolding print_elems after_elems
  no_elems_read first rest i st h le =
      ap
        (λ j.
          json_run path (b']' ∷ rest) 0 j
            (inside path b'[' (if first then s_value else s_comma_or_eoo) st))
        (omega arith)

  no_members_read : ReadsMembers no_members
  unfolding print_members after_members
  no_members_read first rest i st h le =
      ap
        (λ j.
          json_run path (b'}' ∷ rest) 0 j
            (inside path b'{' (if first then s_key else s_comma_or_eoo) st))
        (omega arith)

  close_elems :
      (es : Elems) (first : Bool) (rest : Bytes) (i : ℕ) (st : JsonState)
      → st.ed ≤ length st.nesting
      → json_run path (b']' ∷ rest) 0 i (inside path b'[' (after_elems es first) st)
        ≡ ended path i st rest
  unfolding after_elems is_space
  close_elems no_elems true rest i st h = close_empty path rest i st h
  close_elems no_elems false rest i st h =
      close_comma path rest i st h b'[' b']' refl refl refl refl
  close_elems (elem v es) first rest i st h =
      close_comma path rest i st h b'[' b']' refl refl refl refl

  close_members :
      (ms : Members) (first : Bool) (rest : Bytes) (i : ℕ) (st : JsonState)
      → st.ed ≤ length st.nesting
      → json_run path (b'}' ∷ rest) 0 i (inside path b'{' (after_members ms first) st)
        ≡ ended path i st rest
  unfolding after_members is_space
  close_members no_members true rest i st h = close_members_empty path rest i st h
  close_members no_members false rest i st h =
      close_comma path rest i st h b'{' b'}' refl refl refl refl
  close_members (member k v ms) first rest i st h =
      close_comma path rest i st h b'{' b'}' refl refl refl refl

  marked-IsPassive :
      (i : ℕ) (st : JsonState)
      → IsPassive path st
      → IsPassive path (marked path i (waiting path st))
  unfolding marked at_depth path_at
  marked-IsPassive i st q = record { no_object = q.no_object; no_array = q.no_array }

  opens_array :
      (s : Bytes) (i : ℕ) (st : JsonState)
      → length st.nesting < 30
      → IsPassive path st
      → value_byte path b'[' s i (marked path i (waiting path st))
        ≡ next 0 (inside path b'[' s_value (marked path i st))
  unfolding value_byte marked nested
  opens_array s i st h q =
      rw (leb_not 30 (length st.nesting) h, value_byte)
        (ap (λ x. next 0 (nested b'[' x))
          (not_entered_array path (marked path i (waiting path st)) (marked-IsPassive i st q)))

  opens_object :
      (s : Bytes) (i : ℕ) (st : JsonState)
      → length st.nesting < 30
      → IsPassive path st
      → value_byte path b'{' s i (marked path i (waiting path st))
        ≡ next 0 (inside path b'{' s_key (marked path i st))
  unfolding value_byte marked nested
  opens_object s i st h q =
      rw (leb_not 30 (length st.nesting) h, value_byte)
        (ap (λ x. next 0 (record (nested b'{' x) { expecting = s_key }))
          (not_entered_object path (marked path i (waiting path st)) (marked-IsPassive i st q)))

  reads_array : (es : Elems) → ReadsElems es → ReadsValue path (array es)
  unfolding print IsJson is_space
  reads_array es ih rest i st h stops le q =
      let items = print_elems es true in
      let st' = marked path i st in
      let le' : st'.ed ≤ length st'.nesting = unfold marked in le in
      ap (λ x. json_run path (b'[' ∷ x) 0 i (waiting path st)) (append_assoc items (b']' ∷ []) rest)
      ∙ run_value path b'[' (items ++ b']' ∷ rest) i st refl
      ∙ ap (stepped path (items ++ b']' ∷ rest) i) (opens_array (items ++ b']' ∷ rest) i st h.0 q)
      ∙ ih true rest (i + 1) st' (unfold marked in h.1) le'
      ∙ close_elems es true rest (i + 1 + length items) st' le'
      ∙ ap (λ k. ended path k st' rest) (omega (arith, length-append items (b']' ∷ [])))

  reads_object : (ms : Members) → ReadsMembers ms → ReadsValue path (object ms)
  unfolding print IsJson is_space
  reads_object ms ih rest i st h stops le q =
      let items = print_members ms true in
      let st' = marked path i st in
      let le' : st'.ed ≤ length st'.nesting = unfold marked in le in
      ap (λ x. json_run path (b'{' ∷ x) 0 i (waiting path st)) (append_assoc items (b'}' ∷ []) rest)
      ∙ run_value path b'{' (items ++ b'}' ∷ rest) i st refl
      ∙ ap (stepped path (items ++ b'}' ∷ rest) i) (opens_object (items ++ b'}' ∷ rest) i st h.0 q)
      ∙ ih true rest (i + 1) st' (unfold marked in h.1) le'
      ∙ close_members ms true rest (i + 1 + length items) st' le'
      ∙ ap (λ k. ended path k st' rest) (omega (arith, length-append items (b'}' ∷ [])))

  -- What `json_get` comes to at the text of a value, wherever it stands.
  pub reads_value : (v : Json) → ReadsValue path v
  reads_value v = elim v as (ReadsValue path) ReadsElems ReadsMembers [
    | null ↦ reads_null path
    | true_value ↦ reads_true path
    | false_value ↦ reads_false path
    | number t ↦ reads_number path t
    | text s ↦ reads_text path s
    | array (es → ih) ↦ reads_array es ih
    | object (ms → ih) ↦ reads_object ms ih
    | no_elems ↦ no_elems_read
    | elem (v → r) (es → ih) ↦ reads_elems v es r ih
    | no_members ↦ no_members_read
    | member k (v → r) (ms → ih) ↦ reads_members k v ms r ih
  ]
