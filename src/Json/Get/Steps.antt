-- ===== src/Json/Get/Steps.antt =====
-- json.cpp, `json_get`: a key, a comma and a value that is passed over.
use nanosrv.Common.{
  ℕ, ◌+◌, ◌<◌, Bool, true, false, ◌&&◌, [], ◌∷◌, ◌++◌, ◌≡◌, refl, sym, ap, ◌∙◌, arith, Bytes, ◌==◌,
  if◌then◌else◌, length, length-append, append_assoc,
}
use mathlib.Core.Path.{subst}
use nanosrv.Json.Lexer.Stops.{Stops}
use nanosrv.Json.Syntax.{Json, print, quote, IsBody, IsJson}
use nanosrv.Json.Get.{
  ℤ, pos, negsuc, is_equal, minus_one, next_index, JsonState, at_depth, is_found, json_run,
  head_or_zero, count_value, s_value, s_key, s_colon, s_comma_or_eoo, next, Expecting, on_comma,
  json_step, is_space,
}
use nanosrv.Json.Get.Reads.{ended, marked, IsPassive, waiting, stepped, run_byte, run_passed}
use nanosrv.Json.Get.Below.{print_pos, run_colon}
use nanosrv.Json.Get.Values.{reads_value}
use nanosrv.Json.Get.Places.{first_at, AtKey, level, key_at}
use nanosrv.Json.Get.Paths.{ends_key, IsPlain, bytes_equal}

plain_facts :
    (c : ℕ)
    → ends_key c ≡ false
    → ((c == 0) ≡ false) × ((c == b'.') ≡ false) × ((c == b'[') ≡ false)
unfolding ends_key
plain_facts c h = ground arith

still :
    (b : Bool) (ci ei : ℤ)
    → ei ≡ minus_one
    → (if b && (elim ei [ pos n ↦ true | negsuc n ↦ false ]) then next_index ci else ci) ≡ ci
still true ci (pos n) e = absurd (cc e)
still false ci ei e = refl
still true ci (negsuc n) e = refl

module _ (path : Bytes) where
  pub run_member :
      (k k' x s : Bytes) (i : ℕ) (b : Bool) (st : JsonState)
      → AtKey path k x st
      → IsPlain k
      → IsPlain k'
      → ends_key (head_or_zero x) ≡ true
      → IsBody k'
      → bytes_equal k k' ≡ b
      → json_run path (quote k' (b':' ∷ s)) 0 i (record st { expecting = s_key })
        ≡ json_run path s 0
            (i + length (quote k' (b':' ∷ [])))
            (waiting path (if b then record st { place = st.place + length k' } else st))
  unfolding json_step is_space
  run_member k k' x s i b st q h h' e body test =
      let st' = if b then record st { place = st.place + length k' } else st in
      let size : length (k' ++ b'"' ∷ []) ≡ length k' + 1 =
        omega (arith, length-append k' (b'"' ∷ [])) in
      run_byte path b'"' (k' ++ b'"' ∷ b':' ∷ s) i (record st { expecting = s_key })
      ∙ ap (stepped path (k' ++ b'"' ∷ b':' ∷ s) i)
          (key_at path k k' x (b':' ∷ s) i b st q h h' e body test)
      ∙ ap (λ y. json_run path y (length k' + 1) (i + 1) (record st' { expecting = s_colon }))
          (sym (append_assoc k' (b'"' ∷ []) (b':' ∷ s)))
      ∙ ap
          (λ n.
            json_run path ((k' ++ b'"' ∷ []) ++ b':' ∷ s) n (i + 1)
              (record st' { expecting = s_colon }))
          (sym size)
      ∙ run_passed path (k' ++ b'"' ∷ []) (b':' ∷ s) (i + 1) (record st' { expecting = s_colon })
      ∙ run_colon path s (i + 1 + length (k' ++ b'"' ∷ [])) st'
      ∙ ap (λ n. json_run path s 0 n (waiting path st'))
          (omega (arith, size, length-append k' (b'"' ∷ b':' ∷ [])))

  pub run_comma_at :
      (n : ℕ) (inner : Bytes) (e : Expecting) (s : Bytes) (i : ℕ) (st : JsonState)
      → st.nesting ≡ n ∷ inner
      → (if n == b'{' then s_key else s_value) ≡ e
      → json_run path (b',' ∷ s) 0 i (record st { expecting = s_comma_or_eoo })
        ≡ json_run path s 0 (i + 1) (record st { expecting = e })
  unfolding json_step is_space on_comma
  run_comma_at n inner e s i st h f =
      run_byte path b',' s i (record st { expecting = s_comma_or_eoo })
      ∙ ap (stepped path s i) (comma h f)
    where
      comma :
          st.nesting ≡ n ∷ inner
          → (if n == b'{' then s_key else s_value) ≡ e
          → on_comma path b',' i (record st { expecting = s_comma_or_eoo })
            ≡ next 0 (record st { expecting = e })
      comma h f =
          subst
            (λ ns.
              on_comma path b',' i (record st { expecting = s_comma_or_eoo; nesting = ns })
              ≡ next 0 (record st { expecting = e; nesting = ns }))
            (sym h) (ap (λ y. next 0 (record st { expecting = y; nesting = n ∷ inner })) f)

  -- A value that is passed over.
  pub skips :
      (u : Json) (rest : Bytes) (i : ℕ) (st : JsonState)
      → IsJson (length st.nesting) u
      → Stops rest
      → st.ed ≡ length st.nesting
      → IsPassive path st
      → is_found path st ≡ false
      → json_run path (print u ++ rest) 0 i (waiting path st)
        ≡ json_run path rest 0
            (i + length (print u))
            (record (count_value (marked path i st)) { expecting = s_comma_or_eoo })
  unfolding ended is_found marked
  skips u rest i st h stops d q f =
      reads_value path u rest i st h stops (omega arith) q
      ∙ rw (f, ended)
          (ap
            (λ n.
              json_run path rest 0 n
                (record (count_value (marked path i st)) { expecting = s_comma_or_eoo }))
            (omega (arith, print_pos path (length st.nesting) u h)))

  pub keeps_key :
      (k x : Bytes) (i : ℕ) (st : JsonState)
      → AtKey path k x st
      → AtKey path k x (count_value (marked path i st))
  unfolding count_value marked at_depth
  keeps_key k x i st q = record {
    inner = q.inner;
    brackets = q.brackets;
    deep = q.deep;
    alike = ap (λ c. is_equal c st.ei) (still (at_depth st) st.ci st.ei q.fresh) ∙ q.alike;
    fresh = q.fresh;
    dot = q.dot;
    here = q.here;
  }

  plain_head : (k x : Bytes) → IsPlain k → 0 < length k → ends_key (head_or_zero (k ++ x)) ≡ false
  unfolding head_or_zero
  plain_head [] x h p = absurd (omega (arith, p))
  plain_head (c ∷ k) x h p = h.0

  -- No path is entered at the value of another key, and it is not the one that is found.
  pub other_member :
      (k x : Bytes) (i : ℕ) (st : JsonState)
      → AtKey path k x st
      → IsPlain k
      → 0 < length k
      → IsPassive path st × (is_found path st ≡ false)
  unfolding is_found
  other_member k x i st q h p =
      let at = level path st q.deep in
      let e = plain_head k x h p in
      let f = plain_facts (head_or_zero (k ++ x)) e in
      let here = first_at path (k ++ x) st.place q.here in
      (
        record { no_object = rw (at, here, f.1) refl; no_array = rw (at, here, f.2) refl },
        rw (at, here, f.0, is_found) refl,
      )
