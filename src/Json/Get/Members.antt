-- ===== src/Json/Get/Members.antt =====
-- json.cpp, `json_get`: the member of an object that a path names.
use nanosrv.Common.{
  ℕ, ◌+◌, ◌<◌, true, false, some, List, [], ◌∷◌, ◌++◌, ◌≡◌, inl, inr, refl, sym, ap, ◌∙◌, Bytes,
  if◌then◌else◌, length, append_assoc, drop, All, Bool-cases,
}
use nanosrv.Json.Lexer.Stops.{Stops}
use nanosrv.Json.Syntax.{
  Json, Members, no_members, member, print, print_members, quote, IsBody, IsJson, AreMembers,
}
use nanosrv.Json.Get.{is_equal, JsonState, is_found, json_run, count_value, s_key, s_comma_or_eoo}
use nanosrv.Json.Get.Reads.{marked, waiting}
use nanosrv.Json.Get.Values.{quote-append, members_stop}
use nanosrv.Json.Get.Places.{
  drop_on, spell_ends, bytes_equal_lem, Finds, moved_behind, moved_before, moved_as, AtKey,
}
use nanosrv.Json.Get.Paths.{
  PathStep, spell, IsPlain, IsStep, bytes_equal, find_member, resolve, HasPlainKeys,
  MembersHavePlainKeys,
}
use nanosrv.Json.Get.Steps.{run_member, run_comma_at, skips, keeps_key, other_member}

module _ (path : Bytes) where
  module _ (w : Json) (ss : List PathStep) where
    abbrev pub Descends : Json → Type 0
    Descends v =
        (rest : Bytes) (i : ℕ) (st : JsonState)
        → IsJson (length st.nesting) v
        → HasPlainKeys v
        → All IsStep ss
        → resolve ss v ≡ some w
        → Stops rest
        → st.ed ≡ length st.nesting
        → is_equal st.ci st.ei ≡ true
        → drop st.place path ≡ spell ss
        → Finds w (print v) i (json_run path (print v ++ rest) 0 i (waiting path st))

    module _ (ih : (v : Json) → Descends v) (steps : All IsStep ss) where
      matched_member :
          (k k' : Bytes) (u : Json) (more rest : Bytes) (i : ℕ) (st : JsonState)
          → AtKey path k (spell ss) st
          → IsPlain k
          → IsPlain k'
          → IsBody k'
          → bytes_equal k k' ≡ true
          → IsJson (length st.nesting) u
          → HasPlainKeys u
          → resolve ss u ≡ some w
          → Stops (more ++ rest)
          → Finds w (quote k' (b':' ∷ (print u ++ more))) i (
              json_run path
                (quote k' (b':' ∷ (print u ++ (more ++ rest))))
                0
                i
                (record st { expecting = s_key }))
      matched_member k k' u more rest i st q h h' body same ok plain found stops =
          let st' = record st { place = st.place + length k' } in
          let head = quote k' (b':' ∷ []) in
          let size : length k' ≡ length k = ap length (sym (bytes_equal_lem k k' same)) in
          let at : drop (st.place + length k') path ≡ spell ss =
            ap (λ n. drop (st.place + n) path) size ∙ drop_on path k (spell ss) st.place q.here in
          let inner =
            ih u (more ++ rest) (i + length head) st' ok plain steps found stops q.deep q.alike
              at in
          let text =
            moved_behind w head (print u ++ more) i _
              (moved_before w (print u) more (i + length head) _ inner) in
          moved_as w _ _ i _ _
            (ap (λ y. b'"' ∷ y) (sym (append_assoc k' (b'"' ∷ b':' ∷ []) (print u ++ more))))
            (run_member path k k' (spell ss) (print u ++ (more ++ rest)) i true st q h h'
              (spell_ends ss) body same)
            text

      abbrev InMembers : Bytes → Members → Type 0
      InMembers k ms =
          (rest : Bytes) (i : ℕ) (st : JsonState) (v : Json)
          → AtKey path k (spell ss) st
          → AreMembers (length st.nesting) ms
          → MembersHavePlainKeys ms
          → find_member k ms ≡ some v
          → resolve ss v ≡ some w
          → Finds w (print_members ms false) i (
              json_run path (print_members ms false ++ b'}' ∷ rest) 0 i
                (record st { expecting = s_comma_or_eoo }))

      skipped_member :
          (k k' : Bytes) (u : Json) (ms : Members)
          → InMembers k ms
          → (rest : Bytes) (i : ℕ) (st : JsonState) (v : Json) → AtKey path k (spell ss) st
          → IsPlain k
          → 0 < length k
          → IsPlain k'
          → IsBody k'
          → bytes_equal k k' ≡ false
          → IsJson (length st.nesting) u
          → AreMembers (length st.nesting) ms
          → MembersHavePlainKeys ms
          → find_member k ms ≡ some v
          → resolve ss v ≡ some w
          → Finds w (quote k' (b':' ∷ (print u ++ print_members ms false))) i (
              json_run path
                (quote k' (b':' ∷ (print u ++ (print_members ms false ++ b'}' ∷ rest))))
                0
                i
                (record st { expecting = s_key }))
      skipped_member k k' u ms on rest i st v q h p h' body other ok oks plain found goes =
          let more = print_members ms false in
          let head = quote k' (b':' ∷ []) in
          let at = i + length head in
          let pass = other_member path k (spell ss) at st q h p in
          let inner =
            on rest (at + length (print u)) (count_value (marked path at st)) v
              (keeps_key path k (spell ss) at st q) (unfold marked count_value in oks) plain found
              goes in
          let run =
            run_member path k k' (spell ss) (print u ++ (more ++ b'}' ∷ rest)) i false st q h h'
              (spell_ends ss) body other
            ∙ skips path u (more ++ b'}' ∷ rest) at st ok (members_stop path ms rest) q.deep pass.0
                (unfold marked is_found in pass.1) in
          let text =
            moved_behind w head (print u ++ more) i _ (moved_behind w (print u) more at _ inner) in
          moved_as w _ _ i _ _
            (ap (λ y. b'"' ∷ y) (sym (append_assoc k' (b'"' ∷ b':' ∷ []) (print u ++ more)))) run
            text

      -- One member, without the comma in front of it.
      one_member :
          (k k' : Bytes) (u : Json) (ms : Members)
          → InMembers k ms
          → (rest : Bytes) (i : ℕ) (st : JsonState) (v : Json) → AtKey path k (spell ss) st
          → IsPlain k
          → 0 < length k
          → AreMembers (length st.nesting) (member k' u ms)
          → MembersHavePlainKeys (member k' u ms)
          → find_member k (member k' u ms) ≡ some v
          → resolve ss v ≡ some w
          → Finds w (quote k' (b':' ∷ (print u ++ print_members ms false))) i (
              json_run path
                (quote k' (b':' ∷ (print u ++ print_members ms false)) ++ b'}' ∷ rest)
                0
                i
                (record st { expecting = s_key }))
      unfolding AreMembers MembersHavePlainKeys find_member
      one_member k k' u ms on rest i st v q h p ok plain found goes =
          let more = print_members ms false in
          let spread =
            ap (λ y. json_run path y 0 i (record st { expecting = s_key }))
              (quote-append k' (print u) more (b'}' ∷ rest)) in
          moved_as w _ _ i _ _ refl spread (elim (Bool-cases (bytes_equal k k')) [
            | inl t ↦
                matched_member k k' u more (b'}' ∷ rest) i st q h plain.0 ok.0 t ok.1 plain.1
                  (rw (taken u v t found) goes) (members_stop path ms rest)
            | inr f ↦
                skipped_member k k' u ms on rest i st v q h p plain.0 ok.0 f ok.1 ok.2 plain.2
                  (rw f at found) goes
          ])
        where
          taken :
              (u v : Json)
              → bytes_equal k k' ≡ true
              → (if bytes_equal k k' then some u else find_member k ms) ≡ some v
              → u ≡ v
          taken u v t e = cc (rw t at e)

      in_members : (k : Bytes) (ms : Members) → IsPlain k → 0 < length k → InMembers k ms
      unfolding find_member print_members
      in_members k no_members h p rest i st v q ok plain found goes = absurd (cc found)
      in_members k (member k' u ms) h p rest i st v q ok plain found goes =
          let s = quote k' (b':' ∷ (print u ++ print_members ms false)) in
          let inner =
            one_member k k' u ms (in_members k ms h p) rest (i + 1) st v q h p ok plain found
              goes in
          moved_as w _ _ i _ _ refl
            (run_comma_at path b'{' q.inner s_key (s ++ b'}' ∷ rest) i st q.brackets refl)
            (moved_behind w (b',' ∷ []) s i _ inner)

      pub first_member :
          (k : Bytes) (ms : Members)
          → IsPlain k
          → 0 < length k
          → (rest : Bytes) (i : ℕ) (st : JsonState) (v : Json) → AtKey path k (spell ss) st
          → AreMembers (length st.nesting) ms
          → MembersHavePlainKeys ms
          → find_member k ms ≡ some v
          → resolve ss v ≡ some w
          → Finds w (print_members ms true) i (
              json_run path
                (print_members ms true ++ b'}' ∷ rest)
                0
                i
                (record st { expecting = s_key }))
      unfolding find_member print_members
      first_member k no_members h p rest i st v q ok plain found goes = absurd (cc found)
      first_member k (member k' u ms) h p rest i st v q ok plain found goes =
          one_member k k' u ms (in_members k ms h p) rest i st v q h p ok plain found goes
