-- ===== src/Json/Get/Indices.antt =====
-- json.cpp, `json_get`: the element of an array that a path names.
use nanosrv.Common.{
  ℕ, zero, suc, ◌+◌, Bool, true, false, ◌&&◌, some, List, [], ◌∷◌, ◌++◌, ◌≡◌, inl, inr, refl, ap,
  ◌∙◌, arith, Bytes, ◌==◌, length, append_assoc, drop, All, Bool-cases,
}
use nanosrv.Json.Syntax.{Json, Elems, no_elems, elem, print, print_elems, AreElems}
use nanosrv.Json.Get.{
  pos, is_equal, next_index, next_index, JsonState, at_depth, path_at, is_found, json_run,
  count_value, s_value, s_comma_or_eoo,
}
use nanosrv.Json.Get.Reads.{marked, IsPassive}
use nanosrv.Json.Get.Values.{elems_stop}
use nanosrv.Json.Get.Places.{Finds, moved_behind, moved_before, moved_as, level}
use nanosrv.Json.Get.Steps.{run_comma_at, skips}
use nanosrv.Json.Get.Members.{Descends}
use nanosrv.Json.Get.Paths.{PathStep, spell, IsStep, find_elem, resolve, ElemsHavePlainKeys}

module _ (path : Bytes) where
  -- The element m of an array is expected, at the depth that the path has reached; the path names the one n further.
  pub record AtElem (m n : ℕ) (x : Bytes) (st : JsonState) : Type 0 where
    pub inner : Bytes
    pub brackets : st.nesting ≡ b'[' ∷ inner
    pub deep : st.ed ≡ length st.nesting
    pub current : st.ci ≡ pos m
    pub wanted : st.ei ≡ pos (m + n)
    pub here : drop st.place path ≡ x

  reaches : (m n : ℕ) → is_equal (pos m) (pos (m + n)) ≡ (n == 0)
  unfolding is_equal
  reaches m n = ground arith

  reaches_sym : (m n : ℕ) → is_equal (pos (m + n)) (pos m) ≡ (n == 0)
  unfolding is_equal
  reaches_sym m n = ground arith

  keeps_elem :
      (m n : ℕ) (x : Bytes) (i : ℕ) (st : JsonState)
      → AtElem m (suc n) x st
      → AtElem (m + 1) n x (count_value (marked path i st))
  unfolding count_value marked at_depth next_index
  keeps_elem m n x i st q = record {
    inner = q.inner;
    brackets = q.brackets;
    deep = q.deep;
    current =
        let at : (length st.nesting == st.ed) ≡ true = level path st q.deep in
        rw (at, q.wanted, q.current) refl;
    wanted = q.wanted ∙ ap pos (omega arith);
    here = q.here;
  }

  other_elem :
      (m n : ℕ) (x : Bytes) (st : JsonState)
      → AtElem m (suc n) x st
      → IsPassive path st × (is_found path st ≡ false)
  unfolding is_found
  other_elem m n x st q =
      let far = (let e : (suc n == 0) ≡ false = ground arith in e) in
      let there = reaches m (suc n) ∙ far in
      let back = reaches_sym m (suc n) ∙ far in
      let no : (b : Bool) → (b && false) ≡ false =
        λ b. elim (Bool-cases b) [ inl t ↦ rw t refl | inr t ↦ rw t refl ] in
      let never : (a b : Bool) → (a && b && false) ≡ false =
        λ a b. elim (Bool-cases a) [ inl t ↦ rw t (no b) | inr t ↦ rw t refl ] in
      (
        record {
          no_object =
              rw (q.wanted, q.current, there) (never (at_depth st) (path_at path st.place == b'.'));
          no_array =
              rw (q.wanted, q.current, back) (never (at_depth st) (path_at path st.place == b'['));
        },
        rw (q.wanted, q.current, there, is_found)
            (never (at_depth st) (path_at path st.place == 0)),
      )

  module _ (w : Json) (ss : List PathStep) (ih : (v : Json) → Descends path w ss v)
      (steps : All IsStep ss) where
    abbrev InElems : Elems → Type 0
    InElems es =
        (m n : ℕ) (rest : Bytes) (i : ℕ) (st : JsonState) (v : Json)
        → AtElem m n (spell ss) st
        → AreElems (length st.nesting) es
        → ElemsHavePlainKeys es
        → find_elem n es ≡ some v
        → resolve ss v ≡ some w
        → Finds w (print_elems es false) i (
            json_run path (print_elems es false ++ b']' ∷ rest) 0 i
              (record st { expecting = s_comma_or_eoo }))

    one_elem :
        (u : Json) (es : Elems)
        → InElems es
        → (m n : ℕ) (rest : Bytes) (i : ℕ) (st : JsonState) (v : Json) → AtElem m n (spell ss) st
        → AreElems (length st.nesting) (elem u es)
        → ElemsHavePlainKeys (elem u es)
        → find_elem n (elem u es) ≡ some v
        → resolve ss v ≡ some w
        → Finds w (print u ++ print_elems es false) i (
            json_run path
              ((print u ++ print_elems es false) ++ b']' ∷ rest)
              0
              i
              (record st { expecting = s_value }))
    unfolding AreElems ElemsHavePlainKeys find_elem
    one_elem u es on m zero rest i st v q ok plain found goes =
        let more = print_elems es false in
        let spread =
          ap (λ y. json_run path y 0 i (record st { expecting = s_value }))
            (append_assoc (print u) more (b']' ∷ rest)) in
        let same : u ≡ v = cc found in
        let alike : is_equal st.ci st.ei ≡ true = rw (q.current, q.wanted) (reaches m 0) in
        moved_as w _ _ i _ _ refl spread (
          moved_before w (print u) more i _ (
            ih u (more ++ b']' ∷ rest) i st ok.0 plain.0 steps (rw same goes)
              (elems_stop path es rest) q.deep alike q.here))
    one_elem u es on m (suc n) rest i st v q ok plain found goes =
        let more = print_elems es false in
        let spread =
          ap (λ y. json_run path y 0 i (record st { expecting = s_value }))
            (append_assoc (print u) more (b']' ∷ rest)) in
        let pass = other_elem m n (spell ss) st q in
        let inner =
          on (m + 1) n rest (i + length (print u)) (count_value (marked path i st)) v
            (keeps_elem m n (spell ss) i st q) (unfold marked count_value in ok.1) plain.1 found
            goes in
        moved_as w _ _ i _ _ refl
          (spread
            ∙ skips path u (more ++ b']' ∷ rest) i st ok.0 (elems_stop path es rest) q.deep pass.0
                pass.1)
          (moved_behind w (print u) more i _ inner)

    in_elems : (es : Elems) → InElems es
    unfolding find_elem print_elems
    in_elems no_elems m n rest i st v q ok plain found goes = absurd (cc found)
    in_elems (elem u es) m n rest i st v q ok plain found goes =
        let s = print u ++ print_elems es false in
        let inner = one_elem u es (in_elems es) m n rest (i + 1) st v q ok plain found goes in
        moved_as w _ _ i _ _ refl
          (run_comma_at path b'[' q.inner s_value (s ++ b']' ∷ rest) i st q.brackets refl)
          (moved_behind w (b',' ∷ []) s i _ inner)

    pub first_elem :
        (es : Elems) (n : ℕ) (rest : Bytes) (i : ℕ) (st : JsonState) (v : Json)
        → AtElem 0 n (spell ss) st
        → AreElems (length st.nesting) es
        → ElemsHavePlainKeys es
        → find_elem n es ≡ some v
        → resolve ss v ≡ some w
        → Finds w (print_elems es true) i (
            json_run path
              (print_elems es true ++ b']' ∷ rest)
              0
              i
              (record st { expecting = s_value }))
    unfolding find_elem print_elems
    first_elem no_elems n rest i st v q ok plain found goes = absurd (cc found)
    first_elem (elem u es) n rest i st v q ok plain found goes =
        one_elem u es (in_elems es) 0 n rest i st v q ok plain found goes
