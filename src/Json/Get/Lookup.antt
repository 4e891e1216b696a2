-- ===== src/Json/Get/Lookup.antt =====
-- json.cpp, `json_get`: a whole value, and the value behind a path.
use nanosrv.Common.{
  ◌^◌, ℕ, ◌+◌, ◌-◌, ◌<◌, true, Option, none, some, List, [], ◌∷◌, ◌++◌, ◌≡◌, refl, sym, ap, ◌∙◌,
  arith, Bytes, codes, ◌==◌, length, append_assoc, append-nil, drop, All,
}
use nanosrv.Json.Lexer.Stops.{Stops}
use nanosrv.Json.Syntax.{
  Json, Elems, Members, array, object, null, true_value, false_value, number, text, print,
  print_elems, print_members, IsJson,
}
use nanosrv.Json.Get.{
  json_get_small, path_at, JsonResult, ℤ, pos, negsuc, is_equal, minus_one, JsonState, token,
  at_depth, is_found, json_run, json_get, at_start, head_or_zero, s_value, s_key, next, nested,
  enter_object, enter_array, value_byte, is_space,
}
use nanosrv.Json.Get.Reads.{ended, marked, IsPassive, waiting, stepped, run_value, leb_not}
use nanosrv.Json.Get.Below.{print_pos}
use nanosrv.Json.Get.Values.{reads_value}
use nanosrv.Json.Get.Places.{drop_on, first_at, moved_behind, moved_before, moved_as, AtKey, level}
use nanosrv.Json.Get.Members.{first_member, Descends}
use nanosrv.Json.Get.Indices.{AtElem, first_elem}
use nanosrv.Json.Get.Paths.{
  PathStep, key, index, spell, IsStep, find_member, find_elem, child, resolve, HasPlainKeys,
  read_index_digits,
}

-- The path `$` gives the whole of a value, whatever stops it behind.
pub json_get_whole :
    (v : Json) (rest : Bytes)
    → IsJson 0 v
    → Stops rest
    → length (print v ++ rest) < 2 ^ 31
    → json_get (codes "$") (print v ++ rest) ≡ token 0 (length (print v))
unfolding ended is_found marked path_at
json_get_whole v rest h stops small =
    json_get_small (codes "$") (print v ++ rest) small refl
    ∙ reads_value (codes "$") v rest 0 (at_start (codes "$")) h stops (omega arith)
        (record { no_object = refl; no_array = refl })
    ∙ ap (token 0) (omega (arith, print_pos (codes "$") 0 v h))

module _ (path : Bytes) where
  opens_key :
      (k x s : Bytes) (i : ℕ) (st : JsonState)
      → length st.nesting < 30
      → st.ed ≡ length st.nesting
      → is_equal st.ci st.ei ≡ true
      → drop st.place path ≡ b'.' ∷ (k ++ x)
      → value_byte path b'{' s i (marked path i (waiting path st))
        ≡ next 0 (record {
          expecting = s_key;
          nesting = b'{' ∷ st.nesting;
          j = i;
          ed = st.ed + 1;
          place = st.place + 1;
          ci = minus_one;
          ei = minus_one;
        })
  unfolding value_byte marked nested enter_object head_or_zero
  opens_key k x s i st room deep alike here =
      let dot = first_at path (b'.' ∷ (k ++ x)) st.place here in
      rw (leb_not 30 (length st.nesting) room, value_byte, level path st deep, dot, alike) refl

  is_equal_sym : (a b : ℤ) → is_equal a b ≡ true → is_equal b a ≡ true
  unfolding is_equal
  is_equal_sym (pos m) (pos n) h = ground arith
  is_equal_sym (negsuc m) (negsuc n) h = ground arith
  is_equal_sym (pos m) (negsuc n) h = h
  is_equal_sym (negsuc m) (pos n) h = h

  opens_index :
      (t x s : Bytes) (n i : ℕ) (st : JsonState)
      → length st.nesting < 30
      → st.ed ≡ length st.nesting
      → is_equal st.ci st.ei ≡ true
      → IsStep (index t n)
      → drop st.place path ≡ b'[' ∷ (t ++ b']' ∷ x)
      → value_byte path b'[' s i (marked path i (waiting path st))
        ≡ next 0 (record {
          expecting = s_value;
          nesting = b'[' ∷ st.nesting;
          j = i;
          ed = st.ed + 1;
          place = st.place + 1 + length t + 1;
          ci = pos 0;
          ei = pos n;
        })
  unfolding value_byte marked nested enter_array head_or_zero
  opens_index t x s n i st room deep alike reads here =
      let bracket = first_at path (b'[' ∷ (t ++ b']' ∷ x)) st.place here in
      let behind : drop (st.place + 1) path ≡ t ++ b']' ∷ x =
        drop_on path (b'[' ∷ []) (t ++ b']' ∷ x) st.place here in
      let number = read_index_digits t x 0 reads.0 ∙ ap (λ k. (pos k, length t)) reads.1 in
      let closing =
        first_at path (b']' ∷ x) (st.place + 1 + length t)
          (drop_on path t (b']' ∷ x) (st.place + 1) behind) in
      rw
        (
          leb_not 30 (length st.nesting) room,
          value_byte,
          level path st deep,
          bracket,
          is_equal_sym st.ci st.ei alike,
          behind,
          number,
          closing,
        )
        refl

  module _ (w : Json) where
    goes_on :
        (ss : List PathStep) (o : Option Json)
        → (elim o [ none ↦ none | some v ↦ resolve ss v ]) ≡ some w
        → (v : Json) × (o ≡ some v) × (resolve ss v ≡ some w)
    goes_on ss none e = absurd (cc e)
    goes_on ss (some v) e = (v, refl, e)

    through_key :
        (k : Bytes) (ss : List PathStep)
        → ((v : Json) → Descends path w ss v)
        → (ms : Members) → Descends path w (key k ∷ ss) (object ms)
    unfolding resolve child print IsJson HasPlainKeys is_space is_equal
    through_key k ss ih ms rest i st ok plain steps found stops deep alike here =
        let items = print_members ms true in
        let behind : drop (st.place + 1) path ≡ k ++ spell ss =
          drop_on path (b'.' ∷ []) (k ++ spell ss) st.place here in
        let (v, there, goes) = goes_on ss (find_member k ms) found in
        let q : AtKey path k (spell ss) (record {
          expecting = s_key;
          nesting = b'{' ∷ st.nesting;
          j = i;
          ed = st.ed + 1;
          place = st.place + 1;
          ci = minus_one;
          ei = minus_one;
        }) =
          record {
            inner = st.nesting;
            brackets = refl;
            deep = omega (arith, deep);
            alike = refl;
            fresh = refl;
            dot =
                let z : st.place + 1 - 1 ≡ st.place = omega arith in
                rw (z, first_at path (b'.' ∷ (k ++ spell ss)) st.place here)
                  (unfold head_or_zero in refl);
            here = behind;
          } in
        let inner =
          first_member path w ss ih steps.1 k ms steps.0.0 steps.0.1 rest (i + 1) _ v q ok.1 plain
            there goes in
        let run =
          ap (λ y. json_run path (b'{' ∷ y) 0 i (waiting path st))
            (append_assoc items (b'}' ∷ []) rest)
          ∙ run_value path b'{' (items ++ b'}' ∷ rest) i st refl
          ∙ ap (stepped path (items ++ b'}' ∷ rest) i)
              (opens_key k (spell ss) (items ++ b'}' ∷ rest) i st ok.0 deep alike here) in
        moved_as w _ _ i _ _ refl run (
          moved_behind w (b'{' ∷ []) (items ++ b'}' ∷ []) i _
            (moved_before w items (b'}' ∷ []) (i + 1) _ inner))

    through_index :
        (t : Bytes) (n : ℕ) (ss : List PathStep)
        → ((v : Json) → Descends path w ss v)
        → (es : Elems) → Descends path w (index t n ∷ ss) (array es)
    unfolding resolve child print IsJson HasPlainKeys is_space is_equal
    through_index t n ss ih es rest i st ok plain steps found stops deep alike here =
        let items = print_elems es true in
        let behind : drop (st.place + 1) path ≡ t ++ b']' ∷ spell ss =
          drop_on path (b'[' ∷ []) (t ++ b']' ∷ spell ss) st.place here in
        let further = drop_on path t (b']' ∷ spell ss) (st.place + 1) behind in
        let (v, there, goes) = goes_on ss (find_elem n es) found in
        let q : AtElem path 0 n (spell ss) (record {
          expecting = s_value;
          nesting = b'[' ∷ st.nesting;
          j = i;
          ed = st.ed + 1;
          place = st.place + 1 + length t + 1;
          ci = pos 0;
          ei = pos n;
        }) =
          record {
            inner = st.nesting;
            brackets = refl;
            deep = omega (arith, deep);
            current = refl;
            wanted = ap pos (omega arith);
            here = drop_on path (b']' ∷ []) (spell ss) (st.place + 1 + length t) further;
          } in
        let inner = first_elem path w ss ih steps.1 es n rest (i + 1) _ v q ok.1 plain there goes in
        let run =
          ap (λ y. json_run path (b'[' ∷ y) 0 i (waiting path st))
            (append_assoc items (b']' ∷ []) rest)
          ∙ run_value path b'[' (items ++ b']' ∷ rest) i st refl
          ∙ ap (stepped path (items ++ b']' ∷ rest) i) (
              opens_index t (spell ss) (items ++ b']' ∷ rest) n i st ok.0 deep alike steps.0
                here) in
        moved_as w _ _ i _ _ refl run (
          moved_behind w (b'[' ∷ []) (items ++ b']' ∷ []) i _
            (moved_before w items (b']' ∷ []) (i + 1) _ inner))

    at_target : (v : Json) → Descends path w [] v
    unfolding resolve ended is_found marked at_depth head_or_zero
    at_target v rest i st ok plain steps found stops deep alike here =
        let same : v ≡ w = cc found in
        let at : (length st.nesting == st.ed) ≡ true = level path st deep in
        let over = first_at path [] st.place here in
        let passive : IsPassive path st = record {
          no_object = rw (over, at) refl;
          no_array = rw (over, at) refl;
        } in
        let size : i + length (print v) - 1 - i + 1 ≡ length (print w) =
          omega (arith, print_pos path (length st.nesting) v ok, ap (λ u. length (print u)) same) in
        let shown : ended path (i + length (print v) - 1) (marked path i st) rest
            ≡ token i (length (print w)) =
          rw (at, over, alike) (ap (token i) size) in
        (
          [],
          [],
          ap print same ∙ sym (append-nil (print w)),
          reads_value path v rest i st ok stops (omega (arith, deep)) passive
              ∙ shown
              ∙ ap (λ n. token n (length (print w))) (omega arith),
        )

    stuck : (ss : List PathStep) (v : Json) → resolve ss v ≡ none → Descends path w ss v
    stuck ss v e rest i st ok plain steps found stops deep alike here = absurd (cc (found, e))

    descends : (ss : List PathStep) (v : Json) → Descends path w ss v
    unfolding resolve child
    descends [] v = at_target v
    descends (key k ∷ ss) (object ms) = through_key k ss (descends ss) ms
    descends (index t n ∷ ss) (array es) = through_index t n ss (descends ss) es
    descends (key k ∷ ss) null = stuck (key k ∷ ss) null refl
    descends (key k ∷ ss) true_value = stuck (key k ∷ ss) true_value refl
    descends (key k ∷ ss) false_value = stuck (key k ∷ ss) false_value refl
    descends (key k ∷ ss) (number t) = stuck (key k ∷ ss) (number t) refl
    descends (key k ∷ ss) (text t) = stuck (key k ∷ ss) (text t) refl
    descends (key k ∷ ss) (array es) = stuck (key k ∷ ss) (array es) refl
    descends (index t n ∷ ss) null = stuck (index t n ∷ ss) null refl
    descends (index t n ∷ ss) true_value = stuck (index t n ∷ ss) true_value refl
    descends (index t n ∷ ss) false_value = stuck (index t n ∷ ss) false_value refl
    descends (index t n ∷ ss) (number u) = stuck (index t n ∷ ss) (number u) refl
    descends (index t n ∷ ss) (text u) = stuck (index t n ∷ ss) (text u) refl
    descends (index t n ∷ ss) (object ms) = stuck (index t n ∷ ss) (object ms) refl

-- The result gives the offset and the length of the text s inside the other.
abbrev pub Locates : Bytes → Bytes → JsonResult → Type 0
Locates json s r =
    (pre : Bytes) × (post : Bytes) × (json ≡ pre ++ (s ++ post))
    × (r ≡ token (length pre) (length s))

-- In the printed text, of less than 2 ^ 31 bytes and without blanks, of a value that nests at most 30
-- deep and whose keys have no `.`, no `[` and no zero, a path of such keys, none empty, and of decimal
-- indices below 2 ^ 31 that leads to the value w gives the offset and the length of a text of w; of
-- several members with one key, the path leads to the first.
pub json_get_path :
    (v w : Json) (ss : List PathStep)
    → IsJson 0 v
    → length (print v) < 2 ^ 31
    → HasPlainKeys v
    → All IsStep ss
    → resolve ss v ≡ some w
    → Locates (print v) (print w) (json_get (b'$' ∷ spell ss) (print v))
unfolding is_equal path_at
json_get_path v w ss ok small plain steps found =
    let path = b'$' ∷ spell ss in
    let whole : print v ++ [] ≡ print v = append-nil (print v) in
    let (pre, post, e, f) =
      descends path w ss v [] 0 (at_start path) ok plain steps found tt refl refl refl in
    (
      pre,
      post,
      e,
      json_get_small path (print v) small refl
          ∙ ap (λ y. json_run path y 0 0 (at_start path)) (sym whole)
          ∙ f
          ∙ ap (λ n. token n (length (print w))) (omega arith),
    )
