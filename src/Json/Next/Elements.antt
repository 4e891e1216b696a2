-- ===== src/Json/Next/Elements.antt =====
-- json.cpp: `json_next` goes through an array, and through an object.
use nanosrv.Common.{
  ◌^◌, ℕ, zero, suc, ◌+◌, ◌≤◌, ◌<◌, false, Option, none, some, List, [], ◌∷◌, ◌++◌, ◌≡◌, refl, sym,
  ap, ◌∙◌, arith, map, Bytes, ◌==◌, if◌then◌else◌, length, length-append, append_assoc, append-nil,
  All,
}
use nanosrv.Json.Lexer.Stops.{is_stop}
use nanosrv.Json.Syntax.{
  Json, Elems, Members, text, array, object, no_elems, elem, no_members, member, print, print_elems,
  print_members, quote, IsBody, IsJson, AreElems, AreMembers,
}
use nanosrv.Json.Get.{is_space}
use nanosrv.Json.Next.{JsonNext, no_next, json_next, json_each}
use nanosrv.Json.Next.Calls.{Ends, next_in_array, next_in_object, ends_array, ends_object}

unfoldable pub elems_list : Elems → List Json
elems_list no_elems = []
elems_list (elem v es) = v ∷ elems_list es

-- Items that `json_next` finds one by one.
record IsItem {A : Type 0} (shown : A → Bytes) (key val : A → Bytes) (o cl : ℕ) (x : A)
    : Type 0 where
  found :
      (p : Bytes) (ofs : ℕ)
      → (if ofs == 0 then 1 else ofs) ≡ 1 + length p
      → ofs ≤ 1 + length p
      → (c : ℕ) (rest : Bytes) → Ends c
      → length (shown x ++ c ∷ rest) < 2 ^ 31
      → json_next (o ∷ (p ++ (shown x ++ c ∷ rest))) ofs ≡ record {
        ofs = 1 + length p + length (shown x) + (if c == b',' then 1 else 0);
        key = some (key x);
        val = some (val x);
      }

joined : {A : Type 0} → (A → Bytes) → A → List A → Bytes
joined shown x [] = shown x
joined shown x (y ∷ ys) = shown x ++ b',' ∷ joined shown y ys

abbrev pair : {A : Type 0} → (A → Bytes) → (A → Bytes) → A → Option Bytes × Option Bytes
pair key val x = (some (key x), some (val x))

module _ {A : Type 0} (shown key val : A → Bytes) (o cl : ℕ) (closes : Ends cl)
    (no_comma : (cl == b',') ≡ false)
    (stops : (p : Bytes) (ofs : ℕ)
      → (if ofs == 0 then 1 else ofs) ≡ 1 + length p
      → ofs ≤ 1 + length p
      → json_next (o ∷ (p ++ cl ∷ [])) ofs ≡ no_next none) where
  no_more :
      (n : ℕ) (p : Bytes) (ofs : ℕ)
      → (if ofs == 0 then 1 else ofs) ≡ 1 + length p
      → ofs ≤ 1 + length p
      → json_each (suc n) (o ∷ (p ++ cl ∷ [])) ofs ≡ some []
  unfolding json_each
  no_more n p ofs at below = rw (stops p ofs at below, json_each) refl

  -- One call, and the calls behind it.
  one_more :
      (n : ℕ) (obj : Bytes) (ofs on : ℕ) (k v : Bytes) (l : List (Option Bytes × Option Bytes))
      → json_next obj ofs ≡ record { ofs = suc on; key = some k; val = some v }
      → json_each n obj (suc on) ≡ some l
      → json_each (suc n) obj ofs ≡ some ((some k, some v) ∷ l)
  unfolding json_each
  one_more n obj ofs on k v l e f =
      let far : (suc on == 0) ≡ false = ground arith in
      ap
        (λ (r : JsonNext).
          if r.ofs == 0
          then some []
          else (elim (json_each n obj r.ofs) [ none ↦ none | some l ↦ some ((r.key, r.val) ∷ l) ]))
        e
      ∙ rw (far, f) refl

  each :
      (ys : List A) (x : A) (p : Bytes) (ofs n : ℕ)
      → IsItem shown key val o cl x
      → All (IsItem shown key val o cl) ys
      → (if ofs == 0 then 1 else ofs) ≡ 1 + length p
      → ofs ≤ 1 + length p
      → 1 + length ys < n
      → length (joined shown x ys ++ cl ∷ []) < 2 ^ 31
      → json_each n (o ∷ (p ++ (joined shown x ys ++ cl ∷ []))) ofs
        ≡ some (map (pair key val) (x ∷ ys))
  unfolding joined
  each ys x p ofs zero h hs at below fuel small = absurd (omega arith)
  each [] x p ofs (suc zero) h hs at below fuel small = absurd (omega arith)
  each [] x p ofs (suc (suc n)) h hs at below fuel small =
      let on = length p + length (shown x) in
      let here = h.found p ofs at below cl [] closes small in
      let same : 1 + length p + length (shown x) + (if cl == b',' then 1 else 0) ≡ suc on =
        rw no_comma (omega arith) in
      let again =
        no_more n (p ++ shown x) (suc on)
          (bracket on (length (p ++ shown x)) (length-append p (shown x)))
          (omega (arith, length-append p (shown x))) in
      one_more (suc n) (o ∷ (p ++ (shown x ++ cl ∷ []))) ofs on (key x) (val x) []
        (here ∙ ap (λ n. record { ofs = n; key = some (key x); val = some (val x) }) same)
        (ap (λ t. json_each (suc n) (o ∷ t) (suc on)) (sym (append_assoc p (shown x) (cl ∷ [])))
          ∙ again)
    where
      bracket : (on m : ℕ) → m ≡ on → (if suc on == 0 then 1 else suc on) ≡ 1 + m
      bracket on m h = ground arith
  each (y ∷ ys) x p ofs (suc n) h hs at below fuel small =
      let on = length p + length (shown x) + 1 in
      let rest = joined shown y ys ++ cl ∷ [] in
      let p' = p ++ (shown x ++ b',' ∷ []) in
      let size : length p' ≡ on =
        omega
          (arith, length-append p (shown x ++ b',' ∷ []), length-append (shown x) (b',' ∷ [])) in
      let whole : (shown x ++ b',' ∷ joined shown y ys) ++ cl ∷ [] ≡ shown x ++ b',' ∷ rest =
        append_assoc (shown x) (b',' ∷ joined shown y ys) (cl ∷ []) in
      let here =
        h.found p ofs at below b',' rest (unfold is_stop is_space in (refl, refl))
          (omega (arith, small, ap length whole)) in
      let same : 1 + length p + length (shown x) + 1 ≡ suc on = omega arith in
      let again =
        each ys y p' (suc on) n hs.0 hs.1 (bracket on (length p') size) (omega (arith, size))
          (omega arith)
          (omega (arith, small, ap length whole, length-append (shown x) (b',' ∷ rest))) in
      let split : shown x ++ b',' ∷ rest ≡ (shown x ++ b',' ∷ []) ++ rest =
        sym (append_assoc (shown x) (b',' ∷ []) rest) in
      ap (λ t. json_each (suc n) (o ∷ (p ++ t)) ofs) whole
      ∙ one_more n (o ∷ (p ++ (shown x ++ b',' ∷ rest))) ofs on (key x) (val x)
          (map (pair key val) (y ∷ ys))
          (here ∙ ap (λ n. record { ofs = n; key = some (key x); val = some (val x) }) same)
          (ap (λ t. json_each n (o ∷ t) (suc on))
              (ap (λ t. p ++ t) split ∙ sym (append_assoc p (shown x ++ b',' ∷ []) rest))
            ∙ again)
    where
      bracket : (on m : ℕ) → m ≡ on → (if suc on == 0 then 1 else suc on) ≡ 1 + m
      bracket on m h = ground arith

unfoldable pub members_list : Members → List (Bytes × Json)
members_list no_members = []
members_list (member k v ms) = (k, v) ∷ members_list ms

abbrev no_key : Json → Bytes
no_key v = []

shown_member : Bytes × Json → Bytes
shown_member m = print (text m.0) ++ b':' ∷ print m.1

abbrev key_text : Bytes × Json → Bytes
key_text m = print (text m.0)

abbrev value_text : Bytes × Json → Bytes
value_text m = print m.1

elems_joined :
    (es : Elems) (v : Json) → print v ++ print_elems es false ≡ joined print v (elems_list es)
unfolding joined elems_list print_elems
elems_joined no_elems v = append-nil (print v)
elems_joined (elem u es) v = ap (λ s. print v ++ b',' ∷ s) (elems_joined es u)

members_joined :
    (ms : Members) (k : Bytes) (v : Json)
    → quote k (b':' ∷ (print v ++ print_members ms false))
      ≡ joined shown_member (k, v) (members_list ms)
unfolding joined members_list print_members shown_member print
members_joined no_members k v =
    ap (λ s. quote k (b':' ∷ s)) (append-nil (print v))
    ∙ ap (λ s. b'"' ∷ s) (sym (append_assoc k (b'"' ∷ []) (b':' ∷ print v)))
members_joined (member k' u ms) k v =
    ap (λ s. quote k (b':' ∷ (print v ++ b',' ∷ s))) (members_joined ms k' u)
    ∙ ap (λ s. b'"' ∷ s)
        (sym (append_assoc (k ++ b'"' ∷ []) (b':' ∷ print v) _ ∙ append_assoc k (b'"' ∷ []) _))

elem-IsItem : (v : Json) → IsJson 0 v → IsItem print no_key print b'[' b']' v
elem-IsItem v ok = record {
  found = λ p ofs at below c rest ends small. next_in_array p ofs at below v c rest ok ends small;
}

elems-AllItems :
    (es : Elems) → AreElems 0 es → All (IsItem print no_key print b'[' b']') (elems_list es)
unfolding elems_list AreElems
elems-AllItems no_elems h = tt
elems-AllItems (elem v es) h = (elem-IsItem v h.0, elems-AllItems es h.1)

-- On the printed text, of less than 2 ^ 31 bytes and without blanks, of an array whose elements nest at
-- most 30 deep each, the calls of `json_next` give the text of each element once and in order, with no key, and then 0, within any larger number of calls.
pub json_each_array :
    (es : Elems) (n : ℕ)
    → AreElems 0 es
    → length (print (array es)) < 2 ^ 31
    → length (elems_list es) < n
    → json_each n (print (array es)) 0 ≡ some (map (λ v. (some [], some (print v))) (elems_list es))
unfolding elems_list print print_elems AreElems is_stop is_space
json_each_array no_elems zero h small fuel = absurd (omega arith)
json_each_array no_elems (suc n) h small fuel =
    no_more print no_key print b'[' b']' (refl, refl) refl (λ p ofs. ends_array p ofs) n [] 0 refl
      (omega arith)
json_each_array (elem v es) n h small fuel =
    ap (λ s. json_each n (b'[' ∷ (s ++ b']' ∷ [])) 0) (elems_joined es v)
    ∙ each print no_key print b'[' b']' (refl, refl) refl (λ p ofs. ends_array p ofs)
        (elems_list es) v [] 0 n (elem-IsItem v h.0) (elems-AllItems es h.1) refl (omega arith)
        (omega arith) (omega (arith, small, ap (λ s. length (s ++ b']' ∷ [])) (elems_joined es v)))

member-IsItem :
    (m : Bytes × Json)
    → IsBody m.0
    → IsJson 0 m.1
    → IsItem shown_member key_text value_text b'{' b'}' m
unfolding shown_member
member-IsItem m body ok = record {
  found = λ p ofs at below c rest ends small.
      ap (λ s. json_next (b'{' ∷ (p ++ s)) ofs)
        (append_assoc (print (text m.0)) (b':' ∷ print m.1) (c ∷ rest))
      ∙ next_in_object p ofs at below m.0 m.1 c rest body ok ends (
          omega (
            arith,
            small,
            ap length (append_assoc (print (text m.0)) (b':' ∷ print m.1) (c ∷ rest)),
          ));
}

members-AllItems :
    (ms : Members)
    → AreMembers 0 ms
    → All (IsItem shown_member key_text value_text b'{' b'}') (members_list ms)
unfolding members_list AreMembers
members-AllItems no_members h = tt
members-AllItems (member k v ms) h = (member-IsItem (k, v) h.0 h.1, members-AllItems ms h.2)

-- On the printed text, of less than 2 ^ 31 bytes and without blanks, of an object whose values nest at
-- most 30 deep each, the calls of `json_next` give each key, in its quotes, with the text of its value, once and in order, and then 0, within any larger
-- number of calls.
pub json_each_object :
    (ms : Members) (n : ℕ)
    → AreMembers 0 ms
    → length (print (object ms)) < 2 ^ 31
    → length (members_list ms) < n
    → json_each n (print (object ms)) 0
      ≡ some (map (λ m. (some (print (text m.0)), some (print m.1))) (members_list ms))
unfolding members_list print print_members AreMembers is_stop is_space
json_each_object no_members zero h small fuel = absurd (omega arith)
json_each_object no_members (suc n) h small fuel =
    no_more shown_member key_text value_text b'{' b'}' (refl, refl) refl
      (λ p ofs. ends_object p ofs) n [] 0 refl (omega arith)
json_each_object (member k v ms) n h small fuel =
    ap (λ s. json_each n (b'{' ∷ (s ++ b'}' ∷ [])) 0) (members_joined ms k v)
    ∙ each shown_member key_text value_text b'{' b'}' (refl, refl) refl (λ p ofs. ends_object p ofs)
        (members_list ms) (k, v) [] 0 n (member-IsItem (k, v) h.0 h.1) (members-AllItems ms h.2)
        refl (omega arith) (omega arith)
        (omega (arith, small, ap (λ s. length (s ++ b'}' ∷ [])) (members_joined ms k v)))
