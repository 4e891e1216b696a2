-- ===== src/Json/Examples.antt =====
-- json.cpp: tests at concrete texts.
use nanosrv.Common.{◌^◌, ◌<◌, length, All, some, List, [], ◌∷◌, ◌≡◌, refl, arith, map, Bytes, codes}
use nanosrv.Json.Lexer.{pass_string, is_decimal, after_number}
use nanosrv.Json.Syntax.{
  Json, Elems, Members, null, true_value, number, text, array, object, no_elems, elem, no_members,
  member, print, IsJson, AreElems, AreMembers,
}
use nanosrv.Json.Get.{json_get}
use nanosrv.Json.Get.Paths.{
  IsStep, HasPlainKeys, resolve, bytes_equal, ends_key, PathStep, key, index, spell,
}
use nanosrv.Json.Get.Lookup.{Locates, json_get_path}
use nanosrv.Json.Next.{json_each}
use nanosrv.Json.Next.Elements.{elems_list, members_list, json_each_array, json_each_object}
use nanosrv.Json.Strings.{qcpy, json_get_str}
use nanosrv.Json.Strings.RoundTrip.{json_get_str-qcpy}

abbrev inner : Json
inner =
    object (member (codes "b") true_value (member (codes "c") (text (codes "x\\\"\\n")) no_members))

abbrev elems : Elems
elems = elem (number (codes "-1.5")) (elem inner (elem (text (codes "]")) no_elems))

abbrev members : Members
members = member (codes "ab") null (member (codes "a") (array elems) no_members)

abbrev path : List PathStep
path = key (codes "a") ∷ index (codes "1") 1 ∷ key (codes "c") ∷ []

elems-AreElems : AreElems 0 elems
unfolding IsJson AreElems is_decimal after_number pass_string
elems-AreElems = ((refl, refl), ((omega arith, (refl, tt, (refl, refl, tt))), (refl, tt)))

members-AreMembers : AreMembers 0 members
unfolding IsJson AreMembers is_decimal after_number pass_string
members-AreMembers = (
  refl,
  tt,
  (
    refl,
    (omega arith, ((refl, refl), ((omega arith, (refl, tt, (refl, refl, tt))), (refl, tt)))),
    tt,
  ),
)

whole-IsJson : IsJson 0 (object members)
unfolding IsJson is_decimal after_number pass_string
whole-IsJson = (
  omega arith,
  (
    refl,
    tt,
    (
      refl,
      (omega arith, ((refl, refl), ((omega arith, (refl, tt, (refl, refl, tt))), (refl, tt)))),
      tt,
    ),
  ),
)

whole-HasPlainKeys : HasPlainKeys (object members)
unfolding HasPlainKeys ends_key
whole-HasPlainKeys = (
  (refl, (refl, tt)),
  tt,
  ((refl, tt), (tt, (((refl, tt), tt, ((refl, tt), tt, tt)), (tt, tt))), tt),
)

whole_small : length (print (object members)) < 2 ^ 31
unfolding print
whole_small = omega arith

path_steps : All IsStep path
unfolding ends_key is_decimal
path_steps = (
  ((refl, tt), omega arith),
  ((((refl, tt), refl, omega arith)), (((refl, tt), omega arith), tt)),
)

path_resolves : resolve path (object members) ≡ some (text (codes "x\\\"\\n"))
unfolding resolve bytes_equal
path_resolves = refl

json_get_path_example :
    Locates
      (print (object members))
      (print (text (codes "x\\\"\\n")))
      (json_get (b'$' ∷ spell path) (print (object members)))
json_get_path_example =
    json_get_path (object members) (text (codes "x\\\"\\n")) path whole-IsJson whole_small
      whole-HasPlainKeys path_steps path_resolves

json_each_array_example :
    json_each 4 (print (array elems)) 0
    ≡ some (map (λ v. (some [], some (print v))) (elems_list elems))
json_each_array_example =
    json_each_array elems 4 elems-AreElems (unfold print in omega arith)
      (unfold elems_list in omega arith)

json_each_object_example :
    json_each 3 (print (object members)) 0
    ≡ some (map (λ m. (some (print (text m.0)), some (print m.1))) (members_list members))
json_each_object_example =
    json_each_object members 3 members-AreMembers (unfold print in omega arith)
      (unfold members_list in omega arith)

abbrev read : Bytes
read = b'x' ∷ b'"' ∷ 10 ∷ []

written : resolve path (object members) ≡ some (text (qcpy read))
unfolding resolve bytes_equal qcpy
written = refl

json_get_str-qcpy_example : json_get_str (print (object members)) (b'$' ∷ spell path) ≡ some read
json_get_str-qcpy_example =
    json_get_str-qcpy read (object members) path (omega arith, (omega arith, (omega arith, tt)))
      whole-IsJson whole_small whole-HasPlainKeys path_steps written
