-- ===== src/Json/Syntax.antt =====
-- JSON values and their texts, without blanks; the parser in json.cpp is described against these.
use nanosrv.Common.{
  ℕ, suc, ◌<◌, Bool, true, false, ◌||◌, some, [], ◌∷◌, ◌++◌, ◌≡◌, Bytes, codes, ◌==◌, if◌then◌else◌,
  length,
}
use nanosrv.Json.Lexer.{pass_string, is_decimal, after_number}

mutual
  -- The text of a number, and that of a string between its quotes, are kept as they stand.
  pub data Json : Type 0 where
    null true_value false_value : Json
    number : Bytes → Json
    text : Bytes → Json
    array : Elems → Json
    object : Members → Json

  pub data Elems : Type 0 where
    no_elems : Elems
    elem : Json → Elems → Elems

  pub data Members : Type 0 where
    no_members : Members
    member : Bytes → Json → Members → Members

abbrev pub sep : Bool → Bytes
sep first = if first then [] else b',' ∷ []

abbrev pub quote : Bytes → Bytes → Bytes
quote s rest = b'"' ∷ (s ++ b'"' ∷ rest)

unfoldable mutual
  pub print : Json → Bytes
  print null = codes "null"
  print true_value = codes "true"
  print false_value = codes "false"
  print (number t) = t
  print (text s) = quote s []
  print (array es) = b'[' ∷ (print_elems es true ++ b']' ∷ [])
  print (object ms) = b'{' ∷ (print_members ms true ++ b'}' ∷ [])

  pub print_elems : Elems → Bool → Bytes
  print_elems no_elems first = []
  print_elems (elem v es) first = sep first ++ (print v ++ print_elems es false)

  pub print_members : Members → Bool → Bytes
  print_members no_members first = []
  print_members (member k v ms) first =
      sep first ++ quote k (b':' ∷ (print v ++ print_members ms false))

-- The string ends at its closing quote, and at none before.
abbrev pub IsBody : Bytes → Type 0
IsBody s = pass_string (s ++ b'"' ∷ []) ≡ some (length s)

abbrev pub IsNumber : Bytes → Type 0
IsNumber [] = ⊥
IsNumber (c ∷ s) = ((c == b'-' || is_decimal c) ≡ true) × (after_number (c ∷ s) ≡ [])

-- The texts are of their kinds, and no bracket inside depth d is nested too deep.
unfoldable mutual
  pub IsJson : ℕ → Json → Type 0
  IsJson d (number t) = IsNumber t
  IsJson d (text s) = IsBody s
  IsJson d (array es) = (d < 30) × AreElems (suc d) es
  IsJson d (object ms) = (d < 30) × AreMembers (suc d) ms
  IsJson d _ = Unit

  pub AreElems : ℕ → Elems → Type 0
  AreElems d no_elems = Unit
  AreElems d (elem v es) = IsJson d v × AreElems d es

  pub AreMembers : ℕ → Members → Type 0
  AreMembers d no_members = Unit
  AreMembers d (member k v ms) = IsBody k × IsJson d v × AreMembers d ms
