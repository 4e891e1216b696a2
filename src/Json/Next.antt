-- ===== src/Json/Next.antt =====
-- json.cpp: the iteration over the members of an object or the elements of an array, and the
-- functions that read a token, a truth value or a string behind a path.
pub mod Calls
pub mod Elements
use nanosrv.Common.{
  as_int, ℕ, zero, suc, ◌+◌, not, ◌&&◌, ◌||◌, Option, none, some, List, [], ◌∷◌, ◌≡◌, refl, Bytes,
  codes, ltb, leb, ◌==◌, if◌then◌else◌, length, take, drop, get_or,
}
use nanosrv.Json.Get.{too_deep, invalid, not_found, token, json_get, is_space}

-- The offset that is returned, and what is written to `*key` and `*val`; `none` if nothing is.
pub record JsonNext : Type 0 where
  pub ofs : ℕ
  pub key : Option Bytes
  pub val : Option Bytes

abbrev pub no_next : Option Bytes → JsonNext
no_next key = record { ofs = 0; key = key; val = none }

-- The token at the front of a text, where the length is in range, and what is done behind it.
unfoldable pub front_token : Bytes → (ℕ → ℕ → JsonNext) → JsonNext → JsonNext
front_token sub follow otherwise = elim (json_get (codes "$") sub) [
  | token o n ↦ if ltb (length sub) (o + n) then otherwise else follow o n
  | too_deep ↦ otherwise
  | invalid ↦ otherwise
  | not_found ↦ otherwise
]

-- How many bytes stand before a colon, up to it and with it.
unfoldable pub to_colon : Bytes → ℕ
to_colon [] = 0
to_colon (c ∷ s) = let rest = to_colon s in if c == b':' then 1 else rest + 1

unfoldable pub spaces : Bytes → ℕ
unfolding is_space
spaces [] = 0
spaces (c ∷ s) = let rest = spaces s in if is_space [] c then rest + 1 else 0

-- Behind the blanks and one comma.
unfoldable pub pass_comma : Bytes → ℕ → ℕ
unfolding spaces
pass_comma obj zero = 0
pass_comma obj (suc n) =
    let k = suc n + spaces (drop (suc n) obj) in
    let k' = if ltb k (length obj) && get_or obj k 0 == b',' then k + 1 else k in
    if ltb (length obj) k' then 0 else k'

unfoldable pub next_elem : Bytes → ℕ → JsonNext
unfolding front_token
next_elem sub at =
    front_token sub
      (λ o n. record { ofs = at + o + n; key = some []; val = some (take n (drop o sub)) })
      (no_next none)

unfoldable pub next_member : Bytes → ℕ → JsonNext
unfolding front_token to_colon
next_member sub at =
    front_token sub
      (λ o n.
        let key = some (take n (drop o sub)) in
        let behind = drop (o + n) sub in
        let passed = to_colon behind in
        let sub' = drop passed behind in
        front_token sub'
          (λ o' n'. record {
            ofs = at + o + n + passed + o' + n';
            key = key;
            val = some (take n' (drop o' sub'));
          })
          (no_next key))
      (no_next none)

unfoldable pub json_next : Bytes → ℕ → JsonNext
unfolding next_elem next_member pass_comma
json_next obj ofs =
    let first = get_or obj 0 0 in
    let at = if ofs == 0 then 1 else ofs in
    let sub = drop at obj in
    if leb (length obj) ofs
    then no_next none
    else if ltb (length obj) 2 || not (first == b'{' || first == b'[')
    then no_next none
    else (let r = if first == b'[' then next_elem sub at else next_member sub at in
        record r { ofs = pass_comma obj r.ofs })

-- `for (ofs = 0; (ofs = json_next(obj, ofs, &key, &val)) > 0;)`, for at most so many calls.
unfoldable pub json_each : ℕ → Bytes → ℕ → Option (List (Option Bytes × Option Bytes))
unfolding json_next
json_each zero obj ofs = none
json_each (suc n) obj ofs =
    let r = json_next obj ofs in
    let rest = json_each n obj r.ofs in
    if r.ofs == 0 then some [] else elim rest [ none ↦ none | some l ↦ some ((r.key, r.val) ∷ l) ]

each_elem :
    json_each 4 (codes "[1 , \"a\",{}]") 0
    ≡ some (
        (some [], some (codes "1"))
        ∷ (some [], some (codes "\"a\""))
        ∷ (some [], some (codes "{}"))
        ∷ [])
unfolding json_each json_get as_int
each_elem = refl

each_member :
    json_each 3 (codes "{\"a\" : true, \"b\":[1,2]}") 0
    ≡ some (
        (some (codes "\"a\""), some (codes "true"))
        ∷ (some (codes "\"b\""), some (codes "[1,2]"))
        ∷ [])
unfolding json_each json_get as_int
each_member = refl
