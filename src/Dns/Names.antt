-- ===== src/Dns/Names.antt =====
-- dns.cpp, `dns_parse_name`: it ends, and stays inside its buffer and inside the packet.
use nanosrv.Common.{
  if_alike_else, ◌++◌, ap, ◌∙◌, Bool-cases, get_or-append, drop-append_le, take-append_le,
  length-drop, ℕ, zero, suc, ◌+◌, ◌-◌, ◌≤◌, ◌<◌, Bool, true, not, ◌&&◌, Option, some, [], ◌∷◌, ◌≡◌,
  ◌⊎◌, inl, inr, refl, arith, Bytes, ltb, leb, ◌==◌, if◌then◌else◌, if-both, length, take, drop,
  get_or, Memory, put, Keeps, put-Keeps, Keeps-trans,
}
use nanosrv.Dns.{
  copy, finish, ended, put_label, pointer, is_pointer, followed, name_loop, dns_parse_name_depth,
  dns_parse_name_at, dns_parse_name,
}

-- A result, with the memory changed below the bound only, and inside the packet.
abbrev pub IsWithin : ℕ → ℕ → ℕ → Memory → Option (Memory × ℕ) → Type 0
IsWithin len tolen ofs to r =
    (to' : Memory) × (i : ℕ) × (r ≡ some (to', i))
    × Keeps tolen to to'
    × ((i ≡ 0) ⊎ (ofs + i ≤ len))

put_if-Keeps :
    (k : ℕ) (b : Bool) (to : Memory) (n v : ℕ)
    → (b ≡ true → n < k)
    → Keeps k to (if b then put to n v else to)
put_if-Keeps k b to n v h =
    if-both (Keeps k to) b (put to n v) to (λ e. put-Keeps k to n v (h e)) (λ _ i le. refl)

copy-Keeps :
    (k : ℕ) (to : Memory) (j : ℕ) (bs : Bytes) → j + length bs ≤ k → Keeps k to (copy to j bs)
unfolding copy
copy-Keeps k to j [] h = λ i le. refl
copy-Keeps k to j (b ∷ bs) h =
    Keeps-trans k k to (put to j b) _ (omega arith) (put-Keeps k to j b (omega arith))
      (copy-Keeps k (put to j b) (j + 1) bs (omega arith))

finish-Keeps : (k : ℕ) (to : Memory) → Keeps k to (finish to k)
unfolding finish
finish-Keeps k to = put_if-Keeps k (ltb 0 k) to (k - 1) 0 (λ e. ground arith)

label-Keeps : (k : ℕ) (to : Memory) (j : ℕ) (label : Bytes) → Keeps k to (put_label to k j label).0
unfolding put_label
label-Keeps k to j label =
    let n = length label in
    let to₁ = if ltb 0 j && ltb j k then put to j b'.' else to in
    let j₁ = if ltb 0 j then j + 1 else j in
    let to₂ = if ltb (j₁ + n) k then copy to₁ j₁ label else to₁ in
    let first : Keeps k to to₁ =
      put_if-Keeps k (ltb 0 j && ltb j k) to j b'.' (λ e. ground arith) in
    let second : Keeps k to₁ to₂ =
      if-both (Keeps k to₁) (ltb (j₁ + n) k) (copy to₁ j₁ label) to₁
        (λ e. copy-Keeps k to₁ j₁ label (let lt : j₁ + n < k = ground arith in omega arith))
        (λ _ i le. refl) in
    let third = put_if-Keeps k (ltb (j₁ + n) k) to₂ (j₁ + n) 0 (λ e. ground arith) in
    Keeps-trans k k to to₂ _ (omega arith) (Keeps-trans k k to to₁ to₂ (omega arith) first second)
      third

ended-IsWithin :
    (len k ofs i : ℕ) (to : Memory)
    → (i ≡ 0) ⊎ (ofs + i ≤ len)
    → IsWithin len k ofs to (ended to k i)
unfolding ended
ended-IsWithin len k ofs i to h = (finish to k, i, refl, finish-Keeps k to, h)

followed-IsWithin :
    (len k ofs i ptr : ℕ) (to : Memory) (r : Option (Memory × ℕ))
    → IsWithin len k ptr to r
    → ofs + (i + 2) ≤ len
    → IsWithin len k ofs to (followed r k i)
unfolding followed ended
followed-IsWithin len k ofs i ptr to r (to', n, e, keeps, inside) h = rw e (
    if-both (IsWithin len k ofs to) (n == 0) (some (to', 0)) (some (finish to' k, i + 2))
      (λ _. (to', 0, refl, keeps, inl refl))
      (λ _. (
        finish to' k,
        i + 2,
        refl,
        Keeps-trans k k to to' _ (omega arith) keeps (finish-Keeps k to'),
        inr h,
      )))

module _ (s : Bytes) (k : ℕ) where
  loop-IsWithin :
      (follow : ℕ → Memory → ℕ → Option (Memory × ℕ))
      → ((ptr : ℕ) (to : Memory) (j : ℕ) → IsWithin (length s) k ptr to (follow ptr to j))
      → (f ofs : ℕ) (to : Memory) (j i : ℕ) → length s - (ofs + i) < f
      → (i ≡ 0) ⊎ (ofs + i ≤ length s)
      → IsWithin (length s) k ofs to (name_loop s (length s) k follow f ofs to j i)
  unfolding name_loop
  loop-IsWithin follow deeper zero ofs to j i enough inside = absurd (omega arith)
  loop-IsWithin follow deeper (suc f) ofs to j i enough inside =
      let n = get_or s (ofs + i) 0 in
      let ptr = pointer n (get_or s (ofs + i + 1) 0) in
      let r = put_label to k j (take n (drop (ofs + i + 1) s)) in
      let next = name_loop s (length s) k follow f ofs r.0 r.1 (i + n + 1) in
      let P = IsWithin (length s) k ofs to in
      if-both P (leb (length s) (ofs + i + 1)) _ _
        (λ _. ended-IsWithin (length s) k ofs i to inside)
        (λ more.
          let room : ofs + i + 1 < length s = ground arith in
          if-both P (n == 0) _ _
            (λ _. ended-IsWithin (length s) k ofs (i + 1) to (inr (omega arith)))
            (λ some_bytes.
              if-both P (is_pointer n) _ _
                (λ _.
                  if-both P (ltb (ptr + 1) (length s) && not (is_pointer (get_or s ptr 0))) _ _
                    (λ _.
                      followed-IsWithin (length s) k ofs i ptr to _ (deeper ptr to j) (omega arith))
                    (λ _. ended-IsWithin (length s) k ofs (i + 2) to (inr (omega arith))))
                (λ _.
                  if-both P (leb (length s) (ofs + i + n + 1)) _ _
                    (λ _. (to, 0, refl, (λ a le. refl), inl refl))
                    (λ whole.
                      let fits : ofs + i + n + 1 < length s = ground arith in
                      let (to', m, e, keeps, end) =
                        loop-IsWithin follow deeper f ofs r.0 r.1 (i + n + 1) (omega arith)
                          (inr (omega arith)) in
                      (
                        to',
                        m,
                        e,
                        Keeps-trans k k to r.0 to' (omega arith) (label-Keeps k to j _) keeps,
                        end,
                      )))))

  depth-IsWithin :
      (left ofs : ℕ) (to : Memory) (j : ℕ)
      → IsWithin (length s) k ofs to (dns_parse_name_depth s (length s) k left ofs to j)
  unfolding dns_parse_name_depth
  depth-IsWithin zero ofs to j = (to, 0, refl, (λ a le. refl), inl refl)
  depth-IsWithin (suc left) ofs to j =
      loop-IsWithin (dns_parse_name_depth s (length s) k left) (depth-IsWithin left) (length s + 1)
        ofs to j 0 (omega arith) (inl refl)

-- Bytes behind the packet are not read.
module _ (s x : Bytes) (k : ℕ) where
  near : (a : ℕ) → a < length s → get_or (s ++ x) a 0 ≡ get_or s a 0
  near a h = get_or-append s x a 0 h

  label_near : (a n : ℕ) → a + n ≤ length s → take n (drop a (s ++ x)) ≡ take n (drop a s)
  label_near a n h =
      ap (take n) (drop-append_le a s x (omega arith))
      ∙ take-append_le n (drop a s) x (omega (arith, length-drop a s))

  pointer_near :
      (ptr i : ℕ) (other : Option (Memory × ℕ)) (f g : Option (Memory × ℕ))
      → f ≡ g
      → (if ltb (ptr + 1) (length s) && not (is_pointer (get_or (s ++ x) ptr 0))
          then followed f k i
          else other)
        ≡ (if ltb (ptr + 1) (length s) && not (is_pointer (get_or s ptr 0))
            then followed g k i
            else other)
  pointer_near ptr i other f g e = elim (Bool-cases (ltb (ptr + 1) (length s))) [
    | inl inside ↦ rw (inside, near ptr (ground arith), e) refl
    | inr outside ↦ rw outside refl
  ]

  loop_near :
      (f g : ℕ → Memory → ℕ → Option (Memory × ℕ))
      → ((ptr : ℕ) (to : Memory) (j : ℕ) → f ptr to j ≡ g ptr to j)
      → (rounds ofs : ℕ) (to : Memory) (j i : ℕ)
      → name_loop (s ++ x) (length s) k f rounds ofs to j i
        ≡ name_loop s (length s) k g rounds ofs to j i
  unfolding name_loop
  loop_near f g same zero ofs to j i = refl
  loop_near f g same (suc rounds) ofs to j i =
      if_alike_else (leb (length s) (ofs + i + 1)) _ _ _ (λ more.
        let room : ofs + i + 1 < length s = ground arith in
        rw (near (ofs + i) (omega arith), near (ofs + i + 1) room)
          (if_alike_else (get_or s (ofs + i) 0 == 0) _ _ _ (λ some_bytes.
            elim (Bool-cases (is_pointer (get_or s (ofs + i) 0))) [
              | inl e ↦ rw e (pointer_near _ i _ _ _ (same _ to j))
              | inr e ↦ rw e (
                  if_alike_else (leb (length s) (ofs + i + get_or s (ofs + i) 0 + 1)) _ _ _
                    (λ whole.
                      let fits : ofs + i + get_or s (ofs + i) 0 + 1 < length s = ground arith in
                      rw (label_near (ofs + i + 1) (get_or s (ofs + i) 0) (omega arith))
                        (loop_near f g same rounds ofs _ _ _)))
            ])))

  depth_near :
      (left ofs : ℕ) (to : Memory) (j : ℕ)
      → dns_parse_name_depth (s ++ x) (length s) k left ofs to j
        ≡ dns_parse_name_depth s (length s) k left ofs to j
  unfolding dns_parse_name_depth
  depth_near zero ofs to j = refl
  depth_near (suc left) ofs to j =
      loop_near (dns_parse_name_depth (s ++ x) (length s) k left)
        (dns_parse_name_depth s (length s) k left) (depth_near left) (length s + 1) ofs to j 0

-- On every packet, pointers that lead in a circle included, `dns_parse_name` ends; it writes below the
-- size of the buffer only, and the bytes that it takes, if any, lie inside the packet. Whatever stands
-- in memory behind the packet does not change the result.
pub dns_parse_name_bounds :
    (s beyond : Bytes) (tolen ofs : ℕ) (to : Memory)
    → (to' : Memory) × (i : ℕ) × (dns_parse_name s tolen ofs to ≡ some (to', i))
      × (dns_parse_name_at (s ++ beyond) (length s) tolen ofs to ≡ some (to', i))
      × Keeps tolen to to'
      × ((i ≡ 0) ⊎ (ofs + i ≤ length s))
unfolding dns_parse_name
dns_parse_name_bounds s beyond tolen ofs to =
    let start = if ltb 0 tolen then put to 0 0 else to in
    let (to', i, e, keeps, inside) = depth-IsWithin s tolen 6 ofs start 0 in
    (
      to',
      i,
      e,
      unfold dns_parse_name_at in depth_near s beyond tolen 6 ofs start 0 ∙ e,
      Keeps-trans tolen tolen to start to' (omega arith)
          (put_if-Keeps tolen (ltb 0 tolen) to 0 0 (λ h. ground arith)) keeps,
      inside,
    )
