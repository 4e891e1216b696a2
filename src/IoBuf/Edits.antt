-- ===== src/IoBuf/Edits.antt =====
-- iobuf.cpp: adding and deleting bytes, as edits of the byte string that the buffer holds.
use nanosrv.Common.{
  ℕ, ◌≢◌, ◌+◌, ◌-◌, ◌%◌, ◌≤◌, ◌<◌, Bool, true, false, some, [], ◌++◌, ◌≡◌, ◌⊎◌, inl, inr,
  Bool-cases, refl, sym, ap, ◌∙◌, arith, Bytes, ltb, ◌==◌, if◌then◌else◌, length, take, drop,
  replicate, min, take_all, take-append_le, drop-append_ge, take-take_le, replicate-append,
  length-append, length-take, length-drop, length-replicate, append_assoc, take-append_self,
  drop-append_self, take-append-drop, drop-drop, drop_all, take-eq_of_end, drop-eq_of_end,
}
use nanosrv.IoBuf.{
  IoBuffer, size_mod, roundup, memmove, store, iobuf_resize, iobuf_init, iobuf_add, iobuf_del,
}
use nanosrv.IoBuf.Refines.{
  Represents, take-held, drop-held, drop-rest, resize-Represents, roundup-le, roundup_bound,
  roundup_idem, empty-Represents,
}

length-buf : (io : IoBuffer) (c : Bytes) → Represents io c → length io.buf ≡ io.size
length-buf io c rep = omega (
  arith,
  ap length rep.holds,
  length-append c (replicate (io.size - io.len) 0),
  length-replicate {A = ℕ} (io.size - io.len) 0,
  rep.fits,
  rep.length_held,
)

-- Opening a gap of `n` bytes: what stands before it, and what stands behind it.
abbrev opened : IoBuffer → ℕ → ℕ → Bytes
opened io ofs n = if ltb ofs io.len then memmove io.buf (ofs + n) ofs (io.len - ofs) else io.buf

module _ (io : IoBuffer) (c : Bytes) (ofs n : ℕ) (rep : Represents io c) (inside : ofs ≤ io.len)
    (room : io.len + n ≤ io.size) where
  length_front : length (take (ofs + n) io.buf) ≡ ofs + n
  length_front = omega (arith, length-take (ofs + n) io.buf, length-buf io c rep)

  take-opened : take ofs (opened io ofs n) ≡ take ofs c
  unfolding memmove
  take-opened = elim (Bool-cases (ltb ofs io.len)) [
    | inl less ↦ rw less (
        take-append_le ofs (take (ofs + n) io.buf) _ (omega (arith, length_front))
        ∙ take-take_le ofs (ofs + n) io.buf (omega arith)
        ∙ take-held io c ofs rep inside)
    | inr all ↦ rw all (take-held io c ofs rep inside)
  ]

  drop-opened :
      drop (ofs + n) (opened io ofs n) ≡ drop ofs c ++ replicate (io.size - (io.len + n)) 0
  unfolding memmove
  drop-opened = elim (Bool-cases (ltb ofs io.len)) [
    | inl less ↦
        let back : take (io.len - ofs) (drop ofs io.buf) ≡ drop ofs c =
          ap (take (io.len - ofs)) (drop-held io c ofs rep inside)
          ∙ take-append_self (drop ofs c) _ (io.len - ofs)
              (omega (arith, length-drop ofs c, rep.length_held)) in
        let rest : drop (ofs + n + (io.len - ofs)) io.buf ≡ replicate (io.size - (io.len + n)) 0 =
          let e : ofs + n + (io.len - ofs) ≡ io.len + n = omega arith in
          rw e (drop-rest io c (io.len + n) rep (omega arith)) in
        rw less (
          drop-append_self (take (ofs + n) io.buf) _ (ofs + n) (sym length_front)
          ∙ ap (λ t. t ++ drop (ofs + n + (io.len - ofs)) io.buf) back
          ∙ ap (λ t. drop ofs c ++ t) rest)
    | inr all ↦
        let at_end : ofs ≡ io.len = ground arith in
        let gone : drop ofs c ≡ [] = drop_all c ofs (omega (arith, rep.length_held)) in
        rw (all, gone, at_end) (drop-rest io c (io.len + n) rep (omega arith))
  ]

-- Writing `b` into the gap.
added-Represents :
    (io : IoBuffer) (c : Bytes) (ofs : ℕ) (b : Bytes)
    → Represents io c
    → ofs ≤ io.len
    → io.len + length b ≤ io.size
    → Represents
        (record io { buf = store (opened io ofs (length b)) ofs b; len = io.len + length b })
        (take ofs c ++ (b ++ drop ofs c))
unfolding store
added-Represents io c ofs b rep inside room = record {
  holds =
      let zs : Bytes = replicate (io.size - (io.len + length b)) 0 in
      rw (
        take-opened io c ofs (length b) rep inside room,
        drop-opened io c ofs (length b) rep inside room,
        append_assoc (take ofs c) (b ++ drop ofs c) zs,
        append_assoc b (drop ofs c) zs,
      );
  length_held = omega (
    arith,
    length-append (take ofs c) (b ++ drop ofs c),
    length-append b (drop ofs c),
    length-take ofs c,
    length-drop ofs c,
    rep.length_held,
  );
  fits = omega arith;
}

module _ (alloc : ℕ → Bool) where
  -- `iobuf_add` once the buffer has been resized to `io`.
  add_at : (io : IoBuffer) (m ofs : ℕ) (b : Bytes) → IoBuffer × ℕ
  add_at io m ofs b =
      let len = if m == io.size then length b else 0 in
      (
        record io {
          buf = store (opened io ofs len) ofs (take len b);
          len = ((if ltb io.len ofs then ofs else io.len) + len) % size_mod;
        },
        len,
      )

  add_resized :
      (io : IoBuffer) (ofs : ℕ) (b : Bytes)
      → let m = roundup ((io.len + length b) % size_mod) io.align in
        iobuf_add alloc io ofs (some b) (length b) ≡ add_at (iobuf_resize alloc io m).0 m ofs b
  unfolding iobuf_add add_at
  add_resized io ofs b = refl

  add_at-room :
      (io : IoBuffer) (c : Bytes) (m ofs : ℕ) (b : Bytes)
      → Represents io c
      → m ≡ io.size
      → ofs ≤ io.len
      → io.len + length b ≤ io.size
      → io.len + length b < size_mod
      → ((add_at io m ofs b).1 ≡ length b)
        × Represents (add_at io m ofs b).0 (take ofs c ++ (b ++ drop ofs c))
  unfolding add_at
  add_at-room io c m ofs b rep same inside room small =
      let t : (m == io.size) ≡ true = ground arith in
      let u : ltb io.len ofs ≡ false = ground arith in
      let plain : (io.len + length b) % size_mod ≡ io.len + length b = omega arith in
      rw (t, take_all b (length b) (omega arith), u, plain)
        (refl, added-Represents io c ofs b rep inside room)

  add_at-full :
      (io : IoBuffer) (c : Bytes) (m ofs : ℕ) (b : Bytes)
      → Represents io c
      → m ≢ io.size
      → ofs ≤ io.len
      → io.len < size_mod
      → ((add_at io m ofs b).1 ≡ 0) × Represents (add_at io m ofs b).0 c
  unfolding add_at
  add_at-full io c m ofs b rep other inside small =
      let t : (m == io.size) ≡ false = ground arith in
      let u : ltb io.len ofs ≡ false = ground arith in
      let r = added-Represents io c ofs [] rep inside (omega (arith, rep.fits)) in
      let plain : (io.len + 0) % size_mod ≡ io.len + 0 = omega arith in
      rw (t, u, plain) (refl, rw take-append-drop at r)

  -- Adding bytes at a place inside the string inserts them there and returns their number; where the
  -- allocator has no room for the new size, it returns 0 and the string is the same. The total size
  -- is supposed not to wrap around.
  pub add-Represents :
      (io : IoBuffer) (c b : Bytes) (ofs : ℕ)
      → Represents io c
      → ofs ≤ length c
      → length c + length b + io.align + io.align < size_mod
      → let r = iobuf_add alloc io ofs (some b) (length b) in
        ((r.1 ≡ length b) × Represents r.0 (take ofs c ++ (b ++ drop ofs c)))
        ⊎ ((r.1 ≡ 0) × (alloc (roundup (length c + length b) io.align) ≡ false) × Represents r.0 c)
  add-Represents io c b ofs rep inside room =
      let m = roundup (length c + length b) io.align in
      let total : (io.len + length b) % size_mod ≡ length c + length b =
        omega (arith, rep.length_held) in
      let idem : roundup m io.align ≡ m =
        roundup_idem (length c + length b) io.align (omega arith) in
      let le = roundup-le (length c + length b) io.align (omega arith) in
      let run : iobuf_add alloc io ofs (some b) (length b)
          ≡ add_at (iobuf_resize alloc io m).0 m ofs b =
        rw (← total) (add_resized io ofs b) in
      rw run (elim (resize-Represents alloc io c m rep) [
        | inl (_, size, _, held) ↦
            let io' = (iobuf_resize alloc io m).0 in
            let held' : Represents io' c =
              let all : take (roundup m io.align) c ≡ c = rw idem (take_all c m (omega arith)) in
              rw all at held in
            inl (
              add_at-room io' c m ofs b held' (sym (size ∙ idem)) (omega (arith, held'.length_held))
                (omega (arith, held'.length_held, size, idem)) (omega (arith, held'.length_held)))
        | inr (_, other, none_left, same) ↦
            let (zero_added, kept) =
              add_at-full io c m ofs b rep (λ e. other (idem ∙ e)) (omega (arith, rep.length_held))
                (omega (arith, rep.length_held)) in
            rw same (inr (zero_added, rw idem at none_left, kept))
      ])

-- The bytes that stay, the shifted buffer, and the zeros behind it.
module _ (io : IoBuffer) (c : Bytes) (ofs n : ℕ) (rep : Represents io c)
    (inside : ofs + n ≤ io.len) where
  length_kept : length (take ofs c ++ drop (ofs + n) c) ≡ io.len - n
  length_kept = omega (
    arith,
    length-append (take ofs c) (drop (ofs + n) c),
    length-take ofs c,
    length-drop (ofs + n) c,
    rep.length_held,
  )

  shifted :
      memmove io.buf ofs (ofs + n) (io.len - ofs - n)
      ≡ (take ofs c ++ drop (ofs + n) c) ++ drop (io.len - n) io.buf
  unfolding memmove
  shifted =
      let kept : take (io.len - ofs - n) (drop (ofs + n) io.buf) ≡ drop (ofs + n) c =
        ap (take (io.len - ofs - n)) (drop-held io c (ofs + n) rep inside)
        ∙ take-append_self (drop (ofs + n) c) _ (io.len - ofs - n)
            (omega (arith, length-drop (ofs + n) c, rep.length_held)) in
      let e : ofs + (io.len - ofs - n) ≡ io.len - n = omega arith in
      rw (
        take-held io c ofs rep (omega arith),
        kept,
        e,
        append_assoc (take ofs c) (drop (ofs + n) c) (drop (io.len - n) io.buf),
      )

  wiped :
      store (memmove io.buf ofs (ofs + n) (io.len - ofs - n)) (io.len - n) (replicate n 0)
      ≡ (take ofs c ++ drop (ofs + n) c) ++ replicate (io.size - (io.len - n)) 0
  unfolding store
  wiped =
      let kept : Bytes = take ofs c ++ drop (ofs + n) c in
      let rest : Bytes = drop (io.len - n) io.buf in
      let front : take (io.len - n) (kept ++ rest) ≡ kept =
        take-append_self kept rest (io.len - n) (sym length_kept) in
      let tail : drop (io.len - n + length {A = ℕ} (replicate n 0)) (kept ++ rest)
          ≡ replicate (io.size - io.len) 0 =
        drop-append_ge _ kept rest (omega (arith, length_kept, length-replicate {A = ℕ} n 0))
        ∙ drop-drop _ (io.len - n) io.buf
        ∙ drop-rest io c _ rep (omega (arith, length_kept, length-replicate {A = ℕ} n 0))
        ∙ ap (λ j. replicate j 0) (omega (arith, length_kept, length-replicate {A = ℕ} n 0)) in
      let e : n + (io.size - io.len) ≡ io.size - (io.len - n) = omega (arith, rep.fits) in
      rw (shifted, front, tail, replicate-append n (io.size - io.len) (let z : ℕ = 0 in z), e)

-- Deleting removes what stands between two places, fewer bytes where the string ends before, wipes
-- the bytes that are left over, and returns how many it removed; the string and the number asked for
-- are supposed to be less than 2 ^ 64 together.
pub del-Represents :
    (io : IoBuffer) (c : Bytes) (ofs n : ℕ)
    → Represents io c
    → length c + n < size_mod
    → let r = iobuf_del io ofs n in
      (r.1 ≡ min n (length c - ofs)) × Represents r.0 (take ofs c ++ drop (ofs + n) c)
unfolding iobuf_del
del-Represents io c ofs₀ n₀ rep small =
    let ofs = min ofs₀ io.len in
    let n = min n₀ (io.len - ofs) in
    let o : (if ltb io.len ofs₀ then io.len else ofs₀) ≡ ofs = ground arith in
    let sum : (ofs + n₀) % size_mod ≡ ofs + n₀ = omega (arith, rep.length_held) in
    let l : (if ltb io.len (ofs + n₀) then io.len - ofs else n₀) ≡ n = ground arith in
    let front : take ofs c ≡ take ofs₀ c =
      take-eq_of_end ofs ofs₀ c (grind (arith, rep.length_held)) in
    let back : drop (ofs + n) c ≡ drop (ofs₀ + n₀) c =
      drop-eq_of_end (ofs + n) (ofs₀ + n₀) c (grind (arith, rep.length_held)) in
    rw (o, sum, l, ← front, ← back)
      (
        omega (arith, rep.length_held),
        record {
          holds = wiped io c ofs n rep (omega arith);
          length_held = sym (length_kept io c ofs n rep (omega arith));
          fits = omega (arith, rep.fits);
        },
      )

-- Adding bytes behind the end of the string, further than the alignment, reserves no room for the gap:
-- although the allocator gives all that is asked for, the length that the buffer then claims is larger
-- than its allocation. The sizes are supposed not to wrap around.
pub add_past_end :
    (io : IoBuffer) (c b : Bytes) (ofs : ℕ)
    → Represents io c
    → length c + io.align < ofs
    → length c + length b + io.align + io.align < size_mod
    → ofs + length b < size_mod
    → let r = iobuf_add (λ _. true) io ofs (some b) (length b) in r.0.size < r.0.len
add_past_end io c b ofs rep beyond room end =
    let short = roundup_bound (length c + length b) io.align (omega arith) in
    let plain : (ofs + length b) % size_mod ≡ ofs + length b = omega arith in
    let m = roundup (length c + length b) io.align in
    let total : (io.len + length b) % size_mod ≡ length c + length b =
      omega (arith, rep.length_held) in
    let idem : roundup m io.align ≡ m = roundup_idem (length c + length b) io.align (omega arith) in
    let run : iobuf_add (λ _. true) io ofs (some b) (length b)
        ≡ add_at (λ _. true) (iobuf_resize (λ _. true) io m).0 m ofs b =
      rw (← total) (add_resized (λ _. true) io ofs b) in
    rw run (elim (resize-Represents (λ _. true) io c m rep) [
      | inl (_, size, _, held) ↦
          let io' = (iobuf_resize (λ _. true) io m).0 in
          let t : (m == io'.size) ≡ true = ground (arith, size, idem) in
          let u : ltb io'.len ofs ≡ true =
            ground (arith, held.length_held, length-take (roundup m io.align) c) in
          unfold add_at in rw (t, u, plain) (omega (arith, size, idem, short))
      | inr (_, _, none_left, _) ↦ absurd (cc none_left)
    ])

pub init-Represents :
    (alloc : ℕ → Bool) (size align : ℕ) → Represents (iobuf_init alloc size align).0 []
unfolding iobuf_init
init-Represents alloc size align =
    let io : IoBuffer = record { buf = []; size = 0; len = 0; align = align } in
    let none_kept : take {A = ℕ} (roundup size align) [] ≡ [] = take_all [] _ (omega arith) in
    elim (resize-Represents alloc io [] size (empty-Represents io)) [
      | inl (_, _, _, held) ↦ rw none_kept at held
      | inr (_, _, _, same) ↦ rw same (empty-Represents io)
    ]
