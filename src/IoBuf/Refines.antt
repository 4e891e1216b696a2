-- ===== src/IoBuf/Refines.antt =====
-- iobuf.cpp: the buffer holds a byte string, followed by zeros up to the end of the allocation, and
-- each operation does to the string what its name says.
use nanosrv.Common.{
  ℕ, zero, ◌≢◌, suc, ◌+◌, ◌-◌, ◌*◌, ◌/◌, ◌%◌, ◌≤◌, ◌<◌, Bool, true, false, [], ◌++◌, ◌≡◌, ◌⊎◌, inl,
  inr, Bool-cases, refl, sym, ap, ◌∙◌, arith, Bytes, ltb, if◌then◌else◌, length, take, drop,
  replicate, min, take_all, take-append_le, drop-append_le, drop-append_ge, drop-replicate,
  length-take,
}
use native.Mathlib.Decide.{ℕ_discrete}
use native.Mathlib.Nat.{div-mul-le_self, lt-div-mul-add, mul-add-div_right, div-eq_of_lt}
use nanosrv.IoBuf.{IoBuffer, size_mod, roundup, iobuf_resize}

roundup_closed : (n a : ℕ) → 0 < a → n + a ≤ size_mod → roundup n a ≡ (n + (a - 1)) / a * a
unfolding roundup
roundup_closed n a pos h =
    let wrap : (n + a + size_mod - 1) % size_mod ≡ n + (a - 1) = omega arith in
    ground (arith, wrap, div-mul-le_self (n + (a - 1)) a)

pub roundup_zero : (n : ℕ) → roundup n 0 ≡ n
unfolding roundup
roundup_zero n = refl

pub roundup-le : (n a : ℕ) → n + a + a ≤ size_mod → n ≤ roundup n a
roundup-le n zero h = rw roundup_zero (omega arith)
roundup-le n (suc a) h = omega (
  arith,
  roundup_closed n (suc a) (omega arith) (omega arith),
  lt-div-mul-add {a = n + (suc a - 1)} {b = suc a} (omega arith),
)

pub roundup_bound : (n a : ℕ) → n + a + a ≤ size_mod → roundup n a ≤ n + a
roundup_bound n zero h = rw roundup_zero (omega arith)
roundup_bound n (suc a) h = omega (
  arith,
  roundup_closed n (suc a) (omega arith) (omega arith),
  div-mul-le_self (n + (suc a - 1)) (suc a),
)

pub roundup_idem : (n a : ℕ) → n + a + a ≤ size_mod → roundup (roundup n a) a ≡ roundup n a
roundup_idem n zero h = roundup_zero (roundup n 0)
roundup_idem n (suc a) h =
    let q = (n + (suc a - 1)) / suc a in
    let once = roundup_closed n (suc a) (omega arith) (omega arith) in
    let fits : q * suc a ≤ n + (suc a - 1) = div-mul-le_self (n + (suc a - 1)) (suc a) in
    let quot : (q * suc a + (suc a - 1)) / suc a ≡ q =
      mul-add-div_right (omega arith) q (suc a - 1)
      ∙ ap (λ t. q + t) (div-eq_of_lt (omega arith))
      ∙ omega arith in
    rw once
      (roundup_closed (q * suc a) (suc a) (omega arith) (omega arith) ∙ ap (λ t. t * suc a) quot)

-- The buffer holds the bytes `c`, and zeros behind them.
pub record Represents (io : IoBuffer) (c : Bytes) : Type 0 where
  pub holds : io.buf ≡ c ++ replicate (io.size - io.len) 0
  pub length_held : io.len ≡ length c
  pub fits : io.len ≤ io.size

-- The first bytes of a buffer are the first bytes that it holds.
pub take-held :
    (io : IoBuffer) (c : Bytes) (k : ℕ) → Represents io c → k ≤ io.len → take k io.buf ≡ take k c
take-held io c k rep h = rw rep.holds (take-append_le k c _ (omega arith))

pub drop-held :
    (io : IoBuffer) (c : Bytes) (k : ℕ)
    → Represents io c
    → k ≤ io.len
    → drop k io.buf ≡ drop k c ++ replicate (io.size - io.len) 0
drop-held io c k rep h = rw rep.holds (drop-append_le k c _ (omega arith))

-- Behind the bytes that it holds there are only zeros.
pub drop-rest :
    (io : IoBuffer) (c : Bytes) (k : ℕ)
    → Represents io c
    → io.len ≤ k
    → drop k io.buf ≡ replicate (io.size - k) 0
drop-rest io c k rep h =
    let e : io.size - io.len - (k - length c) ≡ io.size - k = omega arith in
    rw rep.holds
      (drop-append_ge k c _ (omega arith) ∙ drop-replicate _ _ 0 ∙ ap (λ j. replicate j 0) e)

fresh-Represents :
    (io : IoBuffer) (c : Bytes) (m l : ℕ)
    → Represents io c
    → l ≡ min m io.len
    → Represents
        (record io { buf = take l io.buf ++ replicate (m - l) 0; size = m; len = l })
        (take m c)
fresh-Represents io c m l rep e = record {
  holds =
      let same : take l c ≡ take m c = elim (Bool-cases (ltb m io.len)) [
        | inl less ↦ ap (λ k. take k c) (ground arith)
        | inr more ↦ take_all c l (ground arith) ∙ sym (take_all c m (ground arith))
      ] in
      ap (λ t. t ++ replicate (m - l) 0) (take-held io c l rep (omega arith) ∙ same);
  length_held = omega (arith, length-take m c);
  fits = omega arith;
}

pub empty-Represents : (io : IoBuffer) → Represents (record io { buf = []; size = 0; len = 0 }) []
empty-Represents io = record { holds = refl; length_held = refl; fits = omega arith }

module _ (alloc : ℕ → Bool) where
  -- The four ways through `iobuf_resize`.
  resize_zero :
      (io : IoBuffer) (n : ℕ)
      → roundup n io.align ≡ 0
      → iobuf_resize alloc io n ≡ (record io { buf = []; size = 0; len = 0 }, true)
  unfolding iobuf_resize
  resize_zero io n e = ground arith

  resize_same :
      (io : IoBuffer) (n : ℕ)
      → roundup n io.align ≢ 0
      → roundup n io.align ≡ io.size
      → iobuf_resize alloc io n ≡ (io, true)
  unfolding iobuf_resize
  resize_same io n ne e = ground arith

  resize_fresh :
      (io : IoBuffer) (n : ℕ)
      → roundup n io.align ≢ 0
      → roundup n io.align ≢ io.size
      → alloc (roundup n io.align) ≡ true
      → let m = roundup n io.align in
        let l = min m io.len in
        iobuf_resize alloc io n
        ≡ (record io { buf = take l io.buf ++ replicate (m - l) 0; size = m; len = l }, true)
  unfolding iobuf_resize
  resize_fresh io n ne ns ok =
      let pick : (if ltb (roundup n io.align) io.len then roundup n io.align else io.len)
          ≡ min (roundup n io.align) io.len =
        ground arith in
      rw pick (ground arith)

  resize_fails :
      (io : IoBuffer) (n : ℕ)
      → roundup n io.align ≢ 0
      → roundup n io.align ≢ io.size
      → alloc (roundup n io.align) ≡ false
      → iobuf_resize alloc io n ≡ (io, false)
  unfolding iobuf_resize
  resize_fails io n ne ns bad = ground arith

  -- Resizing keeps as many bytes as fit; where the allocator fails, the buffer stays as it was.
  pub resize-Represents :
      (io : IoBuffer) (c : Bytes) (n : ℕ)
      → Represents io c
      → let r = iobuf_resize alloc io n in
        let m = roundup n io.align in
        ((r.1 ≡ true) × (r.0.size ≡ m) × (r.0.align ≡ io.align) × Represents r.0 (take m c))
        ⊎ ((r.1 ≡ false) × (m ≢ io.size) × (alloc m ≡ false) × (r.0 ≡ io))
  resize-Represents io c n rep = elim (ℕ_discrete (roundup n io.align) 0) [
    | yes z ↦ rw (resize_zero io n z, z) (inl (refl, refl, refl, empty-Represents io))
    | no nz ↦ elim (ℕ_discrete (roundup n io.align) io.size) [
      | yes e ↦
          let all : take (roundup n io.align) c ≡ c =
            take_all c _ (omega (arith, rep.fits, rep.length_held)) in
          rw (resize_same io n nz e) (inl (refl, sym e, refl, rw all rep))
      | no ne ↦ elim (Bool-cases (alloc (roundup n io.align))) [
        | inl ok ↦
            rw (resize_fresh io n nz ne ok)
              (inl (refl, refl, refl, fresh-Represents io c _ _ rep refl))
        | inr bad ↦ rw (resize_fails io n nz ne bad) (inr (refl, ne, bad, refl))
      ]
    ]
  ]
