-- ===== src/Http/Chunks/Bounds.antt =====
-- http.cpp, chunked bodies: both passes stay inside the buffer, whatever it holds.
use nanosrv.Common.{
  ℕ, zero, suc, ◌+◌, ◌≤◌, ◌++◌, ◌≡◌, ◌⊎◌, inl, inr, refl, ◌∙◌, arith, Bytes, ◌==◌, if-both, length,
  take, drop, length-append, length-take, length-drop, Option-cases,
}
use nanosrv.Str.{str_to_num}
use nanosrv.IoBuf.{memmove}
use nanosrv.Http.Chunks.{Chunk, invalid, partial, chunk, hex_run, skip_chunk, relocate}

-- A chunk that is found lies inside the text, with its line end behind the data.
abbrev pub IsInside : ℕ → Chunk → Type 0
IsInside len invalid = Unit
IsInside len partial = Unit
IsInside len (chunk pl dl cl) = (pl + dl + 2 ≡ cl) × (cl ≤ len)

pub skip_chunk-IsInside : (beyond : ℕ) (s : Bytes) → IsInside (length s) (skip_chunk beyond s)
unfolding skip_chunk
skip_chunk-IsInside beyond s = elim (Option-cases (str_to_num (take (hex_run s) s) 16 4)) [
  | inl e ↦ rw (e, skip_chunk) (ground arith)
  | inr (n, e) ↦ rw (e, skip_chunk) (ground arith)
]

length-memmove :
    (buf : Bytes) (dst src n : ℕ)
    → dst ≤ src
    → src + n ≤ length buf
    → length (memmove buf dst src n) ≡ length buf
unfolding memmove
length-memmove buf dst src n h k = omega (
  arith,
  length-append (take dst buf) (take n (drop src buf) ++ drop (dst + n) buf),
  length-append (take n (drop src buf)) (drop (dst + n) buf),
  length-take dst buf,
  length-take n (drop src buf),
  length-drop src buf,
  length-drop (dst + n) buf,
)

Chunk-cases :
    (r : Chunk)
    → (r ≡ invalid) ⊎ ((r ≡ partial) ⊎ ((pl : ℕ) × (dl : ℕ) × (cl : ℕ) × (r ≡ chunk pl dl cl)))
Chunk-cases invalid = inl refl
Chunk-cases partial = inr (inl refl)
Chunk-cases (chunk pl dl cl) = inr (inr (pl, dl, cl, refl))

-- What the second pass reports lies inside the text, whose length it keeps.
abbrev pub Moved : Bytes → Bytes × ℕ × ℕ → Type 0
Moved s r = (length r.0 ≡ length s) × (r.1 ≤ r.2) × (r.2 ≤ length s)

pub relocate-Moved :
    (f beyond : ℕ) (s : Bytes) (b o : ℕ) → b ≤ o → o ≤ length s → Moved s (relocate f beyond s b o)
unfolding relocate
relocate-Moved zero beyond s b o h k = (refl, h, k)
relocate-Moved (suc f) beyond s b o h k = elim (Chunk-cases (skip_chunk beyond (drop o s))) [
  | inl e ↦ rw (e, relocate) (refl, h, k)
  | inr (inl e) ↦ rw (e, relocate) (refl, h, k)
  | inr (inr (pl, dl, cl, e)) ↦
      let inside : IsInside (length (drop o s)) (chunk pl dl cl) =
        rw e at (skip_chunk-IsInside beyond (drop o s)) in
      let room : o + cl ≤ length s = omega (arith, inside, length-drop o s) in
      let s' = memmove s b (o + pl) dl in
      let same : length s' ≡ length s =
        length-memmove s b (o + pl) dl (omega arith) (omega (arith, inside, room)) in
      let next =
        relocate-Moved f beyond s' (b + dl) (o + cl) (omega (arith, inside))
          (omega (arith, room, same)) in
      rw (e, relocate)
        (if-both (Moved s) (dl == 0) (s', b + dl, o + cl) (relocate f beyond s' (b + dl) (o + cl))
          (λ _. (same, omega (arith, inside), room))
          (λ _. (next.0 ∙ same, next.1, omega (arith, next, same))))
]
