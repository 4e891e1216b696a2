-- ===== src/Http/Chunks/Body.antt =====
-- http.cpp: the two passes over a chunked body that is buffered whole, in place.
use nanosrv.Common.{
  ℕ, zero, suc, ◌+◌, ◌-◌, ◌≤◌, ◌<◌, false, List, [], ◌∷◌, ◌++◌, ◌≡◌, refl, sym, ap, ◌∙◌, arith,
  Bytes, ◌==◌, if◌then◌else◌, length, take, drop, length-append, length-take, length-drop,
  take-append_self, drop-append_self, drop-drop, append_assoc, All,
}
use nanosrv.IoBuf.{memmove}
use nanosrv.Http.Chunks.{chunk, skip_chunk, complete, scan_chunks, relocate}
use nanosrv.Http.Chunks.Texts.{
  IsSize, chunk_text, skip_chunk-text, drop-chunk_text, length-chunk_text, chunk_text_data,
}

-- The chunks that carry data, each with the text of its size; the last chunk; and what follows.
abbrev pub body_text : List (Bytes × Bytes) → Bytes → Bytes → Bytes
body_text [] last rest = chunk_text last [] rest
body_text ((t, d) ∷ cs) last rest = chunk_text t d (body_text cs last rest)

abbrev pub all_data : List (Bytes × Bytes) → Bytes
all_data [] = []
all_data ((t, d) ∷ cs) = d ++ all_data cs

abbrev pub AreSizes : List (Bytes × Bytes) → Type 0
AreSizes = All (λ c. IsSize c.0 (length c.1) × (0 < length c.1))

-- Moving bytes to the front: the bytes behind the place that is written stay.
memmove_back :
    (buf : Bytes) (dst src n : ℕ)
    → dst ≤ src
    → src + n ≤ length buf
    → (take (dst + n) (memmove buf dst src n) ≡ take dst buf ++ take n (drop src buf))
      × (drop (dst + n) (memmove buf dst src n) ≡ drop (dst + n) buf)
unfolding memmove
memmove_back buf dst src n h k =
    let front = take dst buf ++ take n (drop src buf) in
    let len : dst + n ≡ length front = omega (
      arith,
      length-append (take dst buf) (take n (drop src buf)),
      length-take dst buf,
      length-take n (drop src buf),
      length-drop src buf,
    ) in
    rw (← append_assoc (take dst buf) (take n (drop src buf)) (drop (dst + n) buf))
      (take-append_self front _ (dst + n) len, drop-append_self front _ (dst + n) len)

drop_later : (xs ys : Bytes) (j k : ℕ) → j ≤ k → drop j xs ≡ drop j ys → drop k xs ≡ drop k ys
drop_later xs ys j k h e =
    let split : k ≡ j + (k - j) = omega arith in
    rw split (sym (drop-drop (k - j) j xs) ∙ ap (drop (k - j)) e ∙ drop-drop (k - j) j ys)

scan-complete :
    (beyond : ℕ) (cs : List (Bytes × Bytes)) (last rest : Bytes) (f : ℕ)
    → AreSizes cs
    → IsSize last 0
    → length cs < f
    → scan_chunks f beyond (body_text cs last rest) ≡ complete
unfolding scan_chunks
scan-complete beyond cs last rest zero a z h = absurd (omega arith)
scan-complete beyond [] last rest (suc f) a z h =
    rw (skip_chunk-text beyond last [] rest z, scan_chunks) refl
scan-complete beyond ((t, d) ∷ cs) last rest (suc f) a z h =
    let some : (length d == 0) ≡ false = ground (arith, a.0.1) in
    let dropped = drop-chunk_text t d (body_text cs last rest) in
    rw (skip_chunk-text beyond t d (body_text cs last rest) a.0.0, scan_chunks, some)
      (rw dropped (scan-complete beyond cs last rest f a.1 z (omega arith)))

-- What the second pass leaves: the data together at the front, and all that follows the body.
pub record IsJoined (s : Bytes) (b o : ℕ) (out rest : Bytes) (wire : ℕ) (r : Bytes × ℕ × ℕ)
    : Type 0 where
  pub joined : take r.1 r.0 ≡ take b s ++ out
  pub body_len : r.1 ≡ b + length out
  pub behind : drop r.2 r.0 ≡ rest
  pub offset : r.2 ≡ o + wire

abbrev pub wire_len : List (Bytes × Bytes) → Bytes → ℕ
wire_len [] last = length last + 4
wire_len ((t, d) ∷ cs) last = length t + 2 + length d + 2 + wire_len cs last

-- One chunk at the offset o.
round_facts :
    (s t d more : Bytes) (b o : ℕ)
    → b ≤ o
    → 0 < length t
    → drop o s ≡ chunk_text t d more
    → let s' = memmove s b (o + (length t + 2)) (length d) in
      (take (b + length d) s' ≡ take b s ++ d)
      × (drop (o + (length t + 2 + length d + 2)) s' ≡ more)
round_facts s t d more b o h pos e =
    let size : length s - o ≡ length t + 2 + length d + 2 + length more =
      omega (arith, ap length e, length-drop o s, length-chunk_text t d more) in
    let moved =
      memmove_back s b (o + (length t + 2)) (length d) (omega arith) (omega (arith, size)) in
    let data_at : take (length d) (drop (o + (length t + 2)) s) ≡ d =
      ap (take (length d)) (sym (drop-drop (length t + 2) o s) ∙ ap (drop (length t + 2)) e)
      ∙ chunk_text_data t d more in
    (
      moved.0 ∙ ap (λ x. take b s ++ x) data_at,
      drop_later _ s (b + length d) (o + (length t + 2 + length d + 2)) (omega arith) moved.1
          ∙ sym (drop-drop (length t + 2 + length d + 2) o s)
          ∙ ap (drop (length t + 2 + length d + 2)) e
          ∙ drop-chunk_text t d more,
    )

relocate_step :
    (f beyond : ℕ) (s : Bytes) (b o pl dl cl : ℕ)
    → skip_chunk beyond (drop o s) ≡ chunk pl dl cl
    → relocate (suc f) beyond s b o ≡ (
        let s' = memmove s b (o + pl) dl in
        if dl == 0 then (s', b + dl, o + cl) else relocate f beyond s' (b + dl) (o + cl))
unfolding relocate
relocate_step f beyond s b o pl dl cl e = rw (e, relocate) refl

relocate-joins :
    (beyond : ℕ) (cs : List (Bytes × Bytes)) (last rest : Bytes) (f : ℕ) (s : Bytes) (b o : ℕ)
    → AreSizes cs
    → IsSize last 0
    → length cs < f
    → b ≤ o
    → drop o s ≡ body_text cs last rest
    → IsJoined s b o (all_data cs) rest (wire_len cs last) (relocate f beyond s b o)
relocate-joins beyond cs last rest zero s b o a z h le e = absurd (omega arith)
relocate-joins beyond [] last rest (suc f) s b o a z h le e =
    let facts = round_facts s last [] rest b o le z.some_digit e in
    let step =
      relocate_step f beyond s b o _ 0 _
        (ap (skip_chunk beyond) e ∙ skip_chunk-text beyond last [] rest z) in
    rw step
      (record { joined = facts.0; body_len = omega arith; behind = facts.1; offset = omega arith })
relocate-joins beyond ((t, d) ∷ cs) last rest (suc f) s b o a z h le e =
    let more = body_text cs last rest in
    let facts = round_facts s t d more b o le a.0.0.some_digit e in
    let step =
      relocate_step f beyond s b o _ (length d) _
        (ap (skip_chunk beyond) e ∙ skip_chunk-text beyond t d more a.0.0) in
    let some : (length d == 0) ≡ false = ground (arith, a.0.1) in
    let s' = memmove s b (o + (length t + 2)) (length d) in
    let next =
      relocate-joins beyond cs last rest f s' (b + length d) (o + (length t + 2 + length d + 2)) a.1
        z (omega arith) (omega arith) facts.1 in
    rw (step, some)
      (record {
        joined =
            next.joined
            ∙ ap (λ x. x ++ all_data cs) facts.0
            ∙ append_assoc (take b s) d (all_data cs);
        body_len = omega (arith, next.body_len, length-append d (all_data cs));
        behind = next.behind;
        offset = omega (arith, next.offset);
      })

length-body_text :
    (cs : List (Bytes × Bytes)) (last rest : Bytes) → length cs < length (body_text cs last rest)
length-body_text [] last rest = omega (arith, length-chunk_text last [] rest)
length-body_text ((t, d) ∷ cs) last rest =
    omega (arith, length-chunk_text t d (body_text cs last rest), length-body_text cs last rest)

-- A chunked body that is buffered whole is found complete; the second pass leaves the data of all
-- chunks in order at its front, reports their length, and stops behind the last chunk, where the
-- bytes that follow, such as the next request, stand as before.
pub chunked_body :
    (beyond : ℕ) (cs : List (Bytes × Bytes)) (last rest : Bytes)
    → AreSizes cs
    → IsSize last 0
    → let s = body_text cs last rest in
      let r = relocate (length s) beyond s 0 0 in
      (scan_chunks (length s) beyond s ≡ complete)
      × (r.1 ≡ length (all_data cs))
      × (take r.1 r.0 ≡ all_data cs)
      × (drop r.2 r.0 ≡ rest)
      × (r.2 ≡ wire_len cs last)
chunked_body beyond cs last rest a z =
    let s = body_text cs last rest in
    let enough = length-body_text cs last rest in
    let j = relocate-joins beyond cs last rest (length s) s 0 0 a z enough (omega arith) refl in
    (
      scan-complete beyond cs last rest (length s) a z enough,
      omega (arith, j.body_len),
      j.joined,
      j.behind,
      omega (arith, j.offset),
    )
