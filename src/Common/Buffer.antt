-- ===== src/Common/Buffer.antt =====
-- Memory behind a pointer that the code writes through: one byte at each offset. A function that
-- fills a buffer returns the new memory, so that a theorem can say what it left alone.
use Prim.Native.Nat.{ℕ, zero, suc, ◌+◌, ◌≤◌, ◌<◌}
use mathlib.Core.Path.{◌≡◌, refl, sym, ap, ◌∙◌}
use mathlib.Core.Logic.{◌≢◌}
use mathlib.Core.List.{[], ◌∷◌, ◌++◌, append_assoc, append-nil}
use native.Mathlib.Omega.{arith}
use nanosrv.Common.Tests.{◌==◌, if◌then◌else◌}
use nanosrv.Common.Lists.{Bytes, length, length-append}

abbrev pub Memory : Type 0
Memory = ℕ → ℕ

-- p[i] = v
unfoldable pub put : Memory → ℕ → ℕ → Memory
put to n v i = if i == n then v else to i

-- The first n bytes.
unfoldable pub text : Memory → ℕ → Bytes
text to zero = []
text to (suc n) = text to n ++ to n ∷ []

pub put_self : (to : Memory) (n v : ℕ) → put to n v n ≡ v
unfolding put
put_self to n v = ground arith

pub put_other : (to : Memory) (n v i : ℕ) → i ≢ n → put to n v i ≡ to i
unfolding put
put_other to n v i h = ground arith

pub length-text : (to : Memory) (n : ℕ) → length (text to n) ≡ n
unfolding text
length-text to zero = refl
length-text to (suc n) = omega (arith, length-append (text to n) (to n ∷ []), length-text to n)

pub text-put : (to : Memory) (k v n : ℕ) → n ≤ k → text (put to k v) n ≡ text to n
unfolding text
text-put to k v zero h = refl
text-put to k v (suc n) h =
    rw (text-put to k v n (omega arith), put_other to k v n (λ e. omega arith))

-- Writing at the end appends.
pub text-put_end : (to : Memory) (n v : ℕ) → text (put to n v) (suc n) ≡ text to n ++ v ∷ []
unfolding text
text-put_end to n v = rw (text-put to n v n (omega arith), put_self to n v)

pub text-put_end_two :
    (to : Memory) (n v w : ℕ) → text (put (put to n v) (n + 1) w) (n + 1) ≡ text to n ++ v ∷ []
text-put_end_two to n v w =
    rw (text-put (put to n v) (n + 1) w (n + 1) (omega arith))
      (let e : n + 1 ≡ suc n = omega arith in rw e (text-put_end to n v))

-- Nothing at or above the offset has changed.
abbrev pub Keeps : ℕ → Memory → Memory → Type 0
Keeps k to to' = (i : ℕ) → k ≤ i → to' i ≡ to i

pub put-Keeps : (k : ℕ) (to : Memory) (n v : ℕ) → n < k → Keeps k to (put to n v)
put-Keeps k to n v h i le = put_other to n v i (λ e. omega arith)

pub Keeps-trans :
    (j k : ℕ) (to to' to'' : Memory) → j ≤ k → Keeps j to to' → Keeps k to' to'' → Keeps k to to''
Keeps-trans j k to to' to'' h p q i le = q i le ∙ p i (omega arith)

-- A routine that writes behind the first n bytes: what it appends, and where it stops writing. The
-- cell behind the text may have been used for scratch.
pub record Grows (to : Memory) (n : ℕ) (r : Memory × ℕ) (out : Bytes) : Type 0 where
  pub ends : r.1 ≡ n + length out
  pub holds : text r.0 r.1 ≡ text to n ++ out
  pub keeps : Keeps (n + length out + 1) to r.0

pub Grows-nil : (to : Memory) (n : ℕ) → Grows to n (to, n) []
Grows-nil to n = record {
  ends = omega arith;
  holds = sym (append-nil (text to n));
  keeps = λ i h. refl;
}

pub Grows-trans :
    (to : Memory) (n : ℕ) (r q : Memory × ℕ) (out more : Bytes)
    → Grows to n r out
    → Grows r.0 r.1 q more
    → Grows to n q (out ++ more)
Grows-trans to n r q out more g h = record {
  ends = omega (arith, length-append out more, g.ends, h.ends);
  holds = h.holds ∙ ap (λ t. t ++ more) g.holds ∙ append_assoc (text to n) out more;
  keeps = λ i le.
      h.keeps i (omega (arith, length-append out more, g.ends))
      ∙ g.keeps i (omega (arith, length-append out more));
}

-- One byte, with scratch in the next cell.
pub Grows-scratch :
    (to : Memory) (n v w : ℕ) → Grows to n (put (put to n v) (n + 1) w, n + 1) (v ∷ [])
Grows-scratch to n v w = record {
  ends = omega arith;
  holds = text-put_end_two to n v w;
  keeps = λ i h.
      put_other (put to n v) (n + 1) w i (λ e. omega arith) ∙ put_other to n v i (λ e. omega arith);
}

pub Grows-put : (to : Memory) (n v : ℕ) → Grows to n (put to n v, n + 1) (v ∷ [])
Grows-put to n v = record {
  ends = omega arith;
  holds = let e : n + 1 ≡ suc n = omega arith in rw e (text-put_end to n v);
  keeps = λ i h. put_other to n v i (λ e. omega arith);
}

pub Grows-two :
    (to : Memory) (n v w : ℕ) → Grows to n (put (put to n v) (n + 1) w, n + 2) (v ∷ w ∷ [])
Grows-two to n v w =
    let e : n + 1 + 1 ≡ n + 2 = omega arith in
    rw (← e) (
      Grows-trans to n (put to n v, n + 1) (put (put to n v) (n + 1) w, n + 1 + 1) (v ∷ []) (w ∷ [])
        (Grows-put to n v) (Grows-put (put to n v) (n + 1) w))

pub Grows-three :
    (to : Memory) (n u v w : ℕ)
    → Grows to n (put (put (put to n u) (n + 1) v) (n + 2) w, n + 3) (u ∷ v ∷ w ∷ [])
Grows-three to n u v w =
    let e : n + 2 + 1 ≡ n + 3 = omega arith in
    rw (← e) (
      Grows-trans to n (put (put to n u) (n + 1) v, n + 2) _ (u ∷ v ∷ []) (w ∷ [])
        (Grows-two to n u v) (Grows-put (put (put to n u) (n + 1) v) (n + 2) w))
