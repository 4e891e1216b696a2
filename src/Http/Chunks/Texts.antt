-- ===== src/Http/Chunks/Texts.antt =====
-- http.cpp, chunked bodies: what a sender writes, and what the two passes make of it.
use nanosrv.Common.{
  ℕ, suc, ◌+◌, ◌^◌, ◌≤◌, ◌<◌, true, false, not, ◌||◌, some, [], ◌∷◌, ◌++◌, ◌≡◌, refl, sym, ap, ◌∙◌,
  arith, Bytes, ltb, leb, ◌==◌, if◌then◌else◌, length, take, drop, get_or, length-append,
  take-append_self, get_or-append_add, drop-append_add, append_assoc, All, Bool-cases, inl, inr,
}
use nanosrv.Str.{str_to_num}
use nanosrv.Http.Chunks.{invalid, partial, chunk, is_hex_digit, hex_run, skip_chunk}

-- A text of at most eight digits that spells a size below 2 ^ 31.
pub record IsSize (t : Bytes) (n : ℕ) : Type 0 where
  pub digits : All (λ c. is_hex_digit c ≡ true) t
  pub some_digit : 0 < length t
  pub short : length t ≤ 8
  pub spells : str_to_num t 16 4 ≡ some n
  pub fits : n < 2 ^ 31

-- A chunk, and what follows it.
abbrev pub chunk_text : Bytes → Bytes → Bytes → Bytes
chunk_text t d rest = t ++ (b'\r' ∷ b'\n' ∷ (d ++ (b'\r' ∷ b'\n' ∷ rest)))

hex_run-append :
    (t : Bytes) (c : ℕ) (s : Bytes)
    → All (λ c. is_hex_digit c ≡ true) t
    → is_hex_digit c ≡ false
    → hex_run (t ++ c ∷ s) ≡ length t
unfolding hex_run
hex_run-append [] c s h e = rw e refl
hex_run-append (d ∷ t) c s h e = rw h.0 (ap suc (hex_run-append t c s h.1 e))

hex_run_whole : (t : Bytes) → All (λ c. is_hex_digit c ≡ true) t → hex_run t ≡ length t
unfolding hex_run
hex_run_whole [] h = refl
hex_run_whole (d ∷ t) h = rw h.0 (ap suc (hex_run_whole t h.1))

get_or_behind : (t : Bytes) (c : ℕ) (s : Bytes) (d : ℕ) → get_or (t ++ c ∷ s) (length t) d ≡ c
get_or_behind [] c s d = refl
get_or_behind (x ∷ t) c s d = get_or_behind t c s d

-- Behind a complete line that gives the size n.
after_line :
    (beyond : ℕ) (t p : Bytes) (n : ℕ)
    → IsSize t n
    → let len = length (t ++ b'\r' ∷ b'\n' ∷ p) in
      let i = length t in
      skip_chunk beyond (t ++ b'\r' ∷ b'\n' ∷ p) ≡ (
        if ltb len (i + n + 4)
        then partial
        else if not (get_or (t ++ b'\r' ∷ b'\n' ∷ p) (i + n + 2) 0 == b'\r')
            || not (get_or (t ++ b'\r' ∷ b'\n' ∷ p) (i + n + 3) 0 == b'\n')
        then invalid
        else chunk (i + 2) n (i + 2 + n + 2))
unfolding skip_chunk
after_line beyond t p n size =
    let run : hex_run (t ++ b'\r' ∷ b'\n' ∷ p) ≡ length t =
      hex_run-append t b'\r' (b'\n' ∷ p) size.digits (unfold is_hex_digit in refl) in
    let total : length (t ++ b'\r' ∷ b'\n' ∷ p) ≡ length t + length p + 2 =
      omega (arith, length-append t (b'\r' ∷ b'\n' ∷ p)) in
    let long : ltb (length (t ++ b'\r' ∷ b'\n' ∷ p)) 3 ≡ false =
      ground (arith, total, size.some_digit) in
    let some_digits : (length t == 0) ≡ false = ground (arith, size.some_digit) in
    let not_many : ltb 8 (length t) ≡ false = ground (arith, size.short) in
    let line : ltb (length (t ++ b'\r' ∷ b'\n' ∷ p)) (length t + 1) ≡ false =
      ground (arith, total) in
    let small : leb (2 ^ 31) n ≡ false = ground (arith, size.fits) in
    rw
      (
        skip_chunk,
        run,
        long,
        some_digits,
        not_many,
        line,
        get_or_behind t b'\r' (b'\n' ∷ p) beyond,
        get_or-append_add t (b'\r' ∷ b'\n' ∷ p) 1 beyond,
        take-append_self t (b'\r' ∷ b'\n' ∷ p) (length t) refl,
        size.spells,
        small,
      )
      (rw run refl)

line_data : (t d q : Bytes) → t ++ (b'\r' ∷ b'\n' ∷ (d ++ q)) ≡ (t ++ (b'\r' ∷ b'\n' ∷ d)) ++ q
line_data t d q = sym (append_assoc t (b'\r' ∷ b'\n' ∷ d) q)

length-line_data : (t d : Bytes) → length (t ++ (b'\r' ∷ b'\n' ∷ d)) ≡ length t + length d + 2
length-line_data t d = omega (arith, length-append t (b'\r' ∷ b'\n' ∷ d))

-- The two bytes behind the data, and what stands behind them.
data_end :
    (t d rest : Bytes) (c e : ℕ)
    → let s = t ++ (b'\r' ∷ b'\n' ∷ (d ++ (c ∷ e ∷ rest))) in
      (get_or s (length t + length d + 2) 0 ≡ c)
      × (get_or s (length t + length d + 3) 0 ≡ e)
      × (drop (length t + 2 + length d + 2) s ≡ rest)
data_end t d rest c e =
    let x = t ++ (b'\r' ∷ b'\n' ∷ d) in
    let len = length-line_data t d in
    let third : length t + length d + 3 ≡ length x + 1 = omega (arith, len) in
    let past : length t + 2 + length d + 2 ≡ length x + 2 = omega (arith, len) in
    rw (line_data t d (c ∷ e ∷ rest), ← len, third, past)
      (
        get_or_behind x c (e ∷ rest) 0,
        get_or-append_add x (c ∷ e ∷ rest) 1 0,
        drop-append_add 2 x (c ∷ e ∷ rest),
      )

-- A chunk that is buffered whole is taken, whatever follows it.
pub skip_chunk-text :
    (beyond : ℕ) (t d rest : Bytes)
    → IsSize t (length d)
    → skip_chunk beyond (chunk_text t d rest)
      ≡ chunk (length t + 2) (length d) (length t + 2 + length d + 2)
skip_chunk-text beyond t d rest size =
    let ends = data_end t d rest b'\r' b'\n' in
    let whole : ltb (length (chunk_text t d rest)) (length t + length d + 4) ≡ false = ground (
      arith,
      length-append t (b'\r' ∷ b'\n' ∷ (d ++ (b'\r' ∷ b'\n' ∷ rest))),
      length-append d (b'\r' ∷ b'\n' ∷ rest),
    ) in
    after_line beyond t (d ++ (b'\r' ∷ b'\n' ∷ rest)) (length d) size
    ∙ rw (whole, ends.0, ends.1) refl

-- Behind a complete line, a chunk whose data or line end is missing in part is waited for.
pub skip_chunk_waits :
    (beyond : ℕ) (t p : Bytes) (n : ℕ)
    → IsSize t n
    → length p < n + 2
    → skip_chunk beyond (t ++ (b'\r' ∷ b'\n' ∷ p)) ≡ partial
skip_chunk_waits beyond t p n size h =
    let short : ltb (length (t ++ (b'\r' ∷ b'\n' ∷ p))) (length t + n + 4) ≡ true =
      ground (arith, length-append t (b'\r' ∷ b'\n' ∷ p)) in
    after_line beyond t p n size ∙ rw short refl

-- A line of three digits and more that is buffered without its end is refused, although the rest
-- may follow.
pub skip_chunk_split :
    (beyond : ℕ) (t : Bytes)
    → All (λ c. is_hex_digit c ≡ true) t
    → 3 ≤ length t
    → skip_chunk beyond t ≡ invalid
unfolding skip_chunk
skip_chunk_split beyond t h three =
    let run = hex_run_whole t h in
    let long : ltb (length t) 3 ≡ false = ground arith in
    let some_digits : (length t == 0) ≡ false = ground arith in
    let cut : ltb (length t) (length t + 1) ≡ true = ground arith in
    rw (skip_chunk, run, long, some_digits, cut)
      (elim (Bool-cases (ltb 8 (length t))) [ inl e ↦ rw e refl | inr e ↦ rw e refl ])

pub drop-chunk_text :
    (t d rest : Bytes) → drop (length t + 2 + length d + 2) (chunk_text t d rest) ≡ rest
drop-chunk_text t d rest = (data_end t d rest b'\r' b'\n').2

pub length-chunk_text :
    (t d rest : Bytes) → length (chunk_text t d rest) ≡ length t + 2 + length d + 2 + length rest
length-chunk_text t d rest = omega (
  arith,
  length-append t (b'\r' ∷ b'\n' ∷ (d ++ (b'\r' ∷ b'\n' ∷ rest))),
  length-append d (b'\r' ∷ b'\n' ∷ rest),
)

-- The data stand behind the line.
pub chunk_text_data :
    (t d rest : Bytes) → take (length d) (drop (length t + 2) (chunk_text t d rest)) ≡ d
chunk_text_data t d rest =
    rw (drop-append_add 2 t (b'\r' ∷ b'\n' ∷ (d ++ (b'\r' ∷ b'\n' ∷ rest))))
      (take-append_self d (b'\r' ∷ b'\n' ∷ rest) (length d) refl)
