-- ===== src/UrlCode/Decode.antt =====
-- http.cpp, `url_decode`: it reads back what `url_encode` writes, and stays inside its buffer.
use nanosrv.Common.{
  ◌^◌, as_int, as_int_small, as_int-le, ◌⊎◌, ℕ, suc, ◌+◌, ◌/◌, ◌%◌, ◌≤◌, ◌<◌, Bool, true, false,
  ◌&&◌, Option, none, some, [], ◌∷◌, ◌++◌, ◌≡◌, inl, inr, refl, ap, ◌∙◌, arith, Bytes, IsBytes, ltb,
  leb, ◌==◌, ==_iff, if◌then◌else◌, length, Bool-cases, Option-cases, Memory, put, text, text-put,
  put_self, put_other, put-Keeps, Keeps, Keeps-trans, Grows, Grows-nil, Grows-put, Grows-trans,
  all_below, all_below_sound,
}
use nanosrv.Str.{str_to_num}
use nanosrv.UrlCode.{
  is_url_safe, hex_digit, isx, put_decoded, plain_byte, url_decode_loop, url_decode, url_encode,
}
use nanosrv.UrlCode.Encode.{escape, escaped, url_encode_lem}

-- The two digits of a byte are digits, and `str_to_num` reads the byte back from them.
digits-isx : (c : ℕ) → c < 256 → (isx (hex_digit (c / 16 % 16)) && isx (hex_digit (c % 16))) ≡ true
unfolding isx hex_digit
digits-isx c h =
    all_below_sound 256 (λ b. isx (hex_digit (b / 16 % 16)) && isx (hex_digit (b % 16))) c
      (unfold all_below in refl) h

is_number : ℕ → Option ℕ → Bool
is_number c none = false
is_number c (some v) = v == c

reads_back :
    (c : ℕ)
    → c < 256
    → is_number c (str_to_num (hex_digit (c / 16 % 16) ∷ hex_digit (c % 16) ∷ []) 16 1) ≡ true
unfolding is_number str_to_num hex_digit
reads_back c h =
    all_below_sound 256
      (λ b. is_number b (str_to_num (hex_digit (b / 16 % 16) ∷ hex_digit (b % 16) ∷ []) 16 1)) c
      (unfold all_below in refl) h

is_number-some : (c : ℕ) (o : Option ℕ) → is_number c o ≡ true → o ≡ some c
unfolding is_number
is_number-some c none e = absurd (cc e)
is_number-some c (some v) e = ap some ((==_iff v c).0 e)

put_decoded_digits :
    (dst : Memory) (j c : ℕ)
    → c < 256
    → put_decoded dst j (hex_digit (c / 16 % 16)) (hex_digit (c % 16)) ≡ put dst j c
unfolding put_decoded
put_decoded_digits dst j c h = rw (is_number-some c _ (reads_back c h), put_decoded) refl

-- One round at a byte that is copied, and one at an escape.
plain_step :
    (form : Bool) (c : ℕ) (s : Bytes) (dst : Memory) (dl j : ℕ)
    → j + 1 < dl
    → (c == b'%') ≡ false
    → url_decode_loop form (c ∷ s) dst dl j
      ≡ url_decode_loop form s (put dst j (plain_byte form c)) dl (j + 1)
unfolding url_decode_loop
plain_step form c [] dst dl j h e = let t : leb dl (j + 1) ≡ false = ground arith in rw (t, e) refl
plain_step form c (a ∷ []) dst dl j h e =
    let t : leb dl (j + 1) ≡ false = ground arith in rw (t, e) refl
plain_step form c (a ∷ b ∷ s) dst dl j h e =
    let t : leb dl (j + 1) ≡ false = ground arith in rw (t, e) refl

escape_step :
    (form : Bool) (c : ℕ) (s : Bytes) (dst : Memory) (dl j : ℕ)
    → j + 1 < dl
    → c < 256
    → url_decode_loop form (b'%' ∷ hex_digit (c / 16 % 16) ∷ hex_digit (c % 16) ∷ s) dst dl j
      ≡ url_decode_loop form s (put dst j c) dl (j + 1)
unfolding url_decode_loop
escape_step form c s dst dl j h k =
    let t : leb dl (j + 1) ≡ false = ground arith in
    rw (t, url_decode_loop, digits-isx c k, put_decoded_digits dst j c k) refl

safe_plain :
    (form : Bool) (c : ℕ) → is_url_safe c ≡ true → ((c == b'%') ≡ false) × (plain_byte form c ≡ c)
unfolding is_url_safe plain_byte
safe_plain form c h = (ground arith, ground arith)

byte_step :
    (form : Bool) (c : ℕ) (s : Bytes) (dst : Memory) (dl j : ℕ)
    → j + 1 < dl
    → c < 256
    → url_decode_loop form (escape c ++ s) dst dl j
      ≡ url_decode_loop form s (put dst j c) dl (j + 1)
unfolding escape
byte_step form c s dst dl j h k = elim (Bool-cases (is_url_safe c)) [
  | inl e ↦ let p = safe_plain form c e in rw (e, plain_step form c s dst dl j h p.0, p.1) refl
  | inr e ↦ rw e (escape_step form c s dst dl j h k)
]

loop-escaped :
    (form : Bool) (s : Bytes) (dst : Memory) (dl j : ℕ)
    → IsBytes s
    → j + length s < dl
    → (r : Memory × ℕ) × (url_decode_loop form (escaped s) dst dl j ≡ (r.0, some (r.1, true)))
      × Grows dst j r s
unfolding escaped
loop-escaped form [] dst dl j b h = ((dst, j), unfold url_decode_loop in refl, Grows-nil dst j)
loop-escaped form (c ∷ s) dst dl j b h =
    let (r, run, g) = loop-escaped form s (put dst j c) dl (j + 1) b.1 (omega arith) in
    (
      r,
      byte_step form c (escaped s) dst dl j (omega arith) b.0 ∙ run,
      Grows-trans dst j (put dst j c, j + 1) r (c ∷ []) s (Grows-put dst j c) g,
    )

decode_done :
    (form : Bool) (s : Bytes) (dst : Memory) (dl : ℕ) (r : Memory × ℕ)
    → r.1 < dl
    → r.1 < 2 ^ 31
    → url_decode_loop form s dst dl 0 ≡ (r.0, some (r.1, true))
    → url_decode form s dst dl ≡ (put r.0 r.1 0, some r.1)
unfolding url_decode
decode_done form s dst dl r h small e =
    let t : ltb r.1 dl ≡ true = ground arith in
    rw (ap (λ q. q.1) e, t, url_decode, ap (λ q. q.0) e, as_int_small r.1 small) refl

-- Given a buffer with room for the string, of less than 2 ^ 31 bytes, and a zero, `url_decode` turns the escaped text of any
-- string of bytes into that string, whether or not it decodes a form: its result is the length, a
-- zero stands behind the string, and memory behind that zero is as before.
pub url_decode-escaped :
    (form : Bool) (s : Bytes) (dst : Memory) (dl : ℕ)
    → IsBytes s
    → length s < dl
    → length s < 2 ^ 31
    → let r = url_decode form (escaped s) dst dl in
      (r.1 ≡ some (length s))
      × (text r.0 (length s) ≡ s)
      × (r.0 (length s) ≡ 0)
      × Keeps (length s + 1) dst r.0
url_decode-escaped form s dst dl b h small =
    let (r, run, g) = loop-escaped form s dst dl 0 b (omega arith) in
    let ends : r.1 ≡ length s = omega (arith, g.ends) in
    rw (decode_done form (escaped s) dst dl r (omega arith) (omega arith) run, ← ends)
      (
        refl,
        text-put r.0 r.1 0 r.1 (omega arith) ∙ g.holds ∙ unfold text in refl,
        put_self r.0 r.1 0,
        λ i le. put_other r.0 r.1 0 i (λ e. omega arith) ∙ g.keeps i (omega (arith, g.ends)),
      )

-- Decoding what `url_encode` leaves in a buffer with room gives the string, of less than 2 ^ 31 bytes,
-- back.
pub url_decode-url_encode :
    (form : Bool) (s : Bytes) (buf dst : Memory) (len dl : ℕ)
    → IsBytes s
    → length (escaped s) + 4 ≤ len
    → length s < dl
    → length s < 2 ^ 31
    → let w = url_encode s buf len in
      let r = url_decode form (text w.0 w.1) dst dl in
      (r.1 ≡ some (length s)) × (text r.0 (length s) ≡ s)
url_decode-url_encode form s buf dst len dl b room h small =
    let w = url_encode_lem s buf len room in
    let r = url_decode-escaped form s dst dl b h small in rw w.0 (r.0, r.1)

-- One place at most is written.
put_decoded-Keeps : (k : ℕ) (dst : Memory) (j h l : ℕ) → j < k → Keeps k dst (put_decoded dst j h l)
put_decoded-Keeps k dst j h l lt = elim (Option-cases (str_to_num (h ∷ l ∷ []) 16 1)) [
  | inl e ↦ unfold put_decoded in rw (e, put_decoded) (λ i le. refl)
  | inr (v, e) ↦ unfold put_decoded in rw (e, put_decoded) (put-Keeps k dst j v lt)
]

-- What the loop does to the memory and to j, with n bytes to read.
abbrev Bounded : ℕ → ℕ → ℕ → Memory → Memory × Option (ℕ × Bool) → Type 0
Bounded dl j n dst r = Keeps dl dst r.0 × ((m : ℕ) (all : Bool) → r.1 ≡ some (m, all) → m ≤ j + n)

Bounded-stop : (dl j n : ℕ) (dst : Memory) (b : Bool) → Bounded dl j n dst (dst, some (j, b))
Bounded-stop dl j n dst b = ((λ i h. refl), λ m all e. let same : j ≡ m = cc e in omega arith)

Bounded-fail : (dl j n : ℕ) (dst : Memory) → Bounded dl j n dst (dst, none)
Bounded-fail dl j n dst = ((λ i h. refl), λ m all e. absurd (cc e))

Bounded-step :
    (dl j n k : ℕ) (dst dst' : Memory) (r : Memory × Option (ℕ × Bool))
    → n < k
    → Keeps dl dst dst'
    → Bounded dl (j + 1) n dst' r
    → Bounded dl j k dst r
Bounded-step dl j n k dst dst' r h keeps b =
    (Keeps-trans dl dl dst dst' r.0 (omega arith) keeps b.0, λ m all e. omega (arith, b.1 m all e))

-- A round that copies a byte.
plain-Bounded :
    (form : Bool) (c : ℕ) (s : Bytes) (dst : Memory) (dl j : ℕ)
    → leb dl (j + 1) ≡ false
    → Bounded dl
        (j + 1)
        (length s)
        (put dst j (plain_byte form c))
        (url_decode_loop form s (put dst j (plain_byte form c)) dl (j + 1))
    → Bounded dl j
        (suc (length s))
        dst
        (url_decode_loop form s (put dst j (plain_byte form c)) dl (j + 1))
plain-Bounded form c s dst dl j room b =
    Bounded-step dl j (length s) (suc (length s)) dst _ _ (omega arith)
      (put-Keeps dl dst j _ (ground arith)) b

loop-Bounded :
    (form : Bool) (s : Bytes) (dst : Memory) (dl j : ℕ)
    → Bounded dl j (length s) dst (url_decode_loop form s dst dl j)
unfolding url_decode_loop
loop-Bounded form [] dst dl j = Bounded-stop dl j 0 dst true
loop-Bounded form (c ∷ []) dst dl j =
    let next = loop-Bounded form [] (put dst j (plain_byte form c)) dl (j + 1) in
    elim (Bool-cases (leb dl (j + 1))) [
      | inl full ↦ rw full (Bounded-stop dl j 1 dst false)
      | inr room ↦ rw room (elim (Bool-cases (c == b'%')) [
        | inl e ↦ rw e (Bounded-fail dl j 1 dst)
        | inr e ↦ rw e (plain-Bounded form c [] dst dl j room next)
      ])
    ]
loop-Bounded form (c ∷ h ∷ []) dst dl j =
    let next = loop-Bounded form (h ∷ []) (put dst j (plain_byte form c)) dl (j + 1) in
    elim (Bool-cases (leb dl (j + 1))) [
      | inl full ↦ rw full (Bounded-stop dl j 2 dst false)
      | inr room ↦ rw room (elim (Bool-cases (c == b'%')) [
        | inl e ↦ rw e (Bounded-fail dl j 2 dst)
        | inr e ↦ rw e (plain-Bounded form c (h ∷ []) dst dl j room next)
      ])
    ]
loop-Bounded form (c ∷ h ∷ l ∷ s) dst dl j =
    let next = loop-Bounded form (h ∷ l ∷ s) (put dst j (plain_byte form c)) dl (j + 1) in
    let skip = loop-Bounded form s (put_decoded dst j h l) dl (j + 1) in
    elim (Bool-cases (leb dl (j + 1))) [
      | inl full ↦ rw full (Bounded-stop dl j _ dst false)
      | inr room ↦ rw room (elim (Bool-cases (c == b'%')) [
        | inl e ↦ rw e (elim (Bool-cases (isx h && isx l)) [
          | inl ok ↦ rw ok (
              Bounded-step dl j (length s) _ dst _ _ (omega arith)
                (put_decoded-Keeps dl dst j h l (ground arith)) skip)
          | inr bad ↦ rw bad (Bounded-fail dl j _ dst)
        ])
        | inr e ↦ rw e (plain-Bounded form c (h ∷ l ∷ s) dst dl j room next)
      ])
    ]

decode_left :
    (form : Bool) (src : Bytes) (dst : Memory) (dl : ℕ)
    → let q = url_decode_loop form src dst dl 0 in
      (o : Option (ℕ × Bool))
      → q.1 ≡ o
      → url_decode form src dst dl ≡ (elim o [
        | none ↦ (q.0, none)
        | some (j, all) ↦
            (if ltb j dl then put q.0 j 0 else q.0, if all && ltb j dl then as_int j else none)
      ])
unfolding url_decode
decode_left form src dst dl o e = rw (e, url_decode) refl

decode_inside :
    (form : Bool) (src : Bytes) (dst : Memory) (dl : ℕ)
    → let r = url_decode form src dst dl in
      Keeps dl dst r.0 × ((n : ℕ) → r.1 ≡ some n → (n < dl) × (n ≤ length src))
decode_inside form src dst dl =
    let q = url_decode_loop form src dst dl 0 in
    let b = loop-Bounded form src dst dl 0 in
    elim (Option-cases q.1) [
      | inl e ↦ rw (decode_left form src dst dl none e) (b.0, λ n bad. absurd (cc bad))
      | inr ((j, all), e) ↦
          rw (decode_left form src dst dl (some (j, all)) e) (elim (Bool-cases (ltb j dl)) [
            | inl room ↦ rw room (
              Keeps-trans dl dl dst q.0 _ (omega arith) b.0 (put-Keeps dl q.0 j 0 (ground arith)),
              λ n k.
                  let same : n ≤ j = ended all true j n k in
                  (ground arith, omega (arith, b.1 j all e)),
            )
            | inr full ↦ rw full (b.0, λ n k. absurd (ground arith))
          ])
    ]
  where
    ended : (all room : Bool) (j n : ℕ) → (if all && room then as_int j else none) ≡ some n → n ≤ j
    ended true true j n k = as_int-le j n k
    ended false room j n k = absurd (cc k)
    ended true false j n k = absurd (cc k)

-- Whatever the source and the buffer's size, `url_decode` writes nothing behind the buffer, and a
-- length that it returns is less than the size and no more than the length of the source.
pub url_decode_bounds :
    (form : Bool) (src : Bytes) (dst : Memory) (dl : ℕ)
    → let r = url_decode form src dst dl in
      Keeps dl dst r.0 × ((r.1 ≡ none) ⊎ ((n : ℕ) × (r.1 ≡ some n) × (n < dl) × (n ≤ length src)))
url_decode_bounds form src dst dl =
    let h = decode_inside form src dst dl in
    (
      h.0,
      elim (Option-cases (url_decode form src dst dl).1) [
        | inl e ↦ inl e
        | inr (n, e) ↦ inr (n, e, (h.1 n e).0, (h.1 n e).1)
      ],
    )
