-- ===== src/UrlCode/Encode.antt =====
-- http.cpp, `url_encode`: what it leaves in the buffer, and when it gives up.
use nanosrv.Common.{
  Option-cases, ℕ, ◌+◌, ◌-◌, ◌*◌, ◌/◌, ◌%◌, ◌≤◌, ◌<◌, true, false, none, some, [], ◌∷◌, ◌++◌, ◌≡◌,
  ◌⊎◌, inl, inr, refl, sym, ap, ◌∙◌, arith, Bytes, ltb, leb, if◌then◌else◌, length, length-append,
  All, Bool-cases, Memory, put, text, text-put, put_self, put_other, put-Keeps, Keeps, Keeps-trans,
  Grows, Grows-nil, Grows-put, Grows-three, Grows-trans,
}
use nanosrv.UrlCode.{
  is_url_safe, hex_digit, put_escape, url_encode_loop, terminate, url_encode, url_encode_string,
}

-- One byte: itself, or a percent sign and two digits.
unfoldable pub escape : ℕ → Bytes
escape c =
    if is_url_safe c then c ∷ [] else b'%' ∷ hex_digit (c / 16 % 16) ∷ hex_digit (c % 16) ∷ []

unfoldable pub escaped : Bytes → Bytes
escaped [] = []
escaped (c ∷ s) = escape c ++ escaped s

length-escape : (c : ℕ) → (1 ≤ length (escape c)) × (length (escape c) ≤ 3)
length-escape c = elim (Bool-cases (is_url_safe c)) [
  | inl e ↦ unfold escape in rw e (omega arith, omega arith)
  | inr e ↦ unfold escape in rw e (omega arith, omega arith)
]

length-escaped :
    (c : ℕ) (s : Bytes) → length (escaped (c ∷ s)) ≡ length (escape c) + length (escaped s)
unfolding escaped
length-escaped c s = length-append (escape c) (escaped s)

length-escaped_nil : length (escaped []) ≡ 0
unfolding escaped
length-escaped_nil = refl

-- What a round of the loop writes for a byte.
write : Memory → ℕ → ℕ → Memory × ℕ
write buf n c = if is_url_safe c then (put buf n c, n + 1) else (put_escape buf n c, n + 3)

escape-Grows :
    (buf : Memory) (n c : ℕ)
    → Grows buf n
        (put_escape buf n c, n + 3)
        (b'%' ∷ hex_digit (c / 16 % 16) ∷ hex_digit (c % 16) ∷ [])
unfolding put_escape
escape-Grows buf n c =
    let g = Grows-three buf n b'%' (hex_digit (c / 16 % 16)) (hex_digit (c % 16)) in
    let three =
      put (put (put buf n b'%') (n + 1) (hex_digit (c / 16 % 16))) (n + 2) (hex_digit (c % 16)) in
    record {
      ends = omega arith;
      holds = text-put three (n + 3) 0 (n + 3) (omega arith) ∙ g.holds;
      keeps = λ i h. put_other three (n + 3) 0 i (λ e. omega arith) ∙ g.keeps i (omega arith);
    }

write-Grows : (buf : Memory) (n c : ℕ) → Grows buf n (write buf n c) (escape c)
write-Grows buf n c = elim (Bool-cases (is_url_safe c)) [
  | inl e ↦ unfold write escape in rw e (Grows-put buf n c)
  | inr e ↦ unfold write escape in rw e (escape-Grows buf n c)
]

loop_step :
    (c : ℕ) (s : Bytes) (buf : Memory) (len n : ℕ)
    → let w = write buf n c in
      url_encode_loop (c ∷ s) buf len n
      ≡ (if leb len (n + 4) then (buf, none) else url_encode_loop s w.0 len w.1)
loop_step c s buf len n = elim (Bool-cases (is_url_safe c)) [
  | inl e ↦ unfold write url_encode_loop in rw e refl
  | inr e ↦ unfold write url_encode_loop in rw e refl
]

-- With room for the text and three bytes more behind each position, nothing is refused.
loop-Grows :
    (s : Bytes) (buf : Memory) (len n : ℕ)
    → n + length (escaped s) + 4 ≤ len
    → (r : Memory × ℕ) × (url_encode_loop s buf len n ≡ (r.0, some r.1)) × Grows buf n r (escaped s)
unfolding escaped
loop-Grows [] buf len n h = unfold url_encode_loop in ((buf, n), refl, Grows-nil buf n)
loop-Grows (c ∷ s) buf len n h =
    let w = write buf n c in
    let g = write-Grows buf n c in
    let fits : leb len (n + 4) ≡ false = ground (arith, length-escaped c s, length-escape c) in
    let (r, run, more) = loop-Grows s w.0 len w.1 (omega (arith, length-escaped c s, g.ends)) in
    (r, rw (loop_step c s buf len n, fits) run, Grows-trans buf n w r _ _ g more)

-- Without room for the text and a zero, a nonempty string is refused.
loop-refuses :
    (c : ℕ) (s : Bytes) (buf : Memory) (len n : ℕ)
    → len ≤ n + length (escaped (c ∷ s)) + 1
    → (url_encode_loop (c ∷ s) buf len n).1 ≡ none
loop-refuses c [] buf len n h =
    let full : leb len (n + 4) ≡ true =
      ground (arith, length-escaped c [], length-escape c, length-escaped_nil) in
    rw (loop_step c [] buf len n, full) refl
loop-refuses c (d ∷ t) buf len n h =
    let w = write buf n c in
    let rest =
      loop-refuses d t w.0 len w.1
        (omega (arith, h, length-escaped c (d ∷ t), (write-Grows buf n c).ends)) in
    rw (loop_step c (d ∷ t) buf len n)
      (elim (Bool-cases (leb len (n + 4))) [ inl e ↦ rw e refl | inr e ↦ rw e rest ])

-- The loop stays inside the buffer.
loop-Keeps :
    (s : Bytes) (buf : Memory) (len n : ℕ)
    → let r = url_encode_loop s buf len n in
      Keeps len buf r.0 × ((m : ℕ) → r.1 ≡ some m → (m ≡ n) ⊎ (m < len))
loop-Keeps [] buf len n = unfold url_encode_loop in ((λ i h. refl), (λ m e. inl (sym (cc e))))
loop-Keeps (c ∷ s) buf len n =
    let w = write buf n c in
    let g = write-Grows buf n c in
    let rest = loop-Keeps s w.0 len w.1 in
    rw (loop_step c s buf len n) (elim (Bool-cases (leb len (n + 4))) [
      | inl e ↦ rw e ((λ i h. refl), λ m none_some. absurd (cc none_some))
      | inr e ↦
          let room : n + 4 < len = ground arith in
          let next : w.1 < len = omega (arith, g.ends, length-escape c, room) in
          rw e (
            Keeps-trans (n + length (escape c) + 1) len buf w.0 _
                (omega (arith, length-escape c, room)) g.keeps rest.0,
            λ m run. inr (elim (rest.1 m run) [ inl same ↦ rw same next | inr below ↦ below ]),
          )
    ])

-- Bytes that are all escaped take three places each.
loop-starves :
    (p : Bytes) (c : ℕ) (buf : Memory) (len n : ℕ)
    → All (λ b. is_url_safe b ≡ false) p
    → len ≤ n + 3 * length p + 4
    → (url_encode_loop (p ++ c ∷ []) buf len n).1 ≡ none
loop-starves [] c buf len n u h =
    let full : leb len (n + 4) ≡ true = ground arith in rw (loop_step c [] buf len n, full) refl
loop-starves (b ∷ p) c buf len n u h =
    let rest = loop-starves p c (put_escape buf n b) len (n + 3) u.1 (omega arith) in
    let coded : write buf n b ≡ (put_escape buf n b, n + 3) = unfold write in rw u.0 refl in
    rw (loop_step b (p ++ c ∷ []) buf len n, coded)
      (elim (Bool-cases (leb len (n + 4))) [ inl e ↦ rw e refl | inr e ↦ rw e rest ])

terminate_end :
    (buf : Memory) (len n : ℕ)
    → n + 1 < len
    → (text (terminate buf len n) n ≡ text buf n) × (terminate buf len n n ≡ 0)
terminate_end buf len n h =
    let some_room : ltb 0 len ≡ true = ground arith in
    let behind : ltb n (len - 1) ≡ true = ground arith in
    unfold terminate in
    rw (some_room, behind)
      (
        text-put (put buf n 0) (len - 1) 0 n (omega arith) ∙ text-put buf n 0 n (omega arith),
        put_other (put buf n 0) (len - 1) 0 n (λ e. omega arith) ∙ put_self buf n 0,
      )

terminate-Keeps : (buf : Memory) (len n : ℕ) → Keeps len buf (terminate buf len n)
terminate-Keeps buf len n = elim (Bool-cases (ltb 0 len)) [
  | inl room ↦ elim (Bool-cases (ltb n (len - 1))) [
    | inl behind ↦
        unfold terminate in
        rw (room, behind)
          (Keeps-trans len len buf (put buf n 0) _ (omega arith)
            (put-Keeps len buf n 0 (ground arith))
            (put-Keeps len (put buf n 0) (len - 1) 0 (ground arith)))
    | inr last ↦ unfold terminate in rw (room, last) (put-Keeps len buf (len - 1) 0 (ground arith))
  ]
  | inr none_left ↦ unfold terminate in rw none_left (λ i h. refl)
]

encode_done :
    (s : Bytes) (buf : Memory) (len n : ℕ)
    → let r = url_encode_loop s buf len 0 in
      r.1 ≡ some n → url_encode s buf len ≡ (terminate r.0 len n, n)
unfolding url_encode
encode_done s buf len n e = rw (e, url_encode) refl

encode_refused :
    (s : Bytes) (buf : Memory) (len : ℕ)
    → let r = url_encode_loop s buf len 0 in r.1 ≡ none → url_encode s buf len ≡ (r.0, 0)
unfolding url_encode
encode_refused s buf len e = rw (e, url_encode) refl

-- With four bytes more than the escaped text has, `url_encode` leaves that text in the buffer, each
-- safe byte as itself and each other one as a percent sign and two digits, with a zero behind it;
-- its result is the length of the text, and memory behind the buffer is as before.
pub url_encode_lem :
    (s : Bytes) (buf : Memory) (len : ℕ)
    → length (escaped s) + 4 ≤ len
    → let r = url_encode s buf len in
      (text r.0 r.1 ≡ escaped s) × (r.1 ≡ length (escaped s)) × (r.0 r.1 ≡ 0) × Keeps len buf r.0
url_encode_lem s buf len h =
    let (r, run, g) = loop-Grows s buf len 0 (omega arith) in
    let ends = terminate_end r.0 len r.1 (omega (arith, g.ends)) in
    let at_end : r.1 ≡ length (escaped s) = omega (arith, g.ends) in
    rw (encode_done s buf len r.1 (ap (λ q. q.1) run), run)
      (
        ends.0 ∙ g.holds ∙ unfold text in refl,
        at_end,
        ends.1,
        Keeps-trans (length (escaped s) + 1) len buf r.0 _ (omega arith)
            (λ i le. g.keeps i (omega arith)) (terminate-Keeps r.0 len r.1),
      )

-- Whatever the string and the buffer's size, `url_encode` writes nothing behind the buffer and its
-- result is 0 or less than the size; and it gives up with 0 on each nonempty string whose escaped
-- text and a zero fill the buffer or do not fit it.
pub url_encode_bounds :
    (s : Bytes) (buf : Memory) (len : ℕ)
    → let r = url_encode s buf len in
      Keeps len buf r.0
      × ((r.1 ≡ 0) ⊎ (r.1 < len))
      × ((s ≡ []) ⊎ (length (escaped s) + 1 < len) ⊎ (r.1 ≡ 0))
url_encode_bounds s buf len =
    let inside = loop-Keeps s buf len 0 in
    let r = url_encode_loop s buf len 0 in
    elim (Option-cases r.1) [
      | inl e ↦ rw (encode_refused s buf len e) (inside.0, inl refl, inr (inr refl))
      | inr (n, e) ↦ rw (encode_done s buf len n e) (
        Keeps-trans len len buf r.0 _ (omega arith) inside.0 (terminate-Keeps r.0 len n),
        inside.1 n e,
        starved s n e,
      )
    ]
  where
    starved :
        (s : Bytes) (n : ℕ)
        → (url_encode_loop s buf len 0).1 ≡ some n
        → (s ≡ []) ⊎ (length (escaped s) + 1 < len) ⊎ (n ≡ 0)
    starved [] n e = inl refl
    starved (c ∷ t) n e = elim (Bool-cases (leb len (length (escaped (c ∷ t)) + 1))) [
      | inl full ↦ absurd (cc (e, loop-refuses c t buf len 0 (ground arith)))
      | inr room ↦ inr (inl (ground arith))
    ]

-- `url_encode` of a string, which takes a buffer of three bytes for each and one more, gives up and
-- answers the empty string whenever no byte but the last one is safe; so it does for each string
-- of one byte.
pub url_encode_string_starves :
    (p : Bytes) (c : ℕ) → All (λ b. is_url_safe b ≡ false) p → url_encode_string (p ++ c ∷ []) ≡ []
url_encode_string_starves p c u =
    let len = length (p ++ c ∷ []) * 3 + 1 in
    let run = loop-starves p c (λ _. 0) len 0 u (omega (arith, length-append p (c ∷ []))) in
    unfold url_encode_string text in rw (encode_refused _ _ len run) refl
