-- ===== src/Timer/Polls.antt =====
-- timer.cpp: when a timer expires, and how often it is called.
use nanosrv.Common.{
  ℕ, ◌+◌, ◌^◌, ◌≤◌, ◌<◌, bit_or, Bool, true, false, not, ◌||◌, none, some, List, [], ◌∷◌, ◌≡◌, ◌↔◌,
  ◌⊎◌, inl, inr, refl, ◌∙◌, arith, ltb, if◌then◌else◌, Bool-cases, all_below, all_below_sound,
  ltb→lt, if-both,
}
use nanosrv.Timer.{
  Timer, timer_expired, has, timer_repeat, timer_called, timer_autodelete, is_due, calls, polled,
  call_count,
}

-- Where the time is unset or out of reach, it is set anew; else it is kept.
expired_reset :
    (t prd now : ℕ)
    → now + prd < 2 ^ 64
    → (t ≡ 0) ⊎ (now + prd < t)
    → timer_expired t prd now ≡ (if ltb 0 prd then (false, now + prd) else (true, now))
unfolding timer_expired
expired_reset t prd now h c = ground arith

expired_early :
    (t prd now : ℕ)
    → now + prd < 2 ^ 64
    → now < t
    → t ≤ now + prd
    → timer_expired t prd now ≡ (false, t)
unfolding timer_expired
expired_early t prd now h lt le = ground arith

expired_late :
    (t prd now : ℕ)
    → now + prd < 2 ^ 64
    → 0 < t
    → t ≤ now
    → timer_expired t prd now ≡ (true, if ltb (t + prd) now then now + prd else t + prd)
unfolding timer_expired
expired_late t prd now h pos le = ground arith

-- While `now + prd` does not wrap around, a timer expires exactly if it has a time set that has come,
-- or has no period; and its new time is never before now and never more than a period ahead.
timer_expired_lem :
    (t prd now : ℕ)
    → now + prd < 2 ^ 64
    → let r = timer_expired t prd now in
      ((r.0 ≡ true) ↔ ((prd ≡ 0) ⊎ ((0 < t) × (t ≤ now)))) × (now ≤ r.1) × (r.1 ≤ now + prd)
timer_expired_lem t prd now h = elim (split t prd now) [
  | inl c ↦ rw (expired_reset t prd now h c) (ground arith)
  | inr (inl (lt, le)) ↦ rw (expired_early t prd now h lt le) (ground arith)
  | inr (inr (pos, le)) ↦ rw (expired_late t prd now h pos le) (ground arith)
]
  where
    split :
        (t prd now : ℕ)
        → ((t ≡ 0) ⊎ (now + prd < t)) ⊎ (((now < t) × (t ≤ now + prd)) ⊎ ((0 < t) × (t ≤ now)))
    split t prd now = ground arith

-- While `now + prd` does not wrap around, a timer whose time came at most a period ago expires, and
-- its new time is one period after the old one, whenever within that period it is polled.
timer_rhythm :
    (t prd now : ℕ)
    → now + prd < 2 ^ 64
    → 0 < t
    → t ≤ now
    → now ≤ t + prd
    → timer_expired t prd now ≡ (true, t + prd)
timer_rhythm t prd now h pos le late =
    let kept : ltb (t + prd) now ≡ false = ground arith in
    expired_late t prd now h pos le ∙ rw kept refl

-- Setting the flag CALLED makes it set, and does not set REPEAT.
flags_called :
    (f : ℕ)
    → f < 16
    → has f timer_repeat ≡ false
    → (bit_or f timer_called < 16)
      × (has (bit_or f timer_called) timer_repeat ≡ false)
      × (has (bit_or f timer_called) timer_called ≡ true)
unfolding has
flags_called f h r =
    let small =
      all_below_sound 16 (λ f. ltb (bit_or f timer_called) 16) f (unfold all_below in refl) h in
    let same =
      all_below_sound 16 (λ f. has f timer_repeat || not (has (bit_or f timer_called) timer_repeat))
        f (unfold all_below in refl) h in
    let set =
      all_below_sound 16 (λ f. has (bit_or f timer_called) timer_called) f
        (unfold all_below in refl) h in
    (ltb→lt _ _ small, by_same (has f timer_repeat) _ r same, set)
  where
    by_same : (a b : Bool) → a ≡ false → (a || not b) ≡ true → b ≡ false
    by_same a b e k = ground arith

-- What a poll leaves of a timer that does not repeat: nothing, or a timer that does not repeat and
-- that counts as called if it did before or was due.
abbrev IsLeft : ℕ → Timer → Timer → Type 0
IsLeft now t t' =
    (t'.flags < 16)
    × (has t'.flags timer_repeat ≡ false)
    × ((has t.flags timer_called ≡ true) ⊎ (is_due now t ≡ true) → has t'.flags timer_called ≡ true)

polled_freed :
    (now : ℕ) (t : Timer)
    → is_due now t ≡ true
    → has t.flags timer_repeat ≡ false
    → has t.flags timer_autodelete ≡ true
    → polled now t ≡ none
unfolding polled
polled_freed now t d r a = rw (d, r, a) refl

polled_kept :
    (now : ℕ) (t : Timer)
    → is_due now t ≡ true
    → has t.flags timer_repeat ≡ false
    → has t.flags timer_autodelete ≡ false
    → polled now t
      ≡ some (record {
        period_ms = t.period_ms;
        expire = (timer_expired t.expire t.period_ms now).1;
        flags = bit_or t.flags timer_called;
        fn = t.fn;
      })
unfolding polled
polled_kept now t d r a = rw (d, r, a) refl

polled_idle :
    (now : ℕ) (t : Timer)
    → is_due now t ≡ false
    → polled now t
      ≡ some (record {
        period_ms = t.period_ms;
        expire = (timer_expired t.expire t.period_ms now).1;
        flags = t.flags;
        fn = t.fn;
      })
unfolding polled
polled_idle now t d = rw d refl

polled-IsLeft :
    (now : ℕ) (t : Timer)
    → t.flags < 16
    → has t.flags timer_repeat ≡ false
    → (polled now t ≡ none) ⊎ ((t' : Timer) × (polled now t ≡ some t') × IsLeft now t t')
polled-IsLeft now t b r = elim (Bool-cases (is_due now t)) [
  | inr idle ↦ inr (
    _,
    polled_idle now t idle,
    (b, r, λ c. elim c [ inl was ↦ was | inr due ↦ absurd (cc (due, idle)) ]),
  )
  | inl due ↦ elim (Bool-cases (has t.flags timer_autodelete)) [
    | inl freed ↦ inl (polled_freed now t due r freed)
    | inr kept ↦
        let f = flags_called t.flags b r in
        inr (_, polled_kept now t due r kept, (f.0, f.1, λ c. f.2))
  ]
]

count_freed :
    (now : ℕ) (times : List ℕ) (t : Timer)
    → polled now t ≡ none
    → call_count (now ∷ times) t ≡ (if calls now t then 1 else 0)
unfolding call_count
count_freed now times t e = rw (e, call_count) refl

count_left :
    (now : ℕ) (times : List ℕ) (t t' : Timer)
    → polled now t ≡ some t'
    → call_count (now ∷ times) t ≡ (if calls now t then 1 else 0) + call_count times t'
unfolding call_count
count_left now times t t' e = rw (e, call_count) refl

no_call :
    (now : ℕ) (t : Timer)
    → has t.flags timer_repeat ≡ false
    → (has t.flags timer_called ≡ true) ⊎ (is_due now t ≡ false)
    → calls now t ≡ false
unfolding calls
no_call now t r (inl c) = rw (r, c) (ground arith)
no_call now t r (inr c) = rw c refl

-- A timer that has been called and does not repeat is never called again.
spent :
    (times : List ℕ) (t : Timer)
    → t.flags < 16
    → has t.flags timer_repeat ≡ false
    → has t.flags timer_called ≡ true
    → call_count times t ≡ 0
spent [] t b r c = unfold call_count in refl
spent (now ∷ times) t b r c =
    let quiet = no_call now t r (inl c) in
    elim (polled-IsLeft now t b r) [
      | inl e ↦ count_freed now times t e ∙ rw quiet refl
      | inr (t', e, left) ↦
          count_left now times t t' e
          ∙ rw (quiet, spent times t' left.0 left.1 (left.2 (inl c))) (omega arith)
    ]

-- A timer without REPEAT is called once at most, at whatever times it is polled.
pub called_once :
    (times : List ℕ) (t : Timer)
    → t.flags < 16
    → has t.flags timer_repeat ≡ false
    → call_count times t ≤ 1
called_once [] t b r = unfold call_count in omega arith
called_once (now ∷ times) t b r =
    let at_most : (if calls now t then 1 else 0) ≤ 1 =
      if-both (λ n. n ≤ 1) (calls now t) 1 0 (λ _. omega arith) (λ _. omega arith) in
    elim (polled-IsLeft now t b r) [
      | inl e ↦ rw (count_freed now times t e) at_most
      | inr (t', e, left) ↦ rw (count_left now times t t' e) (elim (Bool-cases (is_due now t)) [
        | inl due ↦ rw (spent times t' left.0 left.1 (left.2 (inr due))) (omega (arith, at_most))
        | inr idle ↦
            rw (no_call now t r (inr idle)) (omega (arith, called_once times t' left.0 left.1))
      ])
    ]
