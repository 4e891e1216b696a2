-- ===== src/Json/Lexer/Stops.antt =====
-- json.cpp: strings and numbers end where they do whatever follows.
use nanosrv.Common.{
  ℕ, ◌+◌, ◌-◌, ◌*◌, Bool, true, false, ◌&&◌, ◌||◌, Option, none, some, [], ◌∷◌, ◌++◌, ◌≡◌, refl, ap,
  ◌∙◌, arith, Bytes, ltb, ◌==◌, if◌then◌else◌, length, length-append,
}
use nanosrv.Json.Lexer.{
  longer_by, pass_string, is_decimal, after_sign, after_digits, after_fraction, after_char,
  after_exponent_digits, after_exponent, after_number, number_len,
}

longer_some :
    (k n : ℕ) (o : Option ℕ) → longer_by k o ≡ some n → (m : ℕ) × (o ≡ some m) × (n ≡ k + m)
unfolding longer_by
longer_some k n none e = absurd (cc e)
longer_some k n (some m) e = (m, refl, cc e)

longer_some_sym : (k m : ℕ) → longer_by k (some m) ≡ some (k + m)
unfolding longer_by
longer_some_sym k m = refl

longer :
    (k : ℕ) (t rest : Bytes)
    → ((m : ℕ) → pass_string t ≡ some m → pass_string (t ++ rest) ≡ some m)
    → (n : ℕ) → longer_by k (pass_string t) ≡ some n
    → longer_by k (pass_string (t ++ rest)) ≡ some n
longer k t rest ih n e =
    let (m, here, sum) = longer_some k n (pass_string t) e in
    rw (ih m here, longer_some_sym k m, sum) refl

branches :
    (a b c : Bool) (n : ℕ) (x y x' y' : Option ℕ)
    → ((m : ℕ) → x ≡ some m → x' ≡ some m)
    → ((m : ℕ) → y ≡ some m → y' ≡ some m)
    → (if a then x else if b then none else if c then some 0 else y) ≡ some n
    → (if a then x' else if b then none else if c then some 0 else y') ≡ some n
branches true b c n x y x' y' f g h = f n h
branches false true c n x y x' y' f g h = h
branches false false true n x y x' y' f g h = h
branches false false false n x y x' y' f g h = g n h

pub pass_string-append :
    (t rest : Bytes) (n : ℕ) → pass_string t ≡ some n → pass_string (t ++ rest) ≡ some n
unfolding pass_string
pass_string-append [] rest n h = absurd (cc h)
pass_string-append (c ∷ []) [] n h = h
pass_string-append (c ∷ []) (d ∷ rest) n h = let e : c ≡ b'"' = ground arith in rw e (rw e at h)
pass_string-append (c ∷ e ∷ s) rest n h =
    branches _ (c == 0) (c == b'"') n _ _ _ _ (longer 2 s rest (pass_string-append s rest))
      (longer 1 (e ∷ s) rest (pass_string-append (e ∷ s) rest)) h

-- What may follow a number.
unfoldable pub is_stop : ℕ → Bool
is_stop c =
    c == b':' || c == b',' || c == b']' || c == b'}' || c == b' ' || c == 9 || c == 10 || c == 13

abbrev pub Stops : Bytes → Type 0
Stops [] = Unit
Stops (c ∷ s) = is_stop c ≡ true

stop_facts :
    (c : ℕ)
    → is_stop c ≡ true
    → (is_decimal c ≡ false)
      × ((c == b'.') ≡ false)
      × ((c == b'e' || c == b'E') ≡ false)
      × ((c == b'-') ≡ false)
      × ((c == b'+') ≡ false)
unfolding is_stop is_decimal
stop_facts c h = ground arith

if-append : (b : Bool) (x y q : Bytes) → (if b then x ++ q else y ++ q) ≡ (if b then x else y) ++ q
if-append true x y q = refl
if-append false x y q = refl

if_same :
    (b : Bool) (x x' y y' : Bytes) → x ≡ x' → y ≡ y' → (if b then x else y) ≡ (if b then x' else y')
if_same true x x' y y' e f = e
if_same false x x' y y' e f = f

-- Nothing is passed of a text that stops a number.
sign_none : (q : Bytes) → Stops q → after_sign q ≡ q
unfolding after_sign
sign_none [] h = refl
sign_none (c ∷ q) h = let f = stop_facts c h in rw (f.3, f.4) refl

digits_none : (q : Bytes) → Stops q → after_digits q ≡ q
unfolding after_digits
digits_none [] h = refl
digits_none (c ∷ q) h = rw (stop_facts c h).0 refl

fraction_none : (q : Bytes) → Stops q → after_fraction q ≡ q
unfolding after_fraction
fraction_none [] h = refl
fraction_none (c ∷ q) h = rw (stop_facts c h).1 refl

exponent_digits_none : (q : Bytes) (e : ℕ) → Stops q → after_exponent_digits q e ≡ q
unfolding after_exponent_digits
exponent_digits_none [] e h = refl
exponent_digits_none (c ∷ q) e h = rw (stop_facts c h).0 refl

exponent_none : (q : Bytes) → Stops q → after_exponent q ≡ q
unfolding after_exponent
exponent_none [] h = refl
exponent_none (c ∷ q) h = rw (stop_facts c h).2 refl

plus_none : (q : Bytes) → Stops q → after_char b'+' q ≡ q
unfolding after_char
plus_none [] h = refl
plus_none (c ∷ q) h = rw (stop_facts c h).4 refl

minus_none : (q : Bytes) → Stops q → after_char b'-' q ≡ q
unfolding after_char
minus_none [] h = refl
minus_none (c ∷ q) h = rw (stop_facts c h).3 refl

module _ (q : Bytes) (stops : Stops q) where
  sign-append : (t : Bytes) → after_sign (t ++ q) ≡ after_sign t ++ q
  unfolding after_sign
  sign-append [] = sign_none q stops
  sign-append (c ∷ t) = if-append (c == b'-' || c == b'+') t (c ∷ t) q

  digits-append : (t : Bytes) → after_digits (t ++ q) ≡ after_digits t ++ q
  unfolding after_digits
  digits-append [] = digits_none q stops
  digits-append (c ∷ t) =
      if_same (is_decimal c) _ _ _ _ (digits-append t) refl
      ∙ if-append (is_decimal c) (after_digits t) (c ∷ t) q

  fraction-append : (t : Bytes) → after_fraction (t ++ q) ≡ after_fraction t ++ q
  unfolding after_fraction
  fraction-append [] = fraction_none q stops
  fraction-append (c ∷ t) =
      if_same (c == b'.') _ _ _ _ (digits-append t) refl
      ∙ if-append (c == b'.') (after_digits t) (c ∷ t) q

  exponent_digits-append :
      (t : Bytes) (e : ℕ) → after_exponent_digits (t ++ q) e ≡ after_exponent_digits t e ++ q
  unfolding after_exponent_digits
  exponent_digits-append [] e = exponent_digits_none q e stops
  exponent_digits-append (c ∷ t) e =
      if_same (is_decimal c && ltb e 308) _ _ _ _ (exponent_digits-append t (e * 10 + (c - b'0')))
        refl
      ∙ if-append (is_decimal c && ltb e 308) (after_exponent_digits t (e * 10 + (c - b'0')))
          (c ∷ t) q

  plus-append : (t : Bytes) → after_char b'+' (t ++ q) ≡ after_char b'+' t ++ q
  unfolding after_char
  plus-append [] = plus_none q stops
  plus-append (c ∷ t) = if-append (c == b'+') t (c ∷ t) q

  minus-append : (t : Bytes) → after_char b'-' (t ++ q) ≡ after_char b'-' t ++ q
  unfolding after_char
  minus-append [] = minus_none q stops
  minus-append (c ∷ t) = if-append (c == b'-') t (c ∷ t) q

  exponent-append : (t : Bytes) → after_exponent (t ++ q) ≡ after_exponent t ++ q
  unfolding after_exponent
  exponent-append [] = exponent_none q stops
  exponent-append (c ∷ t) =
      if_same (c == b'e' || c == b'E') _ _ _ _
        (ap (λ x. after_exponent_digits x 0)
            (ap (after_char b'+') (minus-append t) ∙ plus-append (after_char b'-' t))
          ∙ exponent_digits-append (after_char b'+' (after_char b'-' t)) 0)
        refl
      ∙ if-append (c == b'e' || c == b'E')
          (after_exponent_digits (after_char b'+' (after_char b'-' t)) 0) (c ∷ t) q

  -- A number is as long as its text says.
  pub number_len-append : (t : Bytes) → after_number t ≡ [] → number_len (t ++ q) ≡ length t
  unfolding number_len after_number
  number_len-append t e =
      let rest : after_number (t ++ q) ≡ q =
        ap (λ x. after_exponent (after_fraction (after_digits x))) (sign-append t)
        ∙ ap (λ x. after_exponent (after_fraction x)) (digits-append (after_sign t))
        ∙ ap after_exponent (fraction-append (after_digits (after_sign t)))
        ∙ exponent-append (after_fraction (after_digits (after_sign t)))
        ∙ ap (λ x. x ++ q) e in
      omega (arith, ap length rest, length-append t q)
