-- ===== src/Timer.antt =====
-- projects/nanosrv/timer.cpp: a list of timers and the poll that calls those that are due. A timer's
-- callback is recorded and changes no timer.
pub mod Polls
mod Examples
use nanosrv.Common.{
  ℕ, zero, suc, ◌+◌, ◌-◌, ◌%◌, ◌^◌, bit_and, bit_or, Bool, true, false, not, ◌&&◌, ◌||◌, Option,
  none, some, List, [], ◌∷◌, ◌++◌, ◌≡◌, refl, ltb, ◌==◌, if◌then◌else◌,
}

-- struct Timer; `fn` stands for the callback with its argument.
pub record Timer : Type 0 where
  pub period_ms : ℕ
  pub expire : ℕ
  pub flags : ℕ
  pub fn : ℕ

unfoldable pub timer_init : List Timer → ℕ → ℕ → ℕ → List Timer
timer_init head ms flags fn = record { period_ms = ms; expire = 0; flags = flags; fn = fn } ∷ head

-- Whether the timer is expired, and the new expiration time.
unfoldable pub timer_expired : ℕ → ℕ → ℕ → Bool × ℕ
timer_expired t prd now =
    let until = (now + prd) % 2 ^ 64 in
    let t₁ = if ltb until t then 0 else t in
    let t₂ = if t₁ == 0 then until else t₁ in
    if ltb now t₂
    then (false, t₂)
    else (true, if ltb prd (now - t₂) then until else (t₂ + prd) % 2 ^ 64)

-- flags & MG_TIMER_...
unfoldable pub has : ℕ → ℕ → Bool
has flags bit = not (bit_and flags bit == 0)

abbrev pub timer_repeat : ℕ
timer_repeat = 1

abbrev pub timer_run_now : ℕ
timer_run_now = 2

abbrev pub timer_called : ℕ
timer_called = 4

abbrev pub timer_autodelete : ℕ
timer_autodelete = 8

-- The condition `once || expired` in a round of `timer_poll`.
unfoldable pub is_due : ℕ → Timer → Bool
is_due now t =
    t.expire == 0 && has t.flags timer_run_now && not (has t.flags timer_called)
    || (timer_expired t.expire t.period_ms now).0

-- Whether the round calls the callback.
unfoldable pub calls : ℕ → Timer → Bool
calls now t = is_due now t && (has t.flags timer_repeat || not (has t.flags timer_called))

-- What the round makes of the timer; `none` where it is freed.
unfoldable pub polled : ℕ → Timer → Option Timer
polled now t =
    let expire = (timer_expired t.expire t.period_ms now).1 in
    if is_due now t
    then (if not (has t.flags timer_repeat) && has t.flags timer_autodelete
        then none
        else some (record t { expire = expire; flags = bit_or t.flags timer_called }))
    else some (record t { expire = expire })

-- The callbacks in order, and the timers that are left.
unfoldable pub timer_poll : List Timer → ℕ → List ℕ × List Timer
timer_poll [] now = ([], [])
timer_poll (t ∷ ts) now =
    let rest = timer_poll ts now in
    (
      if calls now t then t.fn ∷ rest.0 else rest.0,
      elim (polled now t) [ none ↦ rest.1 | some t' ↦ t' ∷ rest.1 ],
    )

-- The polls of one timer at a sequence of times: how often it is called.
unfoldable pub call_count : List ℕ → Timer → ℕ
call_count [] t = 0
call_count (now ∷ times) t =
    let here : ℕ = if calls now t then 1 else 0 in
    elim (polled now t) [ none ↦ here | some t' ↦ here + call_count times t' ]
