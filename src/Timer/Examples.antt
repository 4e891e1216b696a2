-- ===== src/Timer/Examples.antt =====
-- timer.cpp: the theorems at concrete timers.
use nanosrv.Common.{◌≤◌, refl, arith, [], ◌∷◌}
use nanosrv.Timer.{Timer, call_count, has}
use nanosrv.Timer.Polls.{called_once}

abbrev one_shot : Timer
one_shot = record { period_ms = 10; expire = 0; flags = 2; fn = 5 }

called_once_example : call_count (100 ∷ 105 ∷ 120 ∷ 140 ∷ []) one_shot ≤ 1
called_once_example =
    called_once (100 ∷ 105 ∷ 120 ∷ 140 ∷ []) one_shot (omega arith) (unfold has in refl)
