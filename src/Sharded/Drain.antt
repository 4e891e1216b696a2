-- ===== src/Sharded/Drain.antt =====
-- sharded.cpp, `drain`: from its start on, no further connection comes in.
use nanosrv.Common.{
  ℕ, ◌+◌, ◌%◌, ◌≤◌, ◌<◌, Bool, true, List, [], ◌∷◌, ◌≡◌, refl, arith, length, if-both,
}
use nanosrv.Sharded.{
  PendingConn, Acceptor, idle, admitted, reserved, Server, Event, accept, reserve, push,
  start_drain, pop, adopt, close, release, on_accept, enqueue, Action, by_worker, on_reserve,
  on_push, step, run,
}
use nanosrv.Sharded.Cap.{
  total, IsBalanced, total-at_worker, total-enqueue, length-at_worker, take_pending-IsBalanced,
  adopt_taken-IsBalanced, close_conn-IsBalanced, release_pending-IsBalanced,
}

-- Whether the acceptor is on the way with a connection that it has admitted.
unfoldable pub on_the_way : Acceptor → ℕ
on_the_way idle = 0
on_the_way (admitted pc) = 1
on_the_way (reserved pc) = 1

-- After: still draining, and no more connections than before.
IsShrunk : Server → Server → Type 0
IsShrunk s s' =
    (s'.draining ≡ true)
    × (length s'.workers ≡ length s.workers)
    × (total s'.workers + on_the_way s'.acceptor ≤ total s.workers + on_the_way s.acceptor)

by_worker-IsShrunk :
    (i : ℕ) (f : Action) (s : Server)
    → IsBalanced f
    → s.draining ≡ true
    → IsShrunk s (by_worker i f s)
unfolding by_worker IsShrunk
by_worker-IsShrunk i f s b d =
    (d, length-at_worker i (λ w. (f w).0) s.workers, omega (arith, total-at_worker i f s.workers b))

IsShrunk-refl : (s : Server) → s.draining ≡ true → IsShrunk s s
unfolding IsShrunk
IsShrunk-refl s d = (d, refl, omega arith)

on_accept-IsShrunk :
    (max : ℕ) (pc : PendingConn) (detached : Bool) (a : Acceptor) (s : Server)
    → s.draining ≡ true
    → IsShrunk s (on_accept max pc detached a s)
unfolding on_accept
on_accept-IsShrunk max pc detached idle s d =
    if-both (IsShrunk s) s.draining _ _ (λ _. IsShrunk-refl s d) (λ e. absurd (cc (d, e)))
on_accept-IsShrunk max pc detached (admitted _) s d = IsShrunk-refl s d
on_accept-IsShrunk max pc detached (reserved _) s d = IsShrunk-refl s d

on_reserve-IsShrunk :
    (a : Acceptor) (s : Server) → s.acceptor ≡ a → s.draining ≡ true → IsShrunk s (on_reserve a s)
unfolding on_reserve IsShrunk on_the_way
on_reserve-IsShrunk idle s i d = IsShrunk-refl s d
on_reserve-IsShrunk (reserved pc) s i d = IsShrunk-refl s d
on_reserve-IsShrunk (admitted pc) s i d =
    let one : on_the_way s.acceptor ≡ 1 = rw i refl in (d, refl, omega (arith, one))

on_push-IsShrunk :
    (a : Acceptor) (s : Server)
    → s.acceptor ≡ a
    → 0 < length s.workers
    → s.draining ≡ true
    → IsShrunk s (on_push a s)
unfolding on_push IsShrunk on_the_way
on_push-IsShrunk idle s i p d = IsShrunk-refl s d
on_push-IsShrunk (admitted pc) s i p d = IsShrunk-refl s d
on_push-IsShrunk (reserved pc) s i p d =
    let one : on_the_way s.acceptor ≡ 1 = rw i refl in
    let inside : s.next % length s.workers < length s.workers = omega arith in
    (
      d,
      length-at_worker _ (enqueue pc) s.workers,
      omega (arith, one, total-enqueue (s.next % length s.workers) pc s.workers inside),
    )

step-IsShrunk :
    (max : ℕ) (e : Event) (s : Server)
    → 0 < length s.workers
    → s.draining ≡ true
    → IsShrunk s (step max e s)
unfolding step
step-IsShrunk max (accept pc detached) s p d = on_accept-IsShrunk max pc detached s.acceptor s d
step-IsShrunk max reserve s p d = on_reserve-IsShrunk s.acceptor s refl d
step-IsShrunk max push s p d = on_push-IsShrunk s.acceptor s refl p d
step-IsShrunk max start_drain s p d = unfold IsShrunk in (refl, refl, omega arith)
step-IsShrunk max (pop i) s p d = by_worker-IsShrunk i _ s take_pending-IsBalanced d
step-IsShrunk max (adopt i wrapped) s p d =
    by_worker-IsShrunk i _ s (adopt_taken-IsBalanced wrapped) d
step-IsShrunk max (close i k) s p d = by_worker-IsShrunk i _ s (close_conn-IsBalanced k) d
step-IsShrunk max (release i) s p d = by_worker-IsShrunk i _ s release_pending-IsBalanced d

-- From a state that is draining and has a worker, no interleaving, however long, raises the number
-- of connections at the workers and on the way to them; and the server keeps draining.
pub run_drains :
    (max : ℕ) (es : List Event) (s : Server)
    → 0 < length s.workers
    → s.draining ≡ true
    → let s' = run max es s in
      (s'.draining ≡ true)
      × (total s'.workers + on_the_way s'.acceptor ≤ total s.workers + on_the_way s.acceptor)
unfolding run IsShrunk
run_drains max [] s p d = (d, omega arith)
run_drains max (e ∷ es) s p d =
    let (d', size, le) = step-IsShrunk max e s p d in
    let (d'', le') = run_drains max es (step max e s) (omega arith) d' in (d'', omega arith)
