-- ===== src/Sharded/Cap.antt =====
-- sharded.cpp: the count of live connections is exact whatever the interleaving, and stays below the
-- cap.
use nanosrv.Common.{
  ℕ, zero, suc, ◌+◌, ◌%◌, ◌≤◌, ◌<◌, Bool, true, false, ◌&&◌, Option, none, some, List, [], ◌∷◌, ◌≡◌,
  ◌⊎◌, inl, inr, refl, ap, ◌∙◌, arith, ltb, leb, length, length-append, length-take, length-drop,
  take, drop, Bool-cases, if-both,
}
use mathlib.Core.Path.{subst}
use nanosrv.Sharded.{
  PendingConn, Worker, Acceptor, idle, admitted, reserved, Server, Event, accept, reserve, push,
  start_drain, pop, adopt, close, release, on_accept, enqueue, at_worker, Action, lowers_at,
  by_worker, take_from, take_pending, adopt_from, adopt_taken, close_conn, release_pending,
  on_reserve, on_push, step, run, idle_workers, start,
}

at_hand : Option PendingConn → ℕ
at_hand none = 0
at_hand (some pc) = 1

-- The connections that a worker has, in its queue, at hand, or registered.
unfoldable pub load : Worker → ℕ
unfolding at_hand
load w = length w.pending + at_hand w.taken + length w.conns

unfoldable pub total : List Worker → ℕ
total [] = 0
total (w ∷ ws) = load w + total ws

-- An action that lowers the count by as many connections as the worker loses.
unfoldable pub IsBalanced : Action → Type 0
IsBalanced f = (w : Worker) → load (f w).0 + (f w).1 ≡ load w

load-take_from :
    (q : List PendingConn) (t : Option PendingConn) (c : List PendingConn)
    → load (take_from q t c) ≡ length q + at_hand t + length c
unfolding load take_from at_hand
load-take_from (pc ∷ q) none c = omega arith
load-take_from [] none c = omega arith
load-take_from [] (some pc) c = omega arith
load-take_from (pd ∷ q) (some pc) c = omega arith

pub take_pending-IsBalanced : IsBalanced take_pending
unfolding IsBalanced load take_pending
take_pending-IsBalanced w = omega (arith, load-take_from w.pending w.taken w.conns)

load-adopt_from :
    (wrapped : Bool) (q : List PendingConn) (t : Option PendingConn) (c : List PendingConn)
    → let r = adopt_from wrapped q t c in load r.0 + r.1 ≡ length q + at_hand t + length c
unfolding load adopt_from at_hand
load-adopt_from wrapped q none c = omega arith
load-adopt_from true q (some pc) c = omega arith
load-adopt_from false q (some pc) c = omega arith

pub adopt_taken-IsBalanced : (wrapped : Bool) → IsBalanced (adopt_taken wrapped)
unfolding IsBalanced load adopt_taken
adopt_taken-IsBalanced wrapped w = load-adopt_from wrapped w.pending w.taken w.conns

pub close_conn-IsBalanced : (k : ℕ) → IsBalanced (close_conn k)
unfolding IsBalanced load close_conn
close_conn-IsBalanced k w = elim (Bool-cases (ltb k (length w.conns))) [
  | inl e ↦ rw e (
      grind (
        arith,
        length-append (take k w.conns) (drop (suc k) w.conns),
        length-take k w.conns,
        length-drop (suc k) w.conns,
      ))
  | inr e ↦ rw e (omega arith)
]

pub release_pending-IsBalanced : IsBalanced release_pending
unfolding IsBalanced load release_pending
release_pending-IsBalanced w = omega arith

pub total-at_worker :
    (i : ℕ) (f : Action) (ws : List Worker)
    → IsBalanced f
    → total (at_worker i (λ w. (f w).0) ws) + lowers_at i f ws ≡ total ws
unfolding total at_worker lowers_at IsBalanced
total-at_worker i f [] b = omega arith
total-at_worker zero f (w ∷ ws) b = omega (arith, b w)
total-at_worker (suc i) f (w ∷ ws) b = omega (arith, total-at_worker i f ws b)

pub total-enqueue :
    (i : ℕ) (pc : PendingConn) (ws : List Worker)
    → i < length ws
    → total (at_worker i (enqueue pc) ws) ≡ suc (total ws)
unfolding total at_worker enqueue load
total-enqueue i pc [] h = absurd (omega arith)
total-enqueue zero pc (w ∷ ws) h = omega (arith, length-append w.pending (pc ∷ []))
total-enqueue (suc i) pc (w ∷ ws) h = omega (arith, total-enqueue i pc ws (omega arith))

pub length-at_worker :
    (i : ℕ) (f : Worker → Worker) (ws : List Worker) → length (at_worker i f ws) ≡ length ws
unfolding at_worker
length-at_worker i f [] = refl
length-at_worker zero f (w ∷ ws) = refl
length-at_worker (suc i) f (w ∷ ws) = ap suc (length-at_worker i f ws)

-- The slot that the acceptor has reserved for the connection it hands over.
unfoldable pub in_hand : Acceptor → ℕ
in_hand idle = 0
in_hand (admitted pc) = 0
in_hand (reserved pc) = 1

unfoldable pub HasRoom : ℕ → ℕ → Acceptor → Type 0
HasRoom max live idle = Unit
HasRoom max live (admitted pc) = (max ≡ 0) ⊎ (live < max)
HasRoom max live (reserved pc) = Unit

-- The count is the number of connections between the acceptor and their end; it is not above the
-- cap, if there is one; and an acceptor that has passed the test finds a free slot.
pub record IsCounted (max n : ℕ) (s : Server) : Type 0 where
  pub size : length s.workers ≡ n
  pub exact : s.live ≡ total s.workers + in_hand s.acceptor
  pub capped : (max ≡ 0) ⊎ (s.live ≤ max)
  pub room : HasRoom max s.live s.acceptor

HasRoom-lower :
    (max live live' : ℕ) (a : Acceptor) → live' ≤ live → HasRoom max live a → HasRoom max live' a
unfolding HasRoom
HasRoom-lower max live live' idle le r = tt
HasRoom-lower max live live' (admitted pc) le (inl free) = inl free
HasRoom-lower max live live' (admitted pc) le (inr lt) = inr (omega arith)
HasRoom-lower max live live' (reserved pc) le r = tt

by_worker-IsCounted :
    (max n i : ℕ) (f : Action) (s : Server)
    → IsBalanced f
    → IsCounted max n s
    → IsCounted max n (by_worker i f s)
unfolding by_worker
by_worker-IsCounted max n i f s b h = record {
  size = length-at_worker i (λ w. (f w).0) s.workers ∙ h.size;
  exact = omega (arith, h.exact, total-at_worker i f s.workers b);
  capped = elim h.capped [ inl free ↦ inl free | inr le ↦ inr (omega (arith, le)) ];
  room = HasRoom-lower max s.live _ s.acceptor (omega arith) h.room;
}

-- The acceptor goes on past the test of the cap.
admit :
    (max n : ℕ) (pc : PendingConn) (s : Server)
    → s.acceptor ≡ idle
    → (ltb 0 max && leb max s.live) ≡ false
    → IsCounted max n s
    → IsCounted max n (record s { acceptor = admitted pc })
unfolding HasRoom in_hand
admit max n pc s i free h = record {
  size = h.size;
  exact = h.exact ∙ (rw i refl);
  capped = h.capped;
  room = ground arith;
}

on_accept-IsCounted :
    (max n : ℕ) (pc : PendingConn) (detached : Bool) (a : Acceptor) (s : Server)
    → s.acceptor ≡ a
    → IsCounted max n s
    → IsCounted max n (on_accept max pc detached a s)
unfolding on_accept
on_accept-IsCounted max n pc detached (admitted _) s i h = h
on_accept-IsCounted max n pc detached (reserved _) s i h = h
on_accept-IsCounted max n pc detached idle s i h =
    let goal = IsCounted max n in
    if-both goal s.draining _ _ (λ _. h)
      (λ _.
        if-both goal (ltb 0 max && leb max s.live) _ _ (λ _. h)
          (λ free. if-both goal detached _ _ (λ _. admit max n pc s i free h) (λ _. h)))

on_reserve-IsCounted :
    (max n : ℕ) (a : Acceptor) (s : Server)
    → s.acceptor ≡ a
    → IsCounted max n s
    → IsCounted max n (on_reserve a s)
unfolding on_reserve HasRoom in_hand
on_reserve-IsCounted max n idle s i h = h
on_reserve-IsCounted max n (reserved pc) s i h = h
on_reserve-IsCounted max n (admitted pc) s i h =
    let none_in_hand : in_hand s.acceptor ≡ 0 = rw i refl in
    let free : (max ≡ 0) ⊎ (s.live < max) = subst (λ a. HasRoom max s.live a) i h.room in
    record {
      size = h.size;
      exact = omega (arith, h.exact, none_in_hand);
      capped = ground arith;
      room = tt;
    }

on_push-IsCounted :
    (max n : ℕ) (a : Acceptor) (s : Server)
    → 0 < n
    → s.acceptor ≡ a
    → IsCounted max n s
    → IsCounted max n (on_push a s)
unfolding on_push HasRoom in_hand
on_push-IsCounted max n idle s pos i h = h
on_push-IsCounted max n (admitted pc) s pos i h = h
on_push-IsCounted max n (reserved pc) s pos i h =
    let one_in_hand : in_hand s.acceptor ≡ 1 = rw i refl in
    let inside : s.next % length s.workers < length s.workers = omega (arith, h.size) in
    record {
      size = length-at_worker _ (enqueue pc) s.workers ∙ h.size;
      exact = omega (
        arith,
        h.exact,
        one_in_hand,
        total-enqueue (s.next % length s.workers) pc s.workers inside,
      );
      capped = h.capped;
      room = tt;
    }

step-IsCounted :
    (max n : ℕ) (e : Event) (s : Server)
    → 0 < n
    → IsCounted max n s
    → IsCounted max n (step max e s)
unfolding step
step-IsCounted max n (accept pc detached) s pos h =
    on_accept-IsCounted max n pc detached s.acceptor s refl h
step-IsCounted max n reserve s pos h = on_reserve-IsCounted max n s.acceptor s refl h
step-IsCounted max n push s pos h = on_push-IsCounted max n s.acceptor s pos refl h
step-IsCounted max n start_drain s pos h = record {
  size = h.size;
  exact = h.exact;
  capped = h.capped;
  room = h.room;
}
step-IsCounted max n (pop i) s pos h = by_worker-IsCounted max n i _ s take_pending-IsBalanced h
step-IsCounted max n (adopt i wrapped) s pos h =
    by_worker-IsCounted max n i _ s (adopt_taken-IsBalanced wrapped) h
step-IsCounted max n (close i k) s pos h =
    by_worker-IsCounted max n i _ s (close_conn-IsBalanced k) h
step-IsCounted max n (release i) s pos h =
    by_worker-IsCounted max n i _ s release_pending-IsBalanced h

length-idle_workers : (n : ℕ) → length (idle_workers n) ≡ n
unfolding idle_workers
length-idle_workers zero = refl
length-idle_workers (suc n) = ap suc (length-idle_workers n)

total-idle_workers : (n : ℕ) → total (idle_workers n) ≡ 0
unfolding idle_workers total load at_hand
total-idle_workers zero = refl
total-idle_workers (suc n) = omega (arith, total-idle_workers n)

start-IsCounted : (max n : ℕ) → IsCounted max n (start n)
unfolding start in_hand HasRoom
start-IsCounted max n = record {
  size = length-idle_workers n;
  exact = omega (arith, total-idle_workers n);
  capped = inr (omega arith);
  room = tt;
}

run-IsCounted :
    (max n : ℕ) (es : List Event) (s : Server)
    → 0 < n
    → IsCounted max n s
    → IsCounted max n (run max es s)
unfolding run
run-IsCounted max n [] s pos h = h
run-IsCounted max n (e ∷ es) s pos h =
    run-IsCounted max n es (step max e s) pos (step-IsCounted max n e s pos h)

-- Whatever the interleaving of the acceptor with the workers, the count of live connections is the
-- number of those that are queued, at hand or registered at some worker, and one more while the
-- acceptor hands one over; and where a cap is set (it is not 0), the count, and so the number of
-- connections at the workers, is never above it.
pub run_capped :
    (max num_threads : ℕ) (es : List Event)
    → 0 < num_threads
    → let s = run max es (start num_threads) in
      (s.live ≡ total s.workers + in_hand s.acceptor)
      × ((max ≡ 0) ⊎ ((s.live ≤ max) × (total s.workers ≤ max)))
run_capped max num_threads es pos =
    let h =
      run-IsCounted max num_threads es (start num_threads) pos (start-IsCounted max num_threads) in
    (h.exact, elim h.capped [ inl free ↦ inl free | inr le ↦ inr (le, omega (arith, h.exact)) ])
