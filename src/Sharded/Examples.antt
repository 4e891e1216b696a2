-- ===== src/Sharded/Examples.antt =====
-- sharded.cpp: the theorems at a server with two workers.
use nanosrv.Common.{ℕ, ◌+◌, ◌*◌, ◌≤◌, ◌≡◌, ◌⊎◌, refl, arith, true, false, List, [], ◌∷◌, some, suc}
use nanosrv.Sharded.{
  PendingConn, Event, accept, reserve, push, start_drain, pop, adopt, close, Server, run, start,
  step, on_reserve, on_accept, on_push, idle_workers, take_pending, take_from, adopt_taken,
  adopt_from, enqueue, close_conn, at_worker, lowers_at, by_worker,
}
use nanosrv.Sharded.Cap.{total, in_hand, run_capped}
use nanosrv.Sharded.Drain.{on_the_way, run_drains}
use nanosrv.Sharded.Ids.{nth_id, worker_ids, wakeup_worker, ids_routed, ids_distinct}

abbrev conn : ℕ → PendingConn
conn n = record { fd = n; handler = 0 }

-- A connection closes between the test of the cap and the increment.
abbrev two_conns : List Event
two_conns =
    accept (conn 7) true
    ∷ reserve
    ∷ push
    ∷ pop 0
    ∷ adopt 0 true
    ∷ accept (conn 8) true
    ∷ close 0 0
    ∷ reserve
    ∷ push
    ∷ []

live_example : (run 2 two_conns (start 2)).live ≡ 1
unfolding run step on_reserve on_accept on_push start idle_workers take_pending take_from
    adopt_taken adopt_from enqueue close_conn at_worker lowers_at by_worker
live_example = refl

run_capped_example :
    let s = run 2 two_conns (start 2) in
    (s.live ≡ total s.workers + in_hand s.acceptor)
    × ((◌≡◌ {A = ℕ} 2 0) ⊎ ((s.live ≤ 2) × (total s.workers ≤ 2)))
run_capped_example = run_capped 2 2 two_conns (omega arith)

abbrev draining_server : Server
draining_server = run 2 (accept (conn 7) true ∷ reserve ∷ start_drain ∷ []) (start 2)

run_drains_example :
    let s' = run 2 (push ∷ accept (conn 8) true ∷ pop 0 ∷ adopt 0 false ∷ []) draining_server in
    (s'.draining ≡ true)
    × (total s'.workers + on_the_way s'.acceptor
        ≤ total draining_server.workers + on_the_way draining_server.acceptor)
unfolding run step on_reserve on_accept start idle_workers
run_drains_example =
    run_drains 2 (push ∷ accept (conn 8) true ∷ pop 0 ∷ adopt 0 false ∷ []) draining_server
      (omega arith) refl

ids_routed_example :
    let id = nth_id (worker_ids 1 3) 4 in (id ≡ 1 + 3 * suc 4) × (wakeup_worker 3 true id ≡ some 1)
ids_routed_example = ids_routed 1 3 4 (omega arith) (omega arith)

ids_distinct_example : (◌≡◌ {A = ℕ} 1 1) × (◌≡◌ {A = ℕ} 4 4)
ids_distinct_example =
    ids_distinct 1 1 3 4 4 (omega arith) (omega arith) (omega arith) (omega arith) refl
