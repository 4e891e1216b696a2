-- ===== src/Sharded.antt =====
-- projects/nanosrv/sharded.cpp: one thread accepts connections and hands them to the queues of worker
-- threads in turn; a worker adopts what its queue holds. The threads share the count of live
-- connections, and a run is any interleaving of their atomic actions, as a list of events.
pub mod Cap
pub mod Drain
pub mod Ids
mod Examples
use nanosrv.Common.{
  ℕ, zero, suc, ◌+◌, ◌-◌, ◌%◌, ◌^◌, Bool, true, false, not, ◌&&◌, Option, none, some, List, [], ◌∷◌,
  ◌++◌, ◌≡◌, refl, ltb, leb, ◌==◌, if◌then◌else◌, length, take, drop,
}

-- struct PendingConn: the socket, and the handler of the listener that accepted it. The addresses
-- are carried along unread.
pub record PendingConn : Type 0 where
  pub fd : ℕ
  pub handler : ℕ

-- A worker: its queue, the connection that `drain_worker` has taken off and not registered, and the
-- connections of its event loop.
pub record Worker : Type 0 where
  pub pending : List PendingConn
  pub taken : Option PendingConn
  pub conns : List PendingConn

-- Where the acceptor's handler stands between two atomic actions: past the test of the cap and the
-- detaching of the socket, or past the increment of the count.
pub data Acceptor : Type 0 where
  idle : Acceptor
  admitted reserved : PendingConn → Acceptor

pub record Server : Type 0 where
  pub draining : Bool
  pub live : ℕ
  pub next : ℕ
  pub acceptor : Acceptor
  pub workers : List Worker

-- What happens next, on whichever thread: the handler's three parts, the parts of `drain_worker` and
-- of the connection's callback on worker i, and `drain` and the release of a queue at the end of `run`.
pub data Event : Type 0 where
  accept : PendingConn → Bool → Event
  reserve push start_drain : Event
  pop : ℕ → Event
  adopt : ℕ → Bool → Event
  close : ℕ → ℕ → Event
  release : ℕ → Event

-- MG_EV_ACCEPT up to the increment; the handler runs to its end before it is called again.
-- `detached` says whether `detach_fd` gave a valid socket.
unfoldable pub on_accept : ℕ → PendingConn → Bool → Acceptor → Server → Server
on_accept max_connections pc detached idle s =
    if s.draining
    then s
    else if ltb 0 max_connections && leb max_connections s.live
    then s
    else if detached
    then record s { acceptor = admitted pc }
    else s
on_accept max_connections pc detached (admitted _) s = s
on_accept max_connections pc detached (reserved _) s = s

unfoldable pub enqueue : PendingConn → Worker → Worker
enqueue pc w = record w { pending = w.pending ++ pc ∷ [] }

unfoldable pub at_worker : ℕ → (Worker → Worker) → List Worker → List Worker
at_worker i f [] = []
at_worker zero f (w ∷ ws) = f w ∷ ws
at_worker (suc i) f (w ∷ ws) = w ∷ at_worker i f ws

-- An action of worker i: its new state, and by how much it lowers the count of live connections.
abbrev pub Action : Type 0
Action = Worker → Worker × ℕ

unfoldable pub lowers_at : ℕ → Action → List Worker → ℕ
lowers_at i f [] = 0
lowers_at zero f (w ∷ ws) = (f w).1
lowers_at (suc i) f (w ∷ ws) = lowers_at i f ws

unfoldable pub by_worker : ℕ → Action → Server → Server
unfolding at_worker lowers_at
by_worker i f s = record s {
  workers = at_worker i (λ w. (f w).0) s.workers;
  live = s.live - lowers_at i f s.workers;
}

-- `q->pending.front()` and `pop()`, when the worker has no other connection at hand.
unfoldable pub take_from : List PendingConn → Option PendingConn → List PendingConn → Worker
take_from (pc ∷ rest) none conns = record { pending = rest; taken = some pc; conns = conns }
take_from [] none conns = record { pending = []; taken = none; conns = conns }
take_from queue (some pc) conns = record { pending = queue; taken = some pc; conns = conns }

unfoldable pub take_pending : Action
unfolding take_from
take_pending w = (take_from w.pending w.taken w.conns, 0)

-- The rest of the round: `wrapped` says whether `wrapfd` gave a connection. If not, the slot is given
-- back.
unfoldable pub adopt_from :
    Bool → List PendingConn → Option PendingConn → List PendingConn → Worker × ℕ
adopt_from wrapped queue none conns = (record { pending = queue; taken = none; conns = conns }, 0)
adopt_from true queue (some pc) conns =
    (record { pending = queue; taken = none; conns = pc ∷ conns }, 0)
adopt_from false queue (some pc) conns =
    (record { pending = queue; taken = none; conns = conns }, 1)

unfoldable pub adopt_taken : Bool → Action
unfolding adopt_from
adopt_taken wrapped w = adopt_from wrapped w.pending w.taken w.conns

-- MG_EV_CLOSE of the k-th connection.
unfoldable pub close_conn : ℕ → Action
close_conn k w =
    if ltb k (length w.conns)
    then (record w { conns = take k w.conns ++ drop (suc k) w.conns }, 1)
    else (w, 0)

-- The queue's part of the end of `run`.
unfoldable pub release_pending : Action
release_pending w = (record w { pending = [] }, length w.pending)

-- `live->fetch_add(1)` reserves a slot.
unfoldable pub on_reserve : Acceptor → Server → Server
on_reserve (admitted pc) s = record s { live = s.live + 1; acceptor = reserved pc }
on_reserve idle s = s
on_reserve (reserved pc) s = s

-- `next_` is an unsigned of 32 bits.
unfoldable pub on_push : Acceptor → Server → Server
on_push (reserved pc) s = record s {
  next = (s.next + 1) % 2 ^ 32;
  workers = at_worker (s.next % length s.workers) (enqueue pc) s.workers;
  acceptor = idle;
}
on_push idle s = s
on_push (admitted pc) s = s

unfoldable pub step : ℕ → Event → Server → Server
unfolding by_worker
step max_connections (accept pc detached) s = on_accept max_connections pc detached s.acceptor s
step max_connections reserve s = on_reserve s.acceptor s
step max_connections push s = on_push s.acceptor s
step max_connections start_drain s = record s { draining = true }
step max_connections (pop i) s = by_worker i take_pending s
step max_connections (adopt i wrapped) s = by_worker i (adopt_taken wrapped) s
step max_connections (close i k) s = by_worker i (close_conn k) s
step max_connections (release i) s = by_worker i release_pending s

unfoldable pub run : ℕ → List Event → Server → Server
run max_connections [] s = s
run max_connections (e ∷ es) s = run max_connections es (step max_connections e s)

unfoldable pub idle_workers : ℕ → List Worker
idle_workers zero = []
idle_workers (suc n) = record { pending = []; taken = none; conns = [] } ∷ idle_workers n

unfoldable pub start : ℕ → Server
start num_threads = record {
  draining = false;
  live = 0;
  next = 0;
  acceptor = idle;
  workers = idle_workers num_threads;
}
