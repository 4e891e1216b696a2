-- ===== src/Sharded/Ids.antt =====
-- The connection ids of the workers: alloc_conn of projects/nanosrv/net.cpp counts them up, the
-- constructor of ShardedManager gives each worker its own residue, and `wakeup` finds the worker again.
use nanosrv.Common.{
  ℕ, zero, suc, ◌+◌, ◌*◌, ◌/◌, ◌%◌, ◌^◌, ◌<◌, Bool, true, false, not, ◌||◌, Option, none, some, ◌≡◌,
  refl, sym, ap, ◌∙◌, arith, ◌==◌, if◌then◌else◌,
}
use native.Mathlib.Nat.{mul-suc, mul-div_cancel_left, add-mul-mod_self_left, mod-eq_of_lt}

-- The fields of struct Mgr that `alloc_conn` reads.
pub record IdSource : Type 0 where
  pub nextid : ℕ
  pub id_stride : ℕ

-- `mgr->nextid += mgr->id_stride`, an unsigned long of 64 bits, which becomes `c->id`.
unfoldable pub next_id : IdSource → IdSource
next_id m = record m { nextid = (m.nextid + m.id_stride) % 2 ^ 64 }

-- The id of the k-th connection, from 0.
unfoldable pub nth_id : IdSource → ℕ → ℕ
unfolding next_id
nth_id m zero = (next_id m).nextid
nth_id m (suc k) = nth_id (next_id m) k

-- The loop of the constructor, for worker i.
unfoldable pub worker_ids : ℕ → ℕ → IdSource
worker_ids i num_threads = record { nextid = i; id_stride = num_threads }

-- `ShardedManager::wakeup`: which worker is woken.
unfoldable pub wakeup_worker : ℕ → Bool → ℕ → Option ℕ
wakeup_worker workers pipes_ready conn_id =
    if workers == 0 || conn_id == 0
    then none
    else if not pipes_ready
    then none
    else some (conn_id % workers)

counts_up :
    (a n k : ℕ)
    → a + n * suc k < 2 ^ 64
    → nth_id (record { nextid = a; id_stride = n }) k ≡ a + n * suc k
unfolding nth_id next_id
counts_up a n zero h = omega (arith, mul-suc n 0)
counts_up a n (suc k) h =
    let split = mul-suc n (suc k) in
    let plain : (a + n) % 2 ^ 64 ≡ a + n = omega (arith, split) in
    rw plain (counts_up (a + n) n k (omega (arith, split)) ∙ omega (arith, split))

-- As long as ids have not reached 2 ^ 64, worker i of n gives its k-th connection, counted from 0, the
-- id i + n (k + 1), and `wakeup` finds that worker from the id.
pub ids_routed :
    (i n k : ℕ)
    → i < n
    → i + n * suc k < 2 ^ 64
    → let id = nth_id (worker_ids i n) k in
      (id ≡ i + n * suc k) × (wakeup_worker n true id ≡ some i)
unfolding worker_ids wakeup_worker
ids_routed i n k lt h =
    let some_workers : (n == 0) ≡ false = ground arith in
    let some_id : ((i + n * suc k) == 0) ≡ false = ground (arith, mul-suc n k) in
    let residue : (i + n * suc k) % n ≡ i = add-mul-mod_self_left i n (suc k) ∙ mod-eq_of_lt lt in
    rw (counts_up i n k h, some_workers, some_id, residue) (refl, refl)

-- As long as ids have not reached 2 ^ 64, no two connections of the workers have the same id.
pub ids_distinct :
    (i j n k l : ℕ)
    → i < n
    → j < n
    → i + n * suc k < 2 ^ 64
    → j + n * suc l < 2 ^ 64
    → nth_id (worker_ids i n) k ≡ nth_id (worker_ids j n) l
    → (i ≡ j) × (k ≡ l)
ids_distinct i j n k l hi hj bi bj e =
    let a = ids_routed i n k hi bi in
    let b = ids_routed j n l hj bj in
    let same : i ≡ j = cc (a.1, b.1, e) in
    let equal : n * suc k ≡ n * suc l = omega (arith, a.0, b.0, e, same) in
    let pos : 0 < n = omega arith in
    let quotients : suc k ≡ suc l =
      sym (mul-div_cancel_left (suc k) pos)
      ∙ ap (λ x. x / n) equal
      ∙ mul-div_cancel_left (suc l) pos in
    (same, omega (arith, quotients))
