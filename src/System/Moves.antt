-- ===== src/System/Moves.antt =====
-- The pipeline that the system stands for, before and after each move.
use distributed_nas.Base.{
  total, ℕ, ◌+◌, ◌≤◌, ◌≡◌, refl, ap, List, [], Option, none, some, arith, get_elem?, done,
}
use distributed_nas.Engine.{ReTask}
use distributed_nas.Nbd.Pipeline.{Pipeline}
use distributed_nas.Pool.{Pool, step}
use distributed_nas.Pool.Threads.{Inv}
use distributed_nas.Pool.Runs.{shrunk_by, step-Inv}
use distributed_nas.Pool.Tally.{queued, held, ran, added}
use distributed_nas.Pool.Tasks.{step-measure}
use distributed_nas.Pool.Executing.{user_task, task_run, added_to, step-executed, total-held}
use distributed_nas.System.{
  System, Move, receives, runs, wakens, pausing, resuming, stopping, resizing, action_of,
}
use distributed_nas.System.Schedule.{left_for, pending_after}
use distributed_nas.System.Picking.{Holds, ran-without, ran-append}

-- The pipeline with the system's device, its engine's memory and map, and the tasks that wait.
abbrev pub pipeline_of : {F : Type 0} → System F → List (ReTask F) → Pipeline F
pipeline_of s ts = record { server = s.server; engine = record s.engine { m_tp = ts } }

-- The tasks `ks` of a pool wait in its queue or in its threads' hands, each as often as in `ks`.
abbrev pub AreWaiting : List ℕ → Pool → Type 0
AreWaiting ks p = (k : ℕ) → ran k ks ≡ queued k p.m_wq + total (held k) p.threads

-- The tasks `ts` wait in the pool, where they go by the places `ks`.
pub record Stands {F : Type 0} (s : System F) (ks : List ℕ) (ts : List (ReTask F)) : Type 0 where
  pub same_tasks : Holds s.engine.m_tp ks ts
  pub all_waiting : AreWaiting ks s.pool
  pub excess : ℕ
  pub counted : Inv s.pool excess

ran-added_to :
    (j : ℕ) (o : Option ℕ) (ks : List ℕ) → ran j (added_to o ks) ≡ ran j (added_to o []) + ran j ks
ran-added_to j none ks = omega arith
ran-added_to j (some k) ks = omega arith

ran-left_for :
    (j : ℕ) (o : Option ℕ) (ks : List ℕ)
    → ((k : ℕ) → o ≡ some k → 1 ≤ ran k ks)
    → ran j (left_for o ks) + ran j (added_to o []) ≡ ran j ks
ran-left_for j none ks h = omega arith
ran-left_for j (some k) ks h = omega (arith, ran-without j k ks (h k refl))

-- A thread at a task holds one that waits.
pub is_waiting :
    (k : ℕ) (ks : List ℕ) (p : Pool) (i : ℕ)
    → AreWaiting ks p
    → user_task (get_elem? p.threads i) ≡ some k
    → 1 ≤ ran k ks
is_waiting k ks p i w e = omega (arith, w k, total-held k p.threads i e)

-- What waits after a move is what waited, with the task that is added and without the one that runs.
pending_after-ran :
    (n : ℕ) (m : Move) (p : Pool) (ks : List ℕ)
    → AreWaiting ks p
    → (j : ℕ)
    → ran j (pending_after n m p ks) + ran j (added_to (task_run (action_of n m) p) [])
      ≡ ran j ks + added j (action_of n m)
pending_after-ran n (receives place) p ks w j = omega (arith, ran-append j ks n)
pending_after-ran n (runs i) p ks w j =
    omega
      (arith, ran-left_for j (user_task (get_elem? p.threads i)) ks (λ k. is_waiting k ks p i w))
pending_after-ran n (wakens i) p ks w j = omega arith
pending_after-ran n pausing p ks w j = omega arith
pending_after-ran n resuming p ks w j = omega arith
pending_after-ran n stopping p ks w j = omega arith
pending_after-ran n (resizing num) p ks w j = omega arith

-- The pool's part of a move returns, and its tasks are then those that wait after the move.
pub pool-moves :
    (n : ℕ) (m : Move) (p : Pool) (ks : List ℕ) (x : ℕ)
    → AreWaiting ks p
    → Inv p x
    → (q : Pool) × (step (action_of n m) p ≡ done q)
      × AreWaiting (pending_after n m p ks) q
      × Inv q (x + shrunk_by (action_of n m) p)
pool-moves n m p ks x w v =
    let (q, e, inv) = step-Inv (action_of n m) p x v in
    (
      q,
      e,
      λ k. omega (
        arith,
        w k,
        step-measure k (action_of n m) p q e,
        ap (ran k) (step-executed (action_of n m) p q e),
        ran-added_to k (task_run (action_of n m) p) p.executed,
        pending_after-ran n m p ks w k,
      ),
      inv,
    )
