-- ===== src/System/Serving.antt =====
-- The schedule of a server of which one thread keeps working.
use mathlib.Core.List.{append_assoc, append-nil}
use distributed_nas.Base.{
  ℕ, zero, suc, ◌+◌, ◌≤◌, ◌≡◌, refl, sym, ap, ◌∙◌, true, false, List, [], ◌∷◌, ◌++◌, arith, length,
  length-append, replicate, pos, All, ==_refl, ◌==◌,
}
use distributed_nas.Queue.{extract, enqueue}
use distributed_nas.Nbd.Pipeline.{Turn, arrives, works}
use distributed_nas.Pool.{
  Task, user, low, compare_functor, Worker, starting, idle, running, Pool, create_thread, add_task,
  repeat, is_free, take_from, take_task, work_at, work, step, thread_pool,
}
use distributed_nas.Pool
use distributed_nas.System.{Move, receives, runs}
use distributed_nas.System.Schedule.{index_of, without, pool_after, schedule}

-- The places of the first tasks, and these tasks in the queue.
abbrev up : ℕ → List ℕ
up zero = []
up (suc m) = up m ++ m ∷ []

abbrev tasks : ℕ → List Task
tasks zero = []
tasks (suc m) = user m low ∷ tasks m

extract-tasks : (k m : ℕ) → extract compare_functor (user k low) (tasks m) ≡ (user k low, tasks m)
unfolding extract compare_functor
extract-tasks k zero = refl
extract-tasks k (suc m) = ap (λ r. (r.0, user m low ∷ r.1)) (extract-tasks k m)

-- A place that is not there yet is found after the others.
abbrev IsAbsent : ℕ → List ℕ → Type 0
IsAbsent k ks = All (λ j. (j == k) ≡ false) ks

IsAbsent-append :
    (k j : ℕ) (ks : List ℕ) → IsAbsent k ks → (j == k) ≡ false → IsAbsent k (ks ++ j ∷ [])
IsAbsent-append k j [] a e = (e, tt)
IsAbsent-append k j (i ∷ ks) (h, a) e = (h, IsAbsent-append k j ks a e)

IsAbsent-up : (k m : ℕ) → m ≤ k → IsAbsent k (up m)
IsAbsent-up k zero h = tt
IsAbsent-up k (suc m) h = IsAbsent-append k m (up m) (IsAbsent-up k m (omega arith)) (ground arith)

index_of-last : (k : ℕ) (ks : List ℕ) → IsAbsent k ks → index_of k (ks ++ k ∷ []) ≡ length ks
index_of-last k [] a = rw (==_refl k) refl
index_of-last k (j ∷ ks) (e, a) = rw e (ap suc (index_of-last k ks a))

without-last : (k : ℕ) (ks : List ℕ) → IsAbsent k ks → without k (ks ++ k ∷ []) ≡ ks
without-last k [] a = rw (==_refl k) refl
without-last k (j ∷ ks) (e, a) = rw e (ap (◌∷◌ j) (without-last k ks a))

length-up : (m : ℕ) → length (up m) ≡ m
length-up zero = refl
length-up (suc m) = omega (arith, length-append (up m) (m ∷ []), length-up m)

-- A pool whose first thread stands at its loop, with the first `m` tasks.
abbrev pool_at : ℕ → Pool → List Worker → Pool
pool_at m p ws = record p { m_wq = tasks m; threads = idle ∷ ws }

-- Two turns of the first thread for each task.
abbrev pub two_each : ℕ → List Move
two_each zero = []
two_each (suc m) = runs 0 ∷ runs 0 ∷ two_each m

-- The last of the tasks first.
abbrev pub works_down : ℕ → List Turn
works_down zero = []
works_down (suc m) = works m ∷ works_down m

schedule-two_each :
    (m n : ℕ) (p : Pool) (ws : List Worker)
    → schedule (two_each m) (pool_at m p ws) (up m) n ≡ works_down m
unfolding step work work_at take_task take_from
schedule-two_each zero n p ws = refl
schedule-two_each (suc m) n p ws =
    let absent = IsAbsent-up m m (omega arith) in
    rw (extract-tasks m m) (
      rw (index_of-last m (up m) absent, without-last m (up m) absent, length-up m)
        (ap (◌∷◌ (works m)) (schedule-two_each m n (record p { executed = m ∷ p.executed }) ws)))

schedule-receives :
    (m n : ℕ) (ms : List Move) (p : Pool) (ws : List Worker)
    → schedule (replicate m (receives 0) ++ ms) (pool_at n p ws) (up n) n
      ≡ replicate m arrives ++ schedule ms (pool_at (m + n) p ws) (up (m + n)) (m + n)
unfolding step add_task enqueue
schedule-receives zero n ms p ws = let e : 0 + n ≡ n = omega arith in rw e refl
schedule-receives (suc m) n ms p ws =
    let e : m + suc n ≡ suc m + n = omega arith in
    ap (◌∷◌ arrives) (
      schedule-receives m (suc n) ms p ws
      ∙ ap (λ i. replicate m arrives ++ schedule ms (pool_at i p ws) (up i) i) e)

repeat-create_thread :
    (n : ℕ) (p : Pool)
    → repeat n create_thread p ≡ record p { threads = p.threads ++ replicate n starting }
unfolding create_thread
repeat-create_thread zero p = ap (λ ws. record p { threads = ws }) (sym (append-nil p.threads))
repeat-create_thread (suc n) p =
    repeat-create_thread n (create_thread p)
    ∙ ap (λ ws. record p { threads = ws })
        (append_assoc p.threads (starting ∷ []) (replicate n starting))

is_free-starting : (n : ℕ) → is_free (replicate n starting) ≡ true
is_free-starting zero = refl
is_free-starting (suc n) = is_free-starting n

-- The first thread comes to its loop, `m` requests arrive, each task in front of the others, and it takes two turns for each.
abbrev pub served_by_one : ℕ → List Move
served_by_one m = runs 0 ∷ (replicate m (receives 0) ++ two_each m)

-- The pool before the first thread has come to its loop.
abbrev new_pool : ℕ → Pool
new_pool t = record {
  m_is_paused = false;
  m_num_of_threads = pos (suc t);
  m_wq = [];
  m_map = [];
  threads = replicate (suc t) starting;
  executed = [];
}

abbrev registered : ℕ → Pool
registered t = record (new_pool t) { m_map = (0, 0) ∷ [] }

pool_after-register :
    (t : ℕ)
    → pool_after (Pool.works 0) (new_pool t) ≡ pool_at 0 (registered t) (replicate t starting)
unfolding step work work_at
pool_after-register t = rw (is_free-starting t, pool_after) refl

-- Its turns in the pipeline: the last request first, where each new task goes to the front of the queue.
pub schedule-served_by_one :
    (t m : ℕ)
    → schedule (served_by_one m) (thread_pool (pos (suc t))) [] 0
      ≡ replicate m arrives ++ works_down m
unfolding thread_pool
schedule-served_by_one t m =
    let ws = replicate t starting in
    let e : m + 0 ≡ m = omega arith in
    ap (λ q. schedule (served_by_one m) q [] 0)
      (repeat-create_thread (suc t) (record (new_pool t) { threads = [] }))
    ∙ ap (λ q. schedule (replicate m (receives 0) ++ two_each m) q [] 0) (pool_after-register t)
    ∙ schedule-receives m 0 (two_each m) (registered t) ws
    ∙ ap (λ xs. replicate m arrives ++ xs) (rw e (schedule-two_each m m (registered t) ws))
