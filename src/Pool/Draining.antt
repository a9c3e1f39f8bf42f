-- ===== src/Pool/Draining.antt =====
-- One thread and the tasks that wait: what it runs when it is left to itself.
use mathlib.Core.List.{Perm, append-nil}
use distributed_nas.Base.{
  ℕ, zero, suc, ◌≡◌, refl, sym, ap, ◌∙◌, ◌<◌, ◌&&◌, true, List, [], ◌∷◌, ◌++◌, some, arith, set,
  get_elem?, done, length,
}
use distributed_nas.Queue.{extract}
use distributed_nas.Queue.Order.{extract-All, length-extract}
use distributed_nas.Pool.{
  Worker, idle, checked, starting, asleep, woken, ended, running, Pool, take_from, take_task,
  work_at, work, Action, works, step, run, is_free,
}
use distributed_nas.Pool.Runs.{run-done}
use distributed_nas.Pool.Workers.{get_elem?-set}
use distributed_nas.Queue.Leaving.{leaving, leaving-perm}
use distributed_nas.Pool.Jobs.{
  Job, task_of, IsAscending, ran_after, job_later, with_deletes, AreUsers, take_from-with_deletes,
  leaving-IsAscending,
}

pub get_elem?-set_same :
    (ws : List Worker) (i : ℕ) (w v : Worker)
    → get_elem? ws i ≡ some w
    → get_elem? (set ws i v) i ≡ some v
get_elem?-set_same ws i w v e = ground (arith, get_elem?-set ws i i w v e)

-- A thread that does not stand in `LockCV` with the mutex.
abbrev pub HoldsNone : Worker → Type 0
HoldsNone w = is_free (w ∷ []) ≡ true

is_free-cons : (w : Worker) (ws : List Worker) → is_free (w ∷ ws) ≡ is_free (w ∷ []) && is_free ws
is_free-cons starting ws = refl
is_free-cons idle ws = refl
is_free-cons checked ws = refl
is_free-cons asleep ws = refl
is_free-cons woken ws = refl
is_free-cons ended ws = refl
is_free-cons (running t) ws = refl

pub is_free-set :
    (ws : List Worker) (i : ℕ) (v : Worker)
    → HoldsNone v
    → is_free ws ≡ true
    → is_free (set ws i v) ≡ true
is_free-set [] i v h f = f
is_free-set (w ∷ ws) zero v h f = ground (arith, h, f, is_free-cons v ws, is_free-cons w ws)
is_free-set (w ∷ ws) (suc i) v h f =
    ground (arith, f, is_free-cons w ws, is_free-cons w (set ws i v), is_free-set ws i v h)

-- What the turns of a thread that runs users' tasks leave as it was.
pub record Keeps (i : ℕ) (p q : Pool) : Type 0 where
  pub stands : get_elem? q.threads i ≡ some idle
  pub free : is_free p.threads ≡ true → is_free q.threads ≡ true
  pub mapped : q.m_map ≡ p.m_map
  pub counted : q.m_num_of_threads ≡ p.m_num_of_threads

-- Two turns of a thread that stands at its loop: it takes a task and runs it.
work-twice :
    (d i : ℕ) (j : Job) (js : List Job) (acts : List Action) (p : Pool)
    → p.m_wq ≡ with_deletes d (j ∷ js)
    → j.1 < 5
    → AreUsers js
    → get_elem? p.threads i ≡ some idle
    → (q : Pool) × (run (works i ∷ works i ∷ acts) p ≡ run acts q)
      × (q.m_wq ≡ with_deletes d (extract job_later j js).1)
      × (q.executed ≡ (extract job_later j js).0.0 ∷ p.executed)
      × Keeps i p q
unfolding step work work_at take_task
work-twice d i j js acts p e h hs w =
    let r = extract job_later j js in
    let t = running (task_of r.0) in
    let q : Pool = record p { m_wq = with_deletes d r.1; threads = set p.threads i t } in
    let stands = get_elem?-set_same p.threads i idle t w in
    let u : Pool = record q { threads = set q.threads i idle; executed = r.0.0 ∷ p.executed } in
    (
      u,
      run-done (works i) (works i ∷ acts) p q (
            rw (w, work)
              (ap (λ l. done (take_from l i p)) e ∙ ap done (take_from-with_deletes d i j js p h)))
          ∙ run-done (works i) acts q u (rw (stands, work)),
      refl,
      refl,
      record {
        stands = get_elem?-set_same q.threads i t idle stands;
        free = λ f. is_free-set q.threads i idle refl (is_free-set p.threads i t refl f);
        mapped = refl;
        counted = refl;
      },
    )

-- One turn to take and one to run, for each of `n` tasks.
abbrev pub two_turns : ℕ → ℕ → List Action
two_turns i zero = []
two_turns i (suc n) = works i ∷ works i ∷ two_turns i n

pub drain :
    (n d i : ℕ) (js : List Job) (acts : List Action) (p : Pool)
    → length js ≡ n
    → p.m_wq ≡ with_deletes d js
    → AreUsers js
    → get_elem? p.threads i ≡ some idle
    → (q : Pool) × (run (two_turns i n ++ acts) p ≡ run acts q)
      × (q.m_wq ≡ with_deletes d [])
      × (q.executed ≡ ran_after (leaving job_later n js) p.executed)
      × Keeps i p q
drain zero d i [] acts p l e h w =
    (p, refl, e, refl, record { stands = w; free = λ f. f; mapped = refl; counted = refl })
drain zero d i (j ∷ js) acts p l e h w = absurd (omega arith)
drain (suc n) d i [] acts p l e h w = absurd (omega arith)
drain (suc n) d i (j ∷ js) acts p l e (h, hs) w =
    let r = extract job_later j js in
    let (q, steps, queue, ran, k) = work-twice d i j js (two_turns i n ++ acts) p e h hs w in
    let (u, runs, emptied, all, m) =
      drain n d i r.1 acts q (omega (arith, length-extract job_later j js)) queue
        (extract-All job_later (λ k. k.1 < 5) j js h hs).1 k.stands in
    (
      u,
      steps ∙ runs,
      emptied,
      all ∙ ap (ran_after (leaving job_later n r.1)) ran,
      record {
        stands = m.stands;
        free = λ f. m.free (k.free f);
        mapped = m.mapped ∙ k.mapped;
        counted = m.counted ∙ k.counted;
      },
    )

-- A thread at its loop, with nobody else at work, takes two turns for each of the users' tasks that
-- wait, beside some delete tasks: it runs every one of them once, in an order in which priorities never
-- fall, and is at its loop again; the delete tasks still wait.
pub run-drains :
    (d i : ℕ) (js : List Job) (p : Pool)
    → p.m_wq ≡ with_deletes d js
    → AreUsers js
    → get_elem? p.threads i ≡ some idle
    → (order : List Job) × (q : Pool) × (run (two_turns i (length js)) p ≡ done q)
      × Perm js order
      × IsAscending order
      × (q.m_wq ≡ with_deletes d [])
      × (q.executed ≡ ran_after order p.executed)
      × (get_elem? q.threads i ≡ some idle)
unfolding run
run-drains d i js p e h w =
    let n = length js in
    let (q, runs, emptied, ran, k) = drain n d i js [] p refl e h w in
    (
      leaving job_later n js,
      q,
      sym (ap (λ acts. run acts p) (append-nil (two_turns i n))) ∙ runs,
      leaving-perm job_later n js refl,
      leaving-IsAscending n js,
      emptied,
      ran,
      k.stands,
    )
