-- ===== src/Pool/Finishing.antt =====
-- Pools whose threads all get turns (DesignPatterns/ThreadPool/threadpool.cpp).
use distributed_nas.Base.{
  length-insert_at, All-insert_at, total, ℕ, suc, ◌+◌, ◌*◌, ◌≤◌, ◌≡◌, inl, inr, refl, ap, ◌∙◌, List,
  [], ◌∷◌, ◌++◌, map, arith, length, All, pos, done,
}
use distributed_nas.Queue.{enqueue}
use distributed_nas.Pool.{
  user, Worker, idle, Pool, add_task, Action, works, wakes, adds, pauses, resumes, stops, sets,
  step, run, thread_pool,
}
use distributed_nas.Pool.Runs.{run-done}
use distributed_nas.Pool.Tally.{ran, queued, held, measure}
use distributed_nas.Pool.Tasks.{submitted, run-measure, thread_pool-measure}
use distributed_nas.Pool.Serving.{
  IsServed, turns_left, Serves, work-Serves, none_left, thread_pool-Serves,
}
use distributed_nas.Pool.Rounds.{Covers, turns_of, Leads, rounds-Serves}

-- A task is added or a thread has a turn.
abbrev pub IsService : Action → Type 0
IsService (works i) = Unit
IsService (adds k q place) = Unit
IsService a = ⊥

-- How many tasks are added.
abbrev pub submissions : List Action → ℕ
submissions [] = 0
submissions (adds k q place ∷ acts) = suc (submissions acts)
submissions (a ∷ acts) = submissions acts

service-Serves :
    (n : ℕ) (acts : List Action) (p : Pool)
    → All IsService acts
    → Serves n p
    → (q : Pool) × Leads acts p q
      × Serves n q
      × (turns_left q ≤ turns_left p + 2 * submissions acts)
unfolding step add_task enqueue
service-Serves n [] p s v = (p, λ rest. refl, v, omega arith)
service-Serves n (works i ∷ acts) p (s, ss) v =
    let (q, e, (w, turned)) = work-Serves n i p v in
    let (u, f, x, less) = service-Serves n acts q ss w in
    let no_more : turns_left q ≤ turns_left p = elim turned [
      | inl down ↦ omega (arith, down)
      | inr (same, h) ↦ omega (arith, ap turns_left same)
    ] in
    (u, λ rest. run-done (works i) (acts ++ rest) p q e ∙ f rest, x, omega (arith, less, no_more))
service-Serves n (adds k r place ∷ acts) p (s, ss) v =
    let q = add_task place (user k r) p in
    let w : Serves n q = record {
      unpaused = v.unpaused;
      queue = All-insert_at IsServed place (user k r) p.m_wq tt v.queue;
      workers = v.workers;
      size = v.size;
    } in
    let (u, f, x, less) = service-Serves n acts q ss w in
    (
      u,
      λ rest. run-done (adds k r place) (acts ++ rest) p q refl ∙ f rest,
      x,
      omega (arith, less, length-insert_at place (user k r) p.m_wq),
    )
service-Serves n (wakes i ∷ acts) p (s, ss) v = absurd s
service-Serves n (pauses ∷ acts) p (s, ss) v = absurd s
service-Serves n (resumes ∷ acts) p (s, ss) v = absurd s
service-Serves n (stops ∷ acts) p (s, ss) v = absurd s
service-Serves n (sets m ∷ acts) p (s, ss) v = absurd s

submitted-works :
    (k : ℕ) (is : List ℕ) (acts : List Action)
    → submitted k (map works is ++ acts) ≡ submitted k acts
submitted-works k [] acts = refl
submitted-works k (i ∷ is) acts = omega (arith, submitted-works k is acts)

submitted-turns_of :
    (k : ℕ) (acts : List Action) (rounds : List (List ℕ))
    → submitted k (acts ++ turns_of rounds) ≡ submitted k acts
submitted-turns_of k [] [] = refl
submitted-turns_of k [] (is ∷ rounds) =
    submitted-works k is (turns_of rounds) ∙ submitted-turns_of k [] rounds
submitted-turns_of k (a ∷ acts) rounds = omega (arith, submitted-turns_of k acts rounds)

pub held-idle : (k : ℕ) (ws : List Worker) → All (λ w. w ≡ idle) ws → total (held k) ws ≡ 0
held-idle k [] h = refl
held-idle k (w ∷ ws) (h, hs) = rw h (omega (arith, held-idle k ws hs))

-- Nothing waits in the pool, and its threads are at their loops.
pub record IsFinished (p : Pool) : Type 0 where
  pub emptied : p.m_wq ≡ []
  pub at_loop : All (λ w. w ≡ idle) p.threads

-- The work that is left is done, whatever more is added first.
finishes :
    (n : ℕ) (acts : List Action) (rounds : List (List ℕ)) (p : Pool)
    → Serves (suc n) p
    → All IsService acts
    → All (Covers (suc n)) rounds
    → turns_left p + 2 * submissions acts ≤ length rounds
    → (q : Pool) × (run (acts ++ turns_of rounds) p ≡ done q)
      × IsFinished q
      × ((k : ℕ) → ran k q.executed ≡ measure k p + submitted k acts)
finishes n acts rounds p v s c enough =
    let (u, e, w, less) = service-Serves (suc n) acts p s v in
    let (q, f, x, none_more) = rounds-Serves n rounds u w c (omega (arith, enough, less)) in
    let (empty, loops) = none_left (suc n) q x none_more in
    let ran_all = e (turns_of rounds) ∙ f in
    (
      q,
      ran_all,
      record { emptied = empty; at_loop = loops },
      λ k. omega (
        arith,
        run-measure k (acts ++ turns_of rounds) p q ran_all,
        submitted-turns_of k acts rounds,
        ap (queued k) empty,
        held-idle k q.threads loops,
      ),
    )

-- A new pool of at least one thread: a round for each thread and two for each task are enough.
pub thread_pool-finishes :
    (n : ℕ) (acts : List Action) (rounds : List (List ℕ))
    → All IsService acts
    → All (Covers (suc n)) rounds
    → suc n + 2 * submissions acts ≤ length rounds
    → (q : Pool) × (run (acts ++ turns_of rounds) (thread_pool (pos (suc n))) ≡ done q)
      × IsFinished q
      × ((k : ℕ) → ran k q.executed ≡ submitted k acts)
thread_pool-finishes n acts rounds s c enough =
    let (v, count) = thread_pool-Serves (suc n) in
    let (q, ran_all, finished, each) =
      finishes n acts rounds (thread_pool (pos (suc n))) v s c (omega (arith, enough, count)) in
    (q, ran_all, finished, λ k. omega (arith, each k, thread_pool-measure k (suc n)))

-- Threads that all get turns run every task. A run of any actions has led a new pool to `p`, which has a
-- thread and is not paused, with only users' and pause tasks in its queue and in its threads' hands, and
-- in which no thread stands at its wait in `LockCV` or sleeps there, and none has ended. Users' tasks are
-- added and threads have turns, all in any order. Then as many rounds as `p` needs turns, two for each
-- task that waits and one for each thread that is not at its loop, and two for each task that is added,
-- are enough, if every thread has a turn in each round, at any place in it and any number of times: the
-- run has returned, every task has run as often as it was added since the pool was made, nothing waits,
-- and every thread is at its loop.
pub run-finishes :
    (m n : ℕ) (before acts : List Action) (p : Pool) (rounds : List (List ℕ))
    → run before (thread_pool (pos m)) ≡ done p
    → Serves (suc n) p
    → All IsService acts
    → All (Covers (suc n)) rounds
    → turns_left p + 2 * submissions acts ≤ length rounds
    → (q : Pool) × (run (acts ++ turns_of rounds) p ≡ done q)
      × IsFinished q
      × ((k : ℕ) → ran k q.executed ≡ submitted k before + submitted k acts)
run-finishes m n before acts p rounds reached v s c enough =
    let (q, ran_all, finished, count) = finishes n acts rounds p v s c enough in
    (
      q,
      ran_all,
      finished,
      λ k. omega (
        arith,
        count k,
        run-measure k before (thread_pool (pos m)) p reached,
        thread_pool-measure k m,
      ),
    )
