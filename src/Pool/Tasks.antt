-- ===== src/Pool/Tasks.antt =====
-- What becomes of the tasks that are submitted.
use distributed_nas.Base.{
  total, total-append, ℕ, zero, suc, ◌+◌, ◌≡◌, refl, ◌∙◌, Bool, true, false, List, [], ◌∷◌, ℤ, pos,
  pos_part, arith, get_elem?, if◌then◌else◌, done, waiting, fault, ltb_ℤ, Option-cases,
  Outcome-cases, inl, inr,
}
use distributed_nas.Queue.{enqueue}
use distributed_nas.Pool.{
  user, pause_task, delete_task, Worker, starting, idle, checked, asleep, woken, ended, running,
  Pool, create_thread, add_task, repeat, grow, shrink, diff, set_thread_number, pause, wake, resume,
  stop, is_free, wake_up, Action, works, wakes, adds, pauses, resumes, stops, sets, step, run,
  thread_pool,
}
use distributed_nas.Pool.Runs.{run-thread_pool}
use distributed_nas.Pool.Counting.{total-map-wake}
use distributed_nas.Pool.Tally.{
  queued-insert_at, queued, held, ran, measure, added, Counts, Counts-done, put-measure,
  work-measure, add_tasks-measure,
}

module _ (k : ℕ) where
  held-wake : (w : Worker) → held k (wake w) ≡ held k w
  held-wake asleep = refl
  held-wake starting = refl
  held-wake idle = refl
  held-wake checked = refl
  held-wake woken = refl
  held-wake ended = refl
  held-wake (running t) = refl

  wake_up-measure : (p : Pool) (i : ℕ) → measure k (wake_up i p) ≡ measure k p
  unfolding wake_up
  wake_up-measure p i = elim (Option-cases (get_elem? p.threads i)) [
    | inl e ↦ rw (e, wake_up)
    | inr (w, e) ↦ rw (e, wake_up) (omega (arith, put-measure k p i w (wake w) e, held-wake w))
  ]

  repeat-measure :
      (n : ℕ) (body : Pool → Pool) (p : Pool)
      → ((q : Pool) → measure k (body q) ≡ measure k q)
      → measure k (repeat n body p) ≡ measure k p
  repeat-measure zero body p keep = refl
  repeat-measure (suc n) body p keep = repeat-measure n body (body p) keep ∙ keep p

  grow-measure : (p : Pool) → measure k (grow p) ≡ measure k p
  unfolding grow create_thread
  grow-measure p = omega (arith, total-append (held k) p.threads starting)

  shrink-measure : (p : Pool) → measure k (shrink p) ≡ measure k p
  unfolding shrink add_task enqueue
  shrink-measure p = omega arith

  if-measure :
      (b : Bool) (p q : Pool) (m : ℕ)
      → measure k p ≡ m
      → measure k q ≡ m
      → measure k (if b then p else q) ≡ m
  if-measure true p q m u v = u
  if-measure false p q m u v = v

  set_thread_number-measure : (n : ℤ) (p : Pool) → measure k (set_thread_number n p) ≡ measure k p
  unfolding set_thread_number
  set_thread_number-measure n p =
      let d = diff n p.m_num_of_threads in
      if-measure (ltb_ℤ p.m_num_of_threads n) _ _ (measure k p)
        (repeat-measure d grow _ grow-measure
          ∙ if-measure p.m_is_paused _ _ (measure k p) (add_tasks-measure k d pause_task p refl)
              refl)
        (repeat-measure (diff p.m_num_of_threads n) shrink p shrink-measure)

  stop-measure : (p : Pool) → measure k (stop p) ≡ measure k p
  unfolding stop
  stop-measure p =
      add_tasks-measure k (pos_part p.m_num_of_threads) delete_task _ refl
      ∙ omega (arith, total-map-wake (held k) p.threads refl)

  pub step-measure : (a : Action) (p : Pool) → Counts k (measure k p + added k a) (step a p)
  unfolding step add_task pause resume enqueue
  step-measure (works i) p = λ q e. work-measure k p i q e ∙ omega arith
  step-measure (wakes i) p = Counts-done k _ _ (wake_up-measure p i ∙ omega arith)
  step-measure (adds j r place) p =
      Counts-done k _ _ (omega (arith, queued-insert_at k place (user j r) p.m_wq))
  step-measure pauses p =
      Counts-done k _ _
        (add_tasks-measure k (pos_part p.m_num_of_threads) pause_task _ refl ∙ omega arith)
  step-measure resumes p = Counts-done k _ _ (omega (arith, total-map-wake (held k) p.threads refl))
  step-measure stops p =
      Counts-done k _ _
        (if-measure (is_free p.threads) _ _ (measure k p) (stop-measure p) refl ∙ omega arith)
  step-measure (sets n) p = Counts-done k _ _ (set_thread_number-measure n p ∙ omega arith)

  -- How often a run submits task `k`.
  abbrev pub submitted : List Action → ℕ
  submitted [] = 0
  submitted (a ∷ rest) = added k a + submitted rest

  pub run-measure :
      (acts : List Action) (p : Pool) → Counts k (measure k p + submitted acts) (run acts p)
  unfolding run
  run-measure [] p = Counts-done k _ p (omega arith)
  run-measure (a ∷ rest) p = λ q e. elim (Outcome-cases (step a p)) [
    | inl (x, h) ↦ run-measure rest x q (rw (h, run) at e) ∙ omega (arith, step-measure a p x h)
    | inr (inl h) ↦ absurd (let no_end : waiting ≡ done q = rw (h, run) at e in cc)
    | inr (inr h) ↦ absurd (let no_end : fault ≡ done q = rw (h, run) at e in cc)
  ]

  pub thread_pool-measure : (n : ℕ) → measure k (thread_pool (pos n)) ≡ 0
  unfolding thread_pool create_thread
  thread_pool-measure n = create n _ refl
    where
      create : (m : ℕ) (p : Pool) → measure k p ≡ 0 → measure k (repeat m create_thread p) ≡ 0
      create zero p e = e
      create (suc m) p e =
          create m (create_thread p) (omega (arith, total-append (held k) p.threads starting))

  -- In any run of a pool made for `n` threads every task is queued, running or run as often as it was
  -- submitted: none is lost and none runs twice, whatever is paused, stopped, grown or shrunk.
  pub run-tasks :
      (n : ℕ) (acts : List Action)
      → (q : Pool) × (run acts (thread_pool (pos n)) ≡ done q)
        × (queued k q.m_wq + total (held k) q.threads + ran k q.executed ≡ submitted acts)
  run-tasks n acts =
      let (q, e, _, _) = run-thread_pool n acts 0 in
      (q, e, run-measure acts (thread_pool (pos n)) q e ∙ omega (arith, thread_pool-measure n))
