-- ===== src/Pool/Sleeping.antt =====
-- A thread that `Resume` (DesignPatterns/ThreadPool/threadpool.cpp) has missed.
use distributed_nas.Base.{
  ℕ, zero, suc, ◌+◌, ◌≡◌, refl, ◌∙◌, sym, subst, Bool, true, false, List, [], ◌∷◌, ◌++◌, some, map,
  ℤ, pos, pos_part, arith, get_elem?, if◌then◌else◌, ◌==◌, Outcome, done, fault, ltb_ℤ, All,
  Option-cases, inl, inr,
}
use distributed_nas.Base.Map.{find}
use distributed_nas.Queue.{extract}
use distributed_nas.Pool.{
  Task, user, pause_task, delete_task, compare_functor, Worker, starting, idle, checked, asleep,
  woken, ended, running, Pool, create_thread, add_task, repeat, grow, shrink, diff,
  set_thread_number, pause, wake, resume, is_free, put, run_delete, take_from, take_task, work_at,
  work, wake_up, Action, works, wakes, adds, pauses, resumes, stops, sets, step, run, thread_pool,
}
use distributed_nas.Pool.Workers.{get_elem?-set}
use distributed_nas.Pool.Threads.{Inv, resume-Inv}
use distributed_nas.Pool.Turns.{work-Inv}
use distributed_nas.Pool.Runs.{thread_pool-Inv, shrunk, step-Inv, run-Inv, run-done}

abbrev is_asleep : Worker → Bool
is_asleep asleep = true
is_asleep w = false

get_elem?-append :
    (ws : List Worker) (i : ℕ) (v : Worker)
    → get_elem? ws i ≡ some v
    → get_elem? (ws ++ starting ∷ []) i ≡ some v
get_elem?-append [] i v e = cc
get_elem?-append (w ∷ ws) zero v e = e
get_elem?-append (w ∷ ws) (suc i) v e = get_elem?-append ws i v e

map-wake-checked :
    (ws : List Worker) (j : ℕ)
    → get_elem? ws j ≡ some checked
    → get_elem? (map wake ws) j ≡ some checked
map-wake-checked [] j f = cc
map-wake-checked (w ∷ ws) zero f = ground arith
map-wake-checked (w ∷ ws) (suc j) f = map-wake-checked ws j f

work-checked :
    (p : Pool) (i : ℕ) → get_elem? p.threads i ≡ some checked → work i p ≡ done (put i asleep p)
unfolding work work_at
work-checked p i e = rw (e, work)

module _ (i : ℕ) where
  -- An action that notifies nobody who waits on `m_cv`, and does not wake thread `i` unasked.
  abbrev pub IsQuiet : Action → Type 0
  IsQuiet (wakes j) = (j == i) ≡ false
  IsQuiet resumes = ⊥
  IsQuiet stops = ⊥
  IsQuiet a = Unit

  abbrev Sleeps : Pool → Type 0
  Sleeps p = get_elem? p.threads i ≡ some asleep

  abbrev StaysIn : Outcome Pool → Type 0
  StaysIn r = (q : Pool) → r ≡ done q → Sleeps q

  StaysIn-done : (x : Pool) → Sleeps x → StaysIn (done x)
  StaysIn-done x h q e = let same : x ≡ q = cc in subst Sleeps same h

  -- A thread that does not sleep is another one.
  put-Sleeps :
      (p : Pool) (j : ℕ) (w v : Worker)
      → get_elem? p.threads j ≡ some w
      → is_asleep w ≡ false
      → Sleeps p
      → Sleeps (put j v p)
  put-Sleeps p j w v e awake h = ground (arith, h, e, awake, get_elem?-set p.threads j i w v e)

  take_from-Sleeps :
      (ts : List Task) (p : Pool) (j : ℕ)
      → get_elem? p.threads j ≡ some idle
      → Sleeps p
      → Sleeps (take_from ts j p)
  unfolding take_from
  take_from-Sleeps [] p j e h = h
  take_from-Sleeps (t ∷ ts) p j e h =
      put-Sleeps p j idle (running (extract compare_functor t ts).0) e refl h

  run_delete-Sleeps :
      (p : Pool) (j : ℕ)
      → get_elem? p.threads j ≡ some (running delete_task)
      → Sleeps p
      → StaysIn (run_delete j p)
  unfolding run_delete
  run_delete-Sleeps p j e h = elim (Option-cases (find j p.m_map)) [
    | inl missing ↦ λ q r. absurd (let r' : fault ≡ done q = rw (missing, run_delete) at r in cc)
    | inr (functor, there) ↦
        rw (there, run_delete)
          (StaysIn-done _ (put-Sleeps p j (running delete_task) ended e refl h))
  ]

  work_at-Sleeps :
      (w : Worker) (free : Bool) (p : Pool) (j : ℕ)
      → get_elem? p.threads j ≡ some w
      → Sleeps p
      → StaysIn (work_at w free j p)
  unfolding work_at take_task
  work_at-Sleeps starting true p j e h = StaysIn-done _ (put-Sleeps p j starting idle e refl h)
  work_at-Sleeps starting false p j e h = StaysIn-done p h
  work_at-Sleeps idle free p j e h = StaysIn-done _ (take_from-Sleeps p.m_wq p j e h)
  work_at-Sleeps (running (user k r)) free p j e h =
      StaysIn-done _ (put-Sleeps p j (running (user k r)) idle e refl h)
  work_at-Sleeps (running pause_task) true p j e h =
      StaysIn-done _ (put-Sleeps p j (running pause_task) _ e refl h)
  work_at-Sleeps (running pause_task) false p j e h = StaysIn-done p h
  work_at-Sleeps (running delete_task) true p j e h = run_delete-Sleeps p j e h
  work_at-Sleeps (running delete_task) false p j e h = StaysIn-done p h
  work_at-Sleeps checked free p j e h = StaysIn-done _ (put-Sleeps p j checked asleep e refl h)
  work_at-Sleeps woken true p j e h = StaysIn-done _ (put-Sleeps p j woken _ e refl h)
  work_at-Sleeps woken false p j e h = StaysIn-done p h
  work_at-Sleeps asleep free p j e h = StaysIn-done p h
  work_at-Sleeps ended free p j e h = StaysIn-done p h

  work-Sleeps : (p : Pool) (j : ℕ) → Sleeps p → StaysIn (work j p)
  unfolding work
  work-Sleeps p j h = elim (Option-cases (get_elem? p.threads j)) [
    | inl e ↦ rw (e, work) (StaysIn-done p h)
    | inr (w, e) ↦ rw (e, work) (work_at-Sleeps w (is_free p.threads) p j e h)
  ]

  wake_up-Sleeps : (p : Pool) (j : ℕ) → (j == i) ≡ false → Sleeps p → Sleeps (wake_up j p)
  unfolding wake_up
  wake_up-Sleeps p j other h = elim (Option-cases (get_elem? p.threads j)) [
    | inl e ↦ rw (e, wake_up) h
    | inr (w, e) ↦ rw (e, wake_up) (get_elem?-set p.threads j i w (wake w) e ∙ rw other h)
  ]

  repeat-Sleeps :
      (n : ℕ) (body : Pool → Pool) (p : Pool)
      → ((q : Pool) → Sleeps q → Sleeps (body q))
      → Sleeps p
      → Sleeps (repeat n body p)
  repeat-Sleeps zero body p keep h = h
  repeat-Sleeps (suc n) body p keep h = repeat-Sleeps n body (body p) keep (keep p h)

  add_tasks-Sleeps : (n : ℕ) (t : Task) (p : Pool) → Sleeps p → Sleeps (repeat n (add_task 0 t) p)
  unfolding add_task
  add_tasks-Sleeps n t p h = repeat-Sleeps n (add_task 0 t) p (λ q k. k) h

  if-Sleeps : (b : Bool) (p q : Pool) → Sleeps p → Sleeps q → Sleeps (if b then p else q)
  if-Sleeps true p q u v = u
  if-Sleeps false p q u v = v

  set_thread_number-Sleeps : (n : ℤ) (p : Pool) → Sleeps p → Sleeps (set_thread_number n p)
  unfolding set_thread_number grow shrink create_thread add_task
  set_thread_number-Sleeps n p h =
      let d = diff n p.m_num_of_threads in
      if-Sleeps (ltb_ℤ p.m_num_of_threads n) _ _
        (repeat-Sleeps d grow _ (λ q k. get_elem?-append q.threads i asleep k)
          (if-Sleeps p.m_is_paused _ _ (add_tasks-Sleeps d pause_task p h) h))
        (repeat-Sleeps (diff p.m_num_of_threads n) shrink p (λ q k. k) h)

  step-Sleeps : (a : Action) (p : Pool) → IsQuiet a → Sleeps p → StaysIn (step a p)
  unfolding step add_task pause
  step-Sleeps (works j) p r h = work-Sleeps p j h
  step-Sleeps (wakes j) p r h = StaysIn-done _ (wake_up-Sleeps p j r h)
  step-Sleeps (adds k q place) p r h = StaysIn-done _ h
  step-Sleeps pauses p r h = StaysIn-done _ (
      add_tasks-Sleeps (pos_part p.m_num_of_threads) pause_task (record p { m_is_paused = true }) h)
  step-Sleeps resumes p r h = absurd r
  step-Sleeps stops p r h = absurd r
  step-Sleeps (sets n) p r h = StaysIn-done _ (set_thread_number-Sleeps n p h)

  run-Sleeps :
      (acts : List Action) (p : Pool) (x : ℕ)
      → Inv p x
      → All IsQuiet acts
      → Sleeps p
      → (q : Pool) × (run acts p ≡ done q) × Sleeps q
  unfolding run
  run-Sleeps [] p x v r h = (p, refl, h)
  run-Sleeps (a ∷ rest) p x v r h =
      let (q, e, w) = step-Inv a p x v in
      let (u, f, z) = run-Sleeps rest q _ w r.1 (step-Sleeps a p r.0 h q e) in
      (u, run-done a rest p q e ∙ f, z)

  resume-Sleeps :
      (acts : List Action) (p : Pool) (x : ℕ)
      → Inv p x
      → get_elem? p.threads i ≡ some checked
      → All IsQuiet acts
      → (q : Pool) × (run (works i ∷ acts) (resume p) ≡ done q) × Sleeps q
  unfolding resume step work
  resume-Sleeps acts p x v at_test quiet =
      let still = map-wake-checked p.threads i at_test in
      let (q, e, w) = work-Inv (resume p) x i (resume-Inv p x v) in
      let slept : done (put i asleep (resume p)) ≡ done q =
        sym (work-checked (resume p) i still) ∙ e in
      let it : put i asleep (resume p) ≡ q = cc in
      let sleeps : Sleeps (put i asleep (resume p)) =
        get_elem?-set (map wake p.threads) i i checked asleep still ∙ ground arith in
      let (u, f, z) = run-Sleeps acts q x w quiet (subst Sleeps it sleeps) in
      (u, ◌∙◌ {b = run acts q} {c = done u} (run-done (works i) acts (resume p) q e) f, z)

  -- A call of `Resume` between the test of `LockCV` in a thread and its wait is lost on that thread. In
  -- any pool that a run of actions has made from a new one and whose thread `i` stands between the two,
  -- `Resume` and then the wait leave the thread asleep, and it sleeps to the end of any run that
  -- follows, which never fails, in which nobody calls `Resume` or `Stop` and no wake-up of thread `i`
  -- comes unasked.
  pub run-resume :
      (n : ℕ) (before acts : List Action) (p : Pool)
      → run before (thread_pool (pos n)) ≡ done p
      → get_elem? p.threads i ≡ some checked
      → All IsQuiet acts
      → (q : Pool) × (run (resumes ∷ works i ∷ acts) p ≡ done q)
        × (get_elem? q.threads i ≡ some asleep)
  unfolding step
  run-resume n before acts p reached at_test quiet =
      let x = 0 + shrunk before (thread_pool (pos n)) in
      let (p', reached', v) = run-Inv before (thread_pool (pos n)) 0 (thread_pool-Inv n) in
      let found : done p' ≡ done p = sym reached' ∙ reached in
      let same : p' ≡ p = cc in
      let (q, e, z) = resume-Sleeps acts p x (subst (λ y. Inv y x) same v) at_test quiet in
      (q, ◌∙◌ {c = done q} (run-done resumes (works i ∷ acts) p (resume p) refl) e, z)
