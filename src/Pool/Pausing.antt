-- ===== src/Pool/Pausing.antt =====
-- Threads that wait in `LockCV`: what wakes them, and what does not.
use distributed_nas.Base.{
  ℕ, zero, suc, ◌≡◌, ◌≢◌, refl, ◌∙◌, sym, subst, Bool, true, false, List, [], ◌∷◌, ◌++◌, Option,
  some, map, ℤ, pos_part, arith, get_elem?, if◌then◌else◌, Outcome, done, waiting, fault, ltb_ℤ,
  All, Option-cases, Outcome-cases, inl, inr,
}
use distributed_nas.Base.Map.{find}
use distributed_nas.Queue.{extract}
use distributed_nas.Pool.{
  Task, user, pause_task, delete_task, compare_functor, Worker, starting, idle, checked, asleep,
  woken, ended, running, Pool, create_thread, add_task, repeat, grow, shrink, diff,
  set_thread_number, pause, wake, stop, is_free, put, run_delete, take_from, take_task, work_at,
  work, wake_up, Action, works, wakes, adds, pauses, resumes, stops, sets, step, run,
}
use distributed_nas.Pool.Workers.{get_elem?-set}

-- In the loop of `LockCV`.
abbrev pub is_held : Option Worker → Bool
is_held (some checked) = true
is_held (some asleep) = true
is_held (some woken) = true
is_held o = false

-- The pool is paused, and thread `i` is in the loop of `LockCV`.
pub record IsHeld (i : ℕ) (p : Pool) : Type 0 where
  pub paused : p.m_is_paused ≡ true
  pub held : is_held (get_elem? p.threads i) ≡ true

abbrev Holds : ℕ → Outcome Pool → Type 0
Holds i r = (q : Pool) → r ≡ done q → IsHeld i q

Holds-done : (i : ℕ) (x : Pool) → IsHeld i x → Holds i (done x)
Holds-done i x h q e = let same : x ≡ q = cc in subst (IsHeld i) same h

held-wake : (w : Worker) → is_held (some (wake w)) ≡ is_held (some w)
held-wake asleep = refl
held-wake starting = refl
held-wake idle = refl
held-wake checked = refl
held-wake woken = refl
held-wake ended = refl
held-wake (running t) = refl

held-map-wake :
    (ws : List Worker) (j : ℕ) → is_held (get_elem? (map wake ws) j) ≡ is_held (get_elem? ws j)
held-map-wake [] j = refl
held-map-wake (w ∷ ws) zero = held-wake w
held-map-wake (w ∷ ws) (suc j) = held-map-wake ws j

held-append :
    (ws : List Worker) (j : ℕ)
    → is_held (get_elem? (ws ++ starting ∷ []) j) ≡ is_held (get_elem? ws j)
held-append [] zero = refl
held-append [] (suc j) = refl
held-append (w ∷ ws) zero = refl
held-append (w ∷ ws) (suc j) = held-append ws j

module _ (i : ℕ) where
  put-IsHeld :
      (p : Pool) (j : ℕ) (w v : Worker)
      → get_elem? p.threads j ≡ some w
      → (is_held (some w) ≡ true → is_held (some v) ≡ true)
      → IsHeld i p
      → IsHeld i (put j v p)
  put-IsHeld p j w v e keep h = record {
    paused = h.paused;
    held = ground (arith, h.held, get_elem?-set p.threads j i w v e);
  }

  -- Only the flag and the threads matter.
  same-IsHeld :
      (p q : Pool) → q.m_is_paused ≡ p.m_is_paused → q.threads ≡ p.threads → IsHeld i p → IsHeld i q
  same-IsHeld p q e f h = record { paused = e ∙ h.paused; held = rw f h.held }

  take_from-IsHeld :
      (ts : List Task) (p : Pool) (j : ℕ)
      → get_elem? p.threads j ≡ some idle
      → IsHeld i p
      → IsHeld i (take_from ts j p)
  unfolding take_from
  take_from-IsHeld [] p j e h = h
  take_from-IsHeld (t ∷ ts) p j e h =
      let v = running (extract compare_functor t ts).0 in
      same-IsHeld (put j v p) _ refl refl (put-IsHeld p j idle v e (λ f. cc) h)

  run_delete-IsHeld :
      (p : Pool) (j : ℕ)
      → get_elem? p.threads j ≡ some (running delete_task)
      → IsHeld i p
      → Holds i (run_delete j p)
  unfolding run_delete
  run_delete-IsHeld p j e h = elim (Option-cases (find j p.m_map)) [
    | inl missing ↦ λ q r. absurd (let r' : fault ≡ done q = rw (missing, run_delete) at r in cc)
    | inr (functor, there) ↦
        rw (there, run_delete)
          (Holds-done i _ (
            same-IsHeld (put j ended p) _ refl refl
              (put-IsHeld p j (running delete_task) ended e (λ f. cc) h)))
  ]

  work_at-IsHeld :
      (w : Worker) (free : Bool) (p : Pool) (j : ℕ)
      → get_elem? p.threads j ≡ some w
      → IsHeld i p
      → Holds i (work_at w free j p)
  unfolding work_at take_task
  work_at-IsHeld starting true p j e h =
      Holds-done i _
        (same-IsHeld (put j idle p) _ refl refl (put-IsHeld p j starting idle e (λ f. cc) h))
  work_at-IsHeld starting false p j e h = Holds-done i p h
  work_at-IsHeld idle free p j e h = Holds-done i _ (take_from-IsHeld p.m_wq p j e h)
  work_at-IsHeld (running (user k r)) free p j e h = Holds-done i _ (
      same-IsHeld (put j idle p) _ refl refl
        (put-IsHeld p j (running (user k r)) idle e (λ f. cc) h))
  work_at-IsHeld (running pause_task) true p j e h =
      Holds-done i _ (put-IsHeld p j (running pause_task) _ e (λ f. cc) h)
  work_at-IsHeld (running pause_task) false p j e h = Holds-done i p h
  work_at-IsHeld (running delete_task) true p j e h = run_delete-IsHeld p j e h
  work_at-IsHeld (running delete_task) false p j e h = Holds-done i p h
  work_at-IsHeld checked free p j e h =
      Holds-done i _ (put-IsHeld p j checked asleep e (λ f. refl) h)
  work_at-IsHeld woken true p j e h = rw h.paused (
      Holds-done i _ (
        same-IsHeld (put j checked p) _ (sym h.paused) refl
          (put-IsHeld p j woken checked e (λ f. refl) h)))
  work_at-IsHeld woken false p j e h = Holds-done i p h
  work_at-IsHeld asleep free p j e h = Holds-done i p h
  work_at-IsHeld ended free p j e h = Holds-done i p h

  work-IsHeld : (p : Pool) (j : ℕ) → IsHeld i p → Holds i (work j p)
  unfolding work
  work-IsHeld p j h = elim (Option-cases (get_elem? p.threads j)) [
    | inl e ↦ rw (e, work) (Holds-done i p h)
    | inr (w, e) ↦ rw (e, work) (work_at-IsHeld w (is_free p.threads) p j e h)
  ]

  wake_up-IsHeld : (p : Pool) (j : ℕ) → IsHeld i p → IsHeld i (wake_up j p)
  unfolding wake_up
  wake_up-IsHeld p j h = elim (Option-cases (get_elem? p.threads j)) [
    | inl e ↦ rw (e, wake_up) h
    | inr (w, e) ↦ rw (e, wake_up) (put-IsHeld p j w (wake w) e (λ f. held-wake w ∙ f) h)
  ]

  repeat-IsHeld :
      (n : ℕ) (body : Pool → Pool) (p : Pool)
      → ((q : Pool) → IsHeld i q → IsHeld i (body q))
      → IsHeld i p
      → IsHeld i (repeat n body p)
  repeat-IsHeld zero body p keep h = h
  repeat-IsHeld (suc n) body p keep h = repeat-IsHeld n body (body p) keep (keep p h)

  add_task-IsHeld : (place : ℕ) (t : Task) (p : Pool) → IsHeld i p → IsHeld i (add_task place t p)
  unfolding add_task
  add_task-IsHeld place t p h = same-IsHeld p _ refl refl h

  grow-IsHeld : (p : Pool) → IsHeld i p → IsHeld i (grow p)
  unfolding grow create_thread
  grow-IsHeld p h = record { paused = h.paused; held = held-append p.threads i ∙ h.held }

  shrink-IsHeld : (p : Pool) → IsHeld i p → IsHeld i (shrink p)
  unfolding shrink add_task
  shrink-IsHeld p h = same-IsHeld p _ refl refl h

  if-IsHeld : (b : Bool) (p q : Pool) → IsHeld i p → IsHeld i q → IsHeld i (if b then p else q)
  if-IsHeld true p q u v = u
  if-IsHeld false p q u v = v

  set_thread_number-IsHeld : (n : ℤ) (p : Pool) → IsHeld i p → IsHeld i (set_thread_number n p)
  unfolding set_thread_number
  set_thread_number-IsHeld n p h =
      let d = diff n p.m_num_of_threads in
      if-IsHeld (ltb_ℤ p.m_num_of_threads n) _ _
        (repeat-IsHeld d grow _ grow-IsHeld (
          if-IsHeld p.m_is_paused _ _
            (repeat-IsHeld d (add_task 0 pause_task) p (add_task-IsHeld 0 pause_task) h) h))
        (repeat-IsHeld (diff p.m_num_of_threads n) shrink p shrink-IsHeld h)

  stop-IsHeld : (p : Pool) → IsHeld i p → IsHeld i (stop p)
  unfolding stop
  stop-IsHeld p h =
      repeat-IsHeld (pos_part p.m_num_of_threads) (add_task 0 delete_task) _
        (add_task-IsHeld 0 delete_task)
        (record { paused = h.paused; held = held-map-wake p.threads i ∙ h.held })

  pause-IsHeld : (p : Pool) → IsHeld i p → IsHeld i (pause p)
  unfolding pause
  pause-IsHeld p h =
      repeat-IsHeld (pos_part p.m_num_of_threads) (add_task 0 pause_task) _
        (add_task-IsHeld 0 pause_task) (record { paused = refl; held = h.held })

  step-IsHeld : (a : Action) (p : Pool) → a ≢ resumes → IsHeld i p → Holds i (step a p)
  unfolding step
  step-IsHeld (works j) p r h = work-IsHeld p j h
  step-IsHeld (wakes j) p r h = Holds-done i _ (wake_up-IsHeld p j h)
  step-IsHeld (adds k q place) p r h = Holds-done i _ (add_task-IsHeld place (user k q) p h)
  step-IsHeld pauses p r h = Holds-done i _ (pause-IsHeld p h)
  step-IsHeld resumes p r h = absurd (r refl)
  step-IsHeld stops p r h = Holds-done i _ (if-IsHeld (is_free p.threads) _ _ (stop-IsHeld p h) h)
  step-IsHeld (sets n) p r h = Holds-done i _ (set_thread_number-IsHeld n p h)

  -- In a pool that is paused, a thread in the loop of `LockCV` stays there through any run in which
  -- nobody resumes the pool: `Stop` wakes it, and it waits again, so it never takes its delete task.
  pub run-IsHeld :
      (acts : List Action) (p q : Pool)
      → All (λ a. a ≢ resumes) acts
      → IsHeld i p
      → run acts p ≡ done q
      → IsHeld i q
  unfolding run
  run-IsHeld [] p q r h e = Holds-done i p h q e
  run-IsHeld (a ∷ rest) p q r h e = elim (Outcome-cases (step a p)) [
    | inl (x, f) ↦ run-IsHeld rest x q r.1 (step-IsHeld a p r.0 h x f) (rw (f, run) at e)
    | inr (inl f) ↦ absurd (let no_end : waiting ≡ done q = rw (f, run) at e in cc)
    | inr (inr f) ↦ absurd (let no_end : fault ≡ done q = rw (f, run) at e in cc)
  ]
