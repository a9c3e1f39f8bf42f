-- ===== src/Pool/Tally.antt =====
-- How often a task is queued, running or run, and the turns of a thread.
use distributed_nas.Base.{
  insert_at, total, total-set, ℕ, zero, suc, ◌+◌, ◌≡◌, refl, ap, ◌∙◌, subst, Bool, true, false,
  List, [], ◌∷◌, some, arith, get_elem?, ◌==◌, if◌then◌else◌, Outcome, done, fault, Option-cases,
  Bool-cases, inl, inr,
}
use distributed_nas.Base.Map.{find}
use distributed_nas.Queue.{extract, enqueue}
use distributed_nas.Pool.{
  Task, user, pause_task, delete_task, compare_functor, Worker, starting, idle, checked, asleep,
  woken, ended, running, Pool, add_task, repeat, is_free, put, run_delete, take_from, take_task,
  work_at, work, Action, adds,
}

module _ (k : ℕ) where
  -- Whether a task is the user's task `k`.
  abbrev tally : Task → ℕ
  tally (user j q) = if j == k then 1 else 0
  tally pause_task = 0
  tally delete_task = 0

  abbrev pub queued : List Task → ℕ
  queued [] = 0
  queued (t ∷ ts) = tally t + queued ts

  abbrev pub held : Worker → ℕ
  held (running t) = tally t
  held w = 0

  abbrev pub ran : List ℕ → ℕ
  ran [] = 0
  ran (j ∷ js) = (if j == k then 1 else 0) + ran js

  abbrev pub measure : Pool → ℕ
  measure p = queued p.m_wq + total held p.threads + ran p.executed

  abbrev pub added : Action → ℕ
  added (adds j q place) = if j == k then 1 else 0
  added a = 0

  extract-queued :
      (comp : Task → Task → Bool) (t : Task) (ts : List Task)
      → tally (extract comp t ts).0 + queued (extract comp t ts).1 ≡ tally t + queued ts
  unfolding extract
  extract-queued comp t [] = refl
  extract-queued comp t (u ∷ ts) = elim (Bool-cases (comp t u)) [
    | inl e ↦ rw e (omega (arith, extract-queued comp u ts))
    | inr e ↦ rw e (omega (arith, extract-queued comp t ts))
  ]

  pub queued-insert_at :
      (i : ℕ) (t : Task) (ts : List Task) → queued (insert_at i t ts) ≡ tally t + queued ts
  queued-insert_at zero t ts = refl
  queued-insert_at (suc i) t [] = refl
  queued-insert_at (suc i) t (u ∷ ts) = omega (arith, queued-insert_at i t ts)

  -- A computation returns a state with `m` of task `k`.
  abbrev pub Counts : ℕ → Outcome Pool → Type 0
  Counts m r = (q : Pool) → r ≡ done q → measure q ≡ m

  pub put-measure :
      (p : Pool) (i : ℕ) (w v : Worker)
      → get_elem? p.threads i ≡ some w
      → measure (put i v p) + held w ≡ measure p + held v
  put-measure p i w v e = omega (arith, total-set held p.threads i w v e)

  take_from-measure :
      (ts : List Task) (p : Pool) (i : ℕ)
      → get_elem? p.threads i ≡ some idle
      → p.m_wq ≡ ts
      → measure (take_from ts i p) ≡ measure p
  unfolding take_from
  take_from-measure [] p i e q = refl
  take_from-measure (t ∷ ts) p i e q = omega (
    arith,
    ap queued q,
    extract-queued compare_functor t ts,
    total-set held p.threads i idle (running (extract compare_functor t ts).0) e,
  )

  pub add_tasks-measure :
      (n : ℕ) (t : Task) (p : Pool) → tally t ≡ 0 → measure (repeat n (add_task 0 t) p) ≡ measure p
  unfolding add_task enqueue
  add_tasks-measure zero t p e = refl
  add_tasks-measure (suc n) t p e = add_tasks-measure n t (add_task 0 t p) e ∙ omega (arith, e)

  pub Counts-done : (m : ℕ) (x : Pool) → measure x ≡ m → Counts m (done x)
  Counts-done m x h q e = let same : x ≡ q = cc in subst (λ y. measure y ≡ m) same h

  run_delete-measure :
      (p : Pool) (i : ℕ)
      → get_elem? p.threads i ≡ some (running delete_task)
      → Counts (measure p) (run_delete i p)
  unfolding run_delete
  run_delete-measure p i e = elim (Option-cases (find i p.m_map)) [
    | inl missing ↦ λ q r. absurd (let r' : fault ≡ done q = rw (missing, run_delete) at r in cc)
    | inr (functor, there) ↦
        rw (there, run_delete)
          (Counts-done (measure p) _
            (omega (arith, total-set held p.threads i (running delete_task) ended e)))
  ]

  lock_cv-measure :
      (paused : Bool) (p : Pool) (i : ℕ) (w : Worker)
      → get_elem? p.threads i ≡ some w
      → held w ≡ 0
      → measure (put i (if paused then checked else idle) p) ≡ measure p
  lock_cv-measure true p i w e h = omega (arith, put-measure p i w checked e)
  lock_cv-measure false p i w e h = omega (arith, put-measure p i w idle e)

  work_at-measure :
      (w : Worker) (free : Bool) (p : Pool) (i : ℕ)
      → get_elem? p.threads i ≡ some w
      → Counts (measure p) (work_at w free i p)
  unfolding work_at take_task
  work_at-measure starting true p i e =
      Counts-done (measure p) _ (omega (arith, total-set held p.threads i starting idle e))
  work_at-measure starting false p i e = Counts-done (measure p) p refl
  work_at-measure idle free p i e = Counts-done (measure p) _ (take_from-measure p.m_wq p i e refl)
  work_at-measure (running (user j q)) free p i e =
      Counts-done (measure p) _
        (omega (arith, total-set held p.threads i (running (user j q)) idle e))
  work_at-measure (running pause_task) true p i e =
      Counts-done (measure p) _ (lock_cv-measure p.m_is_paused p i (running pause_task) e refl)
  work_at-measure (running pause_task) false p i e = Counts-done (measure p) p refl
  work_at-measure (running delete_task) true p i e = run_delete-measure p i e
  work_at-measure (running delete_task) false p i e = Counts-done (measure p) p refl
  work_at-measure checked free p i e =
      Counts-done (measure p) _ (omega (arith, put-measure p i checked asleep e))
  work_at-measure woken true p i e =
      Counts-done (measure p) _ (lock_cv-measure p.m_is_paused p i woken e refl)
  work_at-measure woken false p i e = Counts-done (measure p) p refl
  work_at-measure asleep free p i e = Counts-done (measure p) p refl
  work_at-measure ended free p i e = Counts-done (measure p) p refl

  pub work-measure : (p : Pool) (i : ℕ) → Counts (measure p) (work i p)
  unfolding work
  work-measure p i = elim (Option-cases (get_elem? p.threads i)) [
    | inl e ↦ rw (e, work) (Counts-done (measure p) p refl)
    | inr (w, e) ↦ rw (e, work) (work_at-measure w (is_free p.threads) p i e)
  ]
