-- ===== src/Pool/Executing.antt =====
-- The user task that a thread runs in an action, and the list of those that have run.
use distributed_nas.Base.{
  total, ℕ, zero, suc, ◌≤◌, ◌≡◌, refl, ◌∙◌, subst, Bool, true, false, List, [], ◌∷◌, Option, none,
  some, ℤ, pos_part, arith, get_elem?, if◌then◌else◌, Outcome, done, fault, ltb_ℤ, Option-cases,
  inl, inr,
}
use distributed_nas.Base.Map.{find}
use distributed_nas.Pool.{
  Task, user, pause_task, delete_task, Worker, starting, idle, checked, asleep, woken, ended,
  running, Pool, create_thread, add_task, repeat, grow, shrink, diff, set_thread_number, pause,
  resume, stop, is_free, run_delete, take_from, take_task, work_at, work, wake_up, Action, works,
  wakes, adds, pauses, resumes, stops, sets, step,
}
use distributed_nas.Pool.Tally.{held}

-- The user task that a thread is at.
abbrev pub user_task : Option Worker → Option ℕ
user_task (some (running (user k q))) = some k
user_task w = none

-- The user task that an action runs.
abbrev pub task_run : Action → Pool → Option ℕ
task_run (works i) p = user_task (get_elem? p.threads i)
task_run a p = none

abbrev pub added_to : Option ℕ → List ℕ → List ℕ
added_to none ks = ks
added_to (some k) ks = k ∷ ks

abbrev Executes : List ℕ → Outcome Pool → Type 0
Executes ks r = (q : Pool) → r ≡ done q → q.executed ≡ ks

Executes-done : (ks : List ℕ) (x : Pool) → x.executed ≡ ks → Executes ks (done x)
Executes-done ks x h q e = let same : x ≡ q = cc in subst (λ y. y.executed ≡ ks) same h

take_from-executed : (ts : List Task) (p : Pool) (i : ℕ) → (take_from ts i p).executed ≡ p.executed
unfolding take_from
take_from-executed [] p i = refl
take_from-executed (t ∷ ts) p i = refl

run_delete-executed : (p : Pool) (i : ℕ) → Executes p.executed (run_delete i p)
unfolding run_delete
run_delete-executed p i = elim (Option-cases (find i p.m_map)) [
  | inl missing ↦ λ q r. absurd (let r' : fault ≡ done q = rw (missing, run_delete) at r in cc)
  | inr (functor, there) ↦ rw (there, run_delete) (Executes-done p.executed _ refl)
]

work_at-executed :
    (w : Worker) (free : Bool) (p : Pool) (i : ℕ)
    → Executes (added_to (user_task (some w)) p.executed) (work_at w free i p)
unfolding work_at take_task
work_at-executed starting true p i = Executes-done _ _ refl
work_at-executed starting false p i = Executes-done _ _ refl
work_at-executed idle free p i = Executes-done _ _ (take_from-executed p.m_wq p i)
work_at-executed (running (user j q)) free p i = Executes-done _ _ refl
work_at-executed (running pause_task) true p i = Executes-done _ _ refl
work_at-executed (running pause_task) false p i = Executes-done _ _ refl
work_at-executed (running delete_task) true p i = run_delete-executed p i
work_at-executed (running delete_task) false p i = Executes-done _ _ refl
work_at-executed checked free p i = Executes-done _ _ refl
work_at-executed woken true p i = Executes-done _ _ refl
work_at-executed woken false p i = Executes-done _ _ refl
work_at-executed asleep free p i = Executes-done _ _ refl
work_at-executed ended free p i = Executes-done _ _ refl

work-executed :
    (p : Pool) (i : ℕ) → Executes (added_to (task_run (works i) p) p.executed) (work i p)
unfolding work
work-executed p i = elim (Option-cases (get_elem? p.threads i)) [
  | inl e ↦ rw (e, work) (Executes-done p.executed p refl)
  | inr (w, e) ↦ rw (e, work) (work_at-executed w (is_free p.threads) p i)
]

repeat-executed :
    (n : ℕ) (body : Pool → Pool) (p : Pool)
    → ((q : Pool) → (body q).executed ≡ q.executed)
    → (repeat n body p).executed ≡ p.executed
repeat-executed zero body p keep = refl
repeat-executed (suc n) body p keep = repeat-executed n body (body p) keep ∙ keep p

if-executed :
    (b : Bool) (p q : Pool) (ks : List ℕ)
    → p.executed ≡ ks
    → q.executed ≡ ks
    → (if b then p else q).executed ≡ ks
if-executed true p q ks u v = u
if-executed false p q ks u v = v

add_tasks-executed :
    (n : ℕ) (t : Task) (p : Pool) → (repeat n (add_task 0 t) p).executed ≡ p.executed
unfolding add_task
add_tasks-executed n t p = repeat-executed n (add_task 0 t) p (λ q. refl)

wake_up-executed : (p : Pool) (i : ℕ) → (wake_up i p).executed ≡ p.executed
unfolding wake_up
wake_up-executed p i = elim (Option-cases (get_elem? p.threads i)) [
  | inl e ↦ rw (e, wake_up)
  | inr (w, e) ↦ rw (e, wake_up)
]

set_thread_number-executed : (n : ℤ) (p : Pool) → (set_thread_number n p).executed ≡ p.executed
unfolding set_thread_number grow shrink create_thread add_task
set_thread_number-executed n p =
    let d = diff n p.m_num_of_threads in
    if-executed (ltb_ℤ p.m_num_of_threads n) _ _ p.executed
      (repeat-executed d grow _ (λ q. refl)
        ∙ if-executed p.m_is_paused _ _ p.executed (add_tasks-executed d pause_task p) refl)
      (repeat-executed (diff p.m_num_of_threads n) shrink p (λ q. refl))

-- What has run after an action is what had run, with the user task that the action runs.
pub step-executed :
    (a : Action) (p q : Pool) → step a p ≡ done q → q.executed ≡ added_to (task_run a p) p.executed
unfolding step add_task pause resume stop
step-executed (works i) p = work-executed p i
step-executed (wakes i) p = Executes-done _ _ (wake_up-executed p i)
step-executed (adds j r place) p = Executes-done _ _ refl
step-executed pauses p =
    Executes-done _ _ (add_tasks-executed (pos_part p.m_num_of_threads) pause_task _)
step-executed resumes p = Executes-done _ _ refl
step-executed stops p = Executes-done _ _ (
    if-executed (is_free p.threads) _ _ p.executed
      (add_tasks-executed (pos_part p.m_num_of_threads) delete_task _) refl)
step-executed (sets n) p = Executes-done _ _ (set_thread_number-executed n p)

-- A thread at a user task counts for it.
pub total-held :
    (k : ℕ) (ws : List Worker) (i : ℕ) → user_task (get_elem? ws i) ≡ some k → 1 ≤ total (held k) ws
total-held k [] i e = cc
total-held k (running (user j q) ∷ ws) zero e = ground arith
total-held k (running pause_task ∷ ws) zero e = cc
total-held k (running delete_task ∷ ws) zero e = cc
total-held k (starting ∷ ws) zero e = cc
total-held k (idle ∷ ws) zero e = cc
total-held k (checked ∷ ws) zero e = cc
total-held k (asleep ∷ ws) zero e = cc
total-held k (woken ∷ ws) zero e = cc
total-held k (ended ∷ ws) zero e = cc
total-held k (w ∷ ws) (suc i) e = omega (arith, total-held k ws i e)
