-- ===== src/Pool/Runs.antt =====
-- What holds after any run of a pool: its threads, the number it keeps of them, and their map.
use distributed_nas.Base.{
  total, total-append, ℕ, zero, suc, ◌+◌, ◌≡◌, refl, ap, ◌∙◌, sym, subst, Bool, true, false, not,
  List, [], ◌∷◌, ℤ, pos, pos_part, neg_part, arith, get_elem?, if◌then◌else◌, done, waiting, fault,
  ltb_ℤ,
}
use distributed_nas.Base.Map.{is_new, IsSorted}
use distributed_nas.Pool.{
  user, pause_task, starting, Pool, create_thread, repeat, grow, diff, set_thread_number, is_free,
  Action, works, wakes, adds, pauses, resumes, stops, sets, step, run, thread_pool,
}
use distributed_nas.Pool.Workers.{alive, is_registered, registered-append}
use distributed_nas.Pool.Threads.{
  Inv, Keeps, add_task-Inv, grow-Inv, pause-Inv, resume-Inv, stop-Inv, repeat-Inv,
  repeat-shrink-Inv, add_tasks-Inv,
}
use distributed_nas.Pool.Turns.{work-Inv, wake_up-Inv}

-- By how much a call of `SetThreadNumber` shrinks the pool.
abbrev pub shrunk_by : Action → Pool → ℕ
shrunk_by (sets n) p = if ltb_ℤ p.m_num_of_threads n then 0 else diff p.m_num_of_threads n
shrunk_by a p = 0

if-Inv :
    (b : Bool) (x y z : ℕ) {p q : Pool}
    → Inv p (x + y)
    → Inv q (x + z)
    → Inv (if b then p else q) (x + (if b then y else z))
if-Inv true x y z u v = u
if-Inv false x y z u v = v

if_same : (b : Bool) {x : ℕ} {p q : Pool} → Inv p x → Inv q x → Inv (if b then p else q) x
if_same true u v = u
if_same false u v = v

set_thread_number-Inv :
    (n : ℤ) (p : Pool) (x : ℕ) → Inv p x → Inv (set_thread_number n p) (x + shrunk_by (sets n) p)
unfolding set_thread_number
set_thread_number-Inv n p x v =
    let d = diff n p.m_num_of_threads in
    let e : x + 0 ≡ x = omega arith in
    if-Inv (ltb_ℤ p.m_num_of_threads n) x 0 (diff p.m_num_of_threads n)
      (rw e (
        repeat-Inv d x grow _ (λ q. grow-Inv)
          (if_same p.m_is_paused (add_tasks-Inv d x pause_task p v) v)))
      (repeat-shrink-Inv (diff p.m_num_of_threads n) x p v)

-- Every action returns, `DeleteTask` always finds its thread in the map, and the threads that live are
-- those counted and those by which `SetThreadNumber` has shrunk the pool.
pub step-Inv : (a : Action) (p : Pool) (x : ℕ) → Inv p x → Keeps (x + shrunk_by a p) (step a p)
unfolding step
step-Inv (works i) p x v = let e : x + 0 ≡ x = omega arith in rw e (work-Inv p x i v)
step-Inv (wakes i) p x v = let e : x + 0 ≡ x = omega arith in rw e (_, refl, wake_up-Inv p x i v)
step-Inv (adds k q place) p x v =
    let e : x + 0 ≡ x = omega arith in rw e (_, refl, add_task-Inv place (user k q) v)
step-Inv pauses p x v = let e : x + 0 ≡ x = omega arith in rw e (_, refl, pause-Inv p x v)
step-Inv resumes p x v = let e : x + 0 ≡ x = omega arith in rw e (_, refl, resume-Inv p x v)
step-Inv stops p x v =
    let e : x + 0 ≡ x = omega arith in
    rw e (_, refl, if_same (is_free p.threads) (stop-Inv p x v) v)
step-Inv (sets n) p x v = (_, refl, set_thread_number-Inv n p x v)

thread_pool-create :
    (n : ℕ) (p : Pool)
    → IsSorted p.m_map
    → ((i : ℕ) → is_new i p.m_map ≡ not (is_registered (get_elem? p.threads i)))
    → (total alive (repeat n create_thread p).threads ≡ n + total alive p.threads)
      × ((repeat n create_thread p).m_num_of_threads ≡ p.m_num_of_threads)
      × IsSorted (repeat n create_thread p).m_map
      × ((i : ℕ)
          → is_new i (repeat n create_thread p).m_map
            ≡ not (is_registered (get_elem? (repeat n create_thread p).threads i)))
unfolding create_thread
thread_pool-create zero p s m = (omega arith, refl, s, m)
thread_pool-create (suc n) p s m =
    let (count, num, sorted, mapped) =
      thread_pool-create n (create_thread p) s
        (λ i. m i ∙ ap not (sym (registered-append p.threads i))) in
    (omega (arith, count, total-append alive p.threads starting), num, sorted, mapped)

-- A pool made for `n` threads, `n` at least 0, counts them all.
pub thread_pool-Inv : (n : ℕ) → Inv (thread_pool (pos n)) 0
unfolding thread_pool
thread_pool-Inv n =
    let (count, num, sorted, mapped) = thread_pool-create n _ tt (λ i. refl) in
    record { counted = rw num (omega (arith, count)); sorted = sorted; mapped = mapped }

-- The sum of what the calls of `SetThreadNumber` in a run shrink the pool by.
unfoldable pub shrunk : List Action → Pool → ℕ
shrunk [] p = 0
shrunk (a ∷ rest) p =
    shrunk_by a p + (elim (step a p) [ done q ↦ shrunk rest q | waiting ↦ 0 | fault ↦ 0 ])

pub run-done :
    (a : Action) (rest : List Action) (p q : Pool)
    → step a p ≡ done q
    → run (a ∷ rest) p ≡ run rest q
unfolding run
run-done a rest p q e = rw (e, run)

shrunk-done :
    (a : Action) (rest : List Action) (p q : Pool)
    → step a p ≡ done q
    → shrunk (a ∷ rest) p ≡ shrunk_by a p + shrunk rest q
unfolding shrunk
shrunk-done a rest p q e = rw (e, shrunk)

pub run-Inv :
    (acts : List Action) (p : Pool) (x : ℕ) → Inv p x → Keeps (x + shrunk acts p) (run acts p)
unfolding run shrunk
run-Inv [] p x v = let e : x + 0 ≡ x = omega arith in rw e (p, refl, v)
run-Inv (a ∷ rest) p x v =
    let (q, e, w) = step-Inv a p x v in
    let (r, f, u) = run-Inv rest q (x + shrunk_by a p) w in
    let sum : x + shrunk (a ∷ rest) p ≡ x + shrunk_by a p + shrunk rest q =
      omega (arith, shrunk-done a rest p q e) in
    (r, run-done a rest p q e ∙ f, subst (Inv r) (sym sum) u)

-- Any run of a pool made for `n` threads returns, so `DeleteTask` always finds its thread in the map;
-- at its end the map holds exactly the threads that have registered and not ended; and the number
-- that the pool keeps is that of its live threads less all that `SetThreadNumber` has shrunk it by:
-- a thread that a shrink ends is subtracted by the shrink and once more by its own `DeleteTask`.
pub run-thread_pool :
    (n : ℕ) (acts : List Action) (i : ℕ)
    → (q : Pool) × (run acts (thread_pool (pos n)) ≡ done q)
      × (pos_part q.m_num_of_threads + shrunk acts (thread_pool (pos n))
          ≡ total alive q.threads + neg_part q.m_num_of_threads)
      × (is_new i q.m_map ≡ not (is_registered (get_elem? q.threads i)))
run-thread_pool n acts i =
    let (q, e, v) = run-Inv acts (thread_pool (pos n)) 0 (thread_pool-Inv n) in
    (q, e, omega (arith, v.counted), v.mapped i)
