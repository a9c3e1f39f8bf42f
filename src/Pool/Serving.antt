-- ===== src/Pool/Serving.antt =====
-- Pools that serve: they are not paused, no task is to end a thread, and the threads come to the loop of
-- the functor and run tasks; and the turns that their work needs.
use distributed_nas.Base.{
  total, total-set, total-append, ℕ, zero, suc, ◌+◌, ◌*◌, ◌≡◌, ◌⊎◌, inl, inr, refl, ap, ◌∙◌, subst,
  true, false, List, [], ◌∷◌, ◌++◌, none, some, arith, get_elem?, set, length, length-append,
  length-set, All, All-set, All-get_elem?, pos, done, Option-cases,
}
use distributed_nas.Base.Map.{Map}
use distributed_nas.Queue.{extract}
use distributed_nas.Queue.Order.{extract-All, length-extract}
use distributed_nas.Pool.{
  Task, user, pause_task, delete_task, compare_functor, Worker, starting, idle, checked, asleep,
  woken, ended, running, Pool, put, create_thread, repeat, is_free, take_from, take_task, work_at,
  work, thread_pool,
}

-- The turns that a thread needs until it is at its loop, and the turns that all the work needs.
abbrev pub turns_needed : Worker → ℕ
turns_needed starting = 1
turns_needed woken = 1
turns_needed (running t) = 1
turns_needed w = 0

abbrev pub turns_left : Pool → ℕ
turns_left p = 2 * length p.m_wq + total turns_needed p.threads

-- A user's task, or one of a pause that is over.
abbrev pub IsServed : Task → Type 0
IsServed delete_task = ⊥
IsServed t = Unit

abbrev pub IsServing : Worker → Type 0
IsServing starting = Unit
IsServing idle = Unit
IsServing woken = Unit
IsServing (running t) = IsServed t
IsServing w = ⊥

pub record Serves (n : ℕ) (p : Pool) : Type 0 where
  pub unpaused : p.m_is_paused ≡ false
  pub queue : All IsServed p.m_wq
  pub workers : All IsServing p.threads
  pub size : length p.threads ≡ n

is_free-serving : (ws : List Worker) → All IsServing ws → is_free ws ≡ true
is_free-serving [] h = refl
is_free-serving (starting ∷ ws) (h, hs) = is_free-serving ws hs
is_free-serving (idle ∷ ws) (h, hs) = is_free-serving ws hs
is_free-serving (running t ∷ ws) (h, hs) = is_free-serving ws hs
is_free-serving (checked ∷ ws) (h, hs) = absurd h
is_free-serving (asleep ∷ ws) (h, hs) = absurd h
is_free-serving (woken ∷ ws) (h, hs) = is_free-serving ws hs
is_free-serving (ended ∷ ws) (h, hs) = absurd h

-- Thread `i` is not there, or is at its loop and finds no task.
abbrev pub HasNothing : Pool → ℕ → Type 0
HasNothing p i =
    (get_elem? p.threads i ≡ none) ⊎ ((get_elem? p.threads i ≡ some idle) × (p.m_wq ≡ []))

abbrev Turned : ℕ → Pool → Pool → Type 0
Turned i p q = (suc (turns_left q) ≡ turns_left p) ⊎ ((q ≡ p) × HasNothing p i)

take_from-Serves :
    (ts : List Task) (n i : ℕ) (p : Pool)
    → get_elem? p.threads i ≡ some idle
    → p.m_wq ≡ ts
    → Serves n p
    → Serves n (take_from ts i p) × Turned i p (take_from ts i p)
unfolding take_from
take_from-Serves [] n i p e w v = (v, inr (refl, inr (e, w)))
take_from-Serves (t ∷ ts) n i p e w v =
    let r = extract compare_functor t ts in
    let (h, hs) = subst (All IsServed) w v.queue in
    let (first, rest) = extract-All compare_functor IsServed t ts h hs in
    (
      record {
        unpaused = v.unpaused;
        queue = rest;
        workers = All-set IsServing p.threads i (running r.0) first v.workers;
        size = length-set p.threads i (running r.0) ∙ v.size;
      },
      inl (
          omega (
            arith,
            ap length w,
            length-extract compare_functor t ts,
            total-set turns_needed p.threads i idle (running r.0) e,
          )),
    )

abbrev Turns : ℕ → ℕ → Pool → Pool → Type 0
Turns n i p q = Serves n q × Turned i p q

-- A thread that comes to its loop, whatever that puts into the map or into the log.
to_loop :
    {n : ℕ} {m : Map ℕ} {l : List ℕ} (i : ℕ) (p : Pool) (w : Worker)
    → get_elem? p.threads i ≡ some w
    → turns_needed w ≡ 1
    → Serves n p
    → Turns n i p (record p { threads = set p.threads i idle; m_map = m; executed = l })
to_loop i p w e one v = (
  record {
    unpaused = v.unpaused;
    queue = v.queue;
    workers = All-set IsServing p.threads i idle tt v.workers;
    size = length-set p.threads i idle ∙ v.size;
  },
  inl (omega (arith, one, total-set turns_needed p.threads i w idle e)),
)

work_at-Serves :
    (w : Worker) (n i : ℕ) (p : Pool)
    → get_elem? p.threads i ≡ some w
    → IsServing w
    → Serves n p
    → (q : Pool) × (work_at w true i p ≡ done q) × Turns n i p q
unfolding work_at take_task
work_at-Serves starting n i p e s v = (_, refl, to_loop i p starting e refl v)
work_at-Serves idle n i p e s v = (_, refl, take_from-Serves p.m_wq n i p e refl v)
work_at-Serves (running (user k r)) n i p e s v =
    (_, refl, to_loop i p (running (user k r)) e refl v)
work_at-Serves (running pause_task) n i p e s v = (
  put i idle p,
  rw v.unpaused refl,
  to_loop {m = p.m_map} {l = p.executed} i p (running pause_task) e refl v,
)
work_at-Serves (running delete_task) n i p e s v = absurd s
work_at-Serves checked n i p e s v = absurd s
work_at-Serves asleep n i p e s v = absurd s
work_at-Serves woken n i p e s v =
    (put i idle p, rw v.unpaused refl, to_loop {m = p.m_map} {l = p.executed} i p woken e refl v)
work_at-Serves ended n i p e s v = absurd s

-- A turn of a thread returns, and brings the work down by one turn, or the thread has nothing to do.
pub work-Serves :
    (n i : ℕ) (p : Pool) → Serves n p → (q : Pool) × (work i p ≡ done q) × Turns n i p q
unfolding work
work-Serves n i p v = elim (Option-cases (get_elem? p.threads i)) [
  | inl e ↦ (p, rw (e, work), (v, inr (refl, inl e)))
  | inr (w, e) ↦
      let (q, done_so, t) =
        work_at-Serves w n i p e (All-get_elem? IsServing p.threads i w v.workers e) v in
      (q, rw (e, work) (rw (is_free-serving p.threads v.workers) done_so), t)
]

-- Without a turn left, nothing waits and every thread is at its loop.
idle-turns_needed :
    (ws : List Worker) → All IsServing ws → total turns_needed ws ≡ 0 → All (λ w. w ≡ idle) ws
idle-turns_needed [] h e = tt
idle-turns_needed (starting ∷ ws) (h, hs) e = absurd (omega arith)
idle-turns_needed (idle ∷ ws) (h, hs) e = (refl, idle-turns_needed ws hs (omega (arith, e)))
idle-turns_needed (running t ∷ ws) (h, hs) e = absurd (omega arith)
idle-turns_needed (checked ∷ ws) (h, hs) e = absurd h
idle-turns_needed (asleep ∷ ws) (h, hs) e = absurd h
idle-turns_needed (woken ∷ ws) (h, hs) e = absurd (omega arith)
idle-turns_needed (ended ∷ ws) (h, hs) e = absurd h

length-nil : (ts : List Task) → length ts ≡ 0 → ts ≡ []
length-nil [] e = refl
length-nil (t ∷ ts) e = absurd (omega arith)

pub none_left :
    (n : ℕ) (p : Pool)
    → Serves n p
    → turns_left p ≡ 0
    → (p.m_wq ≡ []) × All (λ w. w ≡ idle) p.threads
none_left n p v e =
    (length-nil p.m_wq (omega (arith, e)), idle-turns_needed p.threads v.workers (omega (arith, e)))

create-Serves :
    (m n : ℕ) (p : Pool)
    → Serves n p
    → Serves (m + n) (repeat m create_thread p)
      × (turns_left (repeat m create_thread p) ≡ m + turns_left p)
unfolding create_thread
create-Serves zero n p v = let e : 0 + n ≡ n = omega arith in (rw e v, omega arith)
create-Serves (suc m) n p v =
    let e : m + suc n ≡ suc m + n = omega arith in
    let (w, count) = create-Serves m (suc n) (create_thread p) (record {
      unpaused = v.unpaused;
      queue = v.queue;
      workers = All-last p.threads v.workers;
      size = length-append p.threads (starting ∷ []) ∙ omega (arith, v.size);
    }) in
    (
      subst (λ k. Serves k (repeat m create_thread (create_thread p))) e w,
      count ∙ omega (arith, total-append turns_needed p.threads starting),
    )
  where
    All-last : (ws : List Worker) → All IsServing ws → All IsServing (ws ++ starting ∷ [])
    All-last [] h = (tt, tt)
    All-last (w ∷ ws) (h, hs) = (h, All-last ws hs)

-- A new pool serves; its threads need a turn each to come to their loops.
pub thread_pool-Serves :
    (n : ℕ) → Serves n (thread_pool (pos n)) × (turns_left (thread_pool (pos n)) ≡ n)
unfolding thread_pool
thread_pool-Serves n =
    let p : Pool = record {
      m_is_paused = false;
      m_num_of_threads = pos n;
      m_wq = [];
      m_map = [];
      threads = [];
      executed = [];
    } in
    let start : Serves 0 p = record { unpaused = refl; queue = tt; workers = tt; size = refl } in
    let e : n + 0 ≡ n = omega arith in
    let (v, count) = create-Serves n 0 p start in
    (subst (λ k. Serves k (repeat n create_thread p)) e v, count ∙ e)
