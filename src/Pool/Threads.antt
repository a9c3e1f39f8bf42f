-- ===== src/Pool/Threads.antt =====
-- The number that the pool keeps of its threads, and the map of their functors.
use distributed_nas.Base.{
  total, total-set, total-append, ℕ, zero, suc, ◌+◌, ◌≡◌, refl, ap, ◌∙◌, sym, true, not, List, some,
  map, pos_part, neg_part, arith, set, get_elem?, Outcome, done,
}
use distributed_nas.Base.Map.{
  insert, erase, is_new, IsSorted, find-insert, find-erase, insert-IsSorted, erase-IsSorted,
}
use distributed_nas.Pool.{
  Task, pause_task, delete_task, Worker, starting, idle, ended, running, Pool, increment, decrement,
  create_thread, add_task, repeat, grow, shrink, pause, wake, resume, stop, put,
}
use distributed_nas.Pool.Counting.{total-map-wake}
use distributed_nas.Pool.Workers.{
  alive, is_registered, get_elem?-set, registered-append, registered-map-wake,
}

-- `excess` threads live beyond the number kept.
pub record Inv (p : Pool) (excess : ℕ) : Type 0 where
  pub counted :
      pos_part p.m_num_of_threads + excess ≡ total alive p.threads + neg_part p.m_num_of_threads
  pub sorted : IsSorted p.m_map
  pub mapped : (i : ℕ) → is_new i p.m_map ≡ not (is_registered (get_elem? p.threads i))

module _ {p : Pool} {x : ℕ} where
  pub add_task-Inv : (place : ℕ) (t : Task) → Inv p x → Inv (add_task place t p) x
  unfolding add_task
  add_task-Inv place t v = record { counted = v.counted; sorted = v.sorted; mapped = v.mapped }

  pub grow-Inv : Inv p x → Inv (grow p) x
  unfolding grow create_thread increment
  grow-Inv v = record {
    counted = ground (arith, v.counted, total-append alive p.threads starting);
    sorted = v.sorted;
    mapped = λ i. v.mapped i ∙ ap not (sym (registered-append p.threads i));
  }

  pub shrink-Inv : Inv p x → Inv (shrink p) (suc x)
  unfolding shrink add_task decrement
  shrink-Inv v = record {
    counted = ground (arith, v.counted);
    sorted = v.sorted;
    mapped = v.mapped;
  }

  -- Waking changes neither the count nor who is registered.
  wake_all-Inv : Inv p x → Inv (record p { threads = map wake p.threads }) x
  wake_all-Inv v = record {
    counted = rw (total-map-wake alive p.threads refl) v.counted;
    sorted = v.sorted;
    mapped = λ i. v.mapped i ∙ ap not (sym (registered-map-wake p.threads i));
  }

  -- A thread that goes on, registered as before.
  pub put-Inv :
      (i : ℕ) (w v : Worker)
      → get_elem? p.threads i ≡ some w
      → alive v ≡ alive w
      → is_registered (some v) ≡ is_registered (some w)
      → Inv p x
      → Inv (put i v p) x
  put-Inv i w v e a r inv = record {
    counted = ground (arith, inv.counted, total-set alive p.threads i w v e);
    sorted = inv.sorted;
    mapped = λ j. ground (arith, inv.mapped j, get_elem?-set p.threads i j w v e);
  }

  pub register-Inv :
      (i : ℕ)
      → get_elem? p.threads i ≡ some starting
      → Inv p x
      → Inv (record p { threads = set p.threads i idle; m_map = insert i i p.m_map }) x
  register-Inv i e inv = record {
    counted = ground (arith, inv.counted, total-set alive p.threads i starting idle e);
    sorted = insert-IsSorted i i p.m_map inv.sorted;
    mapped = λ j. ground (
      arith,
      inv.mapped j,
      inv.mapped i,
      get_elem?-set p.threads i j starting idle e,
      find-insert i j i p.m_map inv.sorted,
    );
  }

  pub delete-Inv :
      (i : ℕ)
      → get_elem? p.threads i ≡ some (running delete_task)
      → Inv p x
      → Inv
          (record p {
            threads = set p.threads i ended;
            m_map = erase i p.m_map;
            m_num_of_threads = decrement p.m_num_of_threads;
          })
          x
  unfolding decrement
  delete-Inv i e inv = record {
    counted =
        ground (arith, inv.counted, total-set alive p.threads i (running delete_task) ended e);
    sorted = erase-IsSorted i p.m_map inv.sorted;
    mapped = λ j. ground (
      arith,
      inv.mapped j,
      get_elem?-set p.threads i j (running delete_task) ended e,
      find-erase i j p.m_map inv.sorted,
    );
  }

  -- The queue and what has run have no part in it.
  pub queue-Inv :
      (q : List Task) (l : List ℕ) → Inv p x → Inv (record p { m_wq = q; executed = l }) x
  queue-Inv q l v = record { counted = v.counted; sorted = v.sorted; mapped = v.mapped }

-- A computation returns a state in which the invariant holds.
abbrev pub Keeps : ℕ → Outcome Pool → Type 0
Keeps x r = (q : Pool) × (r ≡ done q) × Inv q x

pub repeat-Inv :
    (n x : ℕ) (body : Pool → Pool) (p : Pool)
    → ((q : Pool) → Inv q x → Inv (body q) x)
    → Inv p x
    → Inv (repeat n body p) x
repeat-Inv zero x body p keep v = v
repeat-Inv (suc n) x body p keep v = repeat-Inv n x body (body p) keep (keep p v)

pub repeat-shrink-Inv : (n x : ℕ) (p : Pool) → Inv p x → Inv (repeat n shrink p) (x + n)
repeat-shrink-Inv zero x p v = let e : x + 0 ≡ x = omega arith in rw e v
repeat-shrink-Inv (suc n) x p v =
    let e : x + suc n ≡ suc x + n = omega arith in
    rw e (repeat-shrink-Inv n (suc x) (shrink p) (shrink-Inv v))

pub add_tasks-Inv : (n x : ℕ) (t : Task) (p : Pool) → Inv p x → Inv (repeat n (add_task 0 t) p) x
add_tasks-Inv n x t p v = repeat-Inv n x (add_task 0 t) p (λ q. add_task-Inv 0 t) v

pub pause-Inv : (p : Pool) (x : ℕ) → Inv p x → Inv (pause p) x
unfolding pause
pause-Inv p x v =
    add_tasks-Inv (pos_part p.m_num_of_threads) x pause_task (record p { m_is_paused = true })
      (record { counted = v.counted; sorted = v.sorted; mapped = v.mapped })

pub resume-Inv : (p : Pool) (x : ℕ) → Inv p x → Inv (resume p) x
unfolding resume
resume-Inv p x v =
    let w = wake_all-Inv v in record { counted = w.counted; sorted = w.sorted; mapped = w.mapped }

pub stop-Inv : (p : Pool) (x : ℕ) → Inv p x → Inv (stop p) x
unfolding stop
stop-Inv p x v = add_tasks-Inv (pos_part p.m_num_of_threads) x delete_task _ (wake_all-Inv v)
