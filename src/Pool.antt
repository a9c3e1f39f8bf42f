-- ===== src/Pool.antt =====
-- DesignPatterns/ThreadPool/threadpool.cpp and threadpool.hpp: workers that share a queue of tasks,
-- as one state and the actions of the workers and of the pool's client, in any order.
mod Examples
pub mod Counting
pub mod Workers
pub mod Threads
pub mod Turns
pub mod Runs
pub mod Tally
pub mod Tasks
pub mod Taking
pub mod Jobs
pub mod Draining
pub mod Stopping
pub mod Pausing
pub mod Serving
pub mod Rounds
pub mod Finishing
pub mod Sleeping
pub mod Executing
use distributed_nas.Base.{
  ℕ, zero, suc, ◌+◌, ◌-◌, ◌≡◌, Bool, true, false, ◌&&◌, List, [], ◌∷◌, ◌++◌, Option, none, some,
  map, ℤ, pos, negsuc, pos_part, neg_part, ltb_ℤ, ltb, if◌then◌else◌, Outcome, done, waiting, fault,
  get_elem?, set, replicate,
}
use distributed_nas.Base.Map.{Map, find, insert, erase}
use distributed_nas.Queue.{extract, enqueue}

-- A user's task has an identity and a priority.
pub data Task : Type 0 where
  user : ℕ → ℕ → Task
  pause_task : Task
  delete_task : Task

abbrev pub low : ℕ
low = 0

abbrev pub medium : ℕ
medium = 1

abbrev pub high : ℕ
high = 2

abbrev pub get_priority : Task → ℕ
get_priority (user k p) = p
get_priority pause_task = 4
get_priority delete_task = 5

unfoldable pub compare_functor : Task → Task → Bool
compare_functor lhs rhs = ltb (get_priority rhs) (get_priority lhs)

-- Where a thread stands. `starting`: before `RegisterFunctor`; `idle`: at the loop of the functor;
-- `checked`: in `LockCV`, with the mutex, having seen `m_is_paused`; `asleep`: in the wait on `m_cv`;
-- `woken`: notified, about to test again.
pub data Worker : Type 0 where
  starting idle checked asleep woken ended : Worker
  running : Task → Worker

-- The index of a thread is its id. `executed` lists the user tasks that have run, the last one first.
pub record Pool : Type 0 where
  pub m_is_paused : Bool
  pub m_num_of_threads : ℤ
  pub m_wq : List Task
  pub m_map : Map ℕ
  pub threads : List Worker
  pub executed : List ℕ

unfoldable pub increment : ℤ → ℤ
increment (pos n) = pos (suc n)
increment (negsuc zero) = pos 0
increment (negsuc (suc n)) = negsuc n

unfoldable pub decrement : ℤ → ℤ
decrement (pos zero) = negsuc 0
decrement (pos (suc n)) = pos n
decrement (negsuc n) = negsuc (suc n)

unfoldable pub create_thread : Pool → Pool
create_thread p = record p { threads = p.threads ++ starting ∷ [] }

-- The place is among tasks of the same priority, which those of a pause or a stop have only among
-- themselves.
unfoldable pub add_task : ℕ → Task → Pool → Pool
unfolding enqueue
add_task place tb p = record p { m_wq = (enqueue place tb p.m_wq).0 }

abbrev pub repeat : ℕ → (Pool → Pool) → Pool → Pool
repeat zero body p = p
repeat (suc n) body p = repeat n body (body p)

-- `ThreadPool(num_of_threads)`
unfoldable pub thread_pool : ℤ → Pool
unfolding create_thread
thread_pool num_of_threads = repeat (pos_part num_of_threads) create_thread (record {
  m_is_paused = false;
  m_num_of_threads = num_of_threads;
  m_wq = [];
  m_map = [];
  threads = [];
  executed = [];
})

-- The body of the loop that makes the pool grow, and of the one that makes it shrink.
unfoldable pub grow : Pool → Pool
unfolding create_thread increment
grow p = let q = create_thread p in record q { m_num_of_threads = increment q.m_num_of_threads }

unfoldable pub shrink : Pool → Pool
unfolding add_task decrement
shrink p =
    let q = add_task 0 delete_task p in record q { m_num_of_threads = decrement q.m_num_of_threads }

-- `a - b`, for `b` at most `a`.
abbrev pub diff : ℤ → ℤ → ℕ
diff a b = pos_part a + neg_part b - (pos_part b + neg_part a)

unfoldable pub set_thread_number : ℤ → Pool → Pool
unfolding grow shrink add_task
set_thread_number n p =
    if ltb_ℤ p.m_num_of_threads n
    then (let d = diff n p.m_num_of_threads in
        repeat d grow (if p.m_is_paused then repeat d (add_task 0 pause_task) p else p))
    else repeat (diff p.m_num_of_threads n) shrink p

unfoldable pub pause : Pool → Pool
unfolding add_task
pause p =
    repeat (pos_part p.m_num_of_threads) (add_task 0 pause_task) (record p { m_is_paused = true })

-- `m_cv.notify_all()`
abbrev pub wake : Worker → Worker
wake asleep = woken
wake w = w

unfoldable pub resume : Pool → Pool
resume p = record p { m_is_paused = false; threads = map wake p.threads }

-- `Stop` up to its wait on `m_stop_cv`.
unfoldable pub stop : Pool → Pool
unfolding add_task
stop p =
    repeat (pos_part p.m_num_of_threads) (add_task 0 delete_task)
      (record p { threads = map wake p.threads })

-- No thread holds `m_mutex` from one action to the next but between the test of `LockCV` and its wait.
abbrev pub is_free : List Worker → Bool
is_free [] = true
is_free (checked ∷ ws) = false
is_free (w ∷ ws) = is_free ws

abbrev pub put : ℕ → Worker → Pool → Pool
put i w p = record p { threads = set p.threads i w }

-- `DeleteTask::operator()` in thread `i`: a thread that is not in the map makes it use `end()`.
unfoldable pub run_delete : ℕ → Pool → Outcome Pool
unfolding decrement
run_delete i p = elim (find i p.m_map) [
  | none ↦ fault
  | some functor ↦ done (record p {
    threads = set p.threads i ended;
    m_map = erase i p.m_map;
    m_num_of_threads = decrement p.m_num_of_threads;
  })
]

-- A thread that tests `m_is_paused` in `LockCV`.
abbrev pub lock_cv : ℕ → Pool → Pool
lock_cv i p = put i (if p.m_is_paused then checked else idle) p

-- `m_wq.Dequeue()`; an empty queue keeps the thread waiting.
unfoldable pub take_from : List Task → ℕ → Pool → Pool
unfolding extract compare_functor
take_from [] i p = p
take_from (t ∷ ts) i p =
    let r = extract compare_functor t ts in
    record p { m_wq = r.1; threads = set p.threads i (running r.0) }

unfoldable pub take_task : ℕ → Pool → Pool
unfolding take_from
take_task i p = take_from p.m_wq i p

abbrev pub register_functor : ℕ → Pool → Pool
register_functor i p = record p { threads = set p.threads i idle; m_map = insert i i p.m_map }

-- One action of a thread, by where it stands and whether the mutex is free.
unfoldable pub work_at : Worker → Bool → ℕ → Pool → Outcome Pool
unfolding take_task run_delete
work_at starting true i p = done (register_functor i p)
work_at idle free i p = done (take_task i p)
work_at (running (user k q)) free i p =
    done (record p { threads = set p.threads i idle; executed = k ∷ p.executed })
work_at (running pause_task) true i p = done (lock_cv i p)
work_at (running delete_task) true i p = run_delete i p
work_at checked free i p = done (put i asleep p)
work_at woken true i p = done (lock_cv i p)
work_at w free i p = done p

unfoldable pub work : ℕ → Pool → Outcome Pool
unfolding work_at
work i p = elim (get_elem? p.threads i) [
  | none ↦ done p
  | some w ↦ work_at w (is_free p.threads) i p
]

-- A wake-up that nobody asked for, which condition variables allow.
unfoldable pub wake_up : ℕ → Pool → Pool
wake_up i p = elim (get_elem? p.threads i) [ none ↦ p | some w ↦ put i (wake w) p ]

-- `adds k q place`: a task `k` of priority `q` is added, which the queue keeps at a place.
pub data Action : Type 0 where
  works wakes : ℕ → Action
  adds : ℕ → ℕ → ℕ → Action
  pauses resumes stops : Action
  sets : ℤ → Action

unfoldable pub step : Action → Pool → Outcome Pool
unfolding work wake_up add_task pause resume stop set_thread_number
step (works i) p = work i p
step (wakes i) p = done (wake_up i p)
step (adds k q place) p = done (add_task place (user k q) p)
step pauses p = done (pause p)
step resumes p = done (resume p)
step stops p = done (if is_free p.threads then stop p else p)
step (sets n) p = done (set_thread_number n p)

unfoldable pub run : List Action → Pool → Outcome Pool
unfolding step
run [] p = done p
run (a ∷ rest) p = elim (step a p) [ done q ↦ run rest q | waiting ↦ waiting | fault ↦ fault ]
