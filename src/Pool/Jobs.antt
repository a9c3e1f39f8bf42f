-- ===== src/Pool/Jobs.antt =====
-- Users' tasks by their identities and priorities, and the order in which they leave the queue.
use distributed_nas.Base.{
  ℕ, zero, suc, ◌≤◌, ◌<◌, ◌≡◌, refl, ap, Bool, true, false, ltb, List, [], ◌∷◌, ◌++◌, map, arith,
  set, replicate, All,
}
use distributed_nas.Queue.{extract}
use distributed_nas.Queue.Order.{by_key, extract-map}
use distributed_nas.Queue.Leaving.{leaving, IsInOrder, leaving-IsInOrder}
use distributed_nas.Pool.{Task, user, delete_task, compare_functor, running, Pool, take_from}

-- A user's task by its identity and its priority.
abbrev pub Job : Type 0
Job = ℕ × ℕ

abbrev pub task_of : Job → Task
task_of j = user j.0 j.1

-- Priorities never fall.
abbrev pub IsAscending : List Job → Type 0
IsAscending [] = Unit
IsAscending (j ∷ js) = All (λ k. j.1 ≤ k.1) js × IsAscending js

-- What has run, the last one first, after jobs have run in order.
abbrev pub ran_after : List Job → List ℕ → List ℕ
ran_after [] before = before
ran_after (j ∷ js) before = ran_after js (j.0 ∷ before)

-- The order of the tasks.
abbrev pub job_later : Job → Job → Bool
job_later j k = ltb k.1 j.1

extract-task_of :
    (j : Job) (js : List Job)
    → extract compare_functor (task_of j) (map task_of js)
      ≡ (task_of (extract job_later j js).0, map task_of (extract job_later j js).1)
unfolding compare_functor
extract-task_of j js = extract-map job_later compare_functor task_of (λ k l. refl) j js

-- Users' tasks with some delete tasks before them.
abbrev pub with_deletes : ℕ → List Job → List Task
with_deletes d js = replicate d delete_task ++ map task_of js

-- Every priority is below that of a delete task.
abbrev pub AreUsers : List Job → Type 0
AreUsers = All (λ j. j.1 < 5)

delete_later : (j : Job) → j.1 < 5 → compare_functor delete_task (task_of j) ≡ true
unfolding compare_functor
delete_later j h = ground (arith, h)

delete_alike : compare_functor delete_task delete_task ≡ false
unfolding compare_functor
delete_alike = refl

-- A user's task leaves before the delete tasks.
extract-delete :
    (d : ℕ) (j : Job) (js : List Job)
    → j.1 < 5
    → extract compare_functor delete_task (with_deletes d (j ∷ js))
      ≡ (task_of (extract job_later j js).0, with_deletes (suc d) (extract job_later j js).1)
unfolding extract
extract-delete zero j js h = rw (delete_later j h, extract-task_of j js)
extract-delete (suc d) j js h = rw (delete_alike, extract-delete d j js h)

pub extract-deletes :
    (d : ℕ)
    → extract compare_functor delete_task (with_deletes d []) ≡ (delete_task, with_deletes d [])
unfolding extract
extract-deletes zero = refl
extract-deletes (suc d) = rw (delete_alike, extract-deletes d)

-- What a thread takes.
pub take_from-with_deletes :
    (d i : ℕ) (j : Job) (js : List Job) (p : Pool)
    → j.1 < 5
    → take_from (with_deletes d (j ∷ js)) i p ≡ record p {
      m_wq = with_deletes d (extract job_later j js).1;
      threads = set p.threads i (running (task_of (extract job_later j js).0));
    }
unfolding take_from
take_from-with_deletes zero i j js p h =
    ap (λ x. record p { m_wq = x.1; threads = set p.threads i (running x.0) })
      (extract-task_of j js)
take_from-with_deletes (suc d) i j js p h =
    ap (λ x. record p { m_wq = x.1; threads = set p.threads i (running x.0) })
      (extract-delete d j js h)

All-le : (j : Job) (js : List Job) → All (λ k. job_later j k ≡ false) js → All (λ k. j.1 ≤ k.1) js
All-le j [] h = tt
All-le j (k ∷ js) (h, hs) = (ground (arith, h), All-le j js hs)

IsInOrder-IsAscending : (js : List Job) → IsInOrder job_later js → IsAscending js
IsInOrder-IsAscending [] h = tt
IsInOrder-IsAscending (j ∷ js) (h, hs) = (All-le j js h, IsInOrder-IsAscending js hs)

-- The order in which they leave the queue.
pub leaving-IsAscending : (n : ℕ) (js : List Job) → IsAscending (leaving job_later n js)
leaving-IsAscending n js =
    IsInOrder-IsAscending (leaving job_later n js)
      (leaving-IsInOrder job_later (by_key (λ k. k.1)) n js)
