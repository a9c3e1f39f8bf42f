-- ===== src/Pool/Stopping.antt =====
-- `Stop` (DesignPatterns/ThreadPool/threadpool.cpp) and the tasks that wait when it is called.
use mathlib.Core.List.{Perm}
use mathlib.Core.Option
use distributed_nas.Base.{
  ℕ, zero, suc, ◌+◌, ◌≡◌, refl, ap, ap₂, ◌∙◌, true, List, [], ◌∷◌, ◌++◌, map, Option, none, some, ℤ,
  pos, pos_part, arith, set, get_elem?, Outcome, done, waiting, length, if◌then◌else◌, ◌==◌,
}
use distributed_nas.Base.Map.{find, erase}
use distributed_nas.Pool.{
  Worker, idle, checked, starting, asleep, woken, ended, running, delete_task, Pool, add_task,
  repeat, stop, wake, take_from, take_task, work_at, work, run_delete, decrement, works, stops,
  step, run, is_free,
}
use distributed_nas.Pool.Runs.{run-done}
use distributed_nas.Queue.Leaving.{leaving, leaving-perm}
use distributed_nas.Pool.Jobs.{
  Job, task_of, IsAscending, ran_after, with_deletes, AreUsers, extract-deletes,
  leaving-IsAscending, job_later,
}
use distributed_nas.Pool.Draining.{get_elem?-set_same, is_free-set, two_turns, drain}

-- The wait at the end of `Stop`: what `m_num_of_threads` is at first, and at each time that the wait
-- on `m_stop_cv` ends, with `none` when the time is up. The result is the number that it has seen.
unfoldable pub stop_wait : ℤ → List (Option ℤ) → Outcome ℤ
stop_wait (pos zero) wakes = done (pos 0)
stop_wait n [] = waiting
stop_wait n (none ∷ wakes) = done n
stop_wait n (some m ∷ wakes) = stop_wait m wakes

get_elem?-wake :
    (ws : List Worker) (i : ℕ) → get_elem? ws i ≡ some idle → get_elem? (map wake ws) i ≡ some idle
get_elem?-wake [] i e = cc
get_elem?-wake (w ∷ ws) zero e = ap (Option.map wake) e
get_elem?-wake (w ∷ ws) (suc i) e = get_elem?-wake ws i e

is_free-wake : (ws : List Worker) → is_free ws ≡ true → is_free (map wake ws) ≡ true
is_free-wake [] f = f
is_free-wake (starting ∷ ws) f = is_free-wake ws f
is_free-wake (idle ∷ ws) f = is_free-wake ws f
is_free-wake (checked ∷ ws) f = ground arith
is_free-wake (asleep ∷ ws) f = is_free-wake ws f
is_free-wake (woken ∷ ws) f = is_free-wake ws f
is_free-wake (ended ∷ ws) f = is_free-wake ws f
is_free-wake (running t ∷ ws) f = is_free-wake ws f

-- The pool with some delete tasks more.
repeat-delete :
    (n d : ℕ) (js : List Job) (p : Pool)
    → p.m_wq ≡ with_deletes d js
    → repeat n (add_task 0 delete_task) p ≡ record p { m_wq = with_deletes (n + d) js }
unfolding add_task
repeat-delete zero d js p e =
    ap (λ l. record p { m_wq = l }) e
    ∙ ap (λ m. record p { m_wq = with_deletes m js }) (omega arith)
repeat-delete (suc n) d js p e =
    repeat-delete n (suc d) js (add_task 0 delete_task p) (ap (◌∷◌ delete_task) e)
    ∙ ap (λ m. record p { m_wq = with_deletes m js }) (omega arith)

stop-deletes :
    (k : ℕ) (js : List Job) (p : Pool)
    → p.m_num_of_threads ≡ pos k
    → p.m_wq ≡ map task_of js
    → stop p ≡ record p { m_wq = with_deletes k js; threads = map wake p.threads }
unfolding stop
stop-deletes k js p c e =
    let n : k + 0 ≡ k = omega arith in
    ap
      (λ m.
        repeat (pos_part m) (add_task 0 delete_task) (record p { threads = map wake p.threads }))
      c
    ∙ repeat-delete k 0 js (record p { threads = map wake p.threads }) e
    ∙ ap (λ m. record p { m_wq = with_deletes m js; threads = map wake p.threads }) n

-- The last two turns of a thread: it takes a delete task and runs it.
delete-twice :
    (d i f : ℕ) (p : Pool)
    → p.m_wq ≡ with_deletes (suc d) []
    → get_elem? p.threads i ≡ some idle
    → is_free p.threads ≡ true
    → find i p.m_map ≡ some f
    → (q : Pool) × (run (works i ∷ works i ∷ []) p ≡ done q)
      × (q.m_wq ≡ with_deletes d [])
      × (q.executed ≡ p.executed)
      × (get_elem? q.threads i ≡ some ended)
      × (q.m_map ≡ erase i p.m_map)
      × (q.m_num_of_threads ≡ decrement p.m_num_of_threads)
unfolding step work work_at take_task take_from run_delete run
delete-twice d i f p e w free m =
    let t = running delete_task in
    let q : Pool = record p { m_wq = with_deletes d []; threads = set p.threads i t } in
    let stands = get_elem?-set_same p.threads i idle t w in
    let open_q : is_free q.threads ≡ true = is_free-set p.threads i t refl free in
    let u : Pool = record q {
      threads = set q.threads i ended;
      m_map = erase i p.m_map;
      m_num_of_threads = decrement p.m_num_of_threads;
    } in
    let takes : step (works i) p ≡ done q =
      rw (w, work)
        (ap (λ l. done (take_from l i p)) e
          ∙ ap (λ x. done (record p { m_wq = x.1; threads = set p.threads i (running x.0) }))
              (extract-deletes d)) in
    (
      u,
      run-done (works i) (works i ∷ []) p q takes
          ∙ run-done (works i) [] q u (rw (stands, work, open_q, work_at, run_delete, m)),
      refl,
      refl,
      get_elem?-set_same q.threads i t ended stands,
      refl,
      refl,
    )

stops_waiting :
    (k : ℕ)
    → stop_wait (pos (suc k)) (some (pos k) ∷ []) ≡ (if k == 0 then done (pos 0) else waiting)
unfolding stop_wait
stops_waiting zero = refl
stops_waiting (suc k) = ground arith

-- `Stop` loses no task that waits. It is called, with users' tasks in the queue and no thread in
-- `LockCV`, in a pool that counts `k + 1` threads; then one thread that stands at its loop, with nobody
-- else at work, takes two turns for each task and two more: it runs every task once, in an order in
-- which priorities never fall, and only then ends, taken out of the map and of the count. The wait at
-- the end of `Stop` goes on unless that was the last thread.
pub run-stops :
    (k i f : ℕ) (js : List Job) (p : Pool)
    → p.m_num_of_threads ≡ pos (suc k)
    → p.m_wq ≡ map task_of js
    → AreUsers js
    → get_elem? p.threads i ≡ some idle
    → is_free p.threads ≡ true
    → find i p.m_map ≡ some f
    → (order : List Job) × (q : Pool) × (run
          (stops ∷ (two_turns i (length js) ++ works i ∷ works i ∷ []))
          p
        ≡ done q)
      × Perm js order
      × IsAscending order
      × (q.executed ≡ ran_after order p.executed)
      × (get_elem? q.threads i ≡ some ended)
      × (q.m_map ≡ erase i p.m_map)
      × (stop_wait p.m_num_of_threads (some q.m_num_of_threads ∷ [])
          ≡ (if k == 0 then done (pos 0) else waiting))
unfolding decrement
run-stops k i f js p c e h w free m =
    let n = length js in
    let p' : Pool = record p { m_wq = with_deletes (suc k) js; threads = map wake p.threads } in
    let stopped : step stops p ≡ done p' =
      unfold step in rw free (ap done (stop-deletes (suc k) js p c e)) in
    let (q, runs, queue, ran, kept) =
      drain n (suc k) i js (works i ∷ works i ∷ []) p' refl refl h (get_elem?-wake p.threads i w) in
    let (u, ends, rest, same, gone, mapped, counted) =
      delete-twice k i f q queue kept.stands (kept.free (is_free-wake p.threads free))
        (ap (find i) kept.mapped ∙ m) in
    let one_less : u.m_num_of_threads ≡ pos k = counted ∙ ap decrement (kept.counted ∙ c) in
    (
      leaving job_later n js,
      u,
      run-done stops _ p p' stopped ∙ runs ∙ ends,
      leaving-perm job_later n js refl,
      leaving-IsAscending n js,
      same ∙ ran,
      gone,
      mapped ∙ ap (erase i) kept.mapped,
      ap₂ (λ n m. stop_wait n (some m ∷ [])) c one_less ∙ stops_waiting k,
    )
