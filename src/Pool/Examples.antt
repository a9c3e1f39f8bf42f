-- ===== src/Pool/Examples.antt =====
-- Runs of pools of two threads.
use mathlib.Core.List.{Perm}
use distributed_nas.Base.{
  total, ◌++◌, waiting, arith, ◌+◌, ◌≡◌, refl, true, false, not, List, [], ◌∷◌, some, pos, pos_part,
  neg_part, get_elem?, done, replicate, All, ℕ,
}
use distributed_nas.Base.Map.{is_new}
use distributed_nas.Pool.{
  user, delete_task, low, high, idle, checked, asleep, woken, ended, Pool, thread_pool, Action,
  works, adds, pauses, resumes, stops, sets, step, run, work_at, pause_task, create_thread, work,
  take_task, take_from, pause, resume, add_task, compare_functor,
}
use distributed_nas.Queue.{extract, enqueue}
use distributed_nas.Pool.Workers.{alive, is_registered}
use distributed_nas.Pool.Runs.{shrunk, run-thread_pool}
use distributed_nas.Pool.Tally.{queued, ran, held}
use distributed_nas.Pool.Tasks.{run-tasks}
use distributed_nas.Pool.Jobs.{Job, IsAscending, AreUsers, ran_after}
use distributed_nas.Pool.Draining.{two_turns, run-drains}
use distributed_nas.Pool.Stopping.{stop_wait, run-stops}
use distributed_nas.Pool.Pausing.{IsHeld, run-IsHeld}
use distributed_nas.Pool.Rounds.{Covers, turns_of}
use distributed_nas.Pool.Finishing.{IsFinished, run-finishes}
use distributed_nas.Pool.Tasks.{submitted}
use distributed_nas.Pool.Sleeping.{run-resume}

-- A pool that shrinks from two threads to one, and the thread that leaves.
abbrev shrinking : List Action
shrinking = works 0 ∷ works 1 ∷ sets (pos 1) ∷ works 1 ∷ works 1 ∷ []

run-thread_pool_example :
    (q : Pool) × (run shrinking (thread_pool (pos 2)) ≡ done q)
    × (pos_part q.m_num_of_threads + shrunk shrinking (thread_pool (pos 2))
        ≡ total alive q.threads + neg_part q.m_num_of_threads)
    × (is_new 1 q.m_map ≡ not (is_registered (get_elem? q.threads 1)))
run-thread_pool_example = run-thread_pool 2 shrinking 1

abbrev submitting : List Action
submitting = works 0 ∷ adds 9 high 0 ∷ adds 8 low 0 ∷ works 0 ∷ works 0 ∷ pauses ∷ []

run-tasks_example :
    (q : Pool) × (run submitting (thread_pool (pos 2)) ≡ done q)
    × (queued 9 q.m_wq + total (held 9) q.threads + ran 9 q.executed ≡ 1)
run-tasks_example = run-tasks 9 2 submitting

abbrev busy : Pool
busy = record {
  m_is_paused = false;
  m_num_of_threads = pos 2;
  m_wq = delete_task ∷ user 9 high ∷ user 8 low ∷ [];
  m_map = (0, 0) ∷ (1, 1) ∷ [];
  threads = idle ∷ checked ∷ [];
  executed = [];
}

abbrev paused : Pool
paused = record busy { m_is_paused = true; threads = idle ∷ asleep ∷ [] }

-- The pool stops while its second thread waits in `LockCV`.
abbrev stopping : List Action
stopping = stops ∷ works 1 ∷ works 1 ∷ []

abbrev stopped : Pool
stopped = record paused { m_wq = delete_task ∷ delete_task ∷ paused.m_wq }

run-stopping : run stopping paused ≡ done stopped
unfolding run step work_at
run-stopping = refl

run-IsHeld_example : IsHeld 1 stopped
run-IsHeld_example =
    run-IsHeld 1 stopping paused stopped (λ e. cc, (λ e. cc, (λ e. cc, tt)))
      (record { paused = refl; held = refl }) run-stopping

-- The first of two threads tests a pool that is paused, and misses the call of `Resume`.
abbrev to_the_test : List Action
to_the_test = works 0 ∷ works 1 ∷ pauses ∷ works 0 ∷ works 0 ∷ []

abbrev at_the_test : Pool
at_the_test = record {
  m_is_paused = true;
  m_num_of_threads = pos 2;
  m_wq = pause_task ∷ [];
  m_map = (0, 0) ∷ (1, 1) ∷ [];
  threads = checked ∷ idle ∷ [];
  executed = [];
}

run-to_the_test : run to_the_test (thread_pool (pos 2)) ≡ done at_the_test
unfolding run step thread_pool create_thread work work_at take_task take_from pause add_task extract
    enqueue compare_functor
run-to_the_test = refl

run-resume_example :
    (q : Pool) × (run (resumes ∷ works 0 ∷ adds 7 low 0 ∷ works 1 ∷ works 0 ∷ []) at_the_test
      ≡ done q)
    × (get_elem? q.threads 0 ≡ some asleep)
run-resume_example =
    run-resume 0 2 to_the_test (adds 7 low 0 ∷ works 1 ∷ works 0 ∷ []) at_the_test run-to_the_test
      refl (tt, (tt, (tt, tt)))

abbrev jobs : List Job
jobs = (9, high) ∷ (8, low) ∷ (7, high) ∷ []

abbrev three_waiting : Pool
three_waiting = record busy {
  m_wq = user 9 high ∷ user 8 low ∷ user 7 high ∷ [];
  threads = idle ∷ asleep ∷ [];
}

users : AreUsers jobs
users = (omega arith, (omega arith, (omega arith, tt)))

run-drains_example :
    (order : List Job) × (q : Pool) × (run (two_turns 0 3) three_waiting ≡ done q)
    × Perm jobs order
    × IsAscending order
    × (q.m_wq ≡ [])
    × (q.executed ≡ ran_after order [])
    × (get_elem? q.threads 0 ≡ some idle)
run-drains_example = run-drains 0 0 jobs three_waiting refl users refl

run-stops_example :
    (order : List Job) × (q : Pool) × (run
        (stops ∷ (two_turns 0 3 ++ works 0 ∷ works 0 ∷ []))
        three_waiting
      ≡ done q)
    × Perm jobs order
    × IsAscending order
    × (q.executed ≡ ran_after order [])
    × (get_elem? q.threads 0 ≡ some ended)
    × (q.m_map ≡ (1, 1) ∷ [])
    × (stop_wait (pos 2) (some q.m_num_of_threads ∷ []) ≡ waiting)
run-stops_example = run-stops 1 0 0 jobs three_waiting refl refl users refl refl refl

-- A pool that was paused until its first thread slept, and then resumed with a task in its queue.
abbrev paused_once : List Action
paused_once = to_the_test ++ works 0 ∷ adds 9 high 0 ∷ resumes ∷ []

abbrev resumed : Pool
resumed = record at_the_test {
  m_is_paused = false;
  m_wq = user 9 high ∷ pause_task ∷ [];
  threads = woken ∷ idle ∷ [];
}

run-paused_once : run paused_once (thread_pool (pos 2)) ≡ done resumed
unfolding run step thread_pool create_thread work work_at take_task take_from pause resume add_task
    extract enqueue compare_functor
run-paused_once = refl

abbrev rounds : List (List ℕ)
rounds = replicate 6 (0 ∷ 1 ∷ []) ++ (1 ∷ 1 ∷ 0 ∷ []) ∷ []

rounds-Covers : All (Covers 2) rounds
rounds-Covers =
    let r : Covers 2 (0 ∷ 1 ∷ []) = (refl, (refl, tt)) in
    (r, (r, (r, (r, (r, (r, ((refl, (refl, tt)), tt)))))))

run-finishes_example :
    (q : Pool) × (run (adds 8 low 0 ∷ turns_of rounds) resumed ≡ done q)
    × IsFinished q
    × ((k : ℕ) → ran k q.executed ≡ submitted k paused_once + submitted k (adds 8 low 0 ∷ []))
run-finishes_example =
    run-finishes 2 1 paused_once (adds 8 low 0 ∷ []) resumed rounds run-paused_once
      (record { unpaused = refl; queue = (tt, (tt, tt)); workers = (tt, (tt, tt)); size = refl })
      (tt, tt) rounds-Covers (omega arith)
