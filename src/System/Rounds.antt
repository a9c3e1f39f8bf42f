-- ===== src/System/Rounds.antt =====
-- A run of the server in rounds of turns.
use distributed_nas.Base.{
  ℕ, ◌≡◌, refl, List, [], ◌∷◌, map, arith, pos, done, inl, replicate, All, ◌++◌,
}
use distributed_nas.Queue.{extract, enqueue}
use distributed_nas.Nbd.Image.{Image, image_disk}
use distributed_nas.Nbd.Pipeline.Simulation.{turn_of}
use distributed_nas.Nbd.Pipeline.Device.{device_run}
use distributed_nas.System.Answering.{all_served}
use distributed_nas.Nbd.Pipeline.Samples.{start, start_device}
use distributed_nas.Pool.{
  thread_pool, create_thread, step, work, work_at, take_task, take_from, add_task, compare_functor,
}
use distributed_nas.System.{System, Move, receives, system_run, system}
use distributed_nas.System.Schedule.{schedule}
use distributed_nas.System.Finishing.{moves_of, system_run-finishes}
use distributed_nas.Pool.Rounds.{Covers}
use distributed_nas.Pool.Finishing.{IsFinished}
use distributed_nas.System.Samples.{commands, in_order, in_order-fed}

-- Two threads that start when all have arrived: they come to their loops, take the last two commands,
-- run them, and one of them takes and runs the first; then both wait.
abbrev pairs : List (List ℕ)
pairs = replicate 7 (0 ∷ 1 ∷ []) ++ (1 ∷ 1 ∷ 0 ∷ []) ∷ []

pairs-Covers : All (Covers 2) pairs
pairs-Covers = (
  (refl, (refl, tt)),
  (
    (refl, (refl, tt)),
    (
      (refl, (refl, tt)),
      (
        (refl, (refl, tt)),
        ((refl, (refl, tt)), ((refl, (refl, tt)), ((refl, (refl, tt)), ((refl, (refl, tt)), tt)))),
      ),
    ),
  ),
)

abbrev all_arrive : List Move
all_arrive = receives 0 ∷ receives 0 ∷ receives 0 ∷ []

all_served-pairs :
    map turn_of (all_served commands)
    ≡ schedule (all_arrive ++ moves_of pairs) (thread_pool (pos 2)) [] 0
unfolding thread_pool create_thread step work work_at take_task take_from add_task compare_functor
    extract enqueue
all_served-pairs = refl

system_run-finishes_example :
    (s : System Image) × (system_run (all_arrive ++ moves_of pairs) (system 2 in_order start.engine)
      ≡ done s)
    × (s.server.file.content ≡ 90 ∷ 91 ∷ 12 ∷ 13 ∷ 92 ∷ 15 ∷ 16 ∷ 17 ∷ [])
    × (s.server.sent ≡ (device_run (all_served commands) start_device).answered)
    × IsFinished s.pool
system_run-finishes_example =
    system_run-finishes image_disk 1 all_arrive pairs (all_served commands) start_device in_order
      start.engine refl (tt, (tt, (tt, tt))) pairs-Covers (omega arith) all_served-pairs
      (
        (refl, omega arith, omega arith, omega arith),
        (
          (refl, omega arith, omega arith, omega arith),
          ((refl, omega arith, omega arith, omega arith), tt),
        ),
      )
      ((inl (omega arith), (tt, tt)), ((tt, tt), (tt, tt))) refl
      (record { same_bytes = refl; same_answers = refl; same_tasks = refl; same_memory = refl })
      in_order-fed
