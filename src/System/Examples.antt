-- ===== src/System/Examples.antt =====
-- Two threads that take two writes and run them the other way round, and a read.
use distributed_nas.Base.{ℕ, All, ◌≡◌, refl, List, [], ◌∷◌, map, arith, pos, done, fault, inl, some}
use distributed_nas.Queue.{extract, enqueue}
use distributed_nas.Nbd.Image.{Image, image_disk}
use distributed_nas.Nbd.Pipeline.{turns}
use distributed_nas.Nbd.Pipeline.Simulation.{turn_of}
use distributed_nas.Nbd.Pipeline.Device.{device_run}
use distributed_nas.Nbd.Pipeline.Samples.{
  out_of_order, start, handle, request_of, start_device, start-StandsFor, fed,
}
use distributed_nas.Pool.{
  thread_pool, create_thread, step, work, work_at, take_task, take_from, add_task, compare_functor,
}
use distributed_nas.Nbd.Handlers.{file_memory}
use distributed_nas.Nbd.Setup.{Os, NbdProxy, returned}
use distributed_nas.Engine.{Engine}
use distributed_nas.Engine.Loop.{run}
use distributed_nas.Plugins.Monitors.{Watch}
use distributed_nas.System.Flow.{flow1, flow1-runs}
use distributed_nas.System.{System, Move, receives, runs, system_run, system}
use distributed_nas.System.Schedule.{actions_of, schedule}
use distributed_nas.System.Moves.{AreWaiting}
use distributed_nas.System.Agreement.{Agrees}
use distributed_nas.System.Refinement.{Ended, system_run-turns}
use distributed_nas.System.Commands.{system_run-left_by_all}
use distributed_nas.Pool.Rounds.{Covers}
use distributed_nas.System.Finishing.{moves_of}
use distributed_nas.System.Disconnecting.{system_run-disc}
use mathlib.Core.List.{flatten}
use distributed_nas.Nbd.Bytes.{le_bytes, be_bytes}
use distributed_nas.Nbd.Io.{got}
use distributed_nas.Nbd.Io.Reading.{Supplies}
use distributed_nas.Nbd.Server.{Server}
use distributed_nas.Nbd.Proxy.{nbd_cmd_disc}
use distributed_nas.Nbd.Proxy.Decoding.{encode_request}
use distributed_nas.System.Samples.{process, only, surroundings}

abbrev moves : List Move
moves =
    runs 0
    ∷ runs 1
    ∷ receives 0
    ∷ runs 0
    ∷ receives 0
    ∷ runs 1
    ∷ runs 1
    ∷ receives 0
    ∷ runs 0
    ∷ runs 0
    ∷ runs 0
    ∷ []

out_of_order-moves : map turn_of out_of_order ≡ schedule moves (thread_pool (pos 2)) [] 0
unfolding thread_pool create_thread step work work_at take_task take_from add_task compare_functor
    extract enqueue
out_of_order-moves = refl

system_run-turns_example :
    Agrees
      (Ended (actions_of 0 moves) (thread_pool (pos 2)))
      (system_run moves (system 2 start.server start.engine))
      (turns (schedule moves (thread_pool (pos 2)) [] 0) start)
system_run-turns_example = system_run-turns 2 moves start.server start.engine refl

system_run-left_by_all_example :
    (s : System Image) × (system_run moves (system 2 start.server start.engine) ≡ done s)
    × (s.server.file.content ≡ 90 ∷ 91 ∷ 12 ∷ 13 ∷ 92 ∷ 15 ∷ 16 ∷ 17 ∷ [])
    × (s.server.sent ≡ (device_run out_of_order start_device).answered)
    × AreWaiting [] s.pool
system_run-left_by_all_example =
    system_run-left_by_all image_disk 2 moves out_of_order start_device start.server start.engine
      refl out_of_order-moves
      (
        (refl, omega arith, omega arith, omega arith),
        (
          (refl, omega arith, omega arith, omega arith),
          ((refl, omega arith, omega arith, omega arith), tt),
        ),
      )
      ((inl (omega arith), (tt, tt)), ((tt, tt), (tt, tt))) refl refl start-StandsFor fed

flow1-runs_example :
    (p : NbdProxy) × (w : Watch) × (e : Engine Image) × (s' : Os) × (flow1
        (λ fd. file_memory image_disk)
        (λ fd socket. start.server)
        surroundings
        process
      ≡ (returned (done (p, w, system 6 start.server e)), s'))
    × (s'.open_fds ≡ 7 ∷ 6 ∷ 4 ∷ 5 ∷ 3 ∷ 2 ∷ 1 ∷ 0 ∷ [])
    × (w.m_dm ≡ some 0)
    × (run e.m_map (only 4 ∷ only 4 ∷ []) ≡ (4 ∷ []) ∷ (4 ∷ []) ∷ [])
flow1-runs_example =
    let (p, w, e, s', made, calls, fds, fd, watched, monitor, subscribed, tasks, served) =
      flow1-runs (λ fd. file_memory image_disk) (λ fd socket. start.server) surroundings process
        (λ c. refl) (only 4 ∷ only 4 ∷ []) in
    (p, w, e, s', made, fds, watched, served)

-- One of two threads turns twice, and then a disconnect command comes.
abbrev disconnected : Server Image
disconnected = record start.server { from_socket = got (request_of nbd_cmd_disc 0 0) ∷ [] }

supplied_disc : Supplies disconnected.from_socket (encode_request nbd_cmd_disc handle 0 0) []
unfolding be_bytes le_bytes flatten
supplied_disc = (request_of nbd_cmd_disc 0 0 ∷ [], (omega arith, tt), refl, refl)

abbrev rounds : List (List ℕ)
rounds = (0 ∷ 1 ∷ []) ∷ (1 ∷ 0 ∷ []) ∷ (0 ∷ 0 ∷ 1 ∷ []) ∷ (1 ∷ 0 ∷ []) ∷ []

rounds-Covers : All (Covers 2) rounds
rounds-Covers =
    ((refl, (refl, tt)), ((refl, (refl, tt)), ((refl, (refl, tt)), ((refl, (refl, tt)), tt))))

system_run-disc_example :
    system_run (runs 1 ∷ runs 1 ∷ receives 0 ∷ moves_of rounds) (system 2 disconnected start.engine)
    ≡ fault
system_run-disc_example =
    system_run-disc 1 0 (1 ∷ 1 ∷ []) rounds disconnected start.engine handle 0 0 [] refl
      rounds-Covers (omega arith) refl supplied_disc
