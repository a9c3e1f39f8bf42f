-- ===== src/System.antt =====
-- The server whole: the device that reads requests (nbdproxy.cpp), the engine that makes a task of each
-- (framework/requestengine.hpp, `RequestCB`), and the pool whose threads run them
-- (DesignPatterns/ThreadPool/threadpool.cpp), as one state and the moves of the reader, of the threads
-- and of the pool's client, in any order.
pub mod Schedule
pub mod Picking
pub mod Moves
pub mod Agreement
pub mod Refinement
pub mod Commands
pub mod Flow
pub mod Serving
pub mod Answering
pub mod Finishing
pub mod Alone
pub mod Disconnecting
pub mod Samples
mod Rounds
mod Examples
use distributed_nas.Base.{
  ℕ, List, [], ◌∷◌, Option, none, some, ℤ, pos, Outcome, done, waiting, fault, get_elem?, length,
  and_then,
}
use distributed_nas.Nbd.Server.{Server}
use distributed_nas.Nbd.Proxy.{on_socket_ready}
use distributed_nas.Nbd.Handlers.{nbd_device, flow_factory}
use distributed_nas.Engine.{ReTask, Engine, request_cb, run_task}
use distributed_nas.Pool.{
  low, Pool, Action, works, wakes, adds, pauses, resumes, stops, sets, step, thread_pool,
}
use distributed_nas.Pool.Executing.{user_task}

-- The pool knows a task by its place in the engine's `m_tp`, which lists all that were handed to it.
pub record System (F : Type 0) : Type 0 where
  pub server : Server F
  pub engine : Engine F
  pub pool : Pool

-- `receives place`: the engine's loop finds the device's descriptor ready, and the queue keeps the task
-- at that place. `runs i`: thread `i` acts.
-- `wakens i`: it wakes unasked. The rest are calls of the pool's operations.
pub data Move : Type 0 where
  receives : ℕ → Move
  runs wakens : ℕ → Move
  pausing resuming stopping : Move
  resizing : ℤ → Move

-- What a move is to the pool, after `n` tasks.
abbrev pub action_of : ℕ → Move → Action
action_of n (receives place) = adds n low place
action_of n (runs i) = works i
action_of n (wakens i) = wakes i
action_of n pausing = pauses
action_of n resuming = resumes
action_of n stopping = stops
action_of n (resizing num) = sets num

module _ {F : Type 0} where
  -- `OnSocketReady`, which calls back `RequestCB`.
  unfoldable pub receive : System F → Outcome (Server F × Engine F)
  unfolding request_cb
  receive s =
      and_then (on_socket_ready s.server) (λ r. done (r.1, request_cb r.0 nbd_device s.engine))

  -- `(*tb)()`: a task runs whole.
  unfoldable pub run_logged : Option (ReTask F) → System F → Outcome (Server F × Engine F)
  unfolding run_task
  run_logged none s = fault
  run_logged (some task) s =
      and_then (run_task flow_factory task s.server) (λ r. done (r.1, s.engine))

  unfoldable pub run_user : Option ℕ → System F → Outcome (Server F × Engine F)
  unfolding run_logged
  run_user none s = done (s.server, s.engine)
  run_user (some k) s = run_logged (get_elem? s.engine.m_tp k) s

  -- What a move does outside the pool.
  unfoldable pub serve_move : Move → System F → Outcome (Server F × Engine F)
  unfolding receive run_user
  serve_move (receives place) s = receive s
  serve_move (runs i) s = run_user (user_task (get_elem? s.pool.threads i)) s
  serve_move m s = done (s.server, s.engine)

  unfoldable pub system_step : Move → System F → Outcome (System F)
  unfolding serve_move step
  system_step m s = and_then (serve_move m s) (λ r.
      and_then (step (action_of (length s.engine.m_tp) m) s.pool)
        (λ q. done (record { server = r.0; engine = r.1; pool = q })))

  unfoldable pub system_run : List Move → System F → Outcome (System F)
  unfolding system_step
  system_run [] s = done s
  system_run (m ∷ ms) s = and_then (system_step m s) (system_run ms)

  -- An engine with `threads` threads.
  unfoldable pub system : ℕ → Server F → Engine F → System F
  unfolding thread_pool
  system threads server engine = record {
    server = server;
    engine = engine;
    pool = thread_pool (pos threads);
  }
