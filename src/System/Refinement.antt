-- ===== src/System/Refinement.antt =====
-- Runs of the system beside the turns of their schedules in the pipeline.
use distributed_nas.Base.{ℕ, ◌≡◌, refl, sym, subst, List, [], ◌∷◌, arith, length, pos, done, ◌∙◌}
use distributed_nas.Nbd.Server.{Server}
use distributed_nas.Engine.{ReTask, Engine}
use distributed_nas.Nbd.Pipeline.{turns}
use distributed_nas.Pool.{Pool, Action, step, run, thread_pool}
use distributed_nas.Pool.Tasks.{thread_pool-measure}
use distributed_nas.Pool.Runs.{thread_pool-Inv, run-done}
use distributed_nas.System.{System, Move, action_of, system_step, system_run, system}
use distributed_nas.System.Schedule.{
  pool_after, turns_of, pending_after, count_after, actions_of, schedule, turns-append,
}
use distributed_nas.System.Moves.{pipeline_of, Stands, pool-moves}
use distributed_nas.System.Agreement.{Agrees, After, Agrees-and_then, step-Agrees}

module _ {F : Type 0} where
  -- Some tasks of the engine wait in the pool.
  abbrev pub SomeWait : System F → List (ReTask F) → Type 0
  SomeWait s ts = (ks : List ℕ) × Stands s ks ts

  -- The pool is where its actions by themselves have led it.
  pub record Ended (acts : List Action) (p : Pool) (s : System F) (ts : List (ReTask F))
      : Type 0 where
    pub some_wait : SomeWait s ts
    pub pool_ran : run acts p ≡ done s.pool

  step-pool_after :
      (m : Move) (s : System F) (ks : List ℕ) (ts : List (ReTask F))
      → Stands s ks ts
      → step (action_of (length s.engine.m_tp) m) s.pool
        ≡ done (pool_after (action_of (length s.engine.m_tp) m) s.pool)
  step-pool_after m s ks ts v =
      let n = length s.engine.m_tp in
      let (q, e, _, _) = pool-moves n m s.pool ks v.excess v.all_waiting v.counted in
      e ∙ sym (rw (e, pool_after) refl)

  run-Agrees_all :
      (K : System F → List (ReTask F) → Type 0) (ms : List Move) (s : System F) (ks : List ℕ)
      (ts : List (ReTask F))
      → Stands s ks ts
      → ((u : System F) (us : List (ReTask F))
          → Ended (actions_of (length s.engine.m_tp) ms) s.pool u us
          → K u us)
      → Agrees K
          (system_run ms s)
          (turns (schedule ms s.pool ks (length s.engine.m_tp)) (pipeline_of s ts))
  unfolding system_run turns run
  run-Agrees_all K [] s ks ts v h =
      (ts, refl, h s ts (record { some_wait = (ks, v); pool_ran = refl }))
  run-Agrees_all K (m ∷ ms) s ks ts v h =
      let n = length s.engine.m_tp in
      let rest = actions_of (count_after n m) ms in
      let q = pool_after (action_of n m) s.pool in
      rw
        (turns-append (turns_of n m s.pool ks)
          (schedule ms q (pending_after n m s.pool ks) (count_after n m)) (pipeline_of s ts))
        (Agrees-and_then (After n m s.pool ks) K (system_run ms) _ (system_step m s) _
          (step-Agrees m s ks ts v)
          (λ s' us (same_pool, count, w).
            rw (sym same_pool, sym count)
              (run-Agrees_all K ms s' (pending_after n m s.pool ks) us w (λ u xs ended.
                h u xs (record {
                  some_wait = ended.some_wait;
                  pool_ran =
                      run-done (action_of n m) rest s.pool q (step-pool_after m s ks ts v)
                      ∙ subst (λ r. run rest r ≡ done u.pool) same_pool
                          (subst (λ i. run (actions_of i ms) s'.pool ≡ done u.pool) count
                            ended.pool_ran);
                })))))

  start-Stands :
      (threads : ℕ) (server : Server F) (e : Engine F)
      → e.m_tp ≡ []
      → Stands (system threads server e) [] []
  unfolding system
  start-Stands threads server e none_yet = record {
    same_tasks = tt;
    all_waiting = λ k. omega (arith, thread_pool-measure k threads);
    excess = 0;
    counted = thread_pool-Inv threads;
  }

  -- A server with any number of threads does in any run of its parts what the pipeline does in the
  -- turns of the run's schedule, whatever is paused, resumed, stopped or resized meanwhile: the run
  -- returns if the pipeline's turns do, then with the pipeline's device, with the pool that the run's
  -- actions on it alone lead to, and with the tasks of the pipeline in that pool's queue or in its
  -- threads' hands; it waits for its environment where they wait, and meets undefined behaviour where
  -- they do. A task runs whole.
  pub system_run-turns :
      (threads : ℕ) (ms : List Move) (server : Server F) (e : Engine F)
      → e.m_tp ≡ []
      → Agrees
          (Ended (actions_of 0 ms) (thread_pool (pos threads)))
          (system_run ms (system threads server e))
          (turns
            (schedule ms (thread_pool (pos threads)) [] 0)
            (record { server = server; engine = e }))
  unfolding system
  system_run-turns threads ms server e none_yet =
      subst
        (λ tp.
          Agrees (Ended (actions_of 0 ms) (thread_pool (pos threads)))
            (system_run ms (system threads server (record e { m_tp = tp })))
            (turns (schedule ms (thread_pool (pos threads)) [] 0)
              (record { server = server; engine = record e { m_tp = tp } })))
        (sym none_yet)
        (run-Agrees_all _ ms (system threads server (record e { m_tp = [] })) [] []
          (start-Stands threads server (record e { m_tp = [] }) refl) (λ u us ended. ended))
