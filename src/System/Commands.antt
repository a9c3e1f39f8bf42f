-- ===== src/System/Commands.antt =====
-- The server with its pool, as a block device: what a run of commands leaves on the disk.
use distributed_nas.Base.{
  ℕ, ◌≡◌, refl, sym, ap, ◌∙◌, subst, List, [], ◌∷◌, map, All, pos, length, Outcome, done, waiting,
  fault,
}
use distributed_nas.Nbd.Server.{Disk, Server}
use distributed_nas.Nbd.Blocks.{left_by_all, IsInRange}
use distributed_nas.Engine.{ReTask, Engine}
use distributed_nas.Nbd.Pipeline.{Pipeline, turns}
use distributed_nas.Nbd.Pipeline.Device.{Event, Device, device_run, FeedsRun}
use distributed_nas.Nbd.Pipeline.Simulation.{turn_of, task_for, StandsFor, turns-StandsFor}
use distributed_nas.Nbd.Pipeline.Commuting.{Pairwise, arrived, All-arrived, StandsFor-left_by_all}
use distributed_nas.Pool.{Pool, Action, thread_pool}
use distributed_nas.System.{System, Move, system_run, system}
use distributed_nas.System.Schedule.{actions_of, schedule}
use distributed_nas.System.Picking.{Holds}
use distributed_nas.System.Moves.{pipeline_of, AreWaiting}
use distributed_nas.System.Agreement.{Agrees}
use distributed_nas.System.Refinement.{Ended, system_run-turns}

Holds-nil : {A : Type 0} (log : List A) (ks : List ℕ) → Holds log ks [] → ks ≡ []
Holds-nil log [] h = refl
Holds-nil log (k ∷ ks) h = absurd h

module _ {F : Type 0} where
  Agrees-done :
      (K : System F → List (ReTask F) → Type 0) (r : Outcome (System F)) (p : Pipeline F)
      → Agrees K r (done p)
      → (s : System F) × (r ≡ done s) × (ts : List (ReTask F)) × (p ≡ pipeline_of s ts) × K s ts
  Agrees-done K (done s) p (ts, e, k) = (s, refl, ts, e, k)
  Agrees-done K waiting p a = absurd a
  Agrees-done K fault p a = absurd a

  nothing-waits :
      (acts : List Action) (p : Pool) (s : System F) (ts : List (ReTask F))
      → Ended acts p s ts
      → ts ≡ []
      → AreWaiting [] s.pool
  nothing-waits acts p s ts ended none_left =
      let (ks, v) = ended.some_wait in
      subst (λ js. AreWaiting js s.pool)
        (Holds-nil s.engine.m_tp ks (subst (Holds s.engine.m_tp ks) none_left v.same_tasks))
        v.all_waiting

-- A run on commands in range returns, with a device that stands where the block device stands after the
-- run's events, and with the pool that the run's actions on it lead to.
pub system_run-StandsFor :
    (disk : Disk) (threads : ℕ) (ms : List Move) (es : List Event) (d : Device)
    (server : Server disk.File) (e : Engine disk.File)
    → e.m_tp ≡ []
    → map turn_of es ≡ schedule ms (thread_pool (pos threads)) [] 0
    → All (IsInRange (length d.bytes)) (arrived es)
    → d.pending ≡ []
    → StandsFor disk d (record { server = server; engine = e })
    → FeedsRun es d server.from_socket server.from_file server.to_socket server.to_file
    → (s : System disk.File) × (system_run ms (system threads server e) ≡ done s)
      × (ts : List (ReTask disk.File)) × StandsFor disk (device_run es d) (pipeline_of s ts)
      × Ended (actions_of 0 ms) (thread_pool (pos threads)) s ts
system_run-StandsFor disk threads ms es d server e none_yet order r before v f =
    let p : Pipeline disk.File = record { server = server; engine = e } in
    let K = Ended (actions_of 0 ms) (thread_pool (pos threads)) in
    let (q, turned, w) =
      turns-StandsFor disk es d p (All-arrived (length d.bytes) es r) (rw before tt) v f in
    let agrees =
      subst (Agrees K (system_run ms (system threads server e)))
        (ap (λ us. turns us p) (sym order) ∙ turned)
        (system_run-turns threads ms server e none_yet) in
    let (s, ran, ts, same, ended) = Agrees-done K _ q agrees in
    (s, ran, ts, subst (StandsFor disk (device_run es d)) same w, ended)

-- If no two writes overlap, the number of the threads does not matter, nor which of them takes which
-- task: a run of the whole server on commands in range, in the order `es` that its schedule gives and
-- with no task left in it, returns; the file holds what the commands leave one after the other in the
-- order of their arrival, however the kernel cuts its calls; the socket got the answers of the block
-- device that serves `es`; and no task waits in the pool's queue or in a thread's hands. A task runs
-- whole.
pub system_run-left_by_all :
    (disk : Disk) (threads : ℕ) (ms : List Move) (es : List Event) (d : Device)
    (server : Server disk.File) (e : Engine disk.File)
    → e.m_tp ≡ []
    → map turn_of es ≡ schedule ms (thread_pool (pos threads)) [] 0
    → All (IsInRange (length d.bytes)) (arrived es)
    → Pairwise (arrived es)
    → d.pending ≡ []
    → (device_run es d).pending ≡ []
    → StandsFor disk d (record { server = server; engine = e })
    → FeedsRun es d server.from_socket server.from_file server.to_socket server.to_file
    → (s : System disk.File) × (system_run ms (system threads server e) ≡ done s)
      × (disk.bytes s.server.file ≡ left_by_all (disk.bytes server.file) (arrived es))
      × (s.server.sent ≡ (device_run es d).answered)
      × AreWaiting [] s.pool
system_run-left_by_all disk threads ms es d server e none_yet order r apart before after v f =
    let (s, ran, ts, w, ended) =
      system_run-StandsFor disk threads ms es d server e none_yet order r before v f in
    (
      s,
      ran,
      StandsFor-left_by_all disk es d _ (pipeline_of s ts) r apart before after v w,
      w.same_answers,
      nothing-waits _ _ s ts ended (w.same_tasks ∙ ap (map (task_for disk)) after),
    )
