-- ===== src/System/Finishing.antt =====
-- The commands that arrive at a server whose threads all get turns.
use distributed_nas.Base.{
  ℕ, suc, ◌+◌, ◌*◌, ◌≤◌, ◌≡◌, refl, sym, ap, ◌∙◌, subst, List, [], ◌∷◌, ◌++◌, map, arith, length,
  total, All, pos, done, ==_refl,
}
use distributed_nas.Nbd.Server.{Disk, Server}
use distributed_nas.Nbd.Blocks.{left_by_all, IsInRange}
use distributed_nas.Engine.{ReTask, Engine}
use distributed_nas.Nbd.Pipeline.Device.{Event, Device, device_run, FeedsRun}
use distributed_nas.Nbd.Pipeline.Simulation.{turn_of, task_for, StandsFor}
use distributed_nas.Nbd.Pipeline.Commuting.{Pairwise, arrived, StandsFor-left_by_all}
use distributed_nas.Pool.{Pool, Action, works, run, thread_pool}
use distributed_nas.Pool.Tally.{ran, queued, held}
use distributed_nas.Pool.Rounds.{Covers, turns_of}
use distributed_nas.Pool.Finishing.{
  IsService, submissions, IsFinished, held-idle, thread_pool-finishes,
}
use distributed_nas.System.{
  System, Move, receives, runs, wakens, pausing, resuming, stopping, resizing, action_of,
  system_run, system,
}
use distributed_nas.System.Schedule.{count_after, actions_of, schedule}
use distributed_nas.System.Picking.{Holds}
use distributed_nas.System.Moves.{pipeline_of, AreWaiting}
use distributed_nas.System.Refinement.{Ended}
use distributed_nas.System.Commands.{system_run-StandsFor}

-- A request arrives or a thread has a turn.
abbrev pub IsServing : Move → Type 0
IsServing (receives place) = Unit
IsServing (runs i) = Unit
IsServing m = ⊥

-- How many requests arrive.
abbrev pub arrivals : List Move → ℕ
arrivals [] = 0
arrivals (receives place ∷ ms) = suc (arrivals ms)
arrivals (m ∷ ms) = arrivals ms

-- Rounds of turns of the threads.
abbrev pub moves_of : List (List ℕ) → List Move
moves_of [] = []
moves_of (round ∷ rounds) = map runs round ++ moves_of rounds

actions_of-runs :
    (n : ℕ) (is : List ℕ) (ms : List Move)
    → actions_of n (map runs is ++ ms) ≡ map works is ++ actions_of n ms
actions_of-runs n [] ms = refl
actions_of-runs n (i ∷ is) ms = ap (◌∷◌ (works i)) (actions_of-runs n is ms)

actions_of-moves_of :
    (n : ℕ) (ms : List Move) (rounds : List (List ℕ))
    → actions_of n (ms ++ moves_of rounds) ≡ actions_of n ms ++ turns_of rounds
actions_of-moves_of n [] [] = refl
actions_of-moves_of n [] (is ∷ rounds) =
    actions_of-runs n is (moves_of rounds)
    ∙ ap (λ acts. map works is ++ acts) (actions_of-moves_of n [] rounds)
actions_of-moves_of n (m ∷ ms) rounds =
    ap (◌∷◌ (action_of n m)) (actions_of-moves_of (count_after n m) ms rounds)

-- To the pool they are tasks that are added and turns.
serving-IsService :
    (n : ℕ) (ms : List Move)
    → All IsServing ms
    → All IsService (actions_of n ms) × (submissions (actions_of n ms) ≡ arrivals ms)
serving-IsService n [] h = (tt, refl)
serving-IsService n (receives place ∷ ms) (h, hs) =
    let (s, e) = serving-IsService (suc n) ms hs in ((tt, s), ap suc e)
serving-IsService n (runs i ∷ ms) (h, hs) = let (s, e) = serving-IsService n ms hs in ((tt, s), e)
serving-IsService n (wakens i ∷ ms) (h, hs) = absurd h
serving-IsService n (pausing ∷ ms) (h, hs) = absurd h
serving-IsService n (resuming ∷ ms) (h, hs) = absurd h
serving-IsService n (stopping ∷ ms) (h, hs) = absurd h
serving-IsService n (resizing num ∷ ms) (h, hs) = absurd h

-- In a pool that has finished no task waits.
finished-waiting : (ks : List ℕ) (p : Pool) → AreWaiting ks p → IsFinished p → ks ≡ []
finished-waiting [] p w v = refl
finished-waiting (k ∷ ks) p w v =
    let one : ran k (k ∷ []) ≡ 1 = rw (==_refl k) (omega arith) in
    let waits : ran k (k ∷ ks) ≡ queued k p.m_wq + total (held k) p.threads = w k in
    absurd (omega (arith, one, waits, ap (queued k) v.emptied, held-idle k p.threads v.at_loop))

map-nil : {A B : Type 0} (f : A → B) (xs : List A) → map f xs ≡ [] → xs ≡ []
map-nil f [] e = refl
map-nil f (x ∷ xs) e = cc

module _ {F : Type 0} where
  Holds-nil : (log : List (ReTask F)) (ts : List (ReTask F)) → Holds log [] ts → ts ≡ []
  Holds-nil log [] h = refl
  Holds-nil log (t ∷ ts) h = absurd h

  finished-tasks :
      (acts : List Action) (p : Pool) (s : System F) (ts : List (ReTask F))
      → Ended acts p s ts
      → IsFinished s.pool
      → ts ≡ []
  finished-tasks acts p s ts ended v =
      let (ks, w) = ended.some_wait in
      let none_wait = finished-waiting ks s.pool w.all_waiting v in
      Holds-nil s.engine.m_tp ts (subst (λ js. Holds s.engine.m_tp js ts) none_wait w.same_tasks)

-- A server with at least one thread serves every command, whichever threads take it. Commands in range
-- arrive whose writes do not overlap, and threads have turns meanwhile, all in any order; then come a
-- round for each thread and two for each command at least, in each of which every thread has a turn,
-- at any place and any number of times. The run then has returned, the file holds what the commands
-- leave one after the other in the order of their arrival, the socket got the answers of a block device
-- that serves them in the order `es` of the run's schedule, no task waits in the pool's queue, and
-- every thread is at its loop. The calls do what such a run asks of them, and a task runs whole.
pub system_run-finishes :
    (disk : Disk) (t : ℕ) (ms : List Move) (rounds : List (List ℕ)) (es : List Event) (d : Device)
    (server : Server disk.File) (e : Engine disk.File)
    → e.m_tp ≡ []
    → All IsServing ms
    → All (Covers (suc t)) rounds
    → suc t + 2 * arrivals ms ≤ length rounds
    → map turn_of es ≡ schedule (ms ++ moves_of rounds) (thread_pool (pos (suc t))) [] 0
    → All (IsInRange (length d.bytes)) (arrived es)
    → Pairwise (arrived es)
    → d.pending ≡ []
    → StandsFor disk d (record { server = server; engine = e })
    → FeedsRun es d server.from_socket server.from_file server.to_socket server.to_file
    → (s : System disk.File) × (system_run (ms ++ moves_of rounds) (system (suc t) server e)
        ≡ done s)
      × (disk.bytes s.server.file ≡ left_by_all (disk.bytes server.file) (arrived es))
      × (s.server.sent ≡ (device_run es d).answered)
      × IsFinished s.pool
system_run-finishes disk t ms rounds es d server e none_yet serving c enough order r apart before v
      f =
    let start = thread_pool (pos (suc t)) in
    let acts = actions_of 0 ms in
    let (services, count) = serving-IsService 0 ms serving in
    let (q, finished, done_with, _) =
      thread_pool-finishes t acts rounds services c (omega (arith, enough, count)) in
    let (s, ran, ts, w, ended) =
      system_run-StandsFor disk (suc t) (ms ++ moves_of rounds) es d server e none_yet order r
        before v f in
    let same_pool : done q ≡ done s.pool =
      sym finished
      ∙ ap (λ bs. run bs start) (sym (actions_of-moves_of 0 ms rounds))
      ∙ ended.pool_ran in
    let same : q ≡ s.pool = cc in
    let idle = subst IsFinished same done_with in
    let after = map-nil (task_for disk) _ (sym w.same_tasks ∙ finished-tasks _ _ s ts ended idle) in
    (
      s,
      ran,
      StandsFor-left_by_all disk es d _ (pipeline_of s ts) r apart before after v w,
      w.same_answers,
      idle,
    )
