-- ===== src/System/Answering.antt =====
-- The commands that arrive at a server of which one thread keeps working.
use distributed_nas.Base.{
  ℕ, zero, suc, ◌+◌, ◌≡◌, refl, sym, ap, ◌∙◌, List, [], ◌∷◌, ◌++◌, map, some, arith, length,
  length-append, replicate, All, done,
}
use distributed_nas.Nbd.Server.{Disk, Server}
use distributed_nas.Nbd.Blocks.{BlockCommand, left_by_all, IsInRange}
use distributed_nas.Engine.{Engine}
use distributed_nas.Nbd.Pipeline.{arrives, works, pick}
use distributed_nas.Nbd.Pipeline.Device.{
  Event, arrival, service, Device, serve_picked, device_run, FeedsRun,
}
use distributed_nas.Nbd.Pipeline.Simulation.{turn_of, StandsFor}
use distributed_nas.Nbd.Pipeline.Commuting.{Pairwise, arrived}
use distributed_nas.System.{System, system_run, system}
use distributed_nas.System.Moves.{AreWaiting}
use distributed_nas.System.Commands.{system_run-left_by_all}
use distributed_nas.System.Serving.{works_down, served_by_one, schedule-served_by_one}

abbrev pub services_down : ℕ → List Event
services_down zero = []
services_down (suc m) = service m ∷ services_down m

-- The commands arrive, and are served the last one first.
abbrev pub all_served : List BlockCommand → List Event
all_served cs = map arrival cs ++ services_down (length cs)

turn_of-services_down : (m : ℕ) → map turn_of (services_down m) ≡ works_down m
turn_of-services_down zero = refl
turn_of-services_down (suc m) = ap (◌∷◌ (works m)) (turn_of-services_down m)

turn_of-arrival :
    (cs : List BlockCommand) (m : ℕ)
    → map turn_of (map arrival cs ++ services_down m)
      ≡ replicate (length cs) arrives ++ works_down m
turn_of-arrival [] m = turn_of-services_down m
turn_of-arrival (c ∷ cs) m = ap (◌∷◌ arrives) (turn_of-arrival cs m)

arrived-services_down : (m : ℕ) → arrived (services_down m) ≡ []
arrived-services_down zero = refl
arrived-services_down (suc m) = arrived-services_down m

arrived-arrival :
    (cs : List BlockCommand) (m : ℕ) → arrived (map arrival cs ++ services_down m) ≡ cs
arrived-arrival [] m = arrived-services_down m
arrived-arrival (c ∷ cs) m = ap (◌∷◌ c) (arrived-arrival cs m)

pick-last :
    (m : ℕ) (cs : List BlockCommand)
    → length cs ≡ suc m
    → (c : BlockCommand) × (rest : List BlockCommand) × (pick m cs ≡ some (c, rest))
      × (length rest ≡ m)
pick-last m [] h = absurd (omega arith)
pick-last zero (c ∷ cs) h = (c, cs, refl, omega arith)
pick-last (suc m) (c ∷ cs) h =
    let (b, rest, e, l) = pick-last m cs (omega arith) in (b, c ∷ rest, rw e refl, ap suc l)

length-nil : (cs : List BlockCommand) → length cs ≡ 0 → cs ≡ []
length-nil [] h = refl
length-nil (c ∷ cs) h = absurd (omega arith)

services_down-pending :
    (m : ℕ) (d : Device) → length d.pending ≡ m → (device_run (services_down m) d).pending ≡ []
services_down-pending zero d h = length-nil d.pending h
services_down-pending (suc m) d h =
    let (c, rest, e, l) = pick-last m d.pending h in
    ap (λ o. (device_run (services_down m) (serve_picked o d)).pending) e
    ∙ services_down-pending m (serve_picked (some (c, rest)) d) l

arrival-pending :
    (cs : List BlockCommand) (m : ℕ) (d : Device)
    → length d.pending + length cs ≡ m
    → (device_run (map arrival cs ++ services_down m) d).pending ≡ []
arrival-pending [] m d h = services_down-pending m d (omega (arith, h))
arrival-pending (c ∷ cs) m d h =
    arrival-pending cs m (record d { pending = d.pending ++ c ∷ [] })
      (omega (arith, h, length-append d.pending (c ∷ [])))

-- A server with at least one thread, of which one keeps working, serves every command: when
-- commands in range have arrived whose writes do not overlap, a turn for that thread to come to its
-- loop and two for each command are enough. The run then has returned, the file holds what the
-- commands leave one after the other in the order of their arrival, though the thread takes the
-- last one first; the socket got the answers of a block device that serves them the last one first;
-- and no task waits. The calls do what such a run asks of them, and a task runs whole.
pub system_run-serves :
    (disk : Disk) (t : ℕ) (cs : List BlockCommand) (d : Device) (server : Server disk.File)
    (e : Engine disk.File)
    → e.m_tp ≡ []
    → All (IsInRange (length d.bytes)) cs
    → Pairwise cs
    → d.pending ≡ []
    → StandsFor disk d (record { server = server; engine = e })
    → FeedsRun (all_served cs) d server.from_socket server.from_file server.to_socket server.to_file
    → (s : System disk.File) × (system_run (served_by_one (length cs)) (system (suc t) server e)
        ≡ done s)
      × (disk.bytes s.server.file ≡ left_by_all (disk.bytes server.file) cs)
      × (s.server.sent ≡ (device_run (all_served cs) d).answered)
      × AreWaiting [] s.pool
system_run-serves disk t cs d server e none_yet r apart before v f =
    let m = length cs in
    let same = arrived-arrival cs m in
    let (s, ran, bytes, answers, idle) =
      system_run-left_by_all disk (suc t) (served_by_one m) (all_served cs) d server e none_yet
        (turn_of-arrival cs m ∙ sym (schedule-served_by_one t m)) (rw same r) (rw same apart) before
        (arrival-pending cs m d (omega (arith, ap length before))) v f in
    (s, ran, bytes ∙ ap (left_by_all (disk.bytes server.file)) same, answers, idle)
