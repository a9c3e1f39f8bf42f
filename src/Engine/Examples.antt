-- ===== src/Engine/Examples.antt =====
-- Two devices in two rounds: the second one is ready in both, the first one only in the second.
use distributed_nas.Base.{ℕ, ◌≡◌, [], ◌∷◌, ◌==◌, arith}
use distributed_nas.Base.Map.{Map}
use distributed_nas.Engine.Loop.{FdSet, run}
use distributed_nas.Engine.Loop.Rounds.{everyone, ready_so_far, run-ready_so_far}

abbrev devices : Map ℕ
devices = (3, 0) ∷ (5, 1) ∷ []

abbrev only : ℕ → FdSet
only fd j = j == fd

run-ready_so_far_example :
    run devices (only 5 ∷ only 3 ∷ []) ≡ ready_so_far devices everyone (only 5 ∷ only 3 ∷ [])
run-ready_so_far_example = run-ready_so_far devices (only 5 ∷ only 3 ∷ []) (omega arith, tt)
