-- ===== src/Singleton/Examples.antt =====
-- Two calls of `instance` that race.
use distributed_nas.Base.{ℕ, ◌-◌, ◌<◌, ◌≡◌, refl, false, List, [], ◌∷◌, some}
use distributed_nas.Singleton.{returned, single, instance_at, run}
use distributed_nas.Singleton.Races.{run-safe}

-- Call 1 tries the mutex twice while call 0 is in it.
abbrev racing : List ℕ
racing = 0 ∷ 1 ∷ 0 ∷ 1 ∷ 0 ∷ 0 ∷ 1 ∷ 0 ∷ 1 ∷ 1 ∷ 1 ∷ 1 ∷ []

first_returned : (run racing single).callers 0 ≡ returned 0
unfolding run single instance_at
first_returned = refl

second_returned : (run racing single).callers 1 ≡ returned 1
unfolding run single instance_at
second_returned = refl

unlocked : (run racing single).m_mutex ≡ false
unfolding run single instance_at
unlocked = refl

run-safe_example :
    (0 < (run racing single).made)
    × ((run racing single).m_instance ≡ some ((run racing single).made - 1))
run-safe_example = run-safe racing 0 0 first_returned unlocked
