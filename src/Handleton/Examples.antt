-- ===== src/Handleton/Examples.antt =====
-- Two calls of `GetInstance` that race.
use distributed_nas.Base.{ℕ, ◌≤◌, ◌≡◌, refl, true, List, [], ◌∷◌, Option, some, done}
use distributed_nas.Handleton.{starts, returned, Handleton, handleton, get_instance_at, run}
use distributed_nas.Handleton.Once.{run-once}
use distributed_nas.Handleton.Destroying.{dead_beef, destroy_instance, run-destroy_instance}

abbrev racing : List ℕ
racing = 0 ∷ 1 ∷ 0 ∷ 1 ∷ 1 ∷ 0 ∷ 1 ∷ 0 ∷ 1 ∷ 0 ∷ []

second_returned : (run racing handleton).callers 1 ≡ returned (some 0)
unfolding run handleton get_instance_at
second_returned = refl

run-once_example :
    (◌≡◌ {A = Option ℕ} (some 0) (some 0))
    × ((run racing handleton).made ≤ 1)
    × ((run racing handleton).the_object ≡ some 0)
run-once_example = run-once racing 1 (some 0) second_returned

ready_after_racing : (run racing handleton).sv_is_ready ≡ true
unfolding run handleton get_instance_at
ready_after_racing = refl

third_starts : (run racing handleton).callers 2 ≡ starts
unfolding run handleton get_instance_at
third_starts = refl

run-destroy_instance_example :
    (s : Handleton) × (destroy_instance (run racing handleton) ≡ done (some 0, s))
    × ((run racing handleton).made ≤ 1)
    × ((run (2 ∷ []) s).callers 2 ≡ returned (some dead_beef))
run-destroy_instance_example = run-destroy_instance racing 2 ready_after_racing third_starts
