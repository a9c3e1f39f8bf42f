-- ===== src/Queue/Examples.antt =====
-- Waits on an empty queue of numbers, of which the smallest leaves first.
use distributed_nas.Base.{ℕ, ◌<◌, ◌≤◌, length, arith, ◌≡◌, refl, Bool, List, [], ◌∷◌, ltb}
use distributed_nas.Queue.{extract, enqueue}
use distributed_nas.Queue.Consumers.{
  Step, moves, enqueues, shared, shared_run, shared_step, notify_one, move_at, take_or_wait,
}
use distributed_nas.Queue.Consumers.Waking.{sleeping, woken, shared_run-woken}

abbrev greater : ℕ → ℕ → Bool
greater x y = ltb y x

-- Not the one in front.
smallest : extract greater 3 (1 ∷ 2 ∷ []) ≡ (1, 3 ∷ 2 ∷ [])
unfolding extract
smallest = refl

-- Two threads wait, an element comes, and a third thread takes it before the one that was woken.
abbrev overtaken : List (Step ℕ)
overtaken = moves 0 ∷ moves 1 ∷ enqueues 0 5 1 ∷ moves 2 ∷ enqueues 1 6 0 ∷ moves 1 ∷ moves 3 ∷ []

still_sleeping : 0 < sleeping (shared_run greater overtaken (shared 4))
unfolding shared_run shared_step notify_one move_at take_or_wait extract enqueue
still_sleeping = omega arith

shared_run-woken_example :
    length (shared_run greater overtaken (shared 4)).m_pq
    ≤ woken (shared_run greater overtaken (shared 4))
shared_run-woken_example = shared_run-woken greater 4 overtaken still_sleeping
