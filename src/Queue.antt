-- ===== src/Queue.antt =====
-- DesignPatterns/ThreadPool/waitablequeue/waitablequeue.hpp over a `std::priority_queue`, which is a
-- list here. Of elements that the order leaves equal the standard names no first one: it is the one
-- that stands first in the list, where `Enqueue` puts an element at any place, an argument. A method runs under the queue's mutex but where it waits.
mod Examples
pub mod Order
pub mod Leaving
pub mod Waiting
pub mod Consumers
use distributed_nas.Base.{
  ℕ, Bool, true, false, List, [], ◌∷◌, Option, none, some, if◌then◌else◌, length, insert_at,
  Outcome, done, waiting,
}

-- What a wait ends with: the time is up, or a wake-up, after which the queue holds these.
pub data Wake {ℓ} (A : Type ℓ) : Type ℓ where
  timeout : Wake A
  notified : List A → Wake A

module _ {ℓ} {A : Type ℓ} where
  unfoldable pub size : List A → ℕ
  size q = length q

  unfoldable pub is_empty : List A → Bool
  is_empty [] = true
  is_empty (x ∷ q) = false

  -- The place is the library's choice; what the order leaves equal leaves in the order of the list.
  unfoldable pub enqueue : ℕ → A → List A → List A × Bool
  enqueue place x q = (insert_at place x q, true)

-- `comp x y` says that `y` leaves before `x`, as the third argument of `priority_queue` does.
module _ {ℓ} {A : Type ℓ} (comp : A → A → Bool) where
  -- `top` and `pop` of a queue with an element.
  unfoldable pub extract : A → List A → A × List A
  extract x [] = (x, [])
  extract x (y ∷ ys) =
      let r = extract (if comp x y then y else x) ys in (r.0, (if comp x y then x else y) ∷ r.1)

  -- The blocking `Dequeue`, with what the queue holds at each wake-up.
  unfoldable pub dequeue : List A → List (List A) → Outcome (A × List A)
  unfolding extract
  dequeue (x ∷ q) wakes = done (extract x q)
  dequeue [] [] = waiting
  dequeue [] (q ∷ wakes) = dequeue q wakes

  -- The `Dequeue` with a duration: `none` is its result `false`.
  unfoldable pub dequeue_for : List A → List (Wake A) → Outcome (Option (A × List A))
  unfolding extract
  dequeue_for (x ∷ q) wakes = done (some (extract x q))
  dequeue_for [] [] = waiting
  dequeue_for [] (timeout ∷ wakes) = done none
  dequeue_for [] (notified q ∷ wakes) = dequeue_for q wakes
