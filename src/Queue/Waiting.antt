-- ===== src/Queue/Waiting.antt =====
-- What both forms of `Dequeue` return, and when.
use mathlib.Core.List.{Perm}
use distributed_nas.Base.{
  ℕ, zero, suc, ◌≡◌, refl, List, [], ◌∷◌, ◌++◌, Bool, none, some, replicate, done,
}
use distributed_nas.Queue.{Wake, timeout, notified, extract, dequeue, dequeue_for}
use distributed_nas.Queue.Order.{StrictWeakOrder, IsFirst, extract-perm, extract-IsFirst}

module _ {ℓ} {A : Type ℓ} (comp : A → A → Bool) (o : StrictWeakOrder comp) where
  -- `r` is an element of the queue that none of the others comes before, with the others.
  pub record Takes (q : List A) (r : A × List A) : Type ℓ where
    pub same : Perm q (r.0 ∷ r.1)
    pub first : IsFirst comp r.0 r.1

  pub extract-Takes : (x : A) (q : List A) → Takes (x ∷ q) (extract comp x q)
  extract-Takes x q = record {
    same = extract-perm comp x q;
    first = (extract-IsFirst comp o x q).1;
  }

  -- The blocking `Dequeue` on an empty queue returns at the first wake-up that finds an element,
  -- however many wake-ups before found none, and takes from the queue an element that no other one
  -- comes before, and only it.
  pub dequeue-Takes :
      (k : ℕ) (x : A) (q : List A) (wakes : List (List A))
      → (r : A × List A) × (dequeue comp [] (replicate k [] ++ (x ∷ q) ∷ wakes) ≡ done r)
        × Takes (x ∷ q) r
  unfolding dequeue
  dequeue-Takes zero x q wakes = (extract comp x q, refl, extract-Takes x q)
  dequeue-Takes (suc k) x q wakes = dequeue-Takes k x q wakes

  -- The `Dequeue` with a duration, on an empty queue, after any number of wake-ups that found none:
  -- when the time is up it returns false and takes nothing, and at a wake-up that finds an element
  -- it takes one that no other comes before.
  pub dequeue_for-Takes :
      (k : ℕ) (x : A) (q : List A) (wakes : List (Wake A))
      → (dequeue_for comp [] (replicate k (notified []) ++ timeout ∷ wakes) ≡ done none)
        × ((r : A × List A) × (dequeue_for comp []
                (replicate k (notified []) ++ notified (x ∷ q) ∷ wakes)
              ≡ done (some r))
            × Takes (x ∷ q) r)
  unfolding dequeue_for
  dequeue_for-Takes zero x q wakes = (refl, (extract comp x q, refl, extract-Takes x q))
  dequeue_for-Takes (suc k) x q wakes = dequeue_for-Takes k x q wakes
