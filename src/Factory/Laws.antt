-- ===== src/Factory/Laws.antt =====
-- What a factory creates after a registration.
use distributed_nas.Base.{ℕ, ◌≡◌, ◌&&◌, some, ◌==◌, if◌then◌else◌, arith}
use distributed_nas.Base.Map.{IsSorted, find-insert, insert-IsSorted}
use distributed_nas.Factory.{Factory, add, create}

module _ {T P : Type 0} (k : ℕ) (f : P → T) (m : Factory T P) where
  -- `Add` puts a function under a key that is new, and reports it; a key that is taken keeps its
  -- function, and so does every other key. For a map in the order of its keys, as `std::map` is.
  pub create-add :
      (j : ℕ) (p : P)
      → IsSorted m
      → create j p (add k f m).1 ≡ (if k == j && (add k f m).0 then some (f p) else create j p m)
  unfolding create add
  create-add j p s = rw (find-insert k j f m s) (ground arith)

  pub add-IsSorted : IsSorted m → IsSorted (add k f m).1
  unfolding add
  add-IsSorted s = insert-IsSorted k f m s
