-- ===== src/Engine/Loop/Rounds.antt =====
-- Whom the `select` loop serves in every round, against a loop that keeps no set.
use distributed_nas.Base.{ℕ, ◌<◌, ◌≡◌, refl, ap₂, true, ◌&&◌, List, [], ◌∷◌, arith}
use distributed_nas.Base.Map.{Map, IsSorted}
use distributed_nas.Engine.Loop.{FdSet, fd_zero, fill, select, rounds, run}
use distributed_nas.Engine.Loop.Laws.{has, ready_keys, fill-has, below_biggest, serve_ready-agree}

-- Who was ready in a round and in those before.
abbrev pub and_now : FdSet → FdSet → FdSet
and_now before now fd = before fd && now fd

abbrev pub everyone : FdSet
everyone fd = true

module _ {ℓ} {D : Type ℓ} where
  -- In each round the devices that were ready in it and in all rounds before.
  abbrev pub ready_so_far : Map D → FdSet → List FdSet → List (List ℕ)
  ready_so_far m before [] = []
  ready_so_far m before (now ∷ later) =
      ready_keys (and_now before now) m ∷ ready_so_far m (and_now before now) later

  rounds-ready_so_far :
      (m : Map D) (b : ℕ) (set before : FdSet) (readies : List FdSet)
      → ((fd : ℕ) → has fd m ≡ true → (set fd ≡ before fd) × (fd < b))
      → rounds m b set readies ≡ ready_so_far m before readies
  unfolding rounds select
  rounds-ready_so_far m b set before [] h = refl
  rounds-ready_so_far m b set before (now ∷ later) h =
      ap₂ (λ x xs. x ∷ xs)
        (serve_ready-agree (select b now set) (and_now before now) m
          (λ fd q. let (e, below) = h fd q in ground (arith, e, below)))
        (rounds-ready_so_far m b (select b now set) (and_now before now) later
          (λ fd q. let (e, below) = h fd q in (ground (arith, e, below), below)))

  -- Whatever is ready in which round, the loop serves in each round, in the order of their
  -- descriptors, the devices that are ready in it and were ready in every round before it: no other,
  -- and none of them is missed.
  pub run-ready_so_far :
      (m : Map D) (readies : List FdSet)
      → IsSorted m
      → run m readies ≡ ready_so_far m everyone readies
  unfolding run
  run-ready_so_far m readies s =
      rounds-ready_so_far m (fill m (fd_zero, 0)).1 (fill m (fd_zero, 0)).0 everyone readies
        (λ fd q. (ground (arith, q, fill-has m fd_zero 0 fd), below_biggest m fd s q))
