-- ===== src/Base/Map.antt =====
-- `std::map` with numbers for keys: a list of pairs, in the order of the keys.
use Prim.Native.Nat.{ℕ, ◌≤◌, ◌<◌}
use mathlib.Core.Path.{◌≡◌, refl}
use mathlib.Core.Bool.{Bool, true, false, ◌&&◌}
use mathlib.Core.Option.{Option, none, some}
use mathlib.Core.List.{List, [], ◌∷◌}
use native.Mathlib.Omega.{arith}
use distributed_nas.Base.Tests.{ltb, ◌==◌, if◌then◌else◌}

abbrev pub Map {ℓ} : Type ℓ → Type ℓ
Map V = List (ℕ × V)

module _ {ℓ} {V : Type ℓ} where
  -- `find`; `none` is the iterator `end()`.
  abbrev pub find : ℕ → Map V → Option V
  find k [] = none
  find k ((j, v) ∷ m) = if j == k then some v else find k m

  -- `insert(pair)` adds a pair only where the key is new.
  abbrev pub insert : ℕ → V → Map V → Map V
  insert k v [] = (k, v) ∷ []
  insert k v ((j, w) ∷ m) =
      if j == k then (j, w) ∷ m else if ltb k j then (k, v) ∷ (j, w) ∷ m else (j, w) ∷ insert k v m

  -- The `second` of what `insert` returns.
  abbrev pub is_new : ℕ → Map V → Bool
  is_new k m = elim (find k m) [ none ↦ true | some v ↦ false ]

  -- `erase` of the pair at a key.
  abbrev pub erase : ℕ → Map V → Map V
  erase k [] = []
  erase k ((j, v) ∷ m) = if j == k then m else (j, v) ∷ erase k m

  -- The keys rise, and lie above a bound.
  abbrev pub Above : ℕ → Map V → Type 0
  Above b [] = Unit
  Above b ((k, v) ∷ m) = (b < k) × Above k m

  abbrev pub IsSorted : Map V → Type 0
  IsSorted [] = Unit
  IsSorted ((k, v) ∷ m) = Above k m

  Above-mono : (a b : ℕ) (m : Map V) → a ≤ b → Above b m → Above a m
  Above-mono a b [] h s = tt
  Above-mono a b ((k, v) ∷ m) h s = (omega arith, s.1)

  find-Above : (k b : ℕ) (m : Map V) → Above b m → k ≤ b → find k m ≡ none
  find-Above k b [] s h = refl
  find-Above k b ((j, v) ∷ m) s h = ground (arith, find-Above k j m s.1)

  Above-insert : (b k : ℕ) (v : V) (m : Map V) → b < k → Above b m → Above b (insert k v m)
  Above-insert b k v [] h s = (omega arith, tt)
  Above-insert b k v ((j, w) ∷ m) h s = ground (arith, Above-insert j k v m)

  pub insert-IsSorted : (k : ℕ) (v : V) (m : Map V) → IsSorted m → IsSorted (insert k v m)
  insert-IsSorted k v [] s = tt
  insert-IsSorted k v ((j, w) ∷ m) s = ground (arith, Above-insert j k v m)

  Above-erase : (b k : ℕ) (m : Map V) → Above b m → Above b (erase k m)
  Above-erase b k [] s = tt
  Above-erase b k ((j, v) ∷ m) s = ground (arith, Above-erase j k m, Above-mono b j m)

  pub erase-IsSorted : (k : ℕ) (m : Map V) → IsSorted m → IsSorted (erase k m)
  erase-IsSorted k [] s = tt
  erase-IsSorted k ((j, v) ∷ []) s = ground arith
  erase-IsSorted k ((j, v) ∷ (i, w) ∷ m) s = ground (arith, Above-erase j k ((i, w) ∷ m))

  pub find-insert :
      (k j : ℕ) (v : V) (m : Map V)
      → IsSorted m
      → find j (insert k v m) ≡ (if k == j && is_new k m then some v else find j m)
  find-insert k j v [] s = ground arith
  find-insert k j v ((i, w) ∷ []) s = ground arith
  find-insert k j v ((i, w) ∷ (h, u) ∷ m) s =
      ground (arith, find-Above k i ((h, u) ∷ m) s, find-insert k j v ((h, u) ∷ m) s.1)

  pub find-erase :
      (k j : ℕ) (m : Map V) → IsSorted m → find j (erase k m) ≡ (if k == j then none else find j m)
  find-erase k j [] s = ground arith
  find-erase k j ((i, w) ∷ []) s = ground arith
  find-erase k j ((i, w) ∷ (h, u) ∷ m) s =
      ground (arith, find-Above k i ((h, u) ∷ m) s, find-erase k j ((h, u) ∷ m) s.1)
