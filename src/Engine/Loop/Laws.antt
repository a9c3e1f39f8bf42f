-- ===== src/Engine/Loop/Laws.antt =====
-- Whom the `select` loop serves.
use distributed_nas.Base.{
  ℕ, ◌+◌, ◌<◌, ◌≡◌, refl, ap, ◌∙◌, Bool, true, false, ◌||◌, List, [], ◌∷◌, arith, ◌==◌,
  if◌then◌else◌, All, Bool-cases, inl, inr,
}
use distributed_nas.Base.Map.{Map, Above, IsSorted}
use distributed_nas.Engine.Loop.{FdSet, fd_zero, fd_set, fill, select, serve_ready, rounds, run}

select-subset : (b : ℕ) (now set : FdSet) (fd : ℕ) → select b now set fd ≡ true → set fd ≡ true
unfolding select
select-subset b now set fd h = ground arith

select-ready : (b : ℕ) (now set : FdSet) (fd : ℕ) → select b now set fd ≡ true → now fd ≡ true
unfolding select
select-ready b now set fd h = ground arith

module _ {ℓ} {D : Type ℓ} where
  abbrev pub has : ℕ → Map D → Bool
  has fd [] = false
  has fd ((k, d) ∷ m) = k == fd || has fd m

  -- The descriptors of the map that are ready, in order.
  abbrev pub ready_keys : FdSet → Map D → List ℕ
  ready_keys ready [] = []
  ready_keys ready ((k, d) ∷ m) =
      let rest = ready_keys ready m in if ready k then k ∷ rest else rest

  pub fill-has :
      (m : Map D) (master : FdSet) (b fd : ℕ) → (fill m (master, b)).0 fd ≡ (has fd m || master fd)
  unfolding fill
  fill-has [] master b fd = refl
  fill-has ((k, d) ∷ m) master b fd = fill-has m (fd_set k master) (k + 1) fd ∙ ground arith

  fill-Above : (m : Map D) (master : FdSet) (k : ℕ) → Above k m → k < (fill m (master, k + 1)).1
  unfolding fill
  fill-Above [] master k s = omega arith
  fill-Above ((j, d) ∷ m) master k s = omega (arith, s.0, fill-Above m (fd_set j master) j s.1)

  fill-bounds :
      (m : Map D) (master : FdSet) (b k fd : ℕ)
      → Above k m
      → has fd m ≡ true
      → fd < (fill m (master, b)).1
  unfolding fill
  fill-bounds [] master b k fd s h = cc
  fill-bounds ((j, d) ∷ m) master b k fd s h = ground (
    arith,
    fill-Above m (fd_set j master) j s.1,
    fill-bounds m (fd_set j master) (j + 1) j fd s.1,
  )

  pub below_biggest :
      (m : Map D) (fd : ℕ) → IsSorted m → has fd m ≡ true → fd < (fill m (fd_zero, 0)).1
  unfolding fill
  below_biggest [] fd s h = cc
  below_biggest ((j, d) ∷ m) fd s h =
      ground (
        arith,
        fill-Above m (fd_set j fd_zero) j s,
        fill-bounds m (fd_set j fd_zero) (j + 1) j fd s,
      )

  pub serve_ready-agree :
      (set ready : FdSet) (m : Map D)
      → ((fd : ℕ) → has fd m ≡ true → set fd ≡ ready fd)
      → serve_ready m set ≡ ready_keys ready m
  unfolding serve_ready
  serve_ready-agree set ready [] h = refl
  serve_ready-agree set ready ((k, d) ∷ m) h =
      let rest = serve_ready-agree set ready m (λ fd q. h fd (ground (arith, q))) in
      let head = h k (ground arith) in rw (head, rest)

  first_agree :
      (m : Map D) (ready : FdSet) (fd : ℕ)
      → IsSorted m
      → has fd m ≡ true
      → select (fill m (fd_zero, 0)).1 ready (fill m (fd_zero, 0)).0 fd ≡ ready fd
  unfolding select
  first_agree m ready fd s h = ground (arith, fill-has m fd_zero 0 fd, below_biggest m fd s h)

  serve_ready-All :
      (set ready : FdSet) (m : Map D)
      → ((fd : ℕ) → set fd ≡ true → ready fd ≡ true)
      → All (λ fd. ready fd ≡ true) (serve_ready m set)
  unfolding serve_ready
  serve_ready-All set ready [] h = tt
  serve_ready-All set ready ((k, d) ∷ m) h = elim (Bool-cases (set k)) [
    | inl e ↦ rw e (h k e, serve_ready-All set ready m h)
    | inr e ↦ rw e (serve_ready-All set ready m h)
  ]

  rounds-All :
      (m : Map D) (b : ℕ) (set ready : FdSet) (later : List FdSet)
      → ((fd : ℕ) → set fd ≡ true → ready fd ≡ true)
      → All (All (λ fd. ready fd ≡ true)) (rounds m b set later)
  unfolding rounds
  rounds-All m b set ready [] h = tt
  rounds-All m b set ready (now ∷ later) h =
      let keep = λ (fd : ℕ) (q : select b now set fd ≡ true). h fd (select-subset b now set fd q) in
      (
        serve_ready-All (select b now set) ready m keep,
        rounds-All m b (select b now set) ready later keep,
      )

  -- In its first round the loop serves exactly the devices that are ready, in the order of their
  -- descriptors: none lies beyond the bound that `select` is given. In every later round it serves
  -- only devices that were ready in the first one too, whatever is ready then: `select` empties the
  -- set of the others, and nothing puts them back.
  pub run-cons :
      (m : Map D) (ready : FdSet) (later : List FdSet)
      → IsSorted m
      → (others : List (List ℕ)) × (run m (ready ∷ later) ≡ ready_keys ready m ∷ others)
        × All (All (λ fd. ready fd ≡ true)) others
  unfolding run rounds
  run-cons m ready later s =
      let p = fill m (fd_zero, 0) in
      let set = select p.1 ready p.0 in
      (
        rounds m p.1 set later,
        ap (λ l. l ∷ rounds m p.1 set later)
            (serve_ready-agree set ready m (λ fd. first_agree m ready fd s)),
        rounds-All m p.1 set ready later (select-ready p.1 ready p.0),
      )
