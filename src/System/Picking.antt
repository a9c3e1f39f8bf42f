-- ===== src/System/Picking.antt =====
-- The tasks that wait, by their places in the engine's `m_tp`: what is picked, and what is counted.
use distributed_nas.Base.{
  ℕ, zero, suc, ◌+◌, ◌≤◌, ◌≡◌, refl, false, List, [], ◌∷◌, ◌++◌, some, ◌==◌, ==_iff, if◌then◌else◌,
  arith, get_elem?, length, Bool-cases, inl, inr,
}
use distributed_nas.Nbd.Pipeline.{pick}
use distributed_nas.Pool.Tally.{ran}
use distributed_nas.System.Schedule.{index_of, without}

module _ {A : Type 0} where
  -- The places `ks` of the log have the elements `ts`.
  abbrev pub Holds : List A → List ℕ → List A → Type 0
  Holds log [] [] = Unit
  Holds log [] (t ∷ ts) = ⊥
  Holds log (k ∷ ks) [] = ⊥
  Holds log (k ∷ ks) (t ∷ ts) = (get_elem? log k ≡ some t) × Holds log ks ts

  get_elem?-append :
      (log : List A) (t u : A) (k : ℕ)
      → get_elem? log k ≡ some u
      → get_elem? (log ++ t ∷ []) k ≡ some u
  get_elem?-append [] t u k e = cc
  get_elem?-append (x ∷ log) t u zero e = e
  get_elem?-append (x ∷ log) t u (suc k) e = get_elem?-append log t u k e

  get_elem?-last : (log : List A) (t : A) → get_elem? (log ++ t ∷ []) (length log) ≡ some t
  get_elem?-last [] t = refl
  get_elem?-last (x ∷ log) t = get_elem?-last log t

  -- A task that is logged waits last.
  pub Holds-append :
      (log : List A) (t : A) (ks : List ℕ) (ts : List A)
      → Holds log ks ts
      → Holds (log ++ t ∷ []) (ks ++ length log ∷ []) (ts ++ t ∷ [])
  Holds-append log t [] [] h = (get_elem?-last log t, tt)
  Holds-append log t [] (u ∷ ts) h = absurd h
  Holds-append log t (k ∷ ks) [] h = absurd h
  Holds-append log t (k ∷ ks) (u ∷ ts) (e, h) =
      (get_elem?-append log t u k e, Holds-append log t ks ts h)

  -- Task `k` is picked by its place, and the others go on waiting.
  abbrev pub IsPicked : List A → ℕ → List ℕ → List A → Type 0
  IsPicked log k ks ts =
      (t : A) × (rest : List A) × (pick (index_of k ks) ts ≡ some (t, rest))
      × (get_elem? log k ≡ some t)
      × Holds log (without k ks) rest

  IsPicked-later :
      (log : List A) (k j : ℕ) (ks : List ℕ) (u : A) (ts : List A)
      → (j == k) ≡ false
      → get_elem? log j ≡ some u
      → IsPicked log k ks ts
      → IsPicked log k (j ∷ ks) (u ∷ ts)
  IsPicked-later log k j ks u ts other e (t, rest, picked, there, held) =
      (t, u ∷ rest, rw other (rw picked refl), there, rw other (e, held))

  -- So is a task that waits.
  pub pick-index_of :
      (log : List A) (k : ℕ) (ks : List ℕ) (ts : List A)
      → 1 ≤ ran k ks
      → Holds log ks ts
      → IsPicked log k ks ts
  pick-index_of log k [] ts h held = absurd (omega arith)
  pick-index_of log k (j ∷ ks) [] h held = absurd held
  pick-index_of log k (j ∷ ks) (u ∷ ts) h (e, held) = elim (Bool-cases (j == k)) [
    | inl same ↦ let it : j ≡ k = (==_iff j k).0 same in (u, ts, rw same, rw it at e, rw same held)
    | inr other ↦
        IsPicked-later log k j ks u ts other e
          (pick-index_of log k ks ts (omega (arith, rw other at h)) held)
  ]

pub ran-without :
    (j k : ℕ) (ks : List ℕ)
    → 1 ≤ ran k ks
    → ran j (without k ks) + (if k == j then 1 else 0) ≡ ran j ks
ran-without j k [] h = absurd (omega arith)
ran-without j k (i ∷ ks) h = elim (Bool-cases (i == k)) [
  | inl same ↦ let it : i ≡ k = (==_iff i k).0 same in rw (same, it) (omega arith)
  | inr other ↦ rw other (omega (arith, ran-without j k ks (omega (arith, rw other at h))))
]

pub ran-append :
    (k : ℕ) (ks : List ℕ) (j : ℕ) → ran k (ks ++ j ∷ []) ≡ ran k ks + (if j == k then 1 else 0)
ran-append k [] j = omega arith
ran-append k (i ∷ ks) j = omega (arith, ran-append k ks j)
