-- ===== src/Pool/Rounds.antt =====
-- Rounds in which every thread has a turn.
use distributed_nas.Base.{
  total, ℕ, zero, suc, ◌≤◌, ◌<◌, ◌≡◌, ◌⊎◌, inl, inr, refl, ap, ◌∙◌, subst, Bool, true, false, ◌||◌,
  ◌==◌, ==_iff, List, [], ◌∷◌, ◌++◌, map, none, some, arith, get_elem?, length, All, done,
  Bool-cases,
}
use distributed_nas.Pool.{Worker, idle, Pool, Action, works, step, run}
use distributed_nas.Pool.Runs.{run-done}
use distributed_nas.Pool.Serving.{turns_needed, turns_left, Serves, HasNothing, work-Serves}

-- In a round every one of the first `n` threads has a turn, in any order and any number of times.
abbrev pub has : ℕ → List ℕ → Bool
has i [] = false
has i (j ∷ js) = (j == i) || has i js

abbrev pub Covers : ℕ → List ℕ → Type 0
Covers zero round = Unit
Covers (suc n) round = (has n round ≡ true) × Covers n round

abbrev pub turns_of : List (List ℕ) → List Action
turns_of [] = []
turns_of (round ∷ rounds) = map works round ++ turns_of rounds

All-has : (P : ℕ → Type 0) (i : ℕ) (js : List ℕ) → All P js → has i js ≡ true → P i
All-has P i [] h e = cc
All-has P i (j ∷ js) (h, hs) e = elim (Bool-cases (j == i)) [
  | inl same ↦ subst P ((==_iff j i).0 same) h
  | inr other ↦ All-has P i js hs (rw other at e)
]

Covers-has : (n i : ℕ) (round : List ℕ) → Covers n round → i < n → has i round ≡ true
Covers-has zero i round c h = absurd (omega arith)
Covers-has (suc n) i round (e, c) h = elim (Bool-cases (n == i)) [
  | inl same ↦ let it : n ≡ i = (==_iff n i).0 same in subst (λ j. has j round ≡ true) it e
  | inr other ↦ Covers-has n i round c (ground (arith, other, h))
]

-- A round brings the work down, or its threads all have nothing to do.
abbrev Passed : List ℕ → Pool → Pool → Type 0
Passed is p q = (suc (turns_left q) ≤ turns_left p) ⊎ ((q ≡ p) × All (HasNothing p) is)

Passed-le : (is : List ℕ) (p q : Pool) → Passed is p q → turns_left q ≤ turns_left p
Passed-le is p q (inl less) = omega (arith, less)
Passed-le is p q (inr (same, h)) = omega (arith, ap turns_left same)

-- It returns, whatever follows.
abbrev pub Leads : List Action → Pool → Pool → Type 0
Leads acts p q = (rest : List Action) → run (acts ++ rest) p ≡ run rest q

round-Serves :
    (n : ℕ) (is : List ℕ) (p : Pool)
    → Serves n p
    → (q : Pool) × Leads (map works is) p q × Serves n q × Passed is p q
unfolding step
round-Serves n [] p v = (p, λ rest. refl, v, inr (refl, tt))
round-Serves n (i ∷ is) p v =
    let (q, e, (w, turned)) = work-Serves n i p v in
    elim turned [
      | inl less ↦
          let (u, f, x, passed) = round-Serves n is q w in
          (
            u,
            λ rest. run-done (works i) (map works is ++ rest) p q e ∙ f rest,
            x,
            inl (omega (arith, less, Passed-le is q u passed)),
          )
      | inr (same, nothing) ↦
          let (u, f, x, passed) = round-Serves n is p v in
          (
            u,
            λ rest. run-done (works i) (map works is ++ rest) p p (e ∙ ap done same) ∙ f rest,
            x,
            elim passed [ inl less ↦ inl less | inr (none_did, h) ↦ inr (none_did, (nothing, h)) ],
          )
    ]

-- If every thread has nothing to do, no work is left.
at_loops :
    (ws : List Worker)
    → ((i : ℕ) → i < length ws → get_elem? ws i ≡ some idle)
    → total turns_needed ws ≡ 0
at_loops [] h = refl
at_loops (w ∷ ws) h =
    let first : w ≡ idle = let e = h 0 (omega arith) in cc in
    rw first (omega (arith, at_loops ws (λ i l. h (suc i) (omega arith))))

nothing-at_loop :
    (p : Pool) (i : ℕ)
    → i < length p.threads
    → HasNothing p i
    → (get_elem? p.threads i ≡ some idle) × (p.m_wq ≡ [])
nothing-at_loop p i l (inl e) = absurd (there p.threads i l e)
  where
    there : (ws : List Worker) (j : ℕ) → j < length ws → get_elem? ws j ≡ none → ⊥
    there [] j l e = omega arith
    there (w ∷ ws) zero l e = cc
    there (w ∷ ws) (suc j) l e = there ws j (omega arith) e
nothing-at_loop p i l (inr h) = h

nothing-turns_left :
    (n : ℕ) (is : List ℕ) (p : Pool)
    → Serves (suc n) p
    → Covers (suc n) is
    → All (HasNothing p) is
    → turns_left p ≡ 0
nothing-turns_left n is p v c h =
    let nothing : (i : ℕ) → i < length p.threads → HasNothing p i =
      λ i l. All-has (HasNothing p) i is h (Covers-has (suc n) i is c (omega (arith, l, v.size))) in
    let empty : p.m_wq ≡ [] =
      (nothing-at_loop p 0 (omega (arith, v.size)) (nothing 0 (omega (arith, v.size)))).1 in
    omega
      (arith, ap length empty, at_loops p.threads (λ i l. (nothing-at_loop p i l (nothing i l)).0))

-- As many rounds as there are turns left are enough.
pub rounds-Serves :
    (n : ℕ) (rounds : List (List ℕ)) (p : Pool)
    → Serves (suc n) p
    → All (Covers (suc n)) rounds
    → turns_left p ≤ length rounds
    → (q : Pool) × (run (turns_of rounds) p ≡ done q) × Serves (suc n) q × (turns_left q ≡ 0)
unfolding run
rounds-Serves n [] p v c h = (p, refl, v, omega (arith, h))
rounds-Serves n (is ∷ rounds) p v (c, cs) h =
    let (q, e, w, passed) = round-Serves (suc n) is p v in
    let enough : turns_left q ≤ length rounds = elim passed [
      | inl less ↦ omega (arith, h, less)
      | inr (same, nothing) ↦
          omega (arith, ap turns_left same, nothing-turns_left n is p v c nothing)
    ] in
    let (u, f, x, none_more) = rounds-Serves n rounds q w cs enough in
    (u, e (turns_of rounds) ∙ f, x, none_more)
