-- ===== src/System/Alone.antt =====
-- The schedule of a server to which one request comes.
use distributed_nas.Base.{
  ℕ, suc, ◌+◌, ◌≤◌, ◌≡◌, ◌≢◌, refl, sym, ap, ap₂, ◌∙◌, List, [], ◌∷◌, ◌++◌, map, none, arith,
  get_elem?, done, pos, length, All, Option-cases, inl, inr,
}
use distributed_nas.Nbd.Pipeline.{Turn, arrives, works}
use distributed_nas.Pool.{low, Pool, Action, step, run, thread_pool}
use distributed_nas.Pool.Tasks.{submitted, thread_pool-measure}
use distributed_nas.Pool.Rounds.{Covers, turns_of}
use distributed_nas.Pool.Finishing.{IsService, submissions, thread_pool-finishes}
use distributed_nas.System.Finishing.{moves_of}
use mathlib.Core.List.{map-append, append_assoc}
use distributed_nas.Pool
use distributed_nas.Pool.Threads.{Inv}
use distributed_nas.Pool.Runs.{run-done, thread_pool-Inv}
use distributed_nas.Pool.Tally.{ran}
use distributed_nas.Pool.Executing.{user_task, step-executed}
use distributed_nas.System.{Move, receives, runs}
use distributed_nas.System.Schedule.{pool_after, schedule}
use distributed_nas.System.Moves.{AreWaiting, is_waiting, pool-moves}

-- A thread that has no user's task in its hands turns.
idle-turn :
    (ks : List ℕ) (x n i : ℕ) (ms : List Move) (p : Pool)
    → user_task (get_elem? p.threads i) ≡ none
    → AreWaiting ks p
    → Inv p x
    → (q : Pool) × (y : ℕ) × AreWaiting ks q
      × Inv q y
      × (step (Pool.works i) p ≡ done q)
      × (schedule (runs i ∷ ms) p ks n ≡ schedule ms q ks n)
      × (q.executed ≡ p.executed)
idle-turn ks x n i ms p none_held w v =
    let (q, e, w', inv) = pool-moves n (runs i) p ks x w v in
    let same = step-executed (Pool.works i) p q e in
    (q, _, rw none_held at w', inv, e, rw (none_held, e, pool_after) refl, rw none_held at same)

-- Turns before anything has come.
idle-turns :
    (is : List ℕ) (x n : ℕ) (ms : List Move) (p : Pool)
    → AreWaiting [] p
    → Inv p x
    → (q : Pool) × (y : ℕ) × AreWaiting [] q
      × Inv q y
      × ((acts : List Action) → run (map Pool.works is ++ acts) p ≡ run acts q)
      × (schedule (map runs is ++ ms) p [] n ≡ schedule ms q [] n)
      × (q.executed ≡ p.executed)
idle-turns [] x n ms p w v = (p, x, w, v, λ acts. refl, refl, refl)
idle-turns (i ∷ is) x n ms p w v = elim (Option-cases (user_task (get_elem? p.threads i))) [
  | inr (k, e) ↦ absurd (let waits : 1 ≤ 0 = is_waiting k [] p i w e in omega arith)
  | inl e ↦
      let (q, y, w', v', stepped, same, log) = idle-turn [] x n i (map runs is ++ ms) p e w v in
      let (u, z, w'', v'', ran_all, rest, logs) = idle-turns is y n ms q w' v' in
      (
        u,
        z,
        w'',
        v'',
        λ acts. run-done (Pool.works i) (map Pool.works is ++ acts) p q stepped ∙ ran_all acts,
        same ∙ rest,
        logs ∙ log,
      )
]

-- Turns while task 0 is the only one, of which one at least runs it.
turns-one :
    (is : List ℕ) (x n : ℕ) (p q : Pool)
    → AreWaiting (0 ∷ []) p
    → Inv p x
    → run (map Pool.works is) p ≡ done q
    → q.executed ≢ p.executed
    → (us : List Turn) × (schedule (map runs is) p (0 ∷ []) n ≡ works 0 ∷ us)
unfolding run
turns-one [] x n p q w v ended changed =
    let same : p ≡ q = cc in absurd (changed (ap (λ r. r.executed) (sym same)))
turns-one (i ∷ is) x n p q w v ended changed =
    elim (Option-cases (user_task (get_elem? p.threads i))) [
      | inl e ↦
          let (u, y, w', v', stepped, same, log) = idle-turn (0 ∷ []) x n i (map runs is) p e w v in
          let (us, rest) =
            turns-one is y n u q w' v'
              (sym (run-done (Pool.works i) (map Pool.works is) p u stepped) ∙ ended)
              (λ f. changed (f ∙ log)) in
          (us, same ∙ rest)
      | inr (k, e) ↦
          let waits : 1 ≤ ran k (0 ∷ []) = is_waiting k (0 ∷ []) p i w e in
          let it : k ≡ 0 = ground (arith, waits) in
          (schedule (map runs is) (pool_after (Pool.works i) p) [] n, rw e (rw it refl))
    ]

moves_of-runs :
    (rounds : List (List ℕ))
    → (is : List ℕ) × (moves_of rounds ≡ map runs is) × (turns_of rounds ≡ map Pool.works is)
moves_of-runs [] = ([], refl, refl)
moves_of-runs (js ∷ rounds) =
    let (is, e, f) = moves_of-runs rounds in
    (
      js ++ is,
      ap (λ ms. map runs js ++ ms) e ∙ sym (map-append runs js is),
      ap (λ acts. map Pool.works js ++ acts) f ∙ sym (map-append Pool.works js is),
    )

works-IsService :
    (place : ℕ) (is : List ℕ)
    → All IsService (map Pool.works is ++ Pool.adds 0 low place ∷ [])
      × (submissions (map Pool.works is ++ Pool.adds 0 low place ∷ []) ≡ 1)
works-IsService place [] = ((tt, tt), refl)
works-IsService place (i ∷ is) = let (s, e) = works-IsService place is in ((tt, s), e)

submitted-works :
    (place : ℕ) (is : List ℕ) → submitted 0 (map Pool.works is ++ Pool.adds 0 low place ∷ []) ≡ 1
submitted-works place [] = omega arith
submitted-works place (i ∷ is) = omega (arith, submitted-works place is)

-- Turns, one request, and rounds of turns enough to run its task: that is the first turn of the pipeline
-- after the arrival.
pub schedule-one :
    (t place : ℕ) (is : List ℕ) (rounds : List (List ℕ))
    → All (Covers (suc t)) rounds
    → suc t + 2 ≤ length rounds
    → (us : List Turn) × (schedule
          (map runs is ++ receives place ∷ moves_of rounds)
          (thread_pool (pos (suc t)))
          []
          0
        ≡ arrives ∷ works 0 ∷ us)
schedule-one t place is rounds c enough =
    let start = thread_pool (pos (suc t)) in
    let acts = map Pool.works is ++ Pool.adds 0 low place ∷ [] in
    let (service, one) = works-IsService place is in
    let (q, finished, _, each) =
      thread_pool-finishes t acts rounds service c (omega (arith, enough, one)) in
    let (p, x, w, v, led, idle, log) =
      idle-turns is 0 0 (receives place ∷ moves_of rounds) start
        (λ k. omega (arith, thread_pool-measure k (suc t))) (thread_pool-Inv (suc t)) in
    let (u, added, w', v') = pool-moves 0 (receives place) p [] x w v in
    let (js, moves, turns) = moves_of-runs rounds in
    let a = Pool.adds 0 low place in
    let ended : run (map Pool.works js) u ≡ done q =
      ap (λ bs. run bs u) (sym turns)
      ∙ sym (run-done a (turns_of rounds) p u added)
      ∙ sym (led (a ∷ turns_of rounds))
      ∙ ap (λ bs. run bs start) (sym (append_assoc (map Pool.works is) (a ∷ []) (turns_of rounds)))
      ∙ finished in
    let unchanged : u.executed ≡ p.executed = step-executed a p u added in
    let changed : q.executed ≢ u.executed = λ f. absurd (
      omega (
        arith,
        each 0,
        submitted-works place is,
        ap (ran 0) f,
        ap (ran 0) unchanged,
        ap (ran 0) log,
        thread_pool-measure 0 (suc t),
      )) in
    let (us, rest) = turns-one js _ 1 u q w' v' ended changed in
    let here : pool_after a p ≡ u = rw (added, pool_after) refl in
    (us, idle ∙ ap₂ (λ ms r. arrives ∷ schedule ms r (0 ∷ []) 1) moves here ∙ ap (◌∷◌ arrives) rest)
