-- ===== src/System/Schedule.antt =====
-- The turns of Nbd.Pipeline that the moves of the system amount to: a request that arrives, or a task
-- that a thread runs.
use distributed_nas.Base.{
  ℕ, suc, ◌≡◌, refl, List, [], ◌∷◌, ◌++◌, Option, none, some, ◌==◌, if◌then◌else◌, done, waiting,
  fault, Outcome-cases, inl, inr, and_then,
}
use distributed_nas.Nbd.Pipeline.{Pipeline, Turn, arrives, works, turn, turns}
use distributed_nas.Pool.{Pool, Action, step}
use distributed_nas.Pool.Executing.{task_run}
use distributed_nas.System.{Move, receives, action_of}

-- The place of a task among those that wait, and the others.
abbrev pub index_of : ℕ → List ℕ → ℕ
index_of k [] = 0
index_of k (j ∷ js) = if j == k then 0 else suc (index_of k js)

abbrev pub without : ℕ → List ℕ → List ℕ
without k [] = []
without k (j ∷ js) = if j == k then js else j ∷ without k js

abbrev pub turn_for : Option ℕ → List ℕ → List Turn
turn_for none ks = []
turn_for (some k) ks = works (index_of k ks) ∷ []

abbrev pub left_for : Option ℕ → List ℕ → List ℕ
left_for none ks = ks
left_for (some k) ks = without k ks

abbrev pub pool_after : Action → Pool → Pool
pool_after a p = elim (step a p) [ done q ↦ q | waiting ↦ p | fault ↦ p ]

-- For a move after `n` tasks, of which `ks` wait: its turns, and what then waits.
abbrev pub turns_of : ℕ → Move → Pool → List ℕ → List Turn
turns_of n (receives place) p ks = arrives ∷ []
turns_of n m p ks = turn_for (task_run (action_of n m) p) ks

abbrev pub pending_after : ℕ → Move → Pool → List ℕ → List ℕ
pending_after n (receives place) p ks = ks ++ n ∷ []
pending_after n m p ks = left_for (task_run (action_of n m) p) ks

abbrev pub count_after : ℕ → Move → ℕ
count_after n (receives place) = suc n
count_after n m = n

-- What a run is to the pool, after `n` tasks.
abbrev pub actions_of : ℕ → List Move → List Action
actions_of n [] = []
actions_of n (m ∷ ms) = action_of n m ∷ actions_of (count_after n m) ms

abbrev pub schedule : List Move → Pool → List ℕ → ℕ → List Turn
schedule [] p ks n = []
schedule (m ∷ ms) p ks n =
    turns_of n m p ks
    ++ schedule ms (pool_after (action_of n m) p) (pending_after n m p ks) (count_after n m)

pub turns-append :
    {F : Type 0} (ts us : List Turn) (p : Pipeline F)
    → turns (ts ++ us) p ≡ and_then (turns ts p) (turns us)
unfolding turns
turns-append [] us p = refl
turns-append (t ∷ ts) us p = elim (Outcome-cases (turn t p)) [
  | inl (q, e) ↦ rw (e, turns) (turns-append ts us q)
  | inr (inl e) ↦ rw (e, turns)
  | inr (inr e) ↦ rw (e, turns)
]
