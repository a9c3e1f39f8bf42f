-- ===== src/Observer.antt =====
-- DesignPatterns/observer/observer.hpp: dispatchers and callbacks that point at one another, on an
-- explicit store. A dispatcher and a callback are numbers, as their addresses are.
mod Examples
pub mod Links
pub mod Notify
pub mod Callbacks
use distributed_nas.Base.{
  ℕ, zero, suc, ◌+◌, Bool, List, [], ◌∷◌, ◌++◌, Option, none, some, ◌==◌, if◌then◌else◌, Outcome,
  done, waiting, fault, length, update,
}

-- A node of the `std::list` of a dispatcher. Keys tell nodes apart, as their addresses do.
pub record Node : Type 0 where
  pub key : ℕ
  pub cb : ℕ

-- The calls of an owner's functions.
pub data Call : Type 0 where
  on_event : ℕ → ℕ → Call
  on_subj_death : ℕ → Call

pub record Store : Type 0 where
  pub m_dispatcher : ℕ → Option ℕ
  pub m_subscribers : ℕ → List Node
  pub next_key : ℕ
  pub log : List Call

abbrev pub set_dispatcher : ℕ → Option ℕ → Store → Store
set_dispatcher c d s = record s { m_dispatcher = update s.m_dispatcher c d }

-- `push_front`, after the callback was told.
unfoldable pub attach : ℕ → ℕ → Store → Store
attach d c s = record s {
  m_dispatcher = update s.m_dispatcher c (some d);
  m_subscribers =
      update s.m_subscribers d (record { key = s.next_key; cb = c } ∷ s.m_subscribers d);
  next_key = suc s.next_key;
}

-- The list without its first node of the callback.
abbrev pub remove_first : ℕ → List Node → List Node
remove_first c [] = []
remove_first c (n ∷ ns) = if n.cb == c then ns else n ∷ remove_first c ns

abbrev pub contains : ℕ → List Node → Bool
contains c [] = Bool.false
contains c (n ∷ ns) = if n.cb == c then Bool.true else contains c ns

-- The search of `Detach`: the first hit is told and erased; without one nothing changes.
unfoldable pub detach : ℕ → ℕ → Store → Store
detach d c s =
    if contains c (s.m_subscribers d)
    then record s {
      m_dispatcher = update s.m_dispatcher c none;
      m_subscribers = update s.m_subscribers d (remove_first c (s.m_subscribers d));
    }
    else s

-- `~CallbackBase`
unfoldable pub destroy_callback : ℕ → Store → Store
destroy_callback c s = elim (s.m_dispatcher c) [ none ↦ s | some d ↦ detach d c s ]

-- The node after one, by its key: `none` for a node that is gone, where `++it` is undefined, and
-- `some none` for the end.
abbrev pub next_node : ℕ → List Node → Option (Option Node)
next_node k [] = none
next_node k (n ∷ []) = if n.key == k then some none else none
next_node k (n ∷ m ∷ ns) = if n.key == k then some (some m) else next_node k (m ∷ ns)

abbrev pub begin : List Node → Option Node
begin [] = none
begin (n ∷ ns) = some n

-- `visit` is the body of the loop at a callback, with the owner's functions in it. The loop ends if
-- its fuel exceeds the number of nodes visited.
module _ (visit : ℕ → Store → Store) (d : ℕ) where
  unfoldable pub walk : ℕ → Option Node → Store → Outcome Store
  walk fuel none s = done s
  walk zero (some n) s = waiting
  walk (suc fuel) (some n) s = elim (next_node n.key ((visit n.cb s).m_subscribers d)) [
    | none ↦ fault
    | some next ↦ walk fuel next (visit n.cb s)
  ]

-- `NotifyAll`: each visit calls the owner's `on_event`. `handler` is what that does to the store.
unfoldable pub notify_all : (ℕ → ℕ → Store → Store) → ℕ → ℕ → ℕ → Store → Outcome Store
unfolding walk
notify_all handler fuel d event s =
    walk (λ c t. handler c event (record t { log = t.log ++ on_event c event ∷ [] })) d fuel
      (begin (s.m_subscribers d)) s

-- `~Dispatcher`: each visit calls the owner's `on_subj_death` and clears the pointer; then the list
-- is gone.
unfoldable pub destroy_dispatcher : (ℕ → Store → Store) → ℕ → ℕ → Store → Outcome Store
unfolding walk
destroy_dispatcher handler fuel d s =
    elim (walk
      (λ c t. set_dispatcher c none (handler c (record t { log = t.log ++ on_subj_death c ∷ [] })))
      d fuel (begin (s.m_subscribers d)) s) [
        | done t ↦ done (record t { m_subscribers = update t.m_subscribers d [] })
        | waiting ↦ waiting
        | fault ↦ fault
      ]
