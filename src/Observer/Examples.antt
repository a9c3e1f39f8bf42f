-- ===== src/Observer/Examples.antt =====
-- A dispatcher with two callbacks.
use distributed_nas.Base.{ℕ, ◌≡◌, refl, [], ◌∷◌, none, some, arith, ◌==◌, if◌then◌else◌, done}
use distributed_nas.Observer.{on_event, Store, destroy_callback, notify_all}
use distributed_nas.Observer.Links.{occurs, IsLinked, destroy_callback-IsLinked}
use distributed_nas.Observer.Notify.{notify_all-calls}

abbrev alone : Store
alone = record { m_dispatcher = λ c. none; m_subscribers = λ d. []; next_key = 0; log = [] }

abbrev two_attached : Store
two_attached = record {
  m_dispatcher = λ c. if c == 1 then some 7 else if c == 2 then some 7 else none;
  m_subscribers =
      λ d. if d == 7 then record { key = 1; cb = 2 } ∷ record { key = 0; cb = 1 } ∷ [] else [];
  next_key = 2;
  log = [];
}

two_attached-IsLinked : IsLinked two_attached
two_attached-IsLinked = record { linked = λ c d. ground arith }

destroy_callback-IsLinked_example :
    IsLinked (destroy_callback 1 two_attached)
    × (occurs 2 ((destroy_callback 1 two_attached).m_subscribers 7) ≡ 1)
destroy_callback-IsLinked_example =
    destroy_callback-IsLinked two_attached 1 2 7 two_attached-IsLinked

-- An owner that does nothing.
abbrev ignore : ℕ → ℕ → Store → Store
ignore c event t = t

notify_all-calls_example :
    (u : Store) × (notify_all ignore 2 7 5 two_attached ≡ done u)
    × (u.log ≡ on_event 2 5 ∷ on_event 1 5 ∷ [])
    × (u.m_subscribers 7 ≡ two_attached.m_subscribers 7)
notify_all-calls_example =
    notify_all-calls ignore 7 5 (λ c t. refl) (λ c t. refl) two_attached 2
      (omega arith, (omega arith, tt)) (omega arith)
