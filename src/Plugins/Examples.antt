-- ===== src/Plugins/Examples.antt =====
-- Two batches of events, and the destructor of a loader with three objects.
use distributed_nas.Base.{
  true, false, update, fault, refl, ℕ, ◌+◌, ◌≡◌, List, [], ◌∷◌, ◌++◌, map, none, some, arith,
  length, done, waiting,
}
use distributed_nas.Observer.{Store, destroy_dispatcher}
use distributed_nas.Plugins.Monitors.{DirMonitor, start_monitoring}
use distributed_nas.Plugins.Closing.{
  Process, destroy_monitor, functor_loop, functor_loop-destroy_monitor,
}
use distributed_nas.Plugins.{Name, Event, batch, closed, monitor, load_all, destroy}
use distributed_nas.Plugins.Destruction.{destroy-evens}
use distributed_nas.Plugins.Loading.{Batch, reads_of, opened, monitor-load_all}

-- The events of the files "a.so", "b.so" and "c".
abbrev event_a : Event
event_a = record { len = 16; name = 97 ∷ 46 ∷ 115 ∷ 111 ∷ [] }

abbrev event_b : Event
event_b = record { len = 16; name = 98 ∷ 46 ∷ 115 ∷ 111 ∷ [] }

abbrev event_c : Event
event_c = record { len = 16; name = 99 ∷ [] }

abbrev arrivals : List Batch
arrivals = (event_a, event_b ∷ []) ∷ (event_c, []) ∷ []

-- A directory with the name "d".
abbrev folder : Name
folder = 100 ∷ []

abbrev handle_of : Name → ℕ
handle_of path = length path

monitor-load_all_example :
    (names : List Name) × (monitor none (reads_of arrivals) ≡ (names, waiting))
    × (load_all handle_of folder names [] ≡ [] ++ opened handle_of folder arrivals)
    × (length (load_all handle_of folder names []) + 1 ≡ 0 + 3)
monitor-load_all_example =
    monitor-load_all handle_of folder arrivals []
      ((ground arith, (ground arith, tt)), ((ground arith, tt), tt))

destroy-evens_example : destroy 4 (map some (7 ∷ 8 ∷ 9 ∷ [])) ≡ done (7 ∷ 9 ∷ [], some 8 ∷ [])
destroy-evens_example = destroy-evens 4 (7 ∷ 8 ∷ 9 ∷ []) (omega arith)

abbrev no_callbacks : Store
no_callbacks = record { m_dispatcher = λ c. none; m_subscribers = λ d. []; next_key = 0; log = [] }

-- Everything there is, and a monitor of the directory that is destroyed after one event.
abbrev before : Process
before = record { is_open = λ fd. true; exists = λ disp. true; store = no_callbacks }

abbrev after : Process
after = record {
  is_open = update before.is_open 3 false;
  exists = update before.exists 0 false;
  store = record no_callbacks { m_subscribers = update no_callbacks.m_subscribers 0 [] };
}

abbrev watched : DirMonitor
watched = record { m_disp = 0; m_path = folder; m_monitoring = none; m_fd = 3; m_wd = 1 }

destroyed : destroy_monitor (λ c t. t) 1 watched before ≡ done after
unfolding destroy_monitor destroy_dispatcher
destroyed = refl

functor_loop-destroy_monitor_example :
    functor_loop 3 0 after (some event_a) (batch event_b [] ∷ closed ∷ []) ≡ fault
unfolding start_monitoring
functor_loop-destroy_monitor_example =
    functor_loop-destroy_monitor (λ c t. t) 1 watched before after (some event_a)
      (batch event_b [] ∷ closed ∷ []) destroyed
