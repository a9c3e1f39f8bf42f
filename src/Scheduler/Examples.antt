-- ===== src/Scheduler/Examples.antt =====
-- A scheduler with two entries, and timers.
use mathlib.Core.List.{Perm}
use distributed_nas.Base.{
  All, ℕ, ◌++◌, ◌+◌, ◌<◌, ◌≡◌, refl, List, [], ◌∷◌, none, pos, arith, done, fault, if◌then◌else◌,
  ◌==◌, some, ◌⊎◌,
}
use distributed_nas.Observer.{Store, attach, notify_all, destroy_dispatcher}
use distributed_nas.Queue.{extract, enqueue}
use distributed_nas.Scheduler.Timer.{TimeSpec, arm_value, disarm_value, check_deadline, nanos}
use distributed_nas.Scheduler.{
  Entry, comper_func, Schedualer, schedualer, later_by, millis_until, add, cycle,
}
use distributed_nas.Scheduler.Laws.{add-missed}
use distributed_nas.Scheduler.Cycling.{IsAscending, cycles}
use distributed_nas.Scheduler.Serving.{IsDistinct, HasOne, told, cycles-told}
use distributed_nas.Scheduler.Clock.{Clocked, add_now, Reach, made, passes, adds}
use distributed_nas.Scheduler.Clock.Due.{Reach-due}
use distributed_nas.Scheduler.Races.{split_cycle, split_cycle-add}
use distributed_nas.Scheduler.Kamikaze.{kamikaze, cycle-kamikaze}
use distributed_nas.Scheduler.Kamikaze

abbrev left : TimeSpec
left = record { tv_sec = 5; tv_nsec = 3000000 }

abbrev early : Entry
early = record { dispatcher = 0; time_point = 2000000 }

abbrev late : Entry
late = record { dispatcher = 1; time_point = 9000000 }

abbrev no_callbacks : Store
no_callbacks = record { m_dispatcher = λ c. none; m_subscribers = λ d. []; next_key = 0; log = [] }

abbrev filled : Schedualer
filled = record {
  m_pq = late ∷ early ∷ [];
  m_timer = left;
  store = no_callbacks;
  next_dispatcher = 2;
}

add-missed_example :
    ((add 0 4 (pos 100) 7 left left filled).m_timer ≡ left)
    × (later_by (pos 100) 7 < 7 + nanos left)
add-missed_example = add-missed 0 4 100 7 left filled (omega arith) (omega arith) (omega arith)

-- Owners that do nothing.
abbrev ignore : ℕ → ℕ → Store → Store
ignore c event t = t

abbrev ignore_death : ℕ → Store → Store
ignore_death c t = t

-- Entries with the callbacks 4 and 5.
abbrev two_added : Schedualer
two_added = record filled { store = attach 1 5 (attach 0 4 no_callbacks) }

IsDistinct-two_added : IsDistinct two_added.m_pq
IsDistinct-two_added d = ground arith

HasOne-two_added : All (HasOne (λ d. d + 4) two_added.store) two_added.m_pq
unfolding attach
HasOne-two_added = ((1, refl), ((0, refl), tt))

cycles-told_example :
    (served : List Entry) × (last : Entry) × (s' : Schedualer) × Perm
      (late ∷ early ∷ [])
      (served ++ last ∷ [])
    × IsAscending (served ++ last ∷ [])
    × (cycles ignore ignore_death 1 (2000000 ∷ []) two_added ≡ done s')
    × (s'.store.log ≡ two_added.store.log ++ told (λ d. d + 4) served)
    × (s'.m_pq ≡ last ∷ [])
    × (cycle ignore ignore_death 1 9000000 s' ≡ fault)
cycles-told_example =
    cycles-told ignore ignore_death 0 (λ d. d + 4) (λ c event d t. refl) (λ c event t. refl)
      (λ c d t. refl) (λ c t. refl) 9000000 (2000000 ∷ []) two_added (omega arith)
      IsDistinct-two_added HasOne-two_added

cycle-kamikaze_example :
    cycle Kamikaze.on_event ignore_death 3 9000000
      (kamikaze 1 4 (pos 1) 0 left left (record filled { m_pq = late ∷ [] }))
    ≡ fault
cycle-kamikaze_example =
    cycle-kamikaze ignore_death 1 4 0 9000000 2 (pos 1) left left
      (record filled { m_pq = late ∷ [] }) late refl (omega arith) refl

-- What the store is once a callback 4 has come with a new dispatcher.
abbrev joined : Store
joined = attach 2 4 no_callbacks

abbrev joined_emptied : Store
joined_emptied = record joined {
  m_subscribers = λ d. if 0 == d then [] else joined.m_subscribers d;
}

notified_joined :
    notify_all ignore 1 (extract comper_func late (early ∷ [])).0.dispatcher 0 joined ≡ done joined
unfolding notify_all extract comper_func attach
notified_joined = refl

destroyed_joined :
    destroy_dispatcher ignore_death 1 (extract comper_func late (early ∷ [])).0.dispatcher joined
    ≡ done joined_emptied
unfolding destroy_dispatcher extract comper_func attach
destroyed_joined = refl

split_cycle-add_example :
    (s' : Schedualer) × (x : Entry) × (xs : List Entry) × (split_cycle ignore ignore_death 1
        (add 1 4 (pos 1) 0 left left)
        2000000
        filled
      ≡ done s')
    × (s'.m_pq ≡ x ∷ xs)
    × Perm (x ∷ xs) (late ∷ early ∷ [])
    × (s'.m_timer ≡ arm_value (millis_until (extract comper_func x xs).0.time_point 2000000))
    × (s'.store ≡ joined_emptied)
split_cycle-add_example =
    split_cycle-add ignore ignore_death 1 2000000 1 4 0 (pos 1) left left filled late (early ∷ [])
      joined joined_emptied refl (omega arith, (omega arith, tt)) notified_joined destroyed_joined

-- An entry 5 ms from the time 7, and another one 3 ms from a time 1 ms later.
abbrev first_added : Clocked
first_added =
    add_now 0 4 (pos 5) (record { now = 7; expiry = none; sched = schedualer no_callbacks 0 })

abbrev both_added : Clocked
both_added = add_now 1 5 (pos 3) (record first_added { now = 1000007 })

both_added-Reach : Reach ignore ignore_death 9 both_added
unfolding add_now add enqueue schedualer disarm_value arm_value check_deadline
both_added-Reach =
    adds 1 5 (pos 3) (passes 1000000 (adds 0 4 (pos 5) (made 7 0 no_callbacks) tt)) (omega arith)

Reach-due_example :
    ((both_added.sched.m_pq ≡ []) × (both_added.expiry ≡ none))
    ⊎ ((e : ℕ) × (x : Entry) × (xs : List Entry) × (both_added.expiry ≡ some e)
        × (both_added.sched.m_pq ≡ x ∷ xs)
        × ((extract comper_func x xs).0.time_point < e + 1000000))
Reach-due_example = Reach-due ignore ignore_death 9 both_added both_added-Reach
