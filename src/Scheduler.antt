-- ===== src/Scheduler.antt =====
-- schedualer/schedualer.cpp and schedualer.hpp: `Timer` and `Schedualer`; kamikaze/kamikaze.cpp in a
-- child. The clock and the kernel's timer enter as arguments: the time now, in nanoseconds, and what
-- `timer_gettime` reports as left.
mod Examples
pub mod Timer
pub mod Kamikaze
pub mod Laws
pub mod Cycling
pub mod Serving
pub mod Races
pub mod Clock
use distributed_nas.Base.{
  ℕ, suc, ◌+◌, ◌-◌, ◌*◌, ◌/◌, Bool, ◌||◌, List, [], ◌∷◌, ℤ, pos, negsuc, pos_part, neg_part, ltb,
  leb, ltb_ℤ, ◌==◌, if◌then◌else◌, Outcome, done, waiting, fault,
}
use distributed_nas.Observer.{Store, attach, notify_all, destroy_dispatcher}
use distributed_nas.Queue.{extract, enqueue}
use Timer.{TimeSpec, arm_value, disarm_value, check_deadline}

-- `pair_t`: a dispatcher and a time point.
pub record Entry : Type 0 where
  pub dispatcher : ℕ
  pub time_point : ℕ

unfoldable pub comper_func : Entry → Entry → Bool
comper_func lhs rhs = ltb rhs.time_point lhs.time_point

-- `m_timer` is what the timer was last set to. Dispatchers are allocated in order.
pub record Schedualer : Type 0 where
  pub m_pq : List Entry
  pub m_timer : TimeSpec
  pub store : Store
  pub next_dispatcher : ℕ

-- The constructor: `timer_create` makes a timer that is off, and whose event is `Cycle` of this object.
unfoldable pub schedualer : Store → ℕ → Schedualer
unfolding disarm_value
schedualer s next = record { m_pq = []; m_timer = disarm_value; store = s; next_dispatcher = next }

-- A time point some milliseconds from now.
abbrev pub later_by : ℤ → ℕ → ℕ
later_by milli now = now + pos_part milli * 1000000 - neg_part milli * 1000000

-- `duration_cast<milliseconds>(tp - now)`, which rounds towards zero.
abbrev pub millis_until : ℕ → ℕ → ℤ
millis_until tp now =
    if leb now tp
    then pos ((tp - now) / 1000000)
    else (let late = (now - tp) / 1000000 in if late == 0 then pos 0 else negsuc (late - 1))

-- `first_left` and `second_left` are what the two calls of `CheckDeadline` read. The queue keeps the
-- entry at a place.
unfoldable pub add : ℕ → ℕ → ℤ → ℕ → TimeSpec → TimeSpec → Schedualer → Schedualer
unfolding enqueue
add place cb milli now first_left second_left s = record s {
  m_pq =
      (enqueue place (record { dispatcher = s.next_dispatcher; time_point = later_by milli now })
        s.m_pq).0;
  m_timer =
      if ltb_ℤ milli (pos (check_deadline first_left)) || check_deadline second_left == 0
      then arm_value milli
      else s.m_timer;
  store = attach s.next_dispatcher cb s.store;
  next_dispatcher = suc s.next_dispatcher;
}

-- `top` is called on the queue also when nothing is left in it.
abbrev pub rearm : ℕ → List Entry → Schedualer → Outcome Schedualer
rearm now [] s = fault
rearm now (e ∷ es) s =
    done
      (record s { m_timer = arm_value (millis_until (extract comper_func e es).0.time_point now) })

-- `Cycle`: `update` is what the owner's `on_event` does to the store, `died` what its
-- `on_subj_death` does.
unfoldable pub cycle :
    (ℕ → ℕ → Store → Store) → (ℕ → Store → Store) → ℕ → ℕ → Schedualer → Outcome Schedualer
cycle update died fuel now s = elim s.m_pq [
  | [] ↦ fault
  | e ∷ es ↦
      (let r = extract comper_func e es in
        elim (notify_all update fuel r.0.dispatcher 0 s.store) [
          | fault ↦ fault
          | waiting ↦ waiting
          | done t ↦ elim (destroy_dispatcher died fuel r.0.dispatcher t) [
            | fault ↦ fault
            | waiting ↦ waiting
            | done u ↦ rearm now r.1 (record s { m_pq = r.1; store = u })
          ]
        ])
]
