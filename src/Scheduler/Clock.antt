-- ===== src/Scheduler/Clock.antt =====
-- `Schedualer` (schedualer/schedualer.cpp) under a clock that runs: the kernel's timer is the time at
-- which it expires, which `timer_settime` sets and from which `timer_gettime` reads what is left.
-- `Add` takes no time, and when the timer has expired `Cycle` runs before the next `Add`.
pub mod Due
use distributed_nas.Base.{
  ℕ, ◌+◌, ◌-◌, ◌*◌, ◌/◌, ◌%◌, ◌≤◌, ◌<◌, ◌≡◌, Option, none, some, ℤ, ◌==◌, if◌then◌else◌, Outcome,
  done, waiting, fault,
}
use distributed_nas.Observer.{Store}
use distributed_nas.Scheduler.Timer.{TimeSpec, nanos}
use distributed_nas.Scheduler.{Schedualer, schedualer, add, cycle}

-- `expiry` is `none` while the timer is off.
pub record Clocked : Type 0 where
  pub now : ℕ
  pub expiry : Option ℕ
  pub sched : Schedualer

abbrev pub off : TimeSpec
off = record { tv_sec = 0; tv_nsec = 0 }

-- `timer_gettime`
abbrev pub left_at : Option ℕ → ℕ → TimeSpec
left_at none now = off
left_at (some e) now = record { tv_sec = (e - now) / 1000000000; tv_nsec = (e - now) % 1000000000 }

-- `timer_settime`, if the operation has called it: `m_timer` was cleared before.
abbrev pub set_at : TimeSpec → Option ℕ → ℕ → Option ℕ
set_at t before now = if nanos t == 0 then before else some (now + nanos t)

abbrev pub cleared : Schedualer → Schedualer
cleared s = record s { m_timer = off }

unfoldable pub add_now : ℕ → ℕ → ℤ → Clocked → Clocked
unfolding add
add_now place cb milli c =
    let left = left_at c.expiry c.now in
    let s = add place cb milli c.now left left (cleared c.sched) in
    record { now = c.now; expiry = set_at s.m_timer c.expiry c.now; sched = s }

-- `Cycle`, whose callbacks take some time.
unfoldable pub fire :
    (ℕ → ℕ → Store → Store) → (ℕ → Store → Store) → ℕ → ℕ → Clocked → Outcome Clocked
unfolding cycle
fire update died fuel took c = elim (cycle update died fuel (c.now + took) (cleared c.sched)) [
  | done s ↦
      done (record { now = c.now + took; expiry = set_at s.m_timer none (c.now + took); sched = s })
  | waiting ↦ waiting
  | fault ↦ fault
]

abbrev pub IsAhead : Option ℕ → ℕ → Type 0
IsAhead none now = Unit
IsAhead (some e) now = now < e

module _ (update : ℕ → ℕ → Store → Store) (died : ℕ → Store → Store) (fuel : ℕ) where
  -- The states of a scheduler: time passes, the owners of the callbacks change the store, entries are
  -- added while the timer is off or still runs, and `Cycle` runs once the timer has expired.
  pub data Reach : Clocked → Type 0 where
    made :
        (now next : ℕ) (t : Store)
        → Reach (record { now = now; expiry = none; sched = schedualer t next })
    passes : {c : Clocked} (d : ℕ) → Reach c → Reach (record c { now = c.now + d })
    changes :
        {c : Clocked} (t : Store)
        → Reach c
        → Reach (record c { sched = record c.sched { store = t } })
    adds :
        {c : Clocked} (place cb : ℕ) (milli : ℤ)
        → Reach c
        → IsAhead c.expiry c.now
        → Reach (add_now place cb milli c)
    fires :
        {c d : Clocked} (e took : ℕ)
        → Reach c
        → c.expiry ≡ some e
        → e ≤ c.now
        → fire update died fuel took c ≡ done d
        → Reach d
