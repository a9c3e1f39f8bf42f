-- ===== src/Scheduler/Laws.antt =====
-- What `Add` and `Cycle` do to the queue and the timer.
use mathlib.Core.List.{Perm}
use distributed_nas.Base.{
  zero, suc, ℕ, ◌+◌, ◌*◌, ◌/◌, ◌≤◌, ◌<◌, ◌≡◌, refl, false, List, [], ◌∷◌, pos, arith, if◌then◌else◌,
  done, fault, All, ℤ,
}
use distributed_nas.Observer.{Store, attach, notify_all, destroy_dispatcher}
use distributed_nas.Queue.{enqueue, extract}
use distributed_nas.Queue.Order.{StrictWeakOrder, by_key, extract-perm, extract-IsFirst}
use distributed_nas.Scheduler.Timer.{TimeSpec, arm_value, disarm_value, check_deadline, nanos}
use distributed_nas.Scheduler.{
  Entry, comper_func, Schedualer, schedualer, later_by, millis_until, add, cycle,
}

-- While the timer runs with a second or more left, `Add` leaves it as it is for every delay from what
-- `CheckDeadline` reads up to the time that is left, though the new entry is due before the timer.
pub add-missed :
    (place cb n now : ℕ) (left : TimeSpec) (s : Schedualer)
    → 0 < left.tv_sec
    → left.tv_nsec / 1000000 + left.tv_sec ≤ n
    → n * 1000000 < nanos left
    → ((add place cb (pos n) now left left s).m_timer ≡ s.m_timer)
      × (later_by (pos n) now < now + nanos left)
unfolding add check_deadline
add-missed place cb n now left s second from below = (ground arith, omega arith)

pub entry_order : StrictWeakOrder comper_func
unfolding comper_func
entry_order = by_key (λ e. e.time_point)

pub All-le :
    (e : Entry) (es : List Entry)
    → All (λ f. comper_func e f ≡ false) es
    → All (λ f. e.time_point ≤ f.time_point) es
unfolding comper_func
All-le e [] h = tt
All-le e (f ∷ es) h = (ground (arith, h.0), All-le e es h.1)

-- One round of `Cycle` with two entries or more, whose owners' functions return: it serves an entry
-- that is due no later than the others, keeps the others, and sets the timer to the time from now to
-- one that is due no later than the rest.
pub cycle-earliest :
    (update : ℕ → ℕ → Store → Store) (died : ℕ → Store → Store) (fuel now : ℕ) (s : Schedualer)
    (e f : Entry) (es : List Entry) (t u : Store)
    → s.m_pq ≡ e ∷ f ∷ es
    → notify_all update fuel (extract comper_func e (f ∷ es)).0.dispatcher 0 s.store ≡ done t
    → destroy_dispatcher died fuel (extract comper_func e (f ∷ es)).0.dispatcher t ≡ done u
    → (first next : Entry) × (rest : List Entry) × (later : List Entry) × (s' : Schedualer) × (cycle
          update died fuel now s
        ≡ done s')
      × (Perm (e ∷ f ∷ es) (first ∷ rest))
      × (All (λ g. first.time_point ≤ g.time_point) rest)
      × (s'.m_pq ≡ rest)
      × (Perm rest (next ∷ later))
      × (All (λ g. next.time_point ≤ g.time_point) later)
      × (s'.m_timer ≡ arm_value (millis_until next.time_point now))
unfolding cycle extract
cycle-earliest update died fuel now s e f es t u q n d = (
  r.0,
  next.0,
  r.1,
  next.1,
  record s { m_pq = r.1; store = u; m_timer = arm_value (millis_until next.0.time_point now) },
  rw (q, cycle, n, d),
  extract-perm comper_func e (f ∷ es),
  All-le r.0 r.1 (extract-IsFirst comper_func entry_order e (f ∷ es)).1,
  refl,
  extract-perm comper_func later rest,
  All-le next.0 next.1 (extract-IsFirst comper_func entry_order later rest).1,
  refl,
)
  where
    r : Entry × List Entry
    r = extract comper_func e (f ∷ es)

    later : Entry
    later = if comper_func e f then e else f

    rest : List Entry
    rest = (extract comper_func (if comper_func e f then f else e) es).1

    next : Entry × List Entry
    next = extract comper_func later rest

-- The first callback that comes to a new scheduler sets the timer to its delay, whatever that is; and
-- the round of `Cycle` that serves it, if the owner's functions return, is undefined: it asks for the
-- top of the queue that it has emptied.
pub cycle-add :
    (update : ℕ → ℕ → Store → Store) (died : ℕ → Store → Store) (fuel place cb now later next : ℕ)
    (milli : ℤ) (s t u : Store)
    → notify_all update fuel next 0 (attach next cb s) ≡ done t
    → destroy_dispatcher died fuel next t ≡ done u
    → ((add place cb milli now disarm_value disarm_value (schedualer s next)).m_timer
        ≡ arm_value milli)
      × (cycle update died fuel later
            (add place cb milli now disarm_value disarm_value (schedualer s next))
          ≡ fault)
unfolding add enqueue cycle schedualer extract disarm_value check_deadline
cycle-add update died fuel zero cb now later next milli s t u n d =
    (ground arith, rw (n, cycle, d, cycle))
cycle-add update died fuel (suc i) cb now later next milli s t u n d =
    (ground arith, rw (n, cycle, d, cycle))
