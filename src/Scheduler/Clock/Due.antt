-- ===== src/Scheduler/Clock/Due.antt =====
-- The entries and the timer of the scheduler under its clock.
use distributed_nas.Base.{
  insert_at, ℕ, zero, suc, leb, ◌+◌, ◌-◌, ◌*◌, ◌/◌, ◌≤◌, ◌<◌, ◌≡◌, refl, subst, ◌⊎◌, inl, inr, ◌||◌,
  List, [], ◌∷◌, Option, none, some, ℤ, pos, negsuc, arith, ltb_ℤ, ◌==◌, if◌then◌else◌, done,
  waiting, fault, Outcome-cases, Bool-cases,
}
use distributed_nas.Observer.{Store, notify_all, destroy_dispatcher}
use distributed_nas.Queue.{enqueue, extract}
use distributed_nas.Scheduler.Timer.{arm_value, check_deadline, nanos, nanos-arm_value}
use distributed_nas.Scheduler.{
  Entry, comper_func, Schedualer, schedualer, later_by, millis_until, add, rearm, cycle,
}
use distributed_nas.Scheduler.Clock.{
  Clocked, left_at, set_at, cleared, add_now, fire, IsAhead, Reach, made, passes, changes, adds,
  fires,
}

-- Some entry is due at a time or before.
abbrev Soon : List Entry → ℕ → Type 0
Soon [] b = ⊥
Soon (e ∷ es) b = (e.time_point ≤ b) ⊎ Soon es b

Soon-added :
    (i : ℕ) (k : Entry) (q : List Entry) (b : ℕ) → k.time_point ≤ b → Soon (insert_at i k q) b
Soon-added zero k q b h = inl h
Soon-added (suc i) k [] b h = inl h
Soon-added (suc i) k (e ∷ es) b h = inr (Soon-added i k es b h)

Soon-insert_at : (i : ℕ) (k : Entry) (q : List Entry) (b : ℕ) → Soon q b → Soon (insert_at i k q) b
Soon-insert_at zero k q b s = inr s
Soon-insert_at (suc i) k [] b s = absurd s
Soon-insert_at (suc i) k (e ∷ es) b (inl h) = inl h
Soon-insert_at (suc i) k (e ∷ es) b (inr s) = inr (Soon-insert_at i k es b s)

extract-le :
    (e : Entry) (es : List Entry) (b : ℕ)
    → e.time_point ≤ b
    → (extract comper_func e es).0.time_point ≤ b
unfolding extract comper_func
extract-le e [] b h = h
extract-le e (f ∷ es) b h = elim (Bool-cases (comper_func e f)) [
  | inl c ↦ rw c (extract-le f es b (ground (arith, c)))
  | inr c ↦ rw c (extract-le e es b h)
]

-- The entry that leaves the queue is due no later than any.
extract-Soon :
    (e : Entry) (es : List Entry) (b : ℕ)
    → Soon (e ∷ es) b
    → (extract comper_func e es).0.time_point ≤ b
unfolding extract comper_func
extract-Soon e es b (inl h) = extract-le e es b h
extract-Soon e [] b (inr h) = absurd h
extract-Soon e (f ∷ es) b (inr (inl h)) = elim (Bool-cases (comper_func e f)) [
  | inl c ↦ rw c (extract-le f es b h)
  | inr c ↦ rw c (extract-le e es b (ground (arith, c)))
]
extract-Soon e (f ∷ es) b (inr (inr h)) = elim (Bool-cases (comper_func e f)) [
  | inl c ↦ rw c (extract-Soon f es b (inr h))
  | inr c ↦ rw c (extract-Soon e es b (inr h))
]

first-Soon :
    (q : List Entry) (b : ℕ)
    → Soon q b
    → (e : Entry) × (es : List Entry) × (q ≡ e ∷ es) × ((extract comper_func e es).0.time_point ≤ b)
first-Soon [] b h = absurd h
first-Soon (e ∷ es) b h = (e, es, refl, extract-Soon e es b h)

Soon-extract :
    (e : Entry) (es : List Entry) (b : ℕ)
    → (extract comper_func e es).0.time_point ≤ b
    → Soon (e ∷ es) b
unfolding extract comper_func
Soon-extract e [] b h = inl h
Soon-extract e (f ∷ es) b h = elim (Bool-cases (comper_func e f)) [
  | inl c ↦ inr (Soon-extract f es b (rw c at h))
  | inr c ↦ elim (Soon-extract e es b (rw c at h)) [ inl k ↦ inl k | inr k ↦ inr (inr k) ]
]

-- The timer is off and nothing waits, or it expires at most a millisecond before an entry is due.
Timed : Clocked → Type 0
Timed c =
    ((c.sched.m_pq ≡ []) × (c.expiry ≡ none))
    ⊎ ((e : ℕ) × (c.expiry ≡ some e) × Soon c.sched.m_pq (e + 999999))

-- What the timer is set to is not less than what was asked for.
arms-pos : (n : ℕ) → n * 1000000 ≤ nanos (arm_value (pos n))
arms-pos zero = omega arith
arms-pos (suc n) = ground (arith, (nanos-arm_value (pos (suc n))).2)

arms-later : (milli : ℤ) (now : ℕ) → later_by milli now ≤ now + nanos (arm_value milli) + 999999
arms-later (pos n) now = omega (arith, arms-pos n)
arms-later (negsuc n) now = omega arith

arms-until : (tp now : ℕ) → tp ≤ now + nanos (arm_value (millis_until tp now)) + 999999
arms-until tp now = elim (Bool-cases (leb now tp)) [
  | inl e ↦ rw e (omega (arith, arms-pos ((tp - now) / 1000000)))
  | inr e ↦ rw e (ground (arith, e))
]

set_at-arm_value :
    (milli : ℤ) (before : Option ℕ) (now : ℕ)
    → set_at (arm_value milli) before now ≡ some (now + nanos (arm_value milli))
set_at-arm_value milli before now = ground (arith, nanos-arm_value milli)

add_now-Timed :
    (place cb : ℕ) (milli : ℤ) (c : Clocked)
    → IsAhead c.expiry c.now
    → Timed c
    → Timed (add_now place cb milli c)
unfolding add_now add enqueue Timed check_deadline
add_now-Timed place cb milli c ahead t =
    let k : Entry = record {
      dispatcher = c.sched.next_dispatcher;
      time_point = later_by milli c.now;
    } in
    let left = left_at c.expiry c.now in
    elim (Bool-cases (ltb_ℤ milli (pos (check_deadline left)) || check_deadline left == 0)) [
      | inl set ↦ inr (
        _,
        rw (set, if◌then◌else◌) (set_at-arm_value milli c.expiry c.now),
        Soon-added place k c.sched.m_pq _ (arms-later milli c.now),
      )
      | inr kept ↦ elim t [
        | inl (empty, no_timer) ↦ absurd (let k = rw no_timer at kept in ground arith)
        | inr (e, runs, soon) ↦ inr (e, rw kept runs, Soon-insert_at place k c.sched.m_pq _ soon)
      ]
    ]

-- The timer is set for the first entry.
abbrev IsArmed : ℕ → Schedualer → Type 0
IsArmed now t =
    (e : Entry) × (es : List Entry) × (t.m_pq ≡ e ∷ es)
    × (t.m_timer ≡ arm_value (millis_until (extract comper_func e es).0.time_point now))

rearm-done :
    (now : ℕ) (q : List Entry) (s t : Schedualer)
    → s.m_pq ≡ q
    → rearm now q s ≡ done t
    → IsArmed now t
rearm-done now [] s t same h = absurd (let no_end : fault ≡ done t = h in cc)
rearm-done now (e ∷ es) s t same h =
    let x : Schedualer = record s {
      m_timer = arm_value (millis_until (extract comper_func e es).0.time_point now);
    } in
    let it : x ≡ t = cc in subst (IsArmed now) it (e, es, same, refl)

module _ (update : ℕ → ℕ → Store → Store) (died : ℕ → Store → Store) (fuel : ℕ) where
  -- A round of `Cycle` that returns leaves an entry, and has set the timer for the first one.
  cycle_from-done :
      (now : ℕ) (q : List Entry) (s t : Schedualer)
      → cycle update died fuel now (record s { m_pq = q }) ≡ done t
      → IsArmed now t
  unfolding cycle
  cycle_from-done now [] s t h = absurd (let no_end : fault ≡ done t = h in cc)
  cycle_from-done now (e ∷ es) s t h =
      let r = extract comper_func e es in
      elim (Outcome-cases (notify_all update fuel r.0.dispatcher 0 s.store)) [
        | inr (inl w) ↦ absurd (let no_end : waiting ≡ done t = rw (w, cycle) at h in cc)
        | inr (inr w) ↦ absurd (let no_end : fault ≡ done t = rw (w, cycle) at h in cc)
        | inl (u, w) ↦ elim (Outcome-cases (destroy_dispatcher died fuel r.0.dispatcher u)) [
          | inr (inl x) ↦ absurd (let no_end : waiting ≡ done t = rw (w, x, cycle) at h in cc)
          | inr (inr x) ↦ absurd (let no_end : fault ≡ done t = rw (w, x, cycle) at h in cc)
          | inl (v, x) ↦
              rearm-done now r.1 (record s { m_pq = r.1; store = v }) t refl (rw (w, x, cycle) at h)
        ]
      ]

  fire-Timed : (took : ℕ) (c d : Clocked) → fire update died fuel took c ≡ done d → Timed d
  unfolding fire Timed
  fire-Timed took c d h =
      elim (Outcome-cases (cycle update died fuel (c.now + took) (cleared c.sched))) [
        | inr (inl w) ↦ absurd (let no_end : waiting ≡ done d = rw (w, fire) at h in cc)
        | inr (inr w) ↦ absurd (let no_end : fault ≡ done d = rw (w, fire) at h in cc)
        | inl (s, w) ↦
            let (e, es, queue, timer) =
              cycle_from-done (c.now + took) c.sched.m_pq (cleared c.sched) s w in
            let after : Clocked = record {
              now = c.now + took;
              expiry = set_at s.m_timer none (c.now + took);
              sched = s;
            } in
            let same : done after ≡ done d = rw (w, fire) at h in
            let it : after ≡ d = cc in
            let now = c.now + took in
            let ms = millis_until (extract comper_func e es).0.time_point now in
            let soon = Soon-extract e es (now + nanos (arm_value ms) + 999999) (arms-until _ now) in
            subst Timed it (
              inr (
                now + nanos (arm_value ms),
                rw timer (set_at-arm_value ms none now),
                rw queue soon,
              ))
      ]

  Reach-Timed : {c : Clocked} → Reach update died fuel c → Timed c
  unfolding Timed schedualer
  Reach-Timed (made now next t) = inl (refl, refl)
  Reach-Timed (passes d r) = Reach-Timed r
  Reach-Timed (changes t r) = Reach-Timed r
  Reach-Timed (adds {c = c} place cb milli r ahead) =
      add_now-Timed place cb milli c ahead (Reach-Timed r)
  Reach-Timed (fires {c = c} {d = d} e took r runs over h) = fire-Timed took c d h

  -- A scheduler whose `Cycle` runs, once the timer has expired, before the next `Add`, forgets no entry
  -- and is at most a millisecond early: in every state that it reaches, either nothing waits and the
  -- timer is off, or the timer is set and the entry that `Cycle` will then serve, the first one of the
  -- queue, is due less than a millisecond after the timer expires.
  pub Reach-due :
      (c : Clocked)
      → Reach update died fuel c
      → ((c.sched.m_pq ≡ []) × (c.expiry ≡ none))
        ⊎ ((e : ℕ) × (x : Entry) × (xs : List Entry) × (c.expiry ≡ some e)
            × (c.sched.m_pq ≡ x ∷ xs)
            × ((extract comper_func x xs).0.time_point < e + 1000000))
  unfolding Timed
  Reach-due c r = elim (Reach-Timed r) [
    | inl h ↦ inl h
    | inr (e, runs, soon) ↦
        let (x, xs, queue, due) = first-Soon c.sched.m_pq (e + 999999) soon in
        inr (e, x, xs, runs, queue, omega (arith, due))
  ]
