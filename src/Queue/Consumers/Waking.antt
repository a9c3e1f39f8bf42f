-- ===== src/Queue/Consumers/Waking.antt =====
-- The threads that sleep and the elements that wait, in a queue that threads share.
use distributed_nas.Base.{
  length-insert_at, ℕ, suc, ◌≤◌, ◌<◌, ◌≡◌, refl, ap, Bool, List, [], ◌∷◌, Option, none, some, arith,
  get_elem?, length, total, total-set,
}
use distributed_nas.Queue.{enqueue, extract}
use distributed_nas.Queue.Order.{length-extract}
use distributed_nas.Queue.Consumers.{
  Consumer, away, asleep, awake, took, Shared, Step, enqueues, moves, times_out, wakes, asleep_in,
  awake_in, wake_first, wake_at, notify_one, take_or_wait, move_at, leave_at, shared_step,
  shared_run, shared,
}

module _ {ℓ} {A : Type ℓ} where
  abbrev pub sleeping : Shared A → ℕ
  sleeping s = total asleep_in s.consumers

  abbrev pub woken : Shared A → ℕ
  woken s = total awake_in s.consumers

  -- If a thread sleeps, then at least as many are awake as elements wait.
  abbrev pub IsCovered : Shared A → Type 0
  IsCovered s = 0 < sleeping s → length s.m_pq ≤ woken s

  -- One thread more is awake, unless none slept.
  abbrev WakesOne : List (Consumer A) → List (Consumer A) → Type 0
  WakesOne cs ds =
      (total asleep_in ds ≤ total asleep_in cs)
      × (0 < total asleep_in ds → suc (total awake_in cs) ≤ total awake_in ds)

  wake_first-WakesOne : (cs : List (Consumer A)) → WakesOne cs (wake_first cs)
  wake_first-WakesOne [] = (omega arith, λ h. omega arith)
  wake_first-WakesOne (away ∷ cs) =
      let (s, w) = wake_first-WakesOne cs in (omega arith, λ h. omega (arith, w (omega arith)))
  wake_first-WakesOne (asleep ∷ cs) = (omega arith, λ h. omega arith)
  wake_first-WakesOne (awake ∷ cs) =
      let (s, w) = wake_first-WakesOne cs in (omega arith, λ h. omega (arith, w (omega arith)))
  wake_first-WakesOne (took x ∷ cs) =
      let (s, w) = wake_first-WakesOne cs in (omega arith, λ h. omega (arith, w (omega arith)))

  wake_at-WakesOne :
      (c : Option (Consumer A)) (j : ℕ) (cs : List (Consumer A))
      → get_elem? cs j ≡ c
      → WakesOne cs (wake_at c j cs)
  wake_at-WakesOne none j cs e = wake_first-WakesOne cs
  wake_at-WakesOne (some away) j cs e = wake_first-WakesOne cs
  wake_at-WakesOne (some awake) j cs e = wake_first-WakesOne cs
  wake_at-WakesOne (some (took x)) j cs e = wake_first-WakesOne cs
  wake_at-WakesOne (some asleep) j cs e =
      let slept = total-set asleep_in cs j asleep awake e in
      let woke = total-set awake_in cs j asleep awake e in
      (omega (arith, slept), λ h. omega (arith, woke))

  module _ (comp : A → A → Bool) where
    take_or_wait-IsCovered :
        (q : List A) (i : ℕ) (c : Consumer A) (s : Shared A)
        → s.m_pq ≡ q
        → get_elem? s.consumers i ≡ some c
        → asleep_in c ≡ 0
        → awake_in c ≤ 1
        → IsCovered s
        → IsCovered (take_or_wait comp q i s)
    unfolding take_or_wait
    take_or_wait-IsCovered [] i c s p e none_asleep one v h = omega (arith, ap length p)
    take_or_wait-IsCovered (x ∷ q) i c s p e none_asleep one v h =
        let r = extract comp x q in
        let slept = total-set asleep_in s.consumers i c (took r.0) e in
        let woke = total-set awake_in s.consumers i c (took r.0) e in
        omega (arith, slept, woke, ap length p, length-extract comp x q, v (omega (arith, slept)))

    move_at-IsCovered :
        (c : Option (Consumer A)) (i : ℕ) (s : Shared A)
        → get_elem? s.consumers i ≡ c
        → IsCovered s
        → IsCovered (move_at comp c i s)
    unfolding move_at
    move_at-IsCovered none i s e v = v
    move_at-IsCovered (some away) i s e v =
        take_or_wait-IsCovered s.m_pq i away s refl e refl (omega arith) v
    move_at-IsCovered (some awake) i s e v =
        take_or_wait-IsCovered s.m_pq i awake s refl e refl (omega arith) v
    move_at-IsCovered (some asleep) i s e v = v
    move_at-IsCovered (some (took x)) i s e v = λ h.
        let slept = total-set asleep_in s.consumers i (took x) away e in
        let woke = total-set awake_in s.consumers i (took x) away e in
        omega (arith, slept, woke, v (omega (arith, slept)))

    leave_at-IsCovered :
        (c : Option (Consumer A)) (next : Consumer A) (i : ℕ) (s : Shared A)
        → get_elem? s.consumers i ≡ c
        → asleep_in next ≡ 0
        → IsCovered s
        → IsCovered (leave_at comp c next i s)
    unfolding leave_at
    leave_at-IsCovered none next i s e n v = v
    leave_at-IsCovered (some away) next i s e n v = v
    leave_at-IsCovered (some awake) next i s e n v = v
    leave_at-IsCovered (some (took x)) next i s e n v = v
    leave_at-IsCovered (some asleep) next i s e n v = λ h.
        let slept = total-set asleep_in s.consumers i asleep next e in
        let woke = total-set awake_in s.consumers i asleep next e in
        omega (arith, slept, woke, n, v (omega (arith, slept, n)))

    shared_step-IsCovered :
        (a : Step A) (s : Shared A) → IsCovered s → IsCovered (shared_step comp a s)
    unfolding shared_step notify_one enqueue
    shared_step-IsCovered (enqueues place x j) s v = λ h.
        let (fewer, more) = wake_at-WakesOne (get_elem? s.consumers j) j s.consumers refl in
        omega (arith, fewer, more h, v (omega (arith, fewer, h)), length-insert_at place x s.m_pq)
    shared_step-IsCovered (moves i) s v = move_at-IsCovered (get_elem? s.consumers i) i s refl v
    shared_step-IsCovered (times_out i) s v =
        leave_at-IsCovered (get_elem? s.consumers i) away i s refl refl v
    shared_step-IsCovered (wakes i) s v =
        leave_at-IsCovered (get_elem? s.consumers i) awake i s refl refl v

    shared_run-IsCovered :
        (steps : List (Step A)) (s : Shared A) → IsCovered s → IsCovered (shared_run comp steps s)
    unfolding shared_run
    shared_run-IsCovered [] s v = v
    shared_run-IsCovered (a ∷ steps) s v =
        shared_run-IsCovered steps (shared_step comp a s) (shared_step-IsCovered a s v)

    -- However any number of threads take from one queue, with or without a time limit, and others put
    -- into it, and whichever thread the kernel wakes: while a thread sleeps in `Dequeue`, at least as
    -- many threads have been woken and are about to take as elements wait. No wake-up is lost.
    pub shared_run-woken :
        (n : ℕ) (steps : List (Step A))
        → 0 < sleeping (shared_run comp steps (shared n))
        → length (shared_run comp steps (shared n)).m_pq ≤ woken (shared_run comp steps (shared n))
    shared_run-woken n steps h = shared_run-IsCovered steps (shared n) (λ g. omega arith) h
