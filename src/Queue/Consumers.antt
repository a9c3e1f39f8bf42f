-- ===== src/Queue/Consumers.antt =====
-- WaitableQueue (DesignPatterns/ThreadPool/waitablequeue/waitablequeue.hpp) with any number of threads
-- in its methods, each step under the mutex.
pub mod Waking
use distributed_nas.Base.{
  ℕ, zero, suc, ◌+◌, ◌≤◌, ◌<◌, ◌≡◌, refl, Bool, List, [], ◌∷◌, Option, none, some, arith, set,
  get_elem?, replicate, length, total, total-set, Option-cases, inl, inr,
}
use distributed_nas.Queue.{extract, enqueue}
use distributed_nas.Queue.Order.{length-extract}

-- A thread outside of the queue; in the wait on `m_cv`; notified, about to test the queue again; about
-- to return an element.
pub data Consumer {ℓ} (A : Type ℓ) : Type ℓ where
  away asleep awake : Consumer A
  took : A → Consumer A

pub record Shared {ℓ} (A : Type ℓ) : Type ℓ where
  pub m_pq : List A
  pub consumers : List (Consumer A)

-- `Enqueue`, with the place and the thread that the kernel would wake; the next step of a thread; a wait that ends
-- because the time is up; a wake-up that nobody asked for.
pub data Step {ℓ} (A : Type ℓ) : Type ℓ where
  enqueues : ℕ → A → ℕ → Step A
  moves times_out wakes : ℕ → Step A

module _ {ℓ} {A : Type ℓ} where
  abbrev pub asleep_in : Consumer A → ℕ
  asleep_in asleep = 1
  asleep_in c = 0

  abbrev pub awake_in : Consumer A → ℕ
  awake_in awake = 1
  awake_in c = 0

  -- Some thread that waits wakes up, if there is one.
  abbrev pub wake_first : List (Consumer A) → List (Consumer A)
  wake_first [] = []
  wake_first (asleep ∷ cs) = awake ∷ cs
  wake_first (c ∷ cs) = c ∷ wake_first cs

  abbrev pub wake_at : Option (Consumer A) → ℕ → List (Consumer A) → List (Consumer A)
  wake_at (some asleep) j cs = set cs j awake
  wake_at c j cs = wake_first cs

  unfoldable pub notify_one : ℕ → List (Consumer A) → List (Consumer A)
  notify_one j cs = wake_at (get_elem? cs j) j cs

  module _ (comp : A → A → Bool) where
    -- The loop of `Dequeue` with the mutex, up to its wait or its end.
    unfoldable pub take_or_wait : List A → ℕ → Shared A → Shared A
    unfolding extract
    take_or_wait [] i s = record s { consumers = set s.consumers i asleep }
    take_or_wait (x ∷ q) i s =
        let r = extract comp x q in
        record s { m_pq = r.1; consumers = set s.consumers i (took r.0) }

    unfoldable pub move_at : Option (Consumer A) → ℕ → Shared A → Shared A
    unfolding take_or_wait
    move_at (some away) i s = take_or_wait s.m_pq i s
    move_at (some awake) i s = take_or_wait s.m_pq i s
    move_at (some (took x)) i s = record s { consumers = set s.consumers i away }
    move_at c i s = s

    -- A wait that ends in another way than by `notify_one`: what the thread does next.
    unfoldable pub leave_at : Option (Consumer A) → Consumer A → ℕ → Shared A → Shared A
    leave_at (some asleep) next i s = record s { consumers = set s.consumers i next }
    leave_at c next i s = s

    unfoldable pub shared_step : Step A → Shared A → Shared A
    unfolding enqueue notify_one move_at leave_at
    shared_step (enqueues place x j) s = record s {
      m_pq = (enqueue place x s.m_pq).0;
      consumers = notify_one j s.consumers;
    }
    shared_step (moves i) s = move_at (get_elem? s.consumers i) i s
    shared_step (times_out i) s = leave_at (get_elem? s.consumers i) away i s
    shared_step (wakes i) s = leave_at (get_elem? s.consumers i) awake i s

    unfoldable pub shared_run : List (Step A) → Shared A → Shared A
    unfolding shared_step
    shared_run [] s = s
    shared_run (a ∷ rest) s = shared_run rest (shared_step a s)

-- An empty queue and some threads outside of it.
abbrev pub shared {ℓ} : {A : Type ℓ} → ℕ → Shared A
shared n = record { m_pq = []; consumers = replicate n away }
