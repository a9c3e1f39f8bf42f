-- ===== src/Scheduler/Races.antt =====
-- `Schedualer::Cycle` (schedualer/schedualer.cpp) beside `Add`: `Add` locks the mutex and `Cycle` does
-- not, so another thread can change the queue between the calls of `top` and `pop`.
use mathlib.Core.List.{Perm}
use mathlib.Core.List.Perm
use distributed_nas.Base.{
  ap₂, Bool-cases, inl, inr, true, insert_at, zero, suc, ◌∙◌, ℕ, ◌<◌, ◌≡◌, refl, ap, false, List,
  [], ◌∷◌, ℤ, arith, All, Outcome, done, waiting, fault,
}
use distributed_nas.Observer.{Store, attach, notify_all, destroy_dispatcher}
use distributed_nas.Queue.{extract, enqueue}
use distributed_nas.Queue.Order.{extract-later, extract-earlier}
use distributed_nas.Scheduler.Timer.{TimeSpec, arm_value}
use distributed_nas.Scheduler.{
  Entry, comper_func, Schedualer, later_by, millis_until, add, rearm, cycle,
}

-- `Cycle`, where other threads do `meanwhile` after its `top` and before its `pop`.
unfoldable pub split_cycle :
    (ℕ → ℕ → Store → Store)
    → (ℕ → Store → Store)
    → ℕ
    → (Schedualer → Schedualer)
    → ℕ
    → Schedualer
    → Outcome Schedualer
split_cycle update died fuel meanwhile now s = elim s.m_pq [
  | [] ↦ fault
  | e ∷ es ↦
      (let pq_pair = (extract comper_func e es).0 in
        let t = meanwhile s in
        elim t.m_pq [
          | [] ↦ fault
          | f ∷ fs ↦
              (let rest = (extract comper_func f fs).1 in
                elim (notify_all update fuel pq_pair.dispatcher 0 t.store) [
                  | fault ↦ fault
                  | waiting ↦ waiting
                  | done u ↦ elim (destroy_dispatcher died fuel pq_pair.dispatcher u) [
                    | fault ↦ fault
                    | waiting ↦ waiting
                    | done v ↦ rearm now rest (record t { m_pq = rest; store = v })
                  ]
                ])
        ])
]

split_cycle-cycle :
    (update : ℕ → ℕ → Store → Store) (died : ℕ → Store → Store) (fuel now : ℕ) (s : Schedualer)
    (q : List Entry)
    → s.m_pq ≡ q
    → split_cycle update died fuel (λ t. t) now s ≡ cycle update died fuel now s
unfolding split_cycle cycle
split_cycle-cycle update died fuel now s [] e = rw (e, split_cycle)
split_cycle-cycle update died fuel now s (x ∷ q) e = rw (e, split_cycle, e)

extract-first :
    (x : Entry) (es : List Entry)
    → All (λ e. comper_func x e ≡ false) es
    → extract comper_func x es ≡ (x, es)
unfolding extract
extract-first x [] h = refl
extract-first x (e ∷ es) (h, hs) = rw (extract, h, extract-first x es hs)

All-comper :
    (x : Entry) (es : List Entry)
    → All (λ e. x.time_point < e.time_point) es
    → All (λ e. comper_func x e ≡ false) es
unfolding comper_func
All-comper x [] h = tt
All-comper x (e ∷ es) (h, hs) = (ground (arith, h), All-comper x es hs)

is_later : (k e : Entry) → k.time_point < e.time_point → comper_func e k ≡ true
unfolding comper_func
is_later k e h = ground arith

-- An entry that comes before all the others leaves first, wherever it stands, and leaves the others.
abbrev Extracts : Entry → List Entry → Entry × List Entry → Type 0
Extracts k q r = (r.0 ≡ k) × (x : Entry) × (xs : List Entry) × (r.1 ≡ x ∷ xs) × Perm (x ∷ xs) q

Extracts-left :
    (k x : Entry) (xs q : List Entry) (r : Entry × List Entry)
    → r ≡ (k, x ∷ xs)
    → Perm (x ∷ xs) q
    → Extracts k q r
Extracts-left k x xs q r e p = (ap (λ o. o.0) e, x, xs, ap (λ o. o.1) e, p)

extract-second :
    (k e : Entry) (es : List Entry)
    → k.time_point < e.time_point
    → All (λ f. k.time_point < f.time_point) es
    → extract comper_func e (k ∷ es) ≡ (k, e ∷ es)
unfolding extract
extract-second k e es h hs =
    rw (is_later k e h) (ap (λ r. (r.0, e ∷ r.1)) (extract-first k es (All-comper k es hs)))

extract-insert_at :
    (i : ℕ) (k e : Entry) (es : List Entry)
    → k.time_point < e.time_point
    → All (λ f. k.time_point < f.time_point) es
    → Extracts k (e ∷ es) (extract comper_func e (insert_at i k es))
unfolding extract
extract-insert_at zero k e es h hs =
    Extracts-left k e es (e ∷ es) _ (extract-second k e es h hs) (Perm.refl (e ∷ es))
extract-insert_at (suc i) k e [] h hs =
    Extracts-left k e [] (e ∷ []) _ (extract-second k e [] h tt) (Perm.refl (e ∷ []))
extract-insert_at (suc i) k e (y ∷ ys) h (g, hs) = elim (Bool-cases (comper_func e y)) [
  | inl c ↦
      let (first, x, xs, left, same) = extract-insert_at i k y ys g hs in
      Extracts-left k e (x ∷ xs) (e ∷ y ∷ ys) _
        (extract-later comper_func e y (insert_at i k ys) c ∙ ap₂ (λ a b. (a, e ∷ b)) first left)
        (Perm.cons e same)
  | inr c ↦
      let (first, x, xs, left, same) = extract-insert_at i k e ys h hs in
      Extracts-left k y (x ∷ xs) (e ∷ y ∷ ys) _
        (extract-earlier comper_func e y (insert_at i k ys) c ∙ ap₂ (λ a b. (a, y ∷ b)) first left)
        (Perm.trans (Perm.cons y same) (Perm.swap e y ys))
]

-- `Add` and then `pop`.
add-extract :
    (i : ℕ) (k e : Entry) (es : List Entry)
    → All (λ f. k.time_point < f.time_point) (e ∷ es)
    → (f : Entry) × (fs : List Entry) × (insert_at i k (e ∷ es) ≡ f ∷ fs)
      × Extracts k (e ∷ es) (extract comper_func f fs)
add-extract zero k e es h = (
  k,
  e ∷ es,
  refl,
  Extracts-left k e es (e ∷ es) _ (extract-first k (e ∷ es) (All-comper k (e ∷ es) h))
      (Perm.refl (e ∷ es)),
)
add-extract (suc i) k e es (h, hs) = (e, insert_at i k es, refl, extract-insert_at i k e es h hs)

split_cycle-done :
    (update : ℕ → ℕ → Store → Store) (died : ℕ → Store → Store) (fuel now : ℕ)
    (meanwhile : Schedualer → Schedualer) (s : Schedualer) (e f k x : Entry) (es fs xs : List Entry)
    (t u : Store)
    → s.m_pq ≡ e ∷ es
    → (meanwhile s).m_pq ≡ f ∷ fs
    → extract comper_func f fs ≡ (k, x ∷ xs)
    → notify_all update fuel (extract comper_func e es).0.dispatcher 0 (meanwhile s).store ≡ done t
    → destroy_dispatcher died fuel (extract comper_func e es).0.dispatcher t ≡ done u
    → split_cycle update died fuel meanwhile now s
      ≡ done (record (meanwhile s) {
        m_pq = x ∷ xs;
        store = u;
        m_timer = arm_value (millis_until (extract comper_func x xs).0.time_point now);
      })
unfolding split_cycle
split_cycle-done update died fuel now meanwhile s e f k x es fs xs t u q r first n d =
    simp (q, split_cycle) (rw (r, n, d, first))

-- If an entry that is due before all the others comes by `Add` between the calls of `top` and `pop`,
-- and the owners' functions return, `Cycle` notifies and destroys the dispatcher that `top` gave and
-- takes out the new entry, wherever the queue keeps it: the queue holds the entries from before, with
-- the one that was served, and the timer is set for the first of them.
pub split_cycle-add :
    (update : ℕ → ℕ → Store → Store) (died : ℕ → Store → Store) (fuel now place cb added : ℕ)
    (milli : ℤ) (first_left second_left : TimeSpec) (s : Schedualer) (e : Entry) (es : List Entry)
    (t u : Store)
    → s.m_pq ≡ e ∷ es
    → All (λ f. later_by milli added < f.time_point) (e ∷ es)
    → notify_all update fuel
        (extract comper_func e es).0.dispatcher
        0
        (attach s.next_dispatcher cb s.store)
      ≡ done t
    → destroy_dispatcher died fuel (extract comper_func e es).0.dispatcher t ≡ done u
    → (s' : Schedualer) × (x : Entry) × (xs : List Entry) × (split_cycle update died fuel
          (add place cb milli added first_left second_left)
          now
          s
        ≡ done s')
      × (s'.m_pq ≡ x ∷ xs)
      × Perm (x ∷ xs) (e ∷ es)
      × (s'.m_timer ≡ arm_value (millis_until (extract comper_func x xs).0.time_point now))
      × (s'.store ≡ u)
unfolding add enqueue
split_cycle-add update died fuel now place cb added milli first_left second_left s e es t u q h n
      d =
    let k : Entry = record { dispatcher = s.next_dispatcher; time_point = later_by milli added } in
    let (f, fs, there, out) = add-extract place k e es h in
    let (first, x, xs, left, same) = out in
    let after = add place cb milli added first_left second_left s in
    (
      record after {
        m_pq = x ∷ xs;
        store = u;
        m_timer = arm_value (millis_until (extract comper_func x xs).0.time_point now);
      },
      x,
      xs,
      split_cycle-done update died fuel now (add place cb milli added first_left second_left) s e f
          (extract comper_func f fs).0 x es fs xs t u q (ap (insert_at place k) q ∙ there)
          (ap (λ r. ((extract comper_func f fs).0, r)) left) n d,
      refl,
      same,
      refl,
      refl,
    )
