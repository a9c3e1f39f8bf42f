-- ===== src/Scheduler/Cycling.antt =====
-- Rounds of `Cycle`, one after the other, with no `Add` between them.
use mathlib.Core.List.{Perm}
use distributed_nas.Base.{
  ℕ, zero, suc, ◌≤◌, ◌≡◌, refl, sym, ap, ◌∙◌, subst, List, [], ◌∷◌, ◌++◌, arith, length, All,
  Outcome, done, waiting, fault, and_then,
}
use distributed_nas.Observer.{Store, notify_all, destroy_dispatcher}
use distributed_nas.Queue.{extract}
use distributed_nas.Queue.Order.{length-extract}
use distributed_nas.Queue.Leaving.{leaving, leaving-perm, IsInOrder, leaving-IsInOrder}
use distributed_nas.Scheduler.Laws.{entry_order, All-le}
use distributed_nas.Scheduler.{Entry, comper_func, Schedualer, rearm, cycle}

-- Time points never fall.
abbrev pub IsAscending : List Entry → Type 0
IsAscending [] = Unit
IsAscending (e ∷ es) = All (λ f. e.time_point ≤ f.time_point) es × IsAscending es

IsInOrder-IsAscending : (es : List Entry) → IsInOrder comper_func es → IsAscending es
IsInOrder-IsAscending [] h = tt
IsInOrder-IsAscending (e ∷ es) (h, hs) = (All-le e es h, IsInOrder-IsAscending es hs)

leaving-IsAscending : (n : ℕ) (q : List Entry) → IsAscending (leaving comper_func n q)
leaving-IsAscending n q =
    IsInOrder-IsAscending (leaving comper_func n q) (leaving-IsInOrder comper_func entry_order n q)

and_then-done :
    {A B : Type 0} (r : Outcome A) (f : A → Outcome B) (b : B)
    → and_then r f ≡ done b
    → (a : A) × (r ≡ done a) × (f a ≡ done b)
and_then-done (done a) f b h = (a, refl, h)
and_then-done waiting f b h = absurd (let no_end : waiting ≡ done b = h in cc)
and_then-done fault f b h = absurd (let no_end : fault ≡ done b = h in cc)

module _ (update : ℕ → ℕ → Store → Store) (died : ℕ → Store → Store) (fuel : ℕ) where
  -- The calls of `NotifyAll` and of the destructor for entries, one after the other.
  abbrev pub serve_entry : Entry → Store → Outcome Store
  serve_entry e t =
      and_then (notify_all update fuel e.dispatcher 0 t) (destroy_dispatcher died fuel e.dispatcher)

  abbrev pub serve_entries : List Entry → Store → Outcome Store
  serve_entries [] t = done t
  serve_entries (e ∷ es) t = and_then (serve_entry e t) (serve_entries es)

  -- A round at each of some times.
  abbrev pub cycles : List ℕ → Schedualer → Outcome Schedualer
  cycles [] s = done s
  cycles (now ∷ nows) s = and_then (cycle update died fuel now s) (cycles nows)

  cycle-rearm :
      (now : ℕ) (s : Schedualer) (e : Entry) (es : List Entry) (t : Store)
      → s.m_pq ≡ e ∷ es
      → serve_entry (extract comper_func e es).0 s.store ≡ done t
      → cycle update died fuel now s
        ≡ rearm now
            (extract comper_func e es).1
            (record s { m_pq = (extract comper_func e es).1; store = t })
  unfolding cycle
  cycle-rearm now s e es t q h =
      let r = extract comper_func e es in
      let (u, n, d) = and_then-done (notify_all update fuel r.0.dispatcher 0 s.store) _ t h in
      rw (q, cycle, n, d) refl

  rearm-some :
      (n now : ℕ) (q : List Entry) (s : Schedualer)
      → length q ≡ suc n
      → (x : Schedualer) × (rearm now q s ≡ done x) × (x.m_pq ≡ s.m_pq) × (x.store ≡ s.store)
  rearm-some n now [] s l = absurd (omega arith)
  rearm-some n now (e ∷ q) s l = (_, refl, refl, refl)

  -- What `n` rounds with `n + 1` entries leave.
  abbrev Left : List ℕ → ℕ → Schedualer → List Entry → Type 0
  Left nows now s order =
      (s' : Schedualer) × (served : List Entry) × (last : Entry) × (cycles nows s ≡ done s')
      × (order ≡ served ++ last ∷ [])
      × (serve_entries served s.store ≡ done s'.store)
      × (s'.m_pq ≡ last ∷ [])
      × (cycle update died fuel now s' ≡ fault)

  cycles-Left :
      (n now : ℕ) (nows : List ℕ) (s : Schedualer) (q : List Entry) (t : Store)
      → s.m_pq ≡ q
      → length q ≡ suc n
      → length nows ≡ n
      → serve_entries (leaving comper_func (suc n) q) s.store ≡ done t
      → Left nows now s (leaving comper_func (suc n) q)
  unfolding extract
  cycles-Left n now nows s [] t same l m h = absurd (omega arith)
  cycles-Left zero now (time ∷ nows) s (e ∷ q) t same l m h = absurd (omega arith)
  cycles-Left zero now [] s (e ∷ f ∷ q) t same l m h = absurd (omega arith)
  cycles-Left zero now [] s (e ∷ []) t same l m h =
      let (u, one, _) = and_then-done (serve_entry e s.store) (serve_entries []) t h in
      (s, [], e, refl, refl, refl, same, cycle-rearm now s e [] u same one)
  cycles-Left (suc n) now [] s (e ∷ q) t same l m h = absurd (omega arith)
  cycles-Left (suc n) now (time ∷ nows) s (e ∷ q) t same l m h =
      let r = extract comper_func e q in
      let (u, one, rest) =
        and_then-done (serve_entry r.0 s.store) (serve_entries (leaving comper_func (suc n) r.1)) t
          h in
      let (x, armed, queue, store) =
        rearm-some n time r.1 (record s { m_pq = r.1; store = u })
          (omega (arith, l, length-extract comper_func e q)) in
      let cycled = cycle-rearm time s e q u same one ∙ armed in
      let (s', served, last, all, order, in_order, one_left, undefined) =
        cycles-Left n now nows x r.1 t queue (omega (arith, l, length-extract comper_func e q))
          (omega (arith, m))
          (subst (λ v. serve_entries (leaving comper_func (suc n) r.1) v ≡ done t) (sym store)
            rest) in
      (
        s',
        r.0 ∷ served,
        last,
        ap (λ o. and_then o (cycles nows)) cycled ∙ all,
        ap (◌∷◌ r.0) order,
        ap (λ o. and_then o (serve_entries served)) one
            ∙ subst (λ v. serve_entries served v ≡ done s'.store) store in_order,
        one_left,
        undefined,
      )

  -- If the owners' functions return when the entries are served in the order in which they leave the
  -- queue, then one round fewer than there are entries, at any times, return; they have served all but the
  -- last one, and the round that serves it is undefined.
  pub cycles-all :
      (now : ℕ) (nows : List ℕ) (s : Schedualer) (t : Store)
      → length s.m_pq ≡ suc (length nows)
      → serve_entries (leaving comper_func (length s.m_pq) s.m_pq) s.store ≡ done t
      → (served : List Entry) × (last : Entry) × (s' : Schedualer) × (leaving comper_func
            (length s.m_pq)
            s.m_pq
          ≡ served ++ last ∷ [])
        × Perm s.m_pq (served ++ last ∷ [])
        × IsAscending (served ++ last ∷ [])
        × (cycles nows s ≡ done s')
        × (serve_entries served s.store ≡ done s'.store)
        × (s'.m_pq ≡ last ∷ [])
        × (cycle update died fuel now s' ≡ fault)
  cycles-all now nows s t l h =
      let n = length nows in
      let order = leaving comper_func (suc n) s.m_pq in
      let (s', served, last, all, split, in_order, one_left, undefined) =
        cycles-Left n now nows s s.m_pq t refl l refl
          (subst (λ m. serve_entries (leaving comper_func m s.m_pq) s.store ≡ done t) l h) in
      (
        served,
        last,
        s',
        ap (λ m. leaving comper_func m s.m_pq) l ∙ split,
        subst (Perm s.m_pq) split (leaving-perm comper_func (suc n) s.m_pq l),
        subst IsAscending split (leaving-IsAscending (suc n) s.m_pq),
        all,
        in_order,
        one_left,
        undefined,
      )
