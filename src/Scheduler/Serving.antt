-- ===== src/Scheduler/Serving.antt =====
-- The calls that entries of the scheduler get when they are served.
use mathlib.Core.List.{Perm, append_assoc, append-nil}
use distributed_nas.Base
use distributed_nas.Base.{
  total, total-append, fault, ℕ, zero, suc, ◌+◌, ◌≤◌, ◌≡◌, ◌≢◌, refl, sym, ap, ◌∙◌, subst, Bool,
  false, List, [], ◌∷◌, ◌++◌, arith, length, All, ◌==◌, ==_iff, ==_refl, if◌then◌else◌, Outcome,
  done, and_then, Bool-cases, inl, inr, some, none,
}
use distributed_nas.Observer.{
  Node, Store, Call, on_event, on_subj_death, walk, begin, set_dispatcher, notify_all,
  destroy_dispatcher,
}
use distributed_nas.Observer.Notify.{walk-next, walk-end}
use distributed_nas.Queue.{extract}
use distributed_nas.Queue.Order.{length-extract}
use distributed_nas.Queue.Leaving.{leaving, leaving-All}
use distributed_nas.Scheduler.{Entry, comper_func, Schedualer, cycle}
use distributed_nas.Scheduler.Cycling.{IsAscending, serve_entry, serve_entries, cycles, cycles-all}

-- How many entries have a dispatcher.
abbrev is_of : ℕ → Entry → ℕ
is_of d e = if e.dispatcher == d then 1 else 0

abbrev pub IsDistinct : List Entry → Type 0
IsDistinct q = (d : ℕ) → total (is_of d) q ≤ 1

extract-is_of :
    (d : ℕ) (e : Entry) (q : List Entry)
    → is_of d (extract comper_func e q).0 + total (is_of d) (extract comper_func e q).1
      ≡ is_of d e + total (is_of d) q
unfolding extract
extract-is_of d e [] = refl
extract-is_of d e (f ∷ q) = elim (Bool-cases (comper_func e f)) [
  | inl c ↦ rw c (omega (arith, extract-is_of d f q))
  | inr c ↦ rw c (omega (arith, extract-is_of d e q))
]

leaving-is_of :
    (d n : ℕ) (q : List Entry)
    → length q ≡ n
    → total (is_of d) (leaving comper_func n q) ≡ total (is_of d) q
leaving-is_of d zero [] l = refl
leaving-is_of d zero (e ∷ q) l = absurd (omega arith)
leaving-is_of d (suc n) [] l = absurd (omega arith)
leaving-is_of d (suc n) (e ∷ q) l = omega (
  arith,
  extract-is_of d e q,
  leaving-is_of d n (extract comper_func e q).1 (omega (arith, l, length-extract comper_func e q)),
)

-- A walk over a list with one node.
walk-one :
    (visit : ℕ → Store → Store) (d fuel : ℕ) (n : Node) (s : Store)
    → s.m_subscribers d ≡ n ∷ []
    → (visit n.cb s).m_subscribers d ≡ n ∷ []
    → walk visit d (suc fuel) (begin (s.m_subscribers d)) s ≡ done (visit n.cb s)
walk-one visit d fuel n s before after = rw before (
    walk-next visit d fuel n none s (rw after (rw (==_refl n.key) refl))
    ∙ walk-end visit d fuel (visit n.cb s))

module _ (cb_of : ℕ → ℕ) where
  -- The dispatcher of an entry has one subscriber, as `Add` makes it.
  abbrev pub HasOne : Store → Entry → Type 0
  HasOne t e =
      (k : ℕ) × (t.m_subscribers e.dispatcher ≡ record { key = k; cb = cb_of e.dispatcher } ∷ [])

  -- What the callbacks of entries are told, one after the other.
  abbrev pub told : List Entry → List Call
  told [] = []
  told (e ∷ es) = on_event (cb_of e.dispatcher) 0 ∷ on_subj_death (cb_of e.dispatcher) ∷ told es

module _ (update : ℕ → ℕ → Store → Store) (died : ℕ → Store → Store) (fuel : ℕ) (cb_of : ℕ → ℕ)
    (lists_kept : (c event d : ℕ) (t : Store)
      → (update c event t).m_subscribers d ≡ t.m_subscribers d)
    (log_kept : (c event : ℕ) (t : Store) → (update c event t).log ≡ t.log)
    (lists_left : (c d : ℕ) (t : Store) → (died c t).m_subscribers d ≡ t.m_subscribers d)
    (log_left : (c : ℕ) (t : Store) → (died c t).log ≡ t.log) where
  abbrev Answers : Entry → Store → Store → Type 0
  Answers e t u =
      (u.log ≡ t.log ++ told cb_of (e ∷ []))
      × ((d : ℕ) → (e.dispatcher == d) ≡ false → u.m_subscribers d ≡ t.m_subscribers d)

  serve_entry-told :
      (e : Entry) (t : Store)
      → HasOne cb_of t e
      → (u : Store) × (serve_entry update died (suc fuel) e t ≡ done u) × Answers e t u
  unfolding notify_all destroy_dispatcher
  serve_entry-told e t (k, one) =
      let d = e.dispatcher in
      let c = cb_of d in
      let n : Node = record { key = k; cb = c } in
      let v = update c 0 (record t { log = t.log ++ on_event c 0 ∷ [] }) in
      let here : v.m_subscribers d ≡ n ∷ [] = lists_kept c 0 d _ ∙ one in
      let w = set_dispatcher c none (died c (record v { log = v.log ++ on_subj_death c ∷ [] })) in
      let still : w.m_subscribers d ≡ n ∷ [] = lists_left c d _ ∙ here in
      let u = record w { m_subscribers = Base.update w.m_subscribers d [] } in
      (
        u,
        rw
            (walk-one (λ i s. update i 0 (record s { log = s.log ++ on_event i 0 ∷ [] })) d fuel n t
              one here)
            (rw
              (
                walk-one
                    (λ i s.
                      set_dispatcher i none
                        (died i (record s { log = s.log ++ on_subj_death i ∷ [] })))
                    d fuel n v here still,
                destroy_dispatcher,
              )
              refl),
        (
          log_left c _
              ∙ ap (λ l. l ++ on_subj_death c ∷ []) (log_kept c 0 _)
              ∙ append_assoc t.log (on_event c 0 ∷ []) (on_subj_death c ∷ []),
          λ i other. rw other (lists_left c i _ ∙ lists_kept c 0 i _),
        ),
      )

  HasOne-kept :
      (e : Entry) (t u : Store) (es : List Entry)
      → total (is_of e.dispatcher) es ≡ 0
      → ((d : ℕ) → (e.dispatcher == d) ≡ false → u.m_subscribers d ≡ t.m_subscribers d)
      → All (HasOne cb_of t) es
      → All (HasOne cb_of u) es
  HasOne-kept e t u [] none_more kept h = tt
  HasOne-kept e t u (f ∷ es) none_more kept ((k, one), hs) =
      let other : (e.dispatcher == f.dispatcher) ≡ false = ground (arith, none_more) in
      ((k, kept f.dispatcher other ∙ one), HasOne-kept e t u es (omega (arith, none_more)) kept hs)

  serve_entries-told :
      (es : List Entry) (t : Store)
      → IsDistinct es
      → All (HasOne cb_of t) es
      → (u : Store) × (serve_entries update died (suc fuel) es t ≡ done u)
        × (u.log ≡ t.log ++ told cb_of es)
  serve_entries-told [] t h one = (t, refl, sym (append-nil t.log))
  serve_entries-told (e ∷ es) t h (one, ones) =
      let (v, served, (logged, kept)) = serve_entry-told e t one in
      let own : is_of e.dispatcher e ≡ 1 = rw (==_refl e.dispatcher) refl in
      let (u, ran, rest) =
        serve_entries-told es v (λ d. omega (arith, h d))
          (HasOne-kept e t v es (omega (arith, own, h e.dispatcher)) kept ones) in
      (
        u,
        ap (λ o. and_then o (serve_entries update died (suc fuel) es)) served ∙ ran,
        rest
            ∙ ap (λ l. l ++ told cb_of es) logged
            ∙ append_assoc t.log (told cb_of (e ∷ [])) (told cb_of es),
      )

  All-before :
      (es : List Entry) (e : Entry) (t : Store)
      → All (HasOne cb_of t) (es ++ e ∷ [])
      → All (HasOne cb_of t) es
  All-before [] e t h = tt
  All-before (f ∷ es) e t (h, hs) = (h, All-before es e t hs)

  -- A scheduler to which nothing is added serves its entries in the order of their time points, and the
  -- round that serves the last one is undefined. The dispatchers of the entries differ, each has the one
  -- subscriber that `Add` has attached, and the owners' functions leave the lists and the log alone. Then
  -- one round fewer than there are entries, at any times, return: they have told the callback of each
  -- entry but the last one, in that order, the event 0 and then the death of its dispatcher, once, and
  -- nothing else; the entry that is due last is left; and the round that serves it asks for the top of
  -- the queue that it has emptied.
  pub cycles-told :
      (now : ℕ) (nows : List ℕ) (s : Schedualer)
      → length s.m_pq ≡ suc (length nows)
      → IsDistinct s.m_pq
      → All (HasOne cb_of s.store) s.m_pq
      → (served : List Entry) × (last : Entry) × (s' : Schedualer) × Perm s.m_pq
          (served ++ last ∷ [])
        × IsAscending (served ++ last ∷ [])
        × (cycles update died (suc fuel) nows s ≡ done s')
        × (s'.store.log ≡ s.store.log ++ told cb_of served)
        × (s'.m_pq ≡ last ∷ [])
        × (cycle update died (suc fuel) now s' ≡ fault)
  cycles-told now nows s l distinct ones =
      let n = length s.m_pq in
      let order = leaving comper_func n s.m_pq in
      let distinct_order : IsDistinct order =
        λ d. omega (arith, distinct d, leaving-is_of d n s.m_pq refl) in
      let ones_order = leaving-All comper_func (HasOne cb_of s.store) n s.m_pq ones in
      let (t, served_all, _) = serve_entries-told order s.store distinct_order ones_order in
      let (served, last, s', split, perm, ascending, ran, in_order, one_left, undefined) =
        cycles-all update died (suc fuel) now nows s t l served_all in
      let ones_split = subst (All (HasOne cb_of s.store)) split ones_order in
      let (u, served_these, logged) =
        serve_entries-told served s.store
          (λ d. omega (
            arith,
            ap (total (is_of d)) split,
            total-append (is_of d) served last,
            distinct_order d,
          ))
          (All-before served last s.store ones_split) in
      let twice : done u ≡ done s'.store = sym served_these ∙ in_order in
      let same : u ≡ s'.store = cc in
      (
        served,
        last,
        s',
        perm,
        ascending,
        ran,
        ap (λ v. v.log) (sym same) ∙ logged,
        one_left,
        undefined,
      )
