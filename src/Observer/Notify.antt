-- ===== src/Observer/Notify.antt =====
-- Whom `NotifyAll` calls, and what a handler that destroys its own callback does to it.
use mathlib.Core.List.{append-nil, append_assoc}
use distributed_nas.Base.{
  ℕ, zero, suc, ◌≤◌, ◌<◌, ◌≡◌, refl, ap, ◌∙◌, sym, List, [], ◌∷◌, ◌++◌, Option, none, some, arith,
  length, Outcome, done, fault,
}
use distributed_nas.Observer.{
  Node, Store, Call, on_event, attach, detach, destroy_callback, next_node, begin, walk, notify_all,
}

-- Keys fall along a list and stay below the next one: `attach` puts the newest node in front.
abbrev pub Below : ℕ → List Node → Type 0
Below b [] = Unit
Below b (n ∷ ns) = (n.key < b) × Below n.key ns

Below-suc : (b : ℕ) (ns : List Node) → Below b ns → Below (suc b) ns
Below-suc b [] h = tt
Below-suc b (n ∷ ns) h = (omega (arith, h.0), h.1)

pub attach-Below :
    (s : Store) (d c e : ℕ)
    → Below s.next_key (s.m_subscribers e)
    → Below s.next_key (s.m_subscribers d)
    → Below (attach d c s).next_key ((attach d c s).m_subscribers e)
unfolding attach
attach-Below s d c e b h = ground (arith, Below-suc s.next_key (s.m_subscribers e) b)

Below-lt : (b : ℕ) (pre ns : List Node) (n : Node) → Below b (pre ++ n ∷ ns) → n.key < b
Below-lt b [] ns n h = h.0
Below-lt b (p ∷ pre) ns n h = omega (arith, h.0, Below-lt p.key pre ns n h.1)

next_node-append :
    (b : ℕ) (pre ns : List Node) (n : Node)
    → Below b (pre ++ n ∷ ns)
    → next_node n.key (pre ++ n ∷ ns) ≡ some (begin ns)
next_node-append b [] [] n h = ground arith
next_node-append b [] (m ∷ ns) n h = ground arith
next_node-append b (p ∷ []) ns n h = ground (arith, h.1.0, next_node-append p.key [] ns n h.1)
next_node-append b (p ∷ q ∷ pre) ns n h =
    ground (arith, Below-lt p.key (q ∷ pre) ns n h.1, next_node-append p.key (q ∷ pre) ns n h.1)

module _ (visit : ℕ → Store → Store) (d : ℕ) where
  pub walk-next :
      (fuel : ℕ) (n : Node) (next : Option Node) (t : Store)
      → next_node n.key ((visit n.cb t).m_subscribers d) ≡ some next
      → walk visit d (suc fuel) (some n) t ≡ walk visit d fuel next (visit n.cb t)
  unfolding walk
  walk-next fuel n next t e = rw (e, walk)

  walk-gone :
      (fuel : ℕ) (n : Node) (t : Store)
      → next_node n.key ((visit n.cb t).m_subscribers d) ≡ none
      → walk visit d (suc fuel) (some n) t ≡ fault
  unfolding walk
  walk-gone fuel n t e = rw (e, walk)

  pub walk-end : (fuel : ℕ) (t : Store) → walk visit d fuel none t ≡ done t
  unfolding walk
  walk-end zero t = refl
  walk-end (suc fuel) t = refl

-- The calls of `NotifyAll` over some nodes.
abbrev pub calls : ℕ → List Node → List Call
calls event [] = []
calls event (n ∷ ns) = on_event n.cb event ∷ calls event ns

module _ (handler : ℕ → ℕ → Store → Store) (d event : ℕ)
    (keeps : (c : ℕ) (t : Store) → (handler c event t).m_subscribers d ≡ t.m_subscribers d)
    (silent : (c : ℕ) (t : Store) → (handler c event t).log ≡ t.log) where
  abbrev visit : ℕ → Store → Store
  visit c t = handler c event (record t { log = t.log ++ on_event c event ∷ [] })

  abbrev Ends : Store → List Node → List Node → Outcome Store → Type 0
  Ends t all ns r =
      (u : Store) × (r ≡ done u) × (u.log ≡ t.log ++ calls event ns) × (u.m_subscribers d ≡ all)

  walk-calls :
      (b fuel : ℕ) (pre ns : List Node) (t : Store)
      → t.m_subscribers d ≡ pre ++ ns
      → Below b (pre ++ ns)
      → length ns ≤ fuel
      → Ends t (pre ++ ns) ns (walk visit d fuel (begin ns) t)
  walk-calls b fuel pre [] t e h enough = (t, walk-end visit d fuel t, sym (append-nil t.log), e)
  walk-calls b zero pre (n ∷ ns) t e h enough = absurd (omega arith)
  walk-calls b (suc fuel) pre (n ∷ ns) t e h enough =
      let step = append_assoc pre (n ∷ []) ns in
      let t' = visit n.cb t in
      let subs : t'.m_subscribers d ≡ pre ++ n ∷ ns = keeps n.cb _ ∙ e in
      let (u, ends, logged, kept) =
        walk-calls b fuel (pre ++ n ∷ []) ns t' (subs ∙ sym step) (rw step h) (omega arith) in
      (
        u,
        walk-next visit d fuel n (begin ns) t (rw subs (next_node-append b pre ns n h)) ∙ ends,
        logged
            ∙ ap (λ l. l ++ calls event ns) (silent n.cb _)
            ∙ append_assoc t.log (on_event n.cb event ∷ []) (calls event ns),
        kept ∙ step,
      )

  -- If the owners' functions leave the dispatcher's list and the log alone, then with fuel for its
  -- nodes `NotifyAll` returns, has called every subscriber once with the event, the newest first, and
  -- has left the list as it was.
  pub notify_all-calls :
      (s : Store) (fuel : ℕ)
      → Below s.next_key (s.m_subscribers d)
      → length (s.m_subscribers d) ≤ fuel
      → (u : Store) × (notify_all handler fuel d event s ≡ done u)
        × (u.log ≡ s.log ++ calls event (s.m_subscribers d))
        × (u.m_subscribers d ≡ s.m_subscribers d)
  unfolding notify_all
  notify_all-calls s fuel h enough =
      walk-calls s.next_key fuel [] (s.m_subscribers d) s refl h enough

-- A handler that destroys its own callback.
unfoldable pub destroy_self : ℕ → ℕ → Store → Store
destroy_self c event s = destroy_callback c s

next_node-Below : (b : ℕ) (ns : List Node) → Below b ns → next_node b ns ≡ none
next_node-Below b [] h = refl
next_node-Below b (n ∷ []) h = ground arith
next_node-Below b (n ∷ m ∷ ns) h =
    ground (arith, next_node-Below b (m ∷ ns) (omega (arith, h.0, h.1.0), h.1.1))

erased_first :
    (t : Store) (d : ℕ) (n : Node) (ns : List Node)
    → t.m_subscribers d ≡ n ∷ ns
    → t.m_dispatcher n.cb ≡ some d
    → (destroy_callback n.cb t).m_subscribers d ≡ ns
unfolding destroy_callback detach
erased_first t d n ns e points = rw (points, destroy_callback) (rw e (ground arith))

-- If the first subscriber destroys its own callback when it is called, the node under the iterator of
-- `NotifyAll` is gone, and stepping on from it is undefined.
pub notify_all-destroy_self :
    (s : Store) (d event fuel : ℕ) (n : Node) (ns : List Node)
    → s.m_subscribers d ≡ n ∷ ns
    → Below s.next_key (n ∷ ns)
    → s.m_dispatcher n.cb ≡ some d
    → notify_all destroy_self (suc fuel) d event s ≡ fault
unfolding notify_all
notify_all-destroy_self s d event fuel n ns e h points =
    let told = record s { log = s.log ++ on_event n.cb event ∷ [] } in
    let gone : (destroy_self n.cb event told).m_subscribers d ≡ ns =
      unfold destroy_self in erased_first told d n ns e points in
    rw e (
      walk-gone (λ c t. destroy_self c event (record t { log = t.log ++ on_event c event ∷ [] })) d
        fuel n s (rw gone (next_node-Below n.key ns h.1)))
