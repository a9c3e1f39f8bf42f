-- ===== src/Observer/Links.antt =====
-- How the pointers of callbacks and the lists of dispatchers relate.
use distributed_nas.Base.{
  ℕ, ◌+◌, ◌-◌, ◌≡◌, ◌≢◌, refl, List, [], ◌∷◌, true, false, Option, none, some, arith, ◌==◌,
  if◌then◌else◌, inl, inr, Option-cases,
}
use distributed_nas.Observer.{Node, Store, attach, remove_first, contains, detach, destroy_callback}

-- How often a callback stands in a list.
abbrev pub occurs : ℕ → List Node → ℕ
occurs c [] = 0
occurs c (n ∷ ns) = (if n.cb == c then 1 else 0) + occurs c ns

abbrev pub points : Option ℕ → ℕ → ℕ
points none d = 0
points (some e) d = if e == d then 1 else 0

-- A callback stands once in the list of the dispatcher that it points at, and in no other list.
pub record IsLinked (s : Store) : Type 0 where
  pub linked : (c d : ℕ) → occurs c (s.m_subscribers d) ≡ points (s.m_dispatcher c) d

occurs-remove_first :
    (c b : ℕ) (ns : List Node)
    → occurs b (remove_first c ns)
      ≡ occurs b ns - (if c == b then (if contains c ns then 1 else 0) else 0)
occurs-remove_first c b [] = ground arith
occurs-remove_first c b (n ∷ ns) = ground (arith, occurs-remove_first c b ns)

pub contains-occurs :
    (c : ℕ) (ns : List Node) → contains c ns ≡ (if occurs c ns == 0 then false else true)
contains-occurs c [] = refl
contains-occurs c (n ∷ ns) = ground (arith, contains-occurs c ns)

pub attach-IsLinked :
    (s : Store) (d c : ℕ) → s.m_dispatcher c ≡ none → IsLinked s → IsLinked (attach d c s)
unfolding attach
attach-IsLinked s d c free l = record {
  linked = λ b e. ground (arith, l.linked b e, l.linked c e, l.linked c d);
}

pub detach-IsLinked : (s : Store) (d c : ℕ) → IsLinked s → IsLinked (detach d c s)
unfolding detach
detach-IsLinked s d c l = record {
  linked = λ b e. ground (
    arith,
    l.linked b e,
    l.linked c e,
    l.linked c d,
    l.linked b d,
    contains-occurs c (s.m_subscribers d),
    occurs-remove_first c b (s.m_subscribers d),
  );
}

-- Whenever the links agree, the destructor of a callback leaves it in no dispatcher's list, takes no
-- other callback out of one, and the links still agree.
pub destroy_callback-IsLinked :
    (s : Store) (c b d : ℕ)
    → IsLinked s
    → IsLinked (destroy_callback c s)
      × (occurs b ((destroy_callback c s).m_subscribers d)
          ≡ (if b == c then 0 else occurs b (s.m_subscribers d)))
unfolding destroy_callback
destroy_callback-IsLinked s c b d l = elim (Option-cases (s.m_dispatcher c)) [
  | inl e ↦ rw (e, destroy_callback) (l, ground (arith, l.linked c d))
  | inr (f, e) ↦
      rw (e, destroy_callback)
        (
          detach-IsLinked s f c l,
          unfold detach in
              ground (
                arith,
                l.linked c d,
                l.linked c f,
                contains-occurs c (s.m_subscribers f),
                occurs-remove_first c b (s.m_subscribers f),
              ),
        )
]

-- A callback that is attached to a second dispatcher while it stands in the list of another is
-- still in that list after its destructor: a dangling pointer.
pub destroy_callback-attach :
    (s : Store) (c d e : ℕ)
    → IsLinked s
    → s.m_dispatcher c ≡ some d
    → d ≢ e
    → occurs c ((destroy_callback c (attach e c s)).m_subscribers d) ≡ 1
unfolding destroy_callback attach detach
destroy_callback-attach s c d e l h apart = ground (arith, l.linked c d)
