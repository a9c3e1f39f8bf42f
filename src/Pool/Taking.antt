-- ===== src/Pool/Taking.antt =====
-- Which task a thread takes.
use mathlib.Core.List.{Perm}
use distributed_nas.Base.{
  ℕ, ◌≤◌, ◌≡◌, refl, false, List, [], ◌∷◌, some, arith, set, get_elem?, done, All,
}
use distributed_nas.Queue.{extract}
use distributed_nas.Queue.Order.{StrictWeakOrder, by_key}
use distributed_nas.Queue.Waiting.{extract-Takes}
use distributed_nas.Pool.{
  Task, get_priority, compare_functor, idle, running, Pool, take_from, take_task, work_at, work,
}

All-le :
    (u : Task) (ts : List Task)
    → All (λ v. compare_functor u v ≡ false) ts
    → All (λ v. get_priority u ≤ get_priority v) ts
unfolding compare_functor
All-le u [] h = tt
All-le u (v ∷ ts) h = (ground (arith, h.0), All-le u ts h.1)

-- A thread that takes a task from a queue with one takes a task of the lowest priority there: `LOW`
-- before `HIGH`, and the pool's own pause and delete tasks after all others.
pub work-lowest :
    (p : Pool) (i : ℕ) (t : Task) (ts : List Task)
    → get_elem? p.threads i ≡ some idle
    → p.m_wq ≡ t ∷ ts
    → (u : Task) × (rest : List Task) × (work i p
        ≡ done (record p { m_wq = rest; threads = set p.threads i (running u) }))
      × Perm (t ∷ ts) (u ∷ rest)
      × All (λ v. get_priority u ≤ get_priority v) rest
unfolding work work_at take_task take_from
work-lowest p i t ts e q =
    let r = extract compare_functor t ts in
    let takes = extract-Takes compare_functor task_order t ts in
    (r.0, r.1, rw (e, work) (rw q refl), takes.same, All-le r.0 r.1 takes.first)
  where
    task_order : StrictWeakOrder compare_functor
    task_order = unfold compare_functor in by_key get_priority
