-- ===== src/Pool/Turns.antt =====
-- The turns of a thread, and the number and the map that the pool keeps of the threads.
use distributed_nas.Base.{
  ℕ, ◌≡◌, refl, sym, Bool, true, false, List, [], ◌∷◌, some, arith, get_elem?, if◌then◌else◌,
  Option-cases, inl, inr,
}
use distributed_nas.Base.Map.{find}
use distributed_nas.Queue.{extract}
use distributed_nas.Pool.{
  Task, user, pause_task, delete_task, Worker, starting, idle, checked, asleep, woken, ended,
  running, Pool, wake, is_free, put, run_delete, take_from, take_task, compare_functor, work_at,
  work, wake_up,
}
use distributed_nas.Pool.Workers.{alive, is_registered, registered-wake}
use distributed_nas.Pool.Threads.{Inv, Keeps, put-Inv, register-Inv, delete-Inv, queue-Inv}

take_from-Inv :
    (ts : List Task) (p : Pool) (x i : ℕ)
    → get_elem? p.threads i ≡ some idle
    → Inv p x
    → Inv (take_from ts i p) x
unfolding take_from
take_from-Inv [] p x i e v = v
take_from-Inv (t ∷ ts) p x i e v =
    let r = extract compare_functor t ts in
    queue-Inv r.1 p.executed (put-Inv i idle (running r.0) e refl refl v)

run_delete-Inv :
    (p : Pool) (x i : ℕ)
    → get_elem? p.threads i ≡ some (running delete_task)
    → Inv p x
    → Keeps x (run_delete i p)
unfolding run_delete
run_delete-Inv p x i e v = elim (Option-cases (find i p.m_map)) [
  | inl missing ↦ absurd (ground (arith, v.mapped i))
  | inr (functor, there) ↦ (_, rw (there, run_delete), delete-Inv i e v)
]

lock_cv-Inv :
    (paused : Bool) (p : Pool) (x i : ℕ) (w : Worker)
    → get_elem? p.threads i ≡ some w
    → alive w ≡ 1
    → is_registered (some w) ≡ true
    → Inv p x
    → Inv (put i (if paused then checked else idle) p) x
lock_cv-Inv true p x i w e a r v = put-Inv i w checked e (sym a) (sym r) v
lock_cv-Inv false p x i w e a r v = put-Inv i w idle e (sym a) (sym r) v

work_at-Inv :
    (w : Worker) (free : Bool) (p : Pool) (x i : ℕ)
    → get_elem? p.threads i ≡ some w
    → Inv p x
    → Keeps x (work_at w free i p)
unfolding work_at take_task
work_at-Inv starting true p x i e v = (_, refl, register-Inv i e v)
work_at-Inv starting false p x i e v = (p, refl, v)
work_at-Inv idle free p x i e v = (_, refl, take_from-Inv p.m_wq p x i e v)
work_at-Inv (running (user k q)) free p x i e v =
    (_, refl, queue-Inv p.m_wq (k ∷ p.executed) (put-Inv i (running (user k q)) idle e refl refl v))
work_at-Inv (running pause_task) true p x i e v =
    (_, refl, lock_cv-Inv p.m_is_paused p x i (running pause_task) e refl refl v)
work_at-Inv (running pause_task) false p x i e v = (p, refl, v)
work_at-Inv (running delete_task) true p x i e v = run_delete-Inv p x i e v
work_at-Inv (running delete_task) false p x i e v = (p, refl, v)
work_at-Inv checked free p x i e v = (_, refl, put-Inv i checked asleep e refl refl v)
work_at-Inv woken true p x i e v = (_, refl, lock_cv-Inv p.m_is_paused p x i woken e refl refl v)
work_at-Inv woken false p x i e v = (p, refl, v)
work_at-Inv asleep free p x i e v = (p, refl, v)
work_at-Inv ended free p x i e v = (p, refl, v)

pub work-Inv : (p : Pool) (x i : ℕ) → Inv p x → Keeps x (work i p)
unfolding work
work-Inv p x i v = elim (Option-cases (get_elem? p.threads i)) [
  | inl e ↦ (p, rw (e, work), v)
  | inr (w, e) ↦
      let (q, r, inv) = work_at-Inv w (is_free p.threads) p x i e v in (q, rw (e, work) r, inv)
]

alive-wake : (w : Worker) → alive (wake w) ≡ alive w
alive-wake asleep = refl
alive-wake starting = refl
alive-wake idle = refl
alive-wake checked = refl
alive-wake woken = refl
alive-wake ended = refl
alive-wake (running t) = refl

pub wake_up-Inv : (p : Pool) (x i : ℕ) → Inv p x → Inv (wake_up i p) x
unfolding wake_up
wake_up-Inv p x i v = elim (Option-cases (get_elem? p.threads i)) [
  | inl e ↦ rw (e, wake_up) v
  | inr (w, e) ↦ rw (e, wake_up) (put-Inv i w (wake w) e (alive-wake w) (registered-wake w) v)
]
