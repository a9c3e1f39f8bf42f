-- ===== src/System/Agreement.antt =====
-- Each move of the system beside its turns in the pipeline.
use distributed_nas.Base.{
  ℕ, ◌≡◌, refl, sym, List, [], ◌∷◌, some, arith, get_elem?, length, length-append, Outcome, done,
  waiting, fault, Outcome-cases, Option-cases, inl, inr, and_then,
}
use distributed_nas.Nbd.Server.{Server}
use distributed_nas.Nbd.Proxy.{on_socket_ready}
use distributed_nas.Nbd.Handlers.{nbd_device, flow_factory}
use distributed_nas.Engine.{ReTask, Engine, request_cb, run_task}
use distributed_nas.Nbd.Pipeline.{Pipeline, arrives, arrive, run_picked, turn, turns}
use distributed_nas.Pool.{Pool}
use distributed_nas.Pool.Executing.{user_task}
use distributed_nas.System.{
  System, Move, receives, runs, wakens, pausing, resuming, stopping, resizing, action_of, receive,
  run_logged, run_user, serve_move, system_step,
}
use distributed_nas.System.Schedule.{pool_after, turns_of, pending_after, count_after}
use distributed_nas.System.Picking.{Holds, Holds-append, pick-index_of}
use distributed_nas.System.Moves.{pipeline_of, Stands, is_waiting, pool-moves}

module _ {F : Type 0} where
  -- Both return, the pipeline with the system's device and with tasks of which `K` holds, or both wait
  -- for their environment, or both meet undefined behaviour.
  abbrev pub Agrees :
      (System F → List (ReTask F) → Type 0) → Outcome (System F) → Outcome (Pipeline F) → Type 0
  Agrees K (done s) (done p) = (ts : List (ReTask F)) × (p ≡ pipeline_of s ts) × K s ts
  Agrees K waiting waiting = Unit
  Agrees K fault fault = Unit
  Agrees K r o = ⊥

  pub Agrees-and_then :
      (K L : System F → List (ReTask F) → Type 0) (f : System F → Outcome (System F))
      (g : Pipeline F → Outcome (Pipeline F)) (r : Outcome (System F)) (o : Outcome (Pipeline F))
      → Agrees K r o
      → ((s : System F) (ts : List (ReTask F)) → K s ts → Agrees L (f s) (g (pipeline_of s ts)))
      → Agrees L (and_then r f) (and_then o g)
  Agrees-and_then K L f g (done s) (done p) (ts, e, k) h = rw e (h s ts k)
  Agrees-and_then K L f g (done s) waiting a h = absurd a
  Agrees-and_then K L f g (done s) fault a h = absurd a
  Agrees-and_then K L f g waiting (done p) a h = absurd a
  Agrees-and_then K L f g waiting waiting a h = tt
  Agrees-and_then K L f g waiting fault a h = absurd a
  Agrees-and_then K L f g fault (done p) a h = absurd a
  Agrees-and_then K L f g fault waiting a h = absurd a
  Agrees-and_then K L f g fault fault a h = tt

  -- What holds after move `m` of a system with pool `p`, after `n` tasks of which `ks` wait.
  abbrev pub After : ℕ → Move → Pool → List ℕ → System F → List (ReTask F) → Type 0
  After n m p ks s ts =
      (s.pool ≡ pool_after (action_of n m) p)
      × (length s.engine.m_tp ≡ count_after n m)
      × Stands s (pending_after n m p ks) ts

  -- A move whose part outside the pool returns, with turns that do the same.
  moved-Agrees :
      (m : Move) (s : System F) (ks : List ℕ) (ts us : List (ReTask F)) (srv : Server F)
      (e : Engine F)
      → Stands s ks ts
      → serve_move m s ≡ done (srv, e)
      → turns (turns_of (length s.engine.m_tp) m s.pool ks) (pipeline_of s ts)
        ≡ done (record { server = srv; engine = record e { m_tp = us } })
      → length e.m_tp ≡ count_after (length s.engine.m_tp) m
      → Holds e.m_tp (pending_after (length s.engine.m_tp) m s.pool ks) us
      → Agrees
          (After (length s.engine.m_tp) m s.pool ks)
          (system_step m s)
          (turns (turns_of (length s.engine.m_tp) m s.pool ks) (pipeline_of s ts))
  unfolding system_step
  moved-Agrees m s ks ts us srv e v served made count held =
      let n = length s.engine.m_tp in
      let (q, stepped, w, inv) = pool-moves n m s.pool ks v.excess v.all_waiting v.counted in
      rw (made, served)
        (rw stepped (
          us,
          refl,
          (
            rw (stepped, pool_after) refl,
            count,
            record { same_tasks = held; all_waiting = w; excess = _; counted = inv },
          ),
        ))

  -- A move that runs no task is no turn.
  quiet-Agrees :
      (m : Move) (s : System F) (ks : List ℕ) (ts : List (ReTask F))
      → Stands s ks ts
      → serve_move m s ≡ done (s.server, s.engine)
      → count_after (length s.engine.m_tp) m ≡ length s.engine.m_tp
      → pending_after (length s.engine.m_tp) m s.pool ks ≡ ks
      → turns_of (length s.engine.m_tp) m s.pool ks ≡ []
      → Agrees
          (After (length s.engine.m_tp) m s.pool ks)
          (system_step m s)
          (turns (turns_of (length s.engine.m_tp) m s.pool ks) (pipeline_of s ts))
  unfolding turns
  quiet-Agrees m s ks ts v served count same none_made =
      moved-Agrees m s ks ts ts s.server s.engine v served (rw none_made refl) (sym count)
        (rw same v.same_tasks)

  -- A move that is stuck, with turns that are stuck alike.
  waiting-Agrees :
      (K : System F → List (ReTask F) → Type 0) (m : Move) (s : System F) {o : Outcome (Pipeline F)}
      → serve_move m s ≡ waiting
      → o ≡ waiting
      → Agrees K (system_step m s) o
  unfolding system_step
  waiting-Agrees K m s served made = rw (made, served) tt

  fault-Agrees :
      (K : System F → List (ReTask F) → Type 0) (m : Move) (s : System F) {o : Outcome (Pipeline F)}
      → serve_move m s ≡ fault
      → o ≡ fault
      → Agrees K (system_step m s) o
  unfolding system_step
  fault-Agrees K m s served made = rw (made, served) tt

  receive-Agrees :
      (place : ℕ) (s : System F) (ks : List ℕ) (ts : List (ReTask F))
      → Stands s ks ts
      → Agrees
          (After (length s.engine.m_tp) (receives place) s.pool ks)
          (system_step (receives place) s)
          (turns (arrives ∷ []) (pipeline_of s ts))
  unfolding serve_move receive turns turn arrive request_cb
  receive-Agrees place s ks ts v = elim (Outcome-cases (on_socket_ready s.server)) [
    | inl ((req, srv), got) ↦
        moved-Agrees (receives place) s ks ts _ srv (request_cb req nbd_device s.engine) v
          (rw got refl) (rw (got, turns) refl) (omega (arith, length-append s.engine.m_tp _))
          (Holds-append s.engine.m_tp _ ks ts v.same_tasks)
    | inr (inl none_yet) ↦
        waiting-Agrees _ (receives place) s (rw none_yet refl) (rw (none_yet, turns) refl)
    | inr (inr bad) ↦ fault-Agrees _ (receives place) s (rw bad refl) (rw (bad, turns) refl)
  ]

  -- A thread that runs task `k` is the turn of the place of `k` among the tasks that wait.
  run-Agrees :
      (i k : ℕ) (s : System F) (ks : List ℕ) (ts : List (ReTask F))
      → user_task (get_elem? s.pool.threads i) ≡ some k
      → Stands s ks ts
      → Agrees
          (After (length s.engine.m_tp) (runs i) s.pool ks)
          (system_step (runs i) s)
          (turns (turns_of (length s.engine.m_tp) (runs i) s.pool ks) (pipeline_of s ts))
  unfolding serve_move run_user run_logged turns turn run_picked
  run-Agrees i k s ks ts at_task v =
      let (task, rest, picked, there, held) =
        pick-index_of s.engine.m_tp k ks ts (is_waiting k ks s.pool i v.all_waiting at_task)
          v.same_tasks in
      elim (Outcome-cases (run_task flow_factory task s.server)) [
        | inl ((u, srv), ran_it) ↦
            moved-Agrees (runs i) s ks ts rest srv s.engine v
              (rw at_task (rw there (rw ran_it refl)))
              (rw at_task (rw (picked, turns) (rw (ran_it, turns) refl))) refl (rw at_task held)
        | inr (inl none_yet) ↦
            waiting-Agrees _ (runs i) s (rw at_task (rw there (rw none_yet refl)))
              (rw at_task (rw (picked, turns) (rw (none_yet, turns) refl)))
        | inr (inr bad) ↦
            fault-Agrees _ (runs i) s (rw at_task (rw there (rw bad refl)))
              (rw at_task (rw (picked, turns) (rw (bad, turns) refl)))
      ]

  pub step-Agrees :
      (m : Move) (s : System F) (ks : List ℕ) (ts : List (ReTask F))
      → Stands s ks ts
      → Agrees
          (After (length s.engine.m_tp) m s.pool ks)
          (system_step m s)
          (turns (turns_of (length s.engine.m_tp) m s.pool ks) (pipeline_of s ts))
  unfolding serve_move run_user
  step-Agrees (receives place) s ks ts v = receive-Agrees place s ks ts v
  step-Agrees (runs i) s ks ts v = elim (Option-cases (user_task (get_elem? s.pool.threads i))) [
    | inl e ↦ quiet-Agrees (runs i) s ks ts v (rw e refl) refl (rw e refl) (rw e refl)
    | inr (k, e) ↦ run-Agrees i k s ks ts e v
  ]
  step-Agrees (wakens i) s ks ts v = quiet-Agrees (wakens i) s ks ts v refl refl refl refl
  step-Agrees pausing s ks ts v = quiet-Agrees pausing s ks ts v refl refl refl refl
  step-Agrees resuming s ks ts v = quiet-Agrees resuming s ks ts v refl refl refl refl
  step-Agrees stopping s ks ts v = quiet-Agrees stopping s ks ts v refl refl refl refl
  step-Agrees (resizing num) s ks ts v = quiet-Agrees (resizing num) s ks ts v refl refl refl refl
