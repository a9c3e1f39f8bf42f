-- ===== src/System/Disconnecting.antt =====
-- A disconnect command that comes to the server.
use distributed_nas.Base.{
  ℕ, suc, ◌+◌, ◌≤◌, map, All, ◌++◌, ◌≡◌, refl, ap, ◌∙◌, subst, List, [], ◌∷◌, length, pos, Outcome,
  done, waiting, fault,
}
use distributed_nas.Nbd.Io.{ReadCall}
use distributed_nas.Nbd.Io.Reading.{Supplies}
use distributed_nas.Nbd.Server.{Server}
use distributed_nas.Nbd.Proxy.{nbd_cmd_disc, plain}
use distributed_nas.Nbd.Proxy.Decoding.{encode_request}
use distributed_nas.Nbd.Proxy.Requests.{on_socket_ready-disc}
use distributed_nas.Nbd.Handlers.{nbd_device, flow_factory}
use distributed_nas.Factory.{add, create}
use distributed_nas.Engine.{ReTask, Engine, add_to_factory, request_cb, run_task}
use distributed_nas.Nbd.Pipeline.{
  Pipeline, Turn, arrives, works, run_picked, turn, turns, arrive-done, turns-done,
}
use distributed_nas.Pool.{thread_pool}
use distributed_nas.Pool.Rounds.{Covers}
use distributed_nas.System.Finishing.{moves_of}
use distributed_nas.System.Alone.{schedule-one}
use distributed_nas.System.{System, Move, receives, runs, system_run, system}
use distributed_nas.System.Schedule.{schedule}
use distributed_nas.System.Agreement.{Agrees}
use distributed_nas.System.Refinement.{system_run-turns}

module _ {F : Type 0} where
  run_task-disc :
      (t : ReTask F) (s : Server F)
      → t.m_request ≡ plain 0x02000000
      → run_task flow_factory t s ≡ fault
  unfolding run_task flow_factory add_to_factory add create
  run_task-disc t s e = rw (e, run_task) refl

  Agrees-fault :
      (K : System F → List (ReTask F) → Type 0) (r : Outcome (System F))
      → Agrees K r fault
      → r ≡ fault
  Agrees-fault K (done s) a = absurd a
  Agrees-fault K waiting a = absurd a
  Agrees-fault K fault a = refl

  turns-disc :
      (us : List Turn) (server : Server F) (e : Engine F) (handle : List ℕ) (from len : ℕ)
      (rest : List ReadCall)
      → e.m_tp ≡ []
      → length handle ≡ 8
      → Supplies server.from_socket (encode_request nbd_cmd_disc handle from len) rest
      → turns (arrives ∷ works 0 ∷ us) (record { server = server; engine = e }) ≡ fault
  unfolding turns turn run_picked request_cb
  turns-disc us server e handle from len rest none_yet eight sup =
      let p : Pipeline F = record { server = server; engine = e } in
      let task : ReTask F = record {
        m_request = plain 0x02000000;
        m_dev = nbd_device;
        m_mem = e.m_mem;
      } in
      let after = record server { from_socket = rest } in
      let arrived =
        arrive-done p (plain 0x02000000) after
          (on_socket_ready-disc server handle from len rest eight sup) in
      turns-done arrives (works 0 ∷ us) p _ arrived
      ∙ rw none_yet (rw (run_task-disc task after refl, turns) refl)

  -- Once a thread has run the task of the first command, a disconnect.
  scheduled-disc :
      (threads : ℕ) (ms : List Move) (us : List Turn) (server : Server F) (e : Engine F)
      (handle : List ℕ) (from len : ℕ) (rest : List ReadCall)
      → e.m_tp ≡ []
      → schedule ms (thread_pool (pos threads)) [] 0 ≡ arrives ∷ works 0 ∷ us
      → length handle ≡ 8
      → Supplies server.from_socket (encode_request nbd_cmd_disc handle from len) rest
      → system_run ms (system threads server e) ≡ fault
  scheduled-disc threads ms us server e handle from len rest none_yet order eight sup =
      Agrees-fault _ _ (
        subst (Agrees _ (system_run ms (system threads server e)))
          (ap (λ ts. turns ts (record { server = server; engine = e })) order
            ∙ turns-disc us server e handle from len rest none_yet eight sup)
          (system_run-turns threads ms server e none_yet))

  -- A disconnect command brings the whole server down: if it is the first that comes to a server with at
  -- least one thread, in any pieces, after any turns of the threads, and is followed by a round for each
  -- thread and two more, in each of which every thread has a turn, then the run ends in undefined
  -- behaviour: the task, which some thread takes, asks the factory for a type that was never registered.
  pub system_run-disc :
      (t place : ℕ) (is : List ℕ) (rounds : List (List ℕ)) (server : Server F) (e : Engine F)
      (handle : List ℕ) (from len : ℕ) (rest : List ReadCall)
      → e.m_tp ≡ []
      → All (Covers (suc t)) rounds
      → suc t + 2 ≤ length rounds
      → length handle ≡ 8
      → Supplies server.from_socket (encode_request nbd_cmd_disc handle from len) rest
      → system_run (map runs is ++ receives place ∷ moves_of rounds) (system (suc t) server e)
        ≡ fault
  system_run-disc t place is rounds server e handle from len rest none_yet c enough eight sup =
      let (us, order) = schedule-one t place is rounds c enough in
      scheduled-disc (suc t) (map runs is ++ receives place ∷ moves_of rounds) us server e handle
        from len rest none_yet order eight sup
