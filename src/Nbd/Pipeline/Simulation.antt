-- ===== src/Nbd/Pipeline/Simulation.antt =====
-- The pipeline and the block device of Nbd.Blocks, turn by turn.
use mathlib.Core.List.{append_assoc, map-append}
use distributed_nas.Base.{
  ℕ, ◌≡◌, refl, sym, ap, ap₂, ◌∙◌, List, [], ◌∷◌, ◌++◌, map, Option, none, some, arith, length,
  take, drop, pos, All, done, length-take, length-drop,
}
use distributed_nas.Nbd.Blocks.{
  BlockCommand, read_block, write_block, answer, left_by, IsInRange, length-left_by,
}
use distributed_nas.Nbd.Server.{Disk}
use distributed_nas.Nbd.Proxy.{rw_req, nbd_cmd_read, nbd_cmd_write}
use distributed_nas.Nbd.Proxy.Decoding.{rw_of}
use distributed_nas.Nbd.Proxy.Requests.{on_socket_ready-read, on_socket_ready-write}
use distributed_nas.Nbd.Memory.Laws.{bytes-put-seek}
use distributed_nas.Engine.{ReTask, request_cb}
use distributed_nas.Nbd.Handlers.{file_memory}
use distributed_nas.Nbd.Handlers.Tasks.{task_of, run_task-read, run_task-write}
use distributed_nas.Nbd.Pipeline.Device.{
  Event, arrival, service, Device, serve_picked, device_step, device_run, EventIsInRange,
  FeedsPicked, FeedsRun,
}
use distributed_nas.Nbd.Pipeline.{
  Pipeline, Turn, arrives, works, pick, map_picked, pick-map, AllPicked, AllPicked-pick,
  arrive-done, run_picked, run_picked-done, turn, turns, turns-done,
}

abbrev pub turn_of : Event → Turn
turn_of (arrival c) = arrives
turn_of (service k) = works k

abbrev pub task_for : (disk : Disk) → BlockCommand → ReTask disk.File
task_for disk (read_block handle from len) =
    task_of disk (rw_req (rw_of nbd_cmd_read handle from len []))
task_for disk (write_block handle from payload) =
    task_of disk (rw_req (rw_of nbd_cmd_write handle from (length payload) payload))

-- The pipeline stands for the device: the file has its bytes, the tasks are its commands, and the
-- socket got its answers.
pub record StandsFor (disk : Disk) (d : Device) (p : Pipeline disk.File) : Type 0 where
  pub same_bytes : disk.bytes p.server.file ≡ d.bytes
  pub same_answers : p.server.sent ≡ d.answered
  pub same_tasks : p.engine.m_tp ≡ map (task_for disk) d.pending
  pub same_memory : p.engine.m_mem ≡ file_memory disk

module _ (disk : Disk) where
  open disk use {File}

  abbrev FeedsPipeline : List Event → Device → Pipeline File → Type 0
  FeedsPipeline es d p =
      FeedsRun es d p.server.from_socket p.server.from_file p.server.to_socket p.server.to_file

  more_tasks :
      (d : Device) (p : Pipeline File)
      → StandsFor disk d p
      → (c : BlockCommand)
      → p.engine.m_tp ++ record (task_for disk c) { m_mem = p.engine.m_mem } ∷ []
        ≡ map (task_for disk) (d.pending ++ c ∷ [])
  more_tasks d p v (read_block handle from len) =
      let c = read_block handle from len in
      ap₂ (λ ts m. ts ++ record (task_for disk c) { m_mem = m } ∷ []) v.same_tasks v.same_memory
      ∙ sym (map-append (task_for disk) d.pending (c ∷ []))
  more_tasks d p v (write_block handle from payload) =
      let c = write_block handle from payload in
      ap₂ (λ ts m. ts ++ record (task_for disk c) { m_mem = m } ∷ []) v.same_tasks v.same_memory
      ∙ sym (map-append (task_for disk) d.pending (c ∷ []))

  -- A command that arrives becomes a task.
  arrive-StandsFor :
      (c : BlockCommand) (es : List Event) (d : Device) (p : Pipeline File) (size : ℕ)
      → IsInRange size c
      → StandsFor disk d p
      → FeedsPipeline (arrival c ∷ es) d p
      → (q : Pipeline File) × (turn arrives p ≡ done q)
        × StandsFor disk (device_step (arrival c) d) q
        × FeedsPipeline es (device_step (arrival c) d) q
  unfolding turn request_cb
  arrive-StandsFor (read_block handle from len) es d p size (eight, hf, hl, inside) v
        (rest, sup, more) =
      (
        _,
        arrive-done p _ _ (on_socket_ready-read p.server handle from len rest eight hf hl sup),
        record {
          same_bytes = v.same_bytes;
          same_answers = v.same_answers;
          same_tasks = more_tasks d p v (read_block handle from len);
          same_memory = v.same_memory;
        },
        more,
      )
  arrive-StandsFor (write_block handle from payload) es d p size (eight, hf, hl, inside) v
        (rest, rest', sup, tail, more) =
      (
        _,
        arrive-done p _ _ (
            on_socket_ready-write p.server handle from (length payload) rest payload rest' eight hf
              hl refl sup tail),
        record {
          same_bytes = v.same_bytes;
          same_answers = v.same_answers;
          same_tasks = more_tasks d p v (write_block handle from payload);
          same_memory = v.same_memory;
        },
        more,
      )

  -- The task at a place is the command's there, and does what the command does.
  run_picked-StandsFor :
      (o : Option (BlockCommand × List BlockCommand)) (es : List Event) (d : Device)
      (p : Pipeline File)
      → AllPicked (IsInRange (length d.bytes)) o
      → StandsFor disk d p
      → FeedsPicked o d.bytes p.server.from_file p.server.to_socket p.server.to_file
          (λ file out to_file. FeedsRun es (serve_picked o d) p.server.from_socket file out to_file)
      → (q : Pipeline File) × (run_picked (map_picked (task_for disk) o) p ≡ done q)
        × StandsFor disk (serve_picked o d) q
        × FeedsPipeline es (serve_picked o d) q
  unfolding run_picked
  run_picked-StandsFor none es d p a v f = (p, refl, v, f)
  run_picked-StandsFor (some (read_block handle from len, others)) es d p
        ((eight, hf, hl, inside), a) v (rest_file, rest_head, rest_out, file, head, out, more) =
      let bs : List ℕ = take len (drop from d.bytes) in
      let e : length bs ≡ len =
        omega (arith, length-take len (drop from d.bytes), length-drop from d.bytes) in
      (
        _,
        run_picked-done _ _ p _ (
            rw e at (
              run_task-read disk p.server handle from eight bs rest_file rest_head rest_out file
                head (rw e out))),
        record {
          same_bytes =
              disk.bytes-moved len (disk.seek (pos from) p.server.file)
              ∙ disk.bytes-seek (pos from) p.server.file
              ∙ v.same_bytes;
          same_answers =
              append_assoc p.server.sent _ bs
              ∙ ap (λ x. x ++ answer d.bytes (read_block handle from len)) v.same_answers;
          same_tasks = refl;
          same_memory = v.same_memory;
        },
        more,
      )
  run_picked-StandsFor (some (write_block handle from payload, others)) es d p
        ((eight, hf, hl, inside), a) v (rest_file, rest_head, file, head, more) =
      (
        _,
        run_picked-done _ _ p _
            (run_task-write disk p.server handle from eight payload rest_file rest_head file head),
        record {
          same_bytes =
              bytes-put-seek disk p.server.file from payload (rw v.same_bytes inside)
              ∙ ap (λ b. left_by b (write_block handle from payload)) v.same_bytes;
          same_answers =
              ap (λ x. x ++ answer d.bytes (write_block handle from payload)) v.same_answers;
          same_tasks = refl;
          same_memory = v.same_memory;
        },
        more,
      )

  length-serve_picked :
      (o : Option (BlockCommand × List BlockCommand)) (d : Device)
      → AllPicked (IsInRange (length d.bytes)) o
      → All (IsInRange (length d.bytes)) d.pending
      → (length (serve_picked o d).bytes ≡ length d.bytes)
        × All (IsInRange (length d.bytes)) (serve_picked o d).pending
  length-serve_picked none d a h = (refl, h)
  length-serve_picked (some (c, others)) d (a, rest) h = (length-left_by d.bytes c a, rest)

  picked :
      (k : ℕ) (d : Device) (p : Pipeline File)
      → StandsFor disk d p
      → turn (works k) p ≡ run_picked (map_picked (task_for disk) (pick k d.pending)) p
  unfolding turn
  picked k d p v =
      ap (λ ts. run_picked (pick k ts) p) v.same_tasks
      ∙ ap (λ o. run_picked o p) (pick-map (task_for disk) k d.pending)

  All-append :
      (P : BlockCommand → Type 0) (cs : List BlockCommand) (c : BlockCommand)
      → All P cs
      → P c
      → All P (cs ++ c ∷ [])
  All-append P [] c h r = (r, tt)
  All-append P (b ∷ cs) c (h, hs) r = (h, All-append P cs c hs r)

  -- However arrivals and tasks alternate, whichever task a thread takes, and however the kernel cuts
  -- its calls: for commands in range the pipeline refines a block device that takes the same turns.
  -- It returns, the file has the device's bytes, the socket got the device's answers, and the tasks
  -- that wait are the commands that wait there. A task runs whole.
  pub turns-StandsFor :
      (es : List Event) (d : Device) (p : Pipeline File)
      → All (EventIsInRange (length d.bytes)) es
      → All (IsInRange (length d.bytes)) d.pending
      → StandsFor disk d p
      → FeedsRun es d p.server.from_socket p.server.from_file p.server.to_socket p.server.to_file
      → (q : Pipeline File) × (turns (map turn_of es) p ≡ done q)
        × StandsFor disk (device_run es d) q
  unfolding turns
  turns-StandsFor [] d p r h v f = (p, refl, v)
  turns-StandsFor (arrival c ∷ es) d p (r, rs) h v f =
      let (q, e, w, more) = arrive-StandsFor c es d p (length d.bytes) r v f in
      let (u, f', z) =
        turns-StandsFor es (device_step (arrival c) d) q rs
          (All-append (IsInRange (length d.bytes)) d.pending c h r) w more in
      (u, turns-done arrives (map turn_of es) p q e ∙ f', z)
  turns-StandsFor (service k ∷ es) d p (r, rs) h v f =
      let o = pick k d.pending in
      let a = AllPicked-pick (IsInRange (length d.bytes)) k d.pending h in
      let (q, e, w, more) = run_picked-StandsFor o es d p a v f in
      let (size, hs) = length-serve_picked o d a h in
      let (u, f', z) = turns-StandsFor es (serve_picked o d) q (rw size rs) (rw size hs) w more in
      (u, turns-done (works k) (map turn_of es) p q (picked k d p v ∙ e) ∙ f', z)
