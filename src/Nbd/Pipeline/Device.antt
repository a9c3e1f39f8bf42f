-- ===== src/Nbd/Pipeline/Device.antt =====
-- The block device that the pipeline stands for, which takes the same turns, and what the calls of
-- `read` and `write` do in such a run.
use distributed_nas.Base.{ℕ, List, [], ◌∷◌, ◌++◌, Option, none, some, length, take, drop}
use distributed_nas.Nbd.Blocks.{BlockCommand, read_block, write_block, answer, left_by, IsInRange}
use distributed_nas.Nbd.Io.{ReadCall, WriteCall}
use distributed_nas.Nbd.Io.Reading.{Supplies}
use distributed_nas.Nbd.Io.Writing.{Accepts}
use distributed_nas.Nbd.Proxy.{nbd_cmd_read, nbd_cmd_write}
use distributed_nas.Nbd.Proxy.Decoding.{encode_request}
use distributed_nas.Nbd.Pipeline.{pick}

-- The command that arrives, or the place of the one that is served.
pub data Event : Type 0 where
  arrival : BlockCommand → Event
  service : ℕ → Event

-- A block device with commands that wait.
pub record Device : Type 0 where
  pub bytes : List ℕ
  pub pending : List BlockCommand
  pub answered : List ℕ

abbrev pub serve_picked : Option (BlockCommand × List BlockCommand) → Device → Device
serve_picked none d = d
serve_picked (some (c, rest)) d = record {
  bytes = left_by d.bytes c;
  pending = rest;
  answered = d.answered ++ answer d.bytes c;
}

abbrev pub device_step : Event → Device → Device
device_step (arrival c) d = record d { pending = d.pending ++ c ∷ [] }
device_step (service k) d = serve_picked (pick k d.pending) d

abbrev pub device_run : List Event → Device → Device
device_run [] d = d
device_run (e ∷ es) d = device_run es (device_step e d)

abbrev pub EventIsInRange : ℕ → Event → Type 0
EventIsInRange size (arrival c) = IsInRange size c
EventIsInRange size (service k) = Unit

-- What the calls on the file and those of `write` do while a command is served; `K` says it of what
-- comes after.
abbrev pub FeedsPicked :
    Option (BlockCommand × List BlockCommand)
    → List ℕ
    → (ℕ → List ReadCall)
    → List WriteCall
    → List WriteCall
    → ((ℕ → List ReadCall) → List WriteCall → List WriteCall → Type 0)
    → Type 0
FeedsPicked none bytes file out to_file K = K file out to_file
FeedsPicked (some (read_block handle from len, others)) bytes file out to_file K =
    (rest_file : List ReadCall) × (rest_head : List WriteCall) × (rest_out : List WriteCall)
    × Supplies (file from) (take len (drop from bytes)) rest_file
    × Accepts out 16 rest_head
    × Accepts rest_head len rest_out
    × K (λ p. rest_file) rest_out to_file
FeedsPicked (some (write_block handle from payload, others)) bytes file out to_file K =
    (rest_file : List WriteCall) × (rest_head : List WriteCall) × Accepts to_file (length payload)
      rest_file
    × Accepts out 16 rest_head
    × K file rest_head rest_file

-- The same for a run: each command that arrives comes in any pieces.
abbrev pub FeedsRun :
    List Event
    → Device
    → List ReadCall
    → (ℕ → List ReadCall)
    → List WriteCall
    → List WriteCall
    → Type 0
FeedsRun [] d sock file out to_file = Unit
FeedsRun (arrival (read_block handle from len) ∷ es) d sock file out to_file =
    (rest : List ReadCall) × Supplies sock (encode_request nbd_cmd_read handle from len) rest
    × FeedsRun es (device_step (arrival (read_block handle from len)) d) rest file out to_file
FeedsRun (arrival (write_block handle from payload) ∷ es) d sock file out to_file =
    (rest : List ReadCall) × (rest' : List ReadCall) × Supplies sock
      (encode_request nbd_cmd_write handle from (length payload)) rest
    × Supplies rest payload rest'
    × FeedsRun es (device_step (arrival (write_block handle from payload)) d) rest' file out to_file
FeedsRun (service k ∷ es) d sock file out to_file =
    FeedsPicked (pick k d.pending) d.bytes file out to_file
      (λ file' out' to_file'. FeedsRun es (device_step (service k) d) sock file' out' to_file')
