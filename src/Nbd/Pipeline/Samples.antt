-- ===== src/Nbd/Pipeline/Samples.antt =====
-- The data of the tests: two writes that arrive one after the other and are served the other way round, and a read.
use mathlib.Core.List.{flatten}
use distributed_nas.Base.{ℕ, refl, List, [], ◌∷◌, arith, take, drop, true, ◌==◌, if◌then◌else◌}
use distributed_nas.Nbd.Bytes.{le_bytes, be_bytes}
use distributed_nas.Nbd.Io.{ReadCall, got, wrote}
use distributed_nas.Nbd.Image.{Image, image_disk}
use distributed_nas.Nbd.Proxy.{nbd_cmd_read, nbd_cmd_write}
use distributed_nas.Nbd.Proxy.Decoding.{encode_request}
use distributed_nas.Nbd.Blocks.{BlockCommand, read_block, write_block}
use distributed_nas.Nbd.Handlers.{file_memory}
use distributed_nas.Nbd.Pipeline.{Pipeline}
use distributed_nas.Nbd.Pipeline.Device.{Event, arrival, service, Device, FeedsRun}
use distributed_nas.Nbd.Pipeline.Simulation.{StandsFor}

abbrev pub handle : List ℕ
handle = 1 ∷ 2 ∷ 3 ∷ 4 ∷ 5 ∷ 6 ∷ 7 ∷ 8 ∷ []

abbrev pub disk_bytes : List ℕ
disk_bytes = 10 ∷ 11 ∷ 12 ∷ 13 ∷ 14 ∷ 15 ∷ 16 ∷ 17 ∷ []

abbrev pub first_write : BlockCommand
first_write = write_block handle 0 (90 ∷ 91 ∷ [])

abbrev pub second_write : BlockCommand
second_write = write_block handle 4 (92 ∷ [])

abbrev pub last_read : BlockCommand
last_read = read_block handle 3 2

abbrev pub out_of_order : List Event
out_of_order =
    arrival first_write
    ∷ arrival second_write
    ∷ service 1
    ∷ arrival last_read
    ∷ service 0
    ∷ service 0
    ∷ []

abbrev pub request_of : ℕ → ℕ → ℕ → List ℕ
request_of kind from len = encode_request kind handle from len

abbrev pub start : Pipeline Image
start = record {
  server = record {
    file = record { content = disk_bytes; at = 0 };
    sent = [];
    from_socket =
        got (take 5 (request_of nbd_cmd_write 0 2))
        ∷ got (drop 5 (request_of nbd_cmd_write 0 2))
        ∷ got (90 ∷ 91 ∷ [])
        ∷ got (request_of nbd_cmd_write 4 1)
        ∷ got (92 ∷ [])
        ∷ got (request_of nbd_cmd_read 3 2)
        ∷ [];
    to_socket = wrote 16 ∷ wrote 16 ∷ wrote 16 ∷ wrote 1 ∷ wrote 1 ∷ [];
    from_file = λ p. if p == 3 then got (13 ∷ []) ∷ got (92 ∷ []) ∷ [] else [];
    to_file = wrote 1 ∷ wrote 1 ∷ wrote 1 ∷ [];
  };
  engine = record { m_mem = file_memory image_disk; m_map = []; m_is_valid = true; m_tp = [] };
}

abbrev pub start_device : Device
start_device = record { bytes = disk_bytes; pending = []; answered = [] }

pub start-StandsFor : StandsFor image_disk start_device start
start-StandsFor = record {
  same_bytes = refl;
  same_answers = refl;
  same_tasks = refl;
  same_memory = refl;
}

abbrev pub after_second : List ReadCall
after_second = got (request_of nbd_cmd_read 3 2) ∷ []

abbrev pub after_first : List ReadCall
after_first = got (request_of nbd_cmd_write 4 1) ∷ got (92 ∷ []) ∷ after_second

pub fed :
    FeedsRun out_of_order start_device start.server.from_socket start.server.from_file
      start.server.to_socket start.server.to_file
unfolding be_bytes le_bytes flatten
fed = (
  got (90 ∷ 91 ∷ []) ∷ after_first,
  after_first,
  (
    take 5 (request_of nbd_cmd_write 0 2) ∷ drop 5 (request_of nbd_cmd_write 0 2) ∷ [],
    (omega arith, (omega arith, tt)),
    refl,
    refl,
  ),
  ((90 ∷ 91 ∷ []) ∷ [], (omega arith, tt), refl, refl),
  (
    got (92 ∷ []) ∷ after_second,
    after_second,
    (request_of nbd_cmd_write 4 1 ∷ [], (omega arith, tt), refl, refl),
    ((92 ∷ []) ∷ [], (omega arith, tt), refl, refl),
    (
      wrote 1 ∷ wrote 1 ∷ [],
      wrote 16 ∷ wrote 16 ∷ wrote 1 ∷ wrote 1 ∷ [],
      (1 ∷ [], (omega arith, omega arith, refl), refl),
      (16 ∷ [], (omega arith, omega arith, refl), refl),
      (
        [],
        (request_of nbd_cmd_read 3 2 ∷ [], (omega arith, tt), refl, refl),
        (
          [],
          wrote 16 ∷ wrote 1 ∷ wrote 1 ∷ [],
          (1 ∷ 1 ∷ [], (omega arith, omega arith, (omega arith, omega arith, refl)), refl),
          (16 ∷ [], (omega arith, omega arith, refl), refl),
          (
            [],
            wrote 1 ∷ wrote 1 ∷ [],
            [],
            ((13 ∷ []) ∷ (92 ∷ []) ∷ [], (omega arith, (omega arith, tt)), refl, refl),
            (16 ∷ [], (omega arith, omega arith, refl), refl),
            (1 ∷ 1 ∷ [], (omega arith, omega arith, (omega arith, omega arith, refl)), refl),
            tt,
          ),
        ),
      ),
    ),
  ),
)
