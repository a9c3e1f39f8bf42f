-- ===== src/System/Samples.antt =====
-- Commands that all arrive before the last one is served first, and what the kernel does then.
use mathlib.Core.List.{flatten}
use distributed_nas.Base.{ℕ, refl, List, [], ◌∷◌, arith, true, none, ◌==◌, if◌then◌else◌}
use distributed_nas.Nbd.Image.{Image}
use distributed_nas.Nbd.Bytes.{le_bytes, be_bytes}
use distributed_nas.Nbd.Io.{got, wrote}
use distributed_nas.Nbd.Server.{Server}
use distributed_nas.Nbd.Proxy.{nbd_cmd_read, nbd_cmd_write}
use distributed_nas.Nbd.Blocks.{BlockCommand}
use distributed_nas.Nbd.Pipeline.Device.{FeedsRun}
use distributed_nas.System.Answering.{all_served}
use distributed_nas.Nbd.Pipeline.Samples.{
  first_write, second_write, last_read, request_of, start, start_device,
}
use distributed_nas.Nbd.Setup.{Os}
use distributed_nas.Engine.Loop.{FdSet}
use distributed_nas.System.Flow.{Surroundings}

-- A process with descriptors 0 to 2, in which all calls succeed.
abbrev pub process : Os
process = record {
  succeeds = λ c. true;
  calls = [];
  open_fds = 2 ∷ 1 ∷ 0 ∷ [];
  next_fd = 3;
  nbd_dev_to_disconnect = none;
}

-- Neither monitors nor callbacks yet.
abbrev pub surroundings : Surroundings
surroundings = record {
  monitor_at = 0;
  dispatcher_at = 0;
  callback_at = 0;
  wd = 1;
  heap = λ m. record { m_disp = 0; m_path = []; m_monitoring = none; m_fd = 0; m_wd = 0 };
  store = record { m_dispatcher = λ c. none; m_subscribers = λ d. []; next_key = 0; log = [] };
}

abbrev pub only : ℕ → FdSet
only fd j = j == fd

-- The commands all arrive before the threads take them, the read first.
abbrev pub commands : List BlockCommand
commands = first_write ∷ second_write ∷ last_read ∷ []

abbrev pub in_order : Server Image
in_order = record start.server {
  from_socket =
      got (request_of nbd_cmd_write 0 2)
      ∷ got (90 ∷ 91 ∷ [])
      ∷ got (request_of nbd_cmd_write 4 1)
      ∷ got (92 ∷ [])
      ∷ got (request_of nbd_cmd_read 3 2)
      ∷ [];
  to_socket = wrote 16 ∷ wrote 2 ∷ wrote 16 ∷ wrote 16 ∷ [];
  from_file = λ p. if p == 3 then got (13 ∷ 14 ∷ []) ∷ [] else [];
  to_file = wrote 1 ∷ wrote 2 ∷ [];
}

pub in_order-fed :
    FeedsRun
      (all_served commands)
      start_device
      in_order.from_socket
      in_order.from_file
      in_order.to_socket
      in_order.to_file
unfolding be_bytes le_bytes flatten
in_order-fed =
    let read = got (request_of nbd_cmd_read 3 2) ∷ [] in
    let second = got (request_of nbd_cmd_write 4 1) ∷ got (92 ∷ []) ∷ read in
    (
      got (90 ∷ 91 ∷ []) ∷ second,
      second,
      (request_of nbd_cmd_write 0 2 ∷ [], (omega arith, tt), refl, refl),
      ((90 ∷ 91 ∷ []) ∷ [], (omega arith, tt), refl, refl),
      (
        got (92 ∷ []) ∷ read,
        read,
        (request_of nbd_cmd_write 4 1 ∷ [], (omega arith, tt), refl, refl),
        ((92 ∷ []) ∷ [], (omega arith, tt), refl, refl),
        (
          [],
          (request_of nbd_cmd_read 3 2 ∷ [], (omega arith, tt), refl, refl),
          (
            [],
            wrote 2 ∷ wrote 16 ∷ wrote 16 ∷ [],
            wrote 16 ∷ wrote 16 ∷ [],
            ((13 ∷ 14 ∷ []) ∷ [], (omega arith, tt), refl, refl),
            (16 ∷ [], (omega arith, omega arith, refl), refl),
            (2 ∷ [], (omega arith, omega arith, refl), refl),
            (
              wrote 2 ∷ [],
              wrote 16 ∷ [],
              (1 ∷ [], (omega arith, omega arith, refl), refl),
              (16 ∷ [], (omega arith, omega arith, refl), refl),
              (
                [],
                [],
                (2 ∷ [], (omega arith, omega arith, refl), refl),
                (16 ∷ [], (omega arith, omega arith, refl), refl),
                tt,
              ),
            ),
          ),
        ),
      ),
    )
