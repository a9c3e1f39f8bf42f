-- ===== src/Nbd/Handlers/Tasks.antt =====
-- What the task of a read command and that of a write command do, from the factory to the reply.
use distributed_nas.Base.{
  ℕ, ◌≡◌, sym, subst, ◌∙◌, List, [], ◌++◌, arith, length, pos, length-append,
}
use distributed_nas.Nbd.Bytes.{be_bytes, length-be_bytes}
use distributed_nas.Nbd.Io.{ReadCall, WriteCall, done}
use distributed_nas.Nbd.Io.Reading.{Supplies}
use distributed_nas.Nbd.Io.Writing.{Accepts}
use distributed_nas.Nbd.Server.{Disk, Server, >>=-done}
use distributed_nas.Nbd.Proxy.{Request, rw_req, nbd_cmd_read, nbd_cmd_write}
use distributed_nas.Nbd.Proxy.Decoding.{rw_of}
use distributed_nas.Nbd.Proxy.Replies.{encode_reply, proxy_done-read, proxy_done-write}
use distributed_nas.Nbd.Memory.{memory_read, memory_write}
use distributed_nas.Nbd.Memory.Laws.{memory_read-Supplies, memory_write-Accepts}
use distributed_nas.Factory.{add, create}
use distributed_nas.Engine.{ReTask, add_to_factory, run_task}
use distributed_nas.Nbd.Handlers.{
  read_handler, write_handler, flow_factory, nbd_device, file_memory,
}

length-encode_reply : (handle : List ℕ) → length handle ≡ 8 → length (encode_reply handle) ≡ 16
length-encode_reply handle eight = omega (
  arith,
  length-append (be_bytes 4 0x67446698) (be_bytes 4 0 ++ handle),
  length-append (be_bytes 4 0) handle,
  length-be_bytes 4 0x67446698,
  length-be_bytes 4 0,
)

-- The task of a request that the device of the protocol has read.
abbrev pub task_of : (disk : Disk) → Request → ReTask disk.File
task_of disk req = record { m_request = req; m_dev = nbd_device; m_mem = file_memory disk }

module _ (disk : Disk) (s : Server disk.File) (handle : List ℕ) (from : ℕ)
    (eight : length handle ≡ 8) where
  open disk use {seek, moved, sink}

  sixteen :
      (rest : List WriteCall)
      → Accepts s.to_socket 16 rest
      → Accepts s.to_socket (length (encode_reply handle)) rest
  sixteen rest = subst (λ n. Accepts s.to_socket n rest) (sym (length-encode_reply handle eight))

  pub run_task-read :
      (bs : List ℕ) (rest_file : List ReadCall) (rest_head rest_out : List WriteCall)
      → Supplies (s.from_file from) bs rest_file
      → Accepts s.to_socket 16 rest_head
      → Accepts rest_head (length bs) rest_out
      → run_task flow_factory
          (task_of disk (rw_req (rw_of nbd_cmd_read handle from (length bs) [])))
          s
        ≡ done (
          tt,
          record s {
            file = moved (length bs) (seek (pos from) s.file);
            sent = (s.sent ++ encode_reply handle) ++ bs;
            from_file = λ p. rest_file;
            to_socket = rest_out;
          },
        )
  unfolding file_memory run_task flow_factory add_to_factory add create read_handler
  run_task-read bs rest_file rest_head rest_out file head out =
      >>=-done (memory_read disk (rw_req (rw_of nbd_cmd_read handle from (length bs) []))) _ s
        (memory_read-Supplies disk s nbd_cmd_read handle from [] bs rest_file file)
      ∙ proxy_done-read
          (record s {
            file = moved (length bs) (seek (pos from) s.file);
            from_file = λ p. rest_file;
          })
          handle from bs rest_head rest_out (sixteen rest_head head) out

  pub run_task-write :
      (payload : List ℕ) (rest_file rest_head : List WriteCall)
      → Accepts s.to_file (length payload) rest_file
      → Accepts s.to_socket 16 rest_head
      → run_task flow_factory
          (task_of disk (rw_req (rw_of nbd_cmd_write handle from (length payload) payload)))
          s
        ≡ done (
          tt,
          record s {
            file = sink.put payload (seek (pos from) s.file);
            sent = s.sent ++ encode_reply handle;
            to_file = rest_file;
            to_socket = rest_head;
          },
        )
  unfolding file_memory run_task flow_factory add_to_factory add create write_handler
  run_task-write payload rest_file rest_head file head =
      >>=-done
        (memory_write disk (rw_req (rw_of nbd_cmd_write handle from (length payload) payload))) _ s
        (memory_write-Accepts disk s nbd_cmd_write handle from payload payload rest_file file)
      ∙ proxy_done-write
          (record s { file = sink.put payload (seek (pos from) s.file); to_file = rest_file })
          handle from payload rest_head (sixteen rest_head head)
