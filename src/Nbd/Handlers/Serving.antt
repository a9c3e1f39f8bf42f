-- ===== src/Nbd/Handlers/Serving.antt =====
-- Requests of the protocol, from the socket through the factory and the file to the reply.
use distributed_nas.Base.{
  ℕ, ◌+◌, ◌≤◌, ◌<◌, ◌^◌, ◌≡◌, refl, ◌∙◌, List, ◌++◌, arith, length, take, drop, pos, length-take,
  length-drop,
}
use mathlib.Core.List.{append_assoc}
use distributed_nas.Nbd.Io.{ReadCall, WriteCall, done, fault}
use distributed_nas.Nbd.Io.Reading.{Supplies}
use distributed_nas.Nbd.Io.Writing.{Accepts}
use distributed_nas.Nbd.Server.{Disk, Server, >>=-done}
use distributed_nas.Nbd.Proxy.{nbd_cmd_read, nbd_cmd_write, nbd_cmd_disc, on_socket_ready}
use distributed_nas.Nbd.Proxy.Decoding.{encode_request}
use distributed_nas.Nbd.Proxy.Requests.{
  on_socket_ready-read, on_socket_ready-write, on_socket_ready-disc,
}
use distributed_nas.Nbd.Proxy.Replies.{encode_reply}
use distributed_nas.Nbd.Memory.Laws.{bytes-put-seek}
use distributed_nas.Factory.{add, create}
use distributed_nas.Engine.{add_to_factory, run_task}
use distributed_nas.Nbd.Handlers.Tasks.{run_task-read, run_task-write}
use distributed_nas.Nbd.Handlers.{flow_factory, file_memory, serve}

-- The `len` bytes of a file from an offset on.
abbrev pub slice : (disk : Disk) → disk.File → ℕ → ℕ → List ℕ
slice disk f offset len = take len (drop offset (disk.bytes f))

module _ (disk : Disk) (s : Server disk.File) (handle : List ℕ) (from : ℕ)
    (eight : length handle ≡ 8) where
  open disk use {File, bytes, seek, moved, sink, bytes-seek, bytes-moved}

  -- The state in which a call of `serve` ends.
  abbrev pub Serves : (Server File → Type 0) → Type 0
  Serves P = (s' : Server File) × (serve disk s ≡ done (tt, s')) × P s'

  serve-read-bytes :
      (bs : List ℕ) (rest rest_file : List ReadCall) (rest_head rest_out : List WriteCall)
      → from < 2 ^ 31
      → length bs < 2 ^ 31
      → Supplies s.from_socket (encode_request nbd_cmd_read handle from (length bs)) rest
      → Supplies (s.from_file from) bs rest_file
      → Accepts s.to_socket 16 rest_head
      → Accepts rest_head (length bs) rest_out
      → serve disk s
        ≡ done (
          tt,
          record s {
            file = moved (length bs) (seek (pos from) s.file);
            sent = (s.sent ++ encode_reply handle) ++ bs;
            from_socket = rest;
            from_file = λ p. rest_file;
            to_socket = rest_out;
          },
        )
  unfolding serve
  serve-read-bytes bs rest rest_file rest_head rest_out hf hl sup file head out =
      >>=-done on_socket_ready _ s
        (on_socket_ready-read s handle from (length bs) rest eight hf hl sup)
      ∙ run_task-read disk (record s { from_socket = rest }) handle from eight bs rest_file
          rest_head rest_out file head out

  -- A read command that arrives in any pieces, with an 8-byte handle, an offset and a length below
  -- 2^31 and a range inside the file, is answered on the socket by a reply without error under its
  -- handle and then by the bytes of the file at that range, and the file keeps its bytes; provided
  -- that the calls of `read` at that offset give the file's bytes there, in any pieces, and that those
  -- of `write` take the whole reply, in any pieces.
  pub serve-read :
      (len : ℕ) (rest rest_file : List ReadCall) (rest_head rest_out : List WriteCall)
      → from < 2 ^ 31
      → len < 2 ^ 31
      → from + len ≤ length (bytes s.file)
      → Supplies s.from_socket (encode_request nbd_cmd_read handle from len) rest
      → Supplies (s.from_file from) (slice disk s.file from len) rest_file
      → Accepts s.to_socket 16 rest_head
      → Accepts rest_head len rest_out
      → Serves λ s'.
        (s'.sent ≡ s.sent ++ (encode_reply handle ++ slice disk s.file from len))
        × (bytes s'.file ≡ bytes s.file)
        × (s'.from_socket ≡ rest)
  serve-read len rest rest_file rest_head rest_out hf hl inside sup file head out = (
    _,
    serve-read-bytes bs rest rest_file rest_head rest_out hf (omega (arith, e)) (rw e sup) file head
        (rw e out),
    (
      append_assoc s.sent (encode_reply handle) bs,
      bytes-moved (length bs) (seek (pos from) s.file) ∙ bytes-seek (pos from) s.file,
      refl,
    ),
  )
    where
      bs : List ℕ
      bs = slice disk s.file from len

      e : length bs ≡ len
      e = omega (arith, length-take len (drop from (bytes s.file)), length-drop from (bytes s.file))

  pub serve-write-bytes :
      (payload : List ℕ) (rest rest' : List ReadCall) (rest_file rest_head : List WriteCall)
      → from < 2 ^ 31
      → length payload < 2 ^ 31
      → Supplies s.from_socket (encode_request nbd_cmd_write handle from (length payload)) rest
      → Supplies rest payload rest'
      → Accepts s.to_file (length payload) rest_file
      → Accepts s.to_socket 16 rest_head
      → serve disk s
        ≡ done (
          tt,
          record s {
            file = sink.put payload (seek (pos from) s.file);
            sent = s.sent ++ encode_reply handle;
            from_socket = rest';
            to_file = rest_file;
            to_socket = rest_head;
          },
        )
  unfolding serve
  serve-write-bytes payload rest rest' rest_file rest_head hf hl sup more file head =
      >>=-done on_socket_ready _ s (
        on_socket_ready-write s handle from (length payload) rest payload rest' eight hf hl refl sup
          more)
      ∙ run_task-write disk (record s { from_socket = rest' }) handle from eight payload rest_file
          rest_head file head

  -- A write command and its payload that arrive in any pieces, with an 8-byte handle, an offset and a
  -- length below 2^31 and a range inside the file, put the payload at that range, leave every other
  -- byte of the file as it was, and are answered by a reply without error under the handle; provided
  -- that the calls of `write` on the file and on the socket take all they are given, in any pieces.
  pub serve-write :
      (payload : List ℕ) (rest rest' : List ReadCall) (rest_file rest_head : List WriteCall)
      → from < 2 ^ 31
      → length payload < 2 ^ 31
      → from + length payload ≤ length (bytes s.file)
      → Supplies s.from_socket (encode_request nbd_cmd_write handle from (length payload)) rest
      → Supplies rest payload rest'
      → Accepts s.to_file (length payload) rest_file
      → Accepts s.to_socket 16 rest_head
      → Serves λ s'.
        (s'.sent ≡ s.sent ++ encode_reply handle)
        × (bytes s'.file
            ≡ take from (bytes s.file) ++ (payload ++ drop (from + length payload) (bytes s.file)))
        × (s'.from_socket ≡ rest')
  serve-write payload rest rest' rest_file rest_head hf hl inside sup more file head = (
    _,
    serve-write-bytes payload rest rest' rest_file rest_head hf hl sup more file head,
    (refl, bytes-put-seek disk s.file from payload inside, refl),
  )

  -- A disconnect command ends in undefined behaviour: its task asks the factory for a type that was
  -- never registered.
  pub serve-disc :
      (len : ℕ) (rest : List ReadCall)
      → Supplies s.from_socket (encode_request nbd_cmd_disc handle from len) rest
      → serve disk s ≡ fault
  unfolding serve file_memory run_task flow_factory add_to_factory add create
  serve-disc len rest sup =
      >>=-done on_socket_ready _ s (on_socket_ready-disc s handle from len rest eight sup)
