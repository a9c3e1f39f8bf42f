-- ===== src/Nbd/Handlers/Rereading.antt =====
-- A write command and then a read command for the same range, one after the other.
use distributed_nas.Base.{ℕ, ◌+◌, ◌≤◌, ◌<◌, ◌^◌, ◌≡◌, ap, ◌∙◌, List, ◌++◌, length, take, drop, pos}
use distributed_nas.Nbd.Io.{ReadCall, WriteCall, done}
use distributed_nas.Nbd.Io.Reading.{Supplies}
use distributed_nas.Nbd.Io.Writing.{Accepts}
use distributed_nas.Nbd.Server.{Disk, Server}
use distributed_nas.Nbd.Slices.{spliced, slice-spliced_self}
use distributed_nas.Nbd.Blocks.{length-spliced}
use distributed_nas.Nbd.Proxy.{nbd_cmd_read, nbd_cmd_write}
use distributed_nas.Nbd.Proxy.Decoding.{encode_request}
use distributed_nas.Nbd.Proxy.Replies.{encode_reply}
use distributed_nas.Nbd.Memory.Laws.{bytes-put-seek}
use distributed_nas.Nbd.Handlers.{serve}
use distributed_nas.Nbd.Handlers.Serving.{serve-read, serve-write-bytes}

module _ (disk : Disk) (s : Server disk.File) (handle handle' : List ℕ) (from : ℕ) where
  open disk use {File, bytes, seek, sink}

  -- A write command and its payload, and behind them on the socket a read command for the same range,
  -- in any pieces, with 8-byte handles, an offset and a length below 2^31 and a range inside the file,
  -- are served to the end one after the other: the socket gets the reply to the first, the reply to the
  -- second and then the payload, and the file holds the payload at the range. The calls of `read` on
  -- the file give, in any pieces, what the file holds there once it is written, and the calls of
  -- `write` on the file and on the socket take all they are given, in any pieces.
  pub serve-reread :
      (payload : List ℕ) (rest rest' again back : List ReadCall)
      (rest_file rest_head second_head second_out : List WriteCall)
      → length handle ≡ 8
      → length handle' ≡ 8
      → from < 2 ^ 31
      → length payload < 2 ^ 31
      → from + length payload ≤ length (bytes s.file)
      → Supplies s.from_socket (encode_request nbd_cmd_write handle from (length payload)) rest
      → Supplies rest payload rest'
      → Supplies rest' (encode_request nbd_cmd_read handle' from (length payload)) again
      → Supplies
          (s.from_file from)
          (take (length payload) (drop from (spliced from payload (bytes s.file))))
          back
      → Accepts s.to_file (length payload) rest_file
      → Accepts s.to_socket 16 rest_head
      → Accepts rest_head 16 second_head
      → Accepts second_head (length payload) second_out
      → (s' : Server File) × (s'' : Server File) × (serve disk s ≡ done (tt, s'))
        × (serve disk s' ≡ done (tt, s''))
        × (s''.sent ≡ (s.sent ++ encode_reply handle) ++ (encode_reply handle' ++ payload))
        × (bytes s''.file ≡ spliced from payload (bytes s.file))
  serve-reread payload rest rest' again back rest_file rest_head second_head second_out eight eight'
        hf hl inside sup more command held file head head' out =
      let (s'', ends, facts) =
        serve-read disk written handle' from eight' (length payload) again back second_head
          second_out hf hl (rw (now, length-spliced from payload (bytes s.file) inside) inside)
          command (rw now held) head' out in
      (
        written,
        s'',
        serve-write-bytes disk s handle from eight payload rest rest' rest_file rest_head hf hl sup
            more file head,
        ends,
        facts.0
            ∙ ap (λ bs. written.sent ++ (encode_reply handle' ++ bs))
                (ap (λ b. take (length payload) (drop from b)) now
                  ∙ slice-spliced_self from payload (bytes s.file) inside),
        facts.1 ∙ now,
      )
    where
      written : Server File
      written = record s {
        file = sink.put payload (seek (pos from) s.file);
        sent = s.sent ++ encode_reply handle;
        from_socket = rest';
        to_file = rest_file;
        to_socket = rest_head;
      }

      now : bytes written.file ≡ spliced from payload (bytes s.file)
      now = bytes-put-seek disk s.file from payload inside
