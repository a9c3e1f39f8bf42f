-- ===== src/Nbd/Proxy/Requests.antt =====
-- What `OnSocketReady` hands to the engine for each command of the protocol.
use distributed_nas.Base.{
  ℕ, ◌≤◌, ◌<◌, ◌^◌, ◌≡◌, ◌≢◌, ◌↔◌, to_int32, refl, ◌∙◌, List, [], arith, length, pos,
}
use distributed_nas.Nbd.Bytes.{be_bytes, le_bytes, of_le, ntohl, ntohl-be_bytes, be64toh-be_bytes}
use distributed_nas.Nbd.Io.{ReadCall, done, fault}
use distributed_nas.Nbd.Io.Reading.{Supplies}
use distributed_nas.Nbd.Server.{Server, >>=-done}
use distributed_nas.Nbd.Proxy.{
  plain, rw_req, nbd_rw_req, make_request, on_socket_ready, nbd_cmd_read, nbd_cmd_write,
  nbd_cmd_disc, socket_read,
}
use distributed_nas.Nbd.Proxy.Decoding.{
  encode_request, sent_request, on_socket_ready-encode_request, nbd_rw_req-sent_request, rw_of,
  socket_read-Supplies,
}

module _ {F : Type 0} (s : Server F) (handle : List ℕ) (from len : ℕ) (rest : List ReadCall) where
  -- A read command with an 8-byte handle, an offset and a length below 2^31, delivered in any pieces,
  -- becomes a request with the same handle, offset and length, and nothing more is read.
  pub on_socket_ready-read :
      length handle ≡ 8
      → from < 2 ^ 31
      → len < 2 ^ 31
      → Supplies s.from_socket (encode_request nbd_cmd_read handle from len) rest
      → on_socket_ready s
        ≡ done (rw_req (rw_of nbd_cmd_read handle from len []), record s { from_socket = rest })
  unfolding make_request
  on_socket_ready-read eight hf hl sup =
      on_socket_ready-encode_request s nbd_cmd_read handle from len rest eight sup
      ∙ rw (
        ntohl-be_bytes 0 (omega arith),
        nbd_rw_req-sent_request s 0 handle from len [] (omega arith) hf hl,
      )

  -- A write command under the same bounds, followed by a payload of its length, becomes a request
  -- that also holds the payload; the bytes after it stay on the socket.
  pub on_socket_ready-write :
      (payload : List ℕ) (rest' : List ReadCall)
      → length handle ≡ 8
      → from < 2 ^ 31
      → len < 2 ^ 31
      → length payload ≡ len
      → Supplies s.from_socket (encode_request nbd_cmd_write handle from len) rest
      → Supplies rest payload rest'
      → on_socket_ready s
        ≡ done
            (rw_req (rw_of nbd_cmd_write handle from len payload), record s { from_socket = rest' })
  unfolding make_request
  on_socket_ready-write payload rest' eight hf hl e sup more =
      on_socket_ready-encode_request s nbd_cmd_write handle from len rest eight sup
      ∙ rw (ntohl-be_bytes 1 (omega arith)) (
          >>=-done (socket_read (ntohl (of_le (be_bytes 4 len)))) _
            (record s { from_socket = rest })
            (socket_read-Supplies (record s { from_socket = rest }) rest' payload _ more
              (ntohl-be_bytes len (omega arith) ∙ omega arith))
          ∙ rw (nbd_rw_req-sent_request s 1 handle from len payload (omega arith) hf hl))

  -- A disconnect command becomes a plain request whose type is 0x02000000, the command as it stands
  -- on the network, and not 2: the type is not put through `ntohl`.
  pub on_socket_ready-disc :
      length handle ≡ 8
      → Supplies s.from_socket (encode_request nbd_cmd_disc handle from len) rest
      → on_socket_ready s ≡ done (plain 0x02000000, record s { from_socket = rest })
  unfolding make_request
  on_socket_ready-disc eight sup =
      on_socket_ready-encode_request s nbd_cmd_disc handle from len rest eight sup
      ∙ rw (ntohl-be_bytes 2 (omega arith)) (unfold be_bytes le_bytes of_le in refl)

  -- Any other command of 32 bits, such as a flush or a trim, makes it call the callback through the
  -- null pointer.
  pub on_socket_ready-unknown :
      (kind : ℕ)
      → 2 < kind
      → kind < 2 ^ 32
      → length handle ≡ 8
      → Supplies s.from_socket (encode_request kind handle from len) rest
      → on_socket_ready s ≡ fault
  unfolding make_request
  on_socket_ready-unknown kind big small eight sup =
      on_socket_ready-encode_request s kind handle from len rest eight sup
      ∙ rw (ntohl-be_bytes kind small) (ground arith)

-- From an offset of 2^31 on, the `int` of the request does not hold the offset of the command.
to_int32_iff : (n : ℕ) → (to_int32 n ≡ pos n) ↔ (n < 2 ^ 31)
to_int32_iff n = ground arith

pub nbd_rw_req-truncates :
    (kind : ℕ) (handle : List ℕ) (from len : ℕ) (payload : List ℕ)
    → 2 ^ 31 ≤ from
    → from < 2 ^ 64
    → (nbd_rw_req (sent_request kind handle from len) payload).m_offset ≢ pos from
unfolding nbd_rw_req
nbd_rw_req-truncates kind handle from len payload big small =
    rw (be64toh-be_bytes from small) (ground arith)

-- The fields of the request are numbers of type `int`: for an offset of 64 bits and a length of 32, each
-- holds what the command says exactly if that is below 2^31.
pub nbd_rw_req_iff :
    (kind : ℕ) (handle : List ℕ) (from len : ℕ) (payload : List ℕ)
    → from < 2 ^ 64
    → len < 2 ^ 32
    → (((nbd_rw_req (sent_request kind handle from len) payload).m_offset ≡ pos from)
        ↔ (from < 2 ^ 31))
      × (((nbd_rw_req (sent_request kind handle from len) payload).m_size ≡ pos len)
          ↔ (len < 2 ^ 31))
unfolding nbd_rw_req
nbd_rw_req_iff kind handle from len payload small short =
    rw (be64toh-be_bytes from small, ntohl-be_bytes len short) (to_int32_iff from, to_int32_iff len)
