-- ===== src/Nbd/Proxy/Replies.antt =====
-- What `NBDProxy::Done` puts on the socket.
use distributed_nas.Base.{ℕ, ◌≡◌, ap₂, ◌∙◌, List, ◌++◌, length, ==_refl}
use distributed_nas.Nbd.Bytes.{be_bytes, le_bytes-htonl}
use distributed_nas.Nbd.Io.{WriteCall, done}
use distributed_nas.Nbd.Io.Writing.{Accepts, write_all-Accepts}
use distributed_nas.Nbd.Server.{Server, >>=-done}
use distributed_nas.Nbd.Proxy.{
  rw_req, socket_sink, socket_write, reply_header, proxy_done, nbd_cmd_read, nbd_cmd_write,
}
use distributed_nas.Nbd.Proxy.Decoding.{rw_of}

-- A reply without error as the NBD protocol has it.
abbrev pub encode_reply : List ℕ → List ℕ
encode_reply handle = be_bytes 4 0x67446698 ++ (be_bytes 4 0 ++ handle)

reply_header-encode_reply : (handle : List ℕ) → reply_header handle ≡ encode_reply handle
unfolding reply_header
reply_header-encode_reply handle =
    ap₂ (λ a b. a ++ (b ++ handle)) (le_bytes-htonl 0x67446698) (le_bytes-htonl 0)

socket_write-Accepts :
    {F : Type 0} (s : Server F) (bs : List ℕ) (rest : List WriteCall)
    → Accepts s.to_socket (length bs) rest
    → socket_write bs s ≡ done (tt, record s { sent = s.sent ++ bs; to_socket = rest })
unfolding socket_write
socket_write-Accepts s bs rest acc =
    rw (write_all-Accepts socket_sink s.to_socket rest bs s.sent acc, socket_write)

module _ {F : Type 0} (s : Server F) (handle : List ℕ) (from : ℕ) (bs : List ℕ) where
  -- The state after the header of the reply.
  abbrev answered : List WriteCall → Server F
  answered rest = record s { sent = s.sent ++ encode_reply handle; to_socket = rest }

  header_sent :
      (rest : List WriteCall)
      → Accepts s.to_socket (length (encode_reply handle)) rest
      → socket_write (reply_header handle) s ≡ done (tt, answered rest)
  header_sent rest acc =
      rw (reply_header-encode_reply handle) (socket_write-Accepts s (encode_reply handle) rest acc)

  pub proxy_done-read :
      (rest rest' : List WriteCall)
      → Accepts s.to_socket (length (encode_reply handle)) rest
      → Accepts rest (length bs) rest'
      → proxy_done (rw_req (rw_of nbd_cmd_read handle from (length bs) bs)) s
        ≡ done (tt, record s { sent = (s.sent ++ encode_reply handle) ++ bs; to_socket = rest' })
  unfolding proxy_done
  proxy_done-read rest rest' acc more =
      >>=-done (socket_write (reply_header handle)) _ s (header_sent rest acc)
      ∙ rw (==_refl (length bs)) (socket_write-Accepts (answered rest) bs rest' more)

  pub proxy_done-write :
      (rest : List WriteCall)
      → Accepts s.to_socket (length (encode_reply handle)) rest
      → proxy_done (rw_req (rw_of nbd_cmd_write handle from (length bs) bs)) s
        ≡ done (tt, answered rest)
  unfolding proxy_done
  proxy_done-write rest acc =
      >>=-done (socket_write (reply_header handle)) _ s (header_sent rest acc)
