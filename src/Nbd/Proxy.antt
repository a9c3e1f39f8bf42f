-- ===== src/Nbd/Proxy.antt =====
-- `NBDProxy` (nbdproxy.cpp): requests read from the socket, and replies written to it.
pub mod Decoding
pub mod Requests
pub mod Replies
pub mod Replying
pub mod Typing
use mathlib.Core.List.{append-nil, append_assoc}
use distributed_nas.Base.{
  ℕ, ◌≡◌, refl, sym, List, [], ◌∷◌, ◌++◌, length, take, drop, ℤ, to_int32, to_size, ◌==◌,
  if◌then◌else◌,
}
use distributed_nas.Nbd.Bytes.{le_bytes, of_le, ntohl, htonl, be64toh}
use distributed_nas.Nbd.Io.{Outcome, done, waiting, fault, read_all, write_all, Sink}
use distributed_nas.Nbd.Server.{Server, M, ◌>>=◌, ◌>>◌, pure, crash}

abbrev pub nbd_cmd_read : ℕ
nbd_cmd_read = 0

abbrev pub nbd_cmd_write : ℕ
nbd_cmd_write = 1

abbrev pub nbd_cmd_disc : ℕ
nbd_cmd_disc = 2

abbrev pub reply_magic : ℕ
reply_magic = 0x67446698

-- `struct nbd_request` of <linux/nbd.h>, 28 bytes, as loaded from memory and not yet swapped.
pub record WireRequest : Type 0 where
  pub magic : ℕ
  pub kind : ℕ
  pub handle : List ℕ
  pub from : ℕ
  pub len : ℕ

abbrev pub load_request : List ℕ → WireRequest
load_request bs = record {
  magic = of_le (take 4 bs);
  kind = of_le (take 4 (drop 4 bs));
  handle = take 8 (drop 8 bs);
  from = of_le (take 8 (drop 16 bs));
  len = of_le (take 4 (drop 24 bs));
}

-- `NBDRWReq`. The type is the bit pattern of an int; a buffer that is not yet written is empty.
pub record RwReq : Type 0 where
  pub m_type : ℕ
  pub m_size : ℤ
  pub m_offset : ℤ
  pub m_handle : List ℕ
  pub m_data : List ℕ

pub data Request : Type 0 where
  plain : ℕ → Request
  rw_req : RwReq → Request

abbrev pub type_of : Request → ℕ
type_of (plain t) = t
type_of (rw_req r) = r.m_type

-- The constructor of `NBDRWReq`.
unfoldable pub nbd_rw_req : WireRequest → List ℕ → RwReq
nbd_rw_req nbdr buffer = record {
  m_type = ntohl nbdr.kind;
  m_size = to_int32 (ntohl nbdr.len);
  m_offset = to_int32 (be64toh nbdr.from);
  m_handle = nbdr.handle;
  m_data = buffer;
}

abbrev pub socket_sink : Sink (List ℕ)
socket_sink = record {
  put = λ xs out. out ++ xs;
  put-nil = append-nil;
  put-append = λ xs ys out. append_assoc out xs ys;
}

-- `struct nbd_reply`, 16 bytes, as `Done` fills it in.
unfoldable pub reply_header : List ℕ → List ℕ
reply_header handle = le_bytes 4 (htonl reply_magic) ++ (le_bytes 4 (htonl 0) ++ handle)

module _ {F : Type 0} where
  unfoldable pub socket_read : ℕ → M F (List ℕ)
  socket_read n s = elim (read_all s.from_socket n) [
    | done (bs, calls) ↦ done (bs, record s { from_socket = calls })
    | waiting ↦ waiting
    | fault ↦ fault
  ]

  unfoldable pub socket_write : List ℕ → M F (Unit {0})
  socket_write bs s = elim (write_all socket_sink s.to_socket bs s.sent) [
    | done (out, calls) ↦ done (tt, record s { sent = out; to_socket = calls })
    | waiting ↦ waiting
    | fault ↦ fault
  ]

  -- The `switch` of `OnSocketReady`. A type that has no case leaves the null pointer.
  unfoldable pub make_request : WireRequest → M F Request
  make_request request =
      if ntohl request.kind == nbd_cmd_read
      then pure (rw_req (nbd_rw_req request []))
      else if ntohl request.kind == nbd_cmd_write
      then (do temp ← socket_read (ntohl request.len); pure (rw_req (nbd_rw_req request temp)))
      else if ntohl request.kind == nbd_cmd_disc
      then pure (plain request.kind)
      else crash

  unfoldable pub on_socket_ready : M F Request
  unfolding make_request
  on_socket_ready = do bs ← socket_read 28; make_request (load_request bs)

  -- A write of `m_size` bytes from a buffer that holds fewer runs over its end.
  unfoldable pub proxy_done : Request → M F (Unit {0})
  proxy_done (plain t) = crash
  proxy_done (rw_req r) = do
    socket_write (reply_header r.m_handle)
    if r.m_type == nbd_cmd_read
        then (if to_size r.m_size == length r.m_data then socket_write r.m_data else crash)
        else pure tt
