-- ===== src/Nbd/Proxy/Decoding.antt =====
-- The request that `OnSocketReady` makes of the bytes of the NBD protocol.
use distributed_nas.Base.{
  ℕ, zero, suc, ◌+◌, ◌<◌, ◌^◌, ◌≡◌, refl, ap, ◌∙◌, List, [], ◌∷◌, ◌++◌, arith, length, take, drop,
  take-append, pos, to_int32, length-append,
}
use distributed_nas.Nbd.Bytes.{be_bytes, of_le, ntohl-be_bytes, be64toh-be_bytes, length-be_bytes}
use distributed_nas.Nbd.Slices.{drop_of_length}
use distributed_nas.Nbd.Io.{ReadCall, done}
use distributed_nas.Nbd.Io.Reading.{Supplies, read_all-Supplies}
use distributed_nas.Nbd.Server.{Server, >>=-done}
use distributed_nas.Nbd.Proxy.{
  WireRequest, load_request, RwReq, nbd_rw_req, socket_read, make_request, on_socket_ready,
}

-- A request as the NBD protocol sends it: every word most significant byte first.
abbrev pub encode_request : ℕ → List ℕ → ℕ → ℕ → List ℕ
encode_request kind handle from len =
    be_bytes 4 0x25609513 ++ (be_bytes 4 kind ++ (handle ++ (be_bytes 8 from ++ be_bytes 4 len)))

take_of_length : (xs ys : List ℕ) (n : ℕ) → length xs ≡ n → take n (xs ++ ys) ≡ xs
take_of_length xs ys n e = rw (← e) (take-append xs ys)

take_all : (xs : List ℕ) (n : ℕ) → length xs ≡ n → take n xs ≡ xs
take_all [] zero e = refl
take_all [] (suc n) e = refl
take_all (x ∷ xs) zero e = absurd (omega arith)
take_all (x ∷ xs) (suc n) e = ap (◌∷◌ x) (take_all xs n (omega arith))

-- The fields of a request before `ntohl` and `be64toh`.
abbrev pub sent_request : ℕ → List ℕ → ℕ → ℕ → WireRequest
sent_request kind handle from len = record {
  magic = of_le (be_bytes 4 0x25609513);
  kind = of_le (be_bytes 4 kind);
  handle = handle;
  from = of_le (be_bytes 8 from);
  len = of_le (be_bytes 4 len);
}

module _ (kind : ℕ) (handle : List ℕ) (from len : ℕ) (eight : length handle ≡ 8) where
  abbrev pub tail_len : List ℕ
  tail_len = be_bytes 8 from ++ be_bytes 4 len

  abbrev pub whole : List ℕ
  whole = encode_request kind handle from len

  after_magic : (m : ℕ) → drop (4 + m) whole ≡ drop m (be_bytes 4 kind ++ (handle ++ tail_len))
  after_magic m = drop_of_length (be_bytes 4 0x25609513) _ 4 m (length-be_bytes 4 _)

  after_kind : (m : ℕ) → drop (4 + (4 + m)) whole ≡ drop m (handle ++ tail_len)
  after_kind m = after_magic (4 + m) ∙ drop_of_length (be_bytes 4 kind) _ 4 m (length-be_bytes 4 _)

  after_handle : (m : ℕ) → drop (4 + (4 + (8 + m))) whole ≡ drop m tail_len
  after_handle m = after_kind (8 + m) ∙ drop_of_length handle _ 8 m eight

  after_from : drop 24 whole ≡ be_bytes 4 len
  after_from = after_handle 8 ∙ drop_of_length (be_bytes 8 from) _ 8 0 (length-be_bytes 8 _)

  load_request-encode_request : load_request whole ≡ sent_request kind handle from len
  load_request-encode_request = λ i. record {
    magic = of_le (
        take_of_length (be_bytes 4 0x25609513) (be_bytes 4 kind ++ (handle ++ tail_len)) 4
          (length-be_bytes 4 _) i);
    kind = of_le (
        (ap (take 4) (after_magic 0) ∙ take_of_length (be_bytes 4 kind) _ 4 (length-be_bytes 4 _))
          i);
    handle = (ap (take 8) (after_kind 0) ∙ take_of_length handle _ 8 eight) i;
    from = of_le (
        (ap (take 8) (after_handle 0) ∙ take_of_length (be_bytes 8 from) _ 8 (length-be_bytes 8 _))
          i);
    len = of_le ((ap (take 4) after_from ∙ take_all (be_bytes 4 len) 4 (length-be_bytes 4 len)) i);
  }

  pub length-encode_request : length whole ≡ 28
  length-encode_request = omega (
    arith,
    length-append (be_bytes 4 0x25609513) (be_bytes 4 kind ++ (handle ++ tail_len)),
    length-append (be_bytes 4 kind) (handle ++ tail_len),
    length-append handle tail_len,
    length-append (be_bytes 8 from) (be_bytes 4 len),
    length-be_bytes 4 0x25609513,
    length-be_bytes 4 kind,
    length-be_bytes 8 from,
    length-be_bytes 4 len,
  )

pub socket_read-Supplies :
    {F : Type 0} (s : Server F) (rest : List ReadCall) (bs : List ℕ) (n : ℕ)
    → Supplies s.from_socket bs rest
    → n ≡ length bs
    → socket_read n s ≡ done (bs, record s { from_socket = rest })
unfolding socket_read
socket_read-Supplies s rest bs n sup e =
    rw (read_all-Supplies s.from_socket rest bs n sup e, socket_read)

to_int32-small : (n : ℕ) → n < 2 ^ 31 → to_int32 n ≡ pos n
to_int32-small n h = ground arith

-- The request that a device command means.
abbrev pub rw_of : ℕ → List ℕ → ℕ → ℕ → List ℕ → RwReq
rw_of kind handle from len payload = record {
  m_type = kind;
  m_size = pos len;
  m_offset = pos from;
  m_handle = handle;
  m_data = payload;
}

module _ {F : Type 0} (s : Server F) (kind : ℕ) (handle : List ℕ) (from len : ℕ) where
  pub on_socket_ready-encode_request :
      (rest : List ReadCall)
      → length handle ≡ 8
      → Supplies s.from_socket (encode_request kind handle from len) rest
      → on_socket_ready s
        ≡ make_request (sent_request kind handle from len) (record s { from_socket = rest })
  unfolding on_socket_ready
  on_socket_ready-encode_request rest eight sup =
      let e = length-encode_request kind handle from len eight in
      >>=-done (socket_read 28) _ s (socket_read-Supplies s rest _ 28 sup (omega (arith, e)))
      ∙ ap (λ w. make_request w (record s { from_socket = rest }))
          (load_request-encode_request kind handle from len eight)

  pub nbd_rw_req-sent_request :
      (payload : List ℕ)
      → kind < 2 ^ 32
      → from < 2 ^ 31
      → len < 2 ^ 31
      → nbd_rw_req (sent_request kind handle from len) payload ≡ rw_of kind handle from len payload
  unfolding nbd_rw_req
  nbd_rw_req-sent_request payload hk hf hl =
      rw
        (
          ntohl-be_bytes kind hk,
          ntohl-be_bytes len (omega arith),
          be64toh-be_bytes from (omega arith),
        )
        (rw (to_int32-small len hl, to_int32-small from hf))
