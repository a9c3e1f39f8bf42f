-- ===== src/Nbd/Proxy/Typing.antt =====
-- What every request that `OnSocketReady` (nbdproxy.cpp) hands on looks like.
use distributed_nas.Base.{
  ℕ, ◌^◌, ◌%◌, ◌<◌, ◌≡◌, refl, subst, ◌⊎◌, inl, inr, [], ℤ, pos, negsuc, arith, to_int32, ltb, ◌==◌,
  ==_iff, Outcome, done, waiting, fault, Outcome-cases, Bool-cases,
}
use distributed_nas.Nbd.Bytes.{ntohl}
use distributed_nas.Nbd.Server.{Server, ◌>>=◌}
use distributed_nas.Nbd.Proxy.{
  nbd_cmd_read, nbd_cmd_write, nbd_cmd_disc, WireRequest, load_request, Request, plain, rw_req,
  nbd_rw_req, socket_read, make_request, on_socket_ready,
}

-- The values of an `int`.
abbrev pub IsInt : ℤ → Type 0
IsInt (pos n) = n < 2 ^ 31
IsInt (negsuc n) = n < 2 ^ 31

abbrev pub IsTyped : Request → Type 0
IsTyped (plain kind) = ntohl kind ≡ nbd_cmd_disc
IsTyped (rw_req r) =
    IsInt r.m_size
    × IsInt r.m_offset
    × (((r.m_type ≡ nbd_cmd_read) × (r.m_data ≡ [])) ⊎ (r.m_type ≡ nbd_cmd_write))

to_int32-IsInt : (n : ℕ) → IsInt (to_int32 n)
to_int32-IsInt n = elim (Bool-cases (ltb (n % 2 ^ 32) (2 ^ 31))) [
  | inl e ↦ rw e (ground (arith, e))
  | inr e ↦ rw e (ground (arith, e))
]

module _ {F : Type 0} where
  abbrev Gives : Outcome (Request × Server F) → Type 0
  Gives o = (req : Request) (s : Server F) → o ≡ done (req, s) → IsTyped req

  Gives-done : (req : Request) (s : Server F) → IsTyped req → Gives (done (req, s))
  Gives-done req s typed req' s' e = let same : req ≡ req' = cc in subst IsTyped same typed

  make_request-IsTyped : (w : WireRequest) (s : Server F) → Gives (make_request w s)
  unfolding make_request nbd_rw_req
  make_request-IsTyped w s = elim (Bool-cases (ntohl w.kind == nbd_cmd_read)) [
    | inl e ↦ rw e (
        Gives-done _ s (
          to_int32-IsInt _,
          to_int32-IsInt _,
          inl ((==_iff (ntohl w.kind) nbd_cmd_read).0 e, refl),
        ))
    | inr d ↦ elim (Bool-cases (ntohl w.kind == nbd_cmd_write)) [
      | inl e ↦
          rw (d, e)
            (elim (Outcome-cases (socket_read (ntohl w.len) s)) [
              | inl ((bs, t), r) ↦
                  rw (r, ◌>>=◌)
                    (Gives-done _ t (
                      to_int32-IsInt _,
                      to_int32-IsInt _,
                      inr ((==_iff (ntohl w.kind) nbd_cmd_write).0 e),
                    ))
              | inr (inl r) ↦
                  rw (r, ◌>>=◌) (λ req t h. absurd (let no_end : waiting ≡ done (req, t) = h in cc))
              | inr (inr r) ↦
                  rw (r, ◌>>=◌) (λ req t h. absurd (let no_end : fault ≡ done (req, t) = h in cc))
            ])
      | inr d' ↦ elim (Bool-cases (ntohl w.kind == nbd_cmd_disc)) [
        | inl e ↦
            rw (d, d', e) (Gives-done (plain w.kind) s ((==_iff (ntohl w.kind) nbd_cmd_disc).0 e))
        | inr e ↦ rw (d, d', e) (λ req t h. absurd (let no_end : fault ≡ done (req, t) = h in cc))
      ]
    ]
  ]

  -- Whatever the socket delivers, and however it is cut: a request that `OnSocketReady` hands on is a
  -- read with no data yet or a write, with a size and an offset that an `int` holds, or a disconnect
  -- command whose type is still in the network's byte order.
  pub on_socket_ready-IsTyped :
      (s t : Server F) (req : Request) → on_socket_ready s ≡ done (req, t) → IsTyped req
  unfolding on_socket_ready
  on_socket_ready-IsTyped s t req h = elim (Outcome-cases (socket_read 28 s)) [
    | inl ((bs, u), r) ↦ make_request-IsTyped (load_request bs) u req t (rw (r, ◌>>=◌) at h)
    | inr (inl r) ↦ absurd (let no_end : waiting ≡ done (req, t) = rw (r, ◌>>=◌) at h in cc)
    | inr (inr r) ↦ absurd (let no_end : fault ≡ done (req, t) = rw (r, ◌>>=◌) at h in cc)
  ]
