-- ===== src/Nbd/Proxy/Replying.antt =====
-- `NBDProxy::Done` (nbdproxy.cpp) in any number of threads at once: one step for each call of `write`, and
-- for taking and leaving the mutex. Calls of `write` succeed, and take as many bytes as they like.
pub mod Whole
pub mod Runs
mod Examples
use distributed_nas.Base.{
  ℕ, ◌≡◌, List, [], ◌∷◌, ◌++◌, Option, none, some, take, drop, length, to_size, ◌==◌, if◌then◌else◌,
  Outcome, done, waiting, fault, update,
}
use distributed_nas.Nbd.Proxy.{RwReq, nbd_cmd_read, reply_header}

-- Where a thread stands: before the mutex, in the `write_all` of the header or of the data with what is
-- left to write, or after the call.
pub data Position : Type 0 where
  locks left : Position
  header body : List ℕ → Position

-- `sent` is what the socket has got; `m_mutex` names the thread that has the mutex.
pub record Replying : Type 0 where
  pub sent : List ℕ
  pub m_mutex : Option ℕ
  pub threads : ℕ → Position

abbrev pub at : ℕ → Position → Replying → Replying
at i p s = record s { threads = update s.threads i p }

-- `scoped_lock`, by who has the mutex.
abbrev pub lock : Option ℕ → ℕ → RwReq → Replying → Replying
lock none i r s = record s {
  m_mutex = some i;
  threads = update s.threads i (header (reply_header r.m_handle));
}
lock (some j) i r s = s

abbrev pub unlock : ℕ → Replying → Replying
unlock i s = record s { m_mutex = none; threads = update s.threads i left }

-- After the header. A write of `m_size` bytes from a buffer that holds fewer runs over its end.
unfoldable pub after_header : ℕ → RwReq → Replying → Outcome Replying
after_header i r s =
    if r.m_type == nbd_cmd_read
    then (if to_size r.m_size == length r.m_data then done (at i (body r.m_data) s) else fault)
    else done (unlock i s)

-- A step of thread `i` at a position, whose call of `write` takes at most `n` bytes.
unfoldable pub reply_at : Position → ℕ → ℕ → RwReq → Replying → Outcome Replying
unfolding after_header reply_header
reply_at locks i n r s = done (lock s.m_mutex i r s)
reply_at (header []) i n r s = after_header i r s
reply_at (header (b ∷ bs)) i n r s =
    done (at i (header (drop n (b ∷ bs))) (record s { sent = s.sent ++ take n (b ∷ bs) }))
reply_at (body []) i n r s = done (unlock i s)
reply_at (body (b ∷ bs)) i n r s =
    done (at i (body (drop n (b ∷ bs))) (record s { sent = s.sent ++ take n (b ∷ bs) }))
reply_at left i n r s = done s

-- The steps of a run: which thread, and how many bytes. Thread `i` replies to request `requests i`.
unfoldable pub reply_run : (ℕ → RwReq) → List (ℕ × ℕ) → Replying → Outcome Replying
unfolding reply_at
reply_run requests [] s = done s
reply_run requests ((i, n) ∷ steps) s = elim (reply_at (s.threads i) i n (requests i) s) [
  | done t ↦ reply_run requests steps t
  | waiting ↦ waiting
  | fault ↦ fault
]

abbrev pub replying : Replying
replying = record { sent = []; m_mutex = none; threads = λ i. locks }
