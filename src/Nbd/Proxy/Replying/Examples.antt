-- ===== src/Nbd/Proxy/Replying/Examples.antt =====
-- Two threads in `Done`, the first one with data.
use distributed_nas.Base.{ℕ, zero, suc, ◌≡◌, refl, List, [], ◌∷◌, pos, done}
use distributed_nas.Nbd.Proxy.{RwReq, nbd_cmd_read, nbd_cmd_write}
use distributed_nas.Nbd.Proxy.Replying.{Replying, reply_run, replying}
use distributed_nas.Nbd.Proxy.Replying.Whole.{IsFilled, AreWhole}
use distributed_nas.Nbd.Proxy.Replying.Runs.{reply_run-AreWhole}

abbrev request_for : ℕ → List ℕ → RwReq
request_for kind buffer = record {
  m_type = kind;
  m_size = pos 2;
  m_offset = pos 0;
  m_handle = 1 ∷ 2 ∷ 3 ∷ 4 ∷ 5 ∷ 6 ∷ 7 ∷ 8 ∷ [];
  m_data = buffer;
}

abbrev requests : ℕ → RwReq
requests zero = request_for nbd_cmd_read (90 ∷ 91 ∷ [])
requests (suc i) = request_for nbd_cmd_write []

requests-IsFilled : (i : ℕ) → IsFilled (requests i)
requests-IsFilled zero h = refl
requests-IsFilled (suc i) h = cc

-- The second thread comes while the first one has the mutex.
abbrev steps : List (ℕ × ℕ)
steps =
    (0, 0)
    ∷ (1, 5)
    ∷ (0, 7)
    ∷ (1, 5)
    ∷ (0, 9)
    ∷ (0, 0)
    ∷ (0, 1)
    ∷ (0, 1)
    ∷ (0, 0)
    ∷ (1, 0)
    ∷ (1, 5)
    ∷ []

reply_run-AreWhole_example :
    (s : Replying) × (reply_run requests steps replying ≡ done s) × AreWhole requests s
reply_run-AreWhole_example = reply_run-AreWhole requests steps requests-IsFilled
