-- ===== src/Nbd/Setup/Examples.antt =====
-- A process with descriptors 0 to 2, in which all calls succeed, and one in which a call fails.
use distributed_nas.Base.{◌≡◌, refl, Bool, true, false, [], ◌∷◌, none, some}
use distributed_nas.Nbd.Setup.{
  OsCall, Os, NbdProxy, pthread_detach_call, set_sock, do_it, disconnect, returned, threw,
  bad_detach, throw_if_bad, start_server, nbd_proxy, destroy_proxy, get_fd, run_server,
  disconnect_nbd, is_valid,
}
use distributed_nas.Nbd.Setup.Laws.{setup_calls, nbd_proxy-threw, nbd_proxy-destroy_proxy}

abbrev process : Os
process = record {
  succeeds = λ c. true;
  calls = [];
  open_fds = 2 ∷ 1 ∷ 0 ∷ [];
  next_fd = 3;
  nbd_dev_to_disconnect = none;
}

abbrev unless_detach : OsCall → Bool
unless_detach pthread_detach_call = false
unless_detach c = true

abbrev failing : Os
failing = record process { succeeds = unless_detach }

abbrev failed_state : Os
failed_state = record failing {
  calls = setup_calls 3 4096 [];
  open_fds = 5 ∷ 3 ∷ 4 ∷ 2 ∷ 1 ∷ 0 ∷ [];
  next_fd = 6;
  nbd_dev_to_disconnect = some 5;
}

threw_bad_detach : nbd_proxy 4096 failing ≡ (threw bad_detach, failed_state)
unfolding nbd_proxy start_server throw_if_bad
threw_bad_detach = refl

nbd_proxy-threw_example :
    (failed_state.open_fds ≡ 5 ∷ 3 ∷ 4 ∷ 2 ∷ 1 ∷ 0 ∷ [])
    × (failed_state.nbd_dev_to_disconnect ≡ some 5)
nbd_proxy-threw_example = nbd_proxy-threw 4096 failing failed_state bad_detach threw_bad_detach

nbd_proxy-destroy_proxy_example :
    (p : NbdProxy) × (s' : Os) × (s'' : Os) × (nbd_proxy 4096 process ≡ (returned p, s'))
    × (s'.open_fds ≡ p.m_nbd_fd ∷ get_fd p ∷ p.m_socket_fd.1 ∷ 2 ∷ 1 ∷ 0 ∷ [])
    × (s'.nbd_dev_to_disconnect ≡ some p.m_nbd_fd)
    × (s'.calls ≡ setup_calls 3 4096 [])
    × ((run_server p s').1.calls
        ≡ do_it p.m_nbd_fd ∷ set_sock p.m_nbd_fd p.m_socket_fd.1 ∷ s'.calls)
    × (destroy_proxy p s' ≡ (returned tt, s''))
    × (s''.open_fds ≡ 2 ∷ 1 ∷ 0 ∷ [])
    × (is_valid s'' ≡ true)
    × ((disconnect_nbd s'').calls ≡ disconnect p.m_nbd_fd ∷ s''.calls)
nbd_proxy-destroy_proxy_example = nbd_proxy-destroy_proxy 4096 process (λ c. refl)
