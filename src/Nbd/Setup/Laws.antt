-- ===== src/Nbd/Setup/Laws.antt =====
-- What the constructor and the destructor of an `NBDProxy` do to the process's descriptors.
use distributed_nas.Base.{ℕ, ◌+◌, ◌≡◌, refl, true, false, List, ◌∷◌, Option, some, arith}
use distributed_nas.Nbd.Setup.{
  OsCall, socketpair_call, open_call, sigemptyset_call, sigaddset_call, sigaction_call,
  pthread_create_call, pthread_detach_call, set_size, set_sock, clear_sock, do_it, disconnect,
  close_call, Os, Error, bad_sockpair, bad_open, bad_set_size, bad_clear_sock, returned, threw,
  throw_if_bad, NbdProxy, start_server, nbd_proxy, destroy_proxy, get_fd, run_server,
  disconnect_nbd, is_valid,
}

-- How many descriptors were open when the constructor threw, besides those before it.
abbrev pub leaked : Error → ℕ → List ℕ → List ℕ
leaked bad_sockpair fd fds = fds
leaked bad_open fd fds = fd ∷ (fd + 1) ∷ fds
leaked e fd fds = (fd + 2) ∷ fd ∷ (fd + 1) ∷ fds

-- What the static variable is after the constructor threw.
abbrev pub registered : Error → ℕ → Option ℕ → Option ℕ
registered bad_sockpair fd dev = dev
registered bad_open fd dev = dev
registered bad_set_size fd dev = dev
registered bad_clear_sock fd dev = dev
registered e fd dev = some (fd + 2)

-- Whichever calls fail, a constructor that throws closes nothing that it has opened: before the
-- device is open no descriptor or the two sockets stay open, and from then on all three. If it throws
-- after it has registered the device for the signal, the device stays registered.
pub nbd_proxy-threw :
    (size : ℕ) (s s' : Os) (e : Error)
    → nbd_proxy size s ≡ (threw e, s')
    → (s'.open_fds ≡ leaked e s.next_fd s.open_fds)
      × (s'.nbd_dev_to_disconnect ≡ registered e s.next_fd s.nbd_dev_to_disconnect)
unfolding nbd_proxy start_server throw_if_bad
nbd_proxy-threw size s s' e h = ground arith

-- The calls of the constructor, the last one first.
abbrev pub setup_calls : ℕ → ℕ → List OsCall → List OsCall
setup_calls fd size before =
    pthread_detach_call
    ∷ pthread_create_call
    ∷ sigaction_call
    ∷ sigaddset_call
    ∷ sigemptyset_call
    ∷ clear_sock (fd + 2)
    ∷ set_size (fd + 2) size
    ∷ open_call
    ∷ socketpair_call
    ∷ before

module _ (size : ℕ) (s : Os) (all : (c : OsCall) → s.succeeds c ≡ true) where
  abbrev pub made_proxy : NbdProxy
  made_proxy = record {
    m_socket_fd = (s.next_fd, s.next_fd + 1);
    m_nbd_fd = s.next_fd + 2;
    m_size = size;
  }

  abbrev pub set_up : Os
  set_up = record s {
    calls = setup_calls s.next_fd size s.calls;
    open_fds = (s.next_fd + 2) ∷ s.next_fd ∷ (s.next_fd + 1) ∷ s.open_fds;
    next_fd = s.next_fd + 3;
    nbd_dev_to_disconnect = some (s.next_fd + 2);
  }

  pub nbd_proxy-returned : nbd_proxy size s ≡ (returned made_proxy, set_up)
  unfolding nbd_proxy start_server throw_if_bad
  nbd_proxy-returned = ground (
    arith,
    all socketpair_call,
    all open_call,
    all (set_size (s.next_fd + 2) size),
    all (clear_sock (s.next_fd + 2)),
    all sigemptyset_call,
    all sigaddset_call,
    all pthread_create_call,
    all pthread_detach_call,
  )

  abbrev pub closed : Os
  closed = record set_up {
    calls =
        close_call (s.next_fd + 2)
        ∷ close_call (s.next_fd + 1)
        ∷ close_call s.next_fd
        ∷ set_up.calls;
    open_fds = s.open_fds;
  }

  destroy_proxy-returned : destroy_proxy made_proxy set_up ≡ (returned tt, closed)
  unfolding destroy_proxy throw_if_bad
  destroy_proxy-returned = ground (
    arith,
    all (close_call s.next_fd),
    all (close_call (s.next_fd + 1)),
    all (close_call (s.next_fd + 2)),
  )

  -- Where every call succeeds: the constructor opens three descriptors, registers the device for the
  -- signal and sets its size; the thread of `RunServer` gives the device the other socket than the
  -- one that `GetFd` names; the destructor closes the three and leaves the descriptors as they were
  -- before. But the device stays registered: a signal afterwards makes a call on a closed descriptor.
  pub nbd_proxy-destroy_proxy :
      (p : NbdProxy) × (s' : Os) × (s'' : Os) × (nbd_proxy size s ≡ (returned p, s'))
      × (s'.open_fds ≡ p.m_nbd_fd ∷ get_fd p ∷ p.m_socket_fd.1 ∷ s.open_fds)
      × (s'.nbd_dev_to_disconnect ≡ some p.m_nbd_fd)
      × (s'.calls ≡ setup_calls s.next_fd size s.calls)
      × ((run_server p s').1.calls
          ≡ do_it p.m_nbd_fd ∷ set_sock p.m_nbd_fd p.m_socket_fd.1 ∷ s'.calls)
      × (destroy_proxy p s' ≡ (returned tt, s''))
      × (s''.open_fds ≡ s.open_fds)
      × (is_valid s'' ≡ true)
      × ((disconnect_nbd s'').calls ≡ disconnect p.m_nbd_fd ∷ s''.calls)
  unfolding get_fd run_server throw_if_bad is_valid disconnect_nbd
  nbd_proxy-destroy_proxy = (
    made_proxy,
    set_up,
    closed,
    nbd_proxy-returned,
    refl,
    refl,
    refl,
    ground (arith, all (set_sock (s.next_fd + 2) (s.next_fd + 1)), all (do_it (s.next_fd + 2))),
    destroy_proxy-returned,
    refl,
    refl,
    refl,
  )

-- A signal makes at most one call to disconnect the device: after the handler nothing is registered,
-- and another signal changes nothing.
pub disconnect_nbd-disconnect_nbd :
    (s : Os)
    → (disconnect_nbd (disconnect_nbd s) ≡ disconnect_nbd s)
      × (is_valid (disconnect_nbd s) ≡ false)
      × ((disconnect_nbd s).open_fds ≡ s.open_fds)
unfolding disconnect_nbd is_valid
disconnect_nbd-disconnect_nbd s = ground arith
