-- ===== src/Nbd/Setup.antt =====
-- What sets up and closes an `NBDProxy` (nbdproxy.cpp), with `ThrowIfBad` (utils.hpp), on a kernel that
-- has open descriptors and says of each call whether it succeeds.
pub mod Laws
mod Examples
use distributed_nas.Base.{
  ℕ, ◌+◌, ◌≡◌, refl, Bool, true, false, not, List, [], ◌∷◌, Option, none, some, ◌==◌, if◌then◌else◌,
}

pub data OsCall : Type 0 where
  socketpair_call open_call sigemptyset_call sigaddset_call sigaction_call : OsCall
  pthread_create_call pthread_detach_call open_file_call inotify_init_call : OsCall
  inotify_add_watch_call : ℕ → List ℕ → OsCall
  set_size : ℕ → ℕ → OsCall
  truncate_call : ℕ → ℕ → OsCall
  set_sock : ℕ → ℕ → OsCall
  clear_sock do_it disconnect close_call : ℕ → OsCall

-- `calls` lists those made, the last one first. `nbd_dev_to_disconnect` is the static variable of the file; `none` is its -1.
pub record Os : Type 0 where
  pub succeeds : OsCall → Bool
  pub calls : List OsCall
  pub open_fds : List ℕ
  pub next_fd : ℕ
  pub nbd_dev_to_disconnect : Option ℕ

-- The texts that the exceptions carry.
pub data Error : Type 0 where
  bad_sockpair bad_open bad_set_size bad_clear_sock bad_sigemptyset bad_sigaddset : Error
  bad_threadcreate bad_detach bad_close bad_set_sock bad_do_it bad_file bad_truncate : Error

pub data Ended (A : Type 0) : Type 0 where
  returned : A → Ended A
  threw : Error → Ended A

abbrev pub OsM : Type 0 → Type 0
OsM A = Os → Ended A × Os

infixl 5 ◌>>=◌ ◌>>◌
abbrev pub ◌>>=◌ : {A B : Type 0} → OsM A → (A → OsM B) → OsM B
◌>>=◌ m f s = elim (m s).0 [ returned a ↦ f a (m s).1 | threw e ↦ (threw e, (m s).1) ]

abbrev pub ◌>>◌ : {B : Type 0} → OsM (Unit {0}) → OsM B → OsM B
m >> k = m >>= λ _. k

abbrev pub pure : {A : Type 0} → A → OsM A
pure a s = (returned a, s)

pub >>=-returned :
    {A B : Type 0} (m : OsM A) (f : A → OsM B) (s : Os) {a : A} {s' : Os}
    → m s ≡ (returned a, s')
    → (m >>= f) s ≡ f a s'
>>=-returned m f s e = rw (e, ◌>>=◌) (rw e refl)

unfoldable pub throw_if_bad : Bool → Error → OsM (Unit {0})
throw_if_bad true error s = (threw error, s)
throw_if_bad false error s = (returned tt, s)

-- A call of which the code looks at most at the success.
abbrev pub sys : OsCall → OsM Bool
sys c s = (returned (s.succeeds c), record s { calls = c ∷ s.calls })

-- A call that opens a descriptor if it succeeds, with the descriptor.
abbrev pub sys_open : OsCall → OsM (Bool × ℕ)
sys_open c s = (
  returned (s.succeeds c, s.next_fd),
  record s {
    calls = c ∷ s.calls;
    open_fds = if s.succeeds c then s.next_fd ∷ s.open_fds else s.open_fds;
    next_fd = s.next_fd + 1;
  },
)

-- `socketpair`, which opens two; the first one is the result.
abbrev pub sys_socketpair : OsM (Bool × ℕ)
sys_socketpair s = (
  returned (s.succeeds socketpair_call, s.next_fd),
  record s {
    calls = socketpair_call ∷ s.calls;
    open_fds =
        if s.succeeds socketpair_call then s.next_fd ∷ (s.next_fd + 1) ∷ s.open_fds else s.open_fds;
    next_fd = s.next_fd + 2;
  },
)

abbrev pub without : ℕ → List ℕ → List ℕ
without fd [] = []
without fd (g ∷ gs) = if g == fd then gs else g ∷ without fd gs

abbrev pub sys_close : ℕ → OsM Bool
sys_close fd s = (
  returned (s.succeeds (close_call fd)),
  record s {
    calls = close_call fd ∷ s.calls;
    open_fds = if s.succeeds (close_call fd) then without fd s.open_fds else s.open_fds;
  },
)

-- The descriptors and the size of an `NBDProxy`; `m_socket_fd` is the pair of the two.
pub record NbdProxy : Type 0 where
  pub m_socket_fd : ℕ × ℕ
  pub m_nbd_fd : ℕ
  pub m_size : ℕ

abbrev pub register : ℕ → OsM (Unit {0})
register fd s = (returned tt, record s { nbd_dev_to_disconnect = some fd })

-- The signal's mask, the handler, and the thread of `RunServer`.
unfoldable pub start_server : OsM (Unit {0})
unfolding throw_if_bad
start_server = do
  emptied ← sys sigemptyset_call
  throw_if_bad (not emptied) bad_sigemptyset
  added ← sys sigaddset_call
  throw_if_bad (not added) bad_sigaddset
  handled ← sys sigaction_call
  created ← sys pthread_create_call
  throw_if_bad (not created) bad_threadcreate
  detached ← sys pthread_detach_call
  throw_if_bad (not detached) bad_detach

-- The constructor.
unfoldable pub nbd_proxy : ℕ → OsM NbdProxy
unfolding throw_if_bad start_server
nbd_proxy size = do
  pair ← sys_socketpair
  throw_if_bad (not pair.0) bad_sockpair
  dev ← sys_open open_call
  throw_if_bad (not dev.0) bad_open
  sized ← sys (set_size dev.1 size)
  throw_if_bad (not sized) bad_set_size
  cleared ← sys (clear_sock dev.1)
  throw_if_bad (not cleared) bad_clear_sock
  register dev.1
  start_server
  pure (record { m_socket_fd = (pair.1, pair.1 + 1); m_nbd_fd = dev.1; m_size = size })

-- The destructor.
unfoldable pub destroy_proxy : NbdProxy → OsM (Unit {0})
unfolding throw_if_bad
destroy_proxy p = do
  first ← sys_close p.m_socket_fd.0
  throw_if_bad (not first) bad_close
  second ← sys_close p.m_socket_fd.1
  throw_if_bad (not second) bad_close
  third ← sys_close p.m_nbd_fd
  throw_if_bad (not third) bad_close

unfoldable pub get_fd : NbdProxy → ℕ
get_fd p = p.m_socket_fd.0

-- The detached thread.
unfoldable pub run_server : NbdProxy → OsM (Unit {0})
unfolding throw_if_bad
run_server p = do
  socketed ← sys (set_sock p.m_nbd_fd p.m_socket_fd.1)
  throw_if_bad (not socketed) bad_set_sock
  ended ← sys (do_it p.m_nbd_fd)
  throw_if_bad (not ended) bad_do_it

-- The signal handler.
unfoldable pub disconnect_nbd : Os → Os
disconnect_nbd s = elim s.nbd_dev_to_disconnect [
  | none ↦ record s { nbd_dev_to_disconnect = none }
  | some fd ↦ record s { calls = disconnect fd ∷ s.calls; nbd_dev_to_disconnect = none }
]

unfoldable pub is_valid : Os → Bool
is_valid s = elim s.nbd_dev_to_disconnect [ none ↦ false | some fd ↦ true ]
