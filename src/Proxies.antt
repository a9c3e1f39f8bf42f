-- ===== src/Proxies.antt =====
-- masterproxy.hpp and slavekproxy.hpp: how the two proxies between servers open and close their UDP
-- sockets. No result of a call is looked at. `OnSocketReady` is not here: it uses members that the
-- request does not have.
pub mod Sockets
use distributed_nas.Base.{
  ℕ, ◌+◌, ◌≡◌, List, [], ◌∷◌, Option, none, some, ℤ, pos, negsuc, ◌==◌, if◌then◌else◌, Bool,
  Outcome, done, waiting, fault,
}

-- What the process holds: address lists of `getaddrinfo`, descriptors, and those that are bound.
pub record Net : Type 0 where
  pub addresses : List ℕ
  pub open_fds : List ℕ
  pub bound : List ℕ

-- The members; `m_socket_fd` is `m_socket` of one and `m_udp_socket_fd` of the other.
pub record UdpProxy : Type 0 where
  pub m_size : ℕ
  pub m_res : ℕ
  pub m_socket_fd : ℤ

abbrev pub without : ℕ → List ℕ → List ℕ
without a [] = []
without a (b ∷ bs) = if b == a then bs else b ∷ without a bs

abbrev pub fd_of : Option ℕ → ℤ
fd_of none = negsuc 0
fd_of (some fd) = pos fd

abbrev pub opened_by : Option ℕ → List ℕ → List ℕ
opened_by none fds = fds
opened_by (some fd) fds = fd ∷ fds

abbrev pub bound_by : Option ℕ → Bool → List ℕ → List ℕ
bound_by none accepted fds = fds
bound_by (some fd) accepted fds = if accepted then fd ∷ fds else fds

-- The constructor of `SlaveProxy`, with what `getaddrinfo` and `socket` give. Without an address
-- `m_res` is not set, and following it is undefined.
unfoldable pub slave_proxy : ℕ → Option ℕ → Option ℕ → Net → Outcome (UdpProxy × Net)
slave_proxy size none socket n = fault
slave_proxy size (some res) socket n = done (
  record { m_size = size; m_res = res; m_socket_fd = fd_of socket },
  record n { addresses = res ∷ n.addresses; open_fds = opened_by socket n.open_fds },
)

-- The constructor of `MasterProxy`, with whether `bind` would accept the address.
unfoldable pub master_proxy : ℕ → Option ℕ → Option ℕ → Bool → Net → Outcome (UdpProxy × Net)
master_proxy size none socket accepted n = fault
master_proxy size (some res) socket accepted n = done (
  record { m_size = size; m_res = res; m_socket_fd = fd_of socket },
  record n {
    addresses = res ∷ n.addresses;
    open_fds = opened_by socket n.open_fds;
    bound = bound_by socket accepted n.bound;
  },
)

-- `close`, which does nothing to a number that is no descriptor, and ends a binding.
abbrev pub close_socket : ℤ → Net → Net
close_socket (pos fd) n = record n { open_fds = without fd n.open_fds; bound = without fd n.bound }
close_socket (negsuc k) n = n

-- The destructors.
unfoldable pub destroy_slave : UdpProxy → Net → Net
destroy_slave p n =
    close_socket p.m_socket_fd (record n { addresses = without p.m_res n.addresses })

unfoldable pub destroy_master : UdpProxy → Net → Net
destroy_master p n =
    close_socket p.m_socket_fd (record n { addresses = without p.m_res n.addresses })

unfoldable pub master_fd : UdpProxy → ℤ
master_fd p = p.m_socket_fd
