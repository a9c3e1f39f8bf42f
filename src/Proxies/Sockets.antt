-- ===== src/Proxies/Sockets.antt =====
-- The constructors of the UDP proxies and the destructors after them.
use distributed_nas.Base.{
  ℕ, ◌≡◌, ◌≢◌, refl, List, [], ◌∷◌, Option, none, some, Bool, true, false, All, arith, done,
}
use distributed_nas.Proxies.{
  Net, UdpProxy, without, fd_of, slave_proxy, master_proxy, destroy_slave, destroy_master,
  master_fd,
}

without-new : (fd : ℕ) (fds : List ℕ) → All (λ g. g ≢ fd) fds → without fd fds ≡ fds
without-new fd [] h = refl
without-new fd (g ∷ fds) (h, hs) = ground (arith, h, without-new fd fds hs)

abbrev pub IsNew : Option ℕ → List ℕ → Type 0
IsNew none fds = Unit
IsNew (some fd) fds = All (λ g. g ≢ fd) fds

-- When an address was found, the constructor of `MasterProxy` returns whatever `socket` and `bind` do:
-- the descriptor that it hands out is then the new socket, bound or not, or -1; and the destructor
-- leaves the process with the addresses, descriptors and bindings from before, if a new socket was
-- not bound already.
pub destroy_master-master_proxy :
    (size res : ℕ) (socket : Option ℕ) (accepted : Bool) (n : Net)
    → IsNew socket n.bound
    → (p : UdpProxy) × (m : Net) × (master_proxy size (some res) socket accepted n ≡ done (p, m))
      × (master_fd p ≡ fd_of socket)
      × (destroy_master p m ≡ n)
unfolding master_proxy destroy_master master_fd
destroy_master-master_proxy size res none accepted n h = (_, _, refl, refl, ground arith)
destroy_master-master_proxy size res (some fd) true n h = (_, _, refl, refl, ground arith)
destroy_master-master_proxy size res (some fd) false n h =
    (_, _, refl, refl, ground (arith, without-new fd n.bound h))

pub destroy_slave-slave_proxy :
    (size res : ℕ) (socket : Option ℕ) (n : Net)
    → IsNew socket n.bound
    → (p : UdpProxy) × (m : Net) × (slave_proxy size (some res) socket n ≡ done (p, m))
      × (destroy_slave p m ≡ n)
unfolding slave_proxy destroy_slave
destroy_slave-slave_proxy size res none n h = (_, _, refl, ground arith)
destroy_slave-slave_proxy size res (some fd) n h =
    (_, _, refl, ground (arith, without-new fd n.bound h))
