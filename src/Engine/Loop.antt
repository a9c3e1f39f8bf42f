-- ===== src/Engine/Loop.antt =====
-- `RequestEngine::Run`: the `select` loop over the descriptors of the map.
pub mod Laws
pub mod Rounds
use distributed_nas.Base.{ℕ, ◌+◌, Bool, true, false, ◌&&◌, List, [], ◌∷◌, ◌==◌, ltb, if◌then◌else◌}
use distributed_nas.Base.Map.{Map}

abbrev pub FdSet : Type 0
FdSet = ℕ → Bool

abbrev pub fd_zero : FdSet
fd_zero fd = false

abbrev pub fd_set : ℕ → FdSet → FdSet
fd_set fd s j = if fd == j then true else s j

-- `select` leaves in the set what was in it, lies below its first argument and is ready.
unfoldable pub select : ℕ → FdSet → FdSet → FdSet
select n ready master fd = master fd && (ltb fd n && ready fd)

module _ {ℓ} {D : Type ℓ} where
  -- The loop that fills `master` and sets `biggest_fd` to one more than each descriptor in turn.
  unfoldable pub fill : Map D → FdSet × ℕ → FdSet × ℕ
  fill [] (master, biggest) = (master, biggest)
  fill ((fd, device) ∷ m) (master, biggest) = fill m (fd_set fd master, fd + 1)

  -- The devices whose `OnSocketReady` is called, in order.
  unfoldable pub serve_ready : Map D → FdSet → List ℕ
  serve_ready [] master = []
  serve_ready ((fd, device) ∷ m) master =
      let rest = serve_ready m master in if master fd then fd ∷ rest else rest

  -- The loop, with what is ready in each round: whose turn it was in each. Nothing sets `m_is_valid`
  -- to false, and `master` is filled only once.
  unfoldable pub rounds : Map D → ℕ → FdSet → List FdSet → List (List ℕ)
  unfolding select serve_ready
  rounds m biggest master [] = []
  rounds m biggest master (ready ∷ later) =
      serve_ready m (select biggest ready master)
      ∷ rounds m biggest (select biggest ready master) later

  unfoldable pub run : Map D → List FdSet → List (List ℕ)
  unfolding fill rounds
  run m later = let p = fill m (fd_zero, 0) in rounds m p.1 p.0 later
