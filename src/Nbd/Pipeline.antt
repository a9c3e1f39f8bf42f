-- ===== src/Nbd/Pipeline.antt =====
-- The NBD device behind the engine: requests arrive and become tasks (framework/requestengine.hpp), and
-- the threads take tasks in any order, each of which runs whole.
pub mod Device
pub mod Simulation
pub mod Commuting
pub mod Samples
mod Examples
use distributed_nas.Base.{
  ℕ, zero, suc, ◌≡◌, refl, ap, ◌∙◌, ◌⊎◌, inl, inr, List, [], ◌∷◌, ◌++◌, map, Option, none, some,
  Outcome, done, waiting, fault, All,
}
use mathlib.Core.Option
use distributed_nas.Nbd.Server.{Disk, Server}
use distributed_nas.Nbd.Proxy.{Request, on_socket_ready}
use distributed_nas.Engine.{ReTask, Engine, request_cb, run_task}
use distributed_nas.Nbd.Handlers.{nbd_device, flow_factory}

pub record Pipeline (F : Type 0) : Type 0 where
  pub server : Server F
  pub engine : Engine F

-- A request is read, or some thread takes a task, by its place among those that wait.
pub data Turn : Type 0 where
  arrives : Turn
  works : ℕ → Turn

-- The element at a place, and the others.
abbrev pub pick {ℓ} : {A : Type ℓ} → ℕ → List A → Option (A × List A)
pick k [] = none
pick zero (x ∷ xs) = some (x, xs)
pick (suc k) (x ∷ xs) = Option.map (λ r. (r.0, x ∷ r.1)) (pick k xs)

-- What is picked from a mapped list.
abbrev pub map_picked {ℓ κ} :
    {A : Type ℓ} {B : Type κ} → (A → B) → Option (A × List A) → Option (B × List B)
map_picked f none = none
map_picked f (some (x, xs)) = some (f x, map f xs)

map_picked-cons {ℓ κ} :
    {A : Type ℓ} {B : Type κ} (f : A → B) (x : A) (o : Option (A × List A))
    → Option.map (λ r. (r.0, f x ∷ r.1)) (map_picked f o)
      ≡ map_picked f (Option.map (λ r. (r.0, x ∷ r.1)) o)
map_picked-cons f x none = refl
map_picked-cons f x (some (y, ys)) = refl

pub pick-map {ℓ κ} :
    {A : Type ℓ} {B : Type κ} (f : A → B) (k : ℕ) (xs : List A)
    → pick k (map f xs) ≡ map_picked f (pick k xs)
pick-map f k [] = refl
pick-map f zero (x ∷ xs) = refl
pick-map f (suc k) (x ∷ xs) = rw (pick-map f k xs) (map_picked-cons f x (pick k xs))

-- What holds of all elements holds of the one that is picked and of the others.
abbrev pub AllPicked {ℓ κ} : {A : Type ℓ} → (A → Type κ) → Option (A × List A) → Type κ
AllPicked P none = Unit
AllPicked P (some (x, xs)) = P x × All P xs

AllPicked-cons {ℓ κ} :
    {A : Type ℓ} (P : A → Type κ) (x : A) (o : Option (A × List A))
    → P x
    → AllPicked P o
    → AllPicked P (Option.map (λ r. (r.0, x ∷ r.1)) o)
AllPicked-cons P x none h a = tt
AllPicked-cons P x (some (y, ys)) h (hy, hys) = (hy, (h, hys))

pub AllPicked-pick {ℓ κ} :
    {A : Type ℓ} (P : A → Type κ) (k : ℕ) (xs : List A) → All P xs → AllPicked P (pick k xs)
AllPicked-pick P k [] h = tt
AllPicked-pick P zero (x ∷ xs) h = h
AllPicked-pick P (suc k) (x ∷ xs) (h, hs) =
    AllPicked-cons P x (pick k xs) h (AllPicked-pick P k xs hs)

pub pick-cases {ℓ} :
    {A : Type ℓ} (k : ℕ) (xs : List A)
    → (pick k xs ≡ none)
      ⊎ ((pre : List A) × (x : A) × (post : List A) × (xs ≡ pre ++ x ∷ post)
          × (pick k xs ≡ some (x, pre ++ post)))
pick-cases k [] = inl refl
pick-cases zero (x ∷ xs) = inr ([], x, xs, refl, refl)
pick-cases (suc k) (x ∷ xs) = elim (pick-cases k xs) [
  | inl e ↦ inl (rw e)
  | inr (pre, y, post, e, h) ↦ inr (x ∷ pre, y, post, ap (◌∷◌ x) e, rw h)
]

module _ {F : Type 0} where
  unfoldable pub arrive : Pipeline F → Outcome (Pipeline F)
  arrive p = elim (on_socket_ready p.server) [
    | done (req, s) ↦ done (record { server = s; engine = request_cb req nbd_device p.engine })
    | waiting ↦ waiting
    | fault ↦ fault
  ]

  pub arrive-done :
      (p : Pipeline F) (req : Request) (s : Server F)
      → on_socket_ready p.server ≡ done (req, s)
      → arrive p ≡ done (record { server = s; engine = request_cb req nbd_device p.engine })
  unfolding arrive
  arrive-done p req s e = rw (arrive, e)

  unfoldable pub run_picked :
      Option (ReTask F × List (ReTask F)) → Pipeline F → Outcome (Pipeline F)
  run_picked none p = done p
  run_picked (some (task, rest)) p = elim (run_task flow_factory task p.server) [
    | done (u, s) ↦ done (record { server = s; engine = record p.engine { m_tp = rest } })
    | waiting ↦ waiting
    | fault ↦ fault
  ]

  pub run_picked-done :
      (task : ReTask F) (rest : List (ReTask F)) (p : Pipeline F) (s : Server F)
      → run_task flow_factory task p.server ≡ done (tt, s)
      → run_picked (some (task, rest)) p
        ≡ done (record { server = s; engine = record p.engine { m_tp = rest } })
  unfolding run_picked
  run_picked-done task rest p s e = rw (run_picked, e)

  unfoldable pub turn : Turn → Pipeline F → Outcome (Pipeline F)
  unfolding arrive run_picked
  turn arrives p = arrive p
  turn (works k) p = run_picked (pick k p.engine.m_tp) p

  unfoldable pub turns : List Turn → Pipeline F → Outcome (Pipeline F)
  unfolding turn
  turns [] p = done p
  turns (t ∷ rest) p = elim (turn t p) [ done q ↦ turns rest q | waiting ↦ waiting | fault ↦ fault ]

  pub turns-done :
      (t : Turn) (rest : List Turn) (p q : Pipeline F)
      → turn t p ≡ done q
      → turns (t ∷ rest) p ≡ turns rest q
  unfolding turns
  turns-done t rest p q e = rw (e, turns)
