-- ===== src/Engine.antt =====
-- framework/requestengine.hpp: requests that devices read become tasks, and a task runs the command
-- that the factory creates for the request's type.
mod Examples
pub mod Loop
pub mod Callbacks
use distributed_nas.Base.{
  ℕ, ◌≡◌, Bool, true, List, [], ◌∷◌, ◌++◌, Option, none, some, if◌then◌else◌, ◌==◌,
}
use distributed_nas.Base.Map.{Map, insert, find}
use distributed_nas.Factory.{Factory, add, create}
use distributed_nas.Nbd.Server.{M, ◌>>=◌, crash}
use distributed_nas.Nbd.Proxy.{Request, type_of}

-- What the engine asks of a device and of a memory. A read hands back the request with its buffer
-- filled.
pub record Device (F : Type 0) : Type 0 where
  pub on_ready : M F Request
  pub finish : Request → M F (Unit {0})

pub record Memory (F : Type 0) : Type 0 where
  pub mem_read : Request → M F Request
  pub mem_write : Request → M F (Unit {0})

pub record CommandArgs (F : Type 0) : Type 0 where
  pub m_device : Device F
  pub m_mem : Memory F

abbrev pub Command : Type 0 → Type 0
Command F = Request → M F (Unit {0})

abbrev pub ReqFactory : Type 0 → Type 0
ReqFactory F = Factory (Command F) (CommandArgs F)

pub record ReTask (F : Type 0) : Type 0 where
  pub m_request : Request
  pub m_dev : Device F
  pub m_mem : Memory F

-- `m_tp` lists the tasks handed to the thread pool, the last one at the end.
pub record Engine (F : Type 0) : Type 0 where
  pub m_mem : Memory F
  pub m_map : Map (Device F)
  pub m_is_valid : Bool
  pub m_tp : List (ReTask F)

module _ {F : Type 0} where
  unfoldable pub engine : Memory F → Engine F
  engine mem = record { m_mem = mem; m_map = []; m_is_valid = true; m_tp = [] }

  unfoldable pub add_to_factory :
      ℕ → (CommandArgs F → Command F) → ReqFactory F → Bool × ReqFactory F
  add_to_factory key handler_func = add key handler_func

  -- The device's callback becomes `request_cb` of this engine. An old descriptor keeps its device.
  unfoldable pub add_resource : ℕ → Device F → Engine F → Bool × Engine F
  add_resource fd device e = (true, record e { m_map = insert fd device e.m_map })

  unfoldable pub request_cb : Request → Device F → Engine F → Engine F
  request_cb req device e = record e {
    m_tp = e.m_tp ++ record { m_request = req; m_dev = device; m_mem = e.m_mem } ∷ [];
  }

  -- `RETask::operator()`. A type that the factory does not know makes it use `end()`.
  unfoldable pub run_task : ReqFactory F → ReTask F → M F (Unit {0})
  run_task factory t s =
      elim (create (type_of t.m_request) (record { m_device = t.m_dev; m_mem = t.m_mem }) factory) [
        | none ↦ crash s
        | some rh ↦ rh t.m_request s
      ]
