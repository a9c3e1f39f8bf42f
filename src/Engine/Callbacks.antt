-- ===== src/Engine/Callbacks.antt =====
-- The callback of a device (bdproxy.hpp), which `AddResource` of an engine sets, where several engines
-- and devices exist.
use distributed_nas.Base.{
  ℕ, ◌≡◌, ◌≢◌, true, Option, none, some, [], ◌∷◌, ◌++◌, Outcome, done, fault, update, arith,
}
use distributed_nas.Base.Map.{find, is_new, IsSorted, find-insert}
use distributed_nas.Nbd.Proxy.{Request}
use distributed_nas.Engine.{Device, Engine, add_resource, request_cb}

-- `m_cb` is `RequestCB` bound to an engine, by the engine's number.
pub record BdProxy : Type 0 where
  pub m_cb : Option ℕ
  pub m_size : ℕ

unfoldable pub bd_proxy : ℕ → BdProxy
bd_proxy size = record { m_cb = none; m_size = size }

unfoldable pub set_call_back : ℕ → BdProxy → BdProxy
set_call_back cb p = record p { m_cb = some cb }

pub record Engines (F : Type 0) : Type 0 where
  pub engines : ℕ → Engine F
  pub proxies : ℕ → BdProxy

module _ {F : Type 0} where
  -- `AddResource` of engine `e`, for the device with number `d`, all of it.
  unfoldable pub add_device : ℕ → ℕ → ℕ → Device F → Engines F → Engines F
  unfolding set_call_back add_resource
  add_device e fd d device w = record w {
    engines = update w.engines e (add_resource fd device (w.engines e)).1;
    proxies = update w.proxies d (set_call_back e (w.proxies d));
  }

  -- `m_cb(req, *this)` in a device: a `boost::function` that was not set throws.
  unfoldable pub call_back : ℕ → Device F → Request → Engines F → Outcome (Engines F)
  unfolding request_cb
  call_back d device req w = elim (w.proxies d).m_cb [
    | none ↦ fault
    | some e ↦
        done (record w { engines = update w.engines e (request_cb req device (w.engines e)) })
  ]

  -- A device that was added to two engines hands its requests to the one to which it was added last,
  -- as the last of that engine's tasks, with that engine's memory; the other engine has the device in
  -- its map as well and gets no task.
  pub call_back-add_device :
      (a b fd fd' d : ℕ) (device : Device F) (req : Request) (w : Engines F)
      → a ≢ b
      → IsSorted (w.engines a).m_map
      → is_new fd (w.engines a).m_map ≡ true
      → (w' : Engines F) × (call_back d device req
            (add_device b fd' d device (add_device a fd d device w))
          ≡ done w')
        × ((w'.engines b).m_tp
            ≡ (w.engines b).m_tp
              ++ record { m_request = req; m_dev = device; m_mem = (w.engines b).m_mem } ∷ [])
        × ((w'.engines a).m_tp ≡ (w.engines a).m_tp)
        × (find fd (w'.engines a).m_map ≡ some device)
  unfolding call_back add_device set_call_back add_resource request_cb
  call_back-add_device a b fd fd' d device req w apart sorted new = (
    record two { engines = update two.engines b (request_cb req device (two.engines b)) },
    ground arith,
    ground arith,
    ground arith,
    ground (arith, find-insert fd fd device (w.engines a).m_map sorted),
  )
    where
      two : Engines F
      two = add_device b fd' d device (add_device a fd d device w)
