-- ===== src/Observer/Callbacks.antt =====
-- `Callback` (DesignPatterns/observer/observer.hpp): the functions of an owner that a callback calls,
-- and its setters. An owner's function changes the store.
use distributed_nas.Base.{ℕ, ◌≡◌, ap, arith, update}
use distributed_nas.Observer.{Store, notify_all, destroy_dispatcher}

pub record Callback : Type 0 where
  pub m_owner : ℕ
  pub m_on_event : ℕ → ℕ → Store → Store
  pub m_on_subj_death : ℕ → Store → Store

unfoldable pub callback : ℕ → (ℕ → ℕ → Store → Store) → (ℕ → Store → Store) → Callback
callback owner on_event on_subj_death = record {
  m_owner = owner;
  m_on_event = on_event;
  m_on_subj_death = on_subj_death;
}

-- `Update`, which `NotifyAll` calls.
unfoldable pub update_callback : ℕ → Callback → Store → Store
update_callback event c = c.m_on_event c.m_owner event

-- `StopObserving`, which the destructor of a dispatcher calls.
unfoldable pub stop_observing : Callback → Store → Store
stop_observing c = c.m_on_subj_death c.m_owner

-- The setter `OnEvent`.
unfoldable pub set_on_event : (ℕ → ℕ → Store → Store) → Callback → Callback
set_on_event o_e_f c = record c { m_on_event = o_e_f }

-- The setter `OnSubjDeath`.
unfoldable pub set_on_subj_death : (ℕ → Store → Store) → Callback → Callback
set_on_subj_death s_d_f c = record c { m_on_subj_death = s_d_f }

-- The calls of `Update` and of `StopObserving`, by the callback's number.
abbrev pub updates : (ℕ → Callback) → ℕ → ℕ → Store → Store
updates callbacks c event = update_callback event (callbacks c)

abbrev pub deaths : (ℕ → Callback) → ℕ → Store → Store
deaths callbacks c = stop_observing (callbacks c)

-- A new function for the death of the subject changes nothing of what `NotifyAll` does.
pub notify_all-set_on_subj_death :
    (callbacks : ℕ → Callback) (c : ℕ) (g : ℕ → Store → Store) (fuel d event : ℕ) (s : Store)
    → notify_all (updates (update callbacks c (set_on_subj_death g (callbacks c)))) fuel d event s
      ≡ notify_all (updates callbacks) fuel d event s
unfolding update_callback set_on_subj_death
notify_all-set_on_subj_death callbacks c g fuel d event s =
    ap (λ h. notify_all h fuel d event s) (λ i b e t. same b e t i)
  where
    same :
        (b e : ℕ) (t : Store)
        → updates (update callbacks c (set_on_subj_death g (callbacks c))) b e t
          ≡ updates callbacks b e t
    same b e t = ground arith

-- A new function for events changes nothing of what the destructor of a dispatcher does.
pub destroy_dispatcher-set_on_event :
    (callbacks : ℕ → Callback) (c : ℕ) (f : ℕ → ℕ → Store → Store) (fuel d : ℕ) (s : Store)
    → destroy_dispatcher (deaths (update callbacks c (set_on_event f (callbacks c)))) fuel d s
      ≡ destroy_dispatcher (deaths callbacks) fuel d s
unfolding stop_observing set_on_event
destroy_dispatcher-set_on_event callbacks c f fuel d s =
    ap (λ h. destroy_dispatcher h fuel d s) (λ i b t. same b t i)
  where
    same :
        (b : ℕ) (t : Store)
        → deaths (update callbacks c (set_on_event f (callbacks c))) b t ≡ deaths callbacks b t
    same b t = ground arith
