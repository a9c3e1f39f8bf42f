-- ===== src/Scheduler/Kamikaze.antt =====
-- kamikaze/kamikaze.cpp: an object that runs a function once, by the scheduler, and deletes itself.
use distributed_nas.Base.{ℕ, zero, suc, true, ◌≡◌, ◌<◌, false, [], ◌∷◌, ℤ, Outcome, fault, arith}
use distributed_nas.Observer.{Store, attach, detach, notify_all}
use distributed_nas.Observer.Notify.{destroy_self, notify_all-destroy_self}
use distributed_nas.Queue.{extract, enqueue}
use distributed_nas.Scheduler.Timer.{TimeSpec}
use distributed_nas.Scheduler.{Entry, comper_func, later_by, Schedualer, add, cycle}

-- The constructor: `m_cb` is registered with the scheduler. The callback's number is the object's.
unfoldable pub kamikaze : ℕ → ℕ → ℤ → ℕ → TimeSpec → TimeSpec → Schedualer → Schedualer
unfolding add
kamikaze place m_cb ms now first_left second_left s = add place m_cb ms now first_left second_left s

-- `OnEvent`: `m_func`, which leaves the observers alone, and `delete this`, which destroys `m_cb`.
unfoldable pub on_event : ℕ → ℕ → Store → Store
unfolding destroy_self
on_event m_cb event t = destroy_self m_cb event t

notify_all-new :
    (m_cb : ℕ) (s : Schedualer) (fuel : ℕ)
    → s.store.m_subscribers s.next_dispatcher ≡ []
    → notify_all on_event (suc fuel) s.next_dispatcher 0 (attach s.next_dispatcher m_cb s.store)
      ≡ fault
unfolding on_event
notify_all-new m_cb s fuel fresh =
    notify_all-destroy_self (attach s.next_dispatcher m_cb s.store) s.next_dispatcher 0 fuel
      (record { key = s.store.next_key; cb = m_cb }) [] (unfold attach in rw fresh (ground arith))
      (unfold attach in (omega arith, tt)) (unfold attach in ground arith)

-- A kamikaze that is added to a scheduler, and is due before the one entry that it has, ends, wherever
-- the queue keeps it, the round of `Cycle` that serves it in undefined behaviour, whatever the fuel: it
-- deletes the callback under the iterator of `NotifyAll`. The scheduler's next dispatcher has no
-- subscribers yet.
pub cycle-kamikaze :
    (died : ℕ → Store → Store) (place m_cb now later fuel : ℕ) (ms : ℤ)
    (first_left second_left : TimeSpec) (s : Schedualer) (e : Entry)
    → s.m_pq ≡ e ∷ []
    → later_by ms now < e.time_point
    → s.store.m_subscribers s.next_dispatcher ≡ []
    → cycle on_event died (suc fuel) later (kamikaze place m_cb ms now first_left second_left s)
      ≡ fault
unfolding cycle kamikaze add enqueue extract on_event comper_func
cycle-kamikaze died zero m_cb now later fuel ms first_left second_left s e q h fresh =
    let sooner : comper_func
          (record { dispatcher = s.next_dispatcher; time_point = later_by ms now }) e
        ≡ false =
      ground arith in
    rw (q, cycle, sooner, notify_all-new m_cb s fuel fresh)
cycle-kamikaze died (suc zero) m_cb now later fuel ms first_left second_left s e q h fresh =
    let sooner : comper_func e
          (record { dispatcher = s.next_dispatcher; time_point = later_by ms now })
        ≡ true =
      ground arith in
    rw (q, cycle, sooner, notify_all-new m_cb s fuel fresh)
cycle-kamikaze died (suc (suc i)) m_cb now later fuel ms first_left second_left s e q h fresh =
    let sooner : comper_func e
          (record { dispatcher = s.next_dispatcher; time_point = later_by ms now })
        ≡ true =
      ground arith in
    rw (q, cycle, sooner, notify_all-new m_cb s fuel fresh)

-- `KamikazeDispatcher`, by its dispatcher.
pub record KamikazeDispatcher : Type 0 where
  pub m_kamikaze_dis : ℕ

unfoldable pub subscribe : ℕ → KamikazeDispatcher → Store → Store
unfolding attach
subscribe observer k s = attach k.m_kamikaze_dis observer s

unfoldable pub un_subscribe : ℕ → KamikazeDispatcher → Store → Store
unfolding detach
un_subscribe observer k s = detach k.m_kamikaze_dis observer s

unfoldable pub notify : (ℕ → ℕ → Store → Store) → ℕ → ℕ → KamikazeDispatcher → Store → Outcome Store
unfolding notify_all
notify update fuel event k s = notify_all update fuel k.m_kamikaze_dis event s

-- The constructor, with the dispatcher that is its member.
unfoldable pub kamikaze_dispatcher : ℕ → ℕ → Store → KamikazeDispatcher × Store
unfolding subscribe
kamikaze_dispatcher dis cb s =
    (record { m_kamikaze_dis = dis }, subscribe cb (record { m_kamikaze_dis = dis }) s)

-- A callback that the constructor subscribed and that deletes itself when it is called, which a
-- kamikaze's does, ends `Notify` in undefined behaviour.
pub notify-kamikaze_dispatcher :
    (dis cb event fuel : ℕ) (s : Store)
    → s.m_subscribers dis ≡ []
    → notify on_event
        (suc fuel)
        event
        (kamikaze_dispatcher dis cb s).0
        (kamikaze_dispatcher dis cb s).1
      ≡ fault
unfolding notify kamikaze_dispatcher subscribe on_event
notify-kamikaze_dispatcher dis cb event fuel s fresh =
    notify_all-destroy_self (attach dis cb s) dis event fuel (record { key = s.next_key; cb = cb })
      [] (unfold attach in rw fresh (ground arith)) (unfold attach in (omega arith, tt))
      (unfold attach in ground arith)

-- What the constructor subscribed `UnSubscribe` takes out again.
pub un_subscribe-kamikaze_dispatcher :
    (dis cb : ℕ) (s : Store)
    → s.m_subscribers dis ≡ []
    → (un_subscribe cb
          (kamikaze_dispatcher dis cb s).0
          (kamikaze_dispatcher dis cb s).1).m_subscribers
        dis
      ≡ []
unfolding un_subscribe kamikaze_dispatcher subscribe attach detach
un_subscribe-kamikaze_dispatcher dis cb s fresh = ground (arith, fresh)
