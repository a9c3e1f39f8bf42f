-- ===== src/Plugins/Closing.antt =====
-- The destructor of a `DirMonitor` (dirmonitor/dirmonitor.cpp), and the thread of `Monitor`, which it
-- leaves with the descriptor and the dispatcher.
use distributed_nas.Base.{
  ℕ, ◌≡◌, refl, subst, ◌∙◌, Bool, true, false, List, [], ◌∷◌, ◌++◌, Option, none, some, ◌==◌,
  ==_refl, if◌then◌else◌, Outcome, done, waiting, fault, Outcome-cases, Bool-cases, inl, inr,
  update,
}
use distributed_nas.Observer.{Store, destroy_dispatcher}
use distributed_nas.Plugins.{Name, Event, EventRead, batch, failed, closed}
use distributed_nas.Plugins.Monitors.{DirMonitor, start_monitoring}

-- Which descriptors are open and which dispatchers there are.
pub record Process : Type 0 where
  pub is_open : ℕ → Bool
  pub exists : ℕ → Bool
  pub store : Store

-- `~DirMonitor`: the watch goes with the descriptor, and the dispatcher is a member.
unfoldable pub destroy_monitor : (ℕ → Store → Store) → ℕ → DirMonitor → Process → Outcome Process
unfolding destroy_dispatcher
destroy_monitor died fuel m p = elim (destroy_dispatcher died fuel m.m_disp p.store) [
  | done t ↦ done (record {
    is_open = update p.is_open m.m_fd false;
    exists = update p.exists m.m_disp false;
    store = t;
  })
  | waiting ↦ waiting
  | fault ↦ fault
]

-- What the buffer holds after a call of `read`; `none` if the loop ends.
abbrev pub read_into : EventRead → Option Event → Option (Option Event)
read_into (batch event more) buffer = some (some event)
read_into failed buffer = some buffer
read_into closed buffer = none

-- The body of the loop: `NotifyAll` on a dispatcher that there is not is undefined.
unfoldable pub notify_body : ℕ → Process → Event → Outcome (List Name)
notify_body disp p event =
    if event.len == 0 then done [] else if p.exists disp then done (event.name ∷ []) else fault

abbrev pub and_more : Outcome (List Name) → Outcome (List Name) → Outcome (List Name)
and_more (done names) (done more) = done (names ++ more)
and_more (done names) r = r
and_more waiting r = waiting
and_more fault r = fault

-- The loop in a process that stays as it is; a call of `read` on a descriptor that is not open fails.
unfoldable pub functor_loop : ℕ → ℕ → Process → Option Event → List EventRead → Outcome (List Name)
unfolding notify_body
functor_loop fd disp p buffer [] = waiting
functor_loop fd disp p buffer (r ∷ reads) =
    elim (read_into (if p.is_open fd then r else failed) buffer) [
      | none ↦ done []
      | some none ↦ fault
      | some (some event) ↦
          and_more (notify_body disp p event) (functor_loop fd disp p (some event) reads)
    ]

-- A thread that has its last event in the buffer for good.
abbrev pub stuck_with : Option Event → List EventRead → Outcome (List Name)
stuck_with buffer [] = waiting
stuck_with none (r ∷ reads) = fault
stuck_with (some event) (r ∷ reads) = if event.len == 0 then waiting else fault

stuck_with-nameless :
    (event : Event) (reads : List EventRead)
    → (event.len == 0) ≡ true
    → stuck_with (some event) reads ≡ waiting
stuck_with-nameless event [] e = refl
stuck_with-nameless event (r ∷ reads) e = rw e refl

functor_loop-gone :
    (p : Process) (fd disp : ℕ) (buffer : Option Event) (reads : List EventRead)
    → p.is_open fd ≡ false
    → p.exists disp ≡ false
    → functor_loop fd disp p buffer reads ≡ stuck_with buffer reads
unfolding functor_loop notify_body
functor_loop-gone p fd disp buffer [] shut gone = refl
functor_loop-gone p fd disp none (r ∷ reads) shut gone = rw (shut, functor_loop) refl
functor_loop-gone p fd disp (some event) (r ∷ reads) shut gone =
    elim (Bool-cases (event.len == 0)) [
      | inl e ↦
          let rest =
            functor_loop-gone p fd disp (some event) reads shut gone
            ∙ stuck_with-nameless event reads e in
          rw (shut, functor_loop) (rw e (rw rest refl))
      | inr e ↦ rw (shut, functor_loop) (rw e (rw gone refl))
    ]

-- The destructor of a monitor does not end the thread of `Monitor`. Whatever the kernel delivers, the
-- thread never returns: it looks at a buffer that was never filled, or its last event has a name and it
-- calls `NotifyAll` on the dispatcher that is gone, or that event has none and it goes round for ever.
pub functor_loop-destroy_monitor :
    (died : ℕ → Store → Store) (fuel : ℕ) (m : DirMonitor) (p q : Process) (buffer : Option Event)
    (reads : List EventRead)
    → destroy_monitor died fuel m p ≡ done q
    → functor_loop (start_monitoring m).1.0 (start_monitoring m).1.1 q buffer reads
      ≡ stuck_with buffer reads
unfolding destroy_monitor start_monitoring
functor_loop-destroy_monitor died fuel m p q buffer reads h =
    elim (Outcome-cases (destroy_dispatcher died fuel m.m_disp p.store)) [
      | inr (inl e) ↦ absurd (let no_end : waiting ≡ done q = rw (e, destroy_monitor) at h in cc)
      | inr (inr e) ↦ absurd (let no_end : fault ≡ done q = rw (e, destroy_monitor) at h in cc)
      | inl (t, e) ↦
          let after : Process = record {
            is_open = update p.is_open m.m_fd false;
            exists = update p.exists m.m_disp false;
            store = t;
          } in
          let it : done after ≡ done q = rw (e, destroy_monitor) at h in
          let same : after ≡ q = cc in
          subst (λ x. functor_loop m.m_fd m.m_disp x buffer reads ≡ stuck_with buffer reads) same
            (functor_loop-gone after m.m_fd m.m_disp buffer reads (rw (==_refl m.m_fd) refl)
              (rw (==_refl m.m_disp) refl))
    ]
