-- ===== src/Plugins/Monitors.antt =====
-- The objects of dirmonitor/dirmonitor.cpp and dlloader/dlloader.cpp, beside what their threads do: how a
-- loader subscribes to a monitor. What the calls of inotify return enters as arguments, and the store
-- of Observer has the dispatcher of a monitor and the callback of a loader.
use distributed_nas.Base.{
  ℕ, ◌≡◌, ◌≢◌, refl, Bool, true, false, List, [], ◌∷◌, ◌++◌, Option, none, some, if◌then◌else◌,
  arith, Outcome, done, waiting, fault, update,
}
use distributed_nas.Observer.{Store, attach, detach, contains}
use distributed_nas.Observer.Links.{IsLinked, contains-occurs}
use distributed_nas.Plugins.{Name, shared_object, load}

-- `m_monitoring` is not initialised at first.
pub record DirMonitor : Type 0 where
  pub m_disp : ℕ
  pub m_path : Name
  pub m_monitoring : Option Bool
  pub m_fd : ℕ
  pub m_wd : ℕ

-- The constructor, with the dispatcher that is its member.
unfoldable pub dir_monitor : ℕ → Name → ℕ → ℕ → DirMonitor
dir_monitor disp path fd wd = record {
  m_disp = disp;
  m_path = path;
  m_monitoring = none;
  m_fd = fd;
  m_wd = wd;
}

unfoldable pub get_path : DirMonitor → Name
get_path m = m.m_path

unfoldable pub subscribe : ℕ → DirMonitor → Store → Store
unfolding attach
subscribe cb_dir m s = attach m.m_disp cb_dir s

unfoldable pub unsubscribe : ℕ → DirMonitor → Store → Store
unfolding detach
unsubscribe cb_dir m s = detach m.m_disp cb_dir s

-- `Monitor`: the monitor, and the descriptor and the dispatcher that its thread gets.
unfoldable pub start_monitoring : DirMonitor → DirMonitor × (ℕ × ℕ)
start_monitoring m = (record m { m_monitoring = some true }, (m.m_fd, m.m_disp))

unfoldable pub stop_monitoring : DirMonitor → DirMonitor
stop_monitoring m = record m { m_monitoring = some false }

-- `m_dm` is a pointer: a number, for which `heap` has the monitor.
pub record DlLoader : Type 0 where
  pub m_so : List (Option ℕ)
  pub m_dm : Option ℕ
  pub m_cb : ℕ

-- The constructor subscribes the callback. The default argument is the null pointer, which it follows.
unfoldable pub dl_loader : (ℕ → DirMonitor) → Option ℕ → ℕ → Store → Outcome (DlLoader × Store)
unfolding subscribe
dl_loader heap none cb s = fault
dl_loader heap (some m) cb s =
    done (record { m_so = []; m_dm = some m; m_cb = cb }, subscribe cb (heap m) s)

unfoldable pub set_monitor : Option ℕ → DlLoader → DlLoader
set_monitor m l = record l { m_dm = m }

-- `Load` with the path of the monitor at `m_dm`.
unfoldable pub load_event : (Name → ℕ) → (ℕ → DirMonitor) → Name → DlLoader → Outcome DlLoader
unfolding load get_path
load_event dlopen heap event l = elim l.m_dm [
  | none ↦ fault
  | some m ↦ done (record l { m_so = load dlopen (get_path (heap m)) event l.m_so })
]

-- What `NotifyAll` of a monitor's dispatcher does to one loader, which it calls if it has subscribed.
unfoldable pub notify_loader :
    (Name → ℕ) → (ℕ → DirMonitor) → Name → ℕ → Store → DlLoader → Outcome DlLoader
unfolding load_event
notify_loader dlopen heap event m s l =
    if contains l.m_cb (s.m_subscribers (heap m).m_disp)
    then load_event dlopen heap event l
    else done l

-- `GetSymbol`, with what `dlsym` gives: a handle that was never set must not be used.
unfoldable pub get_symbol : (ℕ → Name → ℕ) → Option ℕ → Name → Outcome ℕ
get_symbol dlsym none path = fault
get_symbol dlsym (some m_handle) path = done (dlsym m_handle path)

-- The engine's members `m_dm` and `m_dll`, and the monitors, after its constructor: `new` is where
-- `new DirMonitor` puts the monitor. Nothing is made for an empty path.
pub record Watch : Type 0 where
  pub m_dm : Option ℕ
  pub m_dll : Option DlLoader
  pub heap : ℕ → DirMonitor
  pub store : Store

unfoldable pub watch : Name → (new disp cb fd wd : ℕ) → (ℕ → DirMonitor) → Store → Outcome Watch
unfolding dir_monitor dl_loader start_monitoring
watch [] new disp cb fd wd heap s =
    done (record { m_dm = none; m_dll = none; heap = heap; store = s })
watch (c ∷ cs) new disp cb fd wd heap s =
    let made = update heap new (dir_monitor disp (c ∷ cs) fd wd) in
    elim (dl_loader made (some new) cb s) [
      | done (l, t) ↦ done (record {
        m_dm = some new;
        m_dll = some l;
        heap = update made new (start_monitoring (made new)).0;
        store = t;
      })
      | waiting ↦ waiting
      | fault ↦ fault
    ]

not_contained :
    (s : Store) (c d : ℕ)
    → IsLinked s
    → s.m_dispatcher c ≡ none
    → contains c (s.m_subscribers d) ≡ false
not_contained s c d l free = ground (arith, l.linked c d, contains-occurs c (s.m_subscribers d))

-- An engine with a path has a monitor of it, on the descriptor that inotify gave, whose thread has been
-- started and to which its loader is subscribed.
pub watch-made :
    (c : ℕ) (cs : Name) (new disp cb fd wd : ℕ) (heap : ℕ → DirMonitor) (s : Store)
    → (w : Watch) × (watch (c ∷ cs) new disp cb fd wd heap s ≡ done w)
      × (w.m_dm ≡ some new)
      × (w.heap new ≡ record {
        m_disp = disp;
        m_path = c ∷ cs;
        m_monitoring = some true;
        m_fd = fd;
        m_wd = wd;
      })
      × (contains cb (w.store.m_subscribers disp) ≡ true)
unfolding watch dl_loader subscribe attach dir_monitor start_monitoring
watch-made c cs new disp cb fd wd heap s = (_, refl, refl, ground arith, ground arith)

-- An engine with a path loads each file of which its monitor is then notified, from that path.
pub watch-notify_loader :
    (dlopen : Name → ℕ) (c : ℕ) (cs : Name) (new disp cb fd wd : ℕ) (heap : ℕ → DirMonitor)
    (s : Store) (event : Name)
    → (w : Watch) × (l : DlLoader) × (watch (c ∷ cs) new disp cb fd wd heap s ≡ done w)
      × (w.m_dll ≡ some l)
      × (notify_loader dlopen w.heap event new w.store l
          ≡ done (record l { m_so = shared_object dlopen (c ∷ cs ++ 47 ∷ event) ∷ [] }))
unfolding watch dl_loader notify_loader load_event load get_path subscribe attach dir_monitor
    start_monitoring
watch-notify_loader dlopen c cs new disp cb fd wd heap s event = (_, _, refl, refl, ground arith)

-- A loader that was made for one monitor and is then given another by `SetMonitor` stays subscribed to
-- the first and only to it: it answers a file that arrives in the first directory by opening the file
-- of that name in the second, and is not notified of one that arrives in the second. Its callback was
-- in no list before.
pub notify_loader-set_monitor :
    (dlopen : Name → ℕ) (heap : ℕ → DirMonitor) (a b cb : ℕ) (s : Store) (event : Name)
    → IsLinked s
    → s.m_dispatcher cb ≡ none
    → (heap a).m_disp ≢ (heap b).m_disp
    → (l : DlLoader) × (t : Store) × (dl_loader heap (some a) cb s ≡ done (l, t))
      × (notify_loader dlopen heap event a t (set_monitor (some b) l)
          ≡ done (record l {
            m_dm = some b;
            m_so = shared_object dlopen ((heap b).m_path ++ 47 ∷ event) ∷ [];
          }))
      × (notify_loader dlopen heap event b t (set_monitor (some b) l)
          ≡ done (set_monitor (some b) l))
unfolding dl_loader set_monitor notify_loader load_event load get_path subscribe attach
notify_loader-set_monitor dlopen heap a b cb s event linked free apart =
    let other : contains cb (s.m_subscribers (heap b).m_disp) ≡ false =
      not_contained s cb (heap b).m_disp linked free in
    (
      record { m_so = []; m_dm = some a; m_cb = cb },
      attach (heap a).m_disp cb s,
      refl,
      ground arith,
      ground (arith, other),
    )
