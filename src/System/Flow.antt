-- ===== src/System/Flow.antt =====
-- nbd_test.cpp: `Flow1`, the program that opens the file, makes the device and the engine with its
-- directory of plugins, and runs the engine's loop. The monitor's thread, and what the libraries that
-- it loads do, is beside the loop and the pool.
use distributed_nas.Base.{
  ℕ, ◌+◌, ◌-◌, ◌^◌, ◌≡◌, refl, ap, ap₂, ◌∙◌, Bool, true, not, List, [], ◌∷◌, arith, some, Outcome,
  done, and_then, if◌then◌else◌,
}
use distributed_nas.Observer.{Store, contains}
use distributed_nas.Plugins.{Name}
use distributed_nas.Plugins.Monitors.{DirMonitor, Watch, watch, watch-made}
use distributed_nas.Nbd.Server.{Server}
use distributed_nas.Nbd.Setup.{
  OsCall, open_file_call, truncate_call, inotify_init_call, inotify_add_watch_call, Os, OsM,
  bad_file, bad_truncate, ◌>>=◌, ◌>>◌, >>=-returned, pure, sys, sys_open, returned, throw_if_bad,
  NbdProxy, nbd_proxy, get_fd,
}
use distributed_nas.Nbd.Setup.Laws.{made_proxy, set_up, nbd_proxy-returned, setup_calls}
use distributed_nas.Nbd.Handlers.{nbd_device}
use distributed_nas.Engine.{Memory, Engine, engine, add_resource}
use distributed_nas.Engine.Loop.{FdSet, run}
use distributed_nas.Engine.Loop.Rounds.{everyone, ready_so_far, run-ready_so_far}
use distributed_nas.System.{System, system}

-- 128 MB
abbrev pub disk_size : ℕ
disk_size = 2 ^ 27

-- "/home/bob45/svn/Proj/src/project/pnpcommands"
abbrev pub plugin_rest : Name
plugin_rest =
    104 ∷ 111 ∷ 109 ∷ 101 ∷ 47 ∷ 98 ∷ 111 ∷ 98 ∷ 52 ∷ 53 ∷ 47 ∷ 115 ∷ 118 ∷ 110 ∷ 47 ∷ 80 ∷ 114
    ∷ 111 ∷ 106 ∷ 47 ∷ 115 ∷ 114 ∷ 99 ∷ 47 ∷ 112 ∷ 114 ∷ 111 ∷ 106 ∷ 101 ∷ 99 ∷ 116 ∷ 47 ∷ 112 ∷ 110
    ∷ 112 ∷ 99 ∷ 111 ∷ 109 ∷ 109 ∷ 97 ∷ 110 ∷ 100 ∷ 115 ∷ []

abbrev pub plugin_path : Name
plugin_path = 47 ∷ plugin_rest

-- The file, of `disk_size` bytes.
unfoldable pub open_file : OsM ℕ
unfolding throw_if_bad
open_file = do
  file ← sys_open open_file_call
  throw_if_bad (not file.0) bad_file
  truncated ← sys (truncate_call file.1 disk_size)
  throw_if_bad (not truncated) bad_truncate
  pure file.1

-- Where the constructors put the monitor, its dispatcher and the loader's callback, what a call of
-- `inotify_add_watch` that succeeds gives, and the monitors and callbacks that there are before.
pub record Surroundings : Type 0 where
  pub monitor_at : ℕ
  pub dispatcher_at : ℕ
  pub callback_at : ℕ
  pub wd : ℕ
  pub heap : ℕ → DirMonitor
  pub store : Store

-- The result of a call: -1 is kept on 32 bits.
abbrev pub or_minus_one : Bool → ℕ → ℕ
or_minus_one succeeded n = if succeeded then n else 2 ^ 32 - 1

-- The body of the engine's constructor, with the constructors of the monitor and the loader: neither
-- result of the calls of inotify is tested.
unfoldable pub watch_plugins : Name → Surroundings → OsM (Outcome Watch)
unfolding watch
watch_plugins [] a =
    pure (watch [] a.monitor_at a.dispatcher_at a.callback_at 0 a.wd a.heap a.store)
watch_plugins (c ∷ cs) a = do
  opened ← sys_open inotify_init_call
  watched ← sys (inotify_add_watch_call (or_minus_one opened.0 opened.1) (c ∷ cs))
  pure (
      watch (c ∷ cs) a.monitor_at a.dispatcher_at a.callback_at (or_minus_one opened.0 opened.1)
        (or_minus_one watched a.wd) a.heap a.store)

module _ {F : Type 0} where
  -- What `Flow1` has when it comes to `Run`.
  abbrev at_run :
      (ℕ → Memory F)
      → (ℕ → ℕ → Server F)
      → ℕ
      → NbdProxy
      → Watch
      → Outcome (NbdProxy × Watch × System F)
  at_run memory server file_fd nbd_inst w = done (
    nbd_inst,
    w,
    system 6 (server file_fd (get_fd nbd_inst))
        (add_resource (get_fd nbd_inst) nbd_device (engine (memory file_fd))).1,
  )

  -- `Flow1` up to its call of `Run`: the device, and the engine with six threads. `memory` is that of
  -- an open file; `server` is what the file and the socket behind two descriptors hold.
  unfoldable pub flow1 :
      (ℕ → Memory F)
      → (ℕ → ℕ → Server F)
      → Surroundings
      → OsM (Outcome (NbdProxy × Watch × System F))
  unfolding open_file nbd_proxy watch_plugins engine add_resource get_fd system
  flow1 memory server a = do
    file_fd ← open_file
    nbd_inst ← nbd_proxy disk_size
    watched ← watch_plugins plugin_path a
    pure (and_then watched (at_run memory server file_fd nbd_inst))

  module _ (memory : ℕ → Memory F) (server : ℕ → ℕ → Server F) (a : Surroundings) (s : Os)
      (all : (c : OsCall) → s.succeeds c ≡ true) where
    -- The state in which the device is made.
    abbrev with_file : Os
    with_file = record s {
      calls = truncate_call s.next_fd disk_size ∷ open_file_call ∷ s.calls;
      open_fds = s.next_fd ∷ s.open_fds;
      next_fd = s.next_fd + 1;
    }

    -- And after it.
    abbrev with_device : Os
    with_device = set_up disk_size with_file all

    abbrev with_watch : Os
    with_watch = record with_device {
      calls =
          inotify_add_watch_call with_device.next_fd plugin_path
          ∷ inotify_init_call
          ∷ with_device.calls;
      open_fds = with_device.next_fd ∷ with_device.open_fds;
      next_fd = with_device.next_fd + 1;
    }

    open_file-returned : open_file s ≡ (returned s.next_fd, with_file)
    unfolding open_file throw_if_bad
    open_file-returned = ground (arith, all open_file_call, all (truncate_call s.next_fd disk_size))

    abbrev watched : Outcome Watch
    watched =
        watch plugin_path a.monitor_at a.dispatcher_at a.callback_at with_device.next_fd a.wd a.heap
          a.store

    watch_plugins-returned :
        watch_plugins plugin_path a with_device ≡ (returned watched, with_watch)
    unfolding watch_plugins
    watch_plugins-returned =
        rw (all inotify_init_call, all (inotify_add_watch_call with_device.next_fd plugin_path))
          refl

    flow1-returned :
        (w : Watch)
        → watched ≡ done w
        → flow1 memory server a s ≡ (
          returned (at_run memory server s.next_fd (made_proxy disk_size with_file all) w),
          with_watch,
        )
    unfolding flow1
    flow1-returned w e =
        >>=-returned open_file
          (λ fd. nbd_proxy disk_size >>= λ p.
            watch_plugins plugin_path a >>= λ o. pure (and_then o (at_run memory server fd p)))
          s open_file-returned
        ∙ >>=-returned (nbd_proxy disk_size)
            (λ p. watch_plugins plugin_path a >>= λ o.
              pure (and_then o (at_run memory server s.next_fd p)))
            with_file (nbd_proxy-returned disk_size with_file all)
        ∙ >>=-returned (watch_plugins plugin_path a)
            (λ o.
              pure
                (and_then o (at_run memory server s.next_fd (made_proxy disk_size with_file all))))
            with_device watch_plugins-returned
        ∙ ap
            (λ o. (
              returned (
                  and_then o (at_run memory server s.next_fd (made_proxy disk_size with_file all))),
              with_watch,
            ))
            e

    -- Where every call succeeds, `Flow1` opens the file before the device, gives both the same size,
    -- then watches its directory of plugins through one more descriptor, keeps the five descriptors
    -- open, and comes to `Run` with six threads and no task; a loader is subscribed to the monitor of
    -- that directory, whose thread has been started. Whatever is ready in which round, `Run` then
    -- serves the descriptor that `GetFd` names in each round in which it is ready and was ready before,
    -- and no other.
    pub flow1-runs :
        (readies : List FdSet)
        → (p : NbdProxy) × (w : Watch) × (e : Engine F) × (s' : Os) × (flow1 memory server a s
            ≡ (returned (done (p, w, system 6 (server s.next_fd (get_fd p)) e)), s'))
          × (s'.calls
              ≡ inotify_add_watch_call (s.next_fd + 4) plugin_path
                ∷ inotify_init_call
                ∷ setup_calls
                    (s.next_fd + 1)
                    disk_size
                    (truncate_call s.next_fd disk_size ∷ open_file_call ∷ s.calls))
          × (s'.open_fds
              ≡ (s.next_fd + 4)
                ∷ (s.next_fd + 3)
                ∷ (s.next_fd + 1)
                ∷ (s.next_fd + 2)
                ∷ s.next_fd
                ∷ s.open_fds)
          × (get_fd p ≡ s.next_fd + 1)
          × (w.m_dm ≡ some a.monitor_at)
          × (w.heap a.monitor_at ≡ record {
            m_disp = a.dispatcher_at;
            m_path = plugin_path;
            m_monitoring = some true;
            m_fd = s.next_fd + 4;
            m_wd = a.wd;
          })
          × (contains a.callback_at (w.store.m_subscribers a.dispatcher_at) ≡ true)
          × (e.m_tp ≡ [])
          × (run e.m_map readies
              ≡ ready_so_far ((s.next_fd + 1, nbd_device {F = F}) ∷ []) everyone readies)
    unfolding get_fd add_resource engine
    flow1-runs readies =
        let fourth : with_device.next_fd ≡ s.next_fd + 4 = omega arith in
        let (w, made, pointed, placed, subscribed) =
          watch-made 47 plugin_rest a.monitor_at a.dispatcher_at a.callback_at with_device.next_fd
            a.wd a.heap a.store in
        (
          _,
          w,
          _,
          _,
          flow1-returned w made,
          ap (λ n. inotify_add_watch_call n plugin_path ∷ inotify_init_call ∷ with_device.calls)
              fourth,
          ap₂ ◌∷◌ fourth (
              ap₂ (λ a b. a ∷ (s.next_fd + 1) ∷ b ∷ s.next_fd ∷ s.open_fds) (omega arith)
                (omega arith)),
          refl,
          pointed,
          placed
              ∙ ap
                  (λ n. record {
                    m_disp = a.dispatcher_at;
                    m_path = plugin_path;
                    m_monitoring = some true;
                    m_fd = n;
                    m_wd = a.wd;
                  })
                  fourth,
          subscribed,
          refl,
          run-ready_so_far ((s.next_fd + 1, nbd_device) ∷ []) readies tt,
        )
