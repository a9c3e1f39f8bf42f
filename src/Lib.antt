-- ===== src/Lib.antt =====
-- A network-attached block device: requests of the kernel's NBD client come in on a socket, an engine
-- hands them as tasks to a pool of threads, and commands that a factory creates serve them from a
-- file. Beside these stand a scheduler, an observer, two singletons, and a loader of shared objects
-- that a directory monitor notifies.
--
-- Parts, and the code they are about:
-- - Base: shared names; lists and maps over native numbers; `Outcome`, which tells a call that returns
--   (`done`) from one that waits or loops for ever (`waiting`) and one that is undefined (`fault`).
-- - Nbd: nbdproxy.cpp, nbdproxy.hpp, memory.hpp and requesthandler.cpp. Nbd.Io has `read_all` and
--   `write_all`; Nbd.Proxy has `OnSocketReady`, `Done` and the constructor of `NBDRWReq`,
--   and in Nbd.Proxy.Replying `Done` in many threads at once, with its mutex; Nbd.Memory has
--   `MemoryFile`; Nbd.Setup has what opens and closes the device, with utils.hpp; Nbd.Handlers has the
--   three handlers and the registrations of nbd_test.cpp; Nbd.Server has the state they share; Nbd.Image
--   is a file that behaves as Nbd.Server asks.
-- - Nbd.Pipeline: the device behind the engine, from requests that arrive to tasks that threads take in
--   any order, beside the block device of Nbd.Blocks, which knows commands and bytes only.
-- - Factory: DesignPatterns/Factory/factory.hpp.
-- - Engine: framework/requestengine.hpp and bdproxy.hpp; Engine.Loop has the `select`
--   loop, Engine.Callbacks the callback that `AddResource` sets.
-- - Pool: DesignPatterns/ThreadPool/threadpool.cpp and threadpool.hpp.
-- - Queue: DesignPatterns/ThreadPool/waitablequeue/waitablequeue.hpp; Queue.Consumers has several
--   threads in one queue.
-- - Observer: DesignPatterns/observer/observer.hpp.
-- - Scheduler: schedualer/schedualer.cpp (`Timer` in Scheduler.Timer), and kamikaze/kamikaze.cpp in
--   Scheduler.Kamikaze.
-- - Singleton: DesignPatterns/Singletone/singletonesharedlibrary/singletone.hpp.
-- - Handleton: DesignPatterns/Singletone/handleton/handleton.h.
-- - Plugins: dirmonitor/dirmonitor.cpp, dlloader/dlloader.cpp and dlloader/sharedobject.cpp;
--   Plugins.Monitors has how they subscribe, and the part of the engine's constructor that makes them;
--   Plugins.Closing has the destructor of a monitor and the thread that it leaves.
-- - Proxies: masterproxy.hpp and slavekproxy.hpp, their sockets.
-- - System: the device, the engine and its pool as one state. System.Schedule has the turns of
--   Nbd.Pipeline that a run of it amounts to; System.Flow is `Flow1` of nbd_test.cpp, the main program,
--   up to the rounds of the engine's loop, with the engine's constructor.
--
-- How they meet: Nbd.Handlers.serve takes one request from `OnSocketReady` through `Factory::Create`
-- and a handler to `Done`. Nbd.Pipeline takes any number of requests there, by `RequestCB` and tasks
-- that run in any order; in System the threads of the pool are what runs them, and their order is the
-- pool's. The engine, the handlers and the device share the types of Engine. The pool takes its tasks
-- by the `extract` of Queue, and so does the scheduler, which calls `NotifyAll` of Observer.
--
-- Conventions:
-- - The results of `read` and `write` are lists, one entry for each call; a list that is at its end is
--   a call that has not returned. The kernel may cut a stream in any way.
-- - The host is little-endian. `ntohl`, `htonl` and `be64toh` are as documented, and so are the layout
--   and the numbers of <linux/nbd.h>. A type is its 32 bits as a natural number; the fields `m_size`
--   and `m_offset` are wrapped to 32-bit signed numbers.
-- - A buffer that `new char[n]` made is empty until it is filled; to write more bytes than it holds is
--   a fault. Memory is otherwise not modelled, and neither are the lines that print.
-- - The open file is a record with the documented behaviour of `lseek`, `read` and `write`. What the
--   calls of `read` on it give depends on the position at which they begin.
-- - In the pool a call of the client's is one action, and so is a turn of a thread; a thread holds the
--   pool's mutex from one action to the next only between its test in `LockCV` and its wait. Runs are
--   lists of actions in any order, with wake-ups that nobody asked for.
-- - `std::priority_queue` is a list from which the first element leaves that no other comes before. Where
--   a new element goes in the list is an argument, so it may leave before or after those that are equal to
--   it, as the library chooses; tasks of a pause or a stop are all alike and go in front. `std::map` is a
--   list in the order of its keys.
-- - An owner's function is an argument that changes the store. The fuel of `NotifyAll` and of the
--   destructor of a dispatcher counts the nodes visited: with the length of the list it is enough as
--   long as the functions leave the list alone. The fuel of the destructor of a loader counts the
--   rounds of its loop, one more than it has objects.
-- - `select` leaves those in the set that are ready; who is ready in each round is an argument.
-- - The kernel of Nbd.Setup says of each call whether it succeeds, and gives descriptors in order. In the
--   pipeline a task runs whole, in the thread that took it.
-- - In Nbd.Proxy.Replying every call of `write` is a step of its own, and succeeds. Elsewhere `Done` runs
--   whole, as its mutex makes it.
-- - In System the pool knows a task by its place in the engine's `m_tp`, to which every task is added and
--   from which none is taken; in Nbd.Pipeline `m_tp` lists the tasks that wait.
-- - Scheduler.Clock has a clock in nanoseconds. `Add` takes no time there, `Cycle` takes any, and runs
--   once the timer has expired and before the next `Add`.
-- - `Cycle` is modelled both by itself and with another thread between its `top` and its `pop`.
-- - In System.Flow the thread that watches for plugins is started; what it then does is in Plugins, by
--   itself, and what the code of a plugin does is not modelled.
-- - In Singleton a load, a lock, a construction, a store and an unlock are each a step of its own.
--
-- Not modelled: what opens and closes timers and threads, all calls of the operating system;
-- tasks whose calls interleave, but for the two of `MemoryFile::write` in Nbd.Memory.Races;
-- the copy of BUSE; `OnSocketReady` of the master and slave proxies, which names members that their
-- request does not have; `NBDTranslator`, which nothing calls; task/ and callback.cpp, which are
-- commented out; the tests.
pub mod Base
pub mod Engine
pub mod Factory
pub mod Handleton
pub mod Nbd
pub mod Observer
pub mod Plugins
pub mod Pool
pub mod Proxies
pub mod Queue
pub mod Scheduler
pub mod Singleton
pub mod System
