-- ===== src/Nbd/Handlers.antt =====
-- requesthandler.cpp, and the creation functions and the set-up of nbd_test.cpp and
-- pnpcommands/read.cpp: the commands of the NBD device.
pub mod Tasks
pub mod Serving
pub mod Rereading
use distributed_nas.Base.{ℕ, ◌≡◌, []}
use distributed_nas.Nbd.Server.{Disk, M, ◌>>=◌, ◌>>◌, pure}
use distributed_nas.Nbd.Proxy.{
  Request, on_socket_ready, proxy_done, nbd_cmd_read, nbd_cmd_write, nbd_cmd_disc,
}
use distributed_nas.Nbd.Memory.{memory_read, memory_write}
use distributed_nas.Engine.{
  Device, Memory, CommandArgs, Command, ReqFactory, ReTask, Engine, engine, add_to_factory,
  run_task,
}

module _ {F : Type 0} where
  unfoldable pub read_handler : CommandArgs F → Command F
  read_handler par rh = do filled ← par.m_mem.mem_read rh; par.m_device.finish filled

  unfoldable pub write_handler : CommandArgs F → Command F
  write_handler par rh = do par.m_mem.mem_write rh; par.m_device.finish rh

  -- It only prints.
  unfoldable pub disc_handler : CommandArgs F → Command F
  disc_handler par rh = pure tt

  -- The registrations of `Flow1`, in its order.
  unfoldable pub flow_factory : ReqFactory F
  unfolding add_to_factory
  flow_factory =
      (add_to_factory nbd_cmd_read read_handler
        (add_to_factory nbd_cmd_disc disc_handler
          (add_to_factory nbd_cmd_write write_handler []).1).1).1

  abbrev pub nbd_device : Device F
  nbd_device = record { on_ready = on_socket_ready; finish = proxy_done }

unfoldable pub file_memory : (disk : Disk) → Memory disk.File
file_memory disk = record { mem_read = memory_read disk; mem_write = memory_write disk }

-- One request from the socket to the reply: the device reads it, and one task serves it.
unfoldable pub serve : (disk : Disk) → M disk.File (Unit {0})
unfolding file_memory
serve disk = do
  req ← on_socket_ready
  run_task flow_factory (record { m_request = req; m_dev = nbd_device; m_mem = file_memory disk })
