-- ===== src/Nbd/Memory.antt =====
-- `MemoryFile` (nbdproxy.cpp, memory.hpp): reads and writes of the backing file.
pub mod Laws
pub mod Races
use distributed_nas.Base.{ℕ, ◌≡◌, List, length, to_size, ◌==◌, if◌then◌else◌}
use distributed_nas.Nbd.Io.{Outcome, done, waiting, fault, read_all, write_all}
use distributed_nas.Nbd.Server.{Disk, Server, M, ◌>>=◌, ◌>>◌, pure, crash}
use distributed_nas.Nbd.Proxy.{RwReq, Request, plain, rw_req}

module _ (disk : Disk) where
  open disk use {File, position, seek, moved, sink}

  unfoldable pub file_seek : RwReq → M File (Unit {0})
  file_seek r s = done (tt, record s { file = seek r.m_offset s.file })

  unfoldable pub file_read : ℕ → M File (List ℕ)
  file_read n s = elim (read_all (s.from_file (position s.file)) n) [
    | done (bs, calls) ↦
        done (bs, record s { from_file = λ p. calls; file = moved (length bs) s.file })
    | waiting ↦ waiting
    | fault ↦ fault
  ]

  unfoldable pub file_write : List ℕ → M File (Unit {0})
  file_write bs s = elim (write_all sink s.to_file bs s.file) [
    | done (f, calls) ↦ done (tt, record s { file = f; to_file = calls })
    | waiting ↦ waiting
    | fault ↦ fault
  ]

  -- A plain request is no `NBDRWReq`: the cast of one is undefined.
  unfoldable pub memory_read : Request → M File Request
  memory_read (plain t) = crash
  memory_read (rw_req r) = do
    file_seek r
    bs ← file_read (to_size r.m_size)
    pure (rw_req (record r { m_data = bs }))

  unfoldable pub memory_write : Request → M File (Unit {0})
  memory_write (plain t) = crash
  memory_write (rw_req r) = do
    file_seek r
    if to_size r.m_size == length r.m_data then file_write r.m_data else crash

  -- Two writes by two threads, whose calls of `lseek` and `write_all` alternate: no lock keeps the
  -- two calls of one write together.
  unfoldable pub interleaved_writes : RwReq → RwReq → M File (Unit {0})
  interleaved_writes r q = do file_seek r; file_seek q; file_write r.m_data; file_write q.m_data
