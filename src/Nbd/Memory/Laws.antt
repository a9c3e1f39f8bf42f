-- ===== src/Nbd/Memory/Laws.antt =====
-- What `MemoryFile::read` and `MemoryFile::write` do to the file, within its bounds.
use distributed_nas.Base.{ℕ, ◌+◌, ◌≤◌, ◌≡◌, refl, ◌∙◌, List, ◌++◌, length, take, drop, pos, ==_refl}
use distributed_nas.Nbd.Io.{ReadCall, WriteCall, done}
use distributed_nas.Nbd.Io.Reading.{Supplies, read_all-Supplies}
use distributed_nas.Nbd.Io.Writing.{Accepts, write_all-Accepts}
use distributed_nas.Nbd.Server.{Disk, Server, >>=-done}
use distributed_nas.Nbd.Proxy.{rw_req}
use distributed_nas.Nbd.Proxy.Decoding.{rw_of}
use distributed_nas.Nbd.Memory.{file_seek, file_read, file_write, memory_read, memory_write}

module _ (disk : Disk) where
  open disk use {File, bytes, position, seek, moved, sink, position-seek, bytes-seek, bytes-put}

  file_read-Supplies :
      (s : Server File) (bs : List ℕ) (rest : List ReadCall)
      → Supplies (s.from_file (position s.file)) bs rest
      → file_read disk (length bs) s
        ≡ done (bs, record s { from_file = λ p. rest; file = moved (length bs) s.file })
  unfolding file_read
  file_read-Supplies s bs rest sup =
      rw (read_all-Supplies (s.from_file (position s.file)) rest bs (length bs) sup refl, file_read)

  pub file_write-Accepts :
      (s : Server File) (bs : List ℕ) (rest : List WriteCall)
      → Accepts s.to_file (length bs) rest
      → file_write disk bs s ≡ done (tt, record s { file = sink.put bs s.file; to_file = rest })
  unfolding file_write
  file_write-Accepts s bs rest acc =
      rw (write_all-Accepts sink s.to_file rest bs s.file acc, file_write)

  module _ (s : Server File) (kind : ℕ) (handle : List ℕ) (from : ℕ) (old : List ℕ) where
    abbrev at_offset : Server File
    at_offset = record s { file = seek (pos from) s.file }

    -- The calls of `read` at the offset deliver `bs`: the request gets them, and the file moves on.
    pub memory_read-Supplies :
        (bs : List ℕ) (rest : List ReadCall)
        → Supplies (s.from_file from) bs rest
        → memory_read disk (rw_req (rw_of kind handle from (length bs) old)) s
          ≡ done (
            rw_req (rw_of kind handle from (length bs) bs),
            record s { file = moved (length bs) (seek (pos from) s.file); from_file = λ p. rest },
          )
    unfolding memory_read file_seek
    memory_read-Supplies bs rest sup =
        >>=-done (file_read disk (length bs)) _ at_offset
          (file_read-Supplies at_offset bs rest (rw (position-seek from s.file) sup))

    pub memory_write-Accepts :
        (bs : List ℕ) (rest : List WriteCall)
        → Accepts s.to_file (length bs) rest
        → memory_write disk (rw_req (rw_of kind handle from (length bs) bs)) s
          ≡ done (tt, record s { file = sink.put bs (seek (pos from) s.file); to_file = rest })
    unfolding memory_write file_seek
    memory_write-Accepts bs rest acc =
        rw (==_refl (length bs)) (file_write-Accepts at_offset bs rest acc)

  -- The bytes of the file after a write in range.
  pub bytes-put-seek :
      (f : File) (from : ℕ) (xs : List ℕ)
      → from + length xs ≤ length (bytes f)
      → bytes (sink.put xs (seek (pos from) f))
        ≡ take from (bytes f) ++ (xs ++ drop (from + length xs) (bytes f))
  bytes-put-seek f from xs h =
      bytes-put xs (seek (pos from) f) (rw (position-seek from f, bytes-seek (pos from) f) h)
      ∙ rw (position-seek from f, bytes-seek (pos from) f)
