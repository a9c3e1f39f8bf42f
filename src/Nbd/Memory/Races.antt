-- ===== src/Nbd/Memory/Races.antt =====
-- What two threads that write through one descriptor do to the file.
use distributed_nas.Base.{ℕ, ◌+◌, ◌≤◌, ◌≡◌, ap, ap₂, ◌∙◌, List, arith, length, take, drop, pos}
use distributed_nas.Nbd.Io.{WriteCall, done}
use distributed_nas.Nbd.Io.Writing.{Accepts}
use distributed_nas.Nbd.Server.{Disk, Server, >>=-done}
use distributed_nas.Nbd.Slices.{spliced, slice-spliced_below}
use distributed_nas.Nbd.Blocks.{length-spliced}
use distributed_nas.Nbd.Proxy.{nbd_cmd_write}
use distributed_nas.Nbd.Proxy.Decoding.{rw_of}
use distributed_nas.Nbd.Memory.{file_seek, file_write, interleaved_writes}
use distributed_nas.Nbd.Memory.Laws.{file_write-Accepts, bytes-put-seek}

module _ (disk : Disk) (s : Server disk.File) where
  open disk use {
    File, bytes, position, seek, sink, position-seek, bytes-seek, bytes-put, position-put,
  }

  -- Two writes whose calls alternate, the first one's range wholly below the second one's offset, both
  -- go to the range of the second: its offset gets the payload of the first, the payload of the second
  -- comes behind that one, and the range of the first keeps its old bytes; if both payloads, one behind
  -- the other from the second offset on, lie in the file, and the calls of `write` take all.
  pub interleaved_writes-done :
      (handle handle' : List ℕ) (from from' : ℕ) (xs ys : List ℕ) (rest rest' : List WriteCall)
      → from + length xs ≤ from'
      → from' + length xs + length ys ≤ length (bytes s.file)
      → Accepts s.to_file (length xs) rest
      → Accepts rest (length ys) rest'
      → (s' : Server File) × (interleaved_writes disk
            (rw_of nbd_cmd_write handle from (length xs) xs)
            (rw_of nbd_cmd_write handle' from' (length ys) ys)
            s
          ≡ done (tt, s'))
        × (bytes s'.file ≡ spliced (from' + length xs) ys (spliced from' xs (bytes s.file)))
        × (take (length xs) (drop from (bytes s'.file))
            ≡ take (length xs) (drop from (bytes s.file)))
  unfolding interleaved_writes file_seek
  interleaved_writes-done handle handle' from from' xs ys rest rest' below inside acc acc' = (
    _,
    >>=-done (file_write disk xs) _ sought (file_write-Accepts disk sought xs rest acc)
        ∙ file_write-Accepts disk (record sought { file = sink.put xs sought.file; to_file = rest })
            ys rest' acc',
    now,
    ap (λ b. take (length xs) (drop from b)) now
        ∙ slice-spliced_below (length xs) from (from' + length xs) ys
            (spliced from' xs (bytes s.file)) (omega arith) (omega (arith, size))
        ∙ slice-spliced_below (length xs) from from' xs (bytes s.file) below (omega arith),
  )
    where
      moved : File
      moved = seek (pos from') (seek (pos from) s.file)

      sought : Server File
      sought = record s { file = moved }

      same : bytes (seek (pos from) s.file) ≡ bytes s.file
      same = bytes-seek (pos from) s.file

      first : bytes (sink.put xs moved) ≡ spliced from' xs (bytes s.file)
      first =
          bytes-put-seek disk (seek (pos from) s.file) from' xs (rw same (omega arith))
          ∙ ap (spliced from' xs) same

      size : length (spliced from' xs (bytes s.file)) ≡ length (bytes s.file)
      size = length-spliced from' xs (bytes s.file) (omega arith)

      place : position (sink.put xs moved) ≡ from' + length xs
      place = position-put xs moved ∙ ap (λ n. n + length xs) (position-seek from' _)

      now :
          bytes (sink.put ys (sink.put xs moved))
          ≡ spliced (from' + length xs) ys (spliced from' xs (bytes s.file))
      now =
          bytes-put ys (sink.put xs moved) (rw (place, first, size) inside)
          ∙ ap₂ (λ n b. spliced n ys b) place first
