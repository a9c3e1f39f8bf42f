-- ===== src/Nbd/Blocks.antt =====
-- A block device as its clients see it: bytes, and what each command answers and leaves.
use distributed_nas.Base.{
  ℕ, ◌+◌, ◌≤◌, ◌<◌, ◌^◌, ◌≡◌, List, [], ◌∷◌, ◌++◌, length, take, drop, arith, length-take,
  length-drop, length-append,
}
use distributed_nas.Nbd.Slices.{spliced}
use distributed_nas.Nbd.Proxy.Replies.{encode_reply}

-- A command with its handle and its offset, and a length or a payload.
pub data BlockCommand : Type 0 where
  read_block : List ℕ → ℕ → ℕ → BlockCommand
  write_block : List ℕ → ℕ → List ℕ → BlockCommand

-- The answer on the wire.
abbrev pub answer : List ℕ → BlockCommand → List ℕ
answer bytes (read_block handle from len) = encode_reply handle ++ take len (drop from bytes)
answer bytes (write_block handle from payload) = encode_reply handle

abbrev pub left_by : List ℕ → BlockCommand → List ℕ
left_by bytes (read_block handle from len) = bytes
left_by bytes (write_block handle from payload) = spliced from payload bytes

abbrev pub left_by_all : List ℕ → List BlockCommand → List ℕ
left_by_all bytes [] = bytes
left_by_all bytes (c ∷ cs) = left_by_all (left_by bytes c) cs

-- What the protocol asks of a command to a device of a size, and the bounds of an `int`.
abbrev pub IsInRange : ℕ → BlockCommand → Type 0
IsInRange size (read_block handle from len) =
    (length handle ≡ 8) × (from < 2 ^ 31) × (len < 2 ^ 31) × (from + len ≤ size)
IsInRange size (write_block handle from payload) =
    (length handle ≡ 8)
    × (from < 2 ^ 31)
    × (length payload < 2 ^ 31)
    × (from + length payload ≤ size)

pub length-spliced :
    (from : ℕ) (xs b : List ℕ) → from + length xs ≤ length b → length (spliced from xs b) ≡ length b
length-spliced from xs b h = omega (
  arith,
  length-append (take from b) (xs ++ drop (from + length xs) b),
  length-append xs (drop (from + length xs) b),
  length-take from b,
  length-drop (from + length xs) b,
)

-- Commands in range keep the size.
pub length-left_by :
    (bytes : List ℕ) (c : BlockCommand)
    → IsInRange (length bytes) c
    → length (left_by bytes c) ≡ length bytes
length-left_by bytes (read_block handle from len) h = omega arith
length-left_by bytes (write_block handle from payload) (eight, _, _, h) =
    length-spliced from payload bytes h
