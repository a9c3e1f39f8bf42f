-- ===== src/Nbd/Io.antt =====
-- `read_all` and `write_all` of nbdproxy.cpp over the results of the `read` and `write` calls they
-- make, one entry for each call. The calls themselves are the kernel's.
pub mod Reading
pub mod Writing
pub use distributed_nas.Base.{Outcome, done, waiting, fault}
use distributed_nas.Base.{ℕ, zero, suc, ◌-◌, ◌≡◌, List, [], ◌∷◌, ◌++◌, length, take}

-- What a call of `read` gives: bytes, 0 at the end of the stream, or -1.
pub data ReadCall : Type 0 where
  got : List ℕ → ReadCall
  eof : ReadCall
  failed : ReadCall

-- What a call of `write` gives: how many bytes it took, or -1.
pub data WriteCall : Type 0 where
  wrote : ℕ → WriteCall
  refused : WriteCall

-- The list without its last element.
abbrev pub but_last : List ℕ → List ℕ
but_last [] = []
but_last (x ∷ []) = []
but_last (x ∷ y ∷ ys) = x ∷ but_last (y ∷ ys)

-- `buf` holds the bytes before the pointer. At 0 the loop goes round; at -1 the pointer goes back by
-- one and the count up by one.
unfoldable pub read_loop : List ReadCall → ℕ → List ℕ → Outcome (List ℕ × List ReadCall)
read_loop calls zero buf = done (buf, calls)
read_loop [] (suc n) buf = waiting
read_loop (got bs ∷ calls) (suc n) buf = read_loop calls (suc n - length bs) (buf ++ bs)
read_loop (eof ∷ calls) (suc n) buf = read_loop calls (suc n) buf
read_loop (failed ∷ calls) (suc n) [] = fault
read_loop (failed ∷ calls) (suc n) (b ∷ buf) = read_loop calls (suc (suc n)) (but_last (b ∷ buf))

unfoldable pub read_all : List ReadCall → ℕ → Outcome (List ℕ × List ReadCall)
unfolding read_loop
read_all calls count = read_loop calls count []

-- Where written bytes go: a stream or an open file.
pub record Sink {ℓ} (S : Type ℓ) : Type ℓ where
  pub put : List ℕ → S → S
  pub put-nil : (s : S) → put [] s ≡ s
  pub put-append : (xs ys : List ℕ) (s : S) → put ys (put xs s) ≡ put (xs ++ ys) s

-- The first `n` bytes moved over to the reversed front: where the pointer stands after a call.
abbrev pub advance : ℕ → List ℕ → List ℕ → List ℕ × List ℕ
advance zero back rest = (back, rest)
advance (suc n) back [] = (back, [])
advance (suc n) back (b ∷ rest) = advance n (b ∷ back) rest

module _ {ℓ} {S : Type ℓ} (k : Sink S) where
  -- `back` holds the bytes before the pointer, the last one first, and `rest` those that count.
  pub write_loop : List WriteCall → List ℕ → List ℕ → S → Outcome (S × List WriteCall)
  write_loop calls back [] s = done (s, calls)
  write_loop [] back (b ∷ rest) s = waiting
  write_loop (wrote n ∷ calls) back (b ∷ rest) s =
      let p = advance n back (b ∷ rest) in write_loop calls p.0 p.1 (k.put (take n (b ∷ rest)) s)
  write_loop (refused ∷ calls) [] (b ∷ rest) s = fault
  write_loop (refused ∷ calls) (c ∷ back) (b ∷ rest) s = write_loop calls back (c ∷ b ∷ rest) s

  pub write_all : List WriteCall → List ℕ → S → Outcome (S × List WriteCall)
  unfolding write_loop
  write_all calls buf s = write_loop calls [] buf s
