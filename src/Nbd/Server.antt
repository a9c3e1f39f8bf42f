-- ===== src/Nbd/Server.antt =====
-- What nbdproxy.cpp works on: the file that backs the device, the socket to the kernel's NBD client,
-- and the results of the calls that the code makes on both. A method is a function of this state.
use distributed_nas.Base.{ℕ, ◌+◌, ◌≤◌, ◌≡◌, List, ◌++◌, length, take, drop, ℤ, pos}
use distributed_nas.Nbd.Io.{ReadCall, WriteCall, Outcome, done, waiting, fault, Sink}

-- Open files of the operating system: `lseek`, `read` and `write` on a descriptor.
pub record Disk : Type 1 where
  pub File : Type 0
  pub bytes : File → List ℕ
  pub position : File → ℕ
  pub seek : ℤ → File → File
  pub moved : ℕ → File → File
  pub sink : Sink File
  pub position-seek : (n : ℕ) (f : File) → position (seek (pos n) f) ≡ n
  pub bytes-seek : (z : ℤ) (f : File) → bytes (seek z f) ≡ bytes f
  pub bytes-moved : (n : ℕ) (f : File) → bytes (moved n f) ≡ bytes f
  pub position-put : (xs : List ℕ) (f : File) → position (sink.put xs f) ≡ position f + length xs
  -- A write within the file replaces the bytes from the position on.
  pub bytes-put :
      (xs : List ℕ) (f : File)
      → position f + length xs ≤ length (bytes f)
      → bytes (sink.put xs f)
        ≡ take (position f) (bytes f) ++ (xs ++ drop (position f + length xs) (bytes f))

-- `from_file` says what the calls on the file give if they begin at a position.
pub record Server (F : Type 0) : Type 0 where
  pub file : F
  pub sent : List ℕ
  pub from_socket : List ReadCall
  pub to_socket : List WriteCall
  pub from_file : ℕ → List ReadCall
  pub to_file : List WriteCall

abbrev pub M : Type 0 → Type 0 → Type 0
M F A = Server F → Outcome (A × Server F)

infixl 5 ◌>>=◌ ◌>>◌
abbrev pub ◌>>=◌ : {F A B : Type 0} → M F A → (A → M F B) → M F B
◌>>=◌ m f s = elim (m s) [ done (a, s') ↦ f a s' | waiting ↦ waiting | fault ↦ fault ]

abbrev pub ◌>>◌ : {F B : Type 0} → M F (Unit {0}) → M F B → M F B
m >> k = m >>= λ _. k

abbrev pub pure : {F A : Type 0} → A → M F A
pure a s = done (a, s)

abbrev pub crash : {F A : Type 0} → M F A
crash s = fault

pub >>=-done :
    {F A B : Type 0} (m : M F A) (f : A → M F B) (s : Server F) {a : A} {s' : Server F}
    → m s ≡ done (a, s')
    → (m >>= f) s ≡ f a s'
>>=-done m f s e = rw (e, ◌>>=◌)
