-- ===== src/Plugins.antt =====
-- dirmonitor/dirmonitor.cpp, dlloader/dlloader.cpp and dlloader/sharedobject.cpp: files that arrive in a
-- directory are loaded as shared objects. Names are lists of characters. What `read` gives on the
-- inotify descriptor and what `dlopen` returns are arguments.
pub mod Destruction
pub mod Loading
pub mod Monitors
pub mod Closing
mod Examples
use distributed_nas.Base.{
  ℕ, zero, suc, ◌+◌, ◌≡◌, Bool, true, false, ◌&&◌, ◌||◌, List, [], ◌∷◌, ◌++◌, Option, none, some,
  if◌then◌else◌, ltb, ◌==◌, length, get_elem?, Outcome, done, waiting, fault,
}

abbrev pub Name : Type 0
Name = List ℕ

-- `struct inotify_event`: a name follows exactly if `len` is not 0.
pub record Event : Type 0 where
  pub len : ℕ
  pub name : Name

-- What a call of `read` gives: events, -1, or 0.
pub data EventRead : Type 0 where
  batch : Event → List Event → EventRead
  failed : EventRead
  closed : EventRead

-- The body of the loop of `Functor::operator()`: whom it notifies of the event at the start of the
-- buffer.
abbrev pub notified : Event → List Name
notified event = if event.len == 0 then [] else event.name ∷ []

-- The loop. `buffer` is the first event of the buffer, if one was ever read; -1 is not 0, so the loop
-- goes round with the buffer as it was. The result lists the events of `NotifyAll` so far, and says
-- whether the loop waits in the next call of `read`, has ended, or is in undefined behaviour.
unfoldable pub monitor : Option Event → List EventRead → List Name × Outcome (Unit {0})
monitor buffer [] = ([], waiting)
monitor buffer (closed ∷ reads) = ([], done tt)
monitor none (failed ∷ reads) = ([], fault)
monitor (some event) (failed ∷ reads) =
    let r = monitor (some event) reads in (notified event ++ r.0, r.1)
monitor buffer (batch event more ∷ reads) =
    let r = monitor (some event) reads in (notified event ++ r.0, r.1)

-- Whether a path has ".so" in it.
abbrev pub starts_with_so : Name → Bool
starts_with_so (a ∷ b ∷ c ∷ cs) = a == 46 && (b == 115 && c == 111)
starts_with_so cs = false

abbrev pub has_so : Name → Bool
has_so [] = false
has_so (c ∷ cs) = starts_with_so (c ∷ cs) || has_so cs

-- `SharedObject(path)`: a path without ".so" leaves the handle as it was, not initialised.
unfoldable pub shared_object : (Name → ℕ) → Name → Option ℕ
shared_object dlopen path = if has_so path then some (dlopen path) else none

-- `DLLoader::Load`, which appends to `m_so`.
unfoldable pub load : (Name → ℕ) → Name → Name → List (Option ℕ) → List (Option ℕ)
unfolding shared_object
load dlopen directory event m_so = m_so ++ shared_object dlopen (directory ++ 47 ∷ event) ∷ []

-- The events of a monitor, handed to a loader that is its one subscriber.
unfoldable pub load_all : (Name → ℕ) → Name → List Name → List (Option ℕ) → List (Option ℕ)
unfolding load
load_all dlopen directory [] m_so = m_so
load_all dlopen directory (event ∷ events) m_so =
    load_all dlopen directory events (load dlopen directory event m_so)

-- The vector without the element at an index.
abbrev pub erase_at {ℓ} : {A : Type ℓ} → ℕ → List A → List A
erase_at i [] = []
erase_at zero (x ∷ xs) = xs
erase_at (suc i) (x ∷ xs) = x ∷ erase_at i xs

-- `~SharedObject`: `dlclose` of a handle that was never set is undefined.
abbrev pub dlclose : Option ℕ → List ℕ → Outcome (List ℕ)
dlclose none closed_before = fault
dlclose (some handle) closed_before = done (closed_before ++ handle ∷ [])

-- The loop of `~DLLoader`: the iterator is at index `i`, and goes on by one after each erasure. The
-- result is the handles that were closed and the objects that were left.
unfoldable pub destroy_loop : ℕ → ℕ → List (Option ℕ) → List ℕ → Outcome (List ℕ × List (Option ℕ))
destroy_loop zero i m_so handles = waiting
destroy_loop (suc fuel) i m_so handles = elim (get_elem? m_so i) [
  | none ↦ done (handles, m_so)
  | some object ↦ elim (dlclose object handles) [
    | done more ↦ destroy_loop fuel (suc i) (erase_at i m_so) more
    | waiting ↦ waiting
    | fault ↦ fault
  ]
]

unfoldable pub destroy : ℕ → List (Option ℕ) → Outcome (List ℕ × List (Option ℕ))
unfolding destroy_loop
destroy fuel m_so = destroy_loop fuel 0 m_so []
