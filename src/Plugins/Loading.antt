-- ===== src/Plugins/Loading.antt =====
-- What of the files that arrive is loaded.
use distributed_nas.Base.{
  ℕ, ◌+◌, ◌≡◌, refl, sym, ap, ◌∙◌, List, [], ◌∷◌, ◌++◌, map, Option, none, some, arith, length,
  length-append, waiting, All, ◌≢◌,
}
use mathlib.Core.List.{append_assoc, append-nil}
use distributed_nas.Plugins.{Name, Event, EventRead, batch, monitor, shared_object, load, load_all}

-- Events that a call of `read` delivers together. After the last one `read` does not return.
abbrev pub Batch : Type 0
Batch = Event × List Event

abbrev pub reads_of : List Batch → List EventRead
reads_of [] = []
reads_of ((event, more) ∷ batches) = batch event more ∷ reads_of batches

-- Every event has a name.
abbrev pub AreNamed : List Batch → Type 0
AreNamed = All (λ b. (b.0.len ≢ 0) × All (λ event. event.len ≢ 0) b.1)

abbrev pub events : List Batch → ℕ
events [] = 0
events ((event, more) ∷ batches) = 1 + length more + events batches

abbrev pub skipped : List Batch → ℕ
skipped [] = 0
skipped ((event, more) ∷ batches) = length more + skipped batches

monitor-firsts :
    (buffer : Option Event) (batches : List Batch)
    → AreNamed batches
    → monitor buffer (reads_of batches) ≡ (map (λ b. b.0.name) batches, waiting)
unfolding monitor
monitor-firsts buffer [] n = refl
monitor-firsts buffer ((event, more) ∷ batches) n =
    rw (monitor-firsts (some event) batches n.1, monitor) (ground arith)

load_all-map :
    (dlopen : Name → ℕ) (directory : Name) (names : List Name) (m_so : List (Option ℕ))
    → load_all dlopen directory names m_so
      ≡ m_so ++ map (λ n. shared_object dlopen (directory ++ 47 ∷ n)) names
unfolding load_all load
load_all-map dlopen directory [] m_so = sym (append-nil m_so)
load_all-map dlopen directory (n ∷ names) m_so =
    load_all-map dlopen directory names (m_so ++ shared_object dlopen (directory ++ 47 ∷ n) ∷ [])
    ∙ append_assoc m_so _ _

-- What a loader holds after the first event of each batch.
abbrev pub opened : (Name → ℕ) → Name → List Batch → List (Option ℕ)
opened dlopen directory [] = []
opened dlopen directory (b ∷ batches) =
    shared_object dlopen (directory ++ 47 ∷ b.0.name) ∷ opened dlopen directory batches

opened-map :
    (dlopen : Name → ℕ) (directory : Name) (batches : List Batch)
    → map (λ n. shared_object dlopen (directory ++ 47 ∷ n)) (map (λ b. b.0.name) batches)
      ≡ opened dlopen directory batches
opened-map dlopen directory [] = refl
opened-map dlopen directory (b ∷ batches) =
    ap (◌∷◌ (shared_object dlopen (directory ++ 47 ∷ b.0.name)))
      (opened-map dlopen directory batches)

length-opened :
    (dlopen : Name → ℕ) (directory : Name) (batches : List Batch)
    → length (opened dlopen directory batches) + skipped batches ≡ events batches
length-opened dlopen directory [] = refl
length-opened dlopen directory ((event, more) ∷ batches) =
    omega (arith, length-opened dlopen directory batches)

-- Of the files whose events the kernel delivers together, a monitor notifies its loader of the first
-- one only, and then waits for more: the loader makes a shared object for exactly those, in their
-- order, which opens the file if its path has ".so" in it, and every other file is lost. Every event
-- has a name.
pub monitor-load_all :
    (dlopen : Name → ℕ) (directory : Name) (batches : List Batch) (m_so : List (Option ℕ))
    → AreNamed batches
    → (names : List Name) × (monitor none (reads_of batches) ≡ (names, waiting))
      × (load_all dlopen directory names m_so ≡ m_so ++ opened dlopen directory batches)
      × (length (load_all dlopen directory names m_so) + skipped batches
          ≡ length m_so + events batches)
monitor-load_all dlopen directory batches m_so n =
    let names = map (λ (b : Batch). b.0.name) batches in
    let loads : load_all dlopen directory names m_so ≡ m_so ++ opened dlopen directory batches =
      load_all-map dlopen directory names m_so
      ∙ ap (λ l. m_so ++ l) (opened-map dlopen directory batches) in
    (
      names,
      monitor-firsts none batches n,
      loads,
      rw loads (
          omega (
            arith,
            length-append m_so (opened dlopen directory batches),
            length-opened dlopen directory batches,
          )),
    )
