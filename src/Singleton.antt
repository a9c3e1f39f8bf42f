-- ===== src/Singleton.antt =====
-- DesignPatterns/Singletone/singletonesharedlibrary/singletone.hpp (and singletone.hpp one folder up,
-- with the same code): `Singleton<T>`, called by any number of threads.
pub mod Races
mod Examples
use distributed_nas.Base.{
  ℕ, suc, ◌≡◌, Bool, true, false, List, [], ◌∷◌, Option, none, some, if◌then◌else◌, update,
}

-- Where a call of `instance` stands: before the load; after it, with `temp`; in the mutex, before the
-- object is made, after it, and after the store; returned.
pub data Caller : Type 0 where
  starts holds : Caller
  loaded : Option ℕ → Caller
  made_one stored returned : ℕ → Caller

-- Objects are numbered in the order of their construction. `deleted` lists those deleted.
pub record Single : Type 0 where
  pub m_instance : Option ℕ
  pub m_mutex : Bool
  pub made : ℕ
  pub deleted : List ℕ
  pub callers : ℕ → Caller

unfoldable pub single : Single
single = record {
  m_instance = none;
  m_mutex = false;
  made = 0;
  deleted = [];
  callers = λ i. starts;
}

-- One access of a call to what the calls share: the load, the lock, `new`, the store, the unlock.
-- `temp` is not loaded again inside the mutex, so the second test finds what the first one found.
unfoldable pub instance_at : Caller → ℕ → Single → Single
instance_at starts i s = record s { callers = update s.callers i (loaded s.m_instance) }
instance_at (loaded (some temp)) i s = record s { callers = update s.callers i (returned temp) }
instance_at (loaded none) i s =
    if s.m_mutex then s else record s { m_mutex = true; callers = update s.callers i holds }
instance_at holds i s = record s {
  made = suc s.made;
  callers = update s.callers i (made_one s.made);
}
instance_at (made_one temp) i s = record s {
  m_instance = some temp;
  callers = update s.callers i (stored temp);
}
instance_at (stored temp) i s = record s {
  m_mutex = false;
  callers = update s.callers i (returned temp);
}
instance_at (returned temp) i s = s

-- A schedule names the call that goes on next.
unfoldable pub run : List ℕ → Single → Single
unfolding instance_at
run [] s = s
run (i ∷ rest) s = run rest (instance_at (s.callers i) i s)

-- `delete temp`, which does nothing to a null pointer.
abbrev pub delete : Option ℕ → Single → Single
delete none s = s
delete (some temp) s = record s { deleted = temp ∷ s.deleted }

abbrev pub is_null : Option ℕ → Bool
is_null none = true
is_null (some temp) = false

-- `KillInstance`, when no other thread is left.
unfoldable pub kill_instance : Single → Single
kill_instance s =
    if is_null s.m_instance then (if is_null s.m_instance then delete s.m_instance s else s) else s
