-- ===== src/Handleton.antt =====
-- DesignPatterns/Singletone/handleton/handleton.h: `GetInstance`, called by any number of threads.

pub mod Once
pub mod Destroying
mod Examples
use distributed_nas.Base.{
  ℕ, suc, ◌≡◌, Bool, true, false, List, [], ◌∷◌, Option, none, some, if◌then◌else◌, update,
}

-- Where a call stands: before the test of `sv_isReady`; after it found false; with the duty to make
-- the object; with the object made; in the loop that waits; returned.
pub data Caller : Type 0 where
  starts tested won built waits : Caller
  returned : Option ℕ → Caller

-- The static variables of `GetInstance`, how many objects were made, and the calls.
pub record Handleton : Type 0 where
  pub sv_is_ready : Bool
  pub sv_should_init : Bool
  pub the_object : Option ℕ
  pub made : ℕ
  pub callers : ℕ → Caller

unfoldable pub handleton : Handleton
handleton = record {
  sv_is_ready = false;
  sv_should_init = false;
  the_object = none;
  made = 0;
  callers = λ i. starts;
}

abbrev pub move : ℕ → Caller → Handleton → Handleton
move i c s = record s { callers = update s.callers i c }

-- One access of a call to the shared variables.
unfoldable pub get_instance_at : Caller → ℕ → Handleton → Handleton
get_instance_at starts i s = move i (if s.sv_is_ready then returned s.the_object else tested) s
get_instance_at tested i s = record s {
  sv_should_init = true;
  callers = update s.callers i (if s.sv_should_init then waits else won);
}
get_instance_at won i s = record s {
  the_object = some s.made;
  made = suc s.made;
  callers = update s.callers i built;
}
get_instance_at built i s = record s { sv_is_ready = true; callers = update s.callers i waits }
get_instance_at waits i s = move i (if s.sv_is_ready then returned s.the_object else waits) s
get_instance_at (returned p) i s = s

-- A schedule names the call that goes on next.
unfoldable pub run : List ℕ → Handleton → Handleton
unfolding get_instance_at
run [] s = s
run (i ∷ rest) s = run rest (get_instance_at (s.callers i) i s)
