-- ===== src/Handleton/Destroying.antt =====
-- `DestroyInstance` (DesignPatterns/Singletone/handleton/handleton.h), which runs when the process
-- exits and has it to itself, and the calls after it.
use distributed_nas.Base.{
  ℕ, suc, ◌≤◌, ◌≡◌, true, List, [], ◌∷◌, Option, some, if◌then◌else◌, Outcome, done, waiting, fault,
  arith,
}
use distributed_nas.Handleton.{starts, returned, Handleton, handleton, get_instance_at, run}
use distributed_nas.Handleton.Once.{run-Inv, handleton-Inv}

-- `GetInstance` by itself: without the object it makes it, or waits for a call that will not go on.
unfoldable pub get_instance : Handleton → Outcome (Option ℕ × Handleton)
get_instance s =
    if s.sv_is_ready
    then done (s.the_object, s)
    else if s.sv_should_init
    then waiting
    else done (
      some s.made,
      record s {
        sv_is_ready = true;
        sv_should_init = true;
        the_object = some s.made;
        made = suc s.made;
      },
    )

abbrev pub dead_beef : ℕ
dead_beef = 0xdeadbeef

-- The pointer that is deleted, and the static variables after it. The constructor of the local
-- `Handleton` calls `GetInstance` as well.
unfoldable pub destroy_instance : Handleton → Outcome (Option ℕ × Handleton)
unfolding get_instance
destroy_instance s = elim (get_instance s) [
  | waiting ↦ waiting
  | fault ↦ fault
  | done (h, t) ↦ elim (get_instance t) [
    | waiting ↦ waiting
    | fault ↦ fault
    | done (ptr, v) ↦ done (ptr, record v { the_object = some dead_beef })
  ]
]

-- After any calls by any threads, once the object is ready, `DestroyInstance` returns at the exit, has
-- deleted the one object that was made, and leaves a handle that is no object: a call that starts then
-- returns the address 0xdeadbeef.
pub run-destroy_instance :
    (acts : List ℕ) (i : ℕ)
    → (run acts handleton).sv_is_ready ≡ true
    → (run acts handleton).callers i ≡ starts
    → (s : Handleton) × (destroy_instance (run acts handleton) ≡ done (some 0, s))
      × ((run acts handleton).made ≤ 1)
      × ((run (i ∷ []) s).callers i ≡ returned (some dead_beef))
unfolding destroy_instance run get_instance_at
run-destroy_instance acts i ready start =
    let v = run-Inv acts handleton handleton-Inv in
    let s = run acts handleton in
    let pointer : s.the_object ≡ some 0 = v.ready ready in
    (
      record s { the_object = some dead_beef },
      ground (arith, ready, pointer),
      v.one,
      rw (start, ready) (ground (arith, ready)),
    )
