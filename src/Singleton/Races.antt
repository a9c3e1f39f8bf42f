-- ===== src/Singleton/Races.antt =====
-- What `Singleton` does in any interleaving, and what a race does to it.
use distributed_nas.Base.{
  ap, ℕ, suc, ◌-◌, ◌<◌, ◌≢◌, ◌≡◌, refl, Bool, true, false, List, [], ◌∷◌, Option, none, some,
  if◌then◌else◌, update, arith, ◌==◌, ◌∙◌,
}
use distributed_nas.Singleton.{
  Caller, starts, holds, loaded, made_one, stored, returned, Single, single, instance_at, run,
  kill_instance,
}

-- What the pointer is once `n` objects were made and stored, one after the other.
abbrev last : ℕ → Option ℕ
last n = if n == 0 then none else some (n - 1)

-- Whether a call is between the lock and the unlock.
abbrev is_inside : Caller → Bool
is_inside holds = true
is_inside (made_one a) = true
is_inside (stored a) = true
is_inside c = false

-- What holds between two steps.
pub record Inv (s : Single) : Type 0 where
  pub free : s.m_mutex ≡ false → s.m_instance ≡ last s.made
  pub locked : (i : ℕ) → is_inside (s.callers i) ≡ true → s.m_mutex ≡ true
  pub alone : (i j : ℕ) → is_inside (s.callers i) ≡ true → is_inside (s.callers j) ≡ true → i ≡ j
  pub at_holds : (i : ℕ) → s.callers i ≡ holds → s.m_instance ≡ last s.made
  pub at_made : (i a : ℕ) → s.callers i ≡ made_one a → s.made ≡ suc a
  pub at_stored : (i a : ℕ) → s.callers i ≡ stored a → (s.made ≡ suc a) × (s.m_instance ≡ some a)
  pub known : (a : ℕ) → s.m_instance ≡ some a → a < s.made
  pub seen : (i a : ℕ) → s.callers i ≡ loaded (some a) → a < s.made
  pub given : (i a : ℕ) → s.callers i ≡ returned a → a < s.made

instance_at-Inv :
    (c : Caller) (i : ℕ) (s : Single) → s.callers i ≡ c → Inv s → Inv (instance_at c i s)
unfolding instance_at
instance_at-Inv starts i s e v = record {
  free = v.free;
  locked = λ j h. ground (arith, v.locked j, h);
  alone = λ j k h g. ground (arith, v.alone j k, h, g);
  at_holds = λ j h. ground (arith, v.at_holds j, h);
  at_made = λ j a h. ground (arith, v.at_made j a, h);
  at_stored = λ j a h. ground (arith, v.at_stored j a, h);
  known = v.known;
  seen = λ j a h. ground (arith, v.seen j a, v.known a, h);
  given = λ j a h. ground (arith, v.given j a, h);
}
instance_at-Inv (loaded (some temp)) i s e v = record {
  free = v.free;
  locked = λ j h. ground (arith, v.locked j, h);
  alone = λ j k h g. ground (arith, v.alone j k, h, g);
  at_holds = λ j h. ground (arith, v.at_holds j, h);
  at_made = λ j a h. ground (arith, v.at_made j a, h);
  at_stored = λ j a h. ground (arith, v.at_stored j a, h);
  known = v.known;
  seen = λ j a h. ground (arith, v.seen j a, h);
  given = λ j a h. ground (arith, v.given j a, v.seen i temp e, h);
}
instance_at-Inv (loaded none) i s e v = record {
  free = λ h. ground (arith, v.free, h);
  locked = λ j h. ground (arith, v.locked j, h);
  alone = λ j k h g. ground (arith, v.alone j k, v.locked j, v.locked k, h, g);
  at_holds = λ j h. ground (arith, v.at_holds j, v.free, h);
  at_made = λ j a h. ground (arith, v.at_made j a, h);
  at_stored = λ j a h. ground (arith, v.at_stored j a, h);
  known = λ a h. ground (arith, v.known a, h);
  seen = λ j a h. ground (arith, v.seen j a, h);
  given = λ j a h. ground (arith, v.given j a, h);
}
instance_at-Inv holds i s e v = record {
  free = λ h. ground (arith, v.locked i, e, h);
  locked = λ j h. ground (arith, v.locked j, v.locked i, e, h);
  alone = λ j k h g. ground (arith, v.alone j k, v.alone i j, v.alone i k, e, h, g);
  at_holds = λ j h. ground (arith, v.alone i j, e, h);
  at_made = λ j a h. ground (arith, v.alone i j, e, h);
  at_stored = λ j a h. ground (arith, v.alone i j, e, h);
  known = λ a h. ground (arith, v.known a, h);
  seen = λ j a h. ground (arith, v.seen j a, h);
  given = λ j a h. ground (arith, v.given j a, h);
}
instance_at-Inv (made_one temp) i s e v = record {
  free = λ h. ground (arith, v.locked i, e, h);
  locked = λ j h. ground (arith, v.locked j, v.locked i, e, h);
  alone = λ j k h g. ground (arith, v.alone j k, v.alone i j, v.alone i k, e, h, g);
  at_holds = λ j h. ground (arith, v.alone i j, e, h);
  at_made = λ j a h. ground (arith, v.at_made j a, h);
  at_stored = λ j a h. ground (arith, v.alone i j, v.at_made i temp e, e, h);
  known = λ a h. ground (arith, v.at_made i temp e, h);
  seen = λ j a h. ground (arith, v.seen j a, h);
  given = λ j a h. ground (arith, v.given j a, h);
}
instance_at-Inv (stored temp) i s e v = record {
  free = λ h. ground (arith, v.at_stored i temp e);
  locked = λ j h. ground (arith, v.alone i j, e, h);
  alone = λ j k h g. ground (arith, v.alone j k, h, g);
  at_holds = λ j h. ground (arith, v.at_holds j, h);
  at_made = λ j a h. ground (arith, v.at_made j a, h);
  at_stored = λ j a h. ground (arith, v.at_stored j a, h);
  known = v.known;
  seen = λ j a h. ground (arith, v.seen j a, h);
  given = λ j a h. ground (arith, v.given j a, v.at_stored i temp e, h);
}
instance_at-Inv (returned temp) i s e v = v

run-Inv : (acts : List ℕ) (s : Single) → Inv s → Inv (run acts s)
unfolding run
run-Inv [] s v = v
run-Inv (i ∷ rest) s v = run-Inv rest _ (instance_at-Inv (s.callers i) i s refl v)

single-Inv : Inv single
unfolding single
single-Inv = record {
  free = λ h. refl;
  locked = λ i h. cc;
  alone = λ i j h g. cc;
  at_holds = λ i h. cc;
  at_made = λ i a h. cc;
  at_stored = λ i a h. cc;
  known = λ a h. cc;
  seen = λ i a h. cc;
  given = λ i a h. cc;
}

-- However the loads, locks, constructions, stores and unlocks of any number of calls of `instance`
-- interleave: once a call has returned and no call is in the mutex, the call gave an object that was
-- made, and the pointer holds the object that was made last.
pub run-safe :
    (acts : List ℕ) (i a : ℕ)
    → (run acts single).callers i ≡ returned a
    → (run acts single).m_mutex ≡ false
    → (a < (run acts single).made)
      × ((run acts single).m_instance ≡ some ((run acts single).made - 1))
run-safe acts i a e free =
    let v = run-Inv acts single single-Inv in
    let made = v.given i a e in (made, v.free free ∙ ground arith)

-- `KillInstance` never deletes anything.
pub kill_instance-same : (s : Single) → kill_instance s ≡ s
unfolding kill_instance
kill_instance-same s = ground arith

run-cons :
    (c : Caller) (i : ℕ) (rest : List ℕ) (s : Single)
    → s.callers i ≡ c
    → run (i ∷ rest) s ≡ run rest (instance_at c i s)
unfolding run
run-cons c i rest s e = rw (e, run)

-- No call is in the mutex.
abbrev unlocked : Option ℕ → ℕ → List ℕ → (ℕ → Caller) → Single
unlocked pointer made deleted callers = record {
  m_instance = pointer;
  m_mutex = false;
  made = made;
  deleted = deleted;
  callers = callers;
}

-- The callers after call `i` has gone through the mutex.
abbrev gone_through : (ℕ → Caller) → ℕ → ℕ → ℕ → Caller
gone_through callers i made =
    update (update (update (update callers i holds) i (made_one made)) i (stored made)) i
      (returned made)

run-through :
    (pointer : Option ℕ) (made : ℕ) (deleted : List ℕ) (callers : ℕ → Caller) (i : ℕ)
    (rest : List ℕ)
    → callers i ≡ loaded none
    → run (i ∷ i ∷ i ∷ i ∷ rest) (unlocked pointer made deleted callers)
      ≡ run rest (unlocked (some made) (suc made) deleted (gone_through callers i made))
unfolding instance_at
run-through pointer made deleted callers i rest e =
    let s0 = unlocked pointer made deleted callers in
    let s1 = instance_at (loaded none) i s0 in
    let s2 = instance_at holds i s1 in
    let s3 = instance_at (made_one made) i s2 in
    run-cons (loaded none) i (i ∷ i ∷ i ∷ rest) s0 e
    ∙ run-cons holds i (i ∷ i ∷ rest) s1 (ground arith)
    ∙ run-cons (made_one made) i (i ∷ rest) s2 (ground arith)
    ∙ run-cons (stored made) i rest s3 (ground arith)

-- Both load; the first one goes through the mutex, and then the second one.
abbrev pub both : ℕ → ℕ → List ℕ
both i j = i ∷ j ∷ i ∷ i ∷ i ∷ i ∷ j ∷ j ∷ j ∷ j ∷ []

-- Two calls that both load the null pointer before either of them makes an object make one each, and
-- return different objects, though the second one waits for the mutex.
pub run-race :
    (made : ℕ) (deleted : List ℕ) (callers : ℕ → Caller) (i j : ℕ)
    → i ≢ j
    → callers i ≡ starts
    → callers j ≡ starts
    → ((run (both i j) (unlocked none made deleted callers)).callers i ≡ returned made)
      × ((run (both i j) (unlocked none made deleted callers)).callers j ≡ returned (suc made))
      × ((run (both i j) (unlocked none made deleted callers)).made ≡ suc (suc made))
unfolding instance_at run
run-race made deleted callers i j apart hi hj =
    let begun = update (update callers i (loaded none)) j (loaded none) in
    let s0 = unlocked none made deleted callers in
    let s1 = instance_at starts i s0 in
    let race : run (both i j) s0
        ≡ unlocked (some (suc made)) (suc (suc made)) deleted
            (gone_through (gone_through begun i made) j (suc made)) =
      run-cons starts i (j ∷ i ∷ i ∷ i ∷ i ∷ j ∷ j ∷ j ∷ j ∷ []) s0 hi
      ∙ run-cons starts j (i ∷ i ∷ i ∷ i ∷ j ∷ j ∷ j ∷ j ∷ []) s1 (ground arith)
      ∙ run-through none made deleted begun i (j ∷ j ∷ j ∷ j ∷ []) (ground arith)
      ∙ run-through (some made) (suc made) deleted (gone_through begun i made) j []
          (ground arith) in
    (
      ap (λ s. s.callers i) race ∙ ground arith,
      ap (λ s. s.callers j) race ∙ ground arith,
      ap (λ s. s.made) race,
    )
