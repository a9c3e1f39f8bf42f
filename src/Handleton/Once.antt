-- ===== src/Handleton/Once.antt =====
-- How often `GetInstance` makes the object, and what it returns.
use distributed_nas.Base.{ℕ, ◌≤◌, ◌≡◌, refl, true, false, List, [], ◌∷◌, Option, some, arith}
use distributed_nas.Handleton.{
  Caller, starts, tested, won, built, waits, returned, Handleton, handleton, get_instance_at, run,
}

-- What holds between two accesses: who may make the object, and what is known of it.
pub record Inv (s : Handleton) : Type 0 where
  pub ready : s.sv_is_ready ≡ true → s.the_object ≡ some 0
  pub fresh : s.sv_should_init ≡ false → (s.made ≡ 0) × (s.sv_is_ready ≡ false)
  pub one : s.made ≤ 1
  pub chosen :
      (i : ℕ)
      → s.callers i ≡ won
      → (s.sv_should_init ≡ true) × (s.made ≡ 0) × (s.sv_is_ready ≡ false)
  pub alone : (i j : ℕ) → s.callers i ≡ won → s.callers j ≡ won → i ≡ j
  pub finished :
      (i : ℕ)
      → s.callers i ≡ built
      → (s.the_object ≡ some 0) × (s.sv_should_init ≡ true) × (s.made ≡ 1)
  pub unique : (i : ℕ) (p : Option ℕ) → s.callers i ≡ returned p → p ≡ some 0
  pub stays : (i : ℕ) (p : Option ℕ) → s.callers i ≡ returned p → s.the_object ≡ some 0

get_instance_at-Inv :
    (c : Caller) (i : ℕ) (s : Handleton) → s.callers i ≡ c → Inv s → Inv (get_instance_at c i s)
unfolding get_instance_at
get_instance_at-Inv starts i s e v = record {
  ready = v.ready;
  fresh = v.fresh;
  one = v.one;
  chosen = λ j h. ground (arith, v.chosen j, h);
  alone = λ j k h g. ground (arith, v.alone j k, h, g);
  finished = λ j h. ground (arith, v.finished j, h);
  unique = λ j p h. ground (arith, v.unique j p, v.ready, h);
  stays = λ j p h. ground (arith, v.stays j p, v.ready, h);
}
get_instance_at-Inv tested i s e v = record {
  ready = v.ready;
  fresh = λ h. cc;
  one = v.one;
  chosen = λ j h. ground (arith, v.chosen j, v.fresh, h);
  alone = λ j k h g. ground (arith, v.alone j k, v.chosen j, v.chosen k, h, g);
  finished = λ j h. ground (arith, v.finished j, h);
  unique = λ j p h. ground (arith, v.unique j p, h);
  stays = λ j p h. ground (arith, v.stays j p, h);
}
get_instance_at-Inv won i s e v = record {
  ready = λ h. ground (arith, v.chosen i e);
  fresh = λ h. ground (arith, v.chosen i e);
  one = ground (arith, v.chosen i e);
  chosen = λ j h. ground (arith, v.alone i j e, h);
  alone = λ j k h g. ground (arith, v.alone j k, h, g);
  finished = λ j h. ground (arith, v.chosen i e);
  unique = λ j p h. ground (arith, v.unique j p, h);
  stays = λ j p h. ground (arith, v.chosen i e);
}
get_instance_at-Inv built i s e v = record {
  ready = λ h. (v.finished i e).0;
  fresh = λ h. absurd (let (_, f, _) = v.finished i e in cc);
  one = v.one;
  chosen = λ j h. ground (arith, v.finished i e, v.chosen j, h);
  alone = λ j k h g. ground (arith, v.alone j k, h, g);
  finished = λ j h. ground (arith, v.finished j, h);
  unique = λ j p h. ground (arith, v.unique j p, h);
  stays = λ j p h. ground (arith, v.stays j p, h);
}
get_instance_at-Inv waits i s e v = record {
  ready = v.ready;
  fresh = v.fresh;
  one = v.one;
  chosen = λ j h. ground (arith, v.chosen j, h);
  alone = λ j k h g. ground (arith, v.alone j k, h, g);
  finished = λ j h. ground (arith, v.finished j, h);
  unique = λ j p h. ground (arith, v.unique j p, v.ready, h);
  stays = λ j p h. ground (arith, v.stays j p, v.ready, h);
}
get_instance_at-Inv (returned p) i s e v = v

pub run-Inv : (acts : List ℕ) (s : Handleton) → Inv s → Inv (run acts s)
unfolding run
run-Inv [] s v = v
run-Inv (i ∷ rest) s v = run-Inv rest _ (get_instance_at-Inv (s.callers i) i s refl v)

pub handleton-Inv : Inv handleton
unfolding handleton
handleton-Inv = record {
  ready = λ h. cc;
  fresh = λ h. (refl, refl);
  one = omega arith;
  chosen = λ j h. cc;
  alone = λ j k h g. cc;
  finished = λ j h. cc;
  unique = λ j p h. cc;
  stays = λ j p h. cc;
}

-- However the calls of `GetInstance` by any number of threads interleave, at most one object is made,
-- and a call that has returned gave that object, never the null pointer.
pub run-once :
    (acts : List ℕ) (i : ℕ) (p : Option ℕ)
    → (run acts handleton).callers i ≡ returned p
    → (p ≡ some 0) × ((run acts handleton).made ≤ 1) × ((run acts handleton).the_object ≡ some 0)
run-once acts i p e =
    let v = run-Inv acts handleton handleton-Inv in (v.unique i p e, v.one, v.stays i p e)
