-- ===== src/Plugins/Destruction.antt =====
-- Which objects the destructor of a `DLLoader` closes.
use mathlib.Core.List.{append_assoc, append-nil}
use distributed_nas.Base.{
  ℕ, zero, suc, ◌<◌, ◌≤◌, ◌≡◌, refl, ap, ◌∙◌, List, [], ◌∷◌, ◌++◌, map, Option, none, some, arith,
  length, length-append, get_elem?, done,
}
use distributed_nas.Plugins.{erase_at, destroy_loop, destroy}

-- Every other element, from the first one and from the second one.
abbrev pub evens {ℓ} : {A : Type ℓ} → List A → List A
evens [] = []
evens (x ∷ []) = x ∷ []
evens (x ∷ y ∷ xs) = x ∷ evens xs

abbrev pub odds {ℓ} : {A : Type ℓ} → List A → List A
odds [] = []
odds (x ∷ []) = []
odds (x ∷ y ∷ xs) = y ∷ odds xs

get_elem?-append :
    {A : Type 0} (pre rest : List A) (x : A) → get_elem? (pre ++ x ∷ rest) (length pre) ≡ some x
get_elem?-append [] rest x = refl
get_elem?-append (p ∷ pre) rest x = get_elem?-append pre rest x

get_elem?-beyond : {A : Type 0} (xs : List A) (i : ℕ) → length xs ≤ i → get_elem? xs i ≡ none
get_elem?-beyond [] i h = refl
get_elem?-beyond (x ∷ xs) zero h = absurd (omega arith)
get_elem?-beyond (x ∷ xs) (suc i) h = get_elem?-beyond xs i (omega arith)

erase_at-append :
    {A : Type 0} (pre rest : List A) (x : A) → erase_at (length pre) (pre ++ x ∷ rest) ≡ pre ++ rest
erase_at-append [] rest x = refl
erase_at-append (p ∷ pre) rest x = ap (◌∷◌ p) (erase_at-append pre rest x)

destroy_loop-step :
    (fuel h : ℕ) (pre rest : List (Option ℕ)) (handles : List ℕ)
    → destroy_loop (suc fuel) (length pre) (pre ++ some h ∷ rest) handles
      ≡ destroy_loop fuel (suc (length pre)) (pre ++ rest) (handles ++ h ∷ [])
unfolding destroy_loop
destroy_loop-step fuel h pre rest handles =
    rw (destroy_loop, get_elem?-append pre rest (some h), erase_at-append pre rest (some h))

destroy_loop-end :
    (fuel i : ℕ) (m_so : List (Option ℕ)) (handles : List ℕ)
    → 0 < fuel
    → length m_so ≤ i
    → destroy_loop fuel i m_so handles ≡ done (handles, m_so)
unfolding destroy_loop
destroy_loop-end zero i m_so handles f h = absurd (omega arith)
destroy_loop-end (suc fuel) i m_so handles f h = rw (destroy_loop, get_elem?-beyond m_so i h)

destroy_loop-evens :
    (fuel : ℕ) (pre : List (Option ℕ)) (opened handles : List ℕ)
    → length opened < fuel
    → destroy_loop fuel (length pre) (pre ++ map some opened) handles
      ≡ done (handles ++ evens opened, pre ++ map some (odds opened))
destroy_loop-evens zero pre opened handles f = absurd (omega arith)
destroy_loop-evens (suc fuel) pre [] handles f =
    destroy_loop-end (suc fuel) (length pre) (pre ++ []) handles (omega arith)
      (omega (arith, length-append pre []))
    ∙ rw (append-nil handles) refl
destroy_loop-evens (suc fuel) pre (x ∷ []) handles f =
    destroy_loop-step fuel x pre [] handles
    ∙ destroy_loop-end fuel (suc (length pre)) (pre ++ []) (handles ++ x ∷ []) (omega arith)
        (omega (arith, length-append pre []))
destroy_loop-evens (suc fuel) pre (x ∷ y ∷ opened) handles f =
    let longer : length (pre ++ some y ∷ []) ≡ suc (length pre) =
      omega (arith, length-append pre (some y ∷ [])) in
    let next =
      destroy_loop-evens fuel (pre ++ some y ∷ []) opened (handles ++ x ∷ []) (omega arith) in
    destroy_loop-step fuel x pre (some y ∷ map some opened) handles
    ∙ rw
        (
          longer,
          append_assoc pre (some y ∷ []) (map some opened),
          append_assoc pre (some y ∷ []) (map some (odds opened)),
          append_assoc handles (x ∷ []) (evens opened),
        )
        at next

-- The destructor of a loader whose objects are all open, with fuel for one round more than it has
-- objects, returns, has closed every other object, from the first one on, and has left the rest open:
-- it erases at the iterator, which moves the next object there, and then steps over that one.
pub destroy-evens :
    (fuel : ℕ) (opened : List ℕ)
    → length opened < fuel
    → destroy fuel (map some opened) ≡ done (evens opened, map some (odds opened))
unfolding destroy
destroy-evens fuel opened f = destroy_loop-evens fuel [] opened [] f
