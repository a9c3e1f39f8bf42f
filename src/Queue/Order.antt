-- ===== src/Queue/Order.antt =====
-- The element that leaves a priority queue.
use mathlib.Core.List.{Perm}
use mathlib.Core.List.Perm
use distributed_nas.Base.{
  ℕ, suc, ◌≡◌, refl, ap, sym, subst, ◌⊎◌, inl, inr, Bool, true, false, List, [], ◌∷◌, map, arith,
  ltb, All, Bool-cases, if◌then◌else◌, length,
}
use distributed_nas.Queue.{extract}

-- `Compare` is a strict weak order, as `std::priority_queue` asks.
pub record StrictWeakOrder {ℓ} {A : Type ℓ} (comp : A → A → Bool) : Type ℓ where
  pub asymm : (x y : A) → comp x y ≡ true → comp y x ≡ false
  pub comparable : (x y z : A) → comp x z ≡ true → (comp x y ≡ true) ⊎ (comp y z ≡ true)

-- The order by falling keys.
pub by_key {ℓ} : {A : Type ℓ} (key : A → ℕ) → StrictWeakOrder (λ (x y : A). ltb (key y) (key x))
by_key key = record { asymm = λ x y h. ground arith; comparable = λ x y z h. ground arith }

module _ {ℓ} {A : Type ℓ} (comp : A → A → Bool) where
  pub extract-perm :
      (x : A) (q : List A) → Perm (x ∷ q) ((extract comp x q).0 ∷ (extract comp x q).1)
  unfolding extract
  extract-perm x [] = Perm.refl (x ∷ [])
  extract-perm x (y ∷ ys) = elim (Bool-cases (comp x y)) [
    | inl e ↦ rw e (
        Perm.trans (Perm.cons x (extract-perm y ys))
          (Perm.swap (extract comp y ys).0 x (extract comp y ys).1))
    | inr e ↦ rw e (
        Perm.trans (Perm.swap y x ys) (
          Perm.trans (Perm.cons y (extract-perm x ys))
            (Perm.swap (extract comp x ys).0 y (extract comp x ys).1)))
  ]

  -- No element comes before it.
  abbrev pub IsFirst : A → List A → Type 0
  IsFirst x = All (λ y. comp x y ≡ false)

  pub extract-later :
      (x y : A) (ys : List A)
      → comp x y ≡ true
      → extract comp x (y ∷ ys) ≡ ((extract comp y ys).0, x ∷ (extract comp y ys).1)
  unfolding extract
  extract-later x y ys e = rw e

  pub extract-earlier :
      (x y : A) (ys : List A)
      → comp x y ≡ false
      → extract comp x (y ∷ ys) ≡ ((extract comp x ys).0, y ∷ (extract comp x ys).1)
  unfolding extract
  extract-earlier x y ys e = rw e

  module _ (o : StrictWeakOrder comp) where
    -- What is not before `r` is not before it through one that comes later or as late.
    not_before : (r x y : A) → comp r y ≡ false → comp y x ≡ false → comp r x ≡ false
    not_before r x y h k = elim (Bool-cases (comp r x)) [
      | inr e ↦ e
      | inl e ↦ elim (o.comparable r y x e) [ inl f ↦ cc | inr f ↦ cc ]
    ]

    irrefl : (x : A) → comp x x ≡ false
    irrefl x = elim (Bool-cases (comp x x)) [ inl e ↦ o.asymm x x e | inr e ↦ e ]

    -- The element that leaves has none before it among the others.
    pub extract-IsFirst :
        (x : A) (q : List A)
        → (comp (extract comp x q).0 x ≡ false) × IsFirst (extract comp x q).0 (extract comp x q).1
    unfolding extract
    extract-IsFirst x [] = (irrefl x, tt)
    extract-IsFirst x (y ∷ ys) = elim (Bool-cases (comp x y)) [
      | inl e ↦
          let (h, rest) = extract-IsFirst y ys in
          let g = not_before (extract comp y ys).0 x y h (o.asymm x y e) in
          subst P (sym (extract-later x y ys e)) (g, (g, rest))
      | inr e ↦
          let (h, rest) = extract-IsFirst x ys in
          subst P (sym (extract-earlier x y ys e))
            (h, (not_before (extract comp x ys).0 y x h e, rest))
    ]
      where
        P : A × List A → Type 0
        P r = (comp r.0 x ≡ false) × IsFirst r.0 r.1

-- A map that respects the orders commutes with leaving.
pub extract-map {ℓ κ} :
    {A : Type ℓ} {B : Type κ} (comp : A → A → Bool) (later : B → B → Bool) (f : A → B)
    → ((x y : A) → later (f x) (f y) ≡ comp x y)
    → (x : A) (q : List A)
    → extract later (f x) (map f q) ≡ (f (extract comp x q).0, map f (extract comp x q).1)
unfolding extract
extract-map comp later f same x [] = refl
extract-map comp later f same x (y ∷ ys) = elim (Bool-cases (comp x y)) [
  | inl e ↦ rw (same x y, e, extract-map comp later f same y ys)
  | inr e ↦ rw (same x y, e, extract-map comp later f same x ys)
]

-- What holds of all elements holds of the one that leaves and of the others.
pub extract-All {ℓ κ} :
    {A : Type ℓ} (comp : A → A → Bool) (P : A → Type κ) (x : A) (q : List A)
    → P x
    → All P q
    → P (extract comp x q).0 × All P (extract comp x q).1
unfolding extract
extract-All comp P x [] h hs = (h, tt)
extract-All comp P x (y ∷ ys) h (g, hs) = elim (Bool-cases (comp x y)) [
  | inl e ↦ rw e (let (a, others) = extract-All comp P y ys g hs in (a, (h, others)))
  | inr e ↦ rw e (let (a, others) = extract-All comp P x ys h hs in (a, (g, others)))
]

pub length-extract {ℓ} :
    {A : Type ℓ} (comp : A → A → Bool) (x : A) (q : List A) → length (extract comp x q).1 ≡ length q
unfolding extract
length-extract comp x [] = refl
length-extract comp x (y ∷ ys) = ap suc (length-extract comp (if comp x y then y else x) ys)
