-- ===== src/Queue/Leaving.antt =====
-- The order in which the elements leave a priority queue.
use mathlib.Core.List.{Perm}
use mathlib.Core.List.Perm
use distributed_nas.Base.{ℕ, zero, suc, ◌≡◌, Bool, false, List, [], ◌∷◌, arith, All, length}
use distributed_nas.Queue.{extract}
use distributed_nas.Queue.Order.{
  StrictWeakOrder, IsFirst, extract-perm, extract-IsFirst, extract-All, length-extract,
}

module _ {ℓ} {A : Type ℓ} (comp : A → A → Bool) where
  -- For as many as `n`.
  abbrev pub leaving : ℕ → List A → List A
  leaving zero xs = []
  leaving (suc n) [] = []
  leaving (suc n) (x ∷ xs) = (extract comp x xs).0 ∷ leaving n (extract comp x xs).1

  -- None comes before one that leaves earlier.
  abbrev pub IsInOrder : List A → Type 0
  IsInOrder [] = Unit
  IsInOrder (x ∷ xs) = IsFirst comp x xs × IsInOrder xs

  pub leaving-perm : (n : ℕ) (xs : List A) → length xs ≡ n → Perm xs (leaving n xs)
  leaving-perm zero [] e = Perm.refl []
  leaving-perm zero (x ∷ xs) e = absurd (omega arith)
  leaving-perm (suc n) [] e = absurd (omega arith)
  leaving-perm (suc n) (x ∷ xs) e = Perm.trans (extract-perm comp x xs) (
      Perm.cons (extract comp x xs).0
        (leaving-perm n (extract comp x xs).1 (omega (arith, length-extract comp x xs))))

  pub leaving-All : (P : A → Type 0) (n : ℕ) (xs : List A) → All P xs → All P (leaving n xs)
  leaving-All P zero xs h = tt
  leaving-All P (suc n) [] h = tt
  leaving-All P (suc n) (x ∷ xs) (h, hs) =
      let (first, rest) = extract-All comp P x xs h hs in
      (first, leaving-All P n (extract comp x xs).1 rest)

  pub leaving-IsInOrder : StrictWeakOrder comp → (n : ℕ) (xs : List A) → IsInOrder (leaving n xs)
  leaving-IsInOrder o zero xs = tt
  leaving-IsInOrder o (suc n) [] = tt
  leaving-IsInOrder o (suc n) (x ∷ xs) =
      let r = extract comp x xs in
      (
        leaving-All (λ y. comp r.0 y ≡ false) n r.1 (extract-IsFirst comp o x xs).1,
        leaving-IsInOrder o n r.1,
      )
