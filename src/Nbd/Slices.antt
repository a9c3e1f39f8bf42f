-- ===== src/Nbd/Slices.antt =====
-- Ranges of a list of bytes of which a part is replaced.
use distributed_nas.Base.{
  ℕ, zero, suc, ◌+◌, ◌-◌, ◌≤◌, ◌≡◌, refl, ap, ◌∙◌, sym, List, [], ◌∷◌, ◌++◌, arith, length, take,
  drop, length-take, take-append,
}

pub drop_of_length :
    (xs ys : List ℕ) (n m : ℕ) → length xs ≡ n → drop (n + m) (xs ++ ys) ≡ drop m ys
drop_of_length [] ys n m e = rw (← e) (ap (λ k. drop k ys) (omega arith))
drop_of_length (x ∷ xs) ys zero m e = absurd (omega arith)
drop_of_length (x ∷ xs) ys (suc n) m e =
    let k : suc n + m ≡ suc (n + m) = omega arith in rw k (drop_of_length xs ys n m (omega arith))

drop-nil : (n : ℕ) → drop {A = ℕ} n [] ≡ []
drop-nil zero = refl
drop-nil (suc n) = refl

drop-drop : (n m : ℕ) (xs : List ℕ) → drop m (drop n xs) ≡ drop (n + m) xs
drop-drop zero m xs = ap (λ k. drop k xs) (omega arith)
drop-drop (suc n) m [] = drop-nil m ∙ sym (drop-nil (suc n + m))
drop-drop (suc n) m (x ∷ xs) =
    let k : suc n + m ≡ suc (n + m) = omega arith in rw k (drop-drop n m xs)

-- The list with `xs` in place of the bytes from `from` on.
abbrev pub spliced : ℕ → List ℕ → List ℕ → List ℕ
spliced from xs b = take from b ++ (xs ++ drop (from + length xs) b)

pub slice-spliced_self :
    (from : ℕ) (xs b : List ℕ)
    → from + length xs ≤ length b
    → take (length xs) (drop from (spliced from xs b)) ≡ xs
slice-spliced_self from xs b h =
    let z : from + 0 ≡ from = omega arith in
    let d =
      drop_of_length (take from b) (xs ++ drop (from + length xs) b) from 0
        (omega (arith, length-take from b)) in
    ap (take (length xs)) (rw z at d) ∙ take-append xs (drop (from + length xs) b)

slice-take :
    (n o from : ℕ) (b r : List ℕ)
    → o + n ≤ from
    → from ≤ length b
    → take n (drop o (take from b ++ r)) ≡ take n (drop o b)
slice-take n o zero b r h k = let e : n ≡ 0 = omega arith in rw e
slice-take n o (suc from) [] r h k = absurd (omega arith)
slice-take zero zero (suc from) (x ∷ b) r h k = refl
slice-take (suc n) zero (suc from) (x ∷ b) r h k =
    ap (◌∷◌ x) (slice-take n 0 from b r (omega arith) (omega arith))
slice-take n (suc o) (suc from) (x ∷ b) r h k = slice-take n o from b r (omega arith) (omega arith)

-- Below the part that is replaced, and above it, every range is as before.
pub slice-spliced_below :
    (n o from : ℕ) (xs b : List ℕ)
    → o + n ≤ from
    → from ≤ length b
    → take n (drop o (spliced from xs b)) ≡ take n (drop o b)
slice-spliced_below n o from xs b = slice-take n o from b (xs ++ drop (from + length xs) b)

pub slice-spliced_above :
    (n o from : ℕ) (xs b : List ℕ)
    → from + length xs ≤ o
    → from ≤ length b
    → take n (drop o (spliced from xs b)) ≡ take n (drop o b)
slice-spliced_above n o from xs b h k =
    let m = o - (from + length xs) in
    let whole : from + (length xs + m) ≡ o = omega arith in
    let sum : from + length xs + m ≡ o = omega arith in
    let past_front =
      drop_of_length (take from b) (xs ++ drop (from + length xs) b) from (length xs + m)
        (omega (arith, length-take from b)) in
    let past_xs = drop_of_length xs (drop (from + length xs) b) (length xs) m refl in
    let past_both = drop-drop (from + length xs) m b in
    ap (take n) (rw whole at past_front ∙ past_xs ∙ (rw sum at past_both))
