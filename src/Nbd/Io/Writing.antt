-- ===== src/Nbd/Io/Writing.antt =====
-- What `write_all` does when the kernel splits its calls.
use distributed_nas.Base.{
  ℕ, zero, suc, ◌-◌, ◌≤◌, ◌≡◌, refl, ap, ◌∙◌, List, [], ◌∷◌, ◌++◌, map, arith, length, take, drop,
  length-drop,
}
use distributed_nas.Nbd.Io.{WriteCall, wrote, done, Sink, advance, write_loop, write_all}

-- The calls take at least a byte each, and `n` bytes in all.
abbrev pub Takes : List ℕ → ℕ → Type 0
Takes [] n = n ≡ 0
Takes (k ∷ ks) n = (1 ≤ k) × (k ≤ n) × Takes ks (n - k)

-- The next calls of `write` take `n` bytes in all, at least one each, and `rest` comes after.
abbrev pub Accepts : List WriteCall → ℕ → List WriteCall → Type 0
Accepts calls n rest = (ks : List ℕ) × Takes ks n × (calls ≡ map wrote ks ++ rest)

advance-drop : (n : ℕ) (back rest : List ℕ) → (advance n back rest).1 ≡ drop n rest
advance-drop zero back rest = refl
advance-drop (suc n) back [] = refl
advance-drop (suc n) back (b ∷ rest) = advance-drop n (b ∷ back) rest

pub take-append-drop : (n : ℕ) (xs : List ℕ) → take n xs ++ drop n xs ≡ xs
take-append-drop zero xs = refl
take-append-drop (suc n) [] = refl
take-append-drop (suc n) (x ∷ xs) = ap (◌∷◌ x) (take-append-drop n xs)

module _ {ℓ} {S : Type ℓ} (k : Sink S) where
  write_loop-Takes :
      (ks : List ℕ) (rest : List WriteCall) (back buf : List ℕ) (s : S)
      → Takes ks (length buf)
      → write_loop k (map wrote ks ++ rest) back buf s ≡ done (k.put buf s, rest)
  unfolding write_loop
  write_loop-Takes [] rest back [] s t = rw (k.put-nil s)
  write_loop-Takes [] rest back (b ∷ buf) s t = absurd (omega arith)
  write_loop-Takes (n ∷ ks) rest back [] s t = absurd (omega (arith, t.0, t.1))
  write_loop-Takes (n ∷ ks) rest back (b ∷ buf) s t =
      let p = advance n back (b ∷ buf) in
      let e : p.1 ≡ drop n (b ∷ buf) = advance-drop n back (b ∷ buf) in
      let left : length p.1 ≡ length (b ∷ buf) - n = ap length e ∙ length-drop n (b ∷ buf) in
      write_loop-Takes ks rest p.0 p.1 (k.put (take n (b ∷ buf)) s) (rw left t.2)
      ∙ ap (λ x. done (x, rest))
          (k.put-append (take n (b ∷ buf)) p.1 s
            ∙ ap (λ x. k.put x s) (rw e (take-append-drop n (b ∷ buf))))

  -- However the kernel splits the calls of `write`, each taking at least one byte and all of them
  -- the length of the buffer, `write_all` returns and has put the whole buffer in order.
  pub write_all-Takes :
      (ks : List ℕ) (rest : List WriteCall) (buf : List ℕ) (s : S)
      → Takes ks (length buf)
      → write_all k (map wrote ks ++ rest) buf s ≡ done (k.put buf s, rest)
  unfolding write_all
  write_all-Takes ks rest buf s t = write_loop-Takes ks rest [] buf s t

  pub write_all-Accepts :
      (calls rest : List WriteCall) (buf : List ℕ) (s : S)
      → Accepts calls (length buf) rest
      → write_all k calls buf s ≡ done (k.put buf s, rest)
  write_all-Accepts calls rest buf s (ks, t, e) = rw e (write_all-Takes ks rest buf s t)
