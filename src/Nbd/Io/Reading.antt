-- ===== src/Nbd/Io/Reading.antt =====
-- What `read_all` gives back when the kernel cuts the stream, when a call of `read` fails, and when
-- the stream ends.
use mathlib.Core.List.{append-nil, append_assoc, flatten}
use distributed_nas.Base.{
  ℕ, zero, suc, ◌+◌, ◌-◌, ◌≤◌, ◌≡◌, refl, ap, ◌∙◌, List, [], ◌∷◌, ◌++◌, map, arith, length,
  length-append, replicate,
}
use distributed_nas.Nbd.Io.{
  ReadCall, got, eof, failed, done, waiting, read_loop, read_all, but_last,
}

-- Every call delivers at least one byte.
abbrev pub Delivers : List (List ℕ) → Type 0
Delivers [] = Unit
Delivers (c ∷ cs) = (1 ≤ length c) × Delivers cs

read_loop-got :
    (bs : List ℕ) (calls : List ReadCall) (n : ℕ) (buf : List ℕ)
    → 1 ≤ n
    → read_loop (got bs ∷ calls) n buf ≡ read_loop calls (n - length bs) (buf ++ bs)
unfolding read_loop
read_loop-got bs calls zero buf h = absurd (omega arith)
read_loop-got bs calls (suc n) buf h = refl

read_loop-zero :
    (calls : List ReadCall) (n : ℕ) (buf : List ℕ)
    → n ≡ 0
    → read_loop calls n buf ≡ done (buf, calls)
unfolding read_loop
read_loop-zero calls n buf h = rw (h, read_loop)

read_loop-chunks :
    (cs : List (List ℕ)) (rest : List ReadCall) (n : ℕ) (buf : List ℕ)
    → Delivers cs
    → n ≡ length (flatten cs)
    → read_loop (map got cs ++ rest) n buf ≡ done (buf ++ flatten cs, rest)
unfolding flatten
read_loop-chunks [] rest n buf d e = rw (append-nil buf) (read_loop-zero rest n buf e)
read_loop-chunks (c ∷ cs) rest n buf d e =
    let whole = length-append c (flatten cs) in
    read_loop-got c (map got cs ++ rest) n buf (omega arith)
    ∙ rw (← append_assoc buf c (flatten cs))
        (read_loop-chunks cs rest (n - length c) (buf ++ c) d.1 (omega arith))

-- However the stream is cut into the calls of `read`, each with at least one byte, `read_all` of
-- their total length returns, with exactly their bytes in order, and makes no further call.
pub read_all-chunks :
    (cs : List (List ℕ)) (rest : List ReadCall)
    → Delivers cs
    → read_all (map got cs ++ rest) (length (flatten cs)) ≡ done (flatten cs, rest)
unfolding read_all
read_all-chunks cs rest d = read_loop-chunks cs rest (length (flatten cs)) [] d refl

-- The next calls of `read` deliver `bs`, in pieces of at least one byte, and `rest` comes after.
abbrev pub Supplies : List ReadCall → List ℕ → List ReadCall → Type 0
Supplies calls bs rest =
    (cs : List (List ℕ)) × Delivers cs × (flatten cs ≡ bs) × (calls ≡ map got cs ++ rest)

pub read_all-Supplies :
    (calls rest : List ReadCall) (bs : List ℕ) (n : ℕ)
    → Supplies calls bs rest
    → n ≡ length bs
    → read_all calls n ≡ done (bs, rest)
read_all-Supplies calls rest bs n (cs, d, whole, e) h =
    rw (e, h, ← whole) (read_all-chunks cs rest d)

read_loop-eofs : (k n : ℕ) (buf : List ℕ) → read_loop (replicate k eof) (suc n) buf ≡ waiting
unfolding read_loop
read_loop-eofs zero n buf = refl
read_loop-eofs (suc k) n buf = read_loop-eofs k n buf

-- If the stream ends after fewer bytes than were asked for, `read_all` does not return, however
-- often `read` reports the end.
pub read_all-ended :
    (bs : List ℕ) (k missing : ℕ)
    → read_all (got bs ∷ replicate k eof) (length bs + suc missing) ≡ waiting
unfolding read_all
read_all-ended bs k m =
    let left : length bs + suc m - length bs ≡ suc m = omega arith in
    read_loop-got bs (replicate k eof) (length bs + suc m) [] (omega arith)
    ∙ rw left (read_loop-eofs k m bs)

but_last-append : (x b : ℕ) (xs : List ℕ) → but_last (x ∷ xs ++ b ∷ []) ≡ x ∷ xs
but_last-append x b [] = refl
but_last-append x b (y ∷ ys) = ap (◌∷◌ x) (but_last-append y b ys)

read_loop-failed :
    (calls : List ReadCall) (n b : ℕ) (buf : List ℕ)
    → 1 ≤ n
    → read_loop (failed ∷ calls) n (buf ++ b ∷ []) ≡ read_loop calls (suc n) buf
unfolding read_loop
read_loop-failed calls zero b buf h = absurd (omega arith)
read_loop-failed calls (suc n) b [] h = refl
read_loop-failed calls (suc n) b (x ∷ buf) h = rw (but_last-append x b buf)

-- A call of `read` that fails between two that deliver makes `read_all` lose the last byte `b` of
-- the first and report success: the buffer holds `xs` and `ys` without it.
pub read_all-failed :
    (xs ys : List ℕ) (b : ℕ) (rest : List ReadCall)
    → 2 ≤ length ys
    → read_all (got (xs ++ b ∷ []) ∷ failed ∷ got ys ∷ rest) (length xs + length ys)
      ≡ done (xs ++ ys, rest)
unfolding read_all
read_all-failed xs ys b rest h =
    let n = length xs + length ys in
    let first = length-append xs (b ∷ []) in
    read_loop-got (xs ++ b ∷ []) (failed ∷ got ys ∷ rest) n [] (omega arith)
    ∙ read_loop-failed (got ys ∷ rest) (n - length (xs ++ b ∷ [])) b xs (omega arith)
    ∙ read_loop-got ys rest (suc (n - length (xs ++ b ∷ []))) xs (omega arith)
    ∙ read_loop-zero rest (suc (n - length (xs ++ b ∷ [])) - length ys) (xs ++ ys) (omega arith)
