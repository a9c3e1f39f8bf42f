-- ===== src/Nbd/Image.antt =====
-- A file of a fixed size, as an instance of `Disk`. A byte that is put beyond the end is lost.
use distributed_nas.Base.{
  ℕ, zero, suc, ◌+◌, ◌≤◌, ◌<◌, ◌≡◌, refl, ap, ◌∙◌, sym, List, [], ◌∷◌, ◌++◌, arith, length,
  length-set, take, drop, set, ℤ, pos, negsuc,
}
use distributed_nas.Nbd.Io.Writing.{take-append-drop}
use distributed_nas.Nbd.Server.{Disk}

pub record Image : Type 0 where
  pub content : List ℕ
  pub at : ℕ

-- A byte beyond the end is lost.
abbrev pub put_bytes : List ℕ → Image → Image
put_bytes [] f = f
put_bytes (x ∷ xs) f = put_bytes xs (record { content = set f.content f.at x; at = suc f.at })

abbrev pub seek_image : ℤ → Image → Image
seek_image (pos n) f = record f { at = n }
seek_image (negsuc n) f = f

pub put_bytes-append :
    (xs ys : List ℕ) (f : Image) → put_bytes ys (put_bytes xs f) ≡ put_bytes (xs ++ ys) f
put_bytes-append [] ys f = refl
put_bytes-append (x ∷ xs) ys f = put_bytes-append xs ys _

pub content-seek_image : (z : ℤ) (f : Image) → (seek_image z f).content ≡ f.content
content-seek_image (pos n) f = refl
content-seek_image (negsuc n) f = refl

take-set :
    (b : List ℕ) (p x : ℕ) (zs : List ℕ)
    → p < length b
    → take (suc p) (set b p x) ++ zs ≡ take p b ++ (x ∷ zs)
take-set [] p x zs h = absurd (omega arith)
take-set (c ∷ b) zero x zs h = refl
take-set (c ∷ b) (suc p) x zs h = ap (◌∷◌ c) (take-set b p x zs (omega arith))

drop-set : (b : List ℕ) (p k x : ℕ) → p < k → drop k (set b p x) ≡ drop k b
drop-set b p zero x h = absurd (omega arith)
drop-set [] p (suc k) x h = refl
drop-set (c ∷ b) zero (suc k) x h = refl
drop-set (c ∷ b) (suc p) (suc k) x h = drop-set b p k x (omega arith)

pub content-put_bytes :
    (xs : List ℕ) (f : Image)
    → f.at + length xs ≤ length f.content
    → (put_bytes xs f).content ≡ take f.at f.content ++ (xs ++ drop (f.at + length xs) f.content)
content-put_bytes [] f h =
    let e : f.at + 0 ≡ f.at = omega arith in sym (rw e (take-append-drop f.at f.content))
content-put_bytes (x ∷ xs) f h =
    let b = f.content in
    let next : f.at + suc (length xs) ≡ suc f.at + length xs = omega arith in
    content-put_bytes xs (record { content = set b f.at x; at = suc f.at })
      (omega (arith, length-set b f.at x))
    ∙ rw (next, drop-set b f.at (suc f.at + length xs) x (omega arith))
        (take-set b f.at x (xs ++ drop (suc f.at + length xs) b) (omega arith))

pub at-put_bytes : (xs : List ℕ) (f : Image) → (put_bytes xs f).at ≡ f.at + length xs
at-put_bytes [] f = omega arith
at-put_bytes (x ∷ xs) f =
    omega (arith, at-put_bytes xs (record { content = set f.content f.at x; at = suc f.at }))

abbrev pub image_disk : Disk
image_disk = record {
  File = Image;
  bytes = λ f. f.content;
  position = λ f. f.at;
  seek = seek_image;
  moved = λ n f. record f { at = f.at + n };
  sink = record { put = put_bytes; put-nil = λ f. refl; put-append = put_bytes-append };
  position-seek = λ n f. refl;
  bytes-seek = content-seek_image;
  bytes-moved = λ n f. refl;
  position-put = at-put_bytes;
  bytes-put = content-put_bytes;
}
