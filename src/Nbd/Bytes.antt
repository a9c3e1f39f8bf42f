-- ===== src/Nbd/Bytes.antt =====
-- The words of nbdproxy.cpp: bytes in memory on a little-endian host, and `ntohl`, `htonl` and
-- `be64toh` of <netinet/in.h> and <endian.h>, which reverse the bytes of a word there.
use mathlib.Core.List.{reverse, reverse-cons, reverse-reverse}
use native.Mathlib.Nat.{pow-suc}
use distributed_nas.Base.{
  ℕ, zero, suc, ◌+◌, ◌*◌, ◌/◌, ◌%◌, ◌^◌, ◌<◌, ◌≡◌, refl, ap, ◌∙◌, subst, List, [], ◌∷◌, ◌++◌, arith,
  length, length-append,
}

-- The bytes of a word in memory, least significant first.
unfoldable pub le_bytes : ℕ → ℕ → List ℕ
le_bytes zero x = []
le_bytes (suc w) x = x % 256 ∷ le_bytes w (x / 256)

-- The word that bytes in memory hold.
unfoldable pub of_le : List ℕ → ℕ
of_le [] = 0
of_le (b ∷ bs) = b + 256 * of_le bs

-- The word with its bytes in the other order.
pub swap_bytes : ℕ → ℕ → ℕ
unfolding le_bytes of_le
swap_bytes w x = of_le (reverse (le_bytes w x))

unfoldable pub ntohl : ℕ → ℕ
unfolding swap_bytes
ntohl = swap_bytes 4

unfoldable pub htonl : ℕ → ℕ
unfolding swap_bytes
htonl = swap_bytes 4

unfoldable pub be64toh : ℕ → ℕ
unfolding swap_bytes
be64toh = swap_bytes 8

-- The bytes of a word on the network, most significant first.
unfoldable pub be_bytes : ℕ → ℕ → List ℕ
unfolding le_bytes
be_bytes w x = reverse (le_bytes w x)

-- Every byte lies below 256.
abbrev pub AreBytes : List ℕ → Type 0
AreBytes [] = Unit
AreBytes (b ∷ bs) = (b < 256) × AreBytes bs

pub length-le_bytes : (w x : ℕ) → length (le_bytes w x) ≡ w
unfolding le_bytes
length-le_bytes zero x = refl
length-le_bytes (suc w) x = ap suc (length-le_bytes w (x / 256))

pub of_le-le_bytes : (w x : ℕ) → x < 256 ^ w → of_le (le_bytes w x) ≡ x
unfolding le_bytes of_le
of_le-le_bytes zero x h = omega arith
of_le-le_bytes (suc w) x h =
    let small : x < 256 ^ w * 256 = rw (pow-suc 256 w) at h in
    omega (arith, of_le-le_bytes w (x / 256) (omega arith))

le_bytes-of_le : (bs : List ℕ) → AreBytes bs → le_bytes (length bs) (of_le bs) ≡ bs
unfolding le_bytes of_le
le_bytes-of_le [] h = refl
le_bytes-of_le (b ∷ bs) h =
    let low : (b + 256 * of_le bs) % 256 ≡ b = omega (arith, h.0) in
    let high : (b + 256 * of_le bs) / 256 ≡ of_le bs = omega (arith, h.0) in
    rw (low, high, le_bytes-of_le bs h.1)

AreBytes-append : (xs ys : List ℕ) → AreBytes xs → AreBytes ys → AreBytes (xs ++ ys)
AreBytes-append [] ys h k = k
AreBytes-append (x ∷ xs) ys h k = (h.0, AreBytes-append xs ys h.1 k)

AreBytes-reverse : (xs : List ℕ) → AreBytes xs → AreBytes (reverse xs)
AreBytes-reverse [] h = tt
AreBytes-reverse (x ∷ xs) h =
    rw (reverse-cons x xs)
      (AreBytes-append (reverse xs) (x ∷ []) (AreBytes-reverse xs h.1) (h.0, tt))

AreBytes-le_bytes : (w x : ℕ) → AreBytes (le_bytes w x)
unfolding le_bytes
AreBytes-le_bytes zero x = tt
AreBytes-le_bytes (suc w) x = (omega arith, AreBytes-le_bytes w (x / 256))

length-reverse : (xs : List ℕ) → length (reverse xs) ≡ length xs
length-reverse [] = refl
length-reverse (x ∷ xs) =
    omega
      (arith, ap length (reverse-cons x xs), length-append (reverse xs) (x ∷ []), length-reverse xs)

pub length-be_bytes : (w x : ℕ) → length (be_bytes w x) ≡ w
unfolding be_bytes
length-be_bytes w x = length-reverse (le_bytes w x) ∙ length-le_bytes w x

le_bytes-of_le-be_bytes : (w x : ℕ) → le_bytes w (of_le (be_bytes w x)) ≡ be_bytes w x
le_bytes-of_le-be_bytes w x =
    subst (λ n. le_bytes n (of_le (be_bytes w x)) ≡ be_bytes w x) (length-be_bytes w x)
      (le_bytes-of_le (be_bytes w x) are)
  where
    are : AreBytes (be_bytes w x)
    are = unfold be_bytes in AreBytes-reverse (le_bytes w x) (AreBytes-le_bytes w x)

reverse-be_bytes : (w x : ℕ) → reverse (be_bytes w x) ≡ le_bytes w x
unfolding be_bytes
reverse-be_bytes w x = reverse-reverse (le_bytes w x)

-- A word sent most significant byte first, loaded from memory and swapped, is the word.
pub swap_bytes-be_bytes : (w x : ℕ) → x < 256 ^ w → swap_bytes w (of_le (be_bytes w x)) ≡ x
unfolding swap_bytes
swap_bytes-be_bytes w x h =
    rw (le_bytes-of_le-be_bytes w x) (ap of_le (reverse-be_bytes w x) ∙ of_le-le_bytes w x h)

pub ntohl-be_bytes : (x : ℕ) → x < 2 ^ 32 → ntohl (of_le (be_bytes 4 x)) ≡ x
unfolding ntohl
ntohl-be_bytes x h = swap_bytes-be_bytes 4 x h

pub be64toh-be_bytes : (x : ℕ) → x < 2 ^ 64 → be64toh (of_le (be_bytes 8 x)) ≡ x
unfolding be64toh
be64toh-be_bytes x h = swap_bytes-be_bytes 8 x h

-- The bytes in memory of `htonl x` are those of `x` on the network.
pub le_bytes-htonl : (x : ℕ) → le_bytes 4 (htonl x) ≡ be_bytes 4 x
unfolding htonl swap_bytes be_bytes
le_bytes-htonl x = le_bytes-of_le-be_bytes 4 x
