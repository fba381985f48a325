-- ===== src/Audit/Bytes.antt =====
-- Byte strings as lists of byte values, and `int.to_bytes(8, "big")`.
use native.Mathlib.Nat.{pow-suc}
use noema.Prelude.{
  ℕ, zero, suc, ◌/◌, ◌%◌, ◌^◌, ◌<◌, ◌≡◌, refl, sym, ◌∙◌, Bool, true, false, ◌&&◌, ◌==◌, List, [],
  ◌∷◌, ◌++◌, length, length-append, arith,
}

abbrev pub Bytes : Type 0
Bytes = List ℕ

-- `hmac.compare_digest` on byte strings.
unfoldable pub compare_digest : Bytes → Bytes → Bool
compare_digest [] [] = true
compare_digest [] (y ∷ ys) = false
compare_digest (x ∷ xs) [] = false
compare_digest (x ∷ xs) (y ∷ ys) = (x == y) && compare_digest xs ys

pub compare_digest_self : (xs : Bytes) → compare_digest xs xs ≡ true
unfolding compare_digest
compare_digest_self [] = refl
compare_digest_self (x ∷ xs) = ground (arith, compare_digest_self xs)

pub compare_digest-eq : (xs ys : Bytes) → compare_digest xs ys ≡ true → xs ≡ ys
unfolding compare_digest
compare_digest-eq [] [] h = refl
compare_digest-eq [] (y ∷ ys) h = ground arith
compare_digest-eq (x ∷ xs) [] h = ground arith
compare_digest-eq (x ∷ xs) (y ∷ ys) h = ground (arith, compare_digest-eq xs ys)

-- The `width` low bytes of a number, the most significant first.
unfoldable pub to_bytes : ℕ → ℕ → Bytes
to_bytes zero n = []
to_bytes (suc width) n = to_bytes width (n / 256) ++ n % 256 ∷ []

pub length-to_bytes : (width n : ℕ) → length (to_bytes width n) ≡ width
unfolding to_bytes
length-to_bytes zero n = refl
length-to_bytes (suc width) n = omega (
  arith,
  length-append (to_bytes width (n / 256)) (n % 256 ∷ []),
  length-to_bytes width (n / 256),
)

-- Two concatenations whose first parts have one length agree part by part.
pub append-injective {ℓ} :
    {A : Type ℓ} (xs ys : List A) {us vs : List A}
    → length xs ≡ length ys
    → xs ++ us ≡ ys ++ vs
    → (xs ≡ ys) × (us ≡ vs)
append-injective [] [] l h = (refl, h)
append-injective [] (y ∷ ys) l h = absurd (omega arith)
append-injective (x ∷ xs) [] l h = absurd (omega arith)
append-injective (x ∷ xs) (y ∷ ys) {us} {vs} l h =
    let heads : x ≡ y = cc in
    let tails : xs ++ us ≡ ys ++ vs = cc in
    let (p, q) = append-injective xs ys (omega arith) tails in (cc, q)

pub to_bytes-injective :
    (width n m : ℕ)
    → n < 256 ^ width
    → m < 256 ^ width
    → to_bytes width n ≡ to_bytes width m
    → n ≡ m
unfolding to_bytes
to_bytes-injective zero n m hn hm h = omega arith
to_bytes-injective (suc width) n m hn hm h =
    let widths = length-to_bytes width (n / 256) ∙ sym (length-to_bytes width (m / 256)) in
    let (high, low) =
      append-injective (to_bytes width (n / 256)) (to_bytes width (m / 256)) widths h in
    let low_bytes : n % 256 ≡ m % 256 = cc in
    let rest =
      to_bytes-injective width (n / 256) (m / 256) (omega (arith, pow-suc 256 width))
        (omega (arith, pow-suc 256 width)) high in
    omega arith
