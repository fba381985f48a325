-- ===== src/Audit/Incremental/Depth.antt =====
-- Powers of two and bit lengths, as far as the depth of the trees of noema/audit/merkle_proof.py needs them.
use native.Mathlib.Numerals.{unary_clauses}
use noema.Audit.Proofs.{bit_length, next_pow2}
use noema.Prelude.{
  ℕ, zero, suc, ◌+◌, ◌-◌, ◌*◌, ◌/◌, ◌^◌, ◌≤◌, ◌<◌, ◌≡◌, refl, ap, ◌⊎◌, inl, inr, arith, ◌==◌,
  Bool-cases, lt→ltb,
}

pub pow_suc : (d : ℕ) → 2 ^ suc d ≡ 2 * 2 ^ d
pow_suc d = simp unary_clauses (omega arith)

pub pow_pos : (d : ℕ) → 1 ≤ 2 ^ d
pow_pos zero = omega arith
pow_pos (suc d) = omega (arith, pow_pos d, pow_suc d)

pub pow_mono : (a b : ℕ) → a ≤ b → 2 ^ a ≤ 2 ^ b
pow_mono zero b h = pow_pos b
pow_mono (suc a) zero h = absurd (omega arith)
pow_mono (suc a) (suc b) h = omega (arith, pow_mono a b (omega arith), pow_suc a, pow_suc b)

order : (a b : ℕ) → (a < b) ⊎ (b ≤ a)
order a b = ground arith

pub pow_lt : (a b : ℕ) → 2 ^ a < 2 ^ b → a < b
pow_lt a b h = elim (order a b) [
  | inl less ↦ less
  | inr more ↦ absurd (omega (arith, pow_mono b a more, h))
]

bit_length-upper : (fuel n : ℕ) → n ≤ fuel → n < 2 ^ bit_length fuel n
unfolding bit_length
bit_length-upper zero n h = omega arith
bit_length-upper (suc fuel) n h = elim (Bool-cases (n == 0)) [
  | inl y ↦ rw (y) (ground (arith, y))
  | inr z ↦
      let e : bit_length (suc fuel) n ≡ suc (bit_length fuel (n / 2)) = rw (z) refl in
      let half : n / 2 ≤ fuel = ground (arith, z) in
      omega (
        arith,
        bit_length-upper fuel (n / 2) half,
        pow_suc (bit_length fuel (n / 2)),
        ap (λ k. 2 ^ k) e,
      )
]

bit_length-lower : (fuel n d : ℕ) → n ≤ fuel → bit_length fuel n ≡ suc d → 2 ^ d ≤ n
unfolding bit_length
bit_length-lower zero n d h e = absurd (omega (arith, e))
bit_length-lower (suc fuel) n zero h e = elim (Bool-cases (n == 0)) [
  | inl y ↦ absurd (omega (arith, rw (y) at e))
  | inr z ↦ ground (arith, z)
]
bit_length-lower (suc fuel) n (suc d) h e = elim (Bool-cases (n == 0)) [
  | inl y ↦ absurd (omega (arith, rw (y) at e))
  | inr z ↦
      let e' : suc (bit_length fuel (n / 2)) ≡ suc (suc d) = rw (z) at e in
      let half : n / 2 ≤ fuel = ground (arith, z) in
      omega (arith, bit_length-lower fuel (n / 2) d half (omega (arith, e')), pow_suc d)
]

-- `n.bit_length()`
abbrev pub bits : ℕ → ℕ
bits n = bit_length n n

pub bits-upper : (n : ℕ) → n < 2 ^ bits n
bits-upper n = bit_length-upper n n (omega arith)

-- A positive number has a bit length, and its highest bit is set.
ℕ-cases : (n : ℕ) → (n ≡ 0) ⊎ ((d : ℕ) × (n ≡ suc d))
ℕ-cases zero = inl refl
ℕ-cases (suc d) = inr (d, refl)

bits_le : (n b : ℕ) → n < 2 ^ b → bits n ≤ b
bits_le n b h = elim (ℕ-cases (bits n)) [
  | inl z ↦ omega (arith, z)
  | inr (d, e) ↦
      omega (arith, e, pow_lt d b (omega (arith, bit_length-lower n n d (omega arith) e, h)))
]

pub bits_mono : (n : ℕ) → bits n ≤ bits (suc n)
bits_mono n = bits_le n (bits (suc n)) (omega (arith, bits-upper (suc n)))

plus_one : (n : ℕ) → n + 1 ≡ suc n
plus_one n = omega arith

pub bits_step : (n : ℕ) → bits (suc n) ≤ bits n + 1
bits_step n = bits_le (suc n) (bits n + 1) (
    omega (
      arith,
      bits-upper n,
      pow_suc (bits n),
      pow_pos (bits n),
      ap (λ k. 2 ^ k) (plus_one (bits n)),
    ))

pub bits_pow : (d : ℕ) → bits (2 ^ d) ≡ suc d
bits_pow d = omega (
  arith,
  pow_lt d (bits (2 ^ d)) (bits-upper (2 ^ d)),
  bits_le (2 ^ d) (suc d) (omega (arith, pow_suc d, pow_pos d)),
)

minus_one : (n : ℕ) → suc n - 1 ≡ n
minus_one n = omega arith

pub next_pow2-suc : (n : ℕ) → next_pow2 (suc n) ≡ 2 ^ bits n
unfolding next_pow2
next_pow2-suc n = rw (lt→ltb 0 (suc n) (omega arith)) (ap (λ k. 2 ^ bit_length k k) (minus_one n))
