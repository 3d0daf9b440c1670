-- ===== src/Bits/Constants.antt =====
-- The functions of ProperC/src/bits.c that return 5 whatever they are given, against what
-- ProperC/src/bits.h says of them.
use native.Mathlib.Nat.{pow-suc, one-le-pow}
use native.Mathlib.Numerals.{towards_suc}
use low_level.Prelude.{ℕ, zero, suc, ◌+◌, ◌/◌, ◌%◌, ◌^◌, ◌≤◌, ◌≡◌, refl, ap, ◌≢◌, ◌↔◌, arith}
use low_level.Bits.{set_bit, count_trailing_zeros}

-- Digit `n` of the binary form of `x`.
abbrev pub digit : ℕ → ℕ → ℕ
digit x n = x / 2 ^ n % 2

five_shifted : (n : ℕ) → 5 / 2 ^ (n + 3) ≡ 0
five_shifted n = grind (arith, eight-le-pow n)
  where
    eight-le-pow : (m : ℕ) → 8 ≤ 2 ^ (m + 3)
    eight-le-pow m =
        simp towards_suc
          (omega (arith, one-le-pow m 2, pow-suc 2 m, pow-suc 2 (suc m), pow-suc 2 (suc (suc m))))

-- For any word and any place other than 0 and 2, the result of `set_bit` has that digit 0,
-- where bits.h asks for a 1.
pub digit-set_bit : (x n : ℕ) → n ≢ 0 → n ≢ 2 → digit (set_bit x n) n ≡ 0
unfolding set_bit
digit-set_bit x zero ne₀ ne₂ = absurd (ne₀ refl)
digit-set_bit x (suc zero) ne₀ ne₂ = refl
digit-set_bit x (suc (suc zero)) ne₀ ne₂ = absurd (ne₂ refl)
digit-set_bit x (suc (suc (suc n))) ne₀ ne₂ =
    simp towards_suc at (ap (λ (t : ℕ). t % 2) (five_shifted n))

-- `2 ^ k` divides `x` and `2 ^ (k + 1)` does not.
abbrev pub TrailingZeros : ℕ → ℕ → Type 0
TrailingZeros x k = (x % 2 ^ k ≡ 0) × (digit x k ≡ 1)

-- `count_trailing_zeros` agrees with the number of zero digits below the lowest digit 1 for
-- exactly the words that are 32 modulo 64.
pub count_trailing_zeros_iff : (x : ℕ) → TrailingZeros x (count_trailing_zeros x) ↔ (x % 64 ≡ 32)
unfolding count_trailing_zeros
count_trailing_zeros_iff x = (λ h. omega arith, λ h. omega arith)
