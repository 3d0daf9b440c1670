-- ===== src/Ub/Shifts.antt =====
-- `safe_lshift` and `load_u32_le` of ProperC/src/ub.c.
use native.Mathlib.Nat.{pow-suc, mul_assoc, mul-mod_left}
use low_level.Prelude.{
  ℕ, ◌+◌, ◌-◌, ◌*◌, ◌%◌, ◌^◌, ◌≤◌, ◌≡◌, refl, ap, sym, ◌∙◌, List, [], ◌∷◌, arith, zero, suc,
}
use low_level.Prelude.Word.{zero-bit_or}
use low_level.Structs.{u32_from_bytes_le}
use low_level.Ub.{safe_lshift, load_u32_le}

pow_high : (j : ℕ) → 2 ^ (32 + j) ≡ 2 ^ j * 2 ^ 32
pow_high zero = refl
pow_high (suc j) =
    ap (λ (t : ℕ). 2 ^ t) sum ∙ omega (arith, pow-suc 2 (32 + j), pow-suc 2 j, pow_high j)
  where
    sum : 32 + suc j ≡ suc (32 + j)
    sum = omega arith

-- A shift by 32 or more leaves nothing of the word.
shifted_out : (x k : ℕ) → 32 ≤ k → x * 2 ^ k % 2 ^ 32 ≡ 0
shifted_out x k h =
    ap (λ (t : ℕ). x * 2 ^ t % 2 ^ 32) split
    ∙ ap (λ (t : ℕ). x * t % 2 ^ 32) (pow_high (k - 32))
    ∙ ap (λ (t : ℕ). t % 2 ^ 32) (sym (mul_assoc x (2 ^ (k - 32)) (2 ^ 32)))
    ∙ mul-mod_left (x * 2 ^ (k - 32)) (2 ^ 32)
  where
    split : k ≡ 32 + (k - 32)
    split = omega arith

-- For every word and every shift count, however large, `safe_lshift` is the product by 2 ^ k
-- modulo 2 ^ 32.
pub safe_lshift_lem : (x k : ℕ) → safe_lshift x k ≡ x * 2 ^ k % 2 ^ 32
unfolding safe_lshift
safe_lshift_lem x k = ground (arith, shifted_out x k)

-- Reading a word from a position of a buffer depends on the four bytes there alone, and is what
-- `u32_from_bytes_le` of structs.c computes from them.
pub load_u32_le-eq-from_bytes_le :
    (a b c d : ℕ) (rest : List ℕ)
    → load_u32_le (a ∷ b ∷ c ∷ d ∷ rest) ≡ u32_from_bytes_le (a ∷ b ∷ c ∷ d ∷ [])
unfolding load_u32_le u32_from_bytes_le
load_u32_le-eq-from_bytes_le a b c d rest = rw zero-bit_or
