-- ===== src/Bits/Count.antt =====
-- What `count_set_bits` and `is_power_of_two` of ProperC/src/bits.c compute.
use native.Mathlib.Nat.{pow-suc}
use low_level.Prelude.{
  ℕ, zero, suc, ◌+◌, ◌-◌, ◌/◌, ◌%◌, ◌^◌, ◌≤◌, ◌<◌, ◌≡◌, refl, ap, ◌∙◌, ◌⊎◌, inl, inr, some, arith,
  bit_and,
}
use low_level.Prelude.Word.{bit_and_halves, bit_and_self}
use low_level.Bits.{count_loop, count_set_bits}

-- The binary digits of `x` below place `w`, added up.
unfoldable pub ones : ℕ → ℕ → ℕ
ones zero x = 0
ones (suc w) x = ones w (x / 2) + x % 2

ones-le : (w x : ℕ) → ones w x ≤ w
unfolding ones
ones-le zero x = omega arith
ones-le (suc w) x = omega (arith, ones-le w (x / 2))

-- `x & (x - 1)` on its halves: an odd number loses its last digit, an even one goes on.
lower : ℕ → ℕ
lower x = bit_and x (x - 1)

lower_odd : (x : ℕ) → x % 2 ≡ 1 → (lower x / 2 ≡ x / 2) × (lower x % 2 ≡ 0)
unfolding lower
lower_odd x h = omega (
  arith,
  bit_and_halves x (x - 1),
  ap (bit_and (x / 2)) (half_pred x h),
  bit_and_self (x / 2) (x / 2) (omega arith),
)
  where
    half_pred : (n : ℕ) → n % 2 ≡ 1 → (n - 1) / 2 ≡ n / 2
    half_pred n e = omega arith

lower_even : (x : ℕ) → 0 < x → x % 2 ≡ 0 → (lower x / 2 ≡ lower (x / 2)) × (lower x % 2 ≡ 0)
unfolding lower
lower_even x pos h =
    omega (arith, bit_and_halves x (x - 1), ap (bit_and (x / 2)) (half_pred x pos h))
  where
    half_pred : (n : ℕ) → 0 < n → n % 2 ≡ 0 → (n - 1) / 2 ≡ n / 2 - 1
    half_pred n p e = omega arith

parity : (x : ℕ) → (x % 2 ≡ 1) ⊎ (x % 2 ≡ 0)
parity x = omega arith

-- A round removes one digit 1, and the word stays within its width.
lower_lem : (w x : ℕ) → 0 < x → x < 2 ^ w → (ones w (lower x) + 1 ≡ ones w x) × (lower x < 2 ^ w)
unfolding ones
lower_lem zero x pos fits = absurd (omega arith)
lower_lem (suc w) x pos fits = elim (parity x) [
  | inl odd ↦ let h = lower_odd x odd in omega (arith, h, ap (ones w) h.0, pow-suc 2 w)
  | inr even ↦
      let h = lower_even x pos even in
      let ih = lower_lem w (x / 2) (omega arith) (omega (arith, pow-suc 2 w)) in
      omega (arith, h, ih, ap (ones w) h.0, pow-suc 2 w)
]

ones-zero : (w : ℕ) → ones w 0 ≡ 0
unfolding ones
ones-zero zero = refl
ones-zero (suc w) = omega (arith, ones-zero w)

-- With more fuel than digits 1 the loop returns, and adds their number to the count.
count_loop-ones :
    (fuel w x count : ℕ)
    → x < 2 ^ w
    → ones w x < fuel
    → count_loop fuel x count ≡ some (count + ones w x)
unfolding count_loop lower
count_loop-ones zero w x count fits enough = absurd (omega arith)
count_loop-ones (suc fuel) w zero count fits enough = ap some (omega (arith, ones-zero w))
count_loop-ones (suc fuel) w (suc x) count fits enough =
    let h = lower_lem w (suc x) (omega arith) fits in
    ground (arith, h, count_loop-ones fuel w (lower (suc x)) (count + 1) h.1 (omega arith))

-- For every 32-bit word the loop of `count_set_bits` ends, and the count that it returns is the
-- number of digits 1 in the word's binary form.
pub count_set_bits-ones : (x : ℕ) → x < 2 ^ 32 → count_set_bits x ≡ some (ones 32 x)
unfolding count_set_bits
count_set_bits-ones x fits =
    count_loop-ones 33 32 x 0 fits (omega (arith, ones-le 32 x)) ∙ ap some (omega arith)

abbrev pub IsPowerBelow : ℕ → ℕ → Type 0
IsPowerBelow w x = (k : ℕ) × (k < w) × (x ≡ 2 ^ k)
