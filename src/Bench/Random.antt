-- ===== src/Bench/Random.antt =====
-- `rng_next` of ProperMachine/bench/bench.c.
use low_level.Prelude.{ℕ, ◌^◌, ◌<◌, ◌≡◌, ◌≢◌, arith, bit_xor}
use low_level.Prelude.Word.{u32, ◌<<◌, ◌>>◌, bit_xor-eq-zero, bit_xor_bound}
use low_level.Bench.{rng_next}

-- A word and the same word shifted differ, unless it is 0.
step_left : (x k : ℕ) → (x ≡ u32 (x << k) → x ≡ 0) → x ≢ 0 → bit_xor x (u32 (x << k)) ≢ 0
step_left x k fixed ne e = ne (fixed (bit_xor-eq-zero x x (u32 (x << k)) (omega arith) e))

step_right : (x k : ℕ) → (x ≡ x >> k → x ≡ 0) → x ≢ 0 → bit_xor x (x >> k) ≢ 0
step_right x k fixed ne e = ne (fixed (bit_xor-eq-zero x x (x >> k) (omega arith) e))

-- From a state that is a word other than 0, the next state is such a word again: the generator
-- never gets stuck at 0.
pub rng_next_lem : (x : ℕ) → x ≢ 0 → x < 2 ^ 32 → (rng_next x ≢ 0) × (rng_next x < 2 ^ 32)
unfolding rng_next
rng_next_lem x ne h =
    let x₁ = bit_xor x (u32 (x << 13)) in
    let x₂ = bit_xor x₁ (x₁ >> 17) in
    let h₁ : x₁ < 2 ^ 32 = bit_xor_bound 32 x (u32 (x << 13)) h (omega arith) in
    let h₂ : x₂ < 2 ^ 32 = bit_xor_bound 32 x₁ (x₁ >> 17) h₁ (omega arith) in
    let ne₁ : x₁ ≢ 0 = step_left x 13 (λ e. omega arith) ne in
    let ne₂ : x₂ ≢ 0 = step_right x₁ 17 (λ e. omega arith) ne₁ in
    (step_left x₂ 5 (λ e. omega arith) ne₂, bit_xor_bound 32 x₂ (u32 (x₂ << 5)) h₂ (omega arith))
