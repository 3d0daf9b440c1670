-- ===== src/Pointers/Swap.antt =====
-- What `swap_int` of ProperC/src/pointers.c does.
use low_level.Prelude.{ℕ, ◌≡◌, ◌↔◌, refl, arith, ◌==◌, if◌then◌else◌}
use low_level.Pointers.{Memory, swap_int}

-- For any two addresses, equal or not, `swap_int` copies the first cell to the second and changes
-- no other cell. So it exchanges the two values exactly if they are equal.
pub swap_int-iff_equal :
    (m : Memory) (a b : ℕ)
    → ((c : ℕ) → swap_int m a b c ≡ (if c == b then m a else m c))
      × (((swap_int m a b a ≡ m b) × (swap_int m a b b ≡ m a)) ↔ (m a ≡ m b))
unfolding swap_int
swap_int-iff_equal m a b = (λ c. refl, (λ h. ground arith, λ e. (ground arith, ground arith)))
