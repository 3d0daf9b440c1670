-- ===== src/Promotions/Division.antt =====
-- The division of ints of ProperMachine/src/promotions.c.
use native.Mathlib.Nat.{div-add-mod', mod-lt}
use low_level.Prelude.{ℕ, zero, suc, ◌*◌, ◌/◌, ◌%◌, ◌≤◌, ◌<◌, ◌≡◌, arith}
use low_level.Prelude.Int.{ℤ, pos, negsuc, sub_ℕ, ◌+ℤ◌, ◌*ℤ◌}
use low_level.Promotions.{quot, rem, magnitude}

pos-times_pos : (q m : ℕ) → pos q *ℤ pos m ≡ pos (q * m)
unfolding ◌*ℤ◌
pos-times_pos q m = ground arith

pos-times_neg : (q m : ℕ) → pos q *ℤ negsuc m ≡ sub_ℕ 0 (q * suc m)
unfolding ◌*ℤ◌
pos-times_neg q m = ground arith

neg-times_pos : (q m : ℕ) → sub_ℕ 0 q *ℤ pos m ≡ sub_ℕ 0 (q * m)
unfolding ◌*ℤ◌
neg-times_pos zero m = ground arith
neg-times_pos (suc q) m = ground arith

neg-times_neg : (q m : ℕ) → sub_ℕ 0 q *ℤ negsuc m ≡ pos (q * suc m)
unfolding ◌*ℤ◌
neg-times_neg zero m = ground arith
neg-times_neg (suc q) m = ground arith

-- For a divisor other than 0 the quotient times the divisor plus the remainder is the dividend,
-- the remainder is smaller than the divisor in magnitude, and the quotient is rounded toward zero.
pub quot-rem_lem :
    (a b : ℤ)
    → 0 < magnitude b
    → (quot a b *ℤ b +ℤ rem a b ≡ a)
      × (magnitude (rem a b) < magnitude b)
      × (magnitude (quot a b *ℤ b) ≤ magnitude a)
unfolding quot rem ◌+ℤ◌
quot-rem_lem (pos a) (pos b) h =
    let e = div-add-mod' a b in
    let lt : a % b < b = mod-lt a (omega arith) in
    rw (pos-times_pos (a / b) b) (ground (arith, e), ground (arith, lt), ground (arith, e))
quot-rem_lem (pos a) (negsuc b) h =
    let e = div-add-mod' a (suc b) in
    let lt : a % suc b < suc b = mod-lt a (omega arith) in
    rw (neg-times_neg (a / suc b) b) (ground (arith, e), ground (arith, lt), ground (arith, e))
quot-rem_lem (negsuc a) (pos b) h =
    let e = div-add-mod' (suc a) b in
    let lt : suc a % b < b = mod-lt (suc a) (omega arith) in
    rw (neg-times_pos (suc a / b) b) (ground (arith, e), ground (arith, lt), ground (arith, e))
quot-rem_lem (negsuc a) (negsuc b) h =
    let e = div-add-mod' (suc a) (suc b) in
    let lt : suc a % suc b < suc b = mod-lt (suc a) (omega arith) in
    rw (pos-times_neg (suc a / suc b) b) (ground (arith, e), ground (arith, lt), ground (arith, e))
