-- ===== src/Bench/Walk.antt =====
-- The sums over the array and along the list in `bench_array_vs_list` of
-- ProperMachine/bench/bench.c.
use mathlib.Core.List.{foldr}
use low_level.Prelude.{
  false, ℕ, zero, suc, ◌+◌, ◌*◌, ◌^◌, ◌≤◌, ◌<◌, ◌≡◌, refl, ap, ◌∙◌, some, List, [], ◌∷◌, ◌++◌,
  append_assoc, arith, bit_and, length, length-append, get_elem?-split, store-split, ◌==◌,
}
use low_level.Prelude.Word.{bit_and_mask}
use low_level.Bench.{Heap, fill_array, sum_loop, walk_loop}
use low_level.Bench.Link.{first, Linked}
use low_level.Bench.Matrix.{add_long-fits}

-- The sum of `val` over a list.
abbrev pub total_of : (ℕ → ℕ) → List ℕ → ℕ
total_of val xs = foldr (λ x t. val x + t) 0 xs

-- The values `i & 0xff` at `left` indices from `i` on.
abbrev pub low_bytes : ℕ → ℕ → List ℕ
low_bytes zero i = []
low_bytes (suc left) i = bit_and i 0xff ∷ low_bytes left (i + 1)

pub length-low_bytes : (left i : ℕ) → length (low_bytes left i) ≡ left
length-low_bytes zero i = refl
length-low_bytes (suc left) i = ap suc (length-low_bytes left (i + 1))

pub low_bytes_bound : (left i : ℕ) → total_of (λ x. x) (low_bytes left i) ≤ 255 * left
low_bytes_bound zero i = omega arith
low_bytes_bound (suc left) i = omega (arith, bit_and_mask 8 i, low_bytes_bound left (i + 1))

pub fill_array-low_bytes :
    (pre old : List ℕ) (i : ℕ)
    → i ≡ length pre
    → fill_array (length old) i (pre ++ old) ≡ some (pre ++ low_bytes (length old) i)
unfolding fill_array
fill_array-low_bytes pre [] i e = refl
fill_array-low_bytes pre (x ∷ old) i e =
    let b = bit_and i 0xff in
    rw (store-split pre x old b e) (
      rw (append_assoc pre (b ∷ []) old, append_assoc pre (b ∷ []) (low_bytes (length old) (i + 1)))
        at
        (fill_array-low_bytes (pre ++ b ∷ []) old (i + 1)
          (omega (arith, length-append pre (b ∷ [])))))

pub sum_loop-total_of :
    (pre xs : List ℕ) (i sum : ℕ)
    → i ≡ length pre
    → sum + total_of (λ x. x) xs < 2 ^ 63
    → sum_loop (pre ++ xs) (length xs) i sum ≡ some (sum + total_of (λ x. x) xs)
unfolding sum_loop
sum_loop-total_of pre [] i sum e fits = ap some (omega arith)
sum_loop-total_of pre (x ∷ xs) i sum e fits =
    rw (get_elem?-split pre x xs e, add_long-fits sum x (omega arith))
      (rw (append_assoc pre (x ∷ []) xs) at (
          sum_loop-total_of (pre ++ x ∷ []) xs (i + 1) (sum + x)
            (omega (arith, length-append pre (x ∷ []))) (omega arith))
        ∙ ap some (omega arith))

-- The walk along linked nodes ends without a fault within one round more than there are nodes,
-- in the sum of their values, where it fits.
pub walk_loop-total_of :
    (fuel sum : ℕ) (val : ℕ → ℕ) (nodes : List ℕ) (h : Heap)
    → Linked h val nodes
    → length nodes < fuel
    → sum + total_of val nodes < 2 ^ 63
    → walk_loop fuel (first nodes) sum h ≡ some (sum + total_of val nodes)
unfolding walk_loop
walk_loop-total_of zero sum val nodes h linked enough fits = absurd (omega arith)
walk_loop-total_of (suc fuel) sum val [] h linked enough fits = ap some (omega arith)
walk_loop-total_of (suc fuel) sum val (p ∷ nodes) h (ne, held, linked) enough fits =
    let not_null : (p == 0) ≡ false = ground arith in
    rw (not_null, held, add_long-fits sum (val p) (omega arith))
      (walk_loop-total_of fuel (sum + val p) val nodes h linked (omega arith) (omega arith)
        ∙ ap some (omega arith))
