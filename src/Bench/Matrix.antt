-- ===== src/Bench/Matrix.antt =====
-- `bench_matrix` of ProperMachine/bench/bench.c: both orders visit the same elements.
use native.Mathlib.Nat.{zero-add, suc-mul, mul-le-mul_right}
use low_level.Prelude.{
  ℕ, zero, suc, ◌+◌, ◌*◌, ◌^◌, ◌≤◌, ◌<◌, ◌≡◌, refl, ap, sym, ◌∙◌, some, List, [], ◌∷◌, arith,
  length, get_elem?, get_or, replicate, length-replicate, length-append, store-split, ◌++◌,
  append_assoc,
}
use low_level.Bench.{add_long, stride_loop, matrix_loop, sum_row, sum_col, fill_ones, bench_matrix}

-- The sum of `f i`, ..., `f (i + left - 1)`.
abbrev pub total : (ℕ → ℕ) → ℕ → ℕ → ℕ
total f zero i = 0
total f (suc left) i = f i + total f left (i + 1)

total-add :
    (f g : ℕ → ℕ) (left i : ℕ) → total (λ k. f k + g k) left i ≡ total f left i + total g left i
total-add f g zero i = refl
total-add f g (suc left) i = omega (arith, total-add f g left (i + 1))

total-zero : (left i : ℕ) → total (λ k. 0) left i ≡ 0
total-zero zero i = refl
total-zero (suc left) i = omega (arith, total-zero left (i + 1))

-- The order of two summations does not matter.
total-total :
    (f : ℕ → ℕ → ℕ) (m i n j : ℕ)
    → total (λ a. total (f a) n j) m i ≡ total (λ b. total (λ a. f a b) m i) n j
total-total f zero i n j = sym (total-zero n j)
total-total f (suc m) i n j =
    omega
      (arith, total-total f m (i + 1) n j, total-add (f i) (λ b. total (λ a. f a b) m (i + 1)) n j)

-- Adding up is adding the total, where that fits.
pub add_long-fits : (a b : ℕ) → a + b < 2 ^ 63 → add_long a b ≡ some (a + b)
unfolding add_long
add_long-fits a b h = ground arith

get_elem?-eq-get_or : (m : List ℕ) (k : ℕ) → k < length m → get_elem? m k ≡ some (get_or m k 0)
get_elem?-eq-get_or [] k h = absurd (omega arith)
get_elem?-eq-get_or (x ∷ m) zero h = refl
get_elem?-eq-get_or (x ∷ m) (suc k) h = get_elem?-eq-get_or m k (omega arith)

-- A row in front of the last one ends within the matrix.
row_end : (i n : ℕ) → i < n → i * n + n ≤ n * n
row_end i n h = omega (arith, mul-le-mul_right n h)

module _ (m : List ℕ) where
  abbrev at : ℕ → ℕ
  at k = get_or m k 0

  stride_loop-total :
      (visit : ℕ → ℕ) (left j sum : ℕ)
      → ((k : ℕ) → k < j + left → visit k < length m)
      → sum + total (λ k. at (visit k)) left j < 2 ^ 63
      → stride_loop m visit left j sum ≡ some (sum + total (λ k. at (visit k)) left j)
  unfolding stride_loop
  stride_loop-total visit zero j sum inside fits = ap some (omega arith)
  stride_loop-total visit (suc left) j sum inside fits =
      rw
        (
          get_elem?-eq-get_or m (visit j) (inside j (omega arith)),
          add_long-fits sum (at (visit j)) (omega arith),
        )
        (stride_loop-total visit left (j + 1) (sum + at (visit j)) (λ k h. inside k (omega arith))
            (omega arith)
          ∙ ap some (omega arith))

  matrix_loop-total :
      (visit : ℕ → ℕ → ℕ) (n left i sum : ℕ)
      → ((k l : ℕ) → k < i + left → l < n → visit k l < length m)
      → sum + total (λ k. total (λ l. at (visit k l)) n 0) left i < 2 ^ 63
      → matrix_loop m visit n left i sum
        ≡ some (sum + total (λ k. total (λ l. at (visit k l)) n 0) left i)
  unfolding matrix_loop
  matrix_loop-total visit n zero i sum inside fits = ap some (omega arith)
  matrix_loop-total visit n (suc left) i sum inside fits =
      let row = total (λ l. at (visit i l)) n 0 in
      rw
        (stride_loop-total (visit i) n 0 sum (λ l h. inside i l (omega arith) (omega arith))
          (omega arith))
        (matrix_loop-total visit n left (i + 1) (sum + row)
            (λ k l h h'. inside k l (omega arith) h') (omega arith)
          ∙ ap some (omega arith))

  position : (n i j : ℕ) → n * n ≤ length m → i < n → j < n → i * n + j < length m
  position n i j size h h' = omega (arith, row_end i n h)

  -- The sum of all elements, row by row.
  abbrev pub grand_total : ℕ → ℕ
  grand_total n = total (λ i. total (λ j. at (i * n + j)) n 0) n 0

  -- On a matrix with `n * n` elements whose sum fits a `long`, both orders of the loops end
  -- without a fault in that sum.
  pub sum_row-sum_col :
      (n : ℕ)
      → n * n ≤ length m
      → grand_total n < 2 ^ 63
      → (sum_row m n ≡ some (grand_total n)) × (sum_col m n ≡ some (grand_total n))
  unfolding sum_row sum_col
  sum_row-sum_col n size fits =
      let swapped = total-total (λ i j. at (i * n + j)) n 0 n 0 in
      (
        (matrix_loop-total (λ i j. i * n + j) n n 0 0
              (λ i j h h'. position n i j size (omega arith) h') (omega arith)
            ∙ ap some (zero-add (grand_total n))),
        matrix_loop-total (λ j i. i * n + j) n n 0 0
              (λ j i h h'. position n i j size h' (omega arith)) (omega arith)
            ∙ ap some (zero-add (total (λ j. total (λ i. at (i * n + j)) n 0) n 0) ∙ sym swapped),
      )

fill_ones-lem :
    (pre old : List ℕ) (i : ℕ)
    → i ≡ length pre
    → fill_ones (length old) i (pre ++ old) ≡ some (pre ++ replicate (length old) 1)
unfolding fill_ones
fill_ones-lem pre [] i e = refl
fill_ones-lem pre (x ∷ old) i e = rw (store-split pre x old 1 e) (
    rw (append_assoc pre (1 ∷ []) old, append_assoc pre (1 ∷ []) (replicate (length old) 1)) at
      (fill_ones-lem (pre ++ 1 ∷ []) old (i + 1) (omega (arith, length-append pre (1 ∷ [])))))

get_or-replicate : (n k v : ℕ) → k < n → get_or (replicate n v) k 0 ≡ v
get_or-replicate zero k v h = absurd (omega arith)
get_or-replicate (suc n) zero v h = refl
get_or-replicate (suc n) (suc k) v h = get_or-replicate n k v (omega arith)

total-const :
    (f : ℕ → ℕ) (c left i : ℕ) → ((k : ℕ) → k < i + left → f k ≡ c) → total f left i ≡ left * c
total-const f c zero i h = omega arith
total-const f c (suc left) i h = omega (
  arith,
  suc-mul left c,
  h i (omega arith),
  total-const f c left (i + 1) (λ k small. h k (omega arith)),
)

-- On any array with `n * n` elements, for `n * n` below 2 ^ 63, `bench_matrix` ends without a
-- fault, and both of its sums are `n * n`.
pub bench_matrix_lem :
    (m : List ℕ) (n : ℕ)
    → length m ≡ n * n
    → n * n < 2 ^ 63
    → bench_matrix m n ≡ some (n * n, n * n)
unfolding bench_matrix
bench_matrix_lem m n size small =
    let ones : List ℕ = replicate (n * n) 1 in
    let filled : fill_ones (n * n) 0 m ≡ some ones = rw size at (fill_ones-lem [] m 0 refl) in
    let long : length ones ≡ n * n = length-replicate (n * n) 1 in
    let all : grand_total ones n ≡ n * n =
      total-const (λ (i : ℕ). total (λ j. get_or ones (i * n + j) 0) n 0) n n 0
        (λ i h.
          total-const (λ (j : ℕ). get_or ones (i * n + j) 0) 1 n 0
            (λ j h'.
              get_or-replicate (n * n) (i * n + j) 1 (omega (arith, row_end i n (omega arith))))
          ∙ omega arith) in
    let (rows, cols) = sum_row-sum_col ones n (omega arith) (omega arith) in
    rw (filled, rows, cols) (ap (λ t. some (t, t)) all)
