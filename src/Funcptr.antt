-- ===== src/Funcptr.antt =====
-- ProperC/src/funcptr.c: loops over an array of `int` that call a function through a pointer.
-- The functions passed in are taken to be pure.
pub mod Loops
pub mod Sort
pub mod Order
pub mod Examples
use low_level.Prelude.{
  ℕ, zero, suc, ◌+◌, ◌-◌, ◌%◌, ◌^◌, Bool, false, Option, none, some, List, ◌==◌, if◌then◌else◌,
  get_elem?, store, ◌>>=◌,
}
use low_level.Prelude.Int.{ℤ, pos, negsuc}

-- The loops, at index `i` with `left` rounds to go.
map_loop : (ℤ → ℤ) → ℕ → ℕ → List ℤ → Option (List ℤ)
map_loop fn zero i arr = some arr
map_loop fn (suc left) i arr = do
  x ← get_elem? arr i
  arr' ← store arr i (fn x)
  map_loop fn left (i + 1) arr'

pub int_map : List ℤ → ℕ → (ℤ → ℤ) → Option (List ℤ)
unfolding map_loop
int_map arr n fn = map_loop fn n 0 arr

-- The array `dst` after the call, and the count that is returned.
pub record Filtered : Type 0 where
  pub dst : List ℤ
  pub count : ℕ

filter_loop : (ℤ → Bool) → List ℤ → ℕ → ℕ → List ℤ → ℕ → Option Filtered
filter_loop pred src zero i dst count = some (record { dst = dst; count = count })
filter_loop pred src (suc left) i dst count = do
  x ← get_elem? src i
  let keep = do dst' ← store dst count x; filter_loop pred src left (i + 1) dst' (count + 1)
  let skip = filter_loop pred src left (i + 1) dst count
  if pred x then keep else skip

pub int_filter : List ℤ → ℕ → List ℤ → (ℤ → Bool) → Option Filtered
unfolding filter_loop
int_filter src n dst pred = filter_loop pred src n 0 dst 0

reduce_loop : (ℤ → ℤ → ℤ) → List ℤ → ℕ → ℕ → ℤ → Option ℤ
reduce_loop op arr zero i init = some init
reduce_loop op arr (suc left) i init = do
  x ← get_elem? arr i
  reduce_loop op arr left (i + 1) (op init x)

pub int_reduce : List ℤ → ℕ → ℤ → (ℤ → ℤ → ℤ) → Option ℤ
unfolding reduce_loop
int_reduce arr n init op = reduce_loop op arr n 0 init

-- `cmp(x, y) == 1`
abbrev pub equals_one : ℤ → Bool
equals_one (pos n) = n == 1
equals_one (negsuc n) = false

-- The body of the inner loop.
exchange : (ℤ → ℤ → ℤ) → ℕ → ℕ → List ℤ → Option (List ℤ)
exchange cmp i j arr = do
  x ← get_elem? arr i
  y ← get_elem? arr j
  if equals_one (cmp x y) then (do arr' ← store arr i y; store arr' j x) else some arr

inner_loop : (ℤ → ℤ → ℤ) → ℕ → ℕ → ℕ → List ℤ → Option (List ℤ)
unfolding exchange
inner_loop cmp zero i j arr = some arr
inner_loop cmp (suc left) i j arr = do
  arr' ← exchange cmp i j arr
  inner_loop cmp left i (j + 1) arr'

pub outer_loop : (ℤ → ℤ → ℤ) → ℕ → ℕ → ℕ → List ℤ → Option (List ℤ)
unfolding inner_loop
outer_loop cmp n zero i arr = some arr
outer_loop cmp n (suc left) i arr = do
  arr' ← inner_loop cmp (n - (i + 1)) i (i + 1) arr
  outer_loop cmp n left (i + 1) arr'

-- `n - 1` in `size_t`, of 64 bits: for an empty array it is the largest number.
abbrev pub outer_rounds : ℕ → ℕ
outer_rounds n = (n + (2 ^ 64 - 1)) % 2 ^ 64

pub sort_ints : List ℤ → ℕ → (ℤ → ℤ → ℤ) → Option (List ℤ)
unfolding outer_loop
sort_ints arr n cmp = outer_loop cmp n (outer_rounds n) 0 arr
