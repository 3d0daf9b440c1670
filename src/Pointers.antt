-- ===== src/Pointers.antt =====
-- ProperC/src/pointers.c. `swap_int` works on two addresses of a memory of `int`s; the others on
-- positions in one array, so that source and destination may overlap.
pub mod Swap
pub mod Reverse
pub mod Copy
pub mod Examples
use low_level.Prelude.{
  ℕ, zero, suc, ◌+◌, ◌-◌, Option, none, some, List, ◌==◌, ltb, if◌then◌else◌, get_elem?, store,
  ◌>>=◌,
}
use low_level.Prelude.Int.{ℤ}

abbrev pub Memory : Type 0
Memory = ℕ → ℤ

-- `*p = v`
abbrev pub put : Memory → ℕ → ℤ → Memory
put m p v q = if q == p then v else m q

-- `a = b` changes the parameter `a`, and nothing that it points at.
pub swap_int : Memory → (a b : ℕ) → Memory
swap_int m a b = let temp = m a in let a' = b in put m b temp

-- The exchange in the body of the loop.
exchange : ℕ → ℕ → List ℤ → Option (List ℤ)
exchange i j arr = do
  temp ← get_elem? arr i
  y ← get_elem? arr j
  arr' ← store arr i y
  store arr' j temp

-- `for (i = 0, j = n - 1; i < j; i++, j--)`; `none` is a fault, or the end of the fuel.
reverse_loop : ℕ → ℕ → ℕ → List ℤ → Option (List ℤ)
unfolding exchange
reverse_loop zero i j arr = none
reverse_loop (suc fuel) i j arr =
    let round = (do arr' ← exchange i j arr; reverse_loop fuel (i + 1) (j - 1) arr') in
    if ltb i j then round else some arr

pub reverse_array : List ℤ → ℕ → Option (List ℤ)
unfolding reverse_loop
reverse_array arr n = if n == 0 then some arr else reverse_loop n 0 (n - 1) arr

-- The bytes after the call, and the pointer that is returned: `none` is NULL.
pub record Copied : Type 0 where
  pub bytes : List ℕ
  pub result : Option ℕ

-- The loop of `my_memcpy` at index `i`, with `left` rounds to go.
copy_loop : ℕ → ℕ → ℕ → ℕ → List ℕ → Option (List ℕ)
copy_loop dst src zero i bytes = some bytes
copy_loop dst src (suc left) i bytes = do
  b ← get_elem? bytes (src + i)
  bytes' ← store bytes (dst + i) b
  copy_loop dst src left (i + 1) bytes'

pub my_memcpy : List ℕ → ℕ → ℕ → ℕ → Option Copied
unfolding copy_loop
my_memcpy bytes dst src n = do
  bytes' ← copy_loop dst src n 0 bytes
  some (record { bytes = bytes'; result = none })

-- The two bodies that do nothing yet.
pub my_memmove : List ℕ → ℕ → ℕ → ℕ → Option Copied
my_memmove bytes dst src n = some (record { bytes = bytes; result = some dst })

pub rotate_left : List ℤ → ℕ → ℕ → List ℤ
rotate_left arr n k = arr
