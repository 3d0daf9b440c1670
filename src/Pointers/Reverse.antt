-- ===== src/Pointers/Reverse.antt =====
-- `reverse_array` of ProperC/src/pointers.c.
use low_level.Prelude.{
  ℕ, zero, suc, ◌+◌, ◌-◌, ◌*◌, ◌≤◌, ◌<◌, ◌≡◌, refl, ◌∙◌, Option, some, List, arith, length,
  length-set, set, store-eq-set, get_elem?, get_elem?-set, get_elem?-in_range, ltb, leb, ◌&&◌, ◌==◌,
  inl, inr, Bool-cases, ltb→lt, if◌then◌else◌,
}
use low_level.Prelude.Int.{ℤ}
use low_level.Pointers.{exchange, reverse_loop, reverse_array}

-- Position `k` of the array in which positions `i` to `j` are mirrored.
abbrev pub mirrored : List ℤ → ℕ → ℕ → ℕ → Option ℤ
mirrored arr i j k = if leb i k && leb k j then get_elem? arr (i + j - k) else get_elem? arr k

record Exchanged (arr : List ℤ) (i j : ℕ) (out : List ℤ) : Type 0 where
  runs : exchange i j arr ≡ some out
  same_length : length out ≡ length arr
  cells :
      (k : ℕ)
      → get_elem? out k ≡ (
          if j == k then get_elem? arr i else (if i == k then get_elem? arr j else get_elem? arr k))

exchange_lem :
    (arr : List ℤ) (i j : ℕ)
    → i < length arr
    → j < length arr
    → (out : List ℤ) × Exchanged arr i j out
unfolding exchange
exchange_lem arr i j hi hj =
    let (x, ex) = get_elem?-in_range arr i hi in
    let (y, ey) = get_elem?-in_range arr j hj in
    let hj' : j < length (set arr i y) = omega (arith, length-set arr i y) in
    (
      set (set arr i y) j x,
      record {
        runs = rw (ex, ey, store-eq-set arr i y hi, store-eq-set (set arr i y) j x hj') refl;
        same_length = length-set (set arr i y) j x ∙ length-set arr i y;
        cells =
            λ k. ground (arith, get_elem?-set (set arr i y) j k x hj', get_elem?-set arr i k y hi);
      },
    )

record Mirrored (arr : List ℤ) (i j : ℕ) (out : List ℤ) : Type 0 where
  same_length : length out ≡ length arr
  cells : (k : ℕ) → get_elem? out k ≡ mirrored arr i j k

-- One round, and the rounds inside of it.
Mirrored-Exchanged :
    {arr mid out : List ℤ} {i j : ℕ}
    → i < j
    → Exchanged arr i j mid
    → Mirrored mid (i + 1) (j - 1) out
    → Mirrored arr i j out
Mirrored-Exchanged {arr} {mid} {out} {i} {j} lt ex inner = record {
  same_length = inner.same_length ∙ ex.same_length;
  cells = λ k.
      let inside : i + 1 + (j - 1) - k ≡ i + j - k = omega arith in
      inner.cells k ∙ rw inside (ground (arith, ex.cells k, ex.cells (i + j - k)));
}

-- With two units of fuel for three positions the loop ends, and mirrors them.
reverse_loop_lem :
    (fuel i j : ℕ) (arr : List ℤ)
    → j < length arr
    → i ≤ j + 1
    → j + 2 ≤ i + 2 * fuel
    → (out : List ℤ) × (reverse_loop fuel i j arr ≡ some out) × Mirrored arr i j out
unfolding reverse_loop
reverse_loop_lem zero i j arr fits le enough = absurd (omega arith)
reverse_loop_lem (suc fuel) i j arr fits le enough = elim (Bool-cases (ltb i j)) [
  | inl more ↦
      let lt = ltb→lt i j more in
      let (mid, ex) = exchange_lem arr i j (omega arith) fits in
      let (out, runs, inner) =
        reverse_loop_lem fuel (i + 1) (j - 1) mid (omega (arith, ex.same_length)) (omega arith)
          (omega arith) in
      (out, rw (more, ex.runs) runs, Mirrored-Exchanged lt ex inner)
  | inr done ↦ (arr, rw done, record { same_length = refl; cells = λ k. ground arith })
]

-- `out` is `arr` with its first `n` elements in reverse order.
pub record IsReversed (arr : List ℤ) (n : ℕ) (out : List ℤ) : Type 0 where
  pub same_length : length out ≡ length arr
  pub cells :
      (k : ℕ) → get_elem? out k ≡ (if ltb k n then get_elem? arr (n - 1 - k) else get_elem? arr k)

-- For every array of at least `n` elements `reverse_array` ends without a fault, reverses the
-- first `n` elements and leaves the others as they were.
pub reverse_array-IsReversed :
    (arr : List ℤ) (n : ℕ)
    → n ≤ length arr
    → (out : List ℤ) × (reverse_array arr n ≡ some out) × IsReversed arr n out
unfolding reverse_array
reverse_array-IsReversed arr zero h =
    (arr, refl, record { same_length = refl; cells = λ k. ground arith })
reverse_array-IsReversed arr (suc n) h =
    let (out, runs, m) =
      reverse_loop_lem (suc n) 0 (suc n - 1) arr (omega arith) (omega arith) (omega arith) in
    (
      out,
      ground (arith, runs),
      record {
        same_length = m.same_length;
        cells = λ k.
            let place : 0 + (suc n - 1) - k ≡ suc n - 1 - k = omega arith in
            m.cells k ∙ rw place (ground arith);
      },
    )
