-- ===== src/LinkedList/Walks.antt =====
-- `list_length` and `list_middle` of ProperC/src/linkedlist.c.
use mathlib.Core.Option
use low_level.Prelude.{
  ℕ, zero, suc, ◌+◌, ◌/◌, ◌%◌, ◌^◌, ◌≤◌, ◌<◌, ◌≡◌, refl, ap, ◌∙◌, Option, some, [], ◌∷◌, arith,
  length, get_elem?, get_elem?-in_range, ◌>>=◌,
}
use low_level.Prelude.Int.{ℤ}
use low_level.LinkedList.{Heap, length_loop, list_length, middle_loop, middle_end, list_middle}
use low_level.LinkedList.Chain.{
  Cells, first, Chain, load-cell, not_null, two_ahead-one, two_ahead-two, two_ahead-more,
}

length_loop-length :
    (fuel count : ℕ) (cells : Cells) (h : Heap)
    → Chain h cells
    → length cells < fuel
    → count + length cells < 2 ^ 64
    → length_loop fuel count (first cells) h ≡ some (count + length cells)
unfolding length_loop
length_loop-length zero count cells h c enough small = absurd (omega arith)
length_loop-length (suc fuel) count [] h c enough small = ap some (omega arith)
length_loop-length (suc fuel) count ((p, v) ∷ cells) h (ne, e, once, c) enough small =
    let wrap : (count + 1) % 2 ^ 64 ≡ count + 1 = omega arith in
    rw (not_null ne, load-cell h ne e, wrap)
      (length_loop-length fuel (count + 1) cells h c (omega arith) (omega arith)
        ∙ ap some (omega arith))

-- On the list of the given nodes, fewer than 2 ^ 64 of them, `list_length` ends without a fault
-- within one round more than there are nodes, and returns their number.
pub list_length-length :
    (fuel : ℕ) (cells : Cells) (h : Heap)
    → Chain h cells
    → length cells < fuel
    → length cells < 2 ^ 64
    → list_length fuel (first cells) h ≡ some (length cells)
unfolding list_length
list_length-length fuel cells h c enough small =
    length_loop-length fuel 0 cells h c enough (omega arith) ∙ ap some (omega arith)

-- From the loop on to the value that is returned.
middle_rest : ℕ → ℕ → ℕ → Heap → Option ℤ
middle_rest fuel slow fast h = middle_loop fuel slow fast h >>= middle_end h

abbrev pub value_at : Cells → ℕ → Option ℤ
value_at cells i = Option.map (λ (p, v). v) (get_elem? cells i)

middle_rest-value_at :
    (fuel : ℕ) (x : ℕ × ℤ) (slow : Cells) (y : ℕ × ℤ) (fast : Cells) (h : Heap)
    → Chain h (x ∷ slow)
    → Chain h (y ∷ fast)
    → length fast ≤ length slow
    → length fast < fuel
    → middle_rest fuel (first (x ∷ slow)) (first (y ∷ fast)) h
      ≡ value_at (x ∷ slow) (suc (length fast) / 2)
unfolding middle_rest middle_loop middle_end
middle_rest-value_at zero x slow y fast h cs cf le enough = absurd (omega arith)
middle_rest-value_at (suc fuel) (p, v) slow (q, w) [] h cs cf le enough =
    rw (two_ahead-one h cf, load-cell h cf.0 cf.1, load-cell h cs.0 cs.1)
middle_rest-value_at (suc fuel) x [] y (y' ∷ fast) h cs cf le enough = absurd (omega arith)
middle_rest-value_at (suc fuel) (p, v) ((p', v') ∷ slow) (q, w) ((q', w') ∷ []) h cs cf le enough =
    let (nq, eq, _, cf') = cf in
    let (np, ep, _, cs') = cs in
    rw
      (
        two_ahead-two h cf,
        load-cell h nq eq,
        load-cell h np ep,
        not_null cf'.0,
        load-cell h cs'.0 cs'.1,
      )
      refl
middle_rest-value_at (suc fuel) (p, v) (x' ∷ slow) (q, w) ((q', w') ∷ y'' ∷ fast) h cs cf le
      enough =
    let (nq, eq, _, cf') = cf in
    let (np, ep, _, cs') = cs in
    let (nq', eq', _, cf'') = cf' in
    let index : suc (suc (suc (length fast))) / 2 ≡ suc (suc (length fast) / 2) = omega arith in
    rw (two_ahead-more h fast cf, load-cell h np ep, index)
      (middle_rest-value_at fuel x' slow y'' fast h cs' cf'' (omega arith) (omega arith))

-- On a list of at least one node, `list_middle` ends without a fault in no more rounds than there
-- are nodes, and returns the value at index n / 2 of n: the second of two middle nodes.
pub list_middle-value_at :
    (fuel : ℕ) (x : ℕ × ℤ) (cells : Cells) (h : Heap)
    → Chain h (x ∷ cells)
    → length (x ∷ cells) ≤ fuel
    → (v : ℤ) × (list_middle fuel (first (x ∷ cells)) h ≡ some v)
      × (value_at (x ∷ cells) (length (x ∷ cells) / 2) ≡ some v)
unfolding list_middle middle_rest
list_middle-value_at fuel (p, v) cells h c enough =
    let run =
      middle_rest-value_at fuel (p, v) cells (p, v) cells h c c (omega arith) (omega arith) in
    let (cell, at_middle) =
      get_elem?-in_range ((p, v) ∷ cells) (suc (length cells) / 2) (omega arith) in
    let value = ap (Option.map (λ (c : ℕ × ℤ). c.1)) at_middle in
    (cell.1, rw (not_null c.0) (run ∙ value), value)
