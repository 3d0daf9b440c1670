-- ===== src/LinkedList/Chain.antt =====
-- The lists that a heap holds, for ProperC/src/linkedlist.c.
use low_level.Prelude.{
  ℕ, ◌≡◌, ◌≢◌, Bool, false, ◌||◌, Option, none, some, List, [], ◌∷◌, arith, ◌==◌,
}
use low_level.Prelude.Int.{ℤ}
use low_level.LinkedList.{Node, node, Heap, write, load, two_ahead}

-- The address and the value of each node, in order.
abbrev pub Cells : Type 0
Cells = List (ℕ × ℤ)

-- The address of the first node, NULL if there is none.
abbrev pub first : Cells → ℕ
first [] = 0
first ((p, v) ∷ cells) = p

abbrev pub has : ℕ → Cells → Bool
has a [] = false
has a ((p, v) ∷ cells) = (a == p) || has a cells

-- The heap holds these nodes, at different addresses, each linked to the next and the last to
-- NULL.
abbrev pub Chain : Heap → Cells → Type 0
Chain h [] = Unit
Chain h ((p, v) ∷ cells) =
    (p ≢ 0) × (h p ≡ some (node v (first cells))) × (has p cells ≡ false) × Chain h cells

pub load-cell : (h : Heap) {p : ℕ} {n : Node} → p ≢ 0 → h p ≡ some n → load h p ≡ some n
unfolding load
load-cell h ne e = ground arith

-- A write elsewhere leaves a chain as it is.
pub Chain-write :
    (h : Heap) (cells : Cells) (a : ℕ) (c : Option Node)
    → Chain h cells
    → has a cells ≡ false
    → Chain (write h a c) cells
unfolding write
Chain-write h [] a c chain out = tt
Chain-write h ((p, v) ∷ cells) a c (ne, e, once, rest) out =
    (ne, ground arith, once, Chain-write h cells a c rest (ground arith))

pub not_null : {p : ℕ} → p ≢ 0 → (p == 0) ≡ false
not_null ne = ground arith

-- The test of the loops that go two nodes at a time, at the last node, the last but one, and
-- further in front.
module _ (h : Heap) {p : ℕ} {v : ℤ} where
  pub two_ahead-one : Chain h ((p, v) ∷ []) → two_ahead h p ≡ some none
  unfolding two_ahead
  two_ahead-one (ne, e, _, c) = rw (not_null ne, e)

  pub two_ahead-two : {q : ℕ} {w : ℤ} → Chain h ((p, v) ∷ (q, w) ∷ []) → two_ahead h p ≡ some none
  unfolding two_ahead
  two_ahead-two (ne, e, _, (ne', e', _, c)) = rw (not_null ne, e, not_null ne', e')

  pub two_ahead-more :
      {q r : ℕ} {w u : ℤ} (cells : Cells)
      → Chain h ((p, v) ∷ (q, w) ∷ (r, u) ∷ cells)
      → two_ahead h p ≡ some (some r)
  unfolding two_ahead
  two_ahead-more cells (ne, e, _, (ne', e', _, (ne'', _, _, c))) =
      rw (not_null ne, e, not_null ne', e', not_null ne'')
