-- ===== src/LinkedList/Examples.antt =====
-- The functions of ProperC/src/linkedlist.c on a heap with a list of three nodes, and on one where
-- the third node links back to the second.
use mathlib.Core.List.{reverse}
use low_level.Prelude.{
  ℕ, zero, suc, ◌+◌, ◌/◌, ◌%◌, ◌≡◌, ◌≢◌, refl, true, false, none, some, [], ◌∷◌, arith, length,
  ◌==◌, if◌then◌else◌,
}
use low_level.Prelude.Int.{ℤ, pos}
use low_level.LinkedList.{
  node, Heap, list_push_front, list_length, list_reverse, list_middle, list_has_cycle, list_free,
}
use low_level.LinkedList.Chain.{Cells, first, Chain}
use low_level.LinkedList.Walks.{value_at, list_length-length, list_middle-value_at}
use low_level.LinkedList.Updates.{
  SameOutside, Without, list_push_front-Chain, list_reverse-reverse, list_free-Without,
}
use low_level.LinkedList.Cycle.{IsTrace, list_has_cycle-Chain, list_has_cycle-IsTrace}

abbrev heap : Heap
heap a =
    if a == 1
    then some (node (pos 10) 2)
    else (if a == 2
        then some (node (pos 20) 3)
        else (if a == 3 then some (node (pos 30) 0) else none))

abbrev cells : Cells
cells = (1, pos 10) ∷ (2, pos 20) ∷ (3, pos 30) ∷ []

abbrev looped : Heap
looped a = if a == 3 then some (node (pos 30) 2) else heap a

heap-Chain : Chain heap cells
heap-Chain = ground arith

-- The third node after two steps, the second after three, and so on.
abbrev at : ℕ → ℕ
at zero = 1
at (suc k) = 2 + k % 2

abbrev value : ℕ → ℤ
value zero = pos 10
value (suc k) = if k % 2 == 0 then pos 20 else pos 30

looped-IsTrace : IsTrace looped at
looped-IsTrace = record { ne_null = ne_null; value = value; cell = cell }
  where
    ne_null : (k : ℕ) → at k ≢ 0
    ne_null zero = omega arith
    ne_null (suc k) = omega arith

    cell : (k : ℕ) → looped (at k) ≡ some (node (value k) (at (suc k)))
    cell zero = refl
    cell (suc k) = ground arith

runs :
    (list_length 4 1 heap ≡ some 3)
    × (list_middle 4 1 heap ≡ some (pos 20))
    × (list_has_cycle 4 1 heap ≡ some false)
    × (list_has_cycle 4 1 looped ≡ some true)
    × (list_push_front 0 1 (pos 5) heap ≡ none)
unfolding list_length list_middle list_has_cycle list_push_front
runs = (refl, refl, refl, refl, refl)

list_has_cycle-IsTrace_example : list_has_cycle 4 (at 0) looped ≡ some true
list_has_cycle-IsTrace_example =
    list_has_cycle-IsTrace 4 1 2 at looped looped-IsTrace (omega arith) refl (omega arith)

list_has_cycle-Chain_example : list_has_cycle 3 (first cells) heap ≡ some false
list_has_cycle-Chain_example = list_has_cycle-Chain 3 cells heap heap-Chain (omega arith)

list_reverse-reverse_example :
    (h' : Heap) × (list_reverse 4 (first cells) heap ≡ some (first (reverse cells), h'))
    × Chain h' (reverse cells)
    × SameOutside cells heap h'
list_reverse-reverse_example = list_reverse-reverse 4 cells heap heap-Chain (omega arith)

list_middle-value_at_example :
    (v : ℤ) × (list_middle 3 (first cells) heap ≡ some v)
    × (value_at cells (length cells / 2) ≡ some v)
list_middle-value_at_example =
    list_middle-value_at 3 (1, pos 10) ((2, pos 20) ∷ (3, pos 30) ∷ []) heap heap-Chain
      (omega arith)

list_length-length_test : list_length 4 (first cells) heap ≡ some (length cells)
list_length-length_test = list_length-length 4 cells heap heap-Chain (omega arith) (omega arith)

list_free-Without_example :
    (h' : Heap) × (list_free 4 (first cells) heap ≡ some h') × Without cells heap h'
list_free-Without_example = list_free-Without 4 cells heap heap-Chain (omega arith)

list_push_front-Chain_example :
    (h' : Heap) × (list_push_front 7 (first cells) (pos 5) heap ≡ some (7, h'))
    × Chain h' ((7, pos 5) ∷ cells)
    × ((a : ℕ) → a ≢ 7 → h' a ≡ heap a)
list_push_front-Chain_example =
    list_push_front-Chain 7 (pos 5) cells heap heap-Chain (omega arith) refl
