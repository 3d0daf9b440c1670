-- ===== src/LinkedList/Updates.antt =====
-- `list_push_front`, `list_reverse` and `list_free` of ProperC/src/linkedlist.c.
use mathlib.Core.List.{reverse_aux, reverse}
use low_level.Prelude.{
  ℕ, zero, suc, ◌<◌, ◌≡◌, ◌≢◌, refl, ◌∙◌, false, none, some, [], ◌∷◌, arith, length, if◌then◌else◌,
}
use low_level.Prelude.Int.{ℤ}
use low_level.LinkedList.{
  Heap, node, write, list_push_front, reverse_loop, list_reverse, free_loop, list_free,
}
use low_level.LinkedList.Chain.{Cells, first, has, Chain, Chain-write, load-cell, not_null}

-- Given an unused address, `list_push_front` returns the list with the new value in front, and
-- writes only the new node.
pub list_push_front-Chain :
    (fresh : ℕ) (val : ℤ) (cells : Cells) (h : Heap)
    → Chain h cells
    → fresh ≢ 0
    → has fresh cells ≡ false
    → (h' : Heap) × (list_push_front fresh (first cells) val h ≡ some (fresh, h'))
      × Chain h' ((fresh, val) ∷ cells)
      × ((a : ℕ) → a ≢ fresh → h' a ≡ h a)
unfolding list_push_front
list_push_front-Chain fresh val cells h c ne out = (
  write h fresh (some (node val (first cells))),
  rw (not_null ne),
  (ne, (unfold write in ground arith), out, Chain-write h cells fresh _ c out),
  λ a ne'. unfold write in ground arith,
)

-- Where `malloc` fails, `list_push_front` writes through NULL, whatever the list is; linkedlist.h
-- asks for the original head.
pub list_push_front-eq_none : (head : ℕ) (val : ℤ) (h : Heap) → list_push_front 0 head val h ≡ none
unfolding list_push_front
list_push_front-eq_none head val h = refl

-- What the heaps `h` and `g` hold at addresses outside of the nodes is the same.
abbrev pub SameOutside : Cells → Heap → Heap → Type 0
SameOutside cells h g = (a : ℕ) → has a cells ≡ false → g a ≡ h a

has-reverse_aux :
    (a : ℕ) (cells done : Cells)
    → has a cells ≡ false
    → has a done ≡ false
    → has a (reverse_aux cells done) ≡ false
has-reverse_aux a [] done h h' = h'
has-reverse_aux a ((p, v) ∷ cells) done h h' =
    has-reverse_aux a cells ((p, v) ∷ done) (ground arith) (ground arith)

abbrev Apart : Cells → Cells → Type 0
Apart [] done = Unit
Apart ((p, v) ∷ cells) done = (has p done ≡ false) × Apart cells done

Apart-cons :
    (cells done : Cells) (p : ℕ) (v : ℤ)
    → Apart cells done
    → has p cells ≡ false
    → Apart cells ((p, v) ∷ done)
Apart-cons [] done p v apart out = tt
Apart-cons ((q, w) ∷ cells) done p v (far, apart) out =
    (ground arith, Apart-cons cells done p v apart (ground arith))

reverse_loop-Chain :
    (fuel : ℕ) (cells done : Cells) (h : Heap)
    → Chain h cells
    → Chain h done
    → Apart cells done
    → length cells < fuel
    → (h' : Heap) × (reverse_loop fuel (first done) (first cells) h
        ≡ some (first (reverse_aux cells done), h'))
      × Chain h' (reverse_aux cells done)
      × SameOutside cells h h'
unfolding reverse_loop
reverse_loop-Chain zero cells done h c d apart enough = absurd (omega arith)
reverse_loop-Chain (suc fuel) [] done h c d apart enough = (h, refl, d, λ a out. refl)
reverse_loop-Chain (suc fuel) ((p, v) ∷ cells) done h (ne, e, once, c) d (far, apart) enough =
    let turned = write h p (some (node v (first done))) in
    let at_p : turned p ≡ some (node v (first done)) = unfold write in ground arith in
    let d' : Chain turned ((p, v) ∷ done) = (ne, at_p, far, Chain-write h done p _ d far) in
    let (h', runs, chain, same) =
      reverse_loop-Chain fuel cells ((p, v) ∷ done) turned (Chain-write h cells p _ c once) d'
        (Apart-cons cells done p v apart once) (omega arith) in
    (
      h',
      rw (not_null ne, load-cell h ne e) runs,
      chain,
      λ a out. same a (ground arith) ∙ (unfold write in ground arith),
    )

-- On a list of nodes `list_reverse` ends without a fault within one round more than there are
-- nodes; the head that it returns is that of the same nodes in reverse order, and no address
-- outside of them has changed.
pub list_reverse-reverse :
    (fuel : ℕ) (cells : Cells) (h : Heap)
    → Chain h cells
    → length cells < fuel
    → (h' : Heap) × (list_reverse fuel (first cells) h ≡ some (first (reverse cells), h'))
      × Chain h' (reverse cells)
      × SameOutside cells h h'
unfolding list_reverse
list_reverse-reverse fuel cells h c enough =
    reverse_loop-Chain fuel cells [] h c tt (none_apart cells) enough
  where
    none_apart : (cells : Cells) → Apart cells []
    none_apart [] = tt
    none_apart (x ∷ cells) = (refl, none_apart cells)

abbrev pub Without : Cells → Heap → Heap → Type 0
Without cells h h' = (a : ℕ) → h' a ≡ (if has a cells then none else h a)

free_loop-Without :
    (fuel : ℕ) (cells : Cells) (h : Heap)
    → Chain h cells
    → length cells < fuel
    → (h' : Heap) × (free_loop fuel (first cells) h ≡ some h') × Without cells h h'
unfolding free_loop
free_loop-Without zero cells h c enough = absurd (omega arith)
free_loop-Without (suc fuel) [] h c enough = (h, refl, λ a. refl)
free_loop-Without (suc fuel) ((p, v) ∷ cells) h (ne, e, once, c) enough =
    let (h', runs, gone) =
      free_loop-Without fuel cells (write h p none) (Chain-write h cells p none c once)
        (omega arith) in
    (h', rw (not_null ne, load-cell h ne e) runs, λ a. gone a ∙ (unfold write in ground arith))

-- On a list of nodes `list_free` ends without a fault within one round more than there are nodes:
-- it gives back each of them, and leaves all other addresses as they were.
pub list_free-Without :
    (fuel : ℕ) (cells : Cells) (h : Heap)
    → Chain h cells
    → length cells < fuel
    → (h' : Heap) × (list_free fuel (first cells) h ≡ some h') × Without cells h h'
unfolding list_free
list_free-Without fuel cells h c enough = free_loop-Without fuel cells h c enough
