-- ===== src/LinkedList.antt =====
-- ProperC/src/linkedlist.c over an explicit heap. Addresses are numbers, and 0 is NULL. `none` is
-- a fault (a dereference of NULL or of an address that holds no node) or the end of the fuel, which
-- is one unit for each round of a loop.
pub mod Chain
pub mod Walks
pub mod Updates
pub mod Cycle
pub mod Examples
use low_level.Prelude.{
  ℕ, zero, suc, ◌+◌, ◌%◌, ◌^◌, Bool, true, false, Option, none, some, ◌==◌, if◌then◌else◌, ◌>>=◌,
}
use low_level.Prelude.Int.{ℤ, pos}

pub record Node : Type 0 where
  pub val : ℤ
  pub next : ℕ

abbrev pub node : ℤ → ℕ → Node
node v n = record { val = v; next = n }

abbrev pub Heap : Type 0
Heap = ℕ → Option Node

-- `none` gives the address back.
unfoldable pub write : Heap → ℕ → Option Node → Heap
write h p c a = if a == p then c else h a

-- `*p`
unfoldable pub load : Heap → ℕ → Option Node
load h p = if p == 0 then none else h p

-- `fresh` is what `malloc` returns. Its result is not tested: the first write through it is a
-- fault if it is NULL.
pub list_push_front : (fresh : ℕ) → ℕ → ℤ → Heap → Option (ℕ × Heap)
unfolding write
list_push_front fresh head val h =
    if fresh == 0 then none else some (fresh, write h fresh (some (node val head)))

length_loop : ℕ → ℕ → ℕ → Heap → Option ℕ
length_loop zero count temp h = none
length_loop (suc fuel) count temp h =
    let round = (do n ← load h temp; length_loop fuel ((count + 1) % 2 ^ 64) n.next h) in
    if temp == 0 then some count else round

pub list_length : ℕ → ℕ → Heap → Option ℕ
unfolding length_loop load
list_length fuel head h = length_loop fuel 0 head h

reverse_loop : ℕ → ℕ → ℕ → Heap → Option (ℕ × Heap)
reverse_loop zero prev head h = none
reverse_loop (suc fuel) prev head h =
    let round = (do
      n ← load h head
      reverse_loop fuel head n.next (write h head (some (record n { next = prev })))) in
    if head == 0 then some (prev, h) else round

pub list_reverse : ℕ → ℕ → Heap → Option (ℕ × Heap)
unfolding reverse_loop load write
list_reverse fuel head h = reverse_loop fuel 0 head h

-- `fast->next && fast->next->next`: where it holds, the address of the node two further on.
pub two_ahead : Heap → ℕ → Option (Option ℕ)
unfolding load
two_ahead h fast = do
  f ← load h fast
  if f.next == 0
      then some none
      else (do g ← load h f.next; some (if g.next == 0 then none else some g.next))

-- The addresses `slow` and `fast` after the loop.
middle_loop : ℕ → ℕ → ℕ → Heap → Option (ℕ × ℕ)
middle_loop zero slow fast h = none
middle_loop (suc fuel) slow fast h = do
  ahead ← two_ahead h fast
  elim ahead [
    | none ↦ some (slow, fast)
    | some fast' ↦ (do s ← load h slow; middle_loop fuel s.next fast' h)
  ]

-- `if (fast->next) slow = slow->next; return slow->val;`
middle_end : Heap → ℕ × ℕ → Option ℤ
middle_end h (slow, fast) = do
  f ← load h fast
  s ← load h slow
  if f.next == 0 then some s.val else (do s' ← load h s.next; some s'.val)

pub list_middle : ℕ → ℕ → Heap → Option ℤ
unfolding middle_loop middle_end two_ahead load
list_middle fuel head h =
    if head == 0 then some (pos 0) else (do ends ← middle_loop fuel head head h; middle_end h ends)

cycle_loop : ℕ → ℕ → ℕ → Heap → Option Bool
cycle_loop zero slow fast h = none
cycle_loop (suc fuel) slow fast h = do
  ahead ← two_ahead h fast
  elim ahead [
    | none ↦ some false
    | some fast' ↦ (do
      s ← load h slow
      let round = cycle_loop fuel s.next fast' h
      if s.next == fast' then some true else round)
  ]

pub list_has_cycle : ℕ → ℕ → Heap → Option Bool
unfolding cycle_loop two_ahead load
list_has_cycle fuel head h = if head == 0 then some false else cycle_loop fuel head head h

-- The heap after the nodes have been given back.
free_loop : ℕ → ℕ → Heap → Option Heap
free_loop zero head h = none
free_loop (suc fuel) head h =
    let round = (do n ← load h head; free_loop fuel n.next (write h head none)) in
    if head == 0 then some h else round

pub list_free : ℕ → ℕ → Heap → Option Heap
unfolding free_loop load write
list_free fuel head h = free_loop fuel head h
