-- ===== src/Bench/Release.antt =====
-- The release of the nodes in `bench_array_vs_list` of ProperMachine/bench/bench.c.
use mathlib.Core.Logic.{⊎_elim}
use mathlib.Core.Bool.{Bool-set}
use mathlib.Core.List.{
  Mem, mem-cons_self, mem-cons_of_mem, eq-or-mem_of_mem-cons, Pairwise, Nodup, not-mem-nil,
}
use low_level.Prelude.{
  is_some, ℕ, ◌+◌, ◌≡◌, ◌≢◌, refl, sym, ap, ◌∙◌, true, false, none, some, List, [], ◌∷◌, ◌++◌,
  append_assoc, arith, length, length-append, get_elem?-split,
}
use low_level.Bench.{Heap, write, load, free_nodes}
use low_level.Bench.Link.{live, Live, Apart, Linked, load-live, load-write_other}

pub Linked-Live : (h : Heap) (val : ℕ → ℕ) (nodes : List ℕ) → Linked h val nodes → Live h nodes
Linked-Live h val [] linked a m = absurd (not-mem-nil m)
Linked-Live h val (p ∷ nodes) (ne, held, linked) a m =
    ∥∥₁_rec (Bool-set (live h a) true)
      (⊎_elim (λ e. rw e (ap is_some held)) (Linked-Live h val nodes linked a))
      (eq-or-mem_of_mem-cons m)

load-freed : (h : Heap) (p : ℕ) → load (write h p none) p ≡ none
unfolding load write
load-freed h p = ground arith

-- All of them are given back, none twice, and nothing else is.
pub free_nodes-Live :
    (rest pre : List ℕ) (h : Heap) (i : ℕ)
    → i ≡ length pre
    → Live h rest
    → Nodup rest
    → (h' : Heap) × (free_nodes (pre ++ rest) (length rest) i h ≡ some h')
      × ((a : ℕ) → Mem a rest → live h' a ≡ false)
      × ((a : ℕ) → Apart a rest → load h' a ≡ load h a)
unfolding free_nodes
free_nodes-Live [] pre h i e alive distinct =
    (h, refl, λ a m. absurd (not-mem-nil m), λ a out. refl)
free_nodes-Live (p ∷ rest) pre h i e alive (Pairwise.cons apart distinct) =
    let (n, held) = load-live h p (alive p mem-cons_self) in
    let h₁ : Heap = write h p none in
    let kept : (a : ℕ) → a ≢ p → load h₁ a ≡ load h a = λ a ne. load-write_other h none ne in
    let (h', runs, dead, same) =
      free_nodes-Live rest (pre ++ p ∷ []) h₁ (i + 1) (omega (arith, length-append pre (p ∷ [])))
        (λ a m. ap is_some (kept a (λ e. apart a m (sym e))) ∙ alive a (mem-cons_of_mem p m))
        distinct in
    (
      h',
      rw (get_elem?-split pre p rest e, held) (rw (append_assoc pre (p ∷ []) rest) at runs),
      λ a m.
          ∥∥₁_rec (Bool-set (live h' a) false)
            (⊎_elim (λ e. rw e (ap is_some (same p apart ∙ load-freed h p))) (dead a))
            (eq-or-mem_of_mem-cons m),
      λ a out. same a (λ b m. out b (mem-cons_of_mem p m)) ∙ kept a (out p mem-cons_self),
    )
