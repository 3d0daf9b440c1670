-- ===== src/Bench/Allocate.antt =====
-- `xmalloc` of the nodes in `bench_array_vs_list` of
-- ProperMachine/bench/bench.c.
use mathlib.Core.Path.{subst}
use mathlib.Core.Logic.{⊎_elim}
use mathlib.Core.Bool.{Bool-set}
use mathlib.Core.HLevel.{¬_prop}
use mathlib.Core.List.{
  Mem, mem-cons_self, mem-cons_of_mem, eq-or-mem_of_mem-cons, Pairwise, Nodup, not-mem-nil,
}
use low_level.Prelude.{
  is_some, ℕ, zero, suc, ◌+◌, ◌≤◌, ◌<◌, ◌≡◌, ◌≢◌, refl, sym, ap, ◌∙◌, true, some, List, [], ◌∷◌,
  ◌++◌, append_assoc, arith, bit_and, length, length-append, store-split, ℕ_discrete,
}
use low_level.Bench.{Node, Heap, write, load, xmalloc, allocate_nodes}
use low_level.Bench.Link.{live, value_at, Live, load-write, load-write_other}
use low_level.Bench.Walk.{total_of, low_bytes}

-- What `malloc` returns for the nodes below `n`: addresses other than NULL, all different.
pub record IsMalloc (malloc : ℕ → ℕ) (n : ℕ) : Type 0 where
  pub not_null : (k : ℕ) → k < n → malloc k ≢ 0
  pub distinct : (j k : ℕ) → j < k → k < n → malloc j ≢ malloc k

abbrev pub addresses : (ℕ → ℕ) → ℕ → ℕ → List ℕ
addresses malloc zero i = []
addresses malloc (suc left) i = malloc i ∷ addresses malloc left (i + 1)

pub length-addresses : (malloc : ℕ → ℕ) (left i : ℕ) → length (addresses malloc left i) ≡ left
length-addresses malloc zero i = refl
length-addresses malloc (suc left) i = ap suc (length-addresses malloc left (i + 1))

xmalloc-not_null : (p : ℕ) → p ≢ 0 → xmalloc p ≡ some p
unfolding xmalloc
xmalloc-not_null p ne = ground arith

abbrev fresh_node : (ℕ → ℕ) → ℕ → Node
fresh_node junk k = record { value = bit_and k 0xff; next = junk k }

-- A property of each address is one of each member.
pub addresses-all {ℓ} :
    (malloc : ℕ → ℕ) {P : ℕ → Type ℓ} (left i : ℕ)
    → ((a : ℕ) → IsProp (P a))
    → ((k : ℕ) → i ≤ k → k < i + left → P (malloc k))
    → (a : ℕ) → Mem a (addresses malloc left i)
    → P a
addresses-all malloc zero i prop all a m = absurd (not-mem-nil m)
addresses-all malloc {P = P} (suc left) i prop all a m =
    ∥∥₁_rec (prop a)
      (⊎_elim (λ e. subst P (sym e) (all i (omega arith) (omega arith)))
        (addresses-all malloc left (i + 1) prop (λ k from to. all k (omega arith) (omega arith)) a))
      (eq-or-mem_of_mem-cons m)

pub addresses-Mem :
    (malloc : ℕ → ℕ) (left i k : ℕ)
    → i ≤ k
    → k < i + left
    → Mem (malloc k) (addresses malloc left i)
addresses-Mem malloc zero i k from to = absurd (omega arith)
addresses-Mem malloc (suc left) i k from to = elim (ℕ_discrete k i) [
  | yes e ↦ rw e mem-cons_self
  | no ne ↦
      mem-cons_of_mem (malloc i) (addresses-Mem malloc left (i + 1) k (omega arith) (omega arith))
]

module _ (malloc junk : ℕ → ℕ) where
  pub addresses-Nodup :
      (n left i : ℕ) → IsMalloc malloc n → i + left ≤ n → Nodup (addresses malloc left i)
  addresses-Nodup n zero i ok h = Pairwise.nil
  addresses-Nodup n (suc left) i ok h =
      Pairwise.cons
        (addresses-all malloc left (i + 1) (λ a. ¬_prop)
          (λ k from to. ok.distinct i k (omega arith) (omega arith)))
        (addresses-Nodup n left (i + 1) ok (omega arith))

  pub allocate_nodes-addresses :
      (pre old : List ℕ) (n i : ℕ) (h : Heap)
      → IsMalloc malloc n
      → i ≡ length pre
      → i + length old ≤ n
      → (h' : Heap) × (allocate_nodes malloc junk (length old) i (pre ++ old) h
          ≡ some (pre ++ addresses malloc (length old) i, h'))
        × ((k : ℕ) → i ≤ k → k < i + length old → load h' (malloc k) ≡ some (fresh_node junk k))
        × ((a : ℕ) → ((k : ℕ) → i ≤ k → k < i + length old → a ≢ malloc k) → load h' a ≡ load h a)
  unfolding allocate_nodes
  allocate_nodes-addresses pre [] n i h ok e le =
      (h, refl, λ k le lt. absurd (omega arith), λ a out. refl)
  allocate_nodes-addresses pre (x ∷ old) n i h ok e le =
      let p = malloc i in
      let ne = ok.not_null i (omega arith) in
      let (h', runs, held, same) =
        allocate_nodes-addresses (pre ++ p ∷ []) old n (i + 1)
          (write h p (some (fresh_node junk i))) ok (omega (arith, length-append pre (p ∷ [])))
          (omega arith) in
      (
        h',
        rw (xmalloc-not_null p ne, store-split pre x old p e)
            (rw
              (
                append_assoc pre (p ∷ []) old,
                append_assoc pre (p ∷ []) (addresses malloc (length old) (i + 1)),
              )
              at runs),
        λ k from to. elim (ℕ_discrete k i) [
          | yes e ↦ rw e (
              same p (λ k' from' to'. ok.distinct i k' (omega arith) (omega arith))
              ∙ load-write h (fresh_node junk i) ne)
          | no ne' ↦ held k (omega arith) (omega arith)
        ],
        λ a out.
            same a (λ k from to. out k (omega arith) (omega arith))
            ∙ load-write_other h (some (fresh_node junk i)) (out i (omega arith) (omega arith)),
      )

  -- The values of the nodes are those of the array.
  pub total_of-addresses :
      (left i : ℕ) (h : Heap)
      → ((k : ℕ) → i ≤ k → k < i + left → load h (malloc k) ≡ some (fresh_node junk k))
      → total_of (value_at h) (addresses malloc left i) ≡ total_of (λ x. x) (low_bytes left i)
  total_of-addresses zero i h held = refl
  total_of-addresses (suc left) i h held = omega (
    arith,
    value_of_fresh (held i (omega arith) (omega arith)),
    total_of-addresses left (i + 1) h (λ k from to. held k (omega arith) (omega arith)),
  )
    where
      value_of_fresh :
          load h (malloc i) ≡ some (fresh_node junk i) → value_at h (malloc i) ≡ bit_and i 0xff
      value_of_fresh e = rw e

  pub addresses-Live :
      (left i : ℕ) (h : Heap)
      → ((k : ℕ) → i ≤ k → k < i + left → load h (malloc k) ≡ some (fresh_node junk k))
      → Live h (addresses malloc left i)
  addresses-Live left i h held =
      addresses-all malloc left i (λ a. Bool-set (live h a) true)
        (λ k from to. ap is_some (held k from to))
