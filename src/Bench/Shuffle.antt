-- ===== src/Bench/Shuffle.antt =====
-- The shuffle in `bench_array_vs_list` of ProperMachine/bench/bench.c.
use mathlib.Core.List.{Perm, perm_middle}
use mathlib.Core.List.Perm
use mathlib.Core.Path.{subst}
use low_level.Prelude.{
  ℕ, zero, suc, ◌+◌, ◌-◌, ◌%◌, ◌^◌, ◌≤◌, ◌<◌, ◌≡◌, refl, ap, sym, ◌∙◌, Option, some, List, ◌∷◌,
  ◌++◌, arith, length, length-append, get_elem?-split, store-split, get_elem?-split_later,
  store-split_later, dec_lt, split_at, ◌⊎◌, inl, inr,
}
use low_level.Prelude.Word.{u32}
use low_level.Bench.{rng_next, swap_nodes, shuffle_loop}

-- The array after a step that keeps its elements and its length.
abbrev Rearranged : List ℕ → Option (List ℕ) → Type 0
Rearranged nodes result =
    (nodes' : List ℕ) × (result ≡ some nodes') × Perm nodes' nodes × (length nodes' ≡ length nodes)

swap_nodes-split :
    (pre mid post : List ℕ) (x y : ℕ) {i j : ℕ}
    → j ≡ length pre
    → i ≡ length pre + 1 + length mid
    → swap_nodes i j (pre ++ y ∷ (mid ++ x ∷ post)) ≡ some (pre ++ x ∷ (mid ++ y ∷ post))
unfolding swap_nodes
swap_nodes-split pre mid post x y e e' =
    rw
      (
        get_elem?-split_later pre y mid x post e',
        get_elem?-split pre y (mid ++ x ∷ post) e,
        store-split_later pre y mid x post y e',
      )
      (store-split pre y (mid ++ y ∷ post) x e)

swap_nodes-same :
    (pre post : List ℕ) (x : ℕ) {i : ℕ}
    → i ≡ length pre
    → swap_nodes i i (pre ++ x ∷ post) ≡ some (pre ++ x ∷ post)
unfolding swap_nodes
swap_nodes-same pre post x e =
    rw (get_elem?-split pre x post e, store-split pre x post x e) (store-split pre x post x e)

exchange-perm :
    (pre mid post : List ℕ) (x y : ℕ)
    → Perm (pre ++ x ∷ (mid ++ y ∷ post)) (pre ++ y ∷ (mid ++ x ∷ post))
exchange-perm pre mid post x y = Perm.append_left pre (
    Perm.trans (Perm.cons x (perm_middle mid post))
      (Perm.trans (Perm.swap y x (mid ++ post)) (Perm.cons y (Perm.symm (perm_middle mid post)))))

swap_nodes-Rearranged :
    (nodes : List ℕ) (i j : ℕ) → j ≤ i → i < length nodes → Rearranged nodes (swap_nodes i j nodes)
swap_nodes-Rearranged nodes i j le h =
    let p = split_at j nodes (omega arith) in
    let whole : length nodes ≡ j + suc (length p.behind) =
      ap length p.split ∙ omega (arith, length-append p.before (p.item ∷ p.behind), p.size) in
    elim (same_or_later i j le) [
      | inl e ↦ rw e (
          subst (λ t. Rearranged t (swap_nodes j j t)) (sym p.split)
            (kept p.before p.behind p.item (sym p.size)))
      | inr later ↦
          let q = split_at (i - j - 1) p.behind (omega arith) in
          let split : nodes ≡ p.before ++ p.item ∷ (q.before ++ q.item ∷ q.behind) =
            p.split ∙ ap (λ t. p.before ++ p.item ∷ t) q.split in
          subst (λ t. Rearranged t (swap_nodes i j t)) (sym split)
            (rearranged p.before q.before q.behind q.item p.item {i = i} {j = j} (sym p.size)
              (omega (arith, q.size, p.size)))
    ]
  where
    same_or_later : (i j : ℕ) → j ≤ i → (i ≡ j) ⊎ (j < i)
    same_or_later i j le = elim (dec_lt j i) [ yes h ↦ inr h | no n ↦ inl (omega arith) ]

    kept :
        (pre post : List ℕ) (x : ℕ) {j : ℕ}
        → j ≡ length pre
        → Rearranged (pre ++ x ∷ post) (swap_nodes j j (pre ++ x ∷ post))
    kept pre post x e =
        (pre ++ x ∷ post, swap_nodes-same pre post x e, Perm.refl (pre ++ x ∷ post), refl)

    rearranged :
        (pre mid post : List ℕ) (x y : ℕ) {i j : ℕ}
        → j ≡ length pre
        → i ≡ length pre + 1 + length mid
        → Rearranged (pre ++ y ∷ (mid ++ x ∷ post)) (swap_nodes i j (pre ++ y ∷ (mid ++ x ∷ post)))
    rearranged pre mid post x y e e' = (
      pre ++ x ∷ (mid ++ y ∷ post),
      swap_nodes-split pre mid post x y e e',
      exchange-perm pre mid post x y,
      omega (
        arith,
        length-append pre (x ∷ (mid ++ y ∷ post)),
        length-append pre (y ∷ (mid ++ x ∷ post)),
        length-append mid (x ∷ post),
        length-append mid (y ∷ post),
      ),
    )

-- From any state of the generator, the shuffle of the first `i + 1` of fewer than 2 ^ 32 nodes
-- stays within the array, and what it leaves there is a permutation of what was there.
pub shuffle_loop-perm :
    (i state : ℕ) (nodes : List ℕ)
    → i < length nodes
    → i < 2 ^ 32 - 1
    → (state' : ℕ) × (nodes' : List ℕ) × (shuffle_loop i state nodes ≡ some (state', nodes'))
      × Perm nodes' nodes
      × (length nodes' ≡ length nodes)
unfolding shuffle_loop
shuffle_loop-perm zero state nodes h small = (state, nodes, refl, Perm.refl nodes, refl)
shuffle_loop-perm (suc i) state nodes h small =
    let j = rng_next state % u32 (suc i + 1) in
    let (swapped, ran, perm, size) = swap_nodes-Rearranged nodes (suc i) j (omega arith) h in
    let (state', nodes', runs, perms, sizes) =
      shuffle_loop-perm i (rng_next state) swapped (omega arith) (omega arith) in
    (state', nodes', rw ran runs, Perm.trans perms perm, sizes ∙ size)
