-- ===== src/Bench/Link.antt =====
-- The linking of the nodes in `bench_array_vs_list` of ProperMachine/bench/bench.c.
use mathlib.Core.List.{Mem, mem-cons_self, mem-cons_of_mem, Pairwise, Nodup}
use mathlib.Core.Path.{subst}
use low_level.Prelude.{
  is_some, ℕ, suc, ◌+◌, ◌-◌, ◌≡◌, ◌≢◌, refl, ap, ◌∙◌, ℕ_discrete, Bool, true, Option, none, some,
  List, [], ◌∷◌, ◌++◌, append_assoc, arith, length, length-append, get_elem?-split,
  get_elem?-split_later, ◌>>=◌,
}
use low_level.Bench.{Node, Heap, write, load, link_loop, link_last, link_nodes}

-- What the bench needs to know of an address: whether it holds a node, and that node's value.
abbrev value_of : Option Node → ℕ
value_of none = 0
value_of (some n) = n.value

abbrev pub live : Heap → ℕ → Bool
live h a = is_some (load h a)

abbrev pub value_at : Heap → ℕ → ℕ
value_at h a = value_of (load h a)

abbrev pub Live : Heap → List ℕ → Type 0
Live h nodes = (a : ℕ) → Mem a nodes → live h a ≡ true

-- The address is none of these.
abbrev pub Apart : ℕ → List ℕ → Type 0
Apart a nodes = (b : ℕ) → Mem b nodes → a ≢ b

pub load-live : (h : Heap) (a : ℕ) → live h a ≡ true → (n : Node) × (load h a ≡ some n)
load-live h a e = found (load h a) e
  where
    found : (o : Option Node) → is_some o ≡ true → (n : Node) × (o ≡ some n)
    found none e = cc
    found (some n) e = (n, refl)

pub load-not_null : (h : Heap) {a : ℕ} {n : Node} → load h a ≡ some n → a ≢ 0
unfolding load
load-not_null h e null = ground arith

pub load-write : (h : Heap) {p : ℕ} (n : Node) → p ≢ 0 → load (write h p (some n)) p ≡ some n
unfolding load write
load-write h n ne = ground arith

pub load-write_other :
    (h : Heap) {p a : ℕ} (c : Option Node) → a ≢ p → load (write h p c) a ≡ load h a
unfolding load write
load-write_other h c ne = ground arith

abbrev pub first : List ℕ → ℕ
first [] = 0
first (p ∷ nodes) = p

-- The nodes at these addresses, in this order, make a list with these values that ends in NULL.
abbrev pub Linked : Heap → (ℕ → ℕ) → List ℕ → Type 0
Linked h val [] = Unit
Linked h val (p ∷ nodes) =
    (p ≢ 0) × (load h p ≡ some (record { value = val p; next = first nodes })) × Linked h val nodes

-- A node that is only linked anew keeps what the bench needs to know, and so does every other.
module _ (h : Heap) (p : ℕ) (n : Node) (q : ℕ) where
  abbrev relinked : Heap
  relinked = write h p (some (record n { next = q }))

  relinked-load :
      load h p ≡ some n → load relinked p ≡ some (record { value = value_at h p; next = q })
  relinked-load held = load-write h (record n { next = q }) (load-not_null h held) ∙ rw held

  live-relinked : load h p ≡ some n → (a : ℕ) → live relinked a ≡ live h a
  live-relinked held a = elim (ℕ_discrete a p) [
    | yes e ↦ rw (e, relinked-load held, held)
    | no ne ↦ ap is_some (load-write_other h (some (record n { next = q })) ne)
  ]

  value_at-relinked : load h p ≡ some n → (a : ℕ) → value_at relinked a ≡ value_at h a
  value_at-relinked held a = elim (ℕ_discrete a p) [
    | yes e ↦ rw e (ap value_of (relinked-load held))
    | no ne ↦ ap value_of (load-write_other h (some (record n { next = q })) ne)
  ]

-- From the node at index `i` on: the nodes are linked, and no other address is written.
link_from :
    (rest pre : List ℕ) (p : ℕ) (h : Heap) {i n : ℕ}
    → i ≡ length pre
    → n ≡ length pre + 1 + length rest
    → Live h (p ∷ rest)
    → Nodup (p ∷ rest)
    → (h' : Heap) × ((link_loop (pre ++ p ∷ rest) (length rest) i h
          >>= link_last (pre ++ p ∷ rest) n)
        ≡ some h')
      × Linked h' (value_at h) (p ∷ rest)
      × ((a : ℕ) → Apart a (p ∷ rest) → load h' a ≡ load h a)
unfolding link_loop link_last
link_from [] pre p h {i} {n} e size alive distinct =
    let (node, held) = load-live h p (alive p mem-cons_self) in
    (
      relinked h p node 0,
      rw (get_elem?-split {i = n - 1} pre p [] (omega arith), held),
      (load-not_null h held, relinked-load h p node 0 held, tt),
      λ a apart. load-write_other h (some (record node { next = 0 })) (apart p mem-cons_self),
    )
link_from (q ∷ rest) pre p h {i} {n} e size alive (Pairwise.cons apart distinct) =
    let (node, held) = load-live h p (alive p mem-cons_self) in
    let h₁ = relinked h p node q in
    let (h', runs, linked, same) =
      link_from rest (pre ++ p ∷ []) q h₁ {i = i + 1} {n = n}
        (omega (arith, length-append pre (p ∷ []))) (omega (arith, length-append pre (p ∷ [])))
        (λ a m. live-relinked h p node q held a ∙ alive a (mem-cons_of_mem p m)) distinct in
    (
      h',
      rw
          (
            get_elem?-split pre p (q ∷ rest) e,
            get_elem?-split_later {j = i + 1} pre p [] q rest (omega arith),
            held,
          )
          (rw (append_assoc pre (p ∷ []) (q ∷ rest)) at runs),
      (
        load-not_null h held,
        same p apart ∙ relinked-load h p node q held,
        subst (λ v. Linked h' v (q ∷ rest)) (λ j a. value_at-relinked h p node q held a j) linked,
      ),
      λ a out.
          same a (λ b m. out b (mem-cons_of_mem p m))
          ∙ load-write_other h (some (record node { next = q })) (out p mem-cons_self),
    )

-- Different addresses that hold nodes are linked into a list in the order of the array, with the
-- values they had, and nothing else is written.
pub link_nodes-Linked :
    (p : ℕ) (rest : List ℕ) (h : Heap)
    → Live h (p ∷ rest)
    → Nodup (p ∷ rest)
    → (h' : Heap) × (link_nodes (p ∷ rest) (suc (length rest)) h ≡ some h')
      × Linked h' (value_at h) (p ∷ rest)
      × ((a : ℕ) → Apart a (p ∷ rest) → load h' a ≡ load h a)
unfolding link_nodes
link_nodes-Linked p rest h alive distinct =
    let rounds : suc (length rest) - 1 ≡ length rest = omega arith in
    rw rounds
      (link_from rest [] p h {i = 0} {n = suc (length rest)} refl (omega arith) alive distinct)
