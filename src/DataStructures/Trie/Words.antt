-- ===== src/DataStructures/Trie/Words.antt =====
-- The words of a tree of ProperDS/src/trie.h.
use low_level.Prelude.{
  ℕ, zero, suc, ◌<◌, ◌≡◌, refl, sym, ap, ◌∙◌, Bool, true, false, ◌&&◌, ◌||◌, List, [], ◌∷◌,
  if◌then◌else◌, ◌==◌, ==_iff, Bool-cases, inl, inr, arith, ℕ_discrete,
}
use low_level.DataStructures.KeySet.{not}
use low_level.DataStructures.Trie.{
  TrieNode, null, node, AllLetters, no_child, with_child, ends_word, inserted, is_node, any_child,
  pruned, removed, same_word,
}

pub at_letter :
    (child : ℕ → TrieNode) (c d : ℕ) (t : TrieNode) → (d == c) ≡ true → with_child child c t d ≡ t
at_letter child c d t here = rw here refl

pub off_letter :
    (child : ℕ → TrieNode) (c d : ℕ) (t : TrieNode)
    → (d == c) ≡ false
    → with_child child c t d ≡ child d
off_letter child c d t other = rw other refl

-- Exactly the word that is inserted is new.
pub ends_word-inserted :
    (t : TrieNode) (w s : List ℕ) → ends_word (inserted t w) s ≡ (same_word s w || ends_word t s)
unfolding ends_word inserted
ends_word-inserted null [] [] = refl
ends_word-inserted null [] (d ∷ s) = refl
ends_word-inserted (node child b) [] [] = refl
ends_word-inserted (node child b) [] (d ∷ s) = refl
ends_word-inserted null (c ∷ w) [] = refl
ends_word-inserted (node child b) (c ∷ w) [] = refl
ends_word-inserted null (c ∷ w) (d ∷ s) = elim (Bool-cases (d == c)) [
  | inl here ↦
      ap (λ t. ends_word t s) (at_letter no_child c d (inserted null w) here)
      ∙ (ends_word-inserted null w s ∙ sym (ap (λ b. b && same_word s w || false) here))
  | inr other ↦
      ap (λ t. ends_word t s) (off_letter no_child c d (inserted null w) other)
      ∙ sym (ap (λ b. b && same_word s w || false) other)
]
ends_word-inserted (node child b) (c ∷ w) (d ∷ s) = elim (Bool-cases (d == c)) [
  | inl here ↦
      ap (λ t. ends_word t s) (at_letter child c d (inserted (child c) w) here)
      ∙ (ends_word-inserted (child c) w s
          ∙ (ap (λ (k : ℕ). same_word s w || ends_word (child k) s) (sym ((==_iff d c).0 here))
              ∙ sym (ap (λ b. b && same_word s w || ends_word (child d) s) here)))
  | inr other ↦
      ap (λ t. ends_word t s) (off_letter child c d (inserted (child c) w) other)
      ∙ sym (ap (λ b. b && same_word s w || ends_word (child d) s) other)
]

nodeless : (t : TrieNode) (s : List ℕ) → is_node t ≡ false → ends_word t s ≡ false
unfolding ends_word
nodeless null s e = refl
nodeless (node child b) s e = cc

contrary : {A : Type 0} → (b : Bool) → (true || b) ≡ false → A
contrary b e = cc

childless :
    (child : ℕ → TrieNode) (k c : ℕ) → c < k → any_child child k ≡ false → is_node (child c) ≡ false
childless child zero c lt e = absurd (omega (arith, lt))
childless child (suc k) c lt e = elim (Bool-cases (is_node (child k))) [
  | inl some_child ↦
      contrary (any_child child k) (sym (ap (λ b. b || any_child child k) some_child) ∙ e)
  | inr bare ↦ elim (ℕ_discrete c k) [
    | yes same ↦ ap (λ (k : ℕ). is_node (child k)) same ∙ bare
    | no other ↦
        childless child k c (omega (arith, lt, other))
          (sym (ap (λ b. b || any_child child k) bare) ∙ e)
  ]
]

barren :
    (child : ℕ → TrieNode) (s : List ℕ)
    → AllLetters s
    → any_child child 26 ≡ false
    → ends_word (node child false) s ≡ false
unfolding ends_word
barren child [] letters bare = refl
barren child (c ∷ s) (lt, letters) bare = nodeless (child c) s (childless child 26 c lt bare)

-- Freeing a node that leads to no word loses none.
ends_word-pruned :
    (child : ℕ → TrieNode) (b : Bool) (s : List ℕ)
    → AllLetters s
    → ends_word (pruned child b) s ≡ ends_word (node child b) s
ends_word-pruned child true s letters = refl
ends_word-pruned child false s letters = elim (Bool-cases (any_child child 26)) [
  | inl some_child ↦
      ap (λ (b : Bool). ends_word (if b then node child false else null) s) some_child
  | inr bare ↦
      ap (λ (b : Bool). ends_word (if b then node child false else null) s) bare
      ∙ (nodeless null s refl ∙ sym (barren child s letters bare))
]

-- Exactly the word that is removed is gone.
pub ends_word-removed :
    (t : TrieNode) (w s : List ℕ)
    → AllLetters s
    → ends_word (removed t w) s ≡ (not (same_word s w) && ends_word t s)
unfolding ends_word removed
ends_word-removed null w s letters = elim (Bool-cases (same_word s w)) [
  | inl h ↦ rw h refl
  | inr h ↦ rw h refl
]
ends_word-removed (node child b) [] [] letters = ends_word-pruned child false [] letters
ends_word-removed (node child b) [] (d ∷ s) letters = ends_word-pruned child false (d ∷ s) letters
ends_word-removed (node child b) (c ∷ w) [] letters =
    ends_word-pruned (with_child child c (removed (child c) w)) b [] letters
ends_word-removed (node child b) (c ∷ w) (d ∷ s) (lt, letters) =
    ends_word-pruned (with_child child c (removed (child c) w)) b (d ∷ s) (lt, letters)
    ∙ elim (Bool-cases (d == c)) [
      | inl here ↦
          ap (λ t. ends_word t s) (at_letter child c d (removed (child c) w) here)
          ∙ (ends_word-removed (child c) w s letters
              ∙ (ap (λ (k : ℕ). not (same_word s w) && ends_word (child k) s)
                    (sym ((==_iff d c).0 here))
                  ∙ sym (ap (λ b. not (b && same_word s w) && ends_word (child d) s) here)))
      | inr other ↦
          ap (λ t. ends_word t s) (off_letter child c d (removed (child c) w) other)
          ∙ sym (ap (λ b. not (b && same_word s w) && ends_word (child d) s) other)
    ]
