-- ===== src/DataStructures/Trie/Prefixes.antt =====
-- reaches of ProperDS/src/trie.h, and the nodes that lead to a word.
use low_level.Prelude.{
  ℕ, zero, suc, ◌<◌, ◌≡◌, refl, sym, ap, ◌∙◌, Bool, true, false, ◌||◌, List, [], ◌∷◌, ◌++◌,
  if◌then◌else◌, ◌==◌, ==_iff, Bool-cases, inl, inr, arith, ℕ_discrete,
}
use mathlib.Core.Path.{subst}
use low_level.DataStructures.Trie.{
  TrieNode, null, node, AllLetters, no_child, with_child, trie_init, ends_word, inserted, is_node,
  any_child, pruned, removed, rooted, leads, reaches, Live, same_word,
}
use low_level.DataStructures.Trie.Words.{at_letter, off_letter, ends_word-inserted}

any_child-at :
    (child : ℕ → TrieNode) (k c : ℕ) → c < k → is_node (child c) ≡ true → any_child child k ≡ true
any_child-at child zero c lt e = absurd (omega (arith, lt))
any_child-at child (suc k) c lt e = elim (Bool-cases (is_node (child k))) [
  | inl here ↦ ap (λ b. b || any_child child k) here
  | inr bare ↦ elim (ℕ_discrete c k) [
    | yes same ↦ absurd (clash (sym e ∙ (ap (λ (k : ℕ). is_node (child k)) same ∙ bare)))
    | no other ↦
        ap (λ b. b || any_child child k) bare ∙ any_child-at child k c (omega (arith, lt, other)) e
  ]
]
  where
    clash : true ≡ false → ⊥
    clash h = cc

some_child :
    (child : ℕ → TrieNode) (k : ℕ)
    → any_child child k ≡ true
    → (c : ℕ) × (c < k) × (is_node (child c) ≡ true)
some_child child zero e = cc
some_child child (suc k) e = elim (Bool-cases (is_node (child k))) [
  | inl here ↦ (k, omega arith, here)
  | inr bare ↦
      let (c, lt, found) = some_child child k (sym (ap (λ b. b || any_child child k) bare) ∙ e) in
      (c, omega (arith, lt), found)
]

contains-is_node : (t : TrieNode) (s : List ℕ) → ends_word t s ≡ true → is_node t ≡ true
unfolding ends_word
contains-is_node null s e = cc
contains-is_node (node child b) s e = refl

contains-leads : (t : TrieNode) (s : List ℕ) → AllLetters s → ends_word t s ≡ true → leads t ≡ true
unfolding ends_word
contains-leads null s letters e = cc
contains-leads (node child b) [] letters e = ap (λ b. b || any_child child 26) e
contains-leads (node child true) (c ∷ s) letters e = refl
contains-leads (node child false) (c ∷ s) (lt, letters) e =
    any_child-at child 26 c lt (contains-is_node (child c) s e)

-- A prefix of a word leads to a node.
pub contains-starts_with :
    (t : TrieNode) (p w : List ℕ)
    → AllLetters (p ++ w)
    → ends_word t (p ++ w) ≡ true
    → reaches t p ≡ true
unfolding ends_word reaches
contains-starts_with null p w letters e = cc
contains-starts_with (node child b) [] w letters e = contains-leads (node child b) w letters e
contains-starts_with (node child b) (c ∷ p) w (lt, letters) e =
    contains-starts_with (child c) p w letters e

-- A node that leads somewhere leads to a word, where all nodes below do.
pub word_below :
    (t : TrieNode) → Live t → leads t ≡ true → (w : List ℕ) × AllLetters w × (ends_word t w ≡ true)
unfolding Live ends_word
word_below null live e = cc
word_below (node child true) live e = ([], tt, refl)
word_below (node child false) live e =
    let (c, lt, found) = some_child child 26 e in
    let (w, letters, has) = word_below (child c) (live c lt).0 (sym (live c lt).1 ∙ found) in
    (c ∷ w, (lt, letters), has)

-- A prefix that leads to a node is one of a word.
pub starts_with-contains :
    (t : TrieNode) (p : List ℕ)
    → Live t
    → AllLetters p
    → reaches t p ≡ true
    → (w : List ℕ) × AllLetters (p ++ w) × (ends_word t (p ++ w) ≡ true)
unfolding Live ends_word reaches
starts_with-contains null p live letters e = cc
starts_with-contains (node child b) [] live letters e = word_below (node child b) live e
starts_with-contains (node child b) (c ∷ p) live (lt, letters) e =
    let (w, letters', has) = starts_with-contains (child c) p (live c lt).0 letters e in
    (w, (lt, letters'), has)

same_word_refl : (s : List ℕ) → same_word s s ≡ true
same_word_refl [] = refl
same_word_refl (c ∷ s) = rw ((==_iff c c).1 refl, same_word_refl s) refl

leads-inserted : (t : TrieNode) (w : List ℕ) → AllLetters w → leads (inserted t w) ≡ true
leads-inserted t w letters =
    contains-leads (inserted t w) w letters
      (ends_word-inserted t w w ∙ ap (λ b. b || ends_word t w) (same_word_refl w))

pub inserted-is_node : (t : TrieNode) (w : List ℕ) → is_node (inserted t w) ≡ true
unfolding inserted
inserted-is_node null [] = refl
inserted-is_node null (c ∷ w) = refl
inserted-is_node (node child b) [] = refl
inserted-is_node (node child b) (c ∷ w) = refl

-- What a slot is to hold.
abbrev Good : TrieNode → Type 0
Good t = Live t × (is_node t ≡ leads t)

with_child-Good :
    (child : ℕ → TrieNode) (c : ℕ) (t : TrieNode)
    → Good t
    → ((d : ℕ) → d < 26 → Good (child d))
    → (d : ℕ) → d < 26
    → Good (with_child child c t d)
with_child-Good child c t good goods d lt = elim (Bool-cases (d == c)) [
  | inl here ↦ subst Good (sym (at_letter child c d t here)) good
  | inr other ↦ subst Good (sym (off_letter child c d t other)) (goods d lt)
]

pub inserted-Live : (t : TrieNode) (w : List ℕ) → AllLetters w → Live t → Live (inserted t w)
unfolding Live inserted
inserted-Live null [] letters live = λ c lt. (tt, refl)
inserted-Live (node child b) [] letters live = live
inserted-Live null (c ∷ w) (lt, letters) live =
    with_child-Good no_child c (inserted null w)
      (
        inserted-Live null w letters tt,
        inserted-is_node null w ∙ sym (leads-inserted null w letters),
      )
      (λ d lt'. (tt, refl))
inserted-Live (node child b) (c ∷ w) (lt, letters) live =
    with_child-Good child c (inserted (child c) w)
      (
        inserted-Live (child c) w letters (live c lt).0,
        inserted-is_node (child c) w ∙ sym (leads-inserted (child c) w letters),
      )
      live

pruned-Good :
    (child : ℕ → TrieNode) (b : Bool) → ((d : ℕ) → d < 26 → Good (child d)) → Good (pruned child b)
unfolding Live
pruned-Good child true goods = (goods, refl)
pruned-Good child false goods = elim (Bool-cases (any_child child 26)) [
  | inl kept ↦ subst (λ b. Good (if b then node child false else null)) (sym kept) (goods, sym kept)
  | inr bare ↦ subst (λ b. Good (if b then node child false else null)) (sym bare) (tt, refl)
]

removed-Good : (t : TrieNode) (w : List ℕ) → AllLetters w → Live t → Good (removed t w)
unfolding Live removed
removed-Good null w letters live = (tt, refl)
removed-Good (node child b) [] letters live = pruned-Good child false live
removed-Good (node child b) (c ∷ w) (lt, letters) live =
    pruned-Good (with_child child c (removed (child c) w)) b (
      with_child-Good child c (removed (child c) w) (removed-Good (child c) w letters (live c lt).0)
        live)

rooted-Live : (t : TrieNode) → Live t → Live (rooted t)
unfolding Live
rooted-Live null live = λ c lt. (tt, refl)
rooted-Live (node child b) live = live

pub removed-Live : (t : TrieNode) (w : List ℕ) → AllLetters w → Live t → Live (rooted (removed t w))
removed-Live t w letters live = rooted-Live (removed t w) (removed-Good t w letters live).0

pub init-Live : Live trie_init
unfolding Live
init-Live c lt = (tt, refl)
