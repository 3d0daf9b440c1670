-- ===== src/DataStructures/Trie.antt =====
-- ProperDS/src/trie.h: a prefix tree over 26 letters. A letter is its index `c - 'a'`, and a word the
-- list of its letters. The functions of the header are the fields of the record in Contract; those
-- written down here that change a trie are one way to keep its laws, for the tests.
pub mod Words
pub mod Prefixes
pub mod Calls
pub mod Contract
pub mod Nodes
use low_level.Prelude.{
  ℕ, zero, suc, ◌+◌, ◌<◌, ◌≡◌, Bool, true, false, ◌&&◌, ◌||◌, List, [], ◌∷◌, if◌then◌else◌, ◌==◌,
}
use low_level.DataStructures.KeySet.{not}

-- `null` is the pointer NULL; a node has its children by their letter and `is_word`.
pub data TrieNode : Type 0 where
  null : TrieNode
  node : (ℕ → TrieNode) → Bool → TrieNode

-- The slots of the array.
abbrev pub AllLetters : List ℕ → Type 0
AllLetters [] = Unit {0}
AllLetters (c ∷ s) = (c < 26) × AllLetters s

abbrev pub no_child : ℕ → TrieNode
no_child c = null

abbrev pub with_child : (ℕ → TrieNode) → ℕ → TrieNode → ℕ → TrieNode
with_child child c t d = if d == c then t else child d

-- A new tree is a root without a word.
abbrev pub trie_init : TrieNode
trie_init = node no_child false

-- The walk along a word ends at a node that is marked as the end of one.
unfoldable pub ends_word : TrieNode → List ℕ → Bool
ends_word null s = false
ends_word (node child is_word) [] = is_word
ends_word (node child is_word) (c ∷ s) = ends_word (child c) s

-- The tree with the word, made of new nodes where there is none.
unfoldable pub inserted : TrieNode → List ℕ → TrieNode
inserted null [] = node no_child true
inserted (node child is_word) [] = node child true
inserted null (c ∷ s) = node (with_child no_child c (inserted null s)) false
inserted (node child is_word) (c ∷ s) = node (with_child child c (inserted (child c) s)) is_word

abbrev pub is_node : TrieNode → Bool
is_node null = false
is_node (node child is_word) = true

-- Does a node have a child among the first `k` letters?
abbrev pub any_child : (ℕ → TrieNode) → ℕ → Bool
any_child child zero = false
any_child child (suc k) = is_node (child k) || any_child child k

-- A node without a word and without a child is freed.
abbrev pub pruned : (ℕ → TrieNode) → Bool → TrieNode
pruned child is_word = if is_word || any_child child 26 then node child is_word else null

unfoldable pub removed : TrieNode → List ℕ → TrieNode
removed null s = null
removed (node child is_word) [] = pruned child false
removed (node child is_word) (c ∷ s) = pruned (with_child child c (removed (child c) s)) is_word

-- The root is never freed.
abbrev pub rooted : TrieNode → TrieNode
rooted null = trie_init
rooted (node child is_word) = node child is_word

abbrev pub trie_insert : TrieNode → List ℕ → Bool × TrieNode
trie_insert t s = (not (ends_word t s), inserted t s)

abbrev pub trie_remove : TrieNode → List ℕ → Bool × TrieNode
trie_remove t s = (ends_word t s, rooted (removed t s))

-- Does a node end a word or have a child?
abbrev pub leads : TrieNode → Bool
leads null = false
leads (node child is_word) = is_word || any_child child 26

-- A prefix leads to a node, which may not be a root without words.
unfoldable pub reaches : TrieNode → List ℕ → Bool
reaches null p = false
reaches (node child is_word) [] = leads (node child is_word)
reaches (node child is_word) (c ∷ p) = reaches (child c) p

-- Every node below leads to a word.
unfoldable pub Live : TrieNode → Type 0
Live null = Unit {0}
Live (node child is_word) =
    (c : ℕ) → c < 26 → Live (child c) × (is_node (child c) ≡ leads (child c))

abbrev pub same_word : List ℕ → List ℕ → Bool
same_word [] [] = true
same_word [] (d ∷ t) = false
same_word (c ∷ s) [] = false
same_word (c ∷ s) (d ∷ t) = (c == d) && same_word s t
