-- ===== src/DataStructures/Trie/Contract.antt =====
-- The contract of ProperDS/src/trie.h: what the header says of each function, in terms of the nodes
-- and their marks.
use low_level.Prelude.{ℕ, ◌↔◌, ◌++◌, ◌≡◌, Bool, true, false, ◌&&◌, ◌||◌, List}
use low_level.DataStructures.KeySet.{KeySet, not}
use low_level.DataStructures.Trie.{TrieNode, AllLetters, ends_word, is_node, Live, same_word}

abbrev pub Word : Type 0
Word = (s : List ℕ) × AllLetters s

abbrev pub eqb_word : Word → Word → Bool
eqb_word v w = same_word v.0 w.0

-- The root is never NULL, and every node below it leads to a word.
abbrev pub IsTrie : TrieNode → Type 0
IsTrie t = (is_node t ≡ true) × Live t

-- While `malloc` succeeds. A word has a node that ends it; a removal frees the nodes that no longer
-- lead to a word.
pub record TrieApi : Type 0 where
  pub trie_init : TrieNode
  pub trie_free : TrieNode → Unit {0}
  pub trie_insert : TrieNode → Word → Bool × TrieNode
  pub trie_contains : TrieNode → Word → Bool
  pub trie_starts_with : TrieNode → Word → Bool
  pub trie_remove : TrieNode → Word → Bool × TrieNode
  pub init_law : IsTrie trie_init × ((w : Word) → ends_word trie_init w.0 ≡ false)
  pub insert_answer :
      (t : TrieNode) (w : Word) → IsTrie t → (trie_insert t w).0 ≡ not (ends_word t w.0)
  pub insert_valid : (t : TrieNode) (w : Word) → IsTrie t → IsTrie (trie_insert t w).1
  pub insert_words :
      (t : TrieNode) (w v : Word)
      → IsTrie t
      → ends_word (trie_insert t w).1 v.0 ≡ (eqb_word v w || ends_word t v.0)
  pub contains_law : (t : TrieNode) (w : Word) → IsTrie t → trie_contains t w ≡ ends_word t w.0
  pub starts_with_law :
      (t : TrieNode) (p : Word)
      → IsTrie t
      → (trie_starts_with t p ≡ true)
        ↔ ((w : List ℕ) × AllLetters (p.0 ++ w) × (ends_word t (p.0 ++ w) ≡ true))
  pub remove_answer : (t : TrieNode) (w : Word) → IsTrie t → (trie_remove t w).0 ≡ ends_word t w.0
  pub remove_valid : (t : TrieNode) (w : Word) → IsTrie t → IsTrie (trie_remove t w).1
  pub remove_words :
      (t : TrieNode) (w v : Word)
      → IsTrie t
      → ends_word (trie_remove t w).1 v.0 ≡ (not (eqb_word v w) && ends_word t v.0)

abbrev pub word_set : TrieApi → KeySet Word eqb_word TrieNode
word_set api = record {
  Valid = IsTrie;
  has = λ t w. ends_word t w.0;
  insert = api.trie_insert;
  contains = api.trie_contains;
  remove = api.trie_remove;
  insert_answer = api.insert_answer;
  insert_valid = api.insert_valid;
  insert_has = api.insert_words;
  contains_answer = api.contains_law;
  remove_answer = api.remove_answer;
  remove_valid = api.remove_valid;
  remove_has = api.remove_words;
}
