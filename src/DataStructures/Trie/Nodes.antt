-- ===== src/DataStructures/Trie/Nodes.antt =====
-- What the pruning of ProperDS/src/trie.h leaves: nodes that lead to words, and no others.
use low_level.Prelude.{◌≡◌, ◌∙◌, sym, true, false, List, Bool-cases, inl, inr}
use low_level.DataStructures.KeySet.{Call, left_by, left_by-Valid}
use low_level.DataStructures.Trie.{TrieNode, leads}
use low_level.DataStructures.Trie.Contract.{Word, eqb_word, IsTrie, TrieApi, word_set}
use low_level.DataStructures.Trie.Prefixes.{word_below}

module _ (api : TrieApi) (calls : List (Call Word)) where
  abbrev left : TrieNode
  left = left_by eqb_word (word_set api) calls api.trie_init

  left-IsTrie : IsTrie left
  left-IsTrie = left_by-Valid eqb_word (word_set api) calls api.trie_init api.init_law.0

  -- When insertions and removals on a new tree leave no word, the root has no children: every node
  -- but the root is freed.
  pub leads-no_words :
      ((w : Word)
        → api.trie_contains (left_by eqb_word (word_set api) calls api.trie_init) w ≡ false)
      → leads (left_by eqb_word (word_set api) calls api.trie_init) ≡ false
  leads-no_words none_left = elim (Bool-cases (leads left)) [
    | inl some_word ↦
        let (w, letters, has) = word_below left left-IsTrie.1 some_word in
        let h : true ≡ false =
          sym has ∙ sym (api.contains_law left (w, letters) left-IsTrie) ∙ none_left (w, letters) in
        cc
    | inr bare ↦ bare
  ]
