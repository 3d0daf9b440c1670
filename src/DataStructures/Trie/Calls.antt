-- ===== src/DataStructures/Trie/Calls.antt =====
-- Insertion and removal that make and free nodes of ProperDS/src/trie.h keep a set of words.
use low_level.Prelude.{ℕ, ◌≡◌, refl, ◌∙◌, true, false, List, [], ◌∷◌}
use low_level.DataStructures.KeySet.{KeySet}
use low_level.DataStructures.Trie.{
  TrieNode, null, node, trie_init, ends_word, is_node, reaches, removed, rooted, trie_insert,
  trie_remove,
}
use low_level.DataStructures.Trie.Contract.{Word, eqb_word, IsTrie, TrieApi}
use low_level.DataStructures.Trie.Prefixes.{
  starts_with-contains, contains-starts_with, inserted-is_node, inserted-Live, removed-Live,
  init-Live,
}
use low_level.DataStructures.Trie.Words.{ends_word-inserted, ends_word-removed}

pub rooted-is_node : (t : TrieNode) → is_node (rooted t) ≡ true
rooted-is_node null = refl
rooted-is_node (node child b) = refl

pub ends_word-rooted : (t : TrieNode) (s : List ℕ) → ends_word (rooted t) s ≡ ends_word t s
unfolding ends_word
ends_word-rooted null [] = refl
ends_word-rooted null (c ∷ s) = refl
ends_word-rooted (node child b) s = refl

abbrev pub trie_set : KeySet Word eqb_word TrieNode
trie_set = record {
  Valid = IsTrie;
  has = λ t w. ends_word t w.0;
  insert = λ t w. trie_insert t w.0;
  contains = λ t w. ends_word t w.0;
  remove = λ t w. trie_remove t w.0;
  insert_answer = λ t w valid. refl;
  insert_valid = λ t w (root, live). (inserted-is_node t w.0, inserted-Live t w.0 w.1 live);
  insert_has = λ t w v valid. ends_word-inserted t w.0 v.0;
  contains_answer = λ t w valid. refl;
  remove_answer = λ t w valid. refl;
  remove_valid = λ t w (root, live). (rooted-is_node (removed t w.0), removed-Live t w.0 w.1 live);
  remove_has =
      λ t w v valid. ends_word-rooted (removed t w.0) v.0 ∙ ends_word-removed t w.0 v.0 v.1;
}

pub fresh : (s : List ℕ) → ends_word trie_init s ≡ false
unfolding ends_word
fresh [] = refl
fresh (c ∷ s) = refl

-- Functions that keep the contract.
pub growing : TrieApi
growing = record {
  trie_init = trie_init;
  trie_free = λ t. tt;
  trie_insert = λ t w. trie_insert t w.0;
  trie_contains = λ t w. ends_word t w.0;
  trie_starts_with = λ t p. reaches t p.0;
  trie_remove = λ t w. trie_remove t w.0;
  init_law = ((refl, init-Live), λ w. fresh w.0);
  insert_answer = trie_set.insert_answer;
  insert_valid = trie_set.insert_valid;
  insert_words = trie_set.insert_has;
  contains_law = λ t w valid. refl;
  starts_with_law = λ t p valid. (
    (λ e. starts_with-contains t p.0 valid.1 p.1 e),
    λ (w, letters, has). contains-starts_with t p.0 w letters has,
  );
  remove_answer = trie_set.remove_answer;
  remove_valid = trie_set.remove_valid;
  remove_words = trie_set.remove_has;
}
