-- ===== src/DataStructures/Examples/Words.antt =====
-- The theorem on ProperDS/src/trie.h at concrete calls: the words "a", "ab" and "b".
use low_level.Prelude.{List, [], ◌∷◌, arith}
use low_level.DataStructures.KeySet.{Call, insert, contains, remove}
use low_level.DataStructures.Trie.Contract.{Word}

abbrev a : Word
a = (0 ∷ [], (omega arith, tt))

abbrev ab : Word
ab = (0 ∷ 1 ∷ [], (omega arith, (omega arith, tt)))

abbrev b : Word
b = (1 ∷ [], (omega arith, tt))

abbrev word_calls : List (Call Word)
word_calls = insert ab ∷ contains a ∷ insert a ∷ insert b ∷ remove ab ∷ remove b ∷ remove ab ∷ []
