-- ===== src/DataStructures/Fnv.antt =====
-- The hash of ProperDS/src/hashchain.h and ProperDS/src/hashopen.h: FNV-1a with 64 bits. A key is
-- the list of its bytes, without the terminator.
use low_level.Prelude.{
  ℕ, ◌*◌, ◌%◌, ◌^◌, ◌≡◌, refl, Bool, true, false, ◌&&◌, List, [], ◌∷◌, bit_xor, ◌==◌, arith,
}

abbrev pub offset_basis : ℕ
offset_basis = 14695981039346656037

abbrev pub fnv_prime : ℕ
fnv_prime = 1099511628211

-- `for each byte b: h ^= b; h *= 1099511628211`
unfoldable pub fnv1a_loop : ℕ → List ℕ → ℕ
fnv1a_loop h [] = h
fnv1a_loop h (b ∷ bytes) = fnv1a_loop (bit_xor h b * fnv_prime % 2 ^ 64) bytes

unfoldable pub fnv1a : List ℕ → ℕ
fnv1a s = fnv1a_loop offset_basis s

-- `strcmp(a, b) == 0`
unfoldable pub key_eq : List ℕ → List ℕ → Bool
key_eq [] [] = true
key_eq [] (b ∷ ys) = false
key_eq (a ∷ xs) [] = false
key_eq (a ∷ xs) (b ∷ ys) = a == b && key_eq xs ys

pub key_eq_refl : (k : List ℕ) → key_eq k k ≡ true
unfolding key_eq
key_eq_refl [] = refl
key_eq_refl (a ∷ xs) = ground (arith, key_eq_refl xs)

pub eq_of_key_eq : (k j : List ℕ) → key_eq k j ≡ true → k ≡ j
unfolding key_eq
eq_of_key_eq [] [] h = refl
eq_of_key_eq [] (b ∷ ys) h = cc
eq_of_key_eq (a ∷ xs) [] h = cc
eq_of_key_eq (a ∷ xs) (b ∷ ys) h = ground (arith, eq_of_key_eq xs ys)
