-- ===== src/DataStructures/HashOpen/Marks.antt =====
-- What a tombstone of ProperDS/src/hashopen.h does to the searches after it.
use low_level.Prelude.{
  ℕ, ◌≡◌, refl, sym, ap, ◌∙◌, Bool, false, Option, none, some, List, is_some, if◌then◌else◌, ◌+◌,
}
use mathlib.Core.Option.{some-injective}
use low_level.Prelude.Int.{ℤ}
use low_level.DataStructures.Fnv.{key_eq, key_eq_refl}
use low_level.DataStructures.HashChain.{answer}
use low_level.DataStructures.HashOpen.{HashOpen, IsHashOpen, value_of, hashopen_delete}
use low_level.DataStructures.HashOpen.Values.{found, present, missing}
use low_level.DataStructures.HashOpen.Updates.{hashopen_delete_lem}
use low_level.DataStructures.HashOpen.Contract.{HashOpenApi}

answer_ok : (o : Option ℤ) (out : ℤ) → (answer o out).0 ≡ is_some o
answer_ok none out = refl
answer_ok (some v) out = refl

module _ (api : HashOpenApi) where
  get_lem :
      (t : HashOpen) (k : List ℕ) (out : ℤ)
      → IsHashOpen t
      → api.hashopen_get t k out ≡ answer (value_of t k) out
  get_lem t k out valid = elim (found t valid k) [
    | present i v finds here value ↦
        api.get_law t k (some i) out valid finds ∙ rw (finds, here) refl
    | missing finds value absent ↦ api.get_law t k none out valid finds ∙ rw finds refl
  ]

  delete_agrees :
      (t : HashOpen) (k : List ℕ)
      → IsHashOpen t
      → hashopen_delete t k ≡ some (api.hashopen_delete t k)
  unfolding hashopen_delete
  delete_agrees t k valid = elim (found t valid k) [
    | present i v finds here value ↦ rw (finds, api.delete_present t k i valid finds) refl
    | missing finds value absent ↦ rw (finds, api.delete_absent t k valid finds) refl
  ]

  -- Deleting a key from a valid table, whether it is there or not, leaves a valid table in which a
  -- search for it fails and leaves `*out` as it was, and a search for another key ends as before,
  -- past the mark; hashopen_len is one less if the key was there; and deleting it once more changes
  -- nothing.
  pub hashopen_get-hashopen_delete :
      (t : HashOpen) (k j : List ℕ) (out : ℤ)
      → IsHashOpen t
      → key_eq j k ≡ false
      → IsHashOpen (api.hashopen_delete t k).1
        × (api.hashopen_get (api.hashopen_delete t k).1 k out ≡ (false, out))
        × (api.hashopen_get (api.hashopen_delete t k).1 j out ≡ api.hashopen_get t j out)
        × (api.hashopen_len (api.hashopen_delete t k).1
              + (if (api.hashopen_get t k out).0 then 1 else 0)
            ≡ api.hashopen_len t)
        × (api.hashopen_delete (api.hashopen_delete t k).1 k ≡ (false, (api.hashopen_delete t k).1))
  hashopen_get-hashopen_delete t k j out valid other =
      let (t', runs, valid', shorter, sets) = hashopen_delete_lem t k valid in
      let result : api.hashopen_delete t k ≡ (is_some (value_of t k), t') =
        some-injective _ _ (sym (delete_agrees t k valid) ∙ runs) in
      let gone : value_of t' k ≡ none =
        sets k ∙ ap (λ (b : Bool). if b then none else value_of t k) (key_eq_refl k) in
      let again : api.hashopen_delete t' k ≡ (false, t') = elim (found t' valid' k) [
        | present i v finds here value ↦ let clash : some v ≡ none = sym value ∙ gone in cc
        | missing finds value absent ↦ api.delete_absent t' k valid' finds
      ] in
      rw
        (result, api.len_law t', api.len_law t, get_lem t k out valid, answer_ok (value_of t k) out)
        (
          valid',
          get_lem t' k out valid' ∙ ap (λ o. answer o out) gone,
          get_lem t' j out valid'
              ∙ ap (λ o. answer o out)
                  (sets j ∙ ap (λ (b : Bool). if b then none else value_of t j) other)
              ∙ sym (get_lem t j out valid),
          shorter,
          again,
        )
