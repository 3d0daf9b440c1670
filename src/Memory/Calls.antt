-- ===== src/Memory/Calls.antt =====
-- Many pushes on the vector of ProperC/src/memory.h, and what a copied string is good for.
use low_level.Prelude.{
  ℕ, suc, ◌≡◌, refl, sym, ap, ◌∙◌, Bool, true, false, none, some, List, [], ◌∷◌, ◌++◌, append_assoc,
  append-nil, length, inl, inr,
}
use mathlib.Core.Path.{subst}
use mathlib.Core.Option.{some-injective}
use low_level.Prelude.Int.{ℤ, pos}
use low_level.Interview.Strfns.{Holds}
use low_level.Strings.{StringsApi}
use low_level.Memory.{IntVec, IsIntVec, elements, MemoryApi}

-- The values whose push has returned true.
abbrev pub accepted : List ℤ → List Bool → List ℤ
accepted [] flags = []
accepted (x ∷ xs) [] = []
accepted (x ∷ xs) (true ∷ flags) = x ∷ accepted xs flags
accepted (x ∷ xs) (false ∷ flags) = accepted xs flags

module _ (api : MemoryApi) where
  abbrev pub push_all : IntVec → List ℤ → List Bool × IntVec
  push_all v [] = ([], v)
  push_all v (x ∷ xs) =
      let (ok, w) = api.vec_push v x in let (flags, end) = push_all w xs in (ok ∷ flags, end)

  -- Whichever of the pushes fail, the vector holds in the end what it held, and behind it in order
  -- the values whose push has returned true, and no other; its invariant holds again.
  pub vec_push-accepted :
      (v : IntVec) (xs : List ℤ)
      → IsIntVec v
      → IsIntVec (push_all v xs).1
        × (length (push_all v xs).0 ≡ length xs)
        × (elements (push_all v xs).1 ≡ elements v ++ accepted xs (push_all v xs).0)
  vec_push-accepted v [] valid = (valid, refl, sym (append-nil (elements v)))
  vec_push-accepted v (x ∷ xs) valid = elim (api.push_law v x valid) [
    | inl failed ↦
        let (valid', count, held) = vec_push-accepted v xs valid in
        rw failed (valid', ap suc count, held)
    | inr (w, pushed, fine, longer) ↦
        let (valid', count, held) = vec_push-accepted w xs fine in
        rw pushed (
          valid',
          ap suc count,
          held
              ∙ ap (λ l. l ++ accepted xs (push_all w xs).0) longer
              ∙ append_assoc (elements v) (x ∷ []) (accepted xs (push_all w xs).0),
        )
  ]

-- A copy that my_strdup returns is a string of its own that my_strlen and my_strcmp cannot tell from the first.
pub my_strdup-my_strcmp :
    (api : MemoryApi) (strings : StringsApi) (b s copy : List ℕ)
    → Holds b s
    → api.my_strdup b ≡ some copy
    → Holds copy s
      × (strings.my_strcmp b copy ≡ pos 0)
      × (strings.my_strlen copy ≡ strings.my_strlen b)
my_strdup-my_strcmp api strings b s copy h e = elim (api.strdup_law b s h) [
  | inl failed ↦ absurd (clash (sym failed ∙ e))
  | inr (c, made, held) ↦
      let same : c ≡ copy = some-injective _ _ (sym made ∙ e) in
      let kept : Holds copy s = subst (λ t. Holds t s) same held in
      (
        kept,
        strings.strcmp_equal b copy s h kept,
        strings.strlen_law copy s kept ∙ sym (strings.strlen_law b s h),
      )
]
  where
    clash : none ≡ some copy → ⊥
    clash x = cc
