-- ===== src/DataStructures/Trace.antt =====
-- Sequences of calls: a structure that follows a specification step by step answers every sequence
-- of calls as the specification does.
use low_level.Prelude.{◌≡◌, refl, ap₂, List, [], ◌∷◌}

module _ {ℓ κ μ} {Op : Type ℓ} {Out : Type κ} {S : Type μ} where
  -- The answers to a sequence of calls.
  unfoldable pub run : (Op → S → Out × S) → List Op → S → List Out
  run step [] s = []
  run step (op ∷ ops) s = let (out, s') = step op s in out ∷ run step ops s'

module _ {ℓ κ μ ν λ'} {Op : Type ℓ} {Out : Type κ} {S : Type μ} {A : Type ν}
    (step : Op → S → Out × S) (spec : Op → A → Out × A) (Rel : S → A → Type λ') where
  -- One call from related states gives the same answer and related states.
  abbrev pub Follows : Type (ℓ ⊔ κ ⊔ μ ⊔ ν ⊔ λ')
  Follows =
      (op : Op) (s : S) (a : A)
      → Rel s a
      → ((step op s).0 ≡ (spec op a).0) × Rel (step op s).1 (spec op a).1

  pub run-Follows :
      (ops : List Op) (s : S) (a : A) → Follows → Rel s a → run step ops s ≡ run spec ops a
  unfolding run
  run-Follows [] s a follows r = refl
  run-Follows (op ∷ ops) s a follows r =
      let (same, next) = follows op s a r in
      ap₂ ◌∷◌ same (run-Follows ops (step op s).1 (spec op a).1 follows next)
