-- ===== src/DataStructures/Graph/Marks.antt =====
-- Marked vertices, for the traversals of ProperDS/src/graph.h.
use low_level.Prelude.{
  ℕ, zero, suc, ◌+◌, ◌≤◌, ◌<◌, ◌≡◌, ◌⊎◌, inl, inr, refl, sym, ap, ◌∙◌, true, false, ◌||◌, List, [],
  ◌∷◌, ◌++◌, ◌==◌, ==_iff, if◌then◌else◌, Bool-cases, arith, ℕ_discrete,
}
use low_level.DataStructures.Graph.{seen}

pub seen-append : (x : ℕ) (s t : List ℕ) → seen x (s ++ t) ≡ (seen x s || seen x t)
seen-append x [] t = refl
seen-append x (y ∷ s) t = elim (Bool-cases (x == y)) [
  | inl same ↦ rw same refl
  | inr other ↦ rw other (seen-append x s t)
]

pub seen-snoc_self : (x : ℕ) (s : List ℕ) → seen x (s ++ x ∷ []) ≡ true
seen-snoc_self x [] = rw ((==_iff x x).1 refl) refl
seen-snoc_self x (y ∷ s) = elim (Bool-cases (x == y)) [
  | inl same ↦ rw same refl
  | inr other ↦ rw other (seen-snoc_self x s)
]

pub seen-snoc-left : (x v : ℕ) (s : List ℕ) → seen x s ≡ true → seen x (s ++ v ∷ []) ≡ true
seen-snoc-left x v [] e = cc
seen-snoc-left x v (y ∷ s) e = elim (Bool-cases (x == y)) [
  | inl same ↦ rw same refl
  | inr other ↦ rw other (seen-snoc-left x v s (rw other at e))
]

pub seen-snoc-cases :
    (x v : ℕ) (s : List ℕ) → seen x (s ++ v ∷ []) ≡ true → (seen x s ≡ true) ⊎ (x ≡ v)
seen-snoc-cases x v [] e = elim (Bool-cases (x == v)) [
  | inl same ↦ inr ((==_iff x v).0 same)
  | inr other ↦ inl (rw other at e)
]
seen-snoc-cases x v (y ∷ s) e = elim (Bool-cases (x == y)) [
  | inl same ↦ inl (rw same refl)
  | inr other ↦ rw other (seen-snoc-cases x v s (rw other at e))
]

pub seen-snoc-ne :
    (x v : ℕ) (s : List ℕ) → seen x s ≡ false → (x == v) ≡ false → seen x (s ++ v ∷ []) ≡ false
seen-snoc-ne x v [] e other = rw other refl
seen-snoc-ne x v (y ∷ s) e other = elim (Bool-cases (x == y)) [
  | inl same ↦ absurd (clash (rw same at e))
  | inr differs ↦ rw differs (seen-snoc-ne x v s (rw differs at e) other)
]
  where
    clash : true ≡ false → ⊥
    clash h = cc

seen-snoc-other : (m v : ℕ) (vis : List ℕ) → (m == v) ≡ false → seen m (vis ++ v ∷ []) ≡ seen m vis
seen-snoc-other m v vis other = elim (Bool-cases (seen m vis)) [
  | inl marked ↦ seen-snoc-left m v vis marked ∙ sym marked
  | inr free ↦ seen-snoc-ne m v vis free other ∙ sym free
]

-- What the vertices below `m` that are not marked weigh together.
abbrev pub weight : (ℕ → ℕ) → ℕ → List ℕ → ℕ
weight f zero vis = 0
weight f (suc m) vis = (if seen m vis then 0 else f m) + weight f m vis

weight-above :
    (f : ℕ → ℕ) (m v : ℕ) (vis : List ℕ) → m ≤ v → weight f m (vis ++ v ∷ []) ≡ weight f m vis
weight-above f zero v vis le = refl
weight-above f (suc m) v vis le =
    let other : (m == v) ≡ false = ground (arith, le) in
    let same = seen-snoc-other m v vis other in
    ap (λ b. (if b then 0 else f m) + weight f m (vis ++ v ∷ [])) same
    ∙ ap (λ (t : ℕ). (if seen m vis then 0 else f m) + t)
        (weight-above f m v vis (omega (arith, le)))

-- A vertex that is marked takes its weight with it.
pub weight-mark :
    (f : ℕ → ℕ) (m v : ℕ) (vis : List ℕ)
    → v < m
    → seen v vis ≡ false
    → weight f m (vis ++ v ∷ []) + f v ≡ weight f m vis
weight-mark f zero v vis lt e = absurd (omega (arith, lt))
weight-mark f (suc m) v vis lt e = elim (ℕ_discrete v m) [
  | yes here ↦
      let free : seen m vis ≡ false = sym (ap (λ t. seen t vis) here) ∙ e in
      let marked : seen m (vis ++ v ∷ []) ≡ true =
        ap (λ t. seen m (vis ++ t ∷ [])) here ∙ seen-snoc_self m vis in
      rw (marked, free) (omega (arith, weight-above f m v vis (omega (arith, here)), ap f here))
  | no below ↦
      let same : seen m (vis ++ v ∷ []) ≡ seen m vis =
        seen-snoc-other m v vis (ground (arith, below)) in
      rw same (omega (arith, weight-mark f m v vis (omega (arith, lt, below)) e))
]
