-- ===== src/Net/Bytes.antt =====
-- Splitting strings, for the parsers of ProperNet/src.
use low_level.Prelude.{
  ℕ, ◌≡◌, refl, sym, ap, ◌∙◌, Bool, true, false, Option, none, some, List, [], ◌∷◌, ◌++◌,
  if◌then◌else◌, ◌==◌, Bool-cases, inl, inr, ==_iff, ◌&&◌, ◌||◌,
}

-- The bytes before the first one that passes the test, and the others.
abbrev pub before : (ℕ → Bool) → List ℕ → List ℕ
before stop [] = []
before stop (c ∷ s) = let rest = before stop s in if stop c then [] else c ∷ rest

abbrev pub from : (ℕ → Bool) → List ℕ → List ℕ
from stop [] = []
from stop (c ∷ s) = let rest = from stop s in if stop c then c ∷ s else rest

abbrev pub none_of : (ℕ → Bool) → List ℕ → Bool
none_of stop [] = true
none_of stop (c ∷ s) = let rest = none_of stop s in if stop c then false else rest

-- What follows a given beginning.
abbrev pub strip_prefix : List ℕ → List ℕ → Option (List ℕ)
strip_prefix [] s = some s
strip_prefix (c ∷ p) [] = none
strip_prefix (c ∷ p) (d ∷ s) = let rest = strip_prefix p s in if c == d then rest else none

pub strip_prefix-append : (p s : List ℕ) → strip_prefix p (p ++ s) ≡ some s
strip_prefix-append [] s = refl
strip_prefix-append (c ∷ p) s = rw ((==_iff c c).1 refl) (strip_prefix-append p s)

module _ (stop : ℕ → Bool) where
  pub none_of-before : (s : List ℕ) → none_of stop (before stop s) ≡ true
  none_of-before [] = refl
  none_of-before (c ∷ s) = elim (Bool-cases (stop c)) [
    | inl here ↦ rw here refl
    | inr not_here ↦ rw not_here (rw not_here (none_of-before s))
  ]

  pub none_of-cons :
      (c : ℕ) (s : List ℕ)
      → none_of stop (c ∷ s) ≡ true
      → (stop c ≡ false) × (none_of stop s ≡ true)
  none_of-cons c s e = elim (Bool-cases (stop c)) [
    | inl here ↦ absurd (clash (rw here at e))
    | inr not_here ↦ (not_here, rw not_here at e)
  ]
    where
      clash : false ≡ true → ⊥
      clash h = cc

  -- The first byte that passes the test is found, and so is the end when none does.
  pub before-append :
      (s : List ℕ) (c : ℕ) (rest : List ℕ)
      → none_of stop s ≡ true
      → stop c ≡ true
      → (before stop (s ++ c ∷ rest) ≡ s) × (from stop (s ++ c ∷ rest) ≡ c ∷ rest)
  before-append [] c rest e here = (rw here refl, rw here refl)
  before-append (d ∷ s) c rest e here =
      let (not_here, others) = none_of-cons d s e in
      let (a, b) = before-append s c rest others here in
      (rw not_here (ap (λ t. d ∷ t) a), rw not_here b)

  pub before-whole : (s : List ℕ) → none_of stop s ≡ true → (before stop s ≡ s) × (from stop s ≡ [])
  before-whole [] e = (refl, refl)
  before-whole (d ∷ s) e =
      let (not_here, others) = none_of-cons d s e in
      let (a, b) = before-whole s others in (rw not_here (ap (λ t. d ∷ t) a), rw not_here b)

  pub from-cons : (s : List ℕ) (c : ℕ) (rest : List ℕ) → from stop s ≡ c ∷ rest → stop c ≡ true
  from-cons [] c rest e = absurd (clash e)
    where
      clash : [] ≡ c ∷ rest → ⊥
      clash h = cc
  from-cons (d ∷ s) c rest e = elim (Bool-cases (stop d)) [
    | inl here ↦
        let whole : d ∷ s ≡ c ∷ rest = rw here at e in
        let same : d ≡ c = cc in ap stop (sym same) ∙ here
    | inr not_here ↦ from-cons s c rest (rw not_here at e)
  ]

-- Boolean tests taken apart.
pub and_split : {x y : Bool} → (x && y) ≡ true → (x ≡ true) × (y ≡ true)
and_split {x = true} e = (refl, e)
and_split {x = false} e = cc

pub or_left : (x y : Bool) → x ≡ true → (x || y) ≡ true
or_left true y e = refl
or_left false y e = cc

pub or_right : (x y : Bool) → y ≡ true → (x || y) ≡ true
or_right true y e = refl
or_right false y e = e

pub none_of-append :
    (stop : ℕ → Bool) (s t : List ℕ)
    → none_of stop s ≡ true
    → none_of stop t ≡ true
    → none_of stop (s ++ t) ≡ true
none_of-append stop [] t a b = b
none_of-append stop (c ∷ s) t a b =
    let (here, others) = none_of-cons stop c s a in rw here (none_of-append stop s t others b)

-- Bytes that pass a stronger test are not there either.
pub none_of-weaken :
    (q p : ℕ → Bool)
    → ((c : ℕ) → q c ≡ true → p c ≡ true)
    → (s : List ℕ) → none_of p s ≡ true
    → none_of q s ≡ true
none_of-weaken q p h [] e = refl
none_of-weaken q p h (c ∷ s) e =
    let (here, others) = none_of-cons p c s e in
    elim (Bool-cases (q c)) [
      | inl yes_q ↦ absurd (clash (sym here ∙ h c yes_q))
      | inr no_q ↦ rw no_q (none_of-weaken q p h s others)
    ]
  where
    clash : false ≡ true → ⊥
    clash x = cc

-- The branch that is taken when a guarded result is given.
pub guarded {ℓ} :
    {A : Type ℓ} (b : Bool) (o : Option A) {a : A}
    → (if b then o else none) ≡ some a
    → (b ≡ true) × (o ≡ some a)
guarded true o e = (refl, e)
guarded false o e = cc
