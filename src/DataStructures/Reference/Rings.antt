-- ===== src/DataStructures/Reference/Rings.antt =====
-- A ring buffer rebuilt from its elements.
use native.Mathlib.Nat.{mod-lt}
use low_level.Prelude.{
  ℕ, zero, suc, ◌+◌, ◌%◌, ◌≤◌, ◌<◌, ◌≡◌, refl, sym, ap, ◌∙◌, List, [], ◌∷◌, ◌++◌, length, get_or,
  arith,
}
use low_level.Prelude.Int.{ℤ, pos}
use low_level.DataStructures.Ring.{at, tabulate, length-tabulate, unslot, unslot-slot}

pub get_or-tabulate : (n : ℕ) (f : ℕ → ℤ) (i : ℕ) → i < n → get_or (tabulate n f) i (pos 0) ≡ f i
get_or-tabulate zero f i h = absurd (omega arith)
get_or-tabulate (suc n) f zero h = refl
get_or-tabulate (suc n) f (suc i) h = get_or-tabulate n (λ j. f (suc j)) i (omega arith)

-- The buffer of `cap` slots whose logical elements, from `head` on, are these.
pub scatter : List ℤ → (cap head : ℕ) → List ℤ
scatter xs cap head = tabulate cap (λ s. get_or xs (unslot cap head s) (pos 0))

pub length-scatter : (xs : List ℤ) (cap head : ℕ) → length (scatter xs cap head) ≡ cap
unfolding scatter
length-scatter xs cap head = length-tabulate cap (λ s. get_or xs (unslot cap head s) (pos 0))

pub at-scatter :
    (xs : List ℤ) (cap head i : ℕ)
    → i < cap
    → at (scatter xs cap head) cap head i ≡ get_or xs i (pos 0)
unfolding scatter
at-scatter xs cap head i lt =
    get_or-tabulate cap (λ s. get_or xs (unslot cap head s) (pos 0)) ((head + i) % cap)
      (mod-lt (head + i) (omega arith))
    ∙ ap (λ j. get_or xs j (pos 0)) (unslot-slot cap head i lt)

pub get_or-front :
    (xs ys : List ℤ) (i : ℕ) → i < length xs → get_or (xs ++ ys) i (pos 0) ≡ get_or xs i (pos 0)
get_or-front [] ys i h = absurd (omega arith)
get_or-front (x ∷ xs) ys zero h = refl
get_or-front (x ∷ xs) ys (suc i) h = get_or-front xs ys i (omega arith)

pub get_or-last : (xs : List ℤ) (y : ℤ) → get_or (xs ++ y ∷ []) (length xs) (pos 0) ≡ y
get_or-last [] y = refl
get_or-last (x ∷ xs) y = get_or-last xs y

-- The element behind a tabulated list, and those in it.
pub at-appended :
    (n : ℕ) (f : ℕ → ℤ) (x : ℤ) (cap head : ℕ)
    → n < cap
    → at (scatter (tabulate n f ++ x ∷ []) cap head) cap head n ≡ x
at-appended n f x cap head lt =
    at-scatter (tabulate n f ++ x ∷ []) cap head n lt
    ∙ ap (λ j. get_or (tabulate n f ++ x ∷ []) j (pos 0)) (sym (length-tabulate n f))
    ∙ get_or-last (tabulate n f) x

pub at-kept :
    (n : ℕ) (f : ℕ → ℤ) (ys : List ℤ) (cap head i : ℕ)
    → i < n
    → n ≤ cap
    → at (scatter (tabulate n f ++ ys) cap head) cap head i ≡ f i
at-kept n f ys cap head i lt room =
    at-scatter (tabulate n f ++ ys) cap head i (omega arith)
    ∙ get_or-front (tabulate n f) ys i (omega (arith, length-tabulate n f))
    ∙ get_or-tabulate n f i lt
