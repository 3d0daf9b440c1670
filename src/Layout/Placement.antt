-- ===== src/Layout/Placement.antt =====
-- What the layout rules of ProperMachine/src/layout.h guarantee.
use native.Mathlib.Nat.{mod-lt, div-add-mod', mul_assoc}
use low_level.Prelude.{
  ℕ, ◌+◌, ◌-◌, ◌*◌, ◌/◌, ◌≤◌, ◌<◌, ◌≡◌, refl, sym, ap, ◌∙◌, List, [], ◌∷◌, arith,
}
use low_level.Layout.{Member, align_up, offsets, end_of, strictest, size_of}

-- `n` is a multiple of `a`.
abbrev pub Multiple : ℕ → ℕ → Type 0
Multiple a n = (q : ℕ) × (n ≡ q * a)

align_up-Multiple : (n a : ℕ) → Multiple a (align_up n a)
unfolding align_up
align_up-Multiple n a = ((n + (a - 1)) / a, refl)

-- Fewer than `a` bytes of padding.
align_up_bounds : (n a : ℕ) → 1 ≤ a → (n ≤ align_up n a) × (align_up n a < n + a)
unfolding align_up
align_up_bounds n a h =
    let whole = div-add-mod' (n + (a - 1)) a in
    let rest = mod-lt (n + (a - 1)) {m = a} (omega arith) in (omega arith, omega arith)

abbrev pub AllAligned : List Member → Type 0
AllAligned [] = Unit
AllAligned (m ∷ ms) = (1 ≤ m.align) × AllAligned ms

-- From the end `n` on: each offset is a multiple of its member's alignment, at least the end of
-- the member in front, with less padding than the alignment, and the last member ends within
-- `size`.
abbrev pub Placed : ℕ → List Member → List ℕ → ℕ → Type 0
Placed size [] offs n = n ≤ size
Placed size (m ∷ ms) [] n = ⊥
Placed size (m ∷ ms) (o ∷ offs) n =
    Multiple m.align o × (n ≤ o) × (o < n + m.align) × Placed size ms offs (o + m.size)

Placed-offsets :
    (ms : List Member) (n size : ℕ)
    → AllAligned ms
    → end_of n ms ≤ size
    → Placed size ms (offsets n ms) n
unfolding offsets end_of
Placed-offsets [] n size aligned fits = fits
Placed-offsets (m ∷ ms) n size (positive, aligned) fits =
    let (above, near) = align_up_bounds n m.align positive in
    (
      align_up-Multiple n m.align,
      above,
      near,
      Placed-offsets ms (align_up n m.align + m.size) size aligned fits,
    )

strictest-positive : (ms : List Member) → 1 ≤ strictest ms
unfolding strictest
strictest-positive [] = omega arith
strictest-positive (m ∷ ms) = omega (arith, strictest-positive ms)

-- For any members with alignments other than 0, the rules place each member at a multiple of its
-- alignment, behind the members in front and with the least padding; the size is a multiple of the
-- strictest alignment, no member reaches past it, and its tail padding is less than that alignment.
pub size_of-Placed :
    (ms : List Member)
    → AllAligned ms
    → Placed (size_of ms) ms (offsets 0 ms) 0
      × Multiple (strictest ms) (size_of ms)
      × (size_of ms < end_of 0 ms + strictest ms)
unfolding size_of
size_of-Placed ms aligned =
    let (above, near) = align_up_bounds (end_of 0 ms) (strictest ms) (strictest-positive ms) in
    (
      Placed-offsets ms 0 (align_up (end_of 0 ms) (strictest ms)) aligned above,
      align_up-Multiple (end_of 0 ms) (strictest ms),
      near,
    )

Multiple-add : (a : ℕ) {m n : ℕ} → Multiple a m → Multiple a n → Multiple a (m + n)
Multiple-add a (p, e) (q, e') = (p + q, grind (arith, e, e'))

Multiple-mul : (a k : ℕ) {n : ℕ} → Multiple a n → Multiple a (k * n)
Multiple-mul a k (q, e) = (k * q, rw e (sym (mul_assoc k q a)))

-- Why a size is rounded up: in an array of a struct, a member whose alignment divides the
-- strictest one, at an offset that is a multiple of it, is aligned in every element.
pub array_element-Multiple :
    (ms : List Member) (k o a : ℕ)
    → Multiple a (strictest ms)
    → Multiple a o
    → Multiple a (k * size_of ms + o)
unfolding size_of
array_element-Multiple ms k o a (q, e) placed =
    let (p, e') = align_up-Multiple (end_of 0 ms) (strictest ms) in
    Multiple-add a (Multiple-mul a k (p * q, e' ∙ ap (λ (t : ℕ). p * t) e ∙ sym (mul_assoc p q a)))
      placed
