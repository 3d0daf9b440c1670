-- ===== src/Os/Slots.antt =====
-- The values that wait in the slots of the ring buffers of ProperOS/src/atomics.h and
-- ProperOS/src/threads.h: the oldest in the slot `head`, the others behind it.
use low_level.Prelude.{
  ℕ, zero, suc, ◌+◌, ◌%◌, ◌<◌, ◌≡◌, ◌⊎◌, inl, inr, refl, ap, ◌∙◌, some, List, [], ◌∷◌, ◌++◌, length,
  get_elem?, get_elem?-set_ne, lt_of_get_elem?, set, arith, sym, length-set, length-append,
  get_elem?-set_self, ◌≤◌,
}
use mathlib.Core.Option.{some-injective}
use mathlib.Core.Path.{subst}
use native.Mathlib.Nat.{mod-lt, mod-eq_of_lt, mod-add-mod}
use low_level.Prelude.Int.{ℤ}
use low_level.DataStructures.Ring.{slot-next, slot-apart}

abbrev pub Holds : List ℤ → (cap head : ℕ) → List ℤ → Type 0
Holds buf cap head xs =
    (i : ℕ) (x : ℤ) → get_elem? xs i ≡ some x → get_elem? buf ((head + i) % cap) ≡ some x

get_elem?-snoc :
    (xs : List ℤ) (v : ℤ) (i : ℕ) {x : ℤ}
    → get_elem? (xs ++ v ∷ []) i ≡ some x
    → (get_elem? xs i ≡ some x) ⊎ ((i ≡ length xs) × (v ≡ x))
get_elem?-snoc [] v zero e = inr (refl, some-injective _ _ e)
get_elem?-snoc [] v (suc i) e = cc
get_elem?-snoc (y ∷ xs) v zero e = inl e
get_elem?-snoc (y ∷ xs) v (suc i) e = elim (get_elem?-snoc xs v i e) [
  | inl early ↦ inl early
  | inr (last, same) ↦ inr (ap suc last, same)
]

pub Holds-snoc :
    (buf : List ℤ) (cap head : ℕ) (xs : List ℤ) (v : ℤ)
    → Holds buf cap head xs
    → get_elem? buf ((head + length xs) % cap) ≡ some v
    → Holds buf cap head (xs ++ v ∷ [])
Holds-snoc buf cap head xs v held slot i x here = elim (get_elem?-snoc xs v i here) [
  | inl early ↦ held i x early
  | inr (last, same) ↦ ap (λ (t : ℕ). get_elem? buf ((head + t) % cap)) last ∙ slot ∙ ap some same
]

-- The slot behind the last value is not one of theirs.
pub Holds-set :
    (buf : List ℤ) (cap head : ℕ) (xs : List ℤ) (v : ℤ)
    → length xs < cap
    → Holds buf cap head xs
    → Holds (set buf ((head + length xs) % cap) v) cap head xs
Holds-set buf cap head xs v room held i x here =
    let lt : i < length xs = lt_of_get_elem? xs i here in
    get_elem?-set_ne buf v
      (λ e. omega (arith, lt, slot-apart cap head (length xs) i room (omega (arith, lt, room)) e))
    ∙ held i x here

pub Holds-drop :
    (buf : List ℤ) (cap head : ℕ) (x : ℤ) (xs : List ℤ)
    → Holds buf cap head (x ∷ xs)
    → Holds buf cap ((head + 1) % cap) xs
Holds-drop buf cap head x xs held i y here =
    ap (get_elem? buf) (slot-next cap head i) ∙ held (suc i) y here

-- A ring buffer with the values `xs`, the oldest in the slot `head`.
pub record Waits (buf : List ℤ) (cap head tail : ℕ) (xs : List ℤ) : Type 0 where
  pub slots : length buf ≡ cap
  pub start : head < cap
  pub few : length xs ≤ cap
  pub behind : tail ≡ (head + length xs) % cap
  pub held : Holds buf cap head xs

pub Waits-push :
    (buf : List ℤ) (cap head tail : ℕ) (xs : List ℤ) (v : ℤ)
    → Waits buf cap head tail xs
    → length xs < cap
    → Waits (set buf tail v) cap head ((tail + 1) % cap) (xs ++ v ∷ [])
Waits-push buf cap head tail xs v w room =
    let positive : 0 < cap = omega (arith, w.start) in
    let slot : tail < length buf =
      omega (arith, w.behind, w.slots, mod-lt (head + length xs) {m = cap} positive) in
    record {
      slots = length-set buf tail v ∙ w.slots;
      start = w.start;
      few = omega (arith, room, length-append xs (v ∷ []));
      behind =
          ap (λ (t : ℕ). (t + 1) % cap) w.behind
          ∙ mod-add-mod (head + length xs) cap 1
          ∙ ap (λ (t : ℕ). t % cap) {x = head + length xs + 1} {y = head + length (xs ++ v ∷ [])}
              (omega (arith, length-append xs (v ∷ [])));
      held =
          Holds-snoc (set buf tail v) cap head xs v
            (subst (λ t. Holds (set buf t v) cap head xs) (sym w.behind)
              (Holds-set buf cap head xs v room w.held))
            (ap (get_elem? (set buf tail v)) (sym w.behind) ∙ get_elem?-set_self buf tail v slot);
    }

pub Waits-pop :
    (buf : List ℤ) (cap head tail : ℕ) (x : ℤ) (xs : List ℤ)
    → Waits buf cap head tail (x ∷ xs)
    → (get_elem? buf head ≡ some x) × Waits buf cap ((head + 1) % cap) tail xs
Waits-pop buf cap head tail x xs w =
    let positive : 0 < cap = omega (arith, w.start) in
    let here : (head + 0) % cap ≡ head = mod-eq_of_lt (omega (arith, w.start)) ∙ omega arith in
    (
      ap (get_elem? buf) (sym here) ∙ w.held 0 x refl,
      record {
        slots = w.slots;
        start = mod-lt (head + 1) positive;
        few = omega (arith, w.few);
        behind = w.behind ∙ sym (slot-next cap head (length xs));
        held = Holds-drop buf cap head x xs w.held;
      },
    )
