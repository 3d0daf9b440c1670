-- ===== src/DataStructures/Ring.antt =====
-- Ring buffers, as ProperDS/src/stackqueue.h and ProperDS/src/deque.h describe them: the logical
-- element `i` lives in the slot `(head + i) % cap`.
use native.Mathlib.Nat.{mod-add-mod, add-mod_right, mod-eq_of_lt, mod-lt}
use low_level.Prelude.{
  ℕ, zero, suc, ◌+◌, ◌-◌, ◌%◌, ◌<◌, ◌≡◌, refl, sym, ap, ap₂, ◌∙◌, List, [], ◌∷◌, ◌++◌, length,
  get_or, arith, dec_lt,
}
use low_level.Prelude.Int.{ℤ, pos}

-- `data[(head + i) % cap]`
abbrev pub at : List ℤ → (cap head i : ℕ) → ℤ
at buffer cap head i = get_or buffer ((head + i) % cap) (pos 0)

-- `f 0`, ..., `f (n - 1)`
abbrev pub tabulate : ℕ → (ℕ → ℤ) → List ℤ
tabulate zero f = []
tabulate (suc n) f = f 0 ∷ tabulate n (λ i. f (suc i))

pub length-tabulate : (n : ℕ) (f : ℕ → ℤ) → length (tabulate n f) ≡ n
length-tabulate zero f = refl
length-tabulate (suc n) f = ap suc (length-tabulate n (λ i. f (suc i)))

pub tabulate_ext :
    (n : ℕ) (f g : ℕ → ℤ) → ((i : ℕ) → i < n → f i ≡ g i) → tabulate n f ≡ tabulate n g
tabulate_ext zero f g h = refl
tabulate_ext (suc n) f g h =
    ap₂ ◌∷◌ (h 0 (omega arith))
      (tabulate_ext n (λ i. f (suc i)) (λ i. g (suc i)) (λ i lt. h (suc i) (omega arith)))

pub tabulate-snoc : (n : ℕ) (f : ℕ → ℤ) → tabulate (suc n) f ≡ tabulate n f ++ f n ∷ []
tabulate-snoc zero f = refl
tabulate-snoc (suc n) f = ap (λ t. f 0 ∷ t) (tabulate-snoc n (λ i. f (suc i)))

-- A head that has wrapped around: one slot further on ...
pub slot-next : (cap head i : ℕ) → ((head + 1) % cap + i) % cap ≡ (head + suc i) % cap
slot-next cap head i = mod-add-mod (head + 1) cap i ∙ ap (λ (t : ℕ). t % cap) (omega arith)

-- ... and one slot back.
pub slot-back :
    (cap head i : ℕ) → 0 < cap → ((head + cap - 1) % cap + suc i) % cap ≡ (head + i) % cap
slot-back cap head i h =
    mod-add-mod (head + cap - 1) cap (suc i)
    ∙ ap (λ (t : ℕ). t % cap) {x = head + cap - 1 + suc i} {y = head + i + cap} (omega arith)
    ∙ add-mod_right (head + i) cap

-- Which logical element the slot `s` holds.
abbrev pub unslot : (cap head s : ℕ) → ℕ
unslot cap head s = (s + cap - head % cap) % cap

pub unslot-slot : (cap head i : ℕ) → i < cap → unslot cap head ((head + i) % cap) ≡ i
unslot-slot cap head i lt =
    let below : head % cap < cap = mod-lt head (omega arith) in
    let slot : (head + i) % cap ≡ (head % cap + i) % cap = sym (mod-add-mod head cap i) in
    elim (dec_lt (head % cap + i) cap) [
      | yes straight ↦
          ap (λ (t : ℕ). t % cap) {x = (head + i) % cap + cap - head % cap} {y = i + cap}
            (omega (arith, slot, mod-eq_of_lt straight))
          ∙ add-mod_right i cap
          ∙ mod-eq_of_lt lt
      | no wraps ↦
          let back : (head % cap + i) % cap ≡ head % cap + i - cap =
            ap (λ (t : ℕ). t % cap) {x = head % cap + i} {y = head % cap + i - cap + cap}
              (omega arith)
            ∙ add-mod_right (head % cap + i - cap) cap
            ∙ mod-eq_of_lt (omega arith) in
          ap (λ (t : ℕ). t % cap) {x = (head + i) % cap + cap - head % cap} {y = i}
            (omega (arith, slot, back))
          ∙ mod-eq_of_lt lt
    ]

-- Different elements live in different slots.
pub slot-apart :
    (cap head i j : ℕ) → i < cap → j < cap → ((head + i) % cap ≡ (head + j) % cap) → i ≡ j
slot-apart cap head i j small small' e =
    sym (unslot-slot cap head i small) ∙ ap (unslot cap head) e ∙ unslot-slot cap head j small'
