-- ===== src/Strings/Search.antt =====
-- Searching a string, for ProperC/src/strings.h.
use low_level.Prelude.{
  ℕ, zero, suc, ◌%◌, ◌<◌, ◌≡◌, ◌≢◌, refl, sym, ap, ◌∙◌, Bool, true, false, Option, none, some, List,
  [], ◌∷◌, drop, length, ◌==◌, arith, dec_lt,
}
use low_level.Interview.Strfns.{Holds}
use low_level.Strings.{starts, at_byte, at_text, IsFirst, StringsApi}

clash : true ≡ false → ⊥
clash h = cc

pub IsFirst-unique :
    (p : ℕ → Bool) (bound : ℕ) (r r' : Option ℕ) → IsFirst p bound r → IsFirst p bound r' → r ≡ r'
IsFirst-unique p bound none none h k = refl
IsFirst-unique p bound none (some i) h (le, found, fresh) = absurd (clash (sym found ∙ h i le))
IsFirst-unique p bound (some i) none (le, found, fresh) k = absurd (clash (sym found ∙ k i le))
IsFirst-unique p bound (some i) (some j) (le, found, fresh) (le', found', fresh') =
    elim (dec_lt i j) [
      | yes less ↦ absurd (clash (sym found ∙ fresh' i less))
      | no above ↦ elim (dec_lt j i) [
        | yes more ↦ absurd (clash (sym found' ∙ fresh j more))
        | no level ↦ ap some (omega (arith, above, level))
      ]
    ]

-- A test that answers the same has the same first index.
IsFirst-agree :
    (p q : ℕ → Bool) (bound : ℕ) (r : Option ℕ)
    → ((j : ℕ) → p j ≡ q j)
    → IsFirst p bound r
    → IsFirst q bound r
IsFirst-agree p q bound none same h = λ j le. sym (same j) ∙ h j le
IsFirst-agree p q bound (some i) same (le, found, fresh) =
    (le, sym (same i) ∙ found, λ j lt. sym (same j) ∙ fresh j lt)

drop_nil : (j : ℕ) → drop {A = ℕ} j [] ≡ []
drop_nil zero = refl
drop_nil (suc j) = refl

-- A byte other than the terminator stands where it stands as a string.
at_byte-at_text :
    (c : ℕ) (s : List ℕ) (j : ℕ) → (c == 0) ≡ false → at_byte c s j ≡ at_text (c ∷ []) s j
at_byte-at_text c [] zero other = rw other refl
at_byte-at_text c [] (suc j) other = ap (starts (c ∷ [])) (drop_nil j)
at_byte-at_text c (d ∷ s) zero other = refl
at_byte-at_text c (d ∷ s) (suc j) other = at_byte-at_text c s j other

-- For a byte other than the terminator, my_strchr finds it where my_strstr finds the string of this
-- byte alone, and neither finds it where the other does not.
pub my_strstr-my_strchr :
    (api : StringsApi) (b n s : List ℕ) (c : ℕ)
    → Holds b s
    → Holds n (c ∷ [])
    → c < 256
    → c ≢ 0
    → api.my_strstr b n ≡ api.my_strchr b c
my_strstr-my_strchr api b n s c h k byte other =
    let small : c % 256 ≡ c = omega (arith, byte) in
    let differs : (c == 0) ≡ false = ground (arith, other) in
    IsFirst-unique (at_text (c ∷ []) s) (length s) (api.my_strstr b n) (api.my_strchr b c)
      (api.strstr_law b n s (c ∷ []) h k)
      (IsFirst-agree (at_byte (c % 256) s) (at_text (c ∷ []) s) (length s) (api.my_strchr b c)
        (λ j. ap (λ d. at_byte d s j) small ∙ at_byte-at_text c s j differs)
        (api.strchr_law b s c h))
