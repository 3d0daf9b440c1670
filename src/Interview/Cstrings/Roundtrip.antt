-- ===== src/Interview/Cstrings/Roundtrip.antt =====
-- my_atoi of ProperInterview/src/cstrings.h on the decimal digits of an integer.
use mathlib.Core.Option.{some-injective}
use low_level.Prelude.{
  ℕ, zero, suc, ◌+◌, ◌-◌, ◌*◌, ◌/◌, ◌%◌, ◌<◌, ◌≡◌, refl, sym, ap, ◌∙◌, true, false, none, some,
  List, [], ◌∷◌, ◌++◌, arith, dec_lt, ltb, lt→ltb, ◌==◌, if◌then◌else◌, Bool-cases, inl, inr,
}
use low_level.Prelude.Int.{ℤ, pos, negsuc}
use low_level.Interview.Cstrings.{is_digit, number, digits, parsed, fits_int, AtoiApi}

-- The decimal digits of a number; `suc n` rounds are enough for `n`.
unfoldable pub decimal : ℕ → ℕ → List ℕ
decimal zero n = []
decimal (suc fuel) n =
    let rest = decimal fuel (n / 10) in
    if ltb n 10 then (48 + n) ∷ [] else rest ++ (48 + n % 10) ∷ []

pub print : ℤ → List ℕ
print (pos n) = decimal (suc n) n
print (negsuc n) = 45 ∷ decimal (suc (suc n)) (suc n)

number-append :
    (acc n d : ℕ) (s : List ℕ)
    → number acc s ≡ some n
    → d < 10
    → number acc (s ++ (48 + d) ∷ []) ≡ some (10 * n + d)
unfolding number
number-append acc n d [] e lt =
    let digit : is_digit (48 + d) ≡ true = ground arith in
    rw digit (ap some (omega (arith, some-injective acc n e)))
number-append acc n d (c ∷ s) e lt = elim (Bool-cases (is_digit c)) [
  | inl digit ↦ rw digit (number-append (10 * acc + (c - 48)) n d s (rw digit at e) lt)
  | inr other ↦ absurd (nothing (rw other at e))
]
  where
    nothing : none ≡ some n → ⊥
    nothing h = cc

number-decimal : (fuel n : ℕ) → n < fuel → number 0 (decimal fuel n) ≡ some n
unfolding decimal number
number-decimal zero n lt = absurd (omega arith)
number-decimal (suc fuel) n lt = elim (dec_lt n 10) [
  | yes small ↦
      rw (lt→ltb n 10 small)
        (let digit : is_digit (48 + n) ≡ true = ground arith in rw digit (ap some (omega arith)))
  | no large ↦
      let off : ltb n 10 ≡ false = ground arith in
      rw off (
        number-append 0 (n / 10) (n % 10) (decimal fuel (n / 10))
          (number-decimal fuel (n / 10) (omega arith)) (omega arith)
        ∙ ap some (omega arith))
]

-- There is a first digit.
decimal_head :
    (fuel n : ℕ)
    → n < fuel
    → (c : ℕ) × (s : List ℕ) × (decimal fuel n ≡ c ∷ s) × (is_digit c ≡ true)
unfolding decimal
decimal_head zero n lt = absurd (omega arith)
decimal_head (suc fuel) n lt = elim (dec_lt n 10) [
  | yes small ↦ (48 + n, [], rw (lt→ltb n 10 small) refl, ground arith)
  | no large ↦
      let off : ltb n 10 ≡ false = ground arith in
      let (c, s, e, digit) = decimal_head fuel (n / 10) (omega arith) in
      (c, s ++ (48 + n % 10) ∷ [], rw (off, e) refl, digit)
]

pub digits-decimal : (fuel n : ℕ) → n < fuel → digits (decimal fuel n) ≡ some n
digits-decimal fuel n lt =
    let (c, s, e, digit) = decimal_head fuel n lt in
    rw e (sym (ap (number 0) e) ∙ number-decimal fuel n lt)

parsed-print : (z : ℤ) → parsed (print z) ≡ some z
unfolding parsed print
parsed-print (pos n) =
    let (c, s, e, digit) = decimal_head (suc n) n (omega arith) in
    let whole : digits (c ∷ s) ≡ some n =
      sym (ap digits e) ∙ digits-decimal (suc n) n (omega arith) in
    let no_plus : (c == 43) ≡ false = ground (arith, digit) in
    let no_minus : (c == 45) ≡ false = ground (arith, digit) in
    ap parsed e ∙ rw (no_plus, no_minus, whole) refl
parsed-print (negsuc n) =
    rw (digits-decimal (suc (suc n)) (suc n) (omega arith)) (ap some (ground arith))

-- my_atoi reads back what an int prints as; what an integer beyond the ints prints as it refuses
-- with -2, and leaves `*out` as it was.
pub my_atoi-print :
    (api : AtoiApi) (z out : ℤ)
    → api.my_atoi (print z) out ≡ (if fits_int z then (pos 0, z) else (negsuc 1, out))
my_atoi-print api z out = elim (Bool-cases (fits_int z)) [
  | inl fits ↦ rw fits (api.parses (print z) z out (parsed-print z) fits)
  | inr beyond ↦ rw beyond (api.overflows (print z) z out (parsed-print z) beyond)
]
