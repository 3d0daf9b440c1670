-- ===== src/Interview/Texts.antt =====
-- Functions that keep the laws of ProperInterview/src/strfns.h, for the tests.
use low_level.Prelude.{
  ℕ, suc, ◌+◌, ◌≡◌, refl, ap, ◌∙◌, false, inl, inr, List, [], ◌∷◌, ◌++◌, take, drop, length, ltb,
  lt→ltb, ◌==◌, if◌then◌else◌, arith,
}
use low_level.Prelude.Int.{ℤ, pos, negsuc, ◌<ℤ◌}
use low_level.Interview.Strfns.{NoNul, Holds, Less, StrfnsApi}

-- The bytes in front of the first terminator.
pub text : List ℕ → List ℕ
text [] = []
text (c ∷ s) = let rest = text s in if c == 0 then [] else c ∷ rest

pub text-append : (s behind : List ℕ) → NoNul s → text (s ++ 0 ∷ behind) ≡ s
unfolding text
text-append [] behind h = refl
text-append (c ∷ s) behind h =
    let apart : (c == 0) ≡ false = ground (arith, h.0) in
    rw apart (ap (λ t. c ∷ t) (text-append s behind h.1))

pub text-Holds : (b s : List ℕ) → Holds b s → text b ≡ s
text-Holds b s h = ap text h.split ∙ text-append s h.behind h.no_nul

compare_bytes : List ℕ → List ℕ → ℤ
compare_bytes [] [] = pos 0
compare_bytes [] (d ∷ t) = negsuc 0
compare_bytes (c ∷ s) [] = pos 1
compare_bytes (c ∷ s) (d ∷ t) =
    let rest = compare_bytes s t in if ltb c d then negsuc 0 else if ltb d c then pos 1 else rest

compare_same : (s : List ℕ) → compare_bytes s s ≡ pos 0
unfolding compare_bytes
compare_same [] = refl
compare_same (c ∷ s) = let off : ltb c c ≡ false = ground arith in rw off (compare_same s)

compare_less : (s t : List ℕ) → Less s t → compare_bytes s t <ℤ pos 0
unfolding compare_bytes
compare_less s [] h = absurd h
compare_less [] (d ∷ t) h = omega arith
compare_less (c ∷ s) (d ∷ t) (inl less) = rw (lt→ltb c d less) (omega arith)
compare_less (c ∷ s) (d ∷ t) (inr (e, less)) =
    let off : ltb c d ≡ false = ground (arith, e) in
    let off' : ltb d c ≡ false = ground (arith, e) in rw (off, off') (compare_less s t less)

compare_greater : (s t : List ℕ) → Less t s → pos 0 <ℤ compare_bytes s t
unfolding compare_bytes
compare_greater [] t h = absurd h
compare_greater (c ∷ s) [] h = omega arith
compare_greater (c ∷ s) (d ∷ t) (inl less) =
    let off : ltb c d ≡ false = ground (arith, less) in rw (off, lt→ltb d c less) (omega arith)
compare_greater (c ∷ s) (d ∷ t) (inr (e, less)) =
    let off : ltb c d ≡ false = ground (arith, e) in
    let off' : ltb d c ≡ false = ground (arith, e) in rw (off, off') (compare_greater s t less)

pub text_functions : StrfnsApi
text_functions = record {
  my_strlen = λ b. length (text b);
  my_strcpy = λ dst src. text src ++ 0 ∷ drop (suc (length (text src))) dst;
  my_strcmp = λ a b. compare_bytes (text a) (text b);
  my_memcpy = λ dst src n. take n src ++ drop n dst;
  my_strcat =
      λ dst src. text dst ++ text src ++ 0 ∷ drop (suc (length (text dst) + length (text src))) dst;
  strlen_law = λ b s h. ap length (text-Holds b s h);
  strcpy_law = λ dst src s h room. rw (text-Holds src s h) refl;
  strcmp_equal = λ a b s h k. rw (text-Holds a s h, text-Holds b s k) (compare_same s);
  strcmp_less = λ a b s t h k less. rw (text-Holds a s h, text-Holds b t k) (compare_less s t less);
  strcmp_greater =
      λ a b s t h k more. rw (text-Holds a s h, text-Holds b t k) (compare_greater s t more);
  memcpy_law = λ dst src n h k. refl;
  strcat_law = λ dst src s t h k room. rw (text-Holds dst s h, text-Holds src t k) refl;
}
