-- ===== src/Interview/Strfns/Concat.antt =====
-- The functions of ProperInterview/src/strfns.h on one buffer, one after another.
use mathlib.Core.Path.{subst}
use low_level.Prelude.{
  ℕ, zero, suc, ◌+◌, ◌<◌, ◌≡◌, ◌↔◌, refl, sym, ap, ◌∙◌, ◌⊎◌, inl, inr, List, [], ◌∷◌, ◌++◌, drop,
  length, length-append, length-drop, arith, dec_lt,
}
use low_level.Prelude.Int.{pos, pos_part, neg_part}
use low_level.Interview.Strfns.{NoNul, Holds, Less, StrfnsApi}

NoNul-append : (s t : List ℕ) → NoNul s → NoNul t → NoNul (s ++ t)
NoNul-append [] t h k = k
NoNul-append (c ∷ s) t h k = (h.0, NoNul-append s t h.1 k)

drop-all : (s t : List ℕ) (n : ℕ) → drop (length s + n) (s ++ t) ≡ drop n t
drop-all [] t n = ap (λ (k : ℕ). drop k t) {x = 0 + n} {y = n} (omega arith)
drop-all (c ∷ s) t n =
    ap (λ (k : ℕ). drop k (c ∷ (s ++ t))) {x = suc (length s) + n} {y = suc (length s + n)}
      (omega arith)
    ∙ drop-all s t n

drop_nil : (k : ℕ) → drop {A = ℕ} k [] ≡ []
drop_nil zero = refl
drop_nil (suc k) = refl

drop-drop : (m n : ℕ) (xs : List ℕ) → drop m (drop n xs) ≡ drop (n + m) xs
drop-drop m zero xs = ap (λ (k : ℕ). drop k xs) {x = m} {y = 0 + m} (omega arith)
drop-drop m (suc n) [] = drop_nil m ∙ sym (drop_nil (suc n + m))
drop-drop m (suc n) (x ∷ xs) =
    drop-drop m n xs
    ∙ ap (λ (k : ℕ). drop k (x ∷ xs)) {x = suc (n + m)} {y = suc n + m} (omega arith)

-- Exactly one of three.
three : (s t : List ℕ) → (s ≡ t) ⊎ (Less s t ⊎ Less t s)
three [] [] = inl refl
three [] (d ∷ t) = inr (inl tt)
three (c ∷ s) [] = inr (inr tt)
three (c ∷ s) (d ∷ t) = elim (dec_lt c d) [
  | yes less ↦ inr (inl (inl less))
  | no above ↦ elim (dec_lt d c) [
    | yes more ↦ inr (inr (inl more))
    | no level ↦
        let e : c ≡ d = omega arith in
        elim (three s t) [
          | inl same ↦ inl (rw (e, same) refl)
          | inr (inl less) ↦ inr (inl (inr (e, less)))
          | inr (inr more) ↦ inr (inr (inr (sym e, more)))
        ]
  ]
]

module _ (api : StrfnsApi) where
  -- my_strcmp returns 0 exactly for buffers that hold the same string.
  pub my_strcmp_iff :
      (a b s t : List ℕ) → Holds a s → Holds b t → (api.my_strcmp a b ≡ pos 0) ↔ (s ≡ t)
  my_strcmp_iff a b s t h k = (
    λ e. elim (three s t) [
      | inl same ↦ same
      | inr (inl less) ↦
          absurd (omega (arith, api.strcmp_less a b s t h k less, ap pos_part e, ap neg_part e))
      | inr (inr more) ↦
          absurd (omega (arith, api.strcmp_greater a b s t h k more, ap pos_part e, ap neg_part e))
    ],
    λ same. api.strcmp_equal a b s h (subst (Holds b) (sym same) k),
  )

  -- Where the destination has room for both strings, my_strcpy and then my_strcat leave their
  -- concatenation there: my_strlen adds up, the buffer keeps its length, and the bytes behind the
  -- terminator stay as they were.
  pub my_strcat-my_strcpy :
      (dst a b s t : List ℕ)
      → Holds a s
      → Holds b t
      → length s + length t < length dst
      → (Holds (api.my_strcat (api.my_strcpy dst a) b) (s ++ t))
        × (api.my_strlen (api.my_strcat (api.my_strcpy dst a) b)
            ≡ api.my_strlen a + api.my_strlen b)
        × (length (api.my_strcat (api.my_strcpy dst a) b) ≡ length dst)
        × (drop (suc (length s + length t)) (api.my_strcat (api.my_strcpy dst a) b)
            ≡ drop (suc (length s + length t)) dst)
  my_strcat-my_strcpy dst a b s t h k room =
      let copied = api.strcpy_law dst a s h (omega arith) in
      let held : Holds (api.my_strcpy dst a) s = record {
        behind = drop (suc (length s)) dst;
        split = copied;
        no_nul = h.no_nul;
      } in
      let size : length (api.my_strcpy dst a) ≡ length dst = omega (
        arith,
        ap length copied,
        length-append s (0 ∷ drop (suc (length s)) dst),
        length-drop (suc (length s)) dst,
      ) in
      let joined = api.strcat_law (api.my_strcpy dst a) b s t held k (omega (arith, size, room)) in
      let rest : drop (suc (length s + length t)) (api.my_strcpy dst a)
          ≡ drop (suc (length s + length t)) dst =
        ap (drop (suc (length s + length t))) copied
        ∙ ap (λ (n : ℕ). drop n (s ++ 0 ∷ drop (suc (length s)) dst))
            {x = suc (length s + length t)} {y = length s + suc (length t)} (omega arith)
        ∙ drop-all s (0 ∷ drop (suc (length s)) dst) (suc (length t))
        ∙ drop-drop (length t) (suc (length s)) dst
        ∙ ap (λ (n : ℕ). drop n dst) {x = suc (length s) + length t} {y = suc (length s + length t)}
            (omega arith) in
      let whole : api.my_strcat (api.my_strcpy dst a) b
          ≡ (s ++ t) ++ 0 ∷ drop (suc (length s + length t)) dst =
        joined ∙ ap (λ r. s ++ t ++ 0 ∷ r) rest in
      let holds : Holds (api.my_strcat (api.my_strcpy dst a) b) (s ++ t) = record {
        behind = drop (suc (length s + length t)) dst;
        split = whole;
        no_nul = NoNul-append s t h.no_nul k.no_nul;
      } in
      let counted = length-append s t in
      (
        holds,
        omega (
          arith,
          api.strlen_law (api.my_strcat (api.my_strcpy dst a) b) (s ++ t) holds,
          api.strlen_law a s h,
          api.strlen_law b t k,
          counted,
        ),
        omega (
          arith,
          ap length whole,
          length-append (s ++ t) (0 ∷ drop (suc (length s + length t)) dst),
          length-drop (suc (length s + length t)) dst,
          counted,
        ),
        ap (drop (suc (length s + length t))) whole
            ∙ ap (λ (n : ℕ). drop n ((s ++ t) ++ 0 ∷ drop (suc (length s + length t)) dst))
                {x = suc (length s + length t)} {y = length (s ++ t) + 1} (omega (arith, counted))
            ∙ drop-all (s ++ t) (0 ∷ drop (suc (length s + length t)) dst) 1,
      )
