-- ===== src/Net/Http/Truncated.antt =====
-- The head of a request in a buffer of which only the first bytes may be read, for
-- http_parse_request of ProperNet/src/httparse.h.
use low_level.Prelude.{
  ℕ, zero, suc, ◌+◌, ◌-◌, ◌≤◌, ◌<◌, ◌≡◌, refl, sym, ap, ◌∙◌, Bool, true, false, none, List, [], ◌∷◌,
  ◌++◌, append-nil, append_assoc, length, length-append, take, arith, dec_lt,
}
use low_level.Net.Bytes.{none_of, none_of-cons}
use low_level.Net.Http.{head_lines, is_cr, text, AllLines}
use low_level.Net.Http.Lines.{head_lines-append}

take-append : (s t : List ℕ) (k : ℕ) → take (length s + k) (s ++ t) ≡ s ++ take k t
take-append [] t k = ap (λ (n : ℕ). take n t) {x = 0 + k} {y = k} (omega arith)
take-append (c ∷ s) t k =
    ap (λ (n : ℕ). take n (c ∷ (s ++ t))) {x = suc (length s) + k} {y = suc (length s + k)}
      (omega arith)
    ∙ ap (λ u. c ∷ u) (take-append s t k)

take-within : (s t : List ℕ) (n : ℕ) → n ≤ length s → take n (s ++ t) ≡ take n s
take-within [] t zero le = refl
take-within [] t (suc n) le = absurd (omega arith)
take-within (c ∷ s) t zero le = refl
take-within (c ∷ s) t (suc n) le = ap (λ u. c ∷ u) (take-within s t n (omega arith))

none_of-take :
    (stop : ℕ → Bool) (n : ℕ) (s : List ℕ) → none_of stop s ≡ true → none_of stop (take n s) ≡ true
none_of-take stop zero s e = refl
none_of-take stop (suc n) [] e = refl
none_of-take stop (suc n) (c ∷ s) e =
    let (here, others) = none_of-cons stop c s e in rw here (none_of-take stop n s others)

text-append : (ls : List (List ℕ)) (body : List ℕ) → text ls body ≡ text ls [] ++ body
text-append [] body = refl
text-append (l ∷ ls) body =
    ap (λ u. l ++ 13 ∷ 10 ∷ u) (text-append ls body)
    ∙ sym (append_assoc l (13 ∷ 10 ∷ text ls []) body)

-- Enough bytes hold the whole head ...
pub take-text :
    (ls : List (List ℕ)) (body : List ℕ) (n : ℕ)
    → length (text ls []) ≤ n
    → take n (text ls body) ≡ text ls (take (n - length (text ls [])) body)
take-text ls body n le =
    let k : ℕ = n - length (text ls []) in
    ap (take n) (text-append ls body)
    ∙ ap (λ (m : ℕ). take m (text ls [] ++ body)) {x = n} {y = length (text ls []) + k}
        (omega (arith, le))
    ∙ take-append (text ls []) body k
    ∙ sym (text-append ls (take k body))

-- A line of which no "\r\n" has been read ends nothing.
unended : (l : List ℕ) (n : ℕ) → none_of is_cr l ≡ true → head_lines [] false (take n l) ≡ none
unfolding head_lines
unended l n plain =
    ap (head_lines [] false) (sym (append-nil (take n l)))
    ∙ head_lines-append (take n l) [] [] (none_of-take is_cr n l plain)

passed_on :
    (l s : List ℕ) (c : ℕ) (t : List ℕ)
    → l ≡ c ∷ t
    → head_lines [] false s ≡ none
    → head_lines l false (13 ∷ 10 ∷ s) ≡ none
unfolding head_lines
passed_on [] s c t e rest = cc
passed_on (d ∷ l) s c t e rest = rw (head_lines, rest) refl

-- ... and fewer bytes do not: not after a whole line, and not at the end.
cut_behind :
    (l X : List ℕ) (m : ℕ) (c : ℕ) (t : List ℕ)
    → l ≡ c ∷ t
    → ((j : ℕ) → m ≡ 2 + j → head_lines [] false (take j X) ≡ none)
    → head_lines l false (take m (13 ∷ 10 ∷ X)) ≡ none
unfolding head_lines
cut_behind l X zero c t e rest = refl
cut_behind l X (suc zero) c t e rest = refl
cut_behind l X (suc (suc j)) c t e rest = passed_on l (take j X) c t e (rest j (omega arith))

pub head_lines-truncated :
    (ls : List (List ℕ)) (body : List ℕ) (n : ℕ)
    → AllLines ls
    → n < length (text ls [])
    → head_lines [] false (take n (text ls body)) ≡ none
unfolding head_lines
head_lines-truncated [] body zero plain lt = refl
head_lines-truncated [] body (suc zero) plain lt = refl
head_lines-truncated [] body (suc (suc n)) plain lt = absurd (omega (arith, lt))
head_lines-truncated (l ∷ ls) body n ((c, t, e), plain, others) lt = elim (dec_lt (length l) n) [
  | no within ↦
      ap (head_lines [] false) (take-within l (13 ∷ 10 ∷ text ls body) n (omega (arith, within)))
      ∙ unended l n plain
  | yes behind ↦
      let m : ℕ = n - length l in
      ap (λ (k : ℕ). head_lines [] false (take k (l ++ 13 ∷ 10 ∷ text ls body))) {x = n}
        {y = length l + m} (omega (arith, behind))
      ∙ ap (head_lines [] false) (take-append l (13 ∷ 10 ∷ text ls body) m)
      ∙ head_lines-append l [] (take m (13 ∷ 10 ∷ text ls body)) plain
      ∙ cut_behind l (text ls body) m c t e (λ j split.
        head_lines-truncated ls body j others
          (omega (arith, split, lt, length-append l (13 ∷ 10 ∷ text ls []))))
]
