-- ===== src/Net/Http/Lines.antt =====
-- The lines of a request head, for http_parse_request of ProperNet/src/httparse.h.
use low_level.Prelude.{
  ℕ, ◌≡◌, refl, sym, ap, ◌∙◌, true, false, some, List, [], ◌∷◌, ◌++◌, append_assoc, append-nil,
}
use low_level.Net.Bytes.{none_of, none_of-cons}
use low_level.Net.Http.{head_lines, is_space, push_byte, tokens, is_cr, text, AllLines}

pub head_lines-append :
    (l line s : List ℕ)
    → none_of is_cr l ≡ true
    → head_lines line false (l ++ s) ≡ head_lines (line ++ l) false s
unfolding head_lines
head_lines-append [] line s plain = ap (λ t. head_lines t false s) (sym (append-nil line))
head_lines-append (c ∷ l) line s plain =
    let (other, others) = none_of-cons is_cr c l plain in
    rw (head_lines, other)
      (head_lines-append l (line ++ c ∷ []) s others
        ∙ ap (λ t. head_lines t false s) (append_assoc line (c ∷ []) l))

head_lines-end :
    (l s : List ℕ) (ls : List (List ℕ)) (c : ℕ) (t : List ℕ)
    → l ≡ c ∷ t
    → head_lines [] false s ≡ some ls
    → head_lines l false (13 ∷ 10 ∷ s) ≡ some (l ∷ ls)
unfolding head_lines
head_lines-end [] s ls c t e rest = cc
head_lines-end (d ∷ l) s ls c t e rest = rw (head_lines, rest) refl

pub head_lines-text :
    (ls : List (List ℕ)) (body : List ℕ)
    → AllLines ls
    → head_lines [] false (text ls body) ≡ some ls
unfolding head_lines
head_lines-text [] body plain = refl
head_lines-text (l ∷ ls) body ((c, s, e), plain, others) =
    head_lines-append l [] (13 ∷ 10 ∷ text ls body) plain
    ∙ head_lines-end l (text ls body) ls c s e (head_lines-text ls body others)

-- A token ends at the first space behind it, and the last one at the end.
pub tokens-append : (t s : List ℕ) → none_of is_space t ≡ true → tokens (t ++ 32 ∷ s) ≡ t ∷ tokens s
tokens-append [] s plain = refl
tokens-append (c ∷ t) s plain =
    let (other, others) = none_of-cons is_space c t plain in
    rw other (ap (push_byte c) (tokens-append t s others))

pub tokens-whole : (t : List ℕ) → none_of is_space t ≡ true → tokens t ≡ t ∷ []
tokens-whole [] plain = refl
tokens-whole (c ∷ t) plain =
    let (other, others) = none_of-cons is_space c t plain in
    rw other (ap (push_byte c) (tokens-whole t others))

pub append-starts :
    (s : List ℕ) (c : ℕ) (t : List ℕ) → (d : ℕ) × (u : List ℕ) × (s ++ c ∷ t ≡ d ∷ u)
append-starts [] c t = (c, t, refl)
append-starts (d ∷ s) c t = (d, s ++ c ∷ t, refl)
