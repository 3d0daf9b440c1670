-- ===== src/Interview/Cstrings/Words.antt =====
-- two_reversals and word_runs of ProperInterview/src/cstrings.h.
use mathlib.Core.List.{reverse, reverse-cons, reverse-append, reverse-reverse, map-append}
use mathlib.Core.Path.{subst}
use low_level.Prelude.{
  ℕ, suc, ◌+◌, ◌<◌, ◌≡◌, refl, sym, ap, ap₂, ◌∙◌, Bool, true, List, [], ◌∷◌, ◌++◌, length,
  length-append, map, append_assoc, append-nil, Bool-cases, inl, inr, arith,
}
use low_level.Net.Bytes.{none_of, none_of-cons, none_of-append}
use low_level.Interview.Cstrings.{is_gap, reverse_each, gaps, word_count, two_reversals}

-- The words with one space between any two.
abbrev pub join : List (List ℕ) → List ℕ
join [] = []
join (w ∷ []) = w
join (w ∷ v ∷ ws) = w ++ 32 ∷ join (v ∷ ws)

-- A word is not empty, and holds no space.
abbrev pub IsWord : (ℕ → Bool) → List ℕ → Type 0
IsWord stop w = (0 < length w) × (none_of stop w ≡ true)

abbrev pub AllWords : (ℕ → Bool) → List (List ℕ) → Type 0
AllWords stop [] = Unit {0}
AllWords stop (w ∷ ws) = IsWord stop w × AllWords stop ws

-- Each word reversed, in the reversed order.
abbrev flipped : List (List ℕ) → List (List ℕ)
flipped [] = []
flipped (w ∷ ws) = flipped ws ++ reverse w ∷ []

pub length-reverse {ℓ} : {A : Type ℓ} (xs : List A) → length (reverse xs) ≡ length xs
length-reverse [] = refl
length-reverse (x ∷ xs) =
    ap length (reverse-cons x xs)
    ∙ omega (arith, length-append (reverse xs) (x ∷ []), length-reverse xs)

join-snoc :
    (u : List ℕ) (us : List (List ℕ)) (v : List ℕ)
    → join ((u ∷ us) ++ v ∷ []) ≡ join (u ∷ us) ++ 32 ∷ v
join-snoc u [] v = refl
join-snoc u (t ∷ us) v =
    ap (λ s. u ++ 32 ∷ s) (join-snoc t us v) ∙ sym (append_assoc u (32 ∷ join (t ∷ us)) (32 ∷ v))

flipped_head :
    (w : List ℕ) (ws : List (List ℕ))
    → (u : List ℕ) × (us : List (List ℕ)) × (flipped (w ∷ ws) ≡ u ∷ us)
flipped_head w [] = (reverse w, [], refl)
flipped_head w (v ∷ ws) =
    let (u, us, e) = flipped_head v ws in (u, us ++ reverse w ∷ [], ap (λ t. t ++ reverse w ∷ []) e)

reverse-join : (ws : List (List ℕ)) → reverse (join ws) ≡ join (flipped ws)
reverse-join [] = refl
reverse-join (w ∷ []) = refl
reverse-join (w ∷ v ∷ ws) =
    let (u, us, e) = flipped_head v ws in
    reverse-append w (32 ∷ join (v ∷ ws))
    ∙ ap (λ t. t ++ reverse w) (reverse-cons 32 (join (v ∷ ws)))
    ∙ append_assoc (reverse (join (v ∷ ws))) (32 ∷ []) (reverse w)
    ∙ ap (λ t. t ++ 32 ∷ reverse w) (reverse-join (v ∷ ws))
    ∙ ap (λ t. join t ++ 32 ∷ reverse w) e
    ∙ sym (join-snoc u us (reverse w))
    ∙ ap (λ t. join (t ++ reverse w ∷ [])) (sym e)

reverse_each-word :
    (w word s : List ℕ)
    → none_of is_gap w ≡ true
    → reverse_each word (w ++ s) ≡ reverse_each (reverse w ++ word) s
unfolding reverse_each
reverse_each-word [] word s plain = refl
reverse_each-word (c ∷ w) word s plain =
    let (no_gap, rest) = none_of-cons is_gap c w plain in
    rw (reverse_each, no_gap)
      (reverse_each-word w (c ∷ word) s rest
        ∙ ap (λ t. reverse_each t s)
            (sym (append_assoc (reverse w) (c ∷ []) word)
              ∙ ap (λ t. t ++ word) (sym (reverse-cons c w))))

reverse_each-join :
    (ws : List (List ℕ)) → AllWords is_gap ws → reverse_each [] (join ws) ≡ join (map reverse ws)
unfolding reverse_each
reverse_each-join [] words = refl
reverse_each-join (w ∷ []) (word, words) =
    ap (reverse_each []) (sym (append-nil w))
    ∙ reverse_each-word w [] [] word.1
    ∙ append-nil (reverse w)
reverse_each-join (w ∷ v ∷ ws) (word, words) =
    reverse_each-word w [] (32 ∷ join (v ∷ ws)) word.1
    ∙ ap₂ (λ s t. s ++ 32 ∷ t) (append-nil (reverse w)) (reverse_each-join (v ∷ ws) words)

map-reverse-flipped : (ws : List (List ℕ)) → map reverse (flipped ws) ≡ reverse ws
map-reverse-flipped [] = refl
map-reverse-flipped (w ∷ ws) =
    map-append reverse (flipped ws) (reverse w ∷ [])
    ∙ ap₂ (λ s t. s ++ t ∷ []) (map-reverse-flipped ws) (reverse-reverse w)
    ∙ sym (reverse-cons w ws)

none_of-reverse :
    (stop : ℕ → Bool) (s : List ℕ) → none_of stop s ≡ true → none_of stop (reverse s) ≡ true
none_of-reverse stop [] plain = refl
none_of-reverse stop (c ∷ s) plain =
    let (here, rest) = none_of-cons stop c s plain in
    ap (none_of stop) (reverse-cons c s)
    ∙ none_of-append stop (reverse s) (c ∷ []) (none_of-reverse stop s rest) (rw here refl)

AllWords-append :
    (stop : ℕ → Bool) (us vs : List (List ℕ))
    → AllWords stop us
    → AllWords stop vs
    → AllWords stop (us ++ vs)
AllWords-append stop [] vs h k = k
AllWords-append stop (u ∷ us) vs (word, h) k = (word, AllWords-append stop us vs h k)

flipped-AllWords :
    (stop : ℕ → Bool) (ws : List (List ℕ)) → AllWords stop ws → AllWords stop (flipped ws)
flipped-AllWords stop [] words = tt
flipped-AllWords stop (w ∷ ws) ((some_byte, plain), words) =
    AllWords-append stop (flipped ws) (reverse w ∷ []) (flipped-AllWords stop ws words)
      ((omega (arith, length-reverse w, some_byte), none_of-reverse stop w plain), tt)

pub reverse-AllWords :
    (stop : ℕ → Bool) (ws : List (List ℕ)) → AllWords stop ws → AllWords stop (reverse ws)
reverse-AllWords stop [] words = tt
reverse-AllWords stop (w ∷ ws) (word, words) =
    subst (AllWords stop) (sym (reverse-cons w ws))
      (AllWords-append stop (reverse ws) (w ∷ []) (reverse-AllWords stop ws words) (word, tt))

gaps-append : (s t : List ℕ) → gaps (s ++ t) ≡ gaps s + gaps t
gaps-append [] t = omega arith
gaps-append (c ∷ s) t = elim (Bool-cases (is_gap c)) [
  | inl gap ↦ rw gap (omega (arith, gaps-append s t))
  | inr other ↦ rw other (gaps-append s t)
]

gaps-word : (w : List ℕ) → none_of is_gap w ≡ true → gaps w ≡ 0
gaps-word [] plain = refl
gaps-word (c ∷ w) plain =
    let (here, rest) = none_of-cons is_gap c w plain in rw here (gaps-word w rest)

gaps-join :
    (w : List ℕ) (ws : List (List ℕ))
    → AllWords is_gap (w ∷ ws)
    → suc (gaps (join (w ∷ ws))) ≡ length (w ∷ ws)
gaps-join w [] ((some_byte, plain), words) = omega (arith, gaps-word w plain)
gaps-join w (v ∷ ws) ((some_byte, plain), words) =
    omega (arith, gaps-append w (32 ∷ join (v ∷ ws)), gaps-word w plain, gaps-join v ws words)

word_count-some : (s : List ℕ) → 0 < length s → word_count s ≡ suc (gaps s)
word_count-some [] h = absurd (omega (arith, h))
word_count-some (c ∷ s) h = refl

length-join : (w : List ℕ) (ws : List (List ℕ)) → 0 < length w → 0 < length (join (w ∷ ws))
length-join w [] h = h
length-join w (v ∷ ws) h = omega (arith, h, length-append w (32 ∷ join (v ∷ ws)))

word_count-join : (ws : List (List ℕ)) → AllWords is_gap ws → word_count (join ws) ≡ length ws
word_count-join [] words = refl
word_count-join (w ∷ ws) words =
    word_count-some (join (w ∷ ws)) (length-join w ws words.0.0) ∙ gaps-join w ws words

pub two_reversals-join :
    (ws : List (List ℕ))
    → AllWords is_gap ws
    → two_reversals (join ws) ≡ (length ws, join (reverse ws))
unfolding two_reversals
two_reversals-join ws words =
    ap₂ (λ (n : ℕ) (s : List ℕ). (n, s)) (word_count-join ws words)
      (ap (reverse_each []) (reverse-join ws)
        ∙ reverse_each-join (flipped ws) (flipped-AllWords is_gap ws words)
        ∙ ap join (map-reverse-flipped ws))

-- A string of words with one space between any two, each not empty and without a space: reversing
-- the whole of it and then each word gives the words in the reversed order, and doing so again the
-- string; both times the number of words is returned.
pub two_reversals-two_reversals :
    (ws : List (List ℕ))
    → AllWords is_gap ws
    → (two_reversals (join ws) ≡ (length ws, join (reverse ws)))
      × (two_reversals (two_reversals (join ws)).1 ≡ (length ws, join ws))
two_reversals-two_reversals ws words =
    let there = two_reversals-join ws words in
    (
      there,
      ap (λ (r : ℕ × List ℕ). two_reversals r.1) there
          ∙ two_reversals-join (reverse ws) (reverse-AllWords is_gap ws words)
          ∙ ap₂ (λ (n : ℕ) (us : List (List ℕ)). (n, join us)) (length-reverse ws)
              (reverse-reverse ws),
    )
