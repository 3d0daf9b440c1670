-- ===== src/Interview/Lru/Recency.antt =====
-- What the order of recency of ProperInterview/src/lru.h amounts to over many calls.
use low_level.Prelude.{
  ℕ, zero, suc, ◌-◌, ◌≤◌, ◌<◌, ◌≡◌, ◌≢◌, refl, ap, ◌∙◌, Bool, true, false, none, some, List, [],
  ◌∷◌, length, take, ◌==◌, if◌then◌else◌, arith, Option-cases, Bool-cases, inl, inr, dec_lt,
}
use low_level.Interview.Lru.{Entry, lookup, without, used, evicted, LruApi}

length-without : (k : ℕ) (xs : List Entry) → length (without k xs) ≤ length xs
unfolding without
length-without k [] = omega arith
length-without k ((j, v) ∷ xs) = ground (arith, length-without k xs)

-- Promoting an entry that is there makes the list no longer.
length-used :
    (k v w : ℕ) (xs : List Entry) → lookup k xs ≡ some w → length (used k v xs) ≤ length xs
unfolding without lookup
length-used k v w [] e = cc
length-used k v w ((j, u) ∷ xs) e = elim (Bool-cases (j == k)) [
  | inl same ↦ rw same (omega (arith, length-without k xs))
  | inr apart ↦ rw apart (omega (arith, length-used k v w xs (rw apart at e)))
]

length-evicted : (xs : List Entry) → length (evicted xs) ≡ length xs - 1
unfolding evicted
length-evicted [] = refl
length-evicted (x ∷ []) = refl
length-evicted (x ∷ y ∷ xs) = omega (arith, length-evicted (y ∷ xs))

-- The entry of `k` is among the `n` most recently used ones.
abbrev pub Recent : ℕ → ℕ → ℕ → List Entry → Type 0
Recent n k v xs = lookup k (take n xs) ≡ some v

pub Recent-later :
    (n k v : ℕ) (x : Entry) (xs : List Entry)
    → (x.0 == k) ≡ false
    → Recent n k v xs
    → Recent (suc n) k v (x ∷ xs)
unfolding lookup
Recent-later n k v (j, u) xs apart r = rw apart r

pub Recent-lookup : (n k v : ℕ) (xs : List Entry) → Recent n k v xs → lookup k xs ≡ some v
unfolding lookup
Recent-lookup zero k v xs r = absurd (nothing r)
  where
    nothing : none ≡ some v → ⊥
    nothing h = cc
Recent-lookup (suc n) k v [] r = r
Recent-lookup (suc n) k v ((j, u) ∷ xs) r = elim (Bool-cases (j == k)) [
  | inl same ↦ rw same (rw same at r)
  | inr apart ↦ rw apart (Recent-lookup n k v xs (rw apart at r))
]

pub Recent-suc : (n k v : ℕ) (xs : List Entry) → Recent n k v xs → Recent (suc n) k v xs
unfolding lookup
Recent-suc zero k v xs r = absurd (nothing r)
  where
    nothing : none ≡ some v → ⊥
    nothing h = cc
Recent-suc (suc n) k v [] r = r
Recent-suc (suc n) k v ((j, u) ∷ xs) r = elim (Bool-cases (j == k)) [
  | inl same ↦ rw same (rw same at r)
  | inr apart ↦ rw apart (Recent-suc n k v xs (rw apart at r))
]

pub Recent-without :
    (n k v j : ℕ) (xs : List Entry) → j ≢ k → Recent n k v xs → Recent n k v (without j xs)
unfolding lookup without
Recent-without zero k v j xs differ r = r
Recent-without (suc n) k v j [] differ r = r
Recent-without (suc n) k v j ((i, u) ∷ xs) differ r = elim (Bool-cases (i == j)) [
  | inl same ↦
      let apart : (i == k) ≡ false = ground (arith, same) in
      rw same (Recent-suc n k v (without j xs) (Recent-without n k v j xs differ (rw apart at r)))
  | inr other ↦ elim (Bool-cases (i == k)) [
    | inl same ↦ rw (other, same) (rw same at r)
    | inr apart ↦ rw (other, apart) (Recent-without n k v j xs differ (rw apart at r))
  ]
]

pub Recent-evicted :
    (n k v : ℕ) (xs : List Entry) → n < length xs → Recent n k v xs → Recent n k v (evicted xs)
unfolding lookup evicted
Recent-evicted zero k v xs lt r = r
Recent-evicted (suc n) k v [] lt r = r
Recent-evicted (suc n) k v (x ∷ []) lt r = absurd (omega arith)
Recent-evicted (suc n) k v ((j, u) ∷ y ∷ xs) lt r = elim (Bool-cases (j == k)) [
  | inl same ↦ rw same (rw same at r)
  | inr apart ↦ rw apart (Recent-evicted n k v (y ∷ xs) (omega arith) (rw apart at r))
]

pub data Call : Type 0 where
  get : ℕ → Call
  put : ℕ → ℕ → Call

-- The call may change the value of the key.
abbrev pub puts : ℕ → Call → Bool
puts k (get j) = false
puts k (put j v) = j == k

unfoldable pub puts_none : ℕ → List Call → Bool
puts_none k [] = true
puts_none k (call ∷ calls) = let rest = puts_none k calls in if puts k call then false else rest

pub puts_none_split :
    (k : ℕ) (call : Call) (calls : List Call)
    → puts_none k (call ∷ calls) ≡ true
    → (puts k call ≡ false) × (puts_none k calls ≡ true)
unfolding puts_none
puts_none_split k call calls h = elim (Bool-cases (puts k call)) [
  | inl writes ↦ absurd (clash (rw writes at h))
  | inr reads ↦ (reads, rw reads at h)
]
  where
    clash : false ≡ true → ⊥
    clash e = cc

module _ {LRU : Type 0} (api : LruApi LRU) where
  abbrev pub Fits : LRU → Type 0
  Fits c = (1 ≤ api.capacity c) × (length (api.entries c) ≤ api.capacity c)

  unfoldable pub step : Call → LRU → LRU
  step (get k) c = (api.lru_get c k).1
  step (put k v) c = api.lru_put c k v

  unfoldable pub after : List Call → LRU → LRU
  after [] c = c
  after (call ∷ calls) c = after calls (step call c)

  pub step-capacity : (call : Call) (c : LRU) → api.capacity (step call c) ≡ api.capacity c
  unfolding step
  step-capacity (get k) c = api.get_capacity c k
  step-capacity (put k v) c = api.put_capacity c k v

  step-length :
      (call : Call) (c : LRU) → Fits c → length (api.entries (step call c)) ≤ api.capacity c
  unfolding step
  step-length (get k) c fits = elim (Option-cases (lookup k (api.entries c))) [
    | inl miss ↦ omega (arith, fits.1, ap length (api.get_miss c k miss).1)
    | inr (v, hit) ↦
        omega (
          arith,
          fits.1,
          ap length (api.get_hit c k v hit).1,
          length-used k v v (api.entries c) hit,
        )
  ]
  step-length (put k v) c fits = elim (Option-cases (lookup k (api.entries c))) [
    | inr (w, hit) ↦ omega (
      arith,
      fits.1,
      ap length (api.put_present c k v w hit),
      length-used k v w (api.entries c) hit,
    )
    | inl miss ↦ elim (dec_lt (length (api.entries c)) (api.capacity c)) [
      | yes room ↦ omega (arith, ap length (api.put_new c k v miss room))
      | no full ↦ omega (
        arith,
        fits,
        ap length (api.put_full c k v miss (omega (arith, fits.1))),
        length-evicted (api.entries c),
      )
    ]
  ]

  pub step-Fits : (call : Call) (c : LRU) → Fits c → Fits (step call c)
  step-Fits call c fits = (
    omega (arith, step-capacity call c, fits.0),
    omega (arith, step-capacity call c, step-length call c fits),
  )

  after-Fits :
      (calls : List Call) (c : LRU)
      → Fits c
      → Fits (after calls c) × (api.capacity (after calls c) ≡ api.capacity c)
  unfolding after
  after-Fits [] c fits = (fits, refl)
  after-Fits (call ∷ calls) c fits =
      let (fits', same) = after-Fits calls (step call c) (step-Fits call c fits) in
      (fits', same ∙ step-capacity call c)

  -- After any calls on a new cache, lru_len is at most the capacity that it was created with.
  pub lru_len_bound :
      (n : ℕ) (calls : List Call) → 1 ≤ n → api.lru_len (after calls (api.lru_create n)) ≤ n
  lru_len_bound n calls positive =
      let (none_yet, size) = api.create_law n positive in
      let (fits, same) =
        after-Fits calls (api.lru_create n)
          (omega (arith, size), omega (arith, ap length none_yet)) in
      omega (arith, api.len_law (after calls (api.lru_create n)), fits.1, same, size)
