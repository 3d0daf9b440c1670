-- ===== src/Interview/Lru/Survival.antt =====
-- How long an entry of the cache of ProperInterview/src/lru.h survives.
use mathlib.Core.Option.{some-injective}
use low_level.Prelude.{
  ℕ, suc, ◌+◌, ◌≤◌, ◌<◌, ◌≡◌, ◌≢◌, refl, sym, ap, ◌∙◌, true, false, some, List, [], ◌∷◌, length,
  ◌==◌, arith, Option-cases, inl, inr, dec_lt, ℕ_discrete,
}
use low_level.Prelude.Int.{pos}
use low_level.Interview.Lru.{Entry, lookup, without, used, evicted, LruApi}
use low_level.Interview.Lru.Recency.{
  Recent, Recent-later, Recent-lookup, Recent-suc, Recent-without, Recent-evicted, Call, get, put,
  puts, puts_none, puts_none_split, Fits, step, after, step-capacity, step-Fits,
}

Recent-used :
    (n k v j w : ℕ) (xs : List Entry) → j ≢ k → Recent n k v xs → Recent (suc n) k v (used j w xs)
Recent-used n k v j w xs differ r =
    Recent-later n k v (j, w) (without j xs) (ground arith) (Recent-without n k v j xs differ r)

first-Recent : (n k v : ℕ) (xs : List Entry) → Recent (suc n) k v ((k, v) ∷ xs)
unfolding lookup
first-Recent n k v xs = let same : (k == k) ≡ true = ground arith in rw same refl

module _ {LRU : Type 0} (api : LruApi LRU) where
  -- One call pushes an entry back by one place at most.
  step-Recent :
      (call : Call) (c : LRU) (n k v : ℕ)
      → Fits api c
      → n < api.capacity c
      → puts k call ≡ false
      → Recent n k v (api.entries c)
      → Recent (suc n) k v (api.entries (step api call c))
  unfolding step
  step-Recent (get j) c n k v fits lt other r = elim (Option-cases (lookup j (api.entries c))) [
    | inl miss ↦ rw (api.get_miss c j miss).1 (Recent-suc n k v (api.entries c) r)
    | inr (w, hit) ↦ rw (api.get_hit c j w hit).1 (elim (ℕ_discrete j k) [
      | yes same ↦
          let value : w ≡ v = some-injective w v (
            sym hit
            ∙ ap (λ i. lookup i (api.entries c)) same
            ∙ Recent-lookup n k v (api.entries c) r) in
          rw (same, value) (first-Recent n k v (without k (api.entries c)))
      | no differ ↦ Recent-used n k v j w (api.entries c) differ r
    ])
  ]
  step-Recent (put j w) c n k v fits lt other r =
      let differ : j ≢ k = λ e. ground (arith, other, e) in
      elim (Option-cases (lookup j (api.entries c))) [
        | inr (u, hit) ↦
            rw (api.put_present c j w u hit) (Recent-used n k v j w (api.entries c) differ r)
        | inl miss ↦ elim (dec_lt (length (api.entries c)) (api.capacity c)) [
          | yes room ↦
              rw (api.put_new c j w miss room) (Recent-later n k v (j, w) (api.entries c) other r)
          | no full ↦
              let size : length (api.entries c) ≡ api.capacity c = omega (arith, fits.1) in
              rw (api.put_full c j w miss size) (
                Recent-later n k v (j, w) (evicted (api.entries c)) other
                  (Recent-evicted n k v (api.entries c) (omega (arith, size)) r))
        ]
      ]

  after-Recent :
      (calls : List Call) (c : LRU) (n k v : ℕ)
      → Fits api c
      → n + length calls ≤ api.capacity c
      → puts_none k calls ≡ true
      → Recent n k v (api.entries c)
      → lookup k (api.entries (after api calls c)) ≡ some v
  unfolding after
  after-Recent [] c n k v fits lt others r = Recent-lookup n k v (api.entries c) r
  after-Recent (call ∷ calls) c n k v fits lt others r =
      let (other, rest) = puts_none_split k call calls others in
      after-Recent calls (step api call c) (suc n) k v (step-Fits api call c fits)
        (omega (arith, step-capacity api call c, lt)) rest
        (step-Recent call c n k v fits (omega (arith, lt)) other r)

  put-Recent : (c : LRU) (k v : ℕ) → Fits api c → Recent 1 k v (api.entries (api.lru_put c k v))
  put-Recent c k v fits = elim (Option-cases (lookup k (api.entries c))) [
    | inr (u, hit) ↦
        rw (api.put_present c k v u hit) (first-Recent 0 k v (without k (api.entries c)))
    | inl miss ↦ elim (dec_lt (length (api.entries c)) (api.capacity c)) [
      | yes room ↦ rw (api.put_new c k v miss room) (first-Recent 0 k v (api.entries c))
      | no full ↦
          rw (api.put_full c k v miss (omega (arith, fits.1)))
            (first-Recent 0 k v (evicted (api.entries c)))
    ]
  ]

  put-Fits : (c : LRU) (k v : ℕ) → Fits api c → Fits api (api.lru_put c k v)
  unfolding step
  put-Fits c k v fits = step-Fits api (put k v) c fits

  -- In a cache whose entries fit its capacity of at least one, a value that lru_put has stored is
  -- returned by lru_get after fewer calls of lru_get and lru_put than the capacity, if none of them
  -- puts the same key.
  pub lru_get-put :
      (c : LRU) (k v : ℕ) (calls : List Call)
      → Fits api c
      → length calls < api.capacity c
      → puts_none k calls ≡ true
      → (api.lru_get (after api calls (api.lru_put c k v)) k).0 ≡ pos v
  lru_get-put c k v calls fits few others =
      (api.get_hit (after api calls (api.lru_put c k v)) k v (
        after-Recent calls (api.lru_put c k v) 1 k v (put-Fits c k v fits)
          (omega (arith, api.put_capacity c k v)) others (put-Recent c k v fits))).0
