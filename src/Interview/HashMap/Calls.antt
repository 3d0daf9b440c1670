-- ===== src/Interview/HashMap/Calls.antt =====
-- The map of ProperInterview/src/hashmap.h against a list of entries with different keys.
pub mod Entries
use low_level.Prelude.{
  is_some, ℕ, suc, ◌+◌, ◌≤◌, ◌≡◌, refl, sym, ap, ap₂, ◌∙◌, Bool, true, false, Option, none, some,
  List, [], ◌∷◌, length, arith, Bool-cases, inl, inr, if◌then◌else◌,
}
use low_level.Prelude.Int.{ℤ, pos}
use low_level.DataStructures.Fnv.{key_eq}
use low_level.DataStructures.Trace.{run, Follows, run-Follows}
use low_level.Interview.HashMap.{Key, value_or, HashMapApi}
use low_level.Interview.HashMap.Calls.Entries.{
  Entry, lookup, upsert, erase, Distinct, lookup-upsert, lookup-erase, upsert-Distinct,
  erase-Distinct, length-upsert, length-erase, length-erase_absent,
}

pub data Call : Type 0 where
  put : Key → ℤ → Call
  get : Key → ℤ → Call
  del : Key → Call
  len : Call

-- What a call answers: its result, and `*out` or the length.
abbrev pub Answer : Type 0
Answer = Bool × ℤ

module _ {HashMap : Type 0} (api : HashMapApi HashMap) where
  unfoldable pub step : Call → HashMap → Answer × HashMap
  step (put k v) m = let (ok, m') = api.hm_put m k v in ((ok, pos 0), m')
  step (get k out) m = (api.hm_get m k out, m)
  step (del k) m = let (ok, m') = api.hm_del m k in ((ok, pos 0), m')
  step len m = ((true, pos (api.hm_len m)), m)

-- The specification: a list of entries.
abbrev pub spec : Call → List Entry → Answer × List Entry
spec (put k v) xs = ((true, pos 0), upsert k v xs)
spec (get k out) xs = ((is_some (lookup k xs), value_or out (lookup k xs)), xs)
spec (del k) xs = ((is_some (lookup k xs), pos 0), erase k xs)
spec len xs = ((true, pos (length xs)), xs)

module _ {HashMap : Type 0} (api : HashMapApi HashMap) where
  record Shows (m : HashMap) (xs : List Entry) : Type 0 where
    values : (k : Key) → api.value_of m k ≡ lookup k xs
    count : api.hm_len m ≡ length xs
    distinct : Distinct xs

  step-Follows : Follows (step api) spec Shows
  unfolding step
  step-Follows (put k v) m xs h = (
    ap (λ b. (b, pos 0)) (api.put_answer m k v),
    record {
      values = λ j.
          api.put_value m k j v
          ∙ ap (λ (r : Option ℤ). if key_eq j k then some v else r) (h.values j)
          ∙ sym (lookup-upsert j k v xs);
      count =
          api.put_len m k v
          ∙ ap₂ (λ (b : Bool) (n : ℕ). if b then n else suc n) (ap is_some (h.values k)) h.count
          ∙ sym (length-upsert k v xs);
      distinct = upsert-Distinct k v xs h.distinct;
    },
  )
  step-Follows (get k out) m xs h =
      (api.get_law m k out ∙ ap (λ r. (is_some r, value_or out r)) (h.values k), h)
  step-Follows (del k) m xs h = (
    ap (λ b. (b, pos 0)) (api.del_answer m k ∙ ap is_some (h.values k)),
    record {
      values = λ j.
          api.del_value m k j
          ∙ ap (λ (r : Option ℤ). if key_eq j k then none else r) (h.values j)
          ∙ sym (lookup-erase j k xs);
      count = elim (Bool-cases (is_some (lookup k xs))) [
        | inl there ↦ omega (
          arith,
          api.del_len m k (ap is_some (h.values k) ∙ there),
          h.count,
          length-erase k xs h.distinct there,
        )
        | inr absent ↦
            api.del_len_absent m k (ap is_some (h.values k) ∙ absent)
            ∙ h.count
            ∙ sym (length-erase_absent k xs absent)
      ];
      distinct = erase-Distinct k xs h.distinct;
    },
  )
  step-Follows len m xs h = (ap (λ n. (true, pos n)) h.count, h)

  -- While allocation succeeds, every sequence of calls on a new map is answered as a list of
  -- entries with different keys is: hm_put overwrites or adds, hm_del takes an entry out, hm_get
  -- leaves `*out` as it was where the key is absent, and hm_len is the number of entries.
  pub hm_refines :
      (n : ℕ) (calls : List Call)
      → 1 ≤ n
      → run (step api) calls (api.hm_create n) ≡ run spec calls []
  unfolding lookup Distinct
  hm_refines n calls positive =
      let (values, count) = api.create_law n positive in
      run-Follows (step api) spec Shows calls (api.hm_create n) [] step-Follows
        (record { values = values; count = count; distinct = tt })
