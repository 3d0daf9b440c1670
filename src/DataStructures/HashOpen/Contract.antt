-- ===== src/DataStructures/HashOpen/Contract.antt =====
-- The contract of ProperDS/src/hashopen.h: what the header says of each function, in terms of the
-- slots, of the probing and of the marks that it fixes.
use low_level.Prelude.{
  ℕ, suc, ◌≡◌, refl, ap, Bool, true, false, Option, none, some, List, is_some, if◌then◌else◌,
}
use low_level.Prelude.Int.{ℤ}
use low_level.DataStructures.HashChain.{answer}
use low_level.DataStructures.HashOpen.{
  HashOpen, find, IsHashOpen, value_at, value_of, with_slots, delete_at, hashopen_put,
  hashopen_delete,
}
use low_level.DataStructures.HashOpen.Updates.{Sets, hashopen_put_lem}

-- The functions of the header, while allocation succeeds. A value `*out` is given and returned.
pub record HashOpenApi : Type 0 where
  pub hashopen_init : HashOpen
  pub hashopen_free : HashOpen → Unit {0}
  pub hashopen_put : HashOpen → List ℕ → ℤ → Bool × HashOpen
  pub hashopen_get : HashOpen → List ℕ → ℤ → Bool × ℤ
  pub hashopen_delete : HashOpen → List ℕ → Bool × HashOpen
  pub hashopen_len : HashOpen → ℕ
  pub init_law : hashopen_init ≡ with_slots 16
  pub put_law :
      (t : HashOpen) (k : List ℕ) (v : ℤ)
      → IsHashOpen t
      → (t' : HashOpen) × (hashopen_put t k v ≡ (true, t'))
        × IsHashOpen t'
        × (t'.len ≡ (if is_some (value_of t k) then t.len else suc t.len))
        × Sets t k (some v) t'
  pub get_law :
      (t : HashOpen) (k : List ℕ) (r : Option ℕ) (out : ℤ)
      → IsHashOpen t
      → find t k ≡ some r
      → hashopen_get t k out ≡ answer (value_at t.slots r) out
  pub delete_present :
      (t : HashOpen) (k : List ℕ) (i : ℕ)
      → IsHashOpen t
      → find t k ≡ some (some i)
      → hashopen_delete t k ≡ (true, delete_at t i)
  pub delete_absent :
      (t : HashOpen) (k : List ℕ)
      → IsHashOpen t
      → find t k ≡ some none
      → hashopen_delete t k ≡ (false, t)
  pub len_law : (t : HashOpen) → hashopen_len t ≡ t.len

abbrev or_else : HashOpen → Option (Bool × HashOpen) → Bool × HashOpen
or_else t none = (false, t)
or_else t (some r) = r

present_lem :
    (t : HashOpen) (k : List ℕ) (i : ℕ)
    → find t k ≡ some (some i)
    → or_else t (hashopen_delete t k) ≡ (true, delete_at t i)
unfolding hashopen_delete
present_lem t k i finds = rw finds refl

absent_lem :
    (t : HashOpen) (k : List ℕ)
    → find t k ≡ some none
    → or_else t (hashopen_delete t k) ≡ (false, t)
unfolding hashopen_delete
absent_lem t k finds = rw finds refl

-- Functions that keep the contract.
pub probing : HashOpenApi
probing = record {
  hashopen_init = with_slots 16;
  hashopen_free = λ t. tt;
  hashopen_put = λ t k v. or_else t (hashopen_put t k v);
  hashopen_get = λ t k out. answer (value_of t k) out;
  hashopen_delete = λ t k. or_else t (hashopen_delete t k);
  hashopen_len = λ t. t.len;
  init_law = refl;
  put_law = λ t k v valid.
      let (t', runs, valid', longer, sets) = hashopen_put_lem t k valid v in
      (t', ap (or_else t) runs, valid', longer, sets);
  get_law = λ t k r out valid finds. rw finds refl;
  delete_present = λ t k i valid finds. present_lem t k i finds;
  delete_absent = λ t k valid finds. absent_lem t k finds;
  len_law = λ t. refl;
}
