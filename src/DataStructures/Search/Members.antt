-- ===== src/DataStructures/Search/Members.antt =====
-- Orders of a list in terms of its members.
use mathlib.Core.Logic.Or
use mathlib.Core.List.{Perm, Mem, mem-cons, mem-cons_self, mem-cons_of_mem, not-mem-nil}
use mathlib.Core.List.Perm
use mathlib.Core.Option.{some-injective}
use native.Mathlib.Bridge.{le_prop}
use low_level.Prelude.{ℕ, zero, suc, ◌≡◌, refl, some, List, [], ◌∷◌, get_elem?}
use low_level.Prelude.Int.{ℤ, ◌≤ℤ◌}
use low_level.DataStructures.Search.{AllAtLeast}

pub AllAtLeast-Mem : (x y : ℤ) (ys : List ℤ) → AllAtLeast x ys → Mem y ys → x ≤ℤ y
AllAtLeast-Mem x y [] all m = absurd (not-mem-nil m)
AllAtLeast-Mem x y (z ∷ ys) all m =
    Or.elim le_prop (mem-cons.0 m) (λ e. rw e all.0) (AllAtLeast-Mem x y ys all.1)

pub AllAtLeast_of_Mem : (x : ℤ) (ys : List ℤ) → ((y : ℤ) → Mem y ys → x ≤ℤ y) → AllAtLeast x ys
AllAtLeast_of_Mem x [] h = tt
AllAtLeast_of_Mem x (y ∷ ys) h =
    (h y mem-cons_self, AllAtLeast_of_Mem x ys (λ z m. h z (mem-cons_of_mem y m)))

pub AllAtLeast-perm : (x : ℤ) (xs ys : List ℤ) → Perm xs ys → AllAtLeast x xs → AllAtLeast x ys
AllAtLeast-perm x xs ys p h =
    AllAtLeast_of_Mem x ys (λ y m. AllAtLeast-Mem x y xs h ((Perm.mem_iff p).1 m))

pub Mem-get : (xs : List ℤ) (i : ℕ) (x : ℤ) → get_elem? xs i ≡ some x → Mem x xs
Mem-get [] i x e = cc
Mem-get (y ∷ xs) zero x e = rw (some-injective y x e) mem-cons_self
Mem-get (y ∷ xs) (suc i) x e = mem-cons_of_mem y (Mem-get xs i x e)

-- What is at most each element by index is at most every member.
pub AllAtLeast_of_get :
    (x : ℤ) (ys : List ℤ) → ((i : ℕ) (y : ℤ) → get_elem? ys i ≡ some y → x ≤ℤ y) → AllAtLeast x ys
AllAtLeast_of_get x [] h = tt
AllAtLeast_of_get x (y ∷ ys) h = (h 0 y refl, AllAtLeast_of_get x ys (λ i z e. h (suc i) z e))
