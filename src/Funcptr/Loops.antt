-- ===== src/Funcptr/Loops.antt =====
-- `int_map`, `int_filter` and `int_reduce` of ProperC/src/funcptr.c against the list functions.
use mathlib.Core.List.{foldl}
use native.Mathlib.Nat.{zero-add}
use low_level.Prelude.{
  ℕ, suc, ◌+◌, ◌≤◌, ◌≡◌, refl, ap, Bool, Option, some, List, [], ◌∷◌, ◌++◌, map, append_assoc,
  arith, length, length-append, take, drop, take-append-drop, length-take, get_elem?-split,
  store-split, if◌then◌else◌, Bool-cases, inl, inr, ◌>>=◌, store,
}
use low_level.Prelude.Int.{ℤ}
use low_level.Funcptr.{
  map_loop, int_map, Filtered, filter_loop, int_filter, reduce_loop, int_reduce,
}

-- The loop from the end of `pre` on, over `mid`.
map_loop-map :
    (fn : ℤ → ℤ) (mid pre post : List ℤ) (i : ℕ)
    → i ≡ length pre
    → map_loop fn (length mid) i (pre ++ (mid ++ post)) ≡ some (pre ++ (map fn mid ++ post))
unfolding map_loop
map_loop-map fn [] pre post i e = refl
map_loop-map fn (x ∷ mid) pre post i e =
    let next =
      map_loop-map fn mid (pre ++ fn x ∷ []) post (i + 1)
        (omega (arith, length-append pre (fn x ∷ []))) in
    rw (get_elem?-split pre x (mid ++ post) e, store-split pre x (mid ++ post) (fn x) e)
      (simp append_assoc at next)

-- For an array of at least `n` elements, `int_map` applies the function to each of the first `n`
-- and leaves the others as they were.
pub int_map-map :
    (arr : List ℤ) (n : ℕ) (fn : ℤ → ℤ)
    → n ≤ length arr
    → int_map arr n fn ≡ some (map fn (take n arr) ++ drop n arr)
unfolding int_map
int_map-map arr n fn h =
    let size : length (take n arr) ≡ n = omega (arith, length-take n arr) in
    let run = map_loop-map fn (take n arr) [] (drop n arr) 0 refl in
    rw (take-append-drop n arr, size) at run

-- The elements that pass the test, in order.
unfoldable pub passing : (ℤ → Bool) → List ℤ → List ℤ
passing pred [] = []
passing pred (x ∷ xs) = if pred x then x ∷ passing pred xs else passing pred xs

-- What the loop is to return, from the state in which `out` is written and `rest` is not.
abbrev filtered : List ℤ → List ℤ → List ℤ → ℕ → Option Filtered
filtered out passed rest count =
    some
      (record { dst = out ++ (passed ++ drop (length passed) rest); count = count + length passed })

-- A round that keeps its element, given what the later rounds return.
filtered_keep :
    (next : List ℤ → Option Filtered) (x : ℤ) (out passed rest : List ℤ) (count : ℕ)
    → count ≡ length out
    → suc (length passed) ≤ length rest
    → ((rest' : List ℤ)
        → length passed ≤ length rest'
        → next (out ++ x ∷ rest') ≡ filtered (out ++ x ∷ []) passed rest' (count + 1))
    → (store (out ++ rest) count x >>= next) ≡ filtered out (x ∷ passed) rest count
filtered_keep next x out passed [] count e room later = absurd (omega arith)
filtered_keep next x out passed (r ∷ rest) count e room later =
    rw (store-split out r rest x e, later rest (omega arith), append_assoc)
      (ap (λ n. some (record { dst = out ++ x ∷ (passed ++ drop (length passed) rest); count = n }))
        (omega arith))

filter_loop-passing :
    (pred : ℤ → Bool) (mid pre post out rest : List ℤ) (i count : ℕ)
    → i ≡ length pre
    → count ≡ length out
    → length (passing pred mid) ≤ length rest
    → filter_loop pred (pre ++ (mid ++ post)) (length mid) i (out ++ rest) count
      ≡ filtered out (passing pred mid) rest count
unfolding filter_loop passing
filter_loop-passing pred [] pre post out rest i count e e' room =
    ap (λ n. some (record { dst = out ++ rest; count = n })) (omega arith)
filter_loop-passing pred (x ∷ mid) pre post out rest i count e e' room =
    let front : i + 1 ≡ length (pre ++ x ∷ []) = omega (arith, length-append pre (x ∷ [])) in
    let more : count + 1 ≡ length (out ++ x ∷ []) = omega (arith, length-append out (x ∷ [])) in
    rw (get_elem?-split pre x (mid ++ post) e) (elim (Bool-cases (pred x)) [
      | inl keep ↦ rw keep (
          filtered_keep _ x out (passing pred mid) rest count e' (rw keep at room) (λ rest' h.
            rw (append_assoc pre (x ∷ []) (mid ++ post), append_assoc out (x ∷ []) rest') at
              (filter_loop-passing pred mid (pre ++ x ∷ []) post (out ++ x ∷ []) rest' (i + 1)
                (count + 1) front more h)))
      | inr skip ↦ rw skip (
          rw (append_assoc pre (x ∷ []) (mid ++ post)) at (
            filter_loop-passing pred mid (pre ++ x ∷ []) post out rest (i + 1) count front e'
              (rw skip at room)))
    ])

-- For a `src` of at least `n` elements and a `dst` with room for those that pass the test,
-- `int_filter` writes these to the front of `dst` in their order, leaves the rest of `dst` as it
-- was, and returns their number.
pub int_filter-passing :
    (src : List ℤ) (n : ℕ) (dst : List ℤ) (pred : ℤ → Bool)
    → n ≤ length src
    → length (passing pred (take n src)) ≤ length dst
    → int_filter src n dst pred
      ≡ some (record {
        dst = passing pred (take n src) ++ drop (length (passing pred (take n src))) dst;
        count = length (passing pred (take n src));
      })
unfolding int_filter
int_filter-passing src n dst pred h room =
    let size : length (take n src) ≡ n = omega (arith, length-take n src) in
    let run = filter_loop-passing pred (take n src) [] (drop n src) [] dst 0 0 refl refl room in
    rw (take-append-drop n src, size, zero-add) at run

reduce_loop-foldl :
    (op : ℤ → ℤ → ℤ) (mid pre post : List ℤ) (i : ℕ) (init : ℤ)
    → i ≡ length pre
    → reduce_loop op (pre ++ (mid ++ post)) (length mid) i init ≡ some (foldl op init mid)
unfolding reduce_loop
reduce_loop-foldl op [] pre post i init e = refl
reduce_loop-foldl op (x ∷ mid) pre post i init e =
    let front : i + 1 ≡ length (pre ++ x ∷ []) = omega (arith, length-append pre (x ∷ [])) in
    rw (get_elem?-split pre x (mid ++ post) e) (
      rw (append_assoc pre (x ∷ []) (mid ++ post)) at
        (reduce_loop-foldl op mid (pre ++ x ∷ []) post (i + 1) (op init x) front))

-- For an array of at least `n` elements, `int_reduce` is the left fold over the first `n`.
pub int_reduce-foldl :
    (arr : List ℤ) (n : ℕ) (init : ℤ) (op : ℤ → ℤ → ℤ)
    → n ≤ length arr
    → int_reduce arr n init op ≡ some (foldl op init (take n arr))
unfolding int_reduce
int_reduce-foldl arr n init op h =
    let size : length (take n arr) ≡ n = omega (arith, length-take n arr) in
    let run = reduce_loop-foldl op (take n arr) [] (drop n arr) 0 init refl in
    rw (take-append-drop n arr, size) at run
