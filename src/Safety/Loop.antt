-- ===== src/Safety/Loop.antt =====
-- What the writing loop of `safe_strcat`, and with it that of `safe_strcpy`, leaves behind
-- (ProperC/src/safety.c).
use low_level.Prelude.{
  ℕ, ◌+◌, ◌-◌, ◌≤◌, ◌≡◌, refl, true, false, some, List, [], ◌∷◌, ◌++◌, append_assoc, arith, length,
  length-append, get_elem?-split, store-split, ltb,
}
use low_level.Safety.{append_loop}
use low_level.Safety.Length.{padded}

-- Behind the end of the source the loop writes zeros.
append_loop-zeros :
    (mid src out post : List ℕ) (src_len dst_len i : ℕ)
    → i ≡ length out
    → src_len ≤ i - dst_len
    → append_loop src src_len dst_len (length mid) i (out ++ (mid ++ post))
      ≡ some (out ++ (padded (length mid) [] ++ post))
unfolding append_loop padded
append_loop-zeros [] src out post src_len dst_len i e h = refl
append_loop-zeros (x ∷ mid) src out post src_len dst_len i e h =
    let past : ltb (i - dst_len) src_len ≡ false = ground arith in
    rw (past, store-split out x (mid ++ post) 0 e)
      (rw
        (
          append_assoc out (0 ∷ []) (mid ++ post),
          append_assoc out (0 ∷ []) (padded (length mid) [] ++ post),
        )
        at
        (append_loop-zeros mid src (out ++ 0 ∷ []) post src_len dst_len (i + 1)
          (omega (arith, length-append out (0 ∷ []))) (omega arith)))

-- From the place in the source where `s` is still to come, it writes `s`, and zeros behind it.
pub append_loop-padded :
    (mid s before rest out post : List ℕ) (src_len dst_len i : ℕ)
    → i ≡ length out
    → dst_len ≤ i
    → i - dst_len ≡ length before
    → src_len ≡ length before + length s
    → append_loop (before ++ (s ++ 0 ∷ rest)) src_len dst_len (length mid) i (out ++ (mid ++ post))
      ≡ some (out ++ (padded (length mid) s ++ post))
unfolding append_loop padded
append_loop-padded [] s before rest out post src_len dst_len i e le at_src size = refl
append_loop-padded (x ∷ mid) [] before rest out post src_len dst_len i e le at_src size =
    append_loop-zeros (x ∷ mid) (before ++ 0 ∷ rest) out post src_len dst_len i e (omega arith)
append_loop-padded (x ∷ mid) (c ∷ s) before rest out post src_len dst_len i e le at_src size =
    let inside : ltb (i - dst_len) src_len ≡ true = ground arith in
    rw
      (inside, get_elem?-split before c (s ++ 0 ∷ rest) at_src, store-split out x (mid ++ post) c e)
      (rw
        (
          append_assoc before (c ∷ []) (s ++ 0 ∷ rest),
          append_assoc out (c ∷ []) (mid ++ post),
          append_assoc out (c ∷ []) (padded (length mid) s ++ post),
        )
        at
        (append_loop-padded mid s (before ++ c ∷ []) rest (out ++ c ∷ []) post src_len dst_len
          (i + 1) (omega (arith, length-append out (c ∷ []))) (omega arith)
          (omega (arith, length-append before (c ∷ [])))
          (omega (arith, length-append before (c ∷ [])))))
