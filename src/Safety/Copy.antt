-- ===== src/Safety/Copy.antt =====
-- `safe_strcpy` and `copy_n_safe` of ProperC/src/safety.c.
use native.Mathlib.Nat.{sub-zero}
use low_level.Prelude.{
  ℕ, zero, suc, ◌+◌, ◌-◌, ◌≤◌, ◌≡◌, refl, true, false, some, List, [], ◌∷◌, ◌++◌, append_assoc,
  arith, length, length-append, take, drop, length-take, take-append-drop, store-split,
  get_elem?-split, ltb, if◌then◌else◌, split_at, SplitAt, Bool-cases, inl, inr, ◌==◌,
}
use low_level.Safety.{copy_loop, append_loop, safe_strcpy, byte_loop, copy_n_safe}
use low_level.Safety.Length.{NonZero, padded, length-padded, str_length-append}
use low_level.Safety.Loop.{append_loop-padded}
use low_level.Safety.Concat.{IsConcat, IsConcat-padded}

-- Copying is appending to an empty string.
copy_loop-append_loop :
    (left : ℕ) (src : List ℕ) (src_size i : ℕ) (dst : List ℕ)
    → copy_loop src src_size left i dst ≡ append_loop src src_size 0 left i dst
unfolding copy_loop append_loop
copy_loop-append_loop zero src src_size i dst = refl
copy_loop-append_loop (suc left) src src_size i dst =
    rw sub-zero (simp (copy_loop-append_loop left src src_size (i + 1)))

safe_strcpy-padded :
    (mid s rest post : List ℕ) (x dstsize : ℕ)
    → NonZero s
    → dstsize ≡ length mid + 1
    → safe_strcpy (mid ++ x ∷ post) dstsize (s ++ 0 ∷ rest)
      ≡ some (record { dst = padded (length mid) s ++ 0 ∷ post; result = length s })
unfolding safe_strcpy
safe_strcpy-padded mid s rest post x dstsize hs size =
    let last : dstsize - 1 ≡ length mid = omega arith in
    let nonzero : (dstsize == 0) ≡ false = ground arith in
    let run =
      append_loop-padded mid s [] rest [] (x ∷ post) (length s) 0 0 refl (omega arith) (omega arith)
        (omega arith) in
    let end =
      store-split {i = length mid} (padded (length mid) s) x post 0
        (omega (arith, length-padded (length mid) s)) in
    rw
      (
        str_length-append s rest hs,
        nonzero,
        last,
        copy_loop-append_loop (length mid) (s ++ 0 ∷ rest) (length s) 0 (mid ++ x ∷ post),
        run,
        end,
      )
      refl

-- For a string `s` without zeros in a terminated array and a `dstsize` from 1 to the size of the
-- destination: `safe_strcpy` ends without a fault and returns the length of `s`; the destination
-- then holds as much of `s` as fits in front of a terminator, and its bytes from `dstsize` on are
-- as they were.
pub safe_strcpy-IsConcat :
    (dst s rest : List ℕ) (dstsize : ℕ)
    → NonZero s
    → 1 ≤ dstsize
    → dstsize ≤ length dst
    → (out : List ℕ) × (safe_strcpy dst dstsize (s ++ 0 ∷ rest)
        ≡ some (record { dst = out; result = length s }))
      × IsConcat [] dst s dstsize out
safe_strcpy-IsConcat dst s rest dstsize hs nonempty fits =
    go (split_at (dstsize - 1) dst (omega arith))
  where
    go :
        SplitAt (dstsize - 1) dst
        → (out : List ℕ) × (safe_strcpy dst dstsize (s ++ 0 ∷ rest)
            ≡ some (record { dst = out; result = length s }))
          × IsConcat [] dst s dstsize out
    go p = rw p.split (
      padded (length p.before) s ++ 0 ∷ p.behind,
      safe_strcpy-padded p.before s rest p.behind p.item dstsize hs (omega (arith, p.size)),
      IsConcat-padded [] p.before s p.behind p.item dstsize tt hs (omega (arith, p.size)),
    )

-- With a `dstsize` of 0 `safe_strcpy` writes nothing, and still returns the length of `s`.
pub safe_strcpy_zero :
    (dst s rest : List ℕ)
    → NonZero s
    → safe_strcpy dst 0 (s ++ 0 ∷ rest) ≡ some (record { dst = dst; result = length s })
unfolding safe_strcpy
safe_strcpy_zero dst s rest hs = rw (str_length-append s rest hs)

byte_loop-copies :
    (mid old before after out post : List ℕ) (i : ℕ)
    → length old ≡ length mid
    → i ≡ length before
    → i ≡ length out
    → byte_loop (before ++ (mid ++ after)) (length mid) i (out ++ (old ++ post))
      ≡ some (out ++ (mid ++ post))
unfolding byte_loop
byte_loop-copies [] [] before after out post i size e e' = refl
byte_loop-copies [] (x ∷ old) before after out post i size e e' = absurd (omega arith)
byte_loop-copies (b ∷ mid) [] before after out post i size e e' = absurd (omega arith)
byte_loop-copies (b ∷ mid) (x ∷ old) before after out post i size e e' =
    rw (get_elem?-split before b (mid ++ after) e, store-split out x (old ++ post) b e')
      (rw
        (
          append_assoc before (b ∷ []) (mid ++ after),
          append_assoc out (b ∷ []) (old ++ post),
          append_assoc out (b ∷ []) (mid ++ post),
        )
        at
        (byte_loop-copies mid old (before ++ b ∷ []) after (out ++ b ∷ []) post (i + 1)
          (omega arith) (omega (arith, length-append before (b ∷ [])))
          (omega (arith, length-append out (b ∷ [])))))

-- For a destination of at least `dstcap` bytes and a source of at least `n`: `copy_n_safe` returns
-- false and writes nothing if `n` exceeds `dstcap`; otherwise it returns true, with the first `n`
-- bytes of the source in front of what stood behind them in the destination.
pub copy_n_safe_lem :
    (dst : List ℕ) (dstcap : ℕ) (src : List ℕ) (n : ℕ)
    → dstcap ≤ length dst
    → n ≤ length src
    → copy_n_safe dst dstcap src n
      ≡ some (
          if ltb dstcap n
          then record { dst = dst; copied = false }
          else record { dst = take n src ++ drop n dst; copied = true })
unfolding copy_n_safe
copy_n_safe_lem dst dstcap src n cap fits = elim (Bool-cases (ltb dstcap n)) [
  | inl over ↦ rw over
  | inr within ↦
      let inside : n ≤ length dst = ground arith in
      let size : length (take n src) ≡ n = omega (arith, length-take n src) in
      let run =
        byte_loop-copies (take n src) (take n dst) [] (drop n src) [] (drop n dst) 0
          (omega (arith, length-take n src, length-take n dst)) refl refl in
      let run' = rw (take-append-drop n src, take-append-drop n dst, size) at run in
      rw (within, run')
]
