-- ===== src/Safety/Concat.antt =====
-- `safe_strcat` of ProperC/src/safety.c.
use low_level.Prelude.{
  ℕ, zero, suc, ◌+◌, ◌-◌, ◌%◌, ◌^◌, ◌≤◌, ◌<◌, ◌≡◌, refl, sym, ◌∙◌, none, some, List, [], ◌∷◌, ◌++◌,
  append_assoc, arith, length, length-append, take, drop, store, store-eq-none, store-split,
  drop_front, ltb, if◌then◌else◌, >>=-eq-some, >>=-eq-none, length-store, get_elem?, split_at,
  SplitAt,
}
use low_level.Safety.{append_loop, last_index, str_length, safe_strcat}
use low_level.Safety.Length.{
  NonZero, content, padded, length-padded, str_length-append, content-padded,
}
use low_level.Safety.Loop.{append_loop-padded}

-- The number that `safe_strcat` returns.
abbrev pub returned : ℕ → ℕ → ℕ
returned actual dstsize = if ltb actual dstsize then actual else dstsize

-- The run on a destination whose string `d` ends inside of the first `dstsize` bytes.
safe_strcat-padded :
    (d mid s rest post : List ℕ) (x dstsize : ℕ)
    → NonZero s
    → str_length (d ++ (mid ++ x ∷ post)) ≡ some (length d)
    → dstsize ≡ length d + length mid + 1
    → length s + dstsize < 2 ^ 64
    → safe_strcat (d ++ (mid ++ x ∷ post)) dstsize (s ++ 0 ∷ rest)
      ≡ some (record {
        dst = d ++ (padded (length mid) s ++ 0 ∷ post);
        result = returned (length s + length d) dstsize;
      })
unfolding safe_strcat
safe_strcat-padded d mid s rest post x dstsize hs at_d size small =
    let last : last_index dstsize ≡ length d + length mid = omega arith in
    let rounds : length d + length mid - length d ≡ length mid = omega arith in
    let wrap : (length s + length d) % 2 ^ 64 ≡ length s + length d = omega arith in
    let run =
      append_loop-padded mid s [] rest d (x ∷ post) (length s) (length d) (length d) refl
        (omega arith) (omega arith) (omega arith) in
    let end =
      store-split {i = length d + length mid} (d ++ padded (length mid) s) x post 0
        (omega (arith, length-append d (padded (length mid) s), length-padded (length mid) s)) in
    let end' =
      rw
        (
          append_assoc d (padded (length mid) s) (x ∷ post),
          append_assoc d (padded (length mid) s) (0 ∷ post),
        )
        at end in
    rw (str_length-append s rest hs, at_d, last, rounds, run, end', wrap) refl

-- What `out` is to be, for the destination `dst`, its string `d` and the source's string `s`.
pub record IsConcat (d dst s : List ℕ) (dstsize : ℕ) (out : List ℕ) : Type 0 where
  pub text : content out ≡ d ++ take (dstsize - 1 - length d) s
  pub same_length : length out ≡ length dst
  pub beyond : drop dstsize out ≡ drop dstsize dst

pub IsConcat-padded :
    (d mid s post : List ℕ) (x dstsize : ℕ)
    → NonZero d
    → NonZero s
    → dstsize ≡ length d + length mid + 1
    → IsConcat d (d ++ (mid ++ x ∷ post)) s dstsize (d ++ (padded (length mid) s ++ 0 ∷ post))
IsConcat-padded d mid s post x dstsize hd hs size = record {
  text =
      let room : dstsize - 1 - length d ≡ length mid = omega arith in
      content-padded d (length mid) s post hd hs ∙ rw room refl;
  same_length = omega (
    arith,
    length-padded (length mid) s,
    length-append d (padded (length mid) s ++ 0 ∷ post),
    length-append (padded (length mid) s) (0 ∷ post),
    length-append d (mid ++ x ∷ post),
    length-append mid (x ∷ post),
  );
  beyond =
      dropped (padded (length mid) s) 0 (omega (arith, length-padded (length mid) s))
      ∙ sym (dropped mid x size);
}
  where
    dropped :
        (window : List ℕ) (y : ℕ)
        → dstsize ≡ length d + length window + 1
        → drop dstsize (d ++ (window ++ y ∷ post)) ≡ post
    dropped window y e =
        rw (append_assoc d (window ++ y ∷ []) post, append_assoc window (y ∷ []) post) at
          (drop_front dstsize (d ++ (window ++ y ∷ [])) post
            (omega (arith, length-append d (window ++ y ∷ []), length-append window (y ∷ []))))

-- For strings `d` and `s` without zeros in terminated arrays, with `d` ending inside of the first
-- `dstsize` bytes of the destination, and those inside of its array: `safe_strcat` ends without a
-- fault; the destination then holds `d` and as much of `s` as fits in front of a terminator; the
-- bytes from `dstsize` on are as they were; and the result is the sum of the lengths if it is below
-- `dstsize`, and otherwise `dstsize`.
pub safe_strcat-IsConcat :
    (d more s rest : List ℕ) (dstsize : ℕ)
    → NonZero d
    → NonZero s
    → length d < dstsize
    → dstsize ≤ length (d ++ 0 ∷ more)
    → length s + dstsize < 2 ^ 64
    → (out : List ℕ) × (safe_strcat (d ++ 0 ∷ more) dstsize (s ++ 0 ∷ rest)
        ≡ some (record { dst = out; result = returned (length s + length d) dstsize }))
      × IsConcat d (d ++ 0 ∷ more) s dstsize out
safe_strcat-IsConcat d more s rest dstsize hd hs inside fits small =
    go (split_at (dstsize - 1 - length d) (0 ∷ more) (omega (arith, length-append d (0 ∷ more))))
  where
    go :
        SplitAt (dstsize - 1 - length d) (0 ∷ more)
        → (out : List ℕ) × (safe_strcat (d ++ 0 ∷ more) dstsize (s ++ 0 ∷ rest)
            ≡ some (record { dst = out; result = returned (length s + length d) dstsize }))
          × IsConcat d (d ++ 0 ∷ more) s dstsize out
    go p =
        let size : dstsize ≡ length d + length p.before + 1 = omega (arith, p.size) in
        let at_d = rw p.split at (str_length-append d more hd) in
        rw p.split (
          d ++ (padded (length p.before) s ++ 0 ∷ p.behind),
          safe_strcat-padded d p.before s rest p.behind p.item dstsize hs at_d size small,
          IsConcat-padded d p.before s p.behind p.item dstsize hd hs size,
        )

-- The loop keeps the length of the array.
append_loop-length :
    (left : ℕ) (src : List ℕ) (src_len dst_len i : ℕ) (dst out : List ℕ)
    → append_loop src src_len dst_len left i dst ≡ some out
    → length out ≡ length dst
unfolding append_loop
append_loop-length zero src src_len dst_len i dst out h = ground arith
append_loop-length (suc left) src src_len dst_len i dst out h =
    let (c, _, h₁) =
      >>=-eq-some (if ltb (i - dst_len) src_len then get_elem? src (i - dst_len) else some 0) _ h in
    let (dst', stored, h₂) = >>=-eq-some (store dst i c) _ h₁ in
    append_loop-length left src src_len dst_len (i + 1) dst' out h₂ ∙ length-store dst i c stored

-- With a `dstsize` of 0 the index of the terminator wraps to the largest `size_t`: whatever the
-- two arrays hold, `safe_strcat` reads or writes out of bounds.
pub safe_strcat_zero : (dst src : List ℕ) → length dst < 2 ^ 64 → safe_strcat dst 0 src ≡ none
unfolding safe_strcat
safe_strcat_zero dst src small = >>=-eq-none (str_length src) _ λ src_len _.
    >>=-eq-none (str_length dst) _ λ dst_len _.
      >>=-eq-none (append_loop src src_len dst_len (last_index 0 - dst_len) dst_len dst) _
        λ dst' run. rw (
          store-eq-none dst' (last_index 0) 0 (
            omega (
              arith,
              append_loop-length (last_index 0 - dst_len) src src_len dst_len dst_len dst dst' run,
            )))
