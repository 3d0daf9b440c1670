-- ===== src/Pointers/Copy.antt =====
-- `my_memcpy` of ProperC/src/pointers.c on two regions of one array of bytes.
use low_level.Prelude.{
  ℕ, zero, suc, ◌+◌, ◌-◌, ◌≤◌, ◌<◌, ◌≡◌, refl, ◌∙◌, ◌⊎◌, none, some, List, arith, length,
  length-set, set, store-eq-set, get_elem?, get_elem?-set, get_elem?-in_range, ltb, leb, ◌&&◌,
  if◌then◌else◌,
}
use low_level.Pointers.{copy_loop, my_memcpy}

-- `out` is `bytes` with positions `dst + i` to `dst + n` taken from `src + i` on.
pub record IsCopied (bytes : List ℕ) (dst src i n : ℕ) (out : List ℕ) : Type 0 where
  pub same_length : length out ≡ length bytes
  pub cells :
      (k : ℕ)
      → get_elem? out k ≡ (
          if leb (dst + i) k && ltb k (dst + n)
          then get_elem? bytes (src + (k - dst))
          else get_elem? bytes k)

-- The regions where copying from the front on is right: the destination does not start inside of
-- the source.
abbrev pub Apart : ℕ → ℕ → ℕ → Type 0
Apart dst src n = (dst ≤ src) ⊎ (src + n ≤ dst)

copy_loop_lem :
    (dst src n left i : ℕ) (bytes : List ℕ)
    → Apart dst src n
    → i + left ≡ n
    → dst + n ≤ length bytes
    → src + n ≤ length bytes
    → (out : List ℕ) × (copy_loop dst src left i bytes ≡ some out) × IsCopied bytes dst src i n out
unfolding copy_loop
copy_loop_lem dst src n zero i bytes apart e fits fits' =
    (bytes, refl, record { same_length = refl; cells = λ k. ground arith })
copy_loop_lem dst src n (suc left) i bytes apart e fits fits' =
    let (b, eb) = get_elem?-in_range bytes (src + i) (omega arith) in
    let room : dst + i < length bytes = omega arith in
    let size = length-set bytes (dst + i) b in
    let (out, runs, c) =
      copy_loop_lem dst src n left (i + 1) (set bytes (dst + i) b) apart (omega arith) (omega arith)
        (omega arith) in
    (
      out,
      rw (eb, store-eq-set bytes (dst + i) b room) runs,
      record {
        same_length = c.same_length ∙ size;
        cells = λ k.
            c.cells k
            ∙ ground (
              arith,
              get_elem?-set bytes (dst + i) k b room,
              get_elem?-set bytes (dst + i) (src + (k - dst)) b room,
            );
      },
    )

-- For regions inside of the array, unless the destination starts inside of the source, `my_memcpy`
-- ends without a fault, copies the `n` bytes and changes no other; but it returns NULL, where
-- pointers.h asks for the destination.
pub my_memcpy-IsCopied :
    (bytes : List ℕ) (dst src n : ℕ)
    → Apart dst src n
    → dst + n ≤ length bytes
    → src + n ≤ length bytes
    → (out : List ℕ) × (my_memcpy bytes dst src n ≡ some (record { bytes = out; result = none }))
      × IsCopied bytes dst src 0 n out
unfolding my_memcpy
my_memcpy-IsCopied bytes dst src n apart fits fits' =
    let (out, runs, c) = copy_loop_lem dst src n n 0 bytes apart (omega arith) fits fits' in
    (out, rw runs, c)
