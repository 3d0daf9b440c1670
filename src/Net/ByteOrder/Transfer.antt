-- ===== src/Net/ByteOrder/Transfer.antt =====
-- Integers between hosts, for ProperNet/src/byteorder.h.
use native.Mathlib.Nat.{pow-suc}
use low_level.Prelude.{
  ℕ, zero, suc, ◌+◌, ◌*◌, ◌/◌, ◌%◌, ◌^◌, ◌<◌, ◌≡◌, refl, sym, ap, ◌∙◌, List, [], ◌∷◌, ◌++◌, length,
  length-append, arith,
}
use mathlib.Core.Path.{subst}
use low_level.Net.ByteOrder.{AllBytes, Host, wire, from_wire, ByteOrderApi}

from_wire-snoc :
    (acc : ℕ) (bs : List ℕ) (b : ℕ) → from_wire acc (bs ++ b ∷ []) ≡ from_wire acc bs * 256 + b
from_wire-snoc acc [] b = refl
from_wire-snoc acc (c ∷ bs) b = from_wire-snoc (acc * 256 + c) bs b

from_wire-wire : (n v : ℕ) → v < 256 ^ n → from_wire 0 (wire n v) ≡ v
from_wire-wire zero v lt = omega (arith, lt)
from_wire-wire (suc n) v lt =
    from_wire-snoc 0 (wire n (v / 256)) (v % 256)
    ∙ ap (λ (t : ℕ). t * 256 + v % 256)
        (from_wire-wire n (v / 256) (omega (arith, lt, pow-suc 256 n)))
    ∙ omega arith

AllBytes-snoc : (bs : List ℕ) (b : ℕ) → AllBytes bs → b < 256 → AllBytes (bs ++ b ∷ [])
AllBytes-snoc [] b h lt = (lt, tt)
AllBytes-snoc (c ∷ bs) b (lt', h) lt = (lt', AllBytes-snoc bs b h lt)

pub wire-AllBytes : (n v : ℕ) → AllBytes (wire n v)
wire-AllBytes zero v = tt
wire-AllBytes (suc n) v =
    AllBytes-snoc (wire n (v / 256)) (v % 256) (wire-AllBytes n (v / 256)) (omega arith)

length-wire : (n v : ℕ) → length (wire n v) ≡ n
length-wire zero v = refl
length-wire (suc n) v =
    omega (arith, length-append (wire n (v / 256)) (v % 256 ∷ []), length-wire n (v / 256))

-- The integer that a host reads from the bytes of the wire.
module _ (host : Host) (n v : ℕ) where
  received-lt : host.value_of (wire n v) < 256 ^ n
  received-lt =
      subst (λ (k : ℕ). host.value_of (wire n v) < 256 ^ k) (length-wire n v)
        (host.value_of-lt (wire n v) (wire-AllBytes n v))

  converted : v < 256 ^ n → from_wire 0 (host.bytes_of n (host.value_of (wire n v))) ≡ v
  converted lt =
      ap (from_wire 0) (
        ap (λ k. host.bytes_of k (host.value_of (wire n v))) (sym (length-wire n v))
        ∙ host.bytes_of-value_of (wire n v) (wire-AllBytes n v))
      ∙ from_wire-wire n v lt

-- An integer x of 16 bits and an integer y of 32 bits that one host converts to the network's order
-- and sends as their bytes are the integers that another host gets when it converts what it has
-- received, whatever the byte orders of the two.
pub ntoh-hton :
    {here there : Host} (sender : ByteOrderApi here) (receiver : ByteOrderApi there) (x y : ℕ)
    → x < 2 ^ 16
    → y < 2 ^ 32
    → (receiver.my_ntohs (there.value_of (here.bytes_of 2 (sender.my_htons x))) ≡ x)
      × (receiver.my_ntohl (there.value_of (here.bytes_of 4 (sender.my_htonl y))) ≡ y)
ntoh-hton {there = there} sender receiver x y short long = (
  ap (λ bs. receiver.my_ntohs (there.value_of bs)) (sender.htons_wire x short)
      ∙ receiver.ntohs_wire (there.value_of (wire 2 x)) (received-lt there 2 x)
      ∙ converted there 2 x short,
  ap (λ bs. receiver.my_ntohl (there.value_of bs)) (sender.htonl_wire y long)
      ∙ receiver.ntohl_wire (there.value_of (wire 4 y)) (received-lt there 4 y)
      ∙ converted there 4 y long,
)
