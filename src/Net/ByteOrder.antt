-- ===== src/Net/ByteOrder.antt =====
-- The byte-order functions of ProperNet/src/byteorder.h. How a host lays out an integer in memory is
-- a parameter: memcpy turns an integer into its bytes and back, in an order that the host has fixed.
pub mod Transfer
use low_level.Prelude.{ℕ, zero, suc, ◌+◌, ◌*◌, ◌/◌, ◌%◌, ◌^◌, ◌<◌, ◌≡◌, List, [], ◌∷◌, ◌++◌, length}

abbrev pub AllBytes : List ℕ → Type 0
AllBytes [] = Unit {0}
AllBytes (b ∷ bs) = (b < 256) × AllBytes bs

-- What memcpy makes of an integer of `n` bytes, and of the bytes of one.
pub record Host : Type 0 where
  pub bytes_of : (n v : ℕ) → List ℕ
  pub value_of : List ℕ → ℕ
  pub value_of-lt : (bs : List ℕ) → AllBytes bs → value_of bs < 256 ^ length bs
  pub bytes_of-value_of : (bs : List ℕ) → AllBytes bs → bytes_of (length bs) (value_of bs) ≡ bs

-- The `n` bytes of the network's order, the most significant one first ...
abbrev pub wire : ℕ → ℕ → List ℕ
wire zero v = []
wire (suc n) v = wire n (v / 256) ++ v % 256 ∷ []

-- ... and the number that they stand for, behind those of `acc`.
abbrev pub from_wire : ℕ → List ℕ → ℕ
from_wire acc [] = acc
from_wire acc (b ∷ bs) = from_wire (acc * 256 + b) bs

pub record ByteOrderApi (host : Host) : Type 0 where
  pub my_htons : ℕ → ℕ
  pub my_ntohs : ℕ → ℕ
  pub my_htonl : ℕ → ℕ
  pub my_ntohl : ℕ → ℕ
  pub htons_wire : (x : ℕ) → x < 2 ^ 16 → host.bytes_of 2 (my_htons x) ≡ wire 2 x
  pub ntohs_wire : (x : ℕ) → x < 2 ^ 16 → my_ntohs x ≡ from_wire 0 (host.bytes_of 2 x)
  pub htonl_wire : (x : ℕ) → x < 2 ^ 32 → host.bytes_of 4 (my_htonl x) ≡ wire 4 x
  pub ntohl_wire : (x : ℕ) → x < 2 ^ 32 → my_ntohl x ≡ from_wire 0 (host.bytes_of 4 x)
