-- ===== src/Net/Reference.antt =====
-- Functions that keep the contracts of ProperNet/src, so that these can be kept: a host that stores
-- the least significant byte first, its conversions, and the two parsers.
use native.Mathlib.Nat.{pow-suc}
use low_level.Prelude.{
  ℕ, zero, suc, ◌+◌, ◌*◌, ◌/◌, ◌%◌, ◌^◌, ◌<◌, ◌≡◌, refl, ap, ap₂, ◌>>=◌, false, ◌∙◌, List, [], ◌∷◌,
  length, take, arith,
}
use low_level.Net.ByteOrder.{AllBytes, Host, wire, from_wire, ByteOrderApi}
use low_level.Net.ByteOrder.Transfer.{wire-AllBytes}
use low_level.Net.Url
use low_level.Net.Http
use low_level.Net.Http.Lines.{head_lines-text}

abbrev pub little : ℕ → ℕ → List ℕ
little zero v = []
little (suc n) v = v % 256 ∷ little n (v / 256)

abbrev pub from_little : List ℕ → ℕ
from_little [] = 0
from_little (b ∷ bs) = b + 256 * from_little bs

pub from_little-lt : (bs : List ℕ) → AllBytes bs → from_little bs < 256 ^ length bs
from_little-lt [] h = omega arith
from_little-lt (b ∷ bs) (lt, h) = omega (arith, lt, from_little-lt bs h, pow-suc 256 (length bs))

pub little-from_little : (bs : List ℕ) → AllBytes bs → little (length bs) (from_little bs) ≡ bs
little-from_little [] h = refl
little-from_little (b ∷ bs) (lt, h) = ap₂ ◌∷◌ (omega (arith, lt)) (
    ap (little (length bs)) {x = (b + 256 * from_little bs) / 256} {y = from_little bs}
      (omega (arith, lt))
    ∙ little-from_little bs h)

abbrev pub little_endian : Host
little_endian = record {
  bytes_of = little;
  value_of = from_little;
  value_of-lt = from_little-lt;
  bytes_of-value_of = little-from_little;
}

abbrev pub conversions : ByteOrderApi little_endian
conversions = record {
  my_htons = λ x. from_little (wire 2 x);
  my_ntohs = λ x. from_wire 0 (little 2 x);
  my_htonl = λ x. from_little (wire 4 x);
  my_ntohl = λ x. from_wire 0 (little 4 x);
  htons_wire = λ x lt. little-from_little (wire 2 x) (wire-AllBytes 2 x);
  ntohs_wire = λ x lt. refl;
  htonl_wire = λ x lt. little-from_little (wire 4 x) (wire-AllBytes 4 x);
  ntohl_wire = λ x lt. refl;
}

abbrev pub urls : Url.UrlApi
urls = record { url_parse = Url.parsed; accepts = λ s u e. e; rejects = λ s e. e }

abbrev pub requests : Http.HttpApi
requests = record {
  http_parse_request = λ buf len. Http.head_lines [] false (take len buf) >>= Http.request_of;
  http_get_header = λ r name. Http.first_value r.headers name;
  accepts = λ buf len ls body r plain e ok.
      ap (λ s. Http.head_lines [] false s >>= Http.request_of) e
      ∙ ap (λ o. o >>= Http.request_of) (head_lines-text ls body plain)
      ∙ ok;
  rejects = λ buf len ls body plain e bad.
      ap (λ s. Http.head_lines [] false s >>= Http.request_of) e
      ∙ ap (λ o. o >>= Http.request_of) (head_lines-text ls body plain)
      ∙ bad;
  incomplete = λ buf len e. ap (λ o. o >>= Http.request_of) e;
  finds = λ r name. refl;
}
