-- ===== src/Net/Examples.antt =====
-- The contracts of ProperNet/src at concrete inputs.
use low_level.Prelude.{
  ℕ, ◌≡◌, refl, if◌then◌else◌, leb, none, some, List, [], ◌∷◌, ◌++◌, length, arith,
}
use low_level.Net.Reference.{little_endian, conversions, urls, requests}
use low_level.Net.ByteOrder.Transfer.{ntoh-hton}
use low_level.Net.Url
use low_level.Net.Url.Roundtrip.{printed, url_parse-print}
use low_level.Net.Http
use low_level.Net.Http.Roundtrip.{http_parse_request-print, IsRequest, IsToken, IsHeader}
use low_level.Net.Http.Roundtrip

ntoh-hton_test :
    (conversions.my_ntohs
        (little_endian.value_of (little_endian.bytes_of 2 (conversions.my_htons 258)))
      ≡ 258)
    × (conversions.my_ntohl
          (little_endian.value_of (little_endian.bytes_of 4 (conversions.my_htonl 66051)))
        ≡ 66051)
ntoh-hton_test = ntoh-hton conversions conversions 258 66051 (omega arith) (omega arith)

-- "http://h/a", with the port that it stands for.
abbrev short_url : List ℕ
short_url = Url.http ++ Url.separator ++ (104 ∷ 47 ∷ 97 ∷ [])

abbrev short_parts : Url.UrlParts
short_parts = record { scheme = Url.http; host = 104 ∷ []; port = 80; path = 47 ∷ 97 ∷ [] }

short_url-parsed : urls.url_parse short_url ≡ some short_parts
unfolding Url.parsed
short_url-parsed = refl

url_parse-print_example : urls.url_parse (printed short_parts) ≡ some short_parts
url_parse-print_example = url_parse-print urls short_url short_parts short_url-parsed

-- "GET / 1" with the header "A:b".
abbrev short_request : Http.HttpRequest
short_request = record {
  method = 71 ∷ 69 ∷ 84 ∷ [];
  target = 47 ∷ [];
  version = 49 ∷ [];
  headers = record { name = 65 ∷ []; value = 98 ∷ [] } ∷ [];
}

short_request-IsRequest : IsRequest short_request
short_request-IsRequest = record {
  method_ok = record { fits = refl; plain = refl };
  target_ok = record { fits = refl; plain = refl };
  version_ok = record { fits = refl; plain = refl };
  headers_ok = (
    record {
      name_fits = refl;
      name_plain = refl;
      value_fits = refl;
      value_plain = refl;
      value_trimmed = refl;
    },
    tt,
  );
  few = refl;
}

http_parse_request-print_example :
    requests.http_parse_request (Roundtrip.printed short_request (120 ∷ [])) 17
    ≡ (if leb (length (Roundtrip.printed short_request [])) 17 then some short_request else none)
http_parse_request-print_example =
    http_parse_request-print requests short_request (120 ∷ []) 17 short_request-IsRequest
