-- ===== src/Net/Http/Roundtrip.antt =====
-- http_parse_request of ProperNet/src/httparse.h on a request that is written out.
use low_level.Prelude.{
  ℕ, suc, ◌≡◌, refl, ap, ◌∙◌, Bool, true, false, ◌||◌, none, some, List, [], ◌∷◌, ◌++◌, length, ltb,
  leb, dec_lt, ◌-◌, if◌then◌else◌, take, arith,
}
use low_level.Net.Bytes.{
  before, from, none_of, none_of-append, none_of-weaken, before-append, or_left, or_right,
}
use low_level.Net.Http.{
  HttpHeader, HttpRequest, is_nul, all_clean, is_space, tokens, token_fits, trimmed, is_colon,
  header_of, headers_of, request_of, HttpApi, http_max_headers, http_method_max, http_target_max,
  http_version_max, http_hdr_name_max, http_hdr_value_max,
}
use low_level.Net.Http.Truncated.{take-text, head_lines-truncated}
use low_level.Net.Http.{is_cr, text, AllLines}
use low_level.Net.Http.Lines.{tokens-append, tokens-whole, append-starts}

-- Bytes that no value, no name and no token holds.
abbrev pub ends_value : ℕ → Bool
ends_value c = is_nul c || is_cr c

abbrev pub ends_name : ℕ → Bool
ends_name c = is_colon c || ends_value c

abbrev pub ends_token : ℕ → Bool
ends_token c = is_space c || ends_value c

pub record IsToken (max : ℕ) (t : List ℕ) : Type 0 where
  pub fits : token_fits max t ≡ true
  pub plain : none_of ends_token t ≡ true

pub record IsHeader (h : HttpHeader) : Type 0 where
  pub name_fits : token_fits http_hdr_name_max h.name ≡ true
  pub name_plain : none_of ends_name h.name ≡ true
  pub value_fits : ltb (length h.value) http_hdr_value_max ≡ true
  pub value_plain : none_of ends_value h.value ≡ true
  pub value_trimmed : trimmed h.value ≡ h.value

abbrev pub AllHeaders : List HttpHeader → Type 0
AllHeaders [] = Unit {0}
AllHeaders (h ∷ hs) = IsHeader h × AllHeaders hs

pub record IsRequest (r : HttpRequest) : Type 0 where
  pub method_ok : IsToken http_method_max r.method
  pub target_ok : IsToken http_target_max r.target
  pub version_ok : IsToken http_version_max r.version
  pub headers_ok : AllHeaders r.headers
  pub few : leb (length r.headers) http_max_headers ≡ true

abbrev pub request_text : HttpRequest → List ℕ
request_text r = r.method ++ 32 ∷ (r.target ++ 32 ∷ r.version)

abbrev pub header_text : HttpHeader → List ℕ
header_text h = h.name ++ 58 ∷ h.value

abbrev pub header_texts : List HttpHeader → List (List ℕ)
header_texts [] = []
header_texts (h ∷ hs) = header_text h ∷ header_texts hs

abbrev pub printed : HttpRequest → List ℕ → List ℕ
printed r body = text (request_text r ∷ header_texts r.headers) body

header_of-text :
    (h : HttpHeader)
    → IsHeader h
    → header_of (before is_colon (header_text h)) (from is_colon (header_text h)) ≡ some h
header_of-text h ok =
    let (name, rest) =
      before-append is_colon h.name 58 h.value
        (none_of-weaken is_colon ends_name (λ c. or_left (is_colon c) (ends_value c)) h.name
          ok.name_plain)
        refl in
    rw (name, rest, ok.value_trimmed, ok.name_fits, ok.value_fits) refl

headers_of-texts : (hs : List HttpHeader) → AllHeaders hs → headers_of (header_texts hs) ≡ some hs
headers_of-texts [] ok = refl
headers_of-texts (h ∷ hs) (ok, oks) = rw (header_of-text h ok, headers_of-texts hs oks) refl

tokens-request_text :
    (r : HttpRequest) → IsRequest r → tokens (request_text r) ≡ r.method ∷ r.target ∷ r.version ∷ []
tokens-request_text r ok =
    let spaceless : (max : ℕ) (t : List ℕ) → IsToken max t → none_of is_space t ≡ true =
      λ max t token.
        none_of-weaken is_space ends_token (λ c. or_left (is_space c) (ends_value c)) t
          token.plain in
    tokens-append r.method (r.target ++ 32 ∷ r.version)
      (spaceless http_method_max r.method ok.method_ok)
    ∙ ap (λ ts. r.method ∷ ts)
        (tokens-append r.target r.version (spaceless http_target_max r.target ok.target_ok)
          ∙ ap (λ ts. r.target ∷ ts)
              (tokens-whole r.version (spaceless http_version_max r.version ok.version_ok)))

module _ (q : ℕ → Bool) (of_value : (c : ℕ) → q c ≡ true → ends_value c ≡ true)
    (space : q 32 ≡ false) (colon : q 58 ≡ false) where
  none_of-request_text : (r : HttpRequest) → IsRequest r → none_of q (request_text r) ≡ true
  none_of-request_text r ok =
      let token : (max : ℕ) (t : List ℕ) → IsToken max t → none_of q t ≡ true = λ max t ok_t.
        none_of-weaken q ends_token (λ c h. or_right (is_space c) (ends_value c) (of_value c h)) t
          ok_t.plain in
      none_of-append q r.method (32 ∷ (r.target ++ 32 ∷ r.version))
        (token http_method_max r.method ok.method_ok)
        (rw space (
          none_of-append q r.target (32 ∷ r.version) (token http_target_max r.target ok.target_ok)
            (rw space (token http_version_max r.version ok.version_ok))))

  none_of-header_text : (h : HttpHeader) → IsHeader h → none_of q (header_text h) ≡ true
  none_of-header_text h ok =
      none_of-append q h.name (58 ∷ h.value)
        (none_of-weaken q ends_name (λ c e. or_right (is_colon c) (ends_value c) (of_value c e))
          h.name ok.name_plain)
        (rw colon (none_of-weaken q ends_value of_value h.value ok.value_plain))

texts-AllLines : (hs : List HttpHeader) → AllHeaders hs → AllLines (header_texts hs)
texts-AllLines [] ok = tt
texts-AllLines (h ∷ hs) (ok, oks) = (
  append-starts h.name 58 h.value,
  none_of-header_text is_cr (λ c. or_right (is_nul c) (is_cr c)) refl refl h ok,
  texts-AllLines hs oks,
)

length-texts : (hs : List HttpHeader) → length (header_texts hs) ≡ length hs
length-texts [] = refl
length-texts (h ∷ hs) = ap suc (length-texts hs)

all_clean-texts : (hs : List HttpHeader) → AllHeaders hs → all_clean (header_texts hs) ≡ true
all_clean-texts [] ok = refl
all_clean-texts (h ∷ hs) (ok, oks) =
    rw
      (
        none_of-header_text is_nul (λ c. or_left (is_nul c) (is_cr c)) refl refl h ok,
        all_clean-texts hs oks,
      )
      refl

request-AllLines :
    (r : HttpRequest) → IsRequest r → AllLines (request_text r ∷ header_texts r.headers)
request-AllLines r ok = (
  append-starts r.method 32 (r.target ++ 32 ∷ r.version),
  none_of-request_text is_cr (λ c. or_right (is_nul c) (is_cr c)) refl refl r ok,
  texts-AllLines r.headers ok.headers_ok,
)

request_of-texts :
    (r : HttpRequest) → IsRequest r → request_of (request_text r ∷ header_texts r.headers) ≡ some r
request_of-texts r ok =
    let clean = none_of-request_text is_nul (λ c. or_left (is_nul c) (is_cr c)) refl refl r ok in
    rw
      (
        clean,
        all_clean-texts r.headers ok.headers_ok,
        length-texts r.headers,
        ok.few,
        headers_of-texts r.headers ok.headers_ok,
        tokens-request_text r ok,
      )
      (rw (ok.method_ok.fits, ok.target_ok.fits, ok.version_ok.fits) refl)

-- A request within the limits, without bytes that its grammar reads otherwise, is parsed back from
-- what it is written as, whatever stands behind it in the buffer, when the first `len` bytes hold
-- the whole head; when they do not, it is refused.
pub http_parse_request-print :
    (api : HttpApi) (r : HttpRequest) (body : List ℕ) (len : ℕ)
    → IsRequest r
    → api.http_parse_request (printed r body) len
      ≡ (if leb (length (printed r [])) len then some r else none)
http_parse_request-print api r body len ok =
    let ls = request_text r ∷ header_texts r.headers in
    elim (dec_lt len (length (printed r []))) [
      | yes short ↦
          let cut : leb (length (printed r [])) len ≡ false = ground (arith, short) in
          rw cut (
            api.incomplete (printed r body) len
              (head_lines-truncated ls body len (request-AllLines r ok) short))
      | no enough ↦
          let whole : leb (length (printed r [])) len ≡ true = ground (arith, enough) in
          rw whole (
            api.accepts (printed r body) len ls (take (len - length (printed r [])) body) r
              (request-AllLines r ok) (take-text ls body len (omega (arith, enough)))
              (request_of-texts r ok))
    ]
