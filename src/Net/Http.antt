-- ===== src/Net/Http.antt =====
-- http_parse_request and http_get_header of ProperNet/src/httparse.h.
pub mod Lines
pub mod Truncated
pub mod Roundtrip
pub mod Names
use low_level.Prelude.{
  ℕ, zero, suc, ◌+◌, ◌≡◌, Bool, true, false, ◌&&◌, ◌||◌, Option, none, some, List, [], ◌∷◌, ◌++◌,
  length, ltb, leb, ◌==◌, if◌then◌else◌, ◌>>=◌, take,
}
use low_level.Net.Bytes.{before, from, none_of}

abbrev pub http_max_headers : ℕ
http_max_headers = 32

abbrev pub http_method_max : ℕ
http_method_max = 16

abbrev pub http_target_max : ℕ
http_target_max = 256

abbrev pub http_version_max : ℕ
http_version_max = 16

abbrev pub http_hdr_name_max : ℕ
http_hdr_name_max = 64

abbrev pub http_hdr_value_max : ℕ
http_hdr_value_max = 256

pub record HttpHeader : Type 0 where
  pub name : List ℕ
  pub value : List ℕ

pub record HttpRequest : Type 0 where
  pub method : List ℕ
  pub target : List ℕ
  pub version : List ℕ
  pub headers : List HttpHeader

-- '\r' is 13 and '\n' is 10. The lines up to the first empty one, without their "\r\n"; none when
-- there is no empty line. `line` is what has been read of a line, `cr` whether a '\r' follows it.
unfoldable pub head_lines : (line : List ℕ) → (cr : Bool) → List ℕ → Option (List (List ℕ))
head_lines line cr [] = none
head_lines line false (c ∷ s) = elim (c == 13) [
  | true ↦ head_lines line true s
  | false ↦ head_lines (line ++ c ∷ []) false s
]
head_lines line true (c ∷ s) = elim (c == 10) [
  | true ↦ elim line [ [] ↦ some [] | d ∷ l ↦ head_lines [] false s >>= λ ls. some ((d ∷ l) ∷ ls) ]
  | false ↦ elim (c == 13) [
    | true ↦ head_lines (line ++ 13 ∷ []) true s
    | false ↦ head_lines (line ++ 13 ∷ c ∷ []) false s
  ]
]

abbrev pub is_nul : ℕ → Bool
is_nul c = c == 0

abbrev pub all_clean : List (List ℕ) → Bool
all_clean [] = true
all_clean (l ∷ ls) = none_of is_nul l && all_clean ls

abbrev pub is_space : ℕ → Bool
is_space c = c == 32

-- A ' ' or a tab.
abbrev pub is_blank : ℕ → Bool
is_blank c = is_space c || (c == 9)

abbrev pub push_byte : ℕ → List (List ℕ) → List (List ℕ)
push_byte c [] = (c ∷ []) ∷ []
push_byte c (t ∷ ts) = (c ∷ t) ∷ ts

-- What stands between the single spaces.
abbrev pub tokens : List ℕ → List (List ℕ)
tokens [] = [] ∷ []
tokens (c ∷ s) = let rest = tokens s in if is_space c then [] ∷ rest else push_byte c rest

-- Not empty, and with room in its array for the terminator.
abbrev pub token_fits : ℕ → List ℕ → Bool
token_fits max s = ltb 0 (length s) && ltb (length s) max

abbrev pub request_line : List (List ℕ) → List HttpHeader → Option HttpRequest
request_line (m ∷ t ∷ v ∷ []) headers =
    if token_fits http_method_max m
      && (token_fits http_target_max t && token_fits http_version_max v)
    then some (record { method = m; target = t; version = v; headers = headers })
    else none
request_line _ headers = none

abbrev pub trimmed : List ℕ → List ℕ
trimmed [] = []
trimmed (c ∷ s) = let rest = trimmed s in if is_blank c then rest else c ∷ s

abbrev pub is_colon : ℕ → Bool
is_colon c = c == 58

abbrev pub header_of : (name rest : List ℕ) → Option HttpHeader
header_of name [] = none
header_of name (c ∷ s) =
    if token_fits http_hdr_name_max name && ltb (length (trimmed s)) http_hdr_value_max
    then some (record { name = name; value = trimmed s })
    else none

abbrev pub headers_of : List (List ℕ) → Option (List HttpHeader)
headers_of [] = some []
headers_of (l ∷ ls) =
    let rest = headers_of ls in
    header_of (before is_colon l) (from is_colon l) >>= λ h. (rest >>= λ hs. some (h ∷ hs))

abbrev pub request_of : List (List ℕ) → Option HttpRequest
request_of [] = none
request_of (l ∷ ls) =
    if all_clean (l ∷ ls) && leb (length ls) http_max_headers
    then (headers_of ls >>= λ hs. request_line (tokens l) hs)
    else none

abbrev pub is_cr : ℕ → Bool
is_cr c = c == 13

-- The lines, each with its "\r\n", the empty line, and what follows it.
abbrev pub text : List (List ℕ) → List ℕ → List ℕ
text [] body = 13 ∷ 10 ∷ body
text (l ∷ ls) body = l ++ 13 ∷ 10 ∷ text ls body

-- Lines with a byte each, and with no '\r'.
abbrev pub AllLines : List (List ℕ) → Type 0
AllLines [] = Unit {0}
AllLines (l ∷ ls) = ((c : ℕ) × (s : List ℕ) × (l ≡ c ∷ s)) × (none_of is_cr l ≡ true) × AllLines ls

-- 'A' is 65 and 'Z' is 90.
abbrev pub lower : ℕ → ℕ
lower c = if leb 65 c && leb c 90 then c + 32 else c

abbrev pub same_name : List ℕ → List ℕ → Bool
same_name [] [] = true
same_name [] (d ∷ t) = false
same_name (c ∷ s) [] = false
same_name (c ∷ s) (d ∷ t) = (lower c == lower d) && same_name s t

abbrev pub first_value : List HttpHeader → List ℕ → Option (List ℕ)
first_value [] name = none
first_value (h ∷ hs) name =
    let rest = first_value hs name in if same_name h.name name then some h.value else rest

-- What is in `*out` when true is returned; nothing when false is. The head of the request is the
-- lines in front of the first empty one; of a head with a '\r' that no '\n' follows, nothing is said.
pub record HttpApi : Type 0 where
  pub http_parse_request : (buf : List ℕ) → (len : ℕ) → Option HttpRequest
  pub http_get_header : HttpRequest → List ℕ → Option (List ℕ)
  pub accepts :
      (buf : List ℕ) (len : ℕ) (ls : List (List ℕ)) (body : List ℕ) (r : HttpRequest)
      → AllLines ls
      → take len buf ≡ text ls body
      → request_of ls ≡ some r
      → http_parse_request buf len ≡ some r
  pub rejects :
      (buf : List ℕ) (len : ℕ) (ls : List (List ℕ)) (body : List ℕ)
      → AllLines ls
      → take len buf ≡ text ls body
      → request_of ls ≡ none
      → http_parse_request buf len ≡ none
  pub incomplete :
      (buf : List ℕ) (len : ℕ)
      → head_lines [] false (take len buf) ≡ none
      → http_parse_request buf len ≡ none
  pub finds :
      (r : HttpRequest) (name : List ℕ) → http_get_header r name ≡ first_value r.headers name
