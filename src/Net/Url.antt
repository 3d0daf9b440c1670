-- ===== src/Net/Url.antt =====
-- url_parse of ProperNet/src/urlparse.h.
pub mod Wellformed
pub mod Roundtrip
use low_level.Prelude.{
  ℕ, zero, suc, ◌+◌, ◌≤◌, ◌<◌, ◌≡◌, ◌⊎◌, Bool, true, false, ◌&&◌, ◌||◌, Option, none, some, List,
  [], ◌∷◌, ◌++◌, length, ltb, leb, ◌==◌, if◌then◌else◌, ◌>>=◌,
}
use low_level.Interview.Cstrings.{digits}
use low_level.Net.Bytes.{before, from, none_of, strip_prefix}

abbrev pub url_scheme_max : ℕ
url_scheme_max = 8

abbrev pub url_host_max : ℕ
url_host_max = 128

abbrev pub url_path_max : ℕ
url_path_max = 256

pub record UrlParts : Type 0 where
  pub scheme : List ℕ
  pub host : List ℕ
  pub port : ℕ
  pub path : List ℕ

-- ':' and '/'.
abbrev pub is_colon : ℕ → Bool
is_colon c = c == 58

abbrev pub is_slash : ℕ → Bool
is_slash c = c == 47

abbrev pub ends_host : ℕ → Bool
ends_host c = is_colon c || is_slash c

-- "http", "https" and "://".
abbrev pub http : List ℕ
http = 104 ∷ 116 ∷ 116 ∷ 112 ∷ []

abbrev pub https : List ℕ
https = 104 ∷ 116 ∷ 116 ∷ 112 ∷ 115 ∷ []

abbrev pub separator : List ℕ
separator = 58 ∷ 47 ∷ 47 ∷ []

-- Every component has room in its array, with the terminator.
abbrev pub fits : UrlParts → Bool
fits u =
    ltb (length u.scheme) url_scheme_max
    && (ltb (length u.host) url_host_max && ltb (length u.path) url_path_max)

abbrev pub checked : UrlParts → Option UrlParts
checked u = if fits u then some u else none

abbrev pub small_port : ℕ → Option ℕ
small_port n = if leb n 65535 then some n else none

abbrev pub port_of : List ℕ → Option ℕ
port_of s = digits s >>= small_port

abbrev pub path_of : List ℕ → List ℕ
path_of [] = 47 ∷ []
path_of (c ∷ s) = c ∷ s

-- What follows the host: nothing, a port, or the path.
abbrev pub after_host : (scheme host : List ℕ) → (default_port : ℕ) → List ℕ → Option UrlParts
after_host scheme host default_port [] =
    checked (record { scheme = scheme; host = host; port = default_port; path = 47 ∷ [] })
after_host scheme host default_port (c ∷ s) =
    if is_colon c
    then (port_of (before is_slash s) >>= λ n.
        checked
          (record { scheme = scheme; host = host; port = n; path = path_of (from is_slash s) }))
    else checked (record { scheme = scheme; host = host; port = default_port; path = c ∷ s })

-- What follows "://": a host, which is not empty, and the rest.
abbrev pub with_host : List ℕ → ℕ → (host rest : List ℕ) → Option UrlParts
with_host scheme default_port [] rest = none
with_host scheme default_port (c ∷ host) rest = after_host scheme (c ∷ host) default_port rest

abbrev pub after_scheme : List ℕ → ℕ → List ℕ → Option UrlParts
after_scheme scheme default_port s =
    with_host scheme default_port (before ends_host s) (from ends_host s)

unfoldable pub parsed : List ℕ → Option UrlParts
parsed s = elim (strip_prefix (http ++ separator) s) [
  | some rest ↦ after_scheme http 80 rest
  | none ↦ elim (strip_prefix (https ++ separator) s) [
    | some rest ↦ after_scheme https 443 rest
    | none ↦ none
  ]
]

-- What is in `*out` when true is returned; nothing when false is.
pub record UrlApi : Type 0 where
  pub url_parse : List ℕ → Option UrlParts
  pub accepts : (s : List ℕ) (u : UrlParts) → parsed s ≡ some u → url_parse s ≡ some u
  pub rejects : (s : List ℕ) → parsed s ≡ none → url_parse s ≡ none
