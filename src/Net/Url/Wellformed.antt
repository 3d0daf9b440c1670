-- ===== src/Net/Url/Wellformed.antt =====
-- What url_parse of ProperNet/src/urlparse.h returns.
use low_level.Prelude.{
  ℕ, ◌≤◌, ◌≡◌, ◌⊎◌, inl, inr, refl, ap, true, Option, none, some, List, [], ◌∷◌, ◌++◌, leb, ◌>>=◌,
  Bool-cases, Option-cases, arith, leb→le, ==_iff,
}
use mathlib.Core.Option.{some-injective}
use mathlib.Core.Path.{subst}
use low_level.Interview.Cstrings.{digits}
use low_level.Net.Bytes.{before, from, none_of, strip_prefix, none_of-before, from-cons}
use low_level.Net.Url.{
  UrlParts, is_colon, is_slash, ends_host, http, https, separator, fits, checked, small_port,
  with_host, port_of, path_of, after_host, after_scheme, parsed,
}

pub record IsUrl (u : UrlParts) : Type 0 where
  pub known : (u.scheme ≡ http) ⊎ (u.scheme ≡ https)
  pub named : (c : ℕ) × (s : List ℕ) × (u.host ≡ c ∷ s)
  pub whole : none_of ends_host u.host ≡ true
  pub ported : u.port ≤ 65535
  pub rooted : (s : List ℕ) × (u.path ≡ 47 ∷ s)
  pub roomy : fits u ≡ true

checked-some : (u v : UrlParts) → checked u ≡ some v → (u ≡ v) × (fits u ≡ true)
checked-some u v e = elim (Bool-cases (fits u)) [
  | inl ok ↦ (some-injective _ _ (rw ok at e), ok)
  | inr long ↦ absurd (clash (rw long at e))
]
  where
    clash : none ≡ some v → ⊥
    clash h = cc

small_port-le : (o : Option ℕ) (n : ℕ) → (o >>= small_port) ≡ some n → n ≤ 65535
small_port-le none n e = cc
small_port-le (some m) n e = elim (Bool-cases (leb m 65535)) [
  | inl le ↦
      let same : m ≡ n = some-injective _ _ (rw le at e) in omega (arith, same, leb→le m 65535 le)
  | inr gt ↦ absurd (clash (rw gt at e))
]
  where
    clash : none ≡ some n → ⊥
    clash h = cc

path_of-rooted :
    (l : List ℕ)
    → ((c : ℕ) (t : List ℕ) → l ≡ c ∷ t → is_slash c ≡ true)
    → (t : List ℕ) × (path_of l ≡ 47 ∷ t)
path_of-rooted [] starts = ([], refl)
path_of-rooted (c ∷ t) starts = (t, ap (λ d. d ∷ t) ((==_iff c 47).0 (starts c t refl)))

port_of-le : (s : List ℕ) (n : ℕ) → port_of s ≡ some n → n ≤ 65535
port_of-le s n e = small_port-le (digits s) n e

module _ {scheme host : List ℕ} {default_port : ℕ} (known : (scheme ≡ http) ⊎ (scheme ≡ https))
    (named : (c : ℕ) × (s : List ℕ) × (host ≡ c ∷ s)) (whole : none_of ends_host host ≡ true)
    (small : default_port ≤ 65535) where
  checked-IsUrl :
      (n : ℕ) (path s : List ℕ) {u : UrlParts}
      → n ≤ 65535
      → path ≡ 47 ∷ s
      → checked (record { scheme = scheme; host = host; port = n; path = path }) ≡ some u
      → IsUrl u
  checked-IsUrl n path s {u = u} le root e =
      let (same, ok) =
        checked-some (record { scheme = scheme; host = host; port = n; path = path }) u e in
      subst IsUrl same (record {
        known = known;
        named = named;
        whole = whole;
        ported = le;
        rooted = (s, root);
        roomy = ok;
      })

  with_port-IsUrl :
      (o : Option ℕ) (s : List ℕ) {u : UrlParts}
      → ((n : ℕ) → o ≡ some n → n ≤ 65535)
      → (o >>= λ n.
          checked
            (record { scheme = scheme; host = host; port = n; path = path_of (from is_slash s) }))
        ≡ some u
      → IsUrl u
  with_port-IsUrl none s le e = cc
  with_port-IsUrl (some n) s le e =
      let (t, root) = path_of-rooted (from is_slash s) (from-cons is_slash s) in
      checked-IsUrl n (path_of (from is_slash s)) t (le n refl) root e

  after_host-IsUrl :
      (s : List ℕ) {u : UrlParts}
      → ((c : ℕ) (t : List ℕ) → s ≡ c ∷ t → ends_host c ≡ true)
      → after_host scheme host default_port s ≡ some u
      → IsUrl u
  after_host-IsUrl [] ends e = checked-IsUrl default_port (47 ∷ []) [] small refl e
  after_host-IsUrl (c ∷ s) ends e = elim (Bool-cases (is_colon c)) [
    | inl colon ↦
        with_port-IsUrl (port_of (before is_slash s)) s (port_of-le (before is_slash s))
          (rw colon at e)
    | inr other ↦
        let slash : is_slash c ≡ true = rw other at (ends c s refl) in
        checked-IsUrl default_port (c ∷ s) s small (ap (λ d. d ∷ s) ((==_iff c 47).0 slash))
          (rw other at e)
  ]

with_host-IsUrl :
    (scheme host rest : List ℕ) (default_port : ℕ) {u : UrlParts}
    → (scheme ≡ http) ⊎ (scheme ≡ https)
    → default_port ≤ 65535
    → none_of ends_host host ≡ true
    → ((c : ℕ) (t : List ℕ) → rest ≡ c ∷ t → ends_host c ≡ true)
    → with_host scheme default_port host rest ≡ some u
    → IsUrl u
with_host-IsUrl scheme [] rest default_port known small whole ends e = cc
with_host-IsUrl scheme (c ∷ host) rest default_port known small whole ends e =
    after_host-IsUrl known (c, host, refl) whole small rest ends e

after_scheme-IsUrl :
    (scheme s : List ℕ) (default_port : ℕ) {u : UrlParts}
    → (scheme ≡ http) ⊎ (scheme ≡ https)
    → default_port ≤ 65535
    → after_scheme scheme default_port s ≡ some u
    → IsUrl u
after_scheme-IsUrl scheme s default_port known small e =
    with_host-IsUrl scheme (before ends_host s) (from ends_host s) default_port known small
      (none_of-before ends_host s) (from-cons ends_host s) e

-- Whatever the parser accepts has a known scheme, a host that is not empty and has neither ':' nor '/',
-- a port of 16 bits, and a path that starts with '/', and fits the arrays.
pub parsed-IsUrl : (s : List ℕ) (u : UrlParts) → parsed s ≡ some u → IsUrl u
unfolding parsed
parsed-IsUrl s u e = elim (Option-cases (strip_prefix (http ++ separator) s)) [
  | inr (rest, h) ↦ after_scheme-IsUrl http rest 80 (inl refl) (omega arith) (rw h at e)
  | inl h ↦ elim (Option-cases (strip_prefix (https ++ separator) s)) [
    | inr (rest, h') ↦ after_scheme-IsUrl https rest 443 (inr refl) (omega arith) (rw (h, h') at e)
    | inl h' ↦ absurd (clash (rw (h, h') at e))
  ]
]
  where
    clash : none ≡ some u → ⊥
    clash h = cc
