-- ===== src/Net/Url/Roundtrip.antt =====
-- url_parse of ProperNet/src/urlparse.h on the URLs that it has itself taken apart.
use low_level.Prelude.{
  ℕ, suc, ◌+◌, ◌≤◌, ◌≡◌, inl, inr, refl, sym, ap, ap₂, ◌-◌, ◌*◌, ◌∙◌, true, false, none, some, List,
  [], ◌∷◌, ◌++◌, leb, Bool-cases, Option-cases, arith,
}
use mathlib.Core.Option.{some-injective}
use low_level.Interview.Cstrings.{digits, number, is_digit}
use low_level.Interview.Cstrings.Roundtrip.{decimal, digits-decimal}
use low_level.Net.Bytes.{none_of, before-append}
use low_level.Net.Url.{
  UrlParts, is_slash, ends_host, separator, checked, after_host, with_host, after_scheme, parsed,
  UrlApi,
}
use low_level.Net.Url.Wellformed.{IsUrl, parsed-IsUrl}

-- scheme://host:port/path
abbrev pub printed : UrlParts → List ℕ
printed u = (u.scheme ++ separator) ++ (u.host ++ 58 ∷ (decimal (suc u.port) u.port ++ u.path))

number-no_slash : (acc n : ℕ) (s : List ℕ) → number acc s ≡ some n → none_of is_slash s ≡ true
unfolding number
number-no_slash acc n [] e = refl
number-no_slash acc n (c ∷ s) e = elim (Bool-cases (is_digit c)) [
  | inl digit ↦
      let no_slash : is_slash c ≡ false = ground (arith, digit) in
      rw no_slash (number-no_slash (10 * acc + (c - 48)) n s (rw digit at e))
  | inr other ↦ absurd (clash (rw other at e))
]
  where
    clash : none ≡ some n → ⊥
    clash h = cc

digits-no_slash : (n : ℕ) (s : List ℕ) → digits s ≡ some n → none_of is_slash s ≡ true
digits-no_slash n [] e = refl
digits-no_slash n (c ∷ s) e = number-no_slash 0 n (c ∷ s) e

after_host-printed :
    (scheme host t : List ℕ) (default_port n : ℕ)
    → n ≤ 65535
    → after_host scheme host default_port (58 ∷ (decimal (suc n) n ++ 47 ∷ t))
      ≡ checked (record { scheme = scheme; host = host; port = n; path = 47 ∷ t })
after_host-printed scheme host t default_port n le =
    let value : digits (decimal (suc n) n) ≡ some n = digits-decimal (suc n) n (omega arith) in
    let (port, path) =
      before-append is_slash (decimal (suc n) n) 47 t (digits-no_slash n (decimal (suc n) n) value)
        refl in
    let small : leb n 65535 ≡ true = ground (arith, le) in rw (port, path, value, small) refl

with_host-cons :
    (scheme host rest : List ℕ) (default_port : ℕ) (c : ℕ) (s : List ℕ)
    → host ≡ c ∷ s
    → with_host scheme default_port host rest ≡ after_host scheme host default_port rest
with_host-cons scheme [] rest default_port c s e = cc
with_host-cons scheme (d ∷ host) rest default_port c s e = refl

after_scheme-printed :
    (u : UrlParts) (default_port : ℕ)
    → IsUrl u
    → after_scheme u.scheme default_port (u.host ++ 58 ∷ (decimal (suc u.port) u.port ++ u.path))
      ≡ some u
after_scheme-printed u default_port h =
    let rest : List ℕ = decimal (suc u.port) u.port ++ u.path in
    let (host, follows) = before-append ends_host u.host 58 rest h.whole refl in
    let (c, s, named) = h.named in
    let (t, root) = h.rooted in
    ap₂ (with_host u.scheme default_port) host follows
    ∙ with_host-cons u.scheme u.host (58 ∷ rest) default_port c s named
    ∙ ap (λ p. after_host u.scheme u.host default_port (58 ∷ (decimal (suc u.port) u.port ++ p)))
        root
    ∙ after_host-printed u.scheme u.host t default_port u.port h.ported
    ∙ ap (λ p. checked (record { scheme = u.scheme; host = u.host; port = u.port; path = p }))
        (sym root)
    ∙ rw h.roomy refl

parsed-printed : (u : UrlParts) → IsUrl u → parsed (printed u) ≡ some u
unfolding parsed
parsed-printed u h =
    let rest : List ℕ = u.host ++ 58 ∷ (decimal (suc u.port) u.port ++ u.path) in
    elim h.known [
      | inl plain ↦
          ap (λ t. parsed ((t ++ separator) ++ rest)) plain
          ∙ ap (λ t. after_scheme t 80 rest) (sym plain)
          ∙ after_scheme-printed u 80 h
      | inr secure ↦
          ap (λ t. parsed ((t ++ separator) ++ rest)) secure
          ∙ ap (λ t. after_scheme t 443 rest) (sym secure)
          ∙ after_scheme-printed u 443 h
    ]

-- The parts that url_parse finds, written out again with their port, give the same parts.
pub url_parse-print :
    (api : UrlApi) (s : List ℕ) (u : UrlParts)
    → api.url_parse s ≡ some u
    → api.url_parse (printed u) ≡ some u
url_parse-print api s u e = elim (Option-cases (parsed s)) [
  | inl refused ↦ absurd (clash (sym (api.rejects s refused) ∙ e))
  | inr (v, accepted) ↦
      let same : v ≡ u = some-injective _ _ (sym (api.accepts s v accepted) ∙ e) in
      api.accepts (printed u) u (parsed-printed u (parsed-IsUrl s u (accepted ∙ ap some same)))
]
  where
    clash : none ≡ some u → ⊥
    clash h = cc
