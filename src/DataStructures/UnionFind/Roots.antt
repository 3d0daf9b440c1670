-- ===== src/DataStructures/UnionFind/Roots.antt =====
-- Representatives, for ProperDS/src/unionfind.h: there is one, and compressing a path keeps it.
use low_level.Prelude.{
  ℕ, zero, suc, ◌-◌, ◌≤◌, ◌<◌, ◌≡◌, ◌≢◌, refl, sym, ap, ◌∙◌, true, false, some, List, [], ◌∷◌,
  length, length-set, get_elem?, get_elem?-set_self, get_elem?-set_ne, get_elem?-in_range, set,
  ◌==◌, ==_iff, ◌>>=◌, Bool-cases, inl, inr, arith, ℕ_discrete,
}
use mathlib.Core.Option.{some-injective}
use mathlib.Core.Path.{subst}
use low_level.DataStructures.UnionFind.Tops.{tops_from-redirect}
use low_level.DataStructures.UnionFind.{
  UnionFind, rank_at, Root, top, up, IsUnionFind, root_loop, compress, total_rank, rounds, uf_find,
}

pub Root-unique : {parent : List ℕ} {x r s : ℕ} → Root parent x r → Root parent x s → r ≡ s
Root-unique (top e) (top e') = refl
Root-unique (top e) (up e' other walk) = absurd (other (some-injective _ _ (sym e' ∙ e)))
Root-unique (up e other walk) (top e') = absurd (other (some-injective _ _ (sym e ∙ e')))
Root-unique {parent = parent} {s = s} (up e other walk) (up e' other' walk') =
    Root-unique walk (subst (λ p. Root parent p s) (some-injective _ _ (sym e' ∙ e)) walk')

pub Root-top : {parent : List ℕ} {x r : ℕ} → Root parent x r → get_elem? parent r ≡ some r
Root-top (top e) = e
Root-top (up e other walk) = Root-top walk

pub Root-climbs :
    (u : UnionFind) {x r : ℕ}
    → IsUnionFind u
    → Root u.parent x r
    → x ≢ r
    → rank_at u.rank x < rank_at u.rank r
Root-climbs u valid (top e) apart = absurd (apart refl)
Root-climbs u {x = x} {r = r} valid (up {p = p} e other walk) apart = elim (ℕ_discrete p r) [
  | yes here ↦
      subst (λ (t : ℕ). rank_at u.rank x < rank_at u.rank t) here (valid.climbs x p e other)
  | no above ↦ omega (arith, valid.climbs x p e other, Root-climbs u valid walk above)
]

rank_at-le : (ranks : List ℕ) (x : ℕ) → rank_at ranks x ≤ total_rank ranks
rank_at-le [] x = omega arith
rank_at-le (k ∷ ks) zero = omega arith
rank_at-le (k ∷ ks) (suc x) = omega (arith, rank_at-le ks x)

root_loop-here :
    (parent : List ℕ) (fuel x p : ℕ)
    → get_elem? parent x ≡ some p
    → (p == x) ≡ true
    → root_loop (suc fuel) parent x ≡ some x
unfolding root_loop
root_loop-here parent fuel x p e here = rw (root_loop, e, here) refl

root_loop-above :
    (parent : List ℕ) (fuel x p : ℕ)
    → get_elem? parent x ≡ some p
    → (p == x) ≡ false
    → root_loop (suc fuel) parent x ≡ root_loop fuel parent p
unfolding root_loop
root_loop-above parent fuel x p e above = rw (root_loop, e, above) refl

pub root_loop-total :
    (u : UnionFind) (fuel x : ℕ)
    → IsUnionFind u
    → x < u.n
    → total_rank u.rank - rank_at u.rank x < fuel
    → (r : ℕ) × (root_loop fuel u.parent x ≡ some r) × Root u.parent x r
root_loop-total u zero x valid lt enough = absurd (omega (arith, enough))
root_loop-total u (suc fuel) x valid lt enough =
    let (p, e) = get_elem?-in_range u.parent x (omega (arith, lt, valid.parents)) in
    elim (Bool-cases (p == x)) [
      | inl here ↦
          let same : p ≡ x = (==_iff p x).0 here in
          (x, root_loop-here u.parent fuel x p e here, top (e ∙ ap some same))
      | inr above ↦
          let other : p ≢ x = λ s. clash (sym ((==_iff p x).1 s) ∙ above) in
          let (r, found, walk) =
            root_loop-total u fuel p valid (valid.inside x p e)
              (omega (arith, enough, valid.climbs x p e other, rank_at-le u.rank p)) in
          (r, root_loop-above u.parent fuel x p e above ∙ found, up e other walk)
    ]
  where
    clash : true ≡ false → ⊥
    clash h = cc

-- A node that is pointed at its root leaves every element with its representative.
redirect-Root :
    (parent : List ℕ) {x r y s : ℕ}
    → Root parent x r
    → x ≢ r
    → x < length parent
    → Root parent y s
    → Root (set parent x r) y s
redirect-Root parent {x = x} {r = r} walk apart lt (top {r = s} e) = top (
    get_elem?-set_ne parent r (λ same.
      apart (same ∙ sym (Root-unique walk (subst (λ t. Root parent t s) (sym same) (top e)))))
    ∙ e)
redirect-Root parent {x = x} {r = r} {y = y} {s = s} walk apart lt (up {p = p} e other rest) =
    elim (ℕ_discrete x y) [
      | no elsewhere ↦
          up (get_elem?-set_ne parent r elsewhere ∙ e) other
            (redirect-Root parent walk apart lt rest)
      | yes here ↦
          let at_x : get_elem? (set parent x r) x ≡ some r = get_elem?-set_self parent x r lt in
          let at_r : get_elem? (set parent x r) r ≡ some r =
            get_elem?-set_ne parent r apart ∙ Root-top walk in
          let same : r ≡ s =
            Root-unique walk (subst (λ t. Root parent t s) (sym here) (up e other rest)) in
          subst (λ t. Root (set parent x r) t s) here
            (subst (Root (set parent x r) x) same (up at_x (λ d. apart (sym d)) (top at_r)))
    ]

next_up :
    {parent : List ℕ} {x r : ℕ}
    → Root parent x r
    → x ≢ r
    → (p : ℕ) × (get_elem? parent x ≡ some p) × Root parent p r
next_up (top e) apart = absurd (apart refl)
next_up (up {p = p} e other rest) apart = (p, e, rest)

not_top :
    {parent : List ℕ} {x r : ℕ}
    → Root parent x r
    → x ≢ r
    → (p : ℕ) → get_elem? parent x ≡ some p
    → p ≢ x
not_top (top e) apart p e' = absurd (apart refl)
not_top (up e other rest) apart p e' = λ same. other (some-injective _ _ (sym e ∙ e') ∙ same)

-- Redirecting keeps the invariant too.
redirect-IsUnionFind :
    (u : UnionFind) {x r : ℕ}
    → IsUnionFind u
    → Root u.parent x r
    → x ≢ r
    → x < u.n
    → IsUnionFind (record u { parent = set u.parent x r })
redirect-IsUnionFind u {x = x} {r = r} valid walk apart lt = record {
  parents = length-set u.parent x r ∙ valid.parents;
  ranks = valid.ranks;
  inside = λ y p e. elim (ℕ_discrete x y) [
    | no elsewhere ↦ valid.inside y p (sym (get_elem?-set_ne u.parent r elsewhere) ∙ e)
    | yes here ↦
        subst (λ (t : ℕ). t < u.n) (parent_is y p here e) (valid.inside r r (Root-top walk))
  ];
  climbs = λ y p e other. elim (ℕ_discrete x y) [
    | no elsewhere ↦ valid.climbs y p (sym (get_elem?-set_ne u.parent r elsewhere) ∙ e) other
    | yes here ↦
        subst (λ (t : ℕ). rank_at u.rank y < rank_at u.rank t) (parent_is y p here e)
          (subst (λ (t : ℕ). rank_at u.rank t < rank_at u.rank r) here
            (Root-climbs u valid walk apart))
  ];
  counted =
      let (p, e, walk') = next_up walk apart in
      tops_from-redirect u.parent x p r e (not_top walk apart p e) (λ s. apart (sym s))
      ∙ valid.counted;
}
  where
    parent_is : (y p : ℕ) → x ≡ y → get_elem? (set u.parent x r) y ≡ some p → r ≡ p
    parent_is y p here e = some-injective _ _ (
        sym (get_elem?-set_self u.parent x r (omega (arith, lt, valid.parents)))
        ∙ ap (get_elem? (set u.parent x r)) here
        ∙ e)

abbrev pub Keeps : UnionFind → List ℕ → Type 0
Keeps u parent =
    IsUnionFind (record u { parent = parent }) × ((y s : ℕ) → Root u.parent y s → Root parent y s)

compress-Keeps :
    (fuel : ℕ) (u : UnionFind) (x r : ℕ)
    → IsUnionFind u
    → Root u.parent x r
    → x < u.n
    → Keeps u (compress fuel u.parent x r)
unfolding compress
compress-Keeps zero u x r valid walk lt = (valid, λ y s at. at)
compress-Keeps (suc fuel) u x r valid walk lt = elim (Bool-cases (x == r)) [
  | inl here ↦ rw (compress, here) (valid, λ y s at. at)
  | inr above ↦
      let apart : x ≢ r = λ s. clash (sym ((==_iff x r).1 s) ∙ above) in
      let (p, e, walk') = next_up walk apart in
      let redirected = redirect-IsUnionFind u valid walk apart lt in
      let (valid', kept) =
        compress-Keeps fuel (record u { parent = set u.parent x r }) p r redirected
          (redirect-Root u.parent walk apart (omega (arith, lt, valid.parents)) walk')
          (valid.inside x p e) in
      rw (compress, above, e)
        (
          valid',
          λ y s at.
              kept y s (redirect-Root u.parent walk apart (omega (arith, lt, valid.parents)) at),
        )
]
  where
    clash : true ≡ false → ⊥
    clash h = cc

-- uf_find returns the representative of an element, and the structure that it leaves has the
-- invariant and gives every element the representative that it had.
pub uf_find-Root :
    (u : UnionFind) (x : ℕ)
    → IsUnionFind u
    → x < u.n
    → (r : ℕ) × (v : UnionFind) × (uf_find u x ≡ some (r, v))
      × Root u.parent x r
      × IsUnionFind v
      × (v.n ≡ u.n)
      × (v.count ≡ u.count)
      × ((y s : ℕ) → Root u.parent y s → Root v.parent y s)
unfolding uf_find
uf_find-Root u x valid lt =
    let (r, found, walk) = root_loop-total u (rounds u) x valid lt (omega arith) in
    let (valid', kept) = compress-Keeps (rounds u) u x r valid walk lt in
    (
      r,
      record u { parent = compress (rounds u) u.parent x r },
      ap (λ o. o >>= λ t. some (t, record u { parent = compress (rounds u) u.parent x t })) found,
      walk,
      valid',
      refl,
      refl,
      kept,
    )
