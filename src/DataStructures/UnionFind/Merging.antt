-- ===== src/DataStructures/UnionFind/Merging.antt =====
-- Merging two sets, for ProperDS/src/unionfind.h.
use low_level.Prelude.{
  ℕ, ◌+◌, ◌-◌, ◌≤◌, ◌<◌, ◌≡◌, ◌≢◌, ◌↔◌, ◌⊎◌, inl, inr, refl, sym, ap, ◌∙◌, Bool, true, false,
  Option, some, length, length-set, get_elem?, get_elem?-set_self, get_elem?-set_ne,
  lt_of_get_elem?, set, if◌then◌else◌, ltb, ltb→lt, ◌==◌, ==_iff, ◌>>=◌, Bool-cases, arith,
  ℕ_discrete,
}
use mathlib.Core.Option.{some-injective}
use mathlib.Core.Path.{subst}
use low_level.DataStructures.UnionFind.Tops.{tops_from-attach}
use low_level.DataStructures.UnionFind.{
  UnionFind, given, rank_at, Root, top, up, IsUnionFind, uf_find, attach, link, uf_union,
}
use low_level.DataStructures.UnionFind.Roots.{Root-unique, Root-top, uf_find-Root}

-- The representative after `loser` has gone under `winner`.
abbrev pub merged : (loser winner : ℕ) → ℕ → ℕ
merged loser winner s = if s == loser then winner else s

module _ (u : UnionFind) (l w : ℕ) (valid : IsUnionFind u) (l_top : get_elem? u.parent l ≡ some l)
    (w_top : get_elem? u.parent w ≡ some w) (apart : l ≢ w) where
  l_inside : l < length u.parent
  l_inside = lt_of_get_elem? u.parent l l_top

  at_l : get_elem? (set u.parent l w) l ≡ some w
  at_l = get_elem?-set_self u.parent l w l_inside

  at_w : get_elem? (set u.parent l w) w ≡ some w
  at_w = get_elem?-set_ne u.parent w apart ∙ w_top

  attach-Root : {y s : ℕ} → Root u.parent y s → Root (set u.parent l w) y (merged l w s)
  attach-Root (top {r = s} e) = elim (Bool-cases (s == l)) [
    | inl here ↦
        let same : s ≡ l = (==_iff s l).0 here in
        rw here (
          subst (λ t. Root (set u.parent l w) t w) (sym same)
            (up at_l (λ d. apart (sym d)) (top at_w)))
    | inr other ↦ rw other (
        top (
          get_elem?-set_ne u.parent w (λ same. clash (sym ((==_iff s l).1 (sym same)) ∙ other))
          ∙ e))
  ]
    where
      clash : true ≡ false → ⊥
      clash h = cc
  attach-Root (up {x = y} e other rest) =
      up
        (get_elem?-set_ne u.parent w (λ same.
            other (some-injective _ _ (sym e ∙ ap (get_elem? u.parent) (sym same) ∙ l_top) ∙ same))
          ∙ e)
        other (attach-Root rest)

  w_ranked : w < length u.rank
  w_ranked = omega (arith, lt_of_get_elem? u.parent w w_top, valid.parents, valid.ranks)

  length_ranks : length (attach u l w).rank ≡ u.n
  length_ranks = elim (Bool-cases (rank_at u.rank l == rank_at u.rank w)) [
    | inl level ↦ rw level (length-set u.rank w (rank_at u.rank w + 1) ∙ valid.ranks)
    | inr below ↦ rw below valid.ranks
  ]

  rank_other : (z : ℕ) → z ≢ w → rank_at (attach u l w).rank z ≡ rank_at u.rank z
  rank_other z other = elim (Bool-cases (rank_at u.rank l == rank_at u.rank w)) [
    | inl level ↦
        rw level (ap given (get_elem?-set_ne u.rank (rank_at u.rank w + 1) (λ e. other (sym e))))
    | inr below ↦ rw below refl
  ]

  rank_winner :
      rank_at u.rank l ≤ rank_at u.rank w
      → (rank_at u.rank l < rank_at (attach u l w).rank w)
        × (rank_at u.rank w ≤ rank_at (attach u l w).rank w)
  rank_winner le = elim (Bool-cases (rank_at u.rank l == rank_at u.rank w)) [
    | inl level ↦
        let more : rank_at (set u.rank w (rank_at u.rank w + 1)) w ≡ rank_at u.rank w + 1 =
          ap given (get_elem?-set_self u.rank w (rank_at u.rank w + 1) w_ranked) in
        rw level (omega (arith, le, more), omega (arith, more))
    | inr below ↦ rw below (ground (arith, le, below), omega arith)
  ]

  parent_of_l : (y p : ℕ) → l ≡ y → get_elem? (set u.parent l w) y ≡ some p → w ≡ p
  parent_of_l y p here e =
      some-injective _ _ (sym at_l ∙ ap (get_elem? (set u.parent l w)) here ∙ e)

  attach-IsUnionFind : rank_at u.rank l ≤ rank_at u.rank w → IsUnionFind (attach u l w)
  attach-IsUnionFind le =
      let (above, grown) = rank_winner le in
      record {
        parents = length-set u.parent l w ∙ valid.parents;
        ranks = length_ranks;
        inside = λ y p e. elim (ℕ_discrete l y) [
          | no elsewhere ↦ valid.inside y p (sym (get_elem?-set_ne u.parent w elsewhere) ∙ e)
          | yes here ↦ subst (λ (t : ℕ). t < u.n) (parent_of_l y p here e) (valid.inside w w w_top)
        ];
        climbs = λ y p e other. elim (ℕ_discrete l y) [
          | yes here ↦ omega (
            arith,
            ap (rank_at (attach u l w).rank) here,
            ap (rank_at (attach u l w).rank) (parent_of_l y p here e),
            rank_other l apart,
            above,
          )
          | no elsewhere ↦
              let before : get_elem? u.parent y ≡ some p =
                sym (get_elem?-set_ne u.parent w elsewhere) ∙ e in
              let not_winner : y ≢ w = λ same. other (
                some-injective _ _ (sym before ∙ ap (get_elem? u.parent) same ∙ w_top)
                ∙ sym same) in
              elim (ℕ_discrete p w) [
                | yes up_there ↦ omega (
                  arith,
                  rank_other y not_winner,
                  valid.climbs y p before other,
                  ap (rank_at (attach u l w).rank) up_there,
                  ap (rank_at u.rank) up_there,
                  grown,
                )
                | no aside ↦ omega (
                  arith,
                  rank_other y not_winner,
                  rank_other p aside,
                  valid.climbs y p before other,
                )
              ]
        ];
        counted =
            omega (arith, tops_from-attach u.parent l w l_top (λ e. apart (sym e)), valid.counted);
      }

-- Whichever root goes under the other, its rank is not the larger one.
link-attach :
    (tie : Bool) (u : UnionFind) (a b : ℕ)
    → ((link tie u a b ≡ attach u a b) × (rank_at u.rank a ≤ rank_at u.rank b))
      ⊎ ((link tie u a b ≡ attach u b a) × (rank_at u.rank b ≤ rank_at u.rank a))
unfolding link
link-attach tie u a b = elim (Bool-cases (ltb (rank_at u.rank a) (rank_at u.rank b))) [
  | inl less ↦ inl (rw less refl, omega (arith, ltb→lt (rank_at u.rank a) (rank_at u.rank b) less))
  | inr not_less ↦ elim (Bool-cases (ltb (rank_at u.rank b) (rank_at u.rank a))) [
    | inl more ↦
        inr (
          rw (not_less, more) refl,
          omega (arith, ltb→lt (rank_at u.rank b) (rank_at u.rank a) more),
        )
    | inr not_more ↦ level tie not_less not_more
  ]
]
  where
    level :
        (tie : Bool)
        → ltb (rank_at u.rank a) (rank_at u.rank b) ≡ false
        → ltb (rank_at u.rank b) (rank_at u.rank a) ≡ false
        → ((link tie u a b ≡ attach u a b) × (rank_at u.rank a ≤ rank_at u.rank b))
          ⊎ ((link tie u a b ≡ attach u b a) × (rank_at u.rank b ≤ rank_at u.rank a))
    level true e e' = inl (rw (link, e, e') refl, ground (arith, e'))
    level false e e' = inr (rw (link, e, e') refl, ground (arith, e))

-- The sets with the representatives `a` and `b` are one set now, and the others are as they were.
abbrev pub Joined : (a b s t : ℕ) → Type 0
Joined a b s t = (s ≡ t) ⊎ (((s ≡ a) × (t ≡ b)) ⊎ ((s ≡ b) × (t ≡ a)))

abbrev pub Joins : (a b : ℕ) → UnionFind → UnionFind → Type 0
Joins a b u v =
    (y z s t : ℕ)
    → Root u.parent y s
    → Root u.parent z t
    → (s' : ℕ) × (t' : ℕ) × Root v.parent y s' × Root v.parent z t' × ((s' ≡ t') ↔ Joined a b s t)

merged_iff : (a b s t : ℕ) → a ≢ b → (merged a b s ≡ merged a b t) ↔ Joined a b s t
merged_iff a b s t apart = ground (arith, apart)

merged_iff_back : (a b s t : ℕ) → a ≢ b → (merged b a s ≡ merged b a t) ↔ Joined a b s t
merged_iff_back a b s t apart = ground (arith, apart)

link-Joins :
    (tie : Bool) (u : UnionFind) (a b : ℕ)
    → IsUnionFind u
    → get_elem? u.parent a ≡ some a
    → get_elem? u.parent b ≡ some b
    → a ≢ b
    → IsUnionFind (link tie u a b)
      × ((link tie u a b).count ≡ u.count - 1)
      × Joins a b u (link tie u a b)
link-Joins tie u a b valid a_top b_top apart = elim (link-attach tie u a b) [
  | inl (e, le) ↦
      subst (λ v. IsUnionFind v × (v.count ≡ u.count - 1) × Joins a b u v) (sym e)
        (
          attach-IsUnionFind u a b valid a_top b_top apart le,
          refl,
          λ y z s t at at'. (
            merged a b s,
            merged a b t,
            attach-Root u a b valid a_top b_top apart at,
            attach-Root u a b valid a_top b_top apart at',
            merged_iff a b s t apart,
          ),
        )
  | inr (e, le) ↦
      let apart' : b ≢ a = λ d. apart (sym d) in
      subst (λ v. IsUnionFind v × (v.count ≡ u.count - 1) × Joins a b u v) (sym e)
        (
          attach-IsUnionFind u b a valid b_top a_top apart' le,
          refl,
          λ y z s t at at'. (
            merged b a s,
            merged b a t,
            attach-Root u b a valid b_top a_top apart' at,
            attach-Root u b a valid b_top a_top apart' at',
            merged_iff_back a b s t apart,
          ),
        )
]

clash : true ≡ false → ⊥
clash h = cc

only_one : {a b s t : ℕ} → a ≡ b → Joined a b s t → s ≡ t
only_one e joined = ground (arith, e, joined)

after_second : (tie : Bool) → ℕ → ℕ × UnionFind → Option (Bool × UnionFind)
after_second tie ra (rb, w) = some (if ra == rb then (false, w) else (true, link tie w ra rb))

after_first : (tie : Bool) → ℕ → ℕ × UnionFind → Option (Bool × UnionFind)
after_first tie b (ra, v) = uf_find v b >>= after_second tie ra

-- uf_union ends, and returns whether its two elements had different representatives. The structure
-- that it leaves has the invariant, one set less when they had, and two elements have the same
-- representative there exactly when they had the same one before or were in the two merged sets;
-- which root goes under the other for equal ranks does not matter.
pub uf_union-Joins :
    (tie : Bool) (u : UnionFind) (a b : ℕ)
    → IsUnionFind u
    → a < u.n
    → b < u.n
    → (ra : ℕ) × (rb : ℕ) × (v : UnionFind) × (uf_union tie u a b
        ≡ some (if ra == rb then false else true, v))
      × Root u.parent a ra
      × Root u.parent b rb
      × IsUnionFind v
      × (v.count ≡ (if ra == rb then u.count else u.count - 1))
      × Joins ra rb u v
unfolding uf_union after_first after_second
uf_union-Joins tie u a b valid lt lt' =
    let (ra, v, found, at, valid_v, n_v, count_v, kept) = uf_find-Root u a valid lt in
    let (rb, w, found', at', valid_w, n_w, count_w, kept') =
      uf_find-Root v b valid_v (omega (arith, lt', n_v)) in
    let (rb', _, _, first, _, _, _, _) = uf_find-Root u b valid lt' in
    let same : rb' ≡ rb = Root-unique (kept b rb' first) at' in
    let lifted : (y s : ℕ) → Root u.parent y s → Root w.parent y s =
      λ y s walk. kept' y s (kept y s walk) in
    let ran : uf_union tie u a b
        ≡ some (if ra == rb then (false, w) else (true, link tie w ra rb)) =
      ap (λ o. o >>= after_first tie b) found ∙ ap (λ o. o >>= after_second tie ra) found' in
    elim (Bool-cases (ra == rb)) [
      | inl one ↦ (
        ra,
        rb,
        w,
        ran ∙ rw one refl,
        at,
        subst (Root u.parent b) same first,
        valid_w,
        rw one (count_w ∙ count_v),
        λ y z s t walk walk'. (
          s,
          t,
          lifted y s walk,
          lifted z t walk',
          ((λ e. inl e), λ joined. only_one ((==_iff ra rb).0 one) joined),
        ),
      )
      | inr two ↦
          let apart : ra ≢ rb = λ e. clash (sym ((==_iff ra rb).1 e) ∙ two) in
          let (valid', less, joins) =
            link-Joins tie w ra rb valid_w (Root-top (lifted a ra at)) (Root-top (kept' b rb at'))
              apart in
          (
            ra,
            rb,
            link tie w ra rb,
            ran ∙ rw two refl,
            at,
            subst (Root u.parent b) same first,
            valid',
            rw two (less ∙ ap (λ (c : ℕ). c - 1) (count_w ∙ count_v)),
            λ y z s t walk walk'. joins y z s t (lifted y s walk) (lifted z t walk'),
          )
    ]
