-- ===== src/LinkedList/Cycle.antt =====
-- `list_has_cycle` of ProperC/src/linkedlist.c: the slow and the fast pointer.
use mathlib.Core.Option.{some-injective}
use low_level.Prelude.{
  ℕ, zero, suc, ◌+◌, ◌-◌, ◌*◌, ◌≤◌, ◌<◌, ◌≡◌, ◌≢◌, refl, sym, ap, ◌∙◌, true, false, some, [], ◌∷◌,
  ◌++◌, append_assoc, arith, length, ◌==◌, Bool-cases, inl, inr,
}
use low_level.Prelude.Int.{ℤ}
use low_level.LinkedList.{Heap, Node, node, load, two_ahead, cycle_loop, list_has_cycle}
use low_level.LinkedList.Chain.{
  Cells, first, has, Chain, load-cell, not_null, two_ahead-one, two_ahead-two, two_ahead-more,
}

Chain-append : (h : Heap) (xs ys : Cells) → Chain h (xs ++ ys) → Chain h ys
Chain-append h [] ys c = c
Chain-append h (x ∷ xs) ys (_, _, _, c) = Chain-append h xs ys c

has_later :
    (a : ℕ) (xs : Cells) (q : ℕ) (w : ℤ) (rest : Cells)
    → has a (xs ++ (q, w) ∷ rest) ≡ false
    → (a == q) ≡ false
has_later a [] q w rest h = ground arith
has_later a ((p, v) ∷ xs) q w rest h = has_later a xs q w rest (ground arith)

-- The node two places further on is another than the first.
first-ne-later :
    (h : Heap) (xs : Cells) (y y' : ℕ × ℤ) (q : ℕ) (w : ℤ) (rest : Cells)
    → Chain h (xs ++ y ∷ y' ∷ (q, w) ∷ rest)
    → (first (xs ++ y ∷ y' ∷ (q, w) ∷ rest) == q) ≡ false
first-ne-later h [] y y' q w rest (_, _, once, _) = has_later y.0 (y' ∷ []) q w rest once
first-ne-later h (x ∷ xs) y y' q w rest (_, _, once, _) =
    has_later x.0 (xs ++ y ∷ y' ∷ []) q w rest
      (rw (append_assoc xs (y ∷ y' ∷ []) ((q, w) ∷ rest)) once)

-- The fast pointer stands at or before the slow one's list end, and they do not meet.
cycle_loop-false :
    (fuel : ℕ) (gap : Cells) (y : ℕ × ℤ) (fast : Cells) (h : Heap)
    → Chain h (gap ++ y ∷ fast)
    → length fast < fuel
    → cycle_loop fuel (first (gap ++ y ∷ fast)) y.0 h ≡ some false
unfolding cycle_loop
cycle_loop-false zero gap y fast h c enough = absurd (omega arith)
cycle_loop-false (suc fuel) gap y [] h c enough =
    rw (two_ahead-one h (Chain-append h gap (y ∷ []) c))
cycle_loop-false (suc fuel) gap y (y' ∷ []) h c enough =
    rw (two_ahead-two h (Chain-append h gap (y ∷ y' ∷ []) c))
cycle_loop-false (suc fuel) [] (p, v) ((p', v') ∷ (p'', v'') ∷ fast) h c enough =
    let (ne, e, once, c') = c in
    let apart = first-ne-later' c' in
    rw (two_ahead-more h fast c, load-cell h ne e, apart)
      (cycle_loop-false fuel ((p', v') ∷ []) (p'', v'') fast h c' (omega arith))
  where
    first-ne-later' : Chain h ((p', v') ∷ (p'', v'') ∷ fast) → (p' == p'') ≡ false
    first-ne-later' (_, _, once, _) = ground arith
cycle_loop-false (suc fuel) ((m, u) ∷ gap) y (y' ∷ (p'', v'') ∷ fast) h c enough =
    let (ne, e, once, c') = c in
    let apart = first-ne-later h gap y y' p'' v'' fast c' in
    let regroup = append_assoc gap (y ∷ y' ∷ []) ((p'', v'') ∷ fast) in
    let ahead =
      two_ahead-more h fast (Chain-append h ((m, u) ∷ gap) (y ∷ y' ∷ (p'', v'') ∷ fast) c) in
    rw (ahead, load-cell h ne e, apart)
      (rw regroup at (
        cycle_loop-false fuel (gap ++ y ∷ y' ∷ []) (p'', v'') fast h (rw regroup c') (omega arith)))

-- On a list of nodes that ends in NULL, `list_has_cycle` ends without a fault in no more rounds
-- than there are nodes, and returns false.
pub list_has_cycle-Chain :
    (fuel : ℕ) (cells : Cells) (h : Heap)
    → Chain h cells
    → length cells ≤ fuel
    → list_has_cycle fuel (first cells) h ≡ some false
unfolding list_has_cycle
list_has_cycle-Chain fuel [] h c enough = refl
list_has_cycle-Chain fuel (y ∷ cells) h c enough =
    rw (not_null c.0) (cycle_loop-false fuel [] y cells h c (omega arith))

-- A walk along `next` that never ends: the address of the node after `k` steps.
pub record IsTrace (h : Heap) (at : ℕ → ℕ) : Type 0 where
  pub ne_null : (k : ℕ) → at k ≢ 0
  pub value : ℕ → ℤ
  pub cell : (k : ℕ) → h (at k) ≡ some (node (value k) (at (suc k)))

module _ {h : Heap} {at : ℕ → ℕ} (t : IsTrace h at) where
  load-trace : (k : ℕ) → load h (at k) ≡ some (node (t.value k) (at (suc k)))
  load-trace k = load-cell h (t.ne_null k) (t.cell k)

  two_ahead-trace : (k : ℕ) → two_ahead h (at k) ≡ some (some (at (suc (suc k))))
  unfolding two_ahead
  two_ahead-trace k = rw (
    not_null (t.ne_null k),
    t.cell k,
    not_null (t.ne_null (suc k)),
    t.cell (suc k),
    not_null (t.ne_null (suc (suc k))),
  )

  -- Where the positions meet after `d` more rounds, the loop says so at the latest.
  cycle_loop-true :
      (fuel k d : ℕ)
      → at (suc (k + d)) ≡ at (2 * suc (k + d))
      → d < fuel
      → cycle_loop fuel (at k) (at (2 * k)) h ≡ some true
  unfolding cycle_loop
  cycle_loop-true zero k d meet enough = absurd (omega arith)
  cycle_loop-true (suc fuel) k d meet enough =
      let double : 2 * suc k ≡ suc (suc (2 * k)) = omega arith in
      rw (two_ahead-trace (2 * k), load-trace k)
        (elim (Bool-cases (at (suc k) == at (suc (suc (2 * k))))) [
          | inl same ↦ rw same
          | inr apart ↦
              rw apart (rw double at (later d meet enough (cycle_loop-true fuel (suc k)) apart))
        ])
    where
      -- The positions differ after this round, so there is a round to come.
      later :
          (d : ℕ)
          → at (suc (k + d)) ≡ at (2 * suc (k + d))
          → d < suc fuel
          → ((d' : ℕ)
              → at (suc (suc k + d')) ≡ at (2 * suc (suc k + d'))
              → d' < fuel
              → cycle_loop fuel (at (suc k)) (at (2 * suc k)) h ≡ some true)
          → (at (suc k) == at (suc (suc (2 * k)))) ≡ false
          → cycle_loop fuel (at (suc k)) (at (2 * suc k)) h ≡ some true
      later zero meet' enough' next apart =
          let here : k + 0 ≡ k = omega arith in
          let double : 2 * suc k ≡ suc (suc (2 * k)) = omega arith in
          let same : at (suc k) ≡ at (suc (suc (2 * k))) = rw (here, double) at meet' in
          absurd (ground arith)
      later (suc d) meet' enough' next apart =
          let there : k + suc d ≡ suc k + d = omega arith in
          next d (rw there at meet') (omega arith)

  step_same : (a b : ℕ) → at a ≡ at b → at (suc a) ≡ at (suc b)
  step_same a b e =
      ap (λ (n : Node). n.next) (some-injective _ _ (sym (t.cell a) ∙ ap h e ∙ t.cell b))

  -- A walk that comes back to where it was goes round for ever.
  module _ (mu lam : ℕ) (back : at (mu + lam) ≡ at mu) where
    around : (i : ℕ) → at (mu + i + lam) ≡ at (mu + i)
    around zero = let e : mu + 0 ≡ mu = omega arith in rw e back
    around (suc i) =
        let e : mu + suc i ≡ suc (mu + i) = omega arith in
        let e' : suc (mu + i) + lam ≡ suc (mu + i + lam) = omega arith in
        rw (e, e') (step_same (mu + i + lam) (mu + i) (around i))

    rounds : (j i : ℕ) → at (mu + i + j * lam) ≡ at (mu + i)
    rounds zero i = let e : mu + i + 0 * lam ≡ mu + i = omega arith in rw e
    rounds (suc j) i =
        let e : mu + i + suc j * lam ≡ mu + (i + j * lam) + lam = grind arith in
        let e' : mu + (i + j * lam) ≡ mu + i + j * lam = omega arith in
        rw e (around (i + j * lam) ∙ rw e' (rounds j i))

-- If the walk from the head along `next` never ends, and after `mu + lam` steps stands where it
-- stood after `mu`, then `list_has_cycle` ends without a fault within `(mu + 1) * lam` rounds and
-- returns true.
pub list_has_cycle-IsTrace :
    (fuel mu lam : ℕ) (at : ℕ → ℕ) (h : Heap)
    → IsTrace h at
    → 1 ≤ lam
    → at (mu + lam) ≡ at mu
    → (mu + 1) * lam ≤ fuel
    → list_has_cycle fuel (at 0) h ≡ some true
unfolding list_has_cycle
list_has_cycle-IsTrace fuel mu lam at h t some_step back enough =
    let total = (mu + 1) * lam in
    let long : mu + lam ≤ total = grind arith in
    let here : mu + (total - mu) ≡ total = omega arith in
    let twice : mu + (total - mu) + (mu + 1) * lam ≡ 2 * total = omega arith in
    let next : suc (0 + (total - 1)) ≡ total = omega arith in
    let meet : at (2 * total) ≡ at total =
      rw (twice, here) at (rounds t mu lam back (mu + 1) (total - mu)) in
    rw (not_null (t.ne_null 0))
      (cycle_loop-true t fuel 0 (total - 1) (rw next (sym meet)) (omega arith))
