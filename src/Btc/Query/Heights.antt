-- ===== src/Btc/Query/Heights.antt =====
-- Which blocks have a height: those of the forks that the best one descends from.
use rsk.Prelude.{
  ℕ, zero, suc, ◌≤◌, ◌≡◌, ◌↔◌, refl, inl, inr, Bool, true, false, Option, none, some, arith, ◌==◌,
  Bool-cases, Option-cases,
}
use rsk.Rows.Fork.{ForkMeta}
use rsk.Btc.Store.Meta.{Chain, fork_meta, best_fork, locate}
use rsk.Btc.Store.Walk.Owns.{ParentsBelow}
use rsk.Btc.Query.{canonical_loop, is_canonical_at, then_some, height_of}
use rsk.Btc.Query.Canonical.{Descends, itself, child, is_canonical_at_ancestor}

module _ {Header : Type 0} (txn : Chain Header) where
  -- A fork that the loop finds is on the ancestry that it walks.
  loop-Descends :
      (fuel f fork height : ℕ)
      → canonical_loop txn fuel f fork height ≡ some true
      → Descends txn f fork
  unfolding canonical_loop
  loop-Descends zero f fork height e = cc e
  loop-Descends (suc fuel) f fork height e = elim (Option-cases (fork_meta txn f)) [
    | inl gone ↦ cc (rw (gone, canonical_loop) at e)
    | inr (m, there) ↦
        let e₁ = rw (there, canonical_loop) at e in
        elim (Bool-cases (fork == f)) [
          | inl same ↦ let is : f ≡ fork = ground arith in rw is itself
          | inr other ↦
              let e₂ = rw other at e₁ in
              elim (Option-cases m.parent) [
                | inl root ↦ cc (rw root at e₂)
                | inr (p, up) ↦ child there up (loop-Descends fuel p fork height (rw up at e₂))
              ]
        ]
  ]

  is_canonical_at-Descends :
      (best fork height : ℕ)
      → best_fork txn ≡ some best
      → is_canonical_at txn fork height ≡ some true
      → Descends txn best fork
  unfolding is_canonical_at
  is_canonical_at-Descends best fork height is e =
      let e₁ = rw (is, is_canonical_at) at e in
      elim (Bool-cases (fork == best)) [
        | inl same ↦ let at_best : best ≡ fork = ground arith in rw at_best itself
        | inr other ↦ loop-Descends (suc best) best fork height (rw other at e₁)
      ]

  then_some-eq :
      (o : Option Bool) (height : ℕ) → then_some txn o height ≡ some height → o ≡ some true
  then_some-eq none height e = cc e
  then_some-eq (some false) height e = cc e
  then_some-eq (some true) height e = refl

  -- Where every fork has a parent of a smaller number, a stored block of a fork that owns its height
  -- has that height exactly if the best fork is that
  -- fork or descends from it.
  pub height_of_iff_Descends :
      (hash best fork height : ℕ) (m : ForkMeta)
      → ParentsBelow txn
      → best_fork txn ≡ some best
      → locate txn hash ≡ some (fork, height)
      → fork_meta txn fork ≡ some m
      → m.forkpoint ≤ height
      → (height_of txn hash ≡ some height) ↔ Descends txn best fork
  unfolding height_of
  height_of_iff_Descends hash best fork height m inv is located there own = (
    λ e.
        is_canonical_at-Descends best fork height is
          (then_some-eq _ height (rw (located, height_of) at e)),
    λ d.
        rw (located, height_of)
          (rw (is_canonical_at_ancestor txn best fork height m inv is there own d) refl),
  )
