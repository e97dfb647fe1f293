-- ===== src/Btc/Query/Canonical.antt =====
-- Which blocks `height_of` takes to be canonical.
use rsk.Prelude.{
  ℕ, zero, suc, ◌≤◌, ◌<◌, ◌≡◌, ◌≢◌, refl, ◌∙◌, inl, inr, true, false, some, arith, leb, ◌==◌,
  Bool-cases, nat-cases,
}
use rsk.Rows.Fork.{ForkMeta}
use rsk.Btc.Store.Meta.{Chain, fork_meta, best_fork}
use rsk.Btc.Store.Walk.Owns.{ParentsBelow}
use rsk.Btc.Query.{canonical_loop, is_canonical_at}

-- `g` is the fork `f`, or one that `f` descends from.
pub data Descends {Header : Type 0} (txn : Chain Header) : ℕ → ℕ → Type 0 where
  itself : {f : ℕ} → Descends txn f f
  child :
      {f p g : ℕ} {m : ForkMeta}
      → fork_meta txn f ≡ some m
      → m.parent ≡ some p
      → Descends txn p g
      → Descends txn f g

module _ {Header : Type 0} (txn : Chain Header) where
  loop_here :
      (fuel f height : ℕ) (m : ForkMeta)
      → fork_meta txn f ≡ some m
      → canonical_loop txn (suc fuel) f f height ≡ some (leb m.forkpoint height)
  unfolding canonical_loop
  loop_here fuel f height m there =
      let same : (f == f) ≡ true = ground arith in rw (there, canonical_loop) (rw same refl)

  loop_up :
      (fuel f fork height p : ℕ) (m : ForkMeta)
      → fork_meta txn f ≡ some m
      → fork ≢ f
      → m.parent ≡ some p
      → canonical_loop txn (suc fuel) f fork height ≡ canonical_loop txn fuel p fork height
  unfolding canonical_loop
  loop_up fuel f fork height p m there ne up =
      let other : (fork == f) ≡ false = ground arith in
      rw (there, canonical_loop) (rw other (rw up refl))

  -- A fork that the best one descends from owns the rows from its forkpoint on; the loop looks at
  -- that forkpoint only.
  loop_ancestor :
      (fuel f fork height : ℕ) (m : ForkMeta)
      → ParentsBelow txn
      → f < fuel
      → fork_meta txn fork ≡ some m
      → m.forkpoint ≤ height
      → Descends txn f fork
      → canonical_loop txn fuel f fork height ≡ some true
  loop_ancestor zero f fork height m inv lt there own d = absurd (omega arith)
  loop_ancestor (suc fuel) f fork height m inv lt there own itself =
      let le : leb m.forkpoint height ≡ true = ground arith in
      rw (← le) (loop_here fuel f height m there)
  loop_ancestor (suc fuel) f fork height m inv lt there own (child {p = p} {m = m'} is up d) =
      elim (nat-cases fork f) [
        | inl same ↦
            let le : leb m.forkpoint height ≡ true = ground arith in
            rw (← le) (rw (← same) (loop_here fuel fork height m there))
        | inr other ↦
            loop_up fuel f fork height p m' is other up
            ∙ loop_ancestor fuel p fork height m inv (omega (arith, inv.below f p m' is up)) there
                own d
      ]

  pub is_canonical_at_ancestor :
      (best fork height : ℕ) (m : ForkMeta)
      → ParentsBelow txn
      → best_fork txn ≡ some best
      → fork_meta txn fork ≡ some m
      → m.forkpoint ≤ height
      → Descends txn best fork
      → is_canonical_at txn fork height ≡ some true
  unfolding is_canonical_at
  is_canonical_at_ancestor best fork height m inv is there own d =
      elim (Bool-cases (fork == best)) [
        | inl same ↦ rw (is, is_canonical_at) (rw same refl)
        | inr other ↦
            rw (is, is_canonical_at)
              (rw other (loop_ancestor (suc best) best fork height m inv (omega arith) there own d))
      ]
