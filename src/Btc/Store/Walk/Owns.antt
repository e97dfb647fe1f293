-- ===== src/Btc/Store/Walk/Owns.antt =====
-- Which fork owns a height, as a relation, and that the walk decides it.
use rsk.Prelude.{
  ℕ, zero, suc, ◌≤◌, ◌<◌, ◌≡◌, ◌≢◌, refl, sym, ◌∙◌, ◌↔◌, inl, inr, true, false, none, some, arith,
  leb, Bool-cases, Option-cases,
}
use rsk.Rows.Fork.{ForkMeta}
use rsk.Btc.Store.Meta.{Chain, fork_meta}
use rsk.Btc.Store.Walk.{
  Walk, owner, missing, out_of_fuel, found, owner_loop, owner_fork, row_at, work_at, header_at,
}
use rsk.Rows.Header.{BtcRow}
use rsk.Prelude.Table.{get, pair_key}

-- `f` owns the height if its forkpoint is at or below it; otherwise its parent's owner does.
pub data Owns {Header : Type 0} (txn : Chain Header) (height : ℕ) : ℕ → ℕ → Type 0 where
  here :
      {f : ℕ} {m : ForkMeta} → fork_meta txn f ≡ some m → m.forkpoint ≤ height → Owns txn height f f
  up :
      {f p o : ℕ} {m : ForkMeta}
      → fork_meta txn f ≡ some m
      → height < m.forkpoint
      → m.parent ≡ some p
      → Owns txn height p o
      → Owns txn height f o

-- Every fork was created after the fork that it left.
pub record ParentsBelow {Header : Type 0} (txn : Chain Header) : Type 0 where
  pub below : (f p : ℕ) (m : ForkMeta) → fork_meta txn f ≡ some m → m.parent ≡ some p → p < f

module _ {Header : Type 0} (txn : Chain Header) where
  -- One round of the walk, for what the fork's record says.
  step_none :
      (fuel f height : ℕ) → fork_meta txn f ≡ none → owner_loop txn (suc fuel) f height ≡ missing
  unfolding owner_loop
  step_none fuel f height e = rw (e, owner_loop) refl

  step_here :
      (fuel f height : ℕ) (m : ForkMeta)
      → fork_meta txn f ≡ some m
      → leb m.forkpoint height ≡ true
      → owner_loop txn (suc fuel) f height ≡ owner f
  unfolding owner_loop
  step_here fuel f height m e h = rw (e, owner_loop) (rw h refl)

  step_root :
      (fuel f height : ℕ) (m : ForkMeta)
      → fork_meta txn f ≡ some m
      → leb m.forkpoint height ≡ false
      → m.parent ≡ none
      → owner_loop txn (suc fuel) f height ≡ missing
  unfolding owner_loop
  step_root fuel f height m e h k = rw (e, owner_loop) (rw h (rw k refl))

  step_up :
      (fuel f height : ℕ) (m : ForkMeta) (p : ℕ)
      → fork_meta txn f ≡ some m
      → leb m.forkpoint height ≡ false
      → m.parent ≡ some p
      → owner_loop txn (suc fuel) f height ≡ owner_loop txn fuel p height
  unfolding owner_loop
  step_up fuel f height m p e h k = rw (e, owner_loop) (rw h (rw k refl))

  owner_loop_sound :
      (fuel f height o : ℕ) → owner_loop txn fuel f height ≡ owner o → Owns txn height f o
  owner_loop_sound zero f height o e = unfold owner_loop in cc e
  owner_loop_sound (suc fuel) f height o e = elim (Option-cases (fork_meta txn f)) [
    | inl gone ↦ cc (step_none fuel f height gone)
    | inr (m, there) ↦ elim (Bool-cases (leb m.forkpoint height)) [
      | inl le ↦
          let same : f ≡ o = cc (step_here fuel f height m there le) in
          rw (← same) (here there (ground arith))
      | inr gt ↦ elim (Option-cases m.parent) [
        | inl root ↦ cc (step_root fuel f height m there gt root)
        | inr (p, child) ↦
            up there (ground arith) child (
              owner_loop_sound fuel p height o (sym (step_up fuel f height m p there gt child) ∙ e))
      ]
    ]
  ]

  module _ (inv : ParentsBelow txn) where
    owner_loop_complete :
        (fuel : ℕ) {f height o : ℕ}
        → f < fuel
        → Owns txn height f o
        → owner_loop txn fuel f height ≡ owner o
    owner_loop_complete zero h w = absurd (omega arith)
    owner_loop_complete (suc fuel) {f} {height} h (here {m} there le) =
        step_here fuel f height m there (ground arith)
    owner_loop_complete (suc fuel) {f} {height} h (up {p} {m} there gt child w) =
        step_up fuel f height m p there (ground arith) child
        ∙ owner_loop_complete fuel (omega (arith, inv.below f p m there child)) w

    owner_loop_ends : (fuel f height : ℕ) → f < fuel → owner_loop txn fuel f height ≢ out_of_fuel
    owner_loop_ends zero f height h e = absurd (omega arith)
    owner_loop_ends (suc fuel) f height h e = elim (Option-cases (fork_meta txn f)) [
      | inl gone ↦ cc (step_none fuel f height gone)
      | inr (m, there) ↦ elim (Bool-cases (leb m.forkpoint height)) [
        | inl le ↦ cc (step_here fuel f height m there le)
        | inr gt ↦ elim (Option-cases m.parent) [
          | inl root ↦ cc (step_root fuel f height m there gt root)
          | inr (p, child) ↦
              owner_loop_ends fuel p height (omega (arith, inv.below f p m there child))
                (sym (step_up fuel f height m p there gt child) ∙ e)
        ]
      ]
    ]

    -- The walk ends within its fuel, and finds exactly the fork that owns the height on the
    -- ancestry of `f`, where every fork's parent has a smaller number.
    pub owner_fork_correct :
        (f height : ℕ)
        → (owner_loop txn (suc f) f height ≢ out_of_fuel)
          × ((o : ℕ) → (owner_fork txn f height ≡ some o) ↔ Owns txn height f o)
    owner_fork_correct f height = (
      owner_loop_ends (suc f) f height (omega arith),
      λ o. (sound o, λ w. unfold owner_fork in rw (owner_loop_complete (suc f) (omega arith) w)),
    )
      where
        of_found : (w : Walk) (o : ℕ) → found w ≡ some o → w ≡ owner o
        of_found (owner g) o e = ground arith
        of_found missing o e = cc
        of_found out_of_fuel o e = cc

        sound : (o : ℕ) → owner_fork txn f height ≡ some o → Owns txn height f o
        sound o e = owner_loop_sound (suc f) f height o (unfold owner_fork in of_found _ o e)

module _ {Header : Type 0} (txn : Chain Header) where
  -- Reads at a height that the fork owns itself.
  pub owner_fork_own :
      (f height : ℕ) (m : ForkMeta)
      → fork_meta txn f ≡ some m
      → m.forkpoint ≤ height
      → owner_fork txn f height ≡ some f
  unfolding owner_fork
  owner_fork_own f height m there le = rw (step_here txn f f height m there (ground arith)) refl

  module _ (f height : ℕ) (m : ForkMeta) (row : BtcRow Header) (there : fork_meta txn f ≡ some m)
      (le : m.forkpoint ≤ height) (stored : get txn.headers (f, height) ≡ some row) where
    pub row_at_own : row_at txn f height ≡ some row
    unfolding row_at
    row_at_own = rw ((owner_fork_own f height m there le), row_at) stored

    pub work_at_own : work_at txn f height ≡ some row.work
    unfolding work_at
    work_at_own = rw (row_at_own, work_at) refl

    pub header_at_own : header_at txn f height ≡ some row.header
    unfolding header_at
    header_at_own = rw (row_at_own, header_at) refl
