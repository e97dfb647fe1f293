-- ===== src/Btc/Connect/Finalize/Advance.antt =====
-- When the checkpoint rule advances the finalized height, and what it sets.
use rsk.Prelude.{
  ℕ, ◌+◌, ◌-◌, ◌%◌, ◌≤◌, ◌<◌, ◌≡◌, refl, ◌⊎◌, ◌↔◌, inl, inr, true, false, none, some, Option, arith,
  ◌==◌, leb, ltb, Option-cases, unwrap_or, sub_u256, Bool-cases,
}
use rsk.Result.{ok, Result-cases}
use rsk.Btc.Validation.{difficulty_period}
use rsk.Btc.Store.Meta.{Chain, best_fork, fork_tip, finalized, set_finalized}
use rsk.Btc.Store.Walk.{work_at}
use rsk.Btc.Connect.Finalize.{
  finalize_in_txn, finalize_at, boundary_below, outweighs, finality_margin_blocks,
}

boundary_below_unique :
    (tip h : ℕ)
    → h % difficulty_period ≡ 0
    → h + finality_margin_blocks ≤ tip
    → tip < h + finality_margin_blocks + difficulty_period
    → boundary_below tip ≡ h
unfolding boundary_below
boundary_below_unique tip h whole margin newest = omega arith

boundary_below_bounds :
    (tip : ℕ)
    → finality_margin_blocks ≤ tip
    → (boundary_below tip % difficulty_period ≡ 0)
      × (boundary_below tip + finality_margin_blocks ≤ tip)
      × (tip < boundary_below tip + finality_margin_blocks + difficulty_period)
unfolding boundary_below
boundary_below_bounds tip long = (omega arith, omega arith, omega arith)

module _ {Header : Type 0} where
  -- What was built above the boundary weighs at least what the period before the boundary weighs.
  pub record Outweighs (s : Chain Header) (tip h : ℕ) : Type 0 where
    pub at_boundary : ℕ
    pub at_start : ℕ
    pub at_tip : ℕ
    pub boundary_work : work_at s 0 h ≡ some at_boundary
    pub start_work : work_at s 0 (h - difficulty_period) ≡ some at_start
    pub tip_work : work_at s 0 tip ≡ some at_tip
    pub weighs : sub_u256 at_boundary at_start ≤ sub_u256 at_tip at_boundary

  outweighs_lem : (s : Chain Header) (tip h : ℕ) → (outweighs s tip h ≡ ok true) ↔ Outweighs s tip h
  unfolding outweighs
  outweighs_lem s tip h = (
    λ e. elim (Option-cases (work_at s 0 h)) [
      | inl gone ↦ cc (rw gone at e)
      | inr (u, is_u) ↦ elim (Option-cases (work_at s 0 (h - difficulty_period))) [
        | inl gone ↦ cc (rw (is_u, gone) at e)
        | inr (v, is_v) ↦ elim (Option-cases (work_at s 0 tip)) [
          | inl gone ↦ cc (rw (is_u, is_v, gone) at e)
          | inr (w, is_w) ↦
              let le : leb (sub_u256 u v) (sub_u256 w u) ≡ true = cc (rw (is_u, is_v, is_w) at e) in
              record {
                at_boundary = u;
                at_start = v;
                at_tip = w;
                boundary_work = is_u;
                start_work = is_v;
                tip_work = is_w;
                weighs = ground arith;
              }
        ]
      ]
    ],
    λ o.
        let le : leb (sub_u256 o.at_boundary o.at_start) (sub_u256 o.at_tip o.at_boundary) ≡ true =
          ground (arith, o.weighs) in
        rw (o.boundary_work, o.start_work, o.tip_work, le) refl,
  )

  -- The finalized height `h` is set: a period boundary above the one before, the margin below the
  -- root chain's tip, and outweighed by what was built on it.
  pub record Advanced (s : Chain Header) (h : ℕ) : Type 0 where
    pub tip : ℕ
    pub tip_hash : ℕ
    pub root_is_best : best_fork s ≡ some 0
    pub root_tip : fork_tip s 0 ≡ some (tip, tip_hash)
    pub is_boundary : h % difficulty_period ≡ 0
    pub margin : h + finality_margin_blocks ≤ tip
    pub newest : tip < h + finality_margin_blocks + difficulty_period
    pub above : unwrap_or (finalized s) 0 < h
    pub heavy : Outweighs s tip h

  finalize_at-cases :
      (s final : Chain Header) (tip : ℕ) (o : Option ℕ)
      → finalize_at s tip ≡ ok (o, final)
      → ((o ≡ none) × (final ≡ s))
        ⊎ ((o ≡ some (boundary_below tip))
            × (final ≡ set_finalized s (boundary_below tip))
            × (finality_margin_blocks ≤ tip)
            × (unwrap_or (finalized s) 0 < boundary_below tip)
            × (outweighs s tip (boundary_below tip) ≡ ok true))
  unfolding finalize_at
  finalize_at-cases s final tip o e = elim (Bool-cases (ltb tip finality_margin_blocks)) [
    | inl short ↦ let e₁ = rw short at e in inl (cc e₁, cc e₁)
    | inr long ↦ elim (Bool-cases (leb (boundary_below tip) (unwrap_or (finalized s) 0))) [
      | inl old ↦ let e₁ = rw (long, old) at e in inl (cc e₁, cc e₁)
      | inr new ↦ elim (Result-cases (outweighs s tip (boundary_below tip))) [
        | inr (x, failed) ↦ cc (rw (long, new, failed) at e)
        | inl (true, weighed) ↦
            let e₁ = rw (long, new, weighed) at e in
            inr (cc e₁, cc e₁, ground arith, ground arith, weighed)
        | inl (false, weighed) ↦ let e₁ = rw (long, new, weighed) at e in inl (cc e₁, cc e₁)
      ]
    ]
  ]

  pub finalize_in_txn-cases :
      (s final : Chain Header) (o : Option ℕ)
      → finalize_in_txn s ≡ ok (o, final)
      → ((o ≡ none) × (final ≡ s))
        ⊎ ((h : ℕ) × (o ≡ some h) × (final ≡ set_finalized s h) × Advanced s h)
  unfolding finalize_in_txn
  finalize_in_txn-cases s final o e = elim (Option-cases (best_fork s)) [
    | inl unseeded ↦ let e₁ = rw (unseeded, finalize_in_txn) at e in inl (cc e₁, cc e₁)
    | inr (best, is) ↦ elim (Option-cases (fork_tip s 0)) [
      | inl gone ↦
          let e₁ = rw (gone, finalize_in_txn) at (rw (is, finalize_in_txn) at e) in
          inl (cc e₁, cc e₁)
      | inr ((tip, tip_hash), there) ↦ elim (Bool-cases (best == 0)) [
        | inr fork ↦
            let e₁ = rw fork at (rw (there, finalize_in_txn) at (rw (is, finalize_in_txn) at e)) in
            inl (cc e₁, cc e₁)
        | inl root ↦
            let e₁ = rw root at (rw (there, finalize_in_txn) at (rw (is, finalize_in_txn) at e)) in
            elim (finalize_at-cases s final tip o e₁) [
              | inl stays ↦ inl stays
              | inr (some_h, sets, long, above, heavy) ↦
                  let (whole, margin, newest) = boundary_below_bounds tip long in
                  let zero_best : best ≡ 0 = ground arith in
                  inr (
                    boundary_below tip,
                    some_h,
                    sets,
                    record {
                      tip = tip;
                      tip_hash = tip_hash;
                      root_is_best = cc (is, zero_best);
                      root_tip = there;
                      is_boundary = whole;
                      margin = margin;
                      newest = newest;
                      above = above;
                      heavy = (outweighs_lem s tip (boundary_below tip)).0 heavy;
                    },
                  )
            ]
      ]
    ]
  ]

  finalize_at-Advanced :
      (s : Chain Header) (tip h : ℕ)
      → boundary_below tip ≡ h
      → ltb tip finality_margin_blocks ≡ false
      → leb h (unwrap_or (finalized s) 0) ≡ false
      → outweighs s tip h ≡ ok true
      → finalize_at s tip ≡ ok (some h, set_finalized s h)
  unfolding finalize_at
  finalize_at-Advanced s tip h at long new heavy = rw at (rw (long, new, heavy) refl)

  finalize_in_txn-Advanced :
      (s : Chain Header) (h : ℕ) → Advanced s h → finalize_in_txn s ≡ ok (some h, set_finalized s h)
  unfolding finalize_in_txn
  finalize_in_txn-Advanced s h a =
      rw (a.root_is_best, finalize_in_txn)
        (rw (a.root_tip, finalize_in_txn)
          (finalize_at-Advanced s a.tip h
            (boundary_below_unique a.tip h a.is_boundary a.margin a.newest)
            (ground (arith, a.margin)) (ground (arith, a.above))
            ((outweighs_lem s a.tip h).1 a.heavy)))

  -- The checkpoint rule advances to a height exactly if the root chain is the best one, the height
  -- is the last period boundary that is the margin below its tip and lies above the finalized
  -- height, and the work built on the boundary is at least the work of the period before it.
  pub finalize_iff_Advanced :
      (s : Chain Header) (h : ℕ)
      → (finalize_in_txn s ≡ ok (some h, set_finalized s h)) ↔ Advanced s h
  finalize_iff_Advanced s h = (
    λ e. elim (finalize_in_txn-cases s (set_finalized s h) (some h) e) [
      | inl (none_set, _) ↦ cc none_set
      | inr (g, same, _, a) ↦ let h_g : h ≡ g = cc same in rw h_g a
    ],
    finalize_in_txn-Advanced s h,
  )
