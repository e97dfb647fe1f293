-- ===== src/Node/Run/Report.antt =====
-- What a report of a completed sync promises.
use rsk.Prelude.{
  ℕ, zero, suc, ◌+◌, ◌-◌, ◌/◌, ◌*◌, inl, inr, Bool-cases, ◌≤◌, ◌<◌, ◌≡◌, ◌↔◌, refl, Bool, true,
  false, not, ◌||◌, ◌==◌, ltb, leb, Option, none, some, List, [], ◌∷◌, get_elem?, unwrap_or, arith,
}
use rsk.Bitcoin.{Bitcoin}
use rsk.Btc.Validation.{difficulty_period}
use rsk.Btc.Store.Meta.{Chain, best_fork, finalized}
use rsk.Btc.Query.{tip_height, chainwork, canonical_header_at}
use rsk.Node.Report.{
  Ended, caught_up, Failure, Stats, SyncReport, increasing, finality_floor, ensure, genesis_kept,
  is_root, report_on, report_at, report,
}

-- Each work is above the one before it.
abbrev pub Rises : List ℕ → Type 0
Rises works = (i v w : ℕ) → get_elem? works i ≡ some v → get_elem? works (suc i) ≡ some w → v < w

increasing-Rises : (works : List ℕ) → increasing works ≡ true → Rises works
unfolding increasing
increasing-Rises [] up i v w e e' = cc e
increasing-Rises (x ∷ []) up i v w e e' = cc e'
increasing-Rises (x ∷ y ∷ works) up zero v w e e' = ground arith
increasing-Rises (x ∷ y ∷ works) up (suc i) v w e e' =
    increasing-Rises (y ∷ works) (ground arith) i v w e e'

Rises-increasing : (works : List ℕ) → Rises works → increasing works ≡ true
unfolding increasing
Rises-increasing [] rises = refl
Rises-increasing (x ∷ []) rises = refl
Rises-increasing (x ∷ y ∷ works) rises =
    let more = Rises-increasing (y ∷ works) (λ i v w e e'. rises (suc i) v w e e') in
    let above = rises 0 x y refl refl in ground arith

-- No period boundary that has a period of blocks above it is more than two periods above the
-- finalized height.
abbrev pub IsNear : ℕ → ℕ → Type 0
IsNear tip final =
    (k : ℕ)
    → k * difficulty_period + difficulty_period ≤ tip
    → k * difficulty_period ≤ final + 2 * difficulty_period

finality_floor-IsNear : (tip final : ℕ) → finality_floor tip ≤ final → IsNear tip final
unfolding finality_floor
finality_floor-IsNear tip final le k has_period = omega arith

IsNear-finality_floor :
    (tip final : ℕ) → 2 * difficulty_period < tip → IsNear tip final → finality_floor tip ≤ final
unfolding finality_floor
IsNear-finality_floor tip final long near =
    let newest = near ((tip - difficulty_period) / difficulty_period) (omega arith) in omega arith

ensure-eq-caught_up :
    (passed : Bool) (failure : Failure) (next : Ended) (r : SyncReport)
    → ensure passed failure next ≡ caught_up r
    → (passed ≡ true) × (next ≡ caught_up r)
ensure-eq-caught_up true failure next r e = (refl, e)
ensure-eq-caught_up false failure next r e = cc e

floor_passed :
    (tip floor final : ℕ)
    → (not (ltb (2 * difficulty_period) tip) || leb floor final) ≡ true
    → 2 * difficulty_period < tip
    → floor ≤ final
floor_passed tip floor final e far = ground arith

passed_floor :
    (tip floor final : ℕ)
    → (2 * difficulty_period < tip → floor ≤ final)
    → (not (ltb (2 * difficulty_period) tip) || leb floor final) ≡ true
passed_floor tip floor final near = elim (Bool-cases (ltb (2 * difficulty_period) tip)) [
  | inl far ↦ let le = near (ground arith) in ground arith
  | inr close ↦ ground arith
]

module _ {Header : Type 0} (lib : Bitcoin Header) (genesis : Header) where
  -- What holds of the chain and the totals where a sync is reported.
  pub record IsComplete (core : Chain Header) (stats : Stats) (r : SyncReport) : Type 0 where
    pub has_tip : tip_height core ≡ some r.tip
    pub reached : stats.peer_height ≤ r.tip
    pub rises : Rises stats.works
    pub has_work : chainwork core ≡ some r.chainwork
    pub kept :
        (h : Header) × (canonical_header_at core 0 ≡ some h)
        × (lib.block_hash h ≡ lib.block_hash genesis)
    pub root_best : best_fork core ≡ some 0
    pub finalized_is : unwrap_or (finalized core) 0 ≡ r.finalized
    pub near_tip : 2 * difficulty_period < r.tip → IsNear r.tip r.finalized
    pub total_is : stats.total ≡ r.headers
    pub batches_is : stats.batches ≡ r.batches
    pub peer_height_is : stats.peer_height ≡ r.peer_height

  genesis_kept-eq-caught_up :
      (o : Option Header) (next : Ended) (r : SyncReport)
      → genesis_kept lib genesis o next ≡ caught_up r
      → ((h : Header) × (o ≡ some h) × (lib.block_hash h ≡ lib.block_hash genesis))
        × (next ≡ caught_up r)
  genesis_kept-eq-caught_up none next r e = cc e
  genesis_kept-eq-caught_up (some h) next r e =
      let (same, rest) = ensure-eq-caught_up _ _ next r e in ((h, refl, ground arith), rest)

  is_root-eq : (o : Option ℕ) → is_root o ≡ true → o ≡ some 0
  is_root-eq none e = cc e
  is_root-eq (some f) e = ground arith

  report_on-IsComplete :
      (core : Chain Header) (stats : Stats) (r : SyncReport) (tip : ℕ) (work : Option ℕ)
      → tip_height core ≡ some tip
      → stats.peer_height ≤ tip
      → Rises stats.works
      → chainwork core ≡ work
      → report_on lib genesis core stats tip work ≡ caught_up r
      → IsComplete core stats r
  report_on-IsComplete core stats r tip none is reached rises has e = cc e
  report_on-IsComplete core stats r tip (some work) is reached rises has e =
      let final = unwrap_or (finalized core) 0 in
      let (kept, e₁) = genesis_kept-eq-caught_up (canonical_header_at core 0) _ r e in
      let (root, e₂) = ensure-eq-caught_up (is_root (best_fork core)) _ _ r e₁ in
      let (near, e₃) =
        ensure-eq-caught_up
          (not (ltb (2 * difficulty_period) tip) || leb (finality_floor tip) final) _ _ r e₂ in
      let made : SyncReport = record {
        headers = stats.total;
        batches = stats.batches;
        tip = tip;
        finalized = final;
        chainwork = work;
        peer_height = stats.peer_height;
      } in
      let r_is : made ≡ r = cc e₃ in
      rw (← r_is) (record {
        has_tip = is;
        reached = reached;
        rises = rises;
        has_work = has;
        kept = kept;
        root_best = is_root-eq (best_fork core) root;
        finalized_is = refl;
        near_tip = λ far. finality_floor-IsNear tip final (floor_passed tip _ final near far);
        total_is = refl;
        batches_is = refl;
        peer_height_is = refl;
      })

  report_at-IsComplete :
      (core : Chain Header) (stats : Stats) (r : SyncReport) (tip : Option ℕ)
      → tip_height core ≡ tip
      → report_at lib genesis core stats tip ≡ caught_up r
      → IsComplete core stats r
  report_at-IsComplete core stats r none is e = cc e
  report_at-IsComplete core stats r (some tip) is e =
      let (reached, e₁) =
        ensure-eq-caught_up (stats.peer_height == 0 || leb stats.peer_height tip) _ _ r e in
      let (rises, e₂) = ensure-eq-caught_up (increasing stats.works) _ _ r e₁ in
      report_on-IsComplete core stats r tip (chainwork core) is (ground arith)
        (increasing-Rises stats.works rises) refl e₂

  IsComplete-report_on :
      (core : Chain Header) (stats : Stats) (r : SyncReport)
      → IsComplete core stats r
      → report_on lib genesis core stats r.tip (some r.chainwork) ≡ caught_up r
  IsComplete-report_on core stats r c =
      let (h, there, same) = c.kept in
      let genesis_same : (lib.block_hash h == lib.block_hash genesis) ≡ true = ground arith in
      let low = IsNear-finality_floor r.tip r.finalized in
      let near : (not (ltb (2 * difficulty_period) r.tip) || leb (finality_floor r.tip) r.finalized)
          ≡ true =
        passed_floor _ _ _ (λ far. low far (c.near_tip far)) in
      rw
        (
          there, genesis_same, c.root_best, c.finalized_is, near, c.total_is, c.batches_is,
          c.peer_height_is,
        )
        refl

  -- A sync is reported exactly if the tip has reached the height that the peers told, the work of
  -- the chain rose with each batch, genesis is in its place, the root chain is the best one, and,
  -- with a tip above two periods, no period boundary that has a period of blocks above it is more
  -- than two periods above the finalized height; the report then says the totals and what the chain
  -- has.
  pub report_iff_IsComplete :
      (core : Chain Header) (stats : Stats) (r : SyncReport)
      → (report lib genesis core stats ≡ caught_up r) ↔ IsComplete core stats r
  unfolding report
  report_iff_IsComplete core stats r = (
    report_at-IsComplete core stats r (tip_height core) refl,
    λ c.
        let reached : (stats.peer_height == 0 || leb stats.peer_height r.tip) ≡ true =
          ground (arith, c.reached) in
        let rises = Rises-increasing stats.works c.rises in
        rw (c.has_tip, reached, rises, c.has_work) (IsComplete-report_on core stats r c),
  )
