-- ===== src/Node/Report.antt =====
-- The end of a run and its report, of crates/rsk/src/sync.rs. Log lines and the clock are left out.
use rsk.Prelude.{
  ℕ, ◌-◌, ◌*◌, ◌/◌, Bool, true, false, not, ◌&&◌, ◌||◌, Option, none, some, List, [], ◌∷◌, ◌==◌,
  ltb, leb, unwrap_or, if◌then◌else◌,
}
use rsk.Bitcoin.{Bitcoin}
use rsk.Result
use rsk.Result.{Result}
use rsk.Btc.Validation.{difficulty_period}
use rsk.Btc.Store.Meta.{Chain, best_fork, finalized}
use rsk.Btc.Query.{tip_height, chainwork, canonical_header_at}
use rsk.P2p.Message
use rsk.P2p.Message.{Session, Reply, ok, err}

-- Why a run fails.
pub data Failure : Type 0 where
  no_peer all_dropped no_chainwork no_tip : Failure
  below_peer_height work_not_increased no_genesis genesis_changed fork_won finality_lagged : Failure
  from_peer : Message.Error → Failure
  from_core : Result.Error → Failure

-- The running totals.
pub record Stats : Type 0 where
  pub total : ℕ
  pub batches : ℕ
  pub works : List ℕ
  pub peer_height : ℕ

pub record SyncReport : Type 0 where
  pub headers : ℕ
  pub batches : ℕ
  pub tip : ℕ
  pub finalized : ℕ
  pub chainwork : ℕ
  pub peer_height : ℕ

pub data Ended : Type 0 where
  failed : Failure → Ended
  caught_up : SyncReport → Ended

-- The works of the batches grew strictly: `windows(2)`.
unfoldable pub increasing : List ℕ → Bool
increasing [] = true
increasing (w ∷ []) = true
increasing (w ∷ v ∷ ws) = ltb w v && increasing (v ∷ ws)

-- The floor that the finalized height must reach once there are two periods.
unfoldable pub finality_floor : ℕ → ℕ
finality_floor tip =
    (tip - difficulty_period) / difficulty_period * difficulty_period - 2 * difficulty_period

-- `ensure!`
abbrev pub ensure : Bool → Failure → Ended → Ended
ensure passed failure next = if passed then next else failed failure

abbrev pub is_root : Option ℕ → Bool
is_root none = false
is_root (some f) = f == 0

module _ {Header : Type 0} (lib : Bitcoin Header) (genesis : Header) where
  abbrev pub genesis_kept : Option Header → Ended → Ended
  genesis_kept none next = failed no_genesis
  genesis_kept (some h) next =
      ensure (lib.block_hash h == lib.block_hash genesis) genesis_changed next

  -- The checks from the cumulative work on.
  abbrev pub report_on : Chain Header → Stats → ℕ → Option ℕ → Ended
  report_on core stats tip none = failed no_chainwork
  report_on core stats tip (some work) =
      let final = unwrap_or (finalized core) 0 in
      genesis_kept (canonical_header_at core 0) (
        ensure (is_root (best_fork core)) fork_won (
          ensure (not (ltb (2 * difficulty_period) tip) || leb (finality_floor tip) final)
            finality_lagged
            (caught_up (record {
              headers = stats.total;
              batches = stats.batches;
              tip = tip;
              finalized = final;
              chainwork = work;
              peer_height = stats.peer_height;
            }))))

  abbrev pub report_at : Chain Header → Stats → Option ℕ → Ended
  report_at core stats none = failed no_tip
  report_at core stats (some tip) =
      ensure (stats.peer_height == 0 || leb stats.peer_height tip) below_peer_height (
        ensure (increasing stats.works) work_not_increased
          (report_on core stats tip (chainwork core)))

  unfoldable pub report : Chain Header → Stats → Ended
  unfolding increasing finality_floor
  report core stats = report_at core stats (tip_height core)
