-- ===== src/Btc/Connect.antt =====
-- `Core::connect_headers` of crates/core/src/btc.rs, in the steps of its body: the checks before a
-- run, the choice of the target chain, the validation of the run, its cumulative work, the choice
-- of the best chain, and the checkpoint rule.
pub mod Run
pub mod Finalize
pub mod Stored
pub mod Inversion
pub mod Effect
pub mod Placed
pub mod Grown
pub mod Select
pub mod Sound
pub mod Written
pub mod Behind
pub mod Joined
pub mod Rows
pub mod Linked
pub mod Append
pub mod Floor
pub mod Settled
pub mod Succeeds
use rsk.Prelude.{
  ℕ, zero, suc, ◌+◌, ◌-◌, ◌<◌, Bool, true, false, not, ◌&&◌, Option, none, some, List, [], ◌∷◌,
  ◌==◌, leb, ltb, if◌then◌else◌, add_u64, u64_mod, ◌%◌, add_u256, unwrap_or, is_some, length, drop,
  get_elem?,
}
use rsk.Bitcoin.{Bitcoin, Network, network_beq}
use rsk.Result.{
  Result, Check, ok, err, guard, unknown_ancestor, fork_below_finalized, network_mismatch, internal,
  ◌>>=◌, ◌>>◌,
}
use rsk.Btc.Store.Meta.{Chain, best_fork, finalized, fork_tip, locate, set_best_fork, network}
use rsk.Btc.Store.Walk.{work_at, header_at, fork_chainwork}
use rsk.Btc.Store.Put.{Entry, create_fork, put_headers}
use rsk.Btc.Connect.Run.{validate_run}
use rsk.Btc.Connect.Finalize.{finalize_in_txn}

pub record ConnectOutcome : Type 0 where
  pub connected : ℕ
  pub prev_best_fork : Option ℕ
  pub best_fork : Option ℕ
  pub tip_height : ℕ
  pub finalized : Option ℕ

-- The chain that a run joins, the height of its first header, and the transaction, with a new fork
-- where the run starts one.
pub record Target (Header : Type 0) : Type 0 where
  pub fork : ℕ
  pub forkpoint : ℕ
  pub txn : Chain Header

module _ {Header : Type 0} where
  -- `fork_tip(f)?.unwrap_or((0, all_zeros)).0`
  unfoldable pub tip_of : Chain Header → ℕ → ℕ
  unfolding fork_tip
  tip_of txn f = (unwrap_or (fork_tip txn f) (0, 0)).0

  -- The outcome of a call that has nothing new to store.
  unfoldable pub nothing_new : Chain Header → ConnectOutcome
  nothing_new txn = record {
    connected = 0;
    prev_best_fork = best_fork txn;
    best_fork = best_fork txn;
    tip_height = elim (best_fork txn) [ none ↦ 0 | some f ↦ tip_of txn f ];
    finalized = none;
  }

  -- The forkpoint lies above the finalized checkpoint, if there is one.
  unfoldable pub above_finalized : Chain Header → ℕ → Bool
  unfolding finalized
  above_finalized txn forkpoint = elim (finalized txn) [
    | none ↦ true
    | some height ↦ ltb height forkpoint
  ]

  -- A run extends the chain whose tip is the parent, or starts a new fork behind the parent.
  unfoldable pub choose_target : Chain Header → ℕ → ℕ → ℕ → Result (Target Header)
  choose_target txn parent_fork parent_height first_hash =
      let forkpoint = add_u64 parent_height 1 in
      if parent_height == tip_of txn parent_fork
      then ok (record { fork = parent_fork; forkpoint = forkpoint; txn = txn })
      else do
        guard (above_finalized txn forkpoint)
            (fork_below_finalized forkpoint (unwrap_or (finalized txn) 0))
        let (id, txn') = create_fork txn parent_fork forkpoint first_hash
        ok (record { fork = id; forkpoint = forkpoint; txn = txn' })

  -- The best chain is `target` only if it is strictly heavier than the best one so far.
  unfoldable pub select_best : Chain Header → ℕ → ℕ × Chain Header
  select_best txn target =
      let best = unwrap_or (best_fork txn) 0 in
      let best_work = unwrap_or (fork_chainwork txn best) 0 in
      let target_work = unwrap_or (fork_chainwork txn target) 0 in
      if not (target == best) && ltb best_work target_work
      then (target, set_best_fork txn target)
      else (best, txn)

module _ {Header : Type 0} (lib : Bitcoin Header) where
  -- How many headers at the front are stored already.
  unfoldable pub known_prefix : Chain Header → List Header → ℕ
  known_prefix txn [] = 0
  known_prefix txn (h ∷ hs) =
      let rest = known_prefix txn hs in
      if is_some (locate txn (lib.block_hash h)) then rest + 1 else 0

  -- The parent of the first new header: what it names, or the last stored header of the batch.
  unfoldable pub parent_hash : List Header → ℕ → Header → ℕ
  parent_hash headers zero first = lib.prev_blockhash first
  parent_hash headers (suc k) first = elim (get_elem? headers k) [
    | none ↦ lib.prev_blockhash first
    | some h ↦ lib.block_hash h
  ]

  -- The entries of a run from a height on, with the work summed up from `cumulative`.
  unfoldable pub entries_of : ℕ → ℕ → List Header → List (Entry Header)
  entries_of height cumulative [] = []
  entries_of height cumulative (h ∷ hs) =
      let cumulative' = add_u256 cumulative (lib.work h) in
      record { height = height; header = h; work = cumulative' }
      ∷ entries_of (add_u64 height 1) cumulative' hs

  -- Once the run is valid and the work below it known: the headers are put, the best chain is
  -- selected and the checkpoint rule applied.
  unfoldable pub store_run :
      Chain Header → Target Header → ℕ → List Header → Result (ConnectOutcome × Chain Header)
  store_run txn target base run = do
    stored ← put_headers lib target.txn target.fork (entries_of target.forkpoint base run)
    let (best, chosen) = select_best stored target.fork
    (advanced, final) ← finalize_in_txn chosen
    ok (
      record {
        connected = length run;
        prev_best_fork = best_fork txn;
        best_fork = some best;
        tip_height = elim (best_fork txn) [
          | none ↦ (add_u64 target.forkpoint (length run) + u64_mod - 1) % u64_mod
          | some _ ↦ tip_of chosen best
        ];
        finalized = advanced;
      },
      final,
    )

  abbrev required_work : Option ℕ → Result ℕ
  required_work none = err internal
  required_work (some work) = ok work

  -- The run behind its located parent.
  unfoldable pub connect_behind :
      Network
      → Chain Header
      → ℕ
      → ℕ
      → ℕ
      → Header
      → List Header
      → Result (ConnectOutcome × Chain Header)
  connect_behind net txn parent parent_fork parent_height first rest = do
    target ← choose_target txn parent_fork parent_height (lib.block_hash first)
    validate_run lib net (header_at target.txn target.fork) (first ∷ rest) target.forkpoint
        target.forkpoint parent (first ∷ rest)
    base ← required_work (work_at target.txn parent_fork parent_height)
    store_run txn target base (first ∷ rest)

  -- From the first new header on: its parent must be a known block.
  unfoldable pub connect_run :
      Network → Chain Header → ℕ → Header → List Header → Result (ConnectOutcome × Chain Header)
  connect_run net txn parent first rest = elim (locate txn parent) [
    | none ↦ err (unknown_ancestor parent)
    | some (parent_fork, parent_height) ↦
        connect_behind net txn parent parent_fork parent_height first rest
  ]

  -- The network that the store was seeded for, if any, is the one that is validated against.
  unfoldable pub network_ok : Network → Chain Header → Check
  network_ok net txn = elim (network lib txn) [
    | none ↦ ok tt
    | some seeded ↦ guard (network_beq seeded net) (network_mismatch seeded net)
  ]

  abbrev pub connect_new :
      Network
      → Chain Header
      → List Header
      → ℕ
      → List Header
      → Result (ConnectOutcome × Chain Header)
  connect_new net txn headers start [] = ok (nothing_new txn, txn)
  connect_new net txn headers start (first ∷ rest) =
      connect_run net txn (parent_hash headers start first) first rest

  -- An `ok` that stored nothing leaves the transaction as it found it, which the source drops.
  unfoldable pub connect_headers :
      Network → Chain Header → List Header → Result (ConnectOutcome × Chain Header)
  connect_headers net txn headers = do
    network_ok net txn
    let start = known_prefix txn headers
    connect_new net txn headers start (drop start headers)
