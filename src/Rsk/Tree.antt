-- ===== src/Rsk/Tree.antt =====
-- The Rootstock tree on the core, crates/core/src/rsk.rs: proposing a checkpoint, connecting
-- headers, and the attempt to establish a checkpoint.
pub mod Attempt
pub mod Stored
pub mod Accepted
pub mod Grows
use rsk.Prelude.{
  ℕ, ◌+◌, Bool, true, false, not, Option, none, some, List, [], ◌∷◌, ◌++◌, map, ◌==◌, ltb, length,
  if◌then◌else◌, unwrap_or,
}
use rsk.Bitcoin.{Bitcoin}
use rsk.Result.{Result, Check, ok, err, guard, unseeded, rootstock, ◌>>=◌, ◌>>◌}
use rsk.Rows.Block.{RskBlock}
use rsk.Btc.Store.Meta.{Chain, finalized}
use rsk.Btc.Query.{tip_height, btc_tail_work}
use rsk.Rsk.Consensus.{Rootstock}
use rsk.Rsk.Forest.{
  Forest, RskEntry, RskUncle, rsk_block, rsk_raw_header, rsk_uncle_raw, rsk_put_entry, rsk_put_root,
}
use rsk.Rsk.Ghost.{rsk_subtree_work}
use rsk.Rsk.Checkpoint.{in_tail, clears_threshold, anchor_height}

pub record EphemeralChainCheckpoint : Type 0 where
  pub hash : ℕ
  pub number : ℕ
  pub work : ℕ
  pub btc_tail_work : ℕ
  pub tail_start : ℕ

pub record RskConnectOutcome : Type 0 where
  pub connected : ℕ
  pub checkpoint : Option EphemeralChainCheckpoint

-- `best.is_none_or(|b| candidate.work > b.work)`: an earlier root of the same work stays.
abbrev pub heavier :
    Option EphemeralChainCheckpoint → EphemeralChainCheckpoint → EphemeralChainCheckpoint
heavier none candidate = candidate
heavier (some b) candidate = if ltb b.work candidate.work then candidate else b

module _ (txn : Forest) (start tail_work : ℕ) where
  -- What a root adds to the best checkpoint so far.
  unfoldable pub consider : Option EphemeralChainCheckpoint → ℕ → Option EphemeralChainCheckpoint
  consider best root =
      let work = rsk_subtree_work txn root in
      if clears_threshold work tail_work
      then elim (rsk_block txn root) [
        | none ↦ best
        | some block ↦ some (
            heavier best (record {
              hash = root;
              number = block.number;
              work = work;
              btc_tail_work = tail_work;
              tail_start = start;
            }))
      ]
      else best

  unfoldable pub attempt_over :
      Option EphemeralChainCheckpoint → List ℕ → Option EphemeralChainCheckpoint
  unfolding consider
  attempt_over best [] = best
  attempt_over best (root ∷ roots) = attempt_over (consider best root) roots

  unfoldable pub attempt_checkpoint : Option EphemeralChainCheckpoint
  attempt_checkpoint = attempt_over none txn.roots

module _ {RskHeader : Type 0} (rules : Rootstock RskHeader) where
  abbrev pub raws : List (RskUncle RskHeader) → List ℕ
  raws [] = []
  raws (u ∷ us) = u.raw ++ raws us

  unfoldable pub encoded_uncles : List (RskUncle RskHeader) → List ℕ
  encoded_uncles uncles = rules.encoded_list (length (raws uncles)) ++ raws uncles

  abbrev decode_header : Option (List ℕ) → Option RskHeader
  decode_header none = none
  decode_header (some raw) = rules.decode_with_hash raw

  abbrev pub decode_all : List (List ℕ) → List RskHeader
  decode_all [] = []
  decode_all (raw ∷ rest) = elim (rules.decode_with_hash raw) [
    | none ↦ decode_all rest
    | some h ↦ h ∷ decode_all rest
  ]

  -- `TxnAncestors`: the ancestry that the uncle rule walks.
  unfoldable pub ancestor_header : Forest → ℕ → Option RskHeader
  ancestor_header txn hash = decode_header (rsk_raw_header txn hash)

  unfoldable pub ancestor_uncles : Forest → ℕ → List RskHeader
  ancestor_uncles txn hash = decode_all (rsk_uncle_raw txn hash)

  -- `UnclesValidationRule`, where there are uncles.
  unfoldable pub uncle_rule : Forest → RskHeader → List (RskUncle RskHeader) → Bool
  uncle_rule txn header [] = true
  uncle_rule txn header (u ∷ us) =
      rules.uncles_valid (ancestor_header txn) (ancestor_uncles txn) header
        (map (λ u. u.header) (u ∷ us))

  unfoldable pub validate_entry : Forest → RskEntry RskHeader → Check
  validate_entry txn entry = do
    guard (length entry.uncles == rules.uncle_count entry.header) rootstock
    guard (rules.keccak256 (encoded_uncles entry.uncles) == rules.ommers_hash entry.header)
        rootstock
    guard (rules.verify entry.header (ancestor_header txn (rules.parent_hash entry.header)))
        rootstock
    guard (uncle_rule txn entry.header entry.uncles) rootstock

  -- The loop over the entries: each is validated against what is stored before it.
  unfoldable pub store_entries : Forest → List (RskEntry RskHeader) → Result Forest
  store_entries txn [] = ok txn
  store_entries txn (entry ∷ entries) =
      let rest = store_entries (rsk_put_entry rules txn entry).1 entries in
      validate_entry txn entry >> rest

module _ {Header : Type 0} {RskHeader : Type 0} (lib : Bitcoin Header) (rules : Rootstock RskHeader)
    (btc : Chain Header) where
  -- The start of the Bitcoin tail and its work.
  unfoldable pub checkpoint_tail : Option (ℕ × ℕ)
  checkpoint_tail = elim (finalized btc) [
    | none ↦ none
    | some start ↦ elim (btc_tail_work btc start) [ none ↦ none | some work ↦ some (start, work) ]
  ]

  -- The tail is read before the entries are stored.
  unfoldable pub connect_rsk_headers :
      Forest → List (RskEntry RskHeader) → Result (RskConnectOutcome × Forest)
  connect_rsk_headers txn entries = do
    stored ← store_entries rules txn entries
    ok (
      record {
        connected = length entries;
        checkpoint = elim checkpoint_tail [
          | none ↦ none
          | some (start, work) ↦ attempt_checkpoint stored start work
        ];
      },
      stored,
    )

  abbrev put_root : ℕ × Forest → ℕ × Forest
  put_root (hash, stored) = (hash, rsk_put_root stored hash)

  unfoldable pub propose_checkpoint : Forest → RskEntry RskHeader → Result (ℕ × Forest)
  propose_checkpoint txn entry = elim (tip_height btc) [
    | none ↦ err unseeded
    | some tip ↦ elim (anchor_height lib rules btc entry.header) [
      | none ↦ err rootstock
      | some anchor ↦
          if in_tail anchor (unwrap_or (finalized btc) 0) tip
          then ok (put_root (rsk_put_entry rules txn entry))
          else err rootstock
    ]
  ]
