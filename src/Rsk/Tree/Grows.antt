-- ===== src/Rsk/Tree/Grows.antt =====
-- What a stored entry adds to the trees.
use rsk.Prelude.{ℕ, map}
use rsk.Prelude.Table.{nat_key}
use rsk.Rows.Block.{RskBlock}
use rsk.Rsk.Consensus.{Rootstock}
use rsk.Rsk.Forest.{
  Forest, RskEntry, cumulative_difficulty, rsk_put_entry, rsk_put_block, rsk_put_uncles,
}

module _ {RskHeader : Type 0} (rules : Rootstock RskHeader) (txn : Forest)
    (entry : RskEntry RskHeader) where
  abbrev pub hash : ℕ
  hash = rules.hash entry.header

  abbrev pub parent : ℕ
  parent = rules.parent_hash entry.header

  abbrev pub after : Forest
  after = (rsk_put_entry rules txn entry).1

  abbrev pub block : RskBlock
  block = record {
    number = rules.number entry.header;
    parent = parent;
    cumulative_difficulty = cumulative_difficulty rules entry;
  }

  abbrev stored : Forest
  stored =
      rsk_put_uncles (rsk_put_block txn hash entry.raw block) hash (map (λ u. u.raw) entry.uncles)
