-- ===== src/Rsk/Forest.antt =====
-- The Rootstock tables of crates/core/src/store/rsk.rs, and the methods that read and write them.
use rsk.Prelude.{
  ℕ, Bool, Option, List, [], ◌∷◌, ◌++◌, map, ◌==◌, ltb, if◌then◌else◌, unwrap_or, is_some,
  saturating_add_u256,
}
use rsk.Prelude.Table.{Table, get, insert, nat_key}
use rsk.Rows.Block.{RskBlock}
use rsk.Rsk.Consensus.{Rootstock}

pub record RskUncle (RskHeader : Type 0) : Type 0 where
  pub header : RskHeader
  pub raw : List ℕ

pub record RskEntry (RskHeader : Type 0) : Type 0 where
  pub header : RskHeader
  pub raw : List ℕ
  pub uncles : List (RskUncle RskHeader)

-- The tables. The roots are a set; redb yields its keys in order.
pub record Forest : Type 0 where
  pub headers : Table ℕ (List ℕ)
  pub blocks : Table ℕ RskBlock
  pub children : Table ℕ (List ℕ)
  pub uncles : Table ℕ (List (List ℕ))
  pub roots : List ℕ

unfoldable pub rsk_raw_header : Forest → ℕ → Option (List ℕ)
rsk_raw_header txn hash = get txn.headers hash

unfoldable pub rsk_block : Forest → ℕ → Option RskBlock
rsk_block txn hash = get txn.blocks hash

unfoldable pub rsk_has_block : Forest → ℕ → Bool
rsk_has_block txn hash = is_some (rsk_block txn hash)

unfoldable pub rsk_children : Forest → ℕ → List ℕ
rsk_children txn hash = unwrap_or (get txn.children hash) []

unfoldable pub rsk_uncle_raw : Forest → ℕ → List (List ℕ)
rsk_uncle_raw txn hash = unwrap_or (get txn.uncles hash) []

unfoldable pub rsk_put_block : Forest → ℕ → List ℕ → RskBlock → Forest
rsk_put_block txn hash raw block = record txn {
  headers = insert txn.headers hash raw;
  blocks = insert txn.blocks hash block;
}

unfoldable pub rsk_put_uncles : Forest → ℕ → List (List ℕ) → Forest
rsk_put_uncles txn hash raws = record txn { uncles = insert txn.uncles hash raws }

-- The child is added each time, also where it is a child already.
unfoldable pub rsk_add_child : Forest → ℕ → ℕ → Forest
rsk_add_child txn parent child = record txn {
  children = insert txn.children parent (rsk_children txn parent ++ child ∷ []);
}

abbrev pub insert_sorted : ℕ → List ℕ → List ℕ
insert_sorted x [] = x ∷ []
insert_sorted x (y ∷ ys) =
    let rest = insert_sorted x ys in
    if x == y then y ∷ ys else if ltb x y then x ∷ y ∷ ys else y ∷ rest

unfoldable pub rsk_put_root : Forest → ℕ → Forest
rsk_put_root txn hash = record txn { roots = insert_sorted hash txn.roots }

module _ {RskHeader : Type 0} (rules : Rootstock RskHeader) where
  unfoldable pub add_uncles : ℕ → List (RskUncle RskHeader) → ℕ
  add_uncles work [] = work
  add_uncles work (u ∷ us) = add_uncles (saturating_add_u256 work (rules.difficulty u.header)) us

  -- The block's own contribution to the work of its tree.
  unfoldable pub cumulative_difficulty : RskEntry RskHeader → ℕ
  cumulative_difficulty entry = add_uncles (rules.difficulty entry.header) entry.uncles

  -- The header, its uncles, and the edge from its parent, if that is stored.
  unfoldable pub rsk_put_entry : Forest → RskEntry RskHeader → ℕ × Forest
  rsk_put_entry txn entry =
      let hash = rules.hash entry.header in
      let parent = rules.parent_hash entry.header in
      let block : RskBlock = record {
        number = rules.number entry.header;
        parent = parent;
        cumulative_difficulty = cumulative_difficulty entry;
      } in
      let stored =
        rsk_put_uncles (rsk_put_block txn hash entry.raw block) hash
          (map (λ u. u.raw) entry.uncles) in
      (hash, if rsk_has_block stored parent then rsk_add_child stored parent hash else stored)
