-- ===== src/Btc/Store/Meta.antt =====
-- The tables, the metadata and its readers and writers.
use rsk.Prelude.{ℕ, ◌≡◌, Bool, true, Option, none, some, List, arith, ◌==◌, ◌↔◌}
use rsk.Prelude.Table.{Table, Key, get, insert, nat_key, pair_key}
use rsk.Bitcoin.{Bitcoin, Network}
use rsk.Rows.Meta.{Meta, u64, text, as_u64, as_text}
use rsk.Rows.Header.{BtcRow}
use rsk.Rows.Fork.{ForkMeta, reread}

-- The keys of the meta table.
pub data MetaKey : Type 0 where
  seed_height finalized_height best_fork_key next_fork network_key : MetaKey

abbrev pub key_code : MetaKey → ℕ
key_code seed_height = 0
key_code finalized_height = 1
key_code best_fork_key = 2
key_code next_fork = 3
key_code network_key = 4

abbrev pub key_beq : MetaKey → MetaKey → Bool
key_beq a b = key_code a == key_code b

pub key_beq_iff : (a b : MetaKey) → (key_beq a b ≡ true) ↔ (a ≡ b)
key_beq_iff a b = ground arith

instance abbrev pub meta_key : Key MetaKey
meta_key = record { beq = key_beq; beq_iff = key_beq_iff }

pub record Chain (Header : Type 0) : Type 0 where
  pub headers : Table (ℕ × ℕ) (BtcRow Header)
  pub hash_loc : Table ℕ (ℕ × ℕ)
  pub forks : Table ℕ ForkMeta
  pub checkpoints : Table ℕ Header
  pub meta : Table MetaKey Meta

-- `v.value().as_u64()` and `v.value().as_text()` of a row that may be missing.
abbrev pub number_of : Option Meta → Option ℕ
unfolding as_u64
number_of none = none
number_of (some value) = as_u64 value

abbrev pub text_of : Option Meta → Option (List ℕ)
unfolding as_text
text_of none = none
text_of (some value) = as_text value

-- `v.value()` of a row of the fork table that may be missing.
abbrev pub as_read : Option ForkMeta → Option ForkMeta
as_read none = none
as_read (some m) = some (reread m)

module _ {Header : Type 0} where
  unfoldable pub meta_u64 : Chain Header → MetaKey → Option ℕ
  unfolding as_u64
  meta_u64 txn key = number_of (get txn.meta key)

  unfoldable pub best_fork : Chain Header → Option ℕ
  unfolding meta_u64
  best_fork txn = meta_u64 txn best_fork_key

  unfoldable pub finalized : Chain Header → Option ℕ
  unfolding meta_u64
  finalized txn = meta_u64 txn finalized_height

  unfoldable pub fork_meta : Chain Header → ℕ → Option ForkMeta
  fork_meta txn fork_id = as_read (get txn.forks fork_id)

  unfoldable pub fork_tip : Chain Header → ℕ → Option (ℕ × ℕ)
  unfolding fork_meta
  fork_tip txn fork_id = elim (fork_meta txn fork_id) [
    | none ↦ none
    | some m ↦ some (m.tip_height, m.tip_hash)
  ]

  unfoldable pub locate : Chain Header → ℕ → Option (ℕ × ℕ)
  locate txn hash = get txn.hash_loc hash

  unfoldable pub set_best_fork : Chain Header → ℕ → Chain Header
  set_best_fork txn fork_id = record txn { meta = insert txn.meta best_fork_key (u64 fork_id) }

  unfoldable pub set_finalized : Chain Header → ℕ → Chain Header
  set_finalized txn height = record txn { meta = insert txn.meta finalized_height (u64 height) }

module _ {Header : Type 0} (lib : Bitcoin Header) where
  unfoldable pub network : Chain Header → Option Network
  unfolding as_text
  network txn = elim (text_of (get txn.meta network_key)) [
    | none ↦ none
    | some t ↦ lib.parse_network t
  ]

  unfoldable pub set_network : Chain Header → Network → Chain Header
  set_network txn n = record txn {
    meta = insert txn.meta network_key (text (lib.network_to_string n));
  }
