-- ===== src/Rows/Fork.antt =====
-- `ForkMeta` of crates/core/src/store/btc.rs: the metadata of one chain of the fork tree, in 120
-- bytes. The proofs are in the child modules.
pub mod Layout
pub mod RoundTrip
use rsk.Prelude.{
  ℕ, ◌+◌, ◌-◌, ◌*◌, ◌/◌, ◌%◌, ◌^◌, ◌<◌, ◌≢◌, Bool, Option, none, some, List, length, leb, ◌==◌,
  if◌then◌else◌, replicate, unwrap_or,
}
use rsk.Bytes.{to_be_bytes, from_be_bytes, slice, copy_at}

pub record ForkMeta : Type 0 where
  pub forkpoint : ℕ
  pub parent : Option ℕ
  pub forkpoint_hash : ℕ
  pub tip_height : ℕ
  pub tip_hash : ℕ
  pub tip_work : ℕ

-- `u64::MAX`
abbrev pub no_parent : ℕ
no_parent = 2 ^ 64 - 1

pub parent_of_word : ℕ → Option ℕ
parent_of_word p = if p == no_parent then none else some p

unfoldable pub from_bytes : List ℕ → Option ForkMeta
unfolding parent_of_word
from_bytes bytes =
    if leb 120 (length bytes)
    then some (record {
      forkpoint = from_be_bytes (slice 0 8 bytes);
      parent = parent_of_word (from_be_bytes (slice 8 16 bytes));
      forkpoint_hash = from_be_bytes (slice 16 48 bytes);
      tip_height = from_be_bytes (slice 48 56 bytes);
      tip_hash = from_be_bytes (slice 56 88 bytes);
      tip_work = from_be_bytes (slice 80 112 bytes);
    })
    else none

unfoldable pub as_bytes : ForkMeta → List ℕ
as_bytes m = copy_at 88 (to_be_bytes 32 m.tip_work) (
    copy_at 56 (to_be_bytes 32 m.tip_hash) (
      copy_at 48 (to_be_bytes 8 m.tip_height) (
        copy_at 16 (to_be_bytes 32 m.forkpoint_hash) (
          copy_at 8 (to_be_bytes 8 (unwrap_or m.parent no_parent))
            (copy_at 0 (to_be_bytes 8 m.forkpoint) (replicate 120 0))))))

-- The fields fit their widths, and the parent is not the sentinel.
pub record IsStorable (m : ForkMeta) : Type 0 where
  pub forkpoint_lt : m.forkpoint < 2 ^ 64
  pub parent_lt : unwrap_or m.parent no_parent < 2 ^ 64
  pub parent_ne : m.parent ≢ some no_parent
  pub forkpoint_hash_lt : m.forkpoint_hash < 2 ^ 256
  pub tip_height_lt : m.tip_height < 2 ^ 64
  pub tip_hash_lt : m.tip_hash < 2 ^ 256
  pub tip_work_lt : m.tip_work < 2 ^ 256

-- What a fork record reads as after it was written to the table (`RoundTrip`).
abbrev pub reread : ForkMeta → ForkMeta
reread m = record m { tip_work = m.tip_hash % 2 ^ 64 * 2 ^ 192 + m.tip_work / 2 ^ 64 }
