-- ===== src/Rows/Block.antt =====
-- `RskBlock` of crates/core/src/store/rsk.rs: number, parent and own work of a block, in 72 bytes.
use rsk.Prelude.{
  ℕ, ◌^◌, ◌<◌, ◌≡◌, refl, ◌∙◌, Option, none, some, List, arith, length, leb, if◌then◌else◌,
  replicate,
}
use rsk.Bytes.{to_be_bytes, from_be_bytes, slice, copy_at}
use rsk.Bytes.BigEndian.{length-to_be_bytes, from_be_bytes-to_be_bytes}
use rsk.Bytes.Slices.{length-copy_at, slice-copy_at_self, slice-copy_at_before}

pub record RskBlock : Type 0 where
  pub number : ℕ
  pub parent : ℕ
  pub cumulative_difficulty : ℕ

unfoldable pub from_bytes : List ℕ → Option RskBlock
from_bytes bytes =
    if leb 72 (length bytes)
    then some (record {
      number = from_be_bytes (slice 0 8 bytes);
      parent = from_be_bytes (slice 8 40 bytes);
      cumulative_difficulty = from_be_bytes (slice 40 72 bytes);
    })
    else none

unfoldable pub as_bytes : RskBlock → List ℕ
as_bytes b =
    copy_at 40 (to_be_bytes 32 b.cumulative_difficulty)
      (copy_at 8 (to_be_bytes 32 b.parent) (copy_at 0 (to_be_bytes 8 b.number) (replicate 72 0)))

pub record IsStorable (b : RskBlock) : Type 0 where
  pub number_lt : b.number < 2 ^ 64
  pub parent_lt : b.parent < 2 ^ 256
  pub cumulative_difficulty_lt : b.cumulative_difficulty < 2 ^ 256

-- A block record whose fields fit their widths decodes from its 72 bytes to itself.
pub block_from_bytes-as_bytes : (b : RskBlock) → IsStorable b → from_bytes (as_bytes b) ≡ some b
unfolding from_bytes as_bytes
block_from_bytes-as_bytes b h =
    let n = to_be_bytes 8 b.number in
    let p = to_be_bytes 32 b.parent in
    let d = to_be_bytes 32 b.cumulative_difficulty in
    let b₁ = copy_at 0 n (replicate 72 0) in
    let b₂ = copy_at 8 p b₁ in
    let l₁ : length b₁ ≡ 72 = length-copy_at 0 n (replicate 72 0) in
    let l₂ : length b₂ ≡ 72 = length-copy_at 8 p b₁ ∙ l₁ in
    let l₃ : length (copy_at 40 d b₂) ≡ 72 = length-copy_at 40 d b₂ ∙ l₂ in
    let s₁ : slice 0 8 (copy_at 40 d b₂) ≡ n =
      slice-copy_at_before 0 8 40 d b₂ (omega arith) (omega arith)
      ∙ slice-copy_at_before 0 8 8 p b₁ (omega arith) (omega arith)
      ∙ slice-copy_at_self 0 8 n (replicate 72 0) (length-to_be_bytes 8 b.number) (omega arith) in
    let s₂ : slice 8 40 (copy_at 40 d b₂) ≡ p =
      slice-copy_at_before 8 40 40 d b₂ (omega arith) (omega arith)
      ∙ slice-copy_at_self 8 32 p b₁ (length-to_be_bytes 32 b.parent) (omega arith) in
    let s₃ : slice 40 72 (copy_at 40 d b₂) ≡ d =
      slice-copy_at_self 40 32 d b₂ (length-to_be_bytes 32 b.cumulative_difficulty) (omega arith) in
    rw
      (
        l₃,
        s₁,
        s₂,
        s₃,
        from_be_bytes-to_be_bytes 8 b.number (omega (arith, h.number_lt)),
        from_be_bytes-to_be_bytes 32 b.parent (omega (arith, h.parent_lt)),
        from_be_bytes-to_be_bytes 32 b.cumulative_difficulty
            (omega (arith, h.cumulative_difficulty_lt)),
      )
      refl
