-- ===== src/Rows/Fork/Layout.antt =====
-- Where the fields of `ForkMeta` lie in its bytes. The writes are made in the order of the source;
-- each lemma reads one field back through the writes behind it.
use rsk.Prelude.{
  ℕ, ◌+◌, ◌*◌, ◌/◌, ◌%◌, ◌^◌, ◌≤◌, ◌<◌, ◌≡◌, ap, ◌∙◌, List, ◌++◌, arith, length, replicate, take,
}
use rsk.Bytes.{to_be_bytes, from_be_bytes, slice, copy_at}
use rsk.Bytes.BigEndian.{
  length-to_be_bytes, from_be_bytes-to_be_bytes_mod, from_be_bytes-append, drop-to_be_bytes,
  take-to_be_bytes, take-length,
}
use rsk.Bytes.Slices.{
  length-copy_at, slice-copy_at_self, slice-copy_at_before, slice-copy_at_inner, slice-split,
}

-- The buffer after each of the six writes.
module _ (fp pa fh th tx tw : ℕ) where
  abbrev b₁ : List ℕ
  b₁ = copy_at 0 (to_be_bytes 8 fp) (replicate 120 0)

  abbrev b₂ : List ℕ
  b₂ = copy_at 8 (to_be_bytes 8 pa) b₁

  abbrev b₃ : List ℕ
  b₃ = copy_at 16 (to_be_bytes 32 fh) b₂

  abbrev b₄ : List ℕ
  b₄ = copy_at 48 (to_be_bytes 8 th) b₃

  abbrev b₅ : List ℕ
  b₅ = copy_at 56 (to_be_bytes 32 tx) b₄

  abbrev pub buffer : List ℕ
  buffer = copy_at 88 (to_be_bytes 32 tw) b₅

  length-b₂ : length b₂ ≡ 120
  length-b₂ =
      length-copy_at 8 (to_be_bytes 8 pa) b₁ ∙ length-copy_at 0 (to_be_bytes 8 fp) (replicate 120 0)

  length-b₄ : length b₄ ≡ 120
  length-b₄ =
      length-copy_at 48 (to_be_bytes 8 th) b₃ ∙ length-copy_at 16 (to_be_bytes 32 fh) b₂ ∙ length-b₂

  length-b₅ : length b₅ ≡ 120
  length-b₅ = length-copy_at 56 (to_be_bytes 32 tx) b₄ ∙ length-b₄

  pub length-buffer : length buffer ≡ 120
  length-buffer = length-copy_at 88 (to_be_bytes 32 tw) b₅ ∙ length-b₅

  -- The last two writes change nothing before byte 56, the last four nothing before byte 16.
  before_56 : (a b : ℕ) → a ≤ b → b ≤ 56 → slice a b buffer ≡ slice a b b₄
  before_56 a b h k =
      slice-copy_at_before a b 88 (to_be_bytes 32 tw) b₅ h (omega arith)
      ∙ slice-copy_at_before a b 56 (to_be_bytes 32 tx) b₄ h k

  before_16 : (a b : ℕ) → a ≤ b → b ≤ 16 → slice a b buffer ≡ slice a b b₂
  before_16 a b h k =
      before_56 a b h (omega arith)
      ∙ slice-copy_at_before a b 48 (to_be_bytes 8 th) b₃ h (omega arith)
      ∙ slice-copy_at_before a b 16 (to_be_bytes 32 fh) b₂ h k

  pub slice-forkpoint : slice 0 8 buffer ≡ to_be_bytes 8 fp
  slice-forkpoint =
      before_16 0 8 (omega arith) (omega arith)
      ∙ slice-copy_at_before 0 8 8 (to_be_bytes 8 pa) b₁ (omega arith) (omega arith)
      ∙ slice-copy_at_self 0 8 (to_be_bytes 8 fp) (replicate 120 0) (length-to_be_bytes 8 fp)
          (omega arith)

  pub slice-parent : slice 8 16 buffer ≡ to_be_bytes 8 pa
  slice-parent =
      before_16 8 16 (omega arith) (omega arith)
      ∙ slice-copy_at_self 8 8 (to_be_bytes 8 pa) b₁ (length-to_be_bytes 8 pa)
          (omega (arith, length-copy_at 0 (to_be_bytes 8 fp) (replicate 120 0)))

  pub slice-forkpoint_hash : slice 16 48 buffer ≡ to_be_bytes 32 fh
  slice-forkpoint_hash =
      before_56 16 48 (omega arith) (omega arith)
      ∙ slice-copy_at_before 16 48 48 (to_be_bytes 8 th) b₃ (omega arith) (omega arith)
      ∙ slice-copy_at_self 16 32 (to_be_bytes 32 fh) b₂ (length-to_be_bytes 32 fh)
          (omega (arith, length-b₂))

  pub slice-tip_height : slice 48 56 buffer ≡ to_be_bytes 8 th
  slice-tip_height =
      before_56 48 56 (omega arith) (omega arith)
      ∙ slice-copy_at_self 48 8 (to_be_bytes 8 th) b₃ (length-to_be_bytes 8 th)
          (omega (arith, length-b₂, length-copy_at 16 (to_be_bytes 32 fh) b₂))

  pub slice-tip_hash : slice 56 88 buffer ≡ to_be_bytes 32 tx
  slice-tip_hash =
      slice-copy_at_before 56 88 88 (to_be_bytes 32 tw) b₅ (omega arith) (omega arith)
      ∙ slice-copy_at_self 56 32 (to_be_bytes 32 tx) b₄ (length-to_be_bytes 32 tx)
          (omega (arith, length-b₄))

  -- Bytes 80 to 88 are the last eight of the tip's hash, and 88 to 112 the first 24 of its work.
  slice_80_88 : slice 80 88 buffer ≡ to_be_bytes 8 tx
  unfolding slice
  slice_80_88 =
      slice-copy_at_before 80 88 88 (to_be_bytes 32 tw) b₅ (omega arith) (omega arith)
      ∙ slice-copy_at_inner 80 88 56 (to_be_bytes 32 tx) b₄ (omega arith) (omega arith)
          (omega (arith, length-to_be_bytes 32 tx))
          (omega (arith, length-to_be_bytes 32 tx, length-b₄))
      ∙ ap (take 8) (drop-to_be_bytes 24 8 tx)
      ∙ rw (length-to_be_bytes 8 tx) at (take-length (to_be_bytes 8 tx))

  slice_88_112 : slice 88 112 buffer ≡ to_be_bytes 24 (tw / 2 ^ 64)
  unfolding slice
  slice_88_112 =
      slice-copy_at_inner 88 112 88 (to_be_bytes 32 tw) b₅ (omega arith) (omega arith)
        (omega (arith, length-to_be_bytes 32 tw))
        (omega (arith, length-to_be_bytes 32 tw, length-b₅))
      ∙ take-to_be_bytes 24 8 tw

  -- The number that bytes 80 to 112 spell.
  pub work_read :
      tw < 2 ^ 256 → from_be_bytes (slice 80 112 buffer) ≡ tx % 2 ^ 64 * 2 ^ 192 + tw / 2 ^ 64
  work_read h =
      let low = to_be_bytes 24 (tw / 2 ^ 64) in
      ap from_be_bytes (
        slice-split 80 88 112 buffer (omega arith) (omega arith)
        ∙ ap (λ t. t ++ slice 88 112 buffer) slice_80_88
        ∙ ap (λ t. to_be_bytes 8 tx ++ t) slice_88_112)
      ∙ from_be_bytes-append (to_be_bytes 8 tx) low
      ∙ rw (length-to_be_bytes 24 (tw / 2 ^ 64)) (
          omega (
            arith,
            from_be_bytes-to_be_bytes_mod 8 tx,
            from_be_bytes-to_be_bytes_mod 24 (tw / 2 ^ 64),
          ))
