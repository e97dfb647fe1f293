-- ===== src/Rows/Blobs.antt =====
-- `BlobList` of crates/core/src/store/rsk.rs: byte strings behind 32-bit lengths, and their count.
use mathlib.Core.List.{append_assoc}
use rsk.Prelude.{
  ℕ, zero, suc, ◌+◌, ◌%◌, ◌^◌, ◌<◌, ◌≡◌, refl, sym, ap, ◌∙◌, List, [], ◌∷◌, ◌++◌, arith, length,
  ltb, length-append, All, if◌then◌else◌,
}
use rsk.Bytes.{to_be_bytes, from_be_bytes, slice}
use rsk.Bytes.BigEndian.{length-to_be_bytes, from_be_bytes-to_be_bytes}
use rsk.Bytes.Slices.{slice-middle}

-- The loop of `from_bytes`: `count` rounds from the position `at`.
pub read_blobs : List ℕ → ℕ → ℕ → List (List ℕ)
read_blobs bytes zero at = []
read_blobs bytes (suc count) at =
    let len = from_be_bytes (slice at (at + 4) bytes) in
    let rest = read_blobs bytes count (at + 4 + len) in
    if ltb (length bytes) (at + 4)
    then []
    else if ltb (length bytes) (at + 4 + len)
    then []
    else slice (at + 4) (at + 4 + len) bytes ∷ rest

unfoldable pub from_bytes : List ℕ → List (List ℕ)
unfolding read_blobs
from_bytes bytes =
    if ltb (length bytes) 4 then [] else read_blobs bytes (from_be_bytes (slice 0 4 bytes)) 4

pub blob_bytes : List (List ℕ) → List ℕ
blob_bytes [] = []
blob_bytes (b ∷ bs) = to_be_bytes 4 (length b % 2 ^ 32) ++ (b ++ blob_bytes bs)

unfoldable pub as_bytes : List (List ℕ) → List ℕ
unfolding blob_bytes
as_bytes bs = to_be_bytes 4 (length bs % 2 ^ 32) ++ blob_bytes bs

read_blobs-blob_bytes :
    (bs : List (List ℕ)) (front : List ℕ) (at : ℕ)
    → All (λ b. length b < 2 ^ 32) bs
    → length front ≡ at
    → read_blobs (front ++ blob_bytes bs) (length bs) at ≡ bs
unfolding read_blobs blob_bytes
read_blobs-blob_bytes [] front at small e = refl
read_blobs-blob_bytes (b ∷ bs) front at (b_small, small) e =
    let l = to_be_bytes 4 (length b % 2 ^ 32) in
    let l_length : length l ≡ 4 = length-to_be_bytes 4 (length b % 2 ^ 32) in
    let whole = front ++ (l ++ (b ++ blob_bytes bs)) in
    let regroup : whole ≡ (front ++ l) ++ (b ++ blob_bytes bs) =
      sym (append_assoc front l (b ++ blob_bytes bs)) in
    let regroup' : whole ≡ ((front ++ l) ++ b) ++ blob_bytes bs =
      regroup ∙ sym (append_assoc (front ++ l) b (blob_bytes bs)) in
    let front_l : length (front ++ l) ≡ at + 4 = omega (arith, length-append front l) in
    let read_length : from_be_bytes (slice at (at + 4) whole) ≡ length b =
      ap from_be_bytes (slice-middle at (at + 4) front l (b ++ blob_bytes bs) e (omega arith))
      ∙ from_be_bytes-to_be_bytes 4 (length b % 2 ^ 32) (omega arith)
      ∙ omega arith in
    let read_blob : slice (at + 4) (at + 4 + length b) whole ≡ b =
      ap (slice (at + 4) (at + 4 + length b)) regroup
      ∙ slice-middle (at + 4) (at + 4 + length b) (front ++ l) b (blob_bytes bs) front_l refl in
    let enough : length whole ≡ at + 4 + length b + length (blob_bytes bs) = omega (
      arith,
      length-append front (l ++ (b ++ blob_bytes bs)),
      length-append l (b ++ blob_bytes bs),
      length-append b (blob_bytes bs),
    ) in
    let rest : read_blobs whole (length bs) (at + 4 + length b) ≡ bs =
      ap (λ t. read_blobs t (length bs) (at + 4 + length b)) regroup'
      ∙ read_blobs-blob_bytes bs ((front ++ l) ++ b) (at + 4 + length b) small
          (omega (arith, length-append (front ++ l) b)) in
    rw (read_length, read_blob, rest) (ground (arith, enough))

-- A list of fewer than 2^32 byte strings, each of fewer than 2^32 bytes, decodes from its bytes to
-- itself.
pub blobs_from_bytes-as_bytes :
    (bs : List (List ℕ))
    → length bs < 2 ^ 32
    → All (λ b. length b < 2 ^ 32) bs
    → from_bytes (as_bytes bs) ≡ bs
unfolding from_bytes as_bytes
blobs_from_bytes-as_bytes bs few small =
    let n = to_be_bytes 4 (length bs % 2 ^ 32) in
    let n_length : length n ≡ 4 = length-to_be_bytes 4 (length bs % 2 ^ 32) in
    let count : from_be_bytes (slice 0 4 (n ++ blob_bytes bs)) ≡ length bs =
      ap from_be_bytes (slice-middle 0 4 [] n (blob_bytes bs) refl (omega arith))
      ∙ from_be_bytes-to_be_bytes 4 (length bs % 2 ^ 32) (omega arith)
      ∙ omega arith in
    rw count (ground (arith, length-append n (blob_bytes bs), read_blobs-blob_bytes bs n 4 small))
