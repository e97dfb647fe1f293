-- ===== src/Rows/Header.antt =====
-- `BtcRow` and `BtcHeader` of crates/core/src/store/btc.rs: a Bitcoin header with its cumulative
-- work in 112 bytes, and a bare header in 80.
use rsk.Prelude.{
  ℕ, ◌^◌, ◌<◌, ◌≡◌, refl, ◌∙◌, Option, none, some, List, arith, length, leb, if◌then◌else◌,
  replicate,
}
use rsk.Bytes.{to_be_bytes, from_be_bytes, slice, copy_at}
use rsk.Bytes.BigEndian.{length-to_be_bytes, from_be_bytes-to_be_bytes}
use rsk.Bytes.Slices.{length-copy_at, slice-copy_at_self, slice-copy_at_before, slice_whole}
use rsk.Bitcoin.{Bitcoin, EncodesHeaders}

pub record BtcRow (Header : Type 0) : Type 0 where
  pub header : Header
  pub work : ℕ

module _ {Header : Type 0} (lib : Bitcoin Header) where
  with_work : Option Header → ℕ → Option (BtcRow Header)
  with_work none w = none
  with_work (some h) w = some (record { header = h; work = w })

  pub row_from_bytes : List ℕ → Option (BtcRow Header)
  row_from_bytes bytes =
      if leb 112 (length bytes)
      then with_work (lib.consensus_decode (slice 0 80 bytes)) (from_be_bytes (slice 80 112 bytes))
      else none

  pub row_as_bytes : BtcRow Header → List ℕ
  row_as_bytes row =
      copy_at 80 (to_be_bytes 32 row.work)
        (copy_at 0 (lib.consensus_encode row.header) (replicate 112 0))

  pub header_from_bytes : List ℕ → Option Header
  header_from_bytes bytes =
      if leb 80 (length bytes) then lib.consensus_decode (slice 0 80 bytes) else none

  pub header_as_bytes : Header → List ℕ
  header_as_bytes h = lib.consensus_encode h

  module _ (enc : EncodesHeaders lib) where
    -- A header row with a 256-bit work decodes from its 112 bytes to itself.
    pub row_from_bytes-row_as_bytes :
        (row : BtcRow Header) → row.work < 2 ^ 256 → row_from_bytes (row_as_bytes row) ≡ some row
    unfolding row_from_bytes row_as_bytes with_work
    row_from_bytes-row_as_bytes row h =
        let head = lib.consensus_encode row.header in
        let tail = to_be_bytes 32 row.work in
        let base = copy_at 0 head (replicate 112 0) in
        let base_length : length base ≡ 112 = length-copy_at 0 head (replicate 112 0) in
        let tail_length = length-to_be_bytes 32 row.work in
        let whole : length (copy_at 80 tail base) ≡ 112 =
          omega (arith, length-copy_at 80 tail base) in
        let first : slice 0 80 (copy_at 80 tail base) ≡ head =
          slice-copy_at_before 0 80 80 tail base (omega arith) (omega arith)
          ∙ slice-copy_at_self 0 80 head (replicate 112 0) (enc.encoded_length row.header)
              (omega arith) in
        let second : slice 80 112 (copy_at 80 tail base) ≡ tail =
          slice-copy_at_self 80 32 tail base tail_length (omega arith) in
        rw
          (
            whole,
            first,
            second,
            enc.decode-encode row.header,
            from_be_bytes-to_be_bytes 32 row.work (omega arith),
          )
          refl

    -- A bare header decodes from its 80 bytes to itself.
    pub header_from_bytes-header_as_bytes :
        (h : Header) → header_from_bytes (header_as_bytes h) ≡ some h
    unfolding header_from_bytes header_as_bytes
    header_from_bytes-header_as_bytes h =
        rw (enc.encoded_length h) (
          rw (slice_whole 80 (lib.consensus_encode h) (enc.encoded_length h)) (enc.decode-encode h))
