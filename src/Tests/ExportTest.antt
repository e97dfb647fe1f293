-- ===== src/Tests/ExportTest.antt =====
-- The export of a store of two boundaries, over a concrete `hex`.
use rsk.Prelude.{
  ℕ, zero, suc, ◌+◌, ◌-◌, ◌*◌, ◌/◌, ◌%◌, ◌≡◌, ◌≤◌, refl, ap, Bool, true, false, Option, none, some,
  List, [], ◌∷◌, ltb, if◌then◌else◌, All, arith, length, replicate,
}
use rsk.Prelude.Table.{get}
use rsk.Result.{ok}
use rsk.Rows.Meta.{u64, as_u64}
use rsk.Btc.Validation.{difficulty_period}
use rsk.Btc.Store.Meta.{
  Chain, fork_meta, best_fork_key, next_fork, finalized_height, best_fork, finalized, meta_u64,
}
use rsk.Btc.Store.Walk.{header_at, row_at, owner_fork, owner_loop}
use rsk.Btc.Query.{finalized_checkpoints}
use rsk.Btc.Spine.Text.{Hex, EncodesHex, IsByte, is_hex_digit, parse_text}
use rsk.Node.Export.{text, export_checkpoints, boundaries, export_roundtrip}
use rsk.Tests.Sample.{two_headers, two_headers-EncodesHeaders, encode_bit}

abbrev digit : ℕ → ℕ
digit n = if ltb n 10 then 48 + n else 87 + n

abbrev value : ℕ → ℕ
value c = if ltb c 58 then c - 48 else c - 87

abbrev hex_encode : List ℕ → List ℕ
hex_encode [] = []
hex_encode (b ∷ bs) = digit (b / 16 % 16) ∷ digit (b % 16) ∷ hex_encode bs

abbrev byte_before : ℕ → Option (List ℕ) → Option (List ℕ)
byte_before b none = none
byte_before b (some bs) = some (b ∷ bs)

abbrev hex_decode : List ℕ → Option (List ℕ)
hex_decode [] = some []
hex_decode (c ∷ []) = none
hex_decode (c ∷ d ∷ rest) = byte_before (value c * 16 + value d) (hex_decode rest)

abbrev hex : Hex
hex = record { encode = hex_encode; decode = hex_decode }

value-digit : (n : ℕ) → n ≤ 15 → value (digit n) ≡ n
value-digit n le = ground arith

is_hex_digit-digit : (n : ℕ) → n ≤ 15 → is_hex_digit (digit n) ≡ true
unfolding is_hex_digit
is_hex_digit-digit n le = ground arith

hex_decode-hex_encode : (bs : List ℕ) → All IsByte bs → hex_decode (hex_encode bs) ≡ some bs
hex_decode-hex_encode [] all = refl
hex_decode-hex_encode (b ∷ bs) all =
    let high = value-digit (b / 16 % 16) (omega arith) in
    let low = value-digit (b % 16) (omega arith) in
    let whole : b / 16 % 16 * 16 + b % 16 ≡ b = omega (arith, all.0) in
    rw (hex_decode-hex_encode bs all.1) (rw (high, low) (ap (λ n. some (n ∷ bs)) whole))

length-hex_encode : (bs : List ℕ) → length (hex_encode bs) ≡ 2 * length bs
length-hex_encode [] = refl
length-hex_encode (b ∷ bs) = omega (arith, length-hex_encode bs)

hex_encode-digits : (bs : List ℕ) → All (λ c. is_hex_digit c ≡ true) (hex_encode bs)
hex_encode-digits [] = tt
hex_encode-digits (b ∷ bs) = (
  is_hex_digit-digit (b / 16 % 16) (omega arith),
  (is_hex_digit-digit (b % 16) (omega arith), hex_encode-digits bs),
)

hex-EncodesHex : EncodesHex hex
hex-EncodesHex = record {
  decode-encode = hex_decode-hex_encode;
  encoded_length = length-hex_encode;
  digits = hex_encode-digits;
}

replicate-IsByte : (n b : ℕ) → IsByte b → All IsByte (replicate n b)
replicate-IsByte zero b small = tt
replicate-IsByte (suc n) b small = (small, replicate-IsByte n b small)

encode_bit-IsByte : (h : Bool) → All IsByte (encode_bit h)
encode_bit-IsByte true = replicate-IsByte 80 1 (omega arith)
encode_bit-IsByte false = replicate-IsByte 80 0 (omega arith)

abbrev core : Chain Bool
core = record {
  headers =
      ((0, 0), record { header = true; work = 5 })
      ∷ ((0, 2016), record { header = false; work = 9 })
      ∷ [];
  hash_loc = [];
  forks =
      (
        0,
        record {
          forkpoint = 0;
          parent = none;
          forkpoint_hash = 0;
          tip_height = 2016;
          tip_hash = 0;
          tip_work = 9;
        },
      )
      ∷ [];
  checkpoints = [];
  meta = (best_fork_key, u64 0) ∷ (next_fork, u64 1) ∷ (finalized_height, u64 2016) ∷ [];
}

abbrev at : ℕ → Bool
at zero = true
at (suc k) = false

at_stored :
    (k : ℕ) → k * difficulty_period ≤ 2016 → header_at core 0 (k * difficulty_period) ≡ some (at k)
unfolding header_at row_at owner_fork owner_loop fork_meta get
at_stored zero le = refl
at_stored (suc zero) le = refl
at_stored (suc (suc k)) le = absurd (omega arith)

export_roundtrip_example :
    (out : List ℕ) × (export_checkpoints two_headers hex core ≡ text out)
    × (parse_text two_headers hex out ≡ ok (finalized_checkpoints core))
    × (finalized_checkpoints core ≡ boundaries at 2 0)
unfolding finalized best_fork meta_u64 as_u64 get
export_roundtrip_example =
    export_roundtrip two_headers hex two_headers-EncodesHeaders hex-EncodesHex encode_bit-IsByte
      core 0 2016 at (omega arith) refl refl at_stored
