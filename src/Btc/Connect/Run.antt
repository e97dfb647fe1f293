-- ===== src/Btc/Connect/Run.antt =====
-- The validation loop of `connect_headers`: links, difficulty, median-time-past and proof of work
-- of each header of a run. Earlier headers of the run are visible to later ones.
pub mod Valid
use rsk.Prelude.{
  ℕ, ◌+◌, ◌-◌, ◌%◌, Bool, true, false, Option, none, some, List, [], ◌∷◌, ◌==◌, leb, ltb,
  if◌then◌else◌, add_u64, u64_mod, get_elem?,
}
use rsk.Bitcoin.{Bitcoin, Network}
use rsk.Result.{
  Result, Check, ok, err, guard, link_break, bad_difficulty, bad_timestamp, bad_pow, internal,
  ◌>>=◌, ◌>>◌,
}
use rsk.Btc.Validation.{difficulty_period, enforces_difficulty, expected_bits, median_time_past_at}

module _ {Header : Type 0} where
  -- The header at a height of the chain that is extended: one of the run, or a stored one.
  unfoldable pub header_in : (ℕ → Option Header) → List Header → ℕ → ℕ → Option Header
  header_in stored run forkpoint height =
      if leb forkpoint height
      then elim (get_elem? run (height - forkpoint)) [ some h ↦ some h | none ↦ stored height ]
      else stored height

module _ {Header : Type 0} (lib : Bitcoin Header) (net : Network) where
  abbrev bits_match : ℕ → Header → Option ℕ → Check
  bits_match height header none = ok tt
  bits_match height header (some expected) =
      guard (lib.bits header == expected) (bad_difficulty height expected (lib.bits header))

  -- The header a period below `height`, if there can be one.
  abbrev pub period_start : (ℕ → Option Header) → ℕ → Option Header
  period_start at height =
      if ltb height difficulty_period then none else at (height - difficulty_period)

  unfoldable pub check_difficulty : (ℕ → Option Header) → ℕ → Header → Check
  unfolding enforces_difficulty expected_bits
  check_difficulty at height header =
      if enforces_difficulty lib net
      then elim (at ((height + u64_mod - 1) % u64_mod)) [
        | none ↦ err internal
        | some parent ↦
            bits_match height header (expected_bits lib net height parent (period_start at height))
      ]
      else ok tt

  unfoldable pub check_time : (ℕ → Option Header) → ℕ → Header → Check
  unfolding median_time_past_at
  check_time at height header = elim (median_time_past_at lib at height) [
    | none ↦ ok tt
    | some median ↦
        guard (ltb median (lib.time header)) (bad_timestamp height median (lib.time header))
  ]

  unfoldable pub check_header : (ℕ → Option Header) → ℕ → ℕ → Header → Check
  unfolding check_difficulty check_time
  check_header at height prev header = do
    guard (lib.prev_blockhash header == prev) (link_break height prev)
    check_difficulty at height header
    check_time at height header
    guard (lib.pow_ok header) (bad_pow height)

  -- `todo` are the headers still to be checked, the first of them at `height` behind `prev`.
  unfoldable pub check_headers : (ℕ → Option Header) → ℕ → ℕ → List Header → Check
  check_headers at height prev [] = ok tt
  check_headers at height prev (h ∷ todo) =
      let rest = check_headers at (add_u64 height 1) (lib.block_hash h) todo in
      check_header at height prev h >> rest

  unfoldable pub validate_run : (ℕ → Option Header) → List Header → ℕ → ℕ → ℕ → List Header → Check
  unfolding check_headers header_in
  validate_run stored run forkpoint height prev todo =
      check_headers (header_in stored run forkpoint) height prev todo
