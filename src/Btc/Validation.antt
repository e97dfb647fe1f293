-- ===== src/Btc/Validation.antt =====
-- The header rules of crates/core/src/btc/validation.rs, and the median of the times before a header
-- (`median_time_past_at` of crates/core/src/btc.rs).
pub mod Median
use rsk.Prelude.{
  ℕ, zero, suc, ◌+◌, ◌-◌, ◌/◌, ◌%◌, Bool, true, false, not, ◌&&◌, Option, none, some, List, [], ◌∷◌,
  leb, ltb, ◌==◌, get_or, if◌then◌else◌,
}
use rsk.Bitcoin.{Bitcoin, Network}

-- `DIFFICULTY_PERIOD`
abbrev pub difficulty_period : ℕ
difficulty_period = 2016

-- `MEDIAN_TIME_PAST`
abbrev pub median_time_past_count : ℕ
median_time_past_count = 11

pub insert_sorted : ℕ → List ℕ → List ℕ
insert_sorted t [] = t ∷ []
insert_sorted t (x ∷ xs) = if leb t x then t ∷ x ∷ xs else x ∷ insert_sorted t xs

-- `times.sort_unstable()`
pub sort : List ℕ → List ℕ
unfolding insert_sorted
sort [] = []
sort (t ∷ ts) = insert_sorted t (sort ts)

unfoldable pub median_time_past : List ℕ → ℕ
unfolding sort
median_time_past times = get_or (sort times) (median_time_past_count / 2) 0

module _ {Header : Type 0} (lib : Bitcoin Header) where
  unfoldable pub enforces_difficulty : Network → Bool
  enforces_difficulty network =
      not (lib.no_pow_retargeting network) && not (lib.allow_min_difficulty_blocks network)

  -- `parent` is the header below `height`, `period_start` the one a period below.
  unfoldable pub expected_bits : Network → ℕ → Header → Option Header → Option ℕ
  expected_bits network height parent period_start =
      if height % difficulty_period == 0
      then elim period_start [ none ↦ none | some first ↦ some (lib.retarget network first parent) ]
      else some (lib.bits parent)

  -- The times of the headers below `height`, from the `k`-th on: `none` if one of the `rounds`
  -- that are left is not there.
  pub past_times : (ℕ → Option Header) → ℕ → ℕ → ℕ → Option (List ℕ)
  past_times at height zero k = some []
  past_times at height (suc rounds) k =
      let rest = past_times at height rounds (k + 1) in
      if ltb height (1 + k) then none else elim (at (height - (1 + k))) [
        | none ↦ none
        | some header ↦ elim rest [ none ↦ none | some ts ↦ some (lib.time header ∷ ts) ]
      ]

  unfoldable pub median_time_past_at : (ℕ → Option Header) → ℕ → Option ℕ
  unfolding past_times
  median_time_past_at at height = elim (past_times at height median_time_past_count 0) [
    | none ↦ none
    | some times ↦ some (median_time_past times)
  ]
