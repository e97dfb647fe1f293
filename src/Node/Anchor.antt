-- ===== src/Node/Anchor.antt =====
-- `plant_anchor` of crates/rsk/src/node.rs.
use rsk.Prelude.{
  ℕ, ◌-◌, Option, none, some, List, [], ◌∷◌, ltb, length, take, if◌then◌else◌, add_u64,
}
use rsk.Bitcoin.{Bitcoin, Network}
use rsk.Result.{Error, Result, ok, err}
use rsk.Btc.Store.Meta.{Chain, set_network}
use rsk.Btc.Store.Seed.{seed_checkpoints}
use rsk.Btc.Query.{tip_height}

-- `Anchor` of crates/rsk/src/config.rs.
pub data Anchor : Type 0 where
  genesis : Anchor
  spine : ℕ → Anchor

-- The node's result: an error of the core or of its own, or the first height to download and the
-- tables.
pub data Planted (Header : Type 0) : Type 0 where
  core_error : Error → Planted Header
  cut_past_end no_spine : Planted Header
  planted : ℕ → Chain Header → Planted Header

module _ {Header : Type 0} (lib : Bitcoin Header) (net : Network) where
  -- `Core::seed_checkpoints`: the spine and the network in one transaction.
  unfoldable pub seed_core : Chain Header → List (ℕ × Header) → Result (Chain Header)
  seed_core core entries = elim (seed_checkpoints lib core entries) [
    | err x ↦ err x
    | ok seeded ↦ ok (set_network lib seeded net)
  ]

  abbrev seeded_at : ℕ → Result (Chain Header) → Planted Header
  seeded_at first (err x) = core_error x
  seeded_at first (ok core) = planted first core

  -- The height of the last entry.
  abbrev last_of_spine : List (ℕ × Header) → Option ℕ
  last_of_spine [] = none
  last_of_spine (e ∷ []) = some e.0
  last_of_spine (e ∷ f ∷ es) = last_of_spine (f ∷ es)

  abbrev plant_prefix : Chain Header → List (ℕ × Header) → Planted Header
  plant_prefix core entries = elim (seed_core core entries) [
    | err x ↦ core_error x
    | ok seeded ↦ elim (last_of_spine entries) [
      | none ↦ no_spine
      | some height ↦ planted (add_u64 height 1) seeded
    ]
  ]

  abbrev plant_spine : Chain Header → ℕ → Result (List (ℕ × Header)) → Planted Header
  plant_spine core cut (err x) = core_error x
  plant_spine core cut (ok entries) =
      if ltb cut (length entries)
      then plant_prefix core (take (length entries - cut) entries)
      else cut_past_end

  -- `parsed` is the embedded spine (`Spine.parse`), `genesis_block` the network's first header.
  unfoldable pub plant_anchor :
      Chain Header → Anchor → Header → Result (List (ℕ × Header)) → Planted Header
  plant_anchor core anchor genesis_block parsed = elim (tip_height core) [
    | some tip ↦ planted (add_u64 tip 1) core
    | none ↦ elim anchor [
      | genesis ↦ seeded_at 1 (seed_core core ((0, genesis_block) ∷ []))
      | spine cut ↦ plant_spine core cut parsed
    ]
  ]
