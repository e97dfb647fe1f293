-- ===== src/Node/Handle.antt =====
-- `Node::sync` of crates/rsk/src/node.rs: the anchor, the candidates and the run, one after the other.
use rsk.Prelude.{ℕ, ◌≡◌, ◌≢◌, Option, some, List, [], ◌∷◌}
use rsk.Bitcoin.{Bitcoin, Network}
use rsk.Result.{Result}
use rsk.Btc.Store.Meta.{Chain}
use rsk.Node.Anchor.{Anchor, Planted, planted, plant_anchor}
use rsk.Node.Peers.{World, candidates}
use rsk.Node.Report.{Ended}
use rsk.Node.Run.{Config, run}
use rsk.Node.Run.Stores.{IsSynced, told_height}

-- What the machine gives besides the peers: name resolution, with the hosts of the main network.
pub record Names : Type 0 where
  pub lookup_host : ℕ → Option (List ℕ)
  pub mainnet_seeds : List ℕ

-- `Config`, without the paths and texts.
pub record NodeConfig : Type 0 where
  pub run_config : Config
  pub addrs : List ℕ
  pub seeds : List ℕ
  pub anchor : Anchor

-- How `sync` ends: the anchor was not planted, nobody is there to ask, or the run ended.
pub data Synced (Header : Type 0) : Type 0 where
  not_planted : Planted Header → Synced Header
  no_candidates : Chain Header → Synced Header
  ran : Option (Ended × Chain Header) → Synced Header

module _ {Header : Type 0} (lib : Bitcoin Header) (net : Network) (genesis : Header)
    (world : World Header) (names : Names) (config : NodeConfig) where
  abbrev pub sync_with : Chain Header → List ℕ → Synced Header
  sync_with core [] = no_candidates core
  sync_with core (addr ∷ addrs) =
      ran (run lib net genesis world config.run_config core (addr ∷ addrs)).0

  abbrev pub all_candidates : List ℕ
  all_candidates = (candidates names.lookup_host names.mainnet_seeds config.addrs config.seeds).0

  abbrev pub sync_planted : Planted Header → Synced Header
  sync_planted (planted from core) = sync_with core all_candidates
  sync_planted refused = not_planted refused

  -- `parsed` is the embedded spine.
  unfoldable pub sync : Chain Header → Result (List (ℕ × Header)) → Synced Header
  sync core parsed = sync_planted (plant_anchor lib net core config.anchor genesis parsed)

  -- What each way to end says: where the anchor is not planted, planting gave just that refusal; where
  -- nobody is to be asked, the anchor is planted; and where a run ended, it is the run on the store
  -- with the anchor planted over all candidates, it came to an end, and left a store as a run does.
  abbrev pub IsPlantedRun : Chain Header → Result (List (ℕ × Header)) → Synced Header → Type 0
  IsPlantedRun core parsed (not_planted refused) =
      (plant_anchor lib net core config.anchor genesis parsed ≡ refused)
      × ((from : ℕ) (core' : Chain Header) → refused ≢ planted from core')
  IsPlantedRun core parsed (no_candidates core') =
      (from : ℕ) × (plant_anchor lib net core config.anchor genesis parsed ≡ planted from core')
      × (all_candidates ≡ [])
  IsPlantedRun core parsed (ran outcome) =
      (from : ℕ) × (core' : Chain Header) × (e : Ended) × (final : Chain Header) × (plant_anchor lib
          net core config.anchor genesis parsed
        ≡ planted from core')
      × (all_candidates ≢ [])
      × (outcome ≡ (run lib net genesis world config.run_config core' all_candidates).0)
      × (outcome ≡ some (e, final))
      × IsSynced lib net genesis core'
          (told_height lib net genesis world config.run_config core' all_candidates) e final
