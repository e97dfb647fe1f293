-- ===== src/Node/Args.antt =====
-- The arguments of `sync` on the command line, crates/cli/src/main.rs, and `Config::default` of
-- crates/rsk/src/config.rs.
use rsk.Prelude.{ℕ, Bool, List, [], if◌then◌else◌}
use rsk.Node.Anchor.{genesis, spine}
use rsk.Node.Handle.{NodeConfig}

abbrev pub default_config : NodeConfig
default_config = record {
  run_config = record { peers = 3; limit = 8 };
  addrs = [];
  seeds = [];
  anchor = spine 0;
}

-- `SyncArgs`, without the data directory.
pub record SyncArgs : Type 0 where
  pub cut : ℕ
  pub from_genesis : Bool
  pub peers : ℕ
  pub addr : List ℕ
  pub seed : List ℕ
  pub limit : ℕ

-- The configuration that `SyncArgs::run` opens the node with.
unfoldable pub config_of : SyncArgs → NodeConfig
config_of args =
    let anchor = if args.from_genesis then genesis else spine args.cut in
    record {
      run_config = record { peers = args.peers; limit = args.limit };
      addrs = args.addr;
      seeds = args.seed;
      anchor = anchor;
    }
