-- ===== src/Tests/RunTest.antt =====
-- A sync of two headers from one peer.
use rsk.Prelude.{true, ◌≡◌, ◌↔◌, refl, some, [], ◌∷◌}
use rsk.Prelude.Table.{get, insert}
use rsk.Bitcoin.{regtest}
use rsk.Rows.Meta.{as_u64}
use rsk.Btc.Store.Meta.{fork_meta, best_fork, finalized, meta_u64, fork_tip, locate, network}
use rsk.Btc.Store.Walk.{work_at, fork_chainwork, header_at, row_at, owner_fork, owner_loop}
use rsk.Btc.Store.Put.{put_headers, put_entries, put_entry, set_tip}
use rsk.Btc.Validation.{median_time_past_at, enforces_difficulty, expected_bits}
use rsk.Btc.Connect.Run.{
  validate_run, check_headers, check_header, check_difficulty, check_time, header_in,
}
use rsk.Btc.Connect.Finalize.{finalize_in_txn, finalize_at}
use rsk.Btc.Connect.{
  connect_headers, network_ok, known_prefix, parent_hash, connect_run, connect_behind,
  choose_target, store_run, entries_of, select_best, tip_of,
}
use rsk.Btc.Query.{tip_height, chainwork, canonical_header_at}
use rsk.P2p.Session.{
  read_message, read_message_for, next_message, send, await_verack, handshake, read_headers_loop,
  read_headers, request_headers,
}
use rsk.Node.Peers.{Peer, connect, fill}
use rsk.Node.Sync.{locator, recent, next_alive}
use rsk.Node.Fetch.{ask, prefetch, prefetch_rounds}
use rsk.Node.Report.{caught_up, SyncReport, Stats, increasing, finality_floor, report}
use rsk.Node.Run.{Config, react, listened, step, run_loop, run}
use rsk.Node.Run.{Driver, Round, again, ends, first_driver, started}
use rsk.Prelude.Int.{pos}
use rsk.Node.Run.Report.{IsComplete, report_iff_IsComplete}
use rsk.Node.Run.Stores.{IsSynced, told_height, run-IsSynced}
use rsk.Tests.Sample.{ToyHeader, toy}
use rsk.Tests.ConnectTest.{genesis, seeded, grown}
use rsk.Node.Handle.{Names}
use rsk.Node.Args.{SyncArgs}
use rsk.Tests.PeersTest.{world, lookup, silent}

abbrev config : Config
config = record { peers = 1; limit = 8 }

abbrev synced : SyncReport
synced = record {
  headers = 2;
  batches = 1;
  tip = 2;
  finalized = 0;
  chainwork = 11;
  peer_height = 2;
}

run-synced :
    (run toy regtest genesis world config seeded (3 ∷ 4 ∷ [])).0 ≡ some (caught_up synced, grown.1)
unfolding run fill connect handshake send next_message read_message_for read_message await_verack
    tip_height best_fork meta_u64 as_u64 fork_tip fork_meta get ask request_headers locator recent
    canonical_header_at header_at row_at owner_fork owner_loop run_loop step listened react
    read_headers read_headers_loop prefetch prefetch_rounds connect_headers network_ok known_prefix
    parent_hash connect_run connect_behind choose_target validate_run check_headers check_header
    check_difficulty check_time header_in median_time_past_at enforces_difficulty expected_bits
    work_at store_run put_headers put_entries put_entry set_tip insert entries_of select_best
    fork_chainwork finalize_in_txn finalize_at locate tip_of network chainwork report increasing
    finality_floor finalized next_alive
run-synced = refl

run-IsSynced_example :
    IsSynced toy regtest genesis seeded
      (told_height toy regtest genesis world config seeded (3 ∷ 4 ∷ []))
      (caught_up synced)
      grown.1
run-IsSynced_example =
    run-IsSynced toy regtest genesis world config seeded (3 ∷ 4 ∷ []) (caught_up synced) grown.1
      run-synced

abbrev stats : Stats
stats = record { total = 2; batches = 1; works = 11 ∷ []; peer_height = 2 }

report_iff_IsComplete_example :
    (report toy genesis grown.1 stats ≡ caught_up synced)
    ↔ IsComplete toy genesis grown.1 stats synced
report_iff_IsComplete_example = report_iff_IsComplete toy genesis grown.1 stats synced

abbrev args : SyncArgs
args = record { cut = 0; from_genesis = true; peers = 1; addr = 4 ∷ []; seed = 1 ∷ []; limit = 8 }

abbrev names : Names
names = record { lookup_host = lookup; mainnet_seeds = [] }

abbrev one_peer : Peer ToyHeader
one_peer = record {
  addr = 4;
  shake = record { version = 70001; services = 1; user_agent = []; start_height = pos 2 };
  session = silent;
}

abbrev driver_or : Round ToyHeader → Driver ToyHeader → Driver ToyHeader
driver_or (again d) other = d
driver_or (ends e core) other = other

abbrev first_round : Driver ToyHeader
first_round =
    driver_or (started toy regtest genesis 8 seeded (one_peer ∷ []))
      (first_driver seeded (one_peer ∷ []))
