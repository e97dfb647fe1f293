-- ===== src/Node/Run.antt =====
-- The sync loop of crates/rsk/src/sync.rs over a pool of peers: `run`. Log
-- lines and the clock are left out. The core outlives a failed run, so its tables are returned with
-- every outcome.
pub mod Report
pub mod Spares
pub mod Ends
pub mod Stores
pub mod Kept
pub mod Range
use rsk.Prelude.{
  ℕ, zero, suc, ◌+◌, ◌-◌, ◌*◌, ◌/◌, ◌<◌, ◌≡◌, Bool, true, false, not, ◌&&◌, ◌||◌, Option, none,
  some, List, [], ◌∷◌, ◌++◌, ◌==◌, ltb, leb, max, min, length, get_elem?, get_or, set, map,
  replicate, is_some, unwrap_or, if◌then◌else◌, add_u64,
}
use rsk.Prelude.Int.{ℤ, pos, max_zero}
use rsk.Bitcoin.{Bitcoin, Network}
use rsk.Result
use rsk.Result.{Result}
use rsk.Btc.Validation.{difficulty_period}
use rsk.Btc.Store.Meta.{Chain, best_fork, finalized}
use rsk.Btc.Connect.{ConnectOutcome, connect_headers}
use rsk.Btc.Query.{tip_height, chainwork, canonical_header_at}
use rsk.P2p.Message
use rsk.P2p.Message.{Session, Reply, ok, err}
use rsk.P2p.Session.{read_headers, request_headers}
use rsk.Node.Peers.{World, Peer, Pool, fill}
use rsk.Node.Sync.{locator, next_alive, round_from}
use rsk.Node.Fetch.{Fetch, with_session, ask, prefetch}
use rsk.Node.Report.{
  Failure, no_peer, all_dropped, no_chainwork, no_tip, from_peer, from_core, Stats, Ended, failed,
  caught_up, report,
}

-- The peers and which of them are usable, the one that was asked last, the core, and the totals.
pub record Driver (Header : Type 0) : Type 0 where
  pub peers : List (Peer Header)
  pub alive : List Bool
  pub cur : ℕ
  pub core : Chain Header
  pub stats : Stats

-- One round of the loop goes on, or ends the run.
pub data Round (Header : Type 0) : Type 0 where
  again : Driver Header → Round Header
  ends : Ended → Chain Header → Round Header

-- `Config`, without the paths and texts.
pub record Config : Type 0 where
  pub peers : ℕ
  pub limit : ℕ

abbrev pub usable : List Bool → ℕ
usable [] = 0
usable (a ∷ alive) = if a then usable alive + 1 else usable alive

module _ {Header : Type 0} where
  abbrev pub last_header : Header → List Header → Header
  last_header h [] = h
  last_header h (x ∷ xs) = last_header x xs

  abbrev pub frames_left : List (Peer Header) → ℕ
  frames_left [] = 0
  frames_left (p ∷ ps) = length p.session.incoming + frames_left ps

  -- Each round reads a frame, drops a peer, or ends the run.
  abbrev pub rounds_left : Driver Header → ℕ
  rounds_left d =
      2 * frames_left d.peers + usable d.alive + (if get_or d.alive d.cur false then 0 else 1)

  abbrev pub round_fuel : Round Header → ℕ
  round_fuel (ends e core) = 0
  round_fuel (again d) = suc (rounds_left d)

  -- The greatest height that a peer told.
  abbrev pub greatest : List (Peer Header) → ℕ
  greatest [] = 0
  greatest (p ∷ ps) = max (max_zero p.shake.start_height) (greatest ps)

  abbrev pub first_driver : Chain Header → List (Peer Header) → Driver Header
  first_driver core peers = record {
    peers = peers;
    alive = replicate (length peers) true;
    cur = 0;
    core = core;
    stats = record { total = 0; batches = 0; works = []; peer_height = greatest peers };
  }

module _ {Header : Type 0} (lib : Bitcoin Header) (net : Network) (genesis : Header)
    (magic : ℕ) where
  abbrev pub requested : Driver Header → Reply (Unit {0}) × List (Peer Header) → Round Header
  requested d (err e, peers) = ends (failed (from_peer e)) d.core
  requested d (ok _, peers) = again (record d { peers = peers })

  -- The request with the locator of our chain.
  abbrev pub request_locator : Driver Header → Round Header
  request_locator d = requested d (ask d.peers d.cur (locator lib d.core))

  -- The peer at `cur` failed, and the next one is asked.
  abbrev pub dropped : Driver Header → List Bool → Option ℕ → Round Header
  dropped d alive none = ends (failed all_dropped) d.core
  dropped d alive (some next) = request_locator (record d { alive = alive; cur = next })

  abbrev pub drop_current : Driver Header → Round Header
  drop_current d = let alive = set d.alive d.cur false in dropped d alive (next_alive alive d.cur)

  -- After a connect the chain has a work and a tip.
  abbrev pub counted : Driver Header → ConnectOutcome → Option ℕ → Option ℕ → Round Header
  counted d out none tip = ends (failed no_chainwork) d.core
  counted d out (some work) none = ends (failed no_tip) d.core
  counted d out (some work) (some tip) = again (record d {
    stats = record {
      total = add_u64 d.stats.total out.connected;
      batches = add_u64 d.stats.batches 1;
      works = d.stats.works ++ work ∷ [];
      peer_height = d.stats.peer_height;
    };
  })

  abbrev pub connected : Driver Header → Result (ConnectOutcome × Chain Header) → Round Header
  connected d (Result.err e) = ends (failed (from_core e)) d.core
  connected d (Result.ok (out, core)) =
      counted (record d { core = core }) out (chainwork core) (tip_height core)

  -- The batch is connected once the next one is asked for.
  abbrev pub fetched : Driver Header → List Header → Reply (Fetch Header) → Round Header
  fetched d headers (err e) = ends (failed (from_peer e)) d.core
  fetched d headers (ok f) =
      connected (record d { peers = f.peers; alive = f.alive; cur = unwrap_or f.holder d.cur })
        (connect_headers lib net d.core headers)

  abbrev pub batch : Driver Header → Header → List Header → Round Header
  batch d first rest =
      fetched d (first ∷ rest)
        (prefetch d.peers d.alive d.cur (lib.block_hash (last_header first rest)))

  -- A round of the loop, once the peer at `cur` was read.
  unfoldable pub react : Driver Header → Reply (List Header) → Round Header
  unfolding ask prefetch report
  react d (err e) = drop_current d
  react d (ok []) = ends (report lib genesis d.core d.stats) d.core
  react d (ok (first ∷ rest)) = batch d first rest

  -- The peer at `cur` is read.
  unfoldable pub listened : Driver Header → Option (Peer Header) → Round Header
  unfolding react
  listened d none = ends (failed (from_peer Message.io)) d.core
  listened d (some peer) =
      let (reply, s) = read_headers magic peer.session in
      react (record d { peers = set d.peers d.cur (with_session peer s) }) reply

  unfoldable pub step : Driver Header → Round Header
  unfolding listened
  step d = listened d (get_elem? d.peers d.cur)

  -- `none` is out of fuel.
  unfoldable pub run_loop : ℕ → Round Header → Option (Ended × Chain Header)
  run_loop fuel (ends e core) = some (e, core)
  run_loop zero (again d) = none
  run_loop (suc fuel) (again d) = run_loop fuel (step d)

  abbrev pub run_all : Round Header → Option (Ended × Chain Header)
  run_all r = run_loop (round_fuel r) r

  abbrev pub started : Chain Header → List (Peer Header) → Round Header
  started core [] = ends (failed no_peer) core
  started core (p ∷ ps) = request_locator (first_driver core (p ∷ ps))

-- `i32::MAX`
abbrev i32_max : ℕ
i32_max = 2147483647

abbrev pub start_height : {Header : Type 0} → Chain Header → ℤ
start_height core = pos (min (unwrap_or (tip_height core) 0) i32_max)

module _ {Header : Type 0} (lib : Bitcoin Header) (net : Network) (genesis : Header) where
  -- What the run ends with, and the candidates that are left.
  unfoldable pub run :
      World Header → Config → Chain Header → List ℕ → Option (Ended × Chain Header) × List ℕ
  unfolding ask run_loop
  run world config core candidates =
      let (pool, left) =
        fill world (record { peers = []; attempts = 0 }) candidates (max config.peers 1)
          config.limit (start_height core) in
      (
        run_all lib net genesis world.magic (started lib net genesis world.magic core pool.peers),
        left,
      )
