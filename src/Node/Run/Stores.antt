-- ===== src/Node/Run/Stores.antt =====
-- What a run leaves in the store, and what its report says of it.
use rsk.Prelude.{
  ℕ, zero, suc, ◌+◌, ◌%◌, ◌≡◌, refl, ap, subst, Bool, false, Option, none, some, List, [], ◌∷◌,
  ◌++◌, map, length, length-append, get_elem?, set, unwrap_or, arith, max, u64_mod,
}
use rsk.Bitcoin.{Bitcoin, Network}
use rsk.Result.{Result}
use rsk.Btc.Store.Meta.{Chain}
use rsk.Btc.Connect.{ConnectOutcome, connect_headers}
use rsk.Btc.Query.{tip_height, chainwork}
use rsk.P2p.Message.{Reply, ok, err, io}
use rsk.P2p.Session.{read_headers}
use rsk.Node.Peers.{World, Peer, fill}
use rsk.Node.Sync.{locator, next_alive}
use rsk.Node.Fetch.{Fetch, ask, with_session, prefetch}
use rsk.Node.Report.{
  Ended, failed, caught_up, Failure, from_peer, from_core, all_dropped, Stats, report,
}
use rsk.Node.Run.{
  Driver, Round, again, ends, Config, requested, dropped, counted, connected, fetched, last_header,
  listened, react, step, run_loop, round_fuel, first_driver, started, start_height, run, greatest,
}
use rsk.Node.Run.Report.{IsComplete, report_iff_IsComplete}

map-append_one {ℓ κ} :
    {A : Type ℓ} {B : Type κ} (f : A → B) (xs : List A) (x : A)
    → map f (xs ++ x ∷ []) ≡ map f xs ++ f x ∷ []
map-append_one f [] x = refl
map-append_one f (y ∷ xs) x = ap (λ l. f y ∷ l) (map-append_one f xs x)

-- A chain that batches of headers lead to, each of which connected: how many headers they stored, and
-- the work of the chain after each of them.
pub data Connects {Header : Type 0} (lib : Bitcoin Header) (net : Network) (from : Chain Header)
    : ℕ → List (Option ℕ) → Chain Header → Type 0 where
  begins : Connects lib net from 0 [] from
  connects :
      (n : ℕ) (works : List (Option ℕ)) (core : Chain Header) (batch : List Header)
      (out : ConnectOutcome) (core' : Chain Header)
      → Connects lib net from n works core
      → connect_headers lib net core batch ≡ Result.ok (out, core')
      → Connects lib net from (n + out.connected) (works ++ chainwork core' ∷ []) core'

module _ {Header : Type 0} (lib : Bitcoin Header) (net : Network) (genesis : Header)
    (from : Chain Header) (height : ℕ) where
  -- The totals of the batches that were connected.
  pub record Counts (stats : Stats) (core : Chain Header) : Type 0 where
    pub stored : ℕ
    pub history : Connects lib net from stored (map some stats.works) core
    pub total_is : stats.total ≡ stored % u64_mod
    pub batches_is : stats.batches ≡ length stats.works % u64_mod
    pub peer_height_is : stats.peer_height ≡ height

  -- How a run ends: the chain is one that connected batches lead to, and a report is complete and
  -- counts them.
  abbrev pub IsSynced : Ended → Chain Header → Type 0
  IsSynced (failed why) core =
      (n : ℕ) × (works : List (Option ℕ)) × Connects lib net from n works core
  IsSynced (caught_up r) core =
      (stats : Stats) × Counts stats core × IsComplete lib genesis core stats r

  abbrev Follows : Round Header → Type 0
  Follows (again d) = Counts d.stats d.core
  Follows (ends e core) = IsSynced e core

  Counts-failed :
      (stats : Stats) (core : Chain Header) (why : Failure)
      → Counts stats core
      → IsSynced (failed why) core
  Counts-failed stats core why c = (c.stored, map some stats.works, c.history)

  requested-Follows :
      (magic : ℕ) (d : Driver Header) (r : Reply (Unit {0}) × List (Peer Header))
      → Counts d.stats d.core
      → Follows (requested lib net genesis magic d r)
  requested-Follows magic d (err e, peers) c = Counts-failed d.stats d.core (from_peer e) c
  requested-Follows magic d (ok a, peers) c = c

  dropped-Follows :
      (magic : ℕ) (d : Driver Header) (alive : List Bool) (next : Option ℕ)
      → Counts d.stats d.core
      → Follows (dropped lib net genesis magic d alive next)
  dropped-Follows magic d alive none c = Counts-failed d.stats d.core all_dropped c
  dropped-Follows magic d alive (some p) c =
      requested-Follows magic (record d { alive = alive; cur = p })
        (ask d.peers p (locator lib d.core)) c

  counted-Follows :
      (magic : ℕ) (d : Driver Header) (core : Chain Header) (batch : List Header)
      (out : ConnectOutcome) (work tip : Option ℕ)
      → Counts d.stats core
      → connect_headers lib net core batch ≡ Result.ok (out, d.core)
      → chainwork d.core ≡ work
      → Follows (counted lib net genesis magic d out work tip)
  counted-Follows magic d core batch out none tip c e w =
      (_, _, connects c.stored (map some d.stats.works) core batch out d.core c.history e)
  counted-Follows magic d core batch out (some work) none c e w =
      (_, _, connects c.stored (map some d.stats.works) core batch out d.core c.history e)
  counted-Follows magic d core batch out (some work) (some tip) c e w = record {
    stored = c.stored + out.connected;
    history =
        rw (map-append_one some d.stats.works work, ← w)
          (connects c.stored (map some d.stats.works) core batch out d.core c.history e);
    total_is = omega (arith, c.total_is);
    batches_is = omega (arith, c.batches_is, length-append d.stats.works (work ∷ []));
    peer_height_is = c.peer_height_is;
  }

  connected-Follows :
      (magic : ℕ) (d : Driver Header) (batch : List Header)
      (r : Result (ConnectOutcome × Chain Header))
      → Counts d.stats d.core
      → connect_headers lib net d.core batch ≡ r
      → Follows (connected lib net genesis magic d r)
  connected-Follows magic d batch (Result.err e) c is = Counts-failed d.stats d.core (from_core e) c
  connected-Follows magic d batch (Result.ok (out, core)) c is =
      counted-Follows magic (record d { core = core }) d.core batch out (chainwork core)
        (tip_height core) c is refl

  fetched-Follows :
      (magic : ℕ) (d : Driver Header) (batch : List Header) (r : Reply (Fetch Header))
      → Counts d.stats d.core
      → Follows (fetched lib net genesis magic d batch r)
  fetched-Follows magic d batch (err e) c = Counts-failed d.stats d.core (from_peer e) c
  fetched-Follows magic d batch (ok f) c =
      connected-Follows magic
        (record d { peers = f.peers; alive = f.alive; cur = unwrap_or f.holder d.cur }) batch
        (connect_headers lib net d.core batch) c refl

  reported-Follows :
      (stats : Stats) (core : Chain Header) (e : Ended)
      → Counts stats core
      → report lib genesis core stats ≡ e
      → IsSynced e core
  reported-Follows stats core (failed why) c is = Counts-failed stats core why c
  reported-Follows stats core (caught_up r) c is =
      (stats, c, (report_iff_IsComplete lib genesis core stats r).0 is)

  react-Follows :
      (magic : ℕ) (d : Driver Header) (r : Reply (List Header))
      → Counts d.stats d.core
      → Follows (react lib net genesis magic d r)
  unfolding react
  react-Follows magic d (err e) c =
      dropped-Follows magic d (set d.alive d.cur false) (next_alive (set d.alive d.cur false) d.cur)
        c
  react-Follows magic d (ok []) c =
      reported-Follows d.stats d.core (report lib genesis d.core d.stats) c refl
  react-Follows magic d (ok (first ∷ rest)) c =
      fetched-Follows magic d (first ∷ rest)
        (prefetch d.peers d.alive d.cur (lib.block_hash (last_header first rest))) c

  listened-Follows :
      (magic : ℕ) (d : Driver Header) (o : Option (Peer Header))
      → Counts d.stats d.core
      → Follows (listened lib net genesis magic d o)
  unfolding listened
  listened-Follows magic d none c = Counts-failed d.stats d.core (from_peer io) c
  listened-Follows magic d (some peer) c =
      let (reply, s) = read_headers magic peer.session in
      react-Follows magic (record d { peers = set d.peers d.cur (with_session peer s) }) reply c

  run_loop-IsSynced :
      (magic fuel : ℕ) (r : Round Header) (e : Ended) (core : Chain Header)
      → Follows r
      → run_loop lib net genesis magic fuel r ≡ some (e, core)
      → IsSynced e core
  unfolding run_loop step
  run_loop-IsSynced magic fuel (ends e' core') e core f is =
      let got : Ended × Chain Header = (e', core') in
      let wanted : Ended × Chain Header = (e, core) in
      let same : got ≡ wanted = cc is in subst (λ p. IsSynced p.0 p.1) same f
  run_loop-IsSynced magic zero (again d) e core f is = cc is
  run_loop-IsSynced magic (suc fuel) (again d) e core f is =
      run_loop-IsSynced magic fuel (step lib net genesis magic d) e core
        (listened-Follows magic d (get_elem? d.peers d.cur) f) is

started-Follows :
    {Header : Type 0} (lib : Bitcoin Header) (net : Network) (genesis : Header)
    (core : Chain Header) (magic : ℕ) (peers : List (Peer Header))
    → Follows lib net genesis core (greatest peers) (started lib net genesis magic core peers)
started-Follows lib net genesis core magic [] = (0, [], begins)
started-Follows lib net genesis core magic (p ∷ ps) =
    requested-Follows lib net genesis core (greatest (p ∷ ps)) magic (first_driver core (p ∷ ps))
      (ask (p ∷ ps) 0 (locator lib core))
      (record {
        stored = 0;
        history = begins;
        total_is = omega arith;
        batches_is = omega arith;
        peer_height_is = refl;
      })

module _ {Header : Type 0} (lib : Bitcoin Header) (net : Network) (genesis : Header)
    (world : World Header) (config : Config) (core : Chain Header) (candidates : List ℕ) where
  -- The greatest height that a peer of the pool told.
  abbrev pub told_height : ℕ
  told_height =
      greatest
        (fill world (record { peers = []; attempts = 0 }) candidates (max config.peers 1)
          config.limit (start_height core)).0.peers

  -- However a run ends, the store holds what batches left that connected one after the other, and
  -- nothing of a batch that failed. A run that reports has counted the headers they stored and the
  -- batches, modulo the size of a word, and everything that a complete sync promises holds of its
  -- store.
  pub run-IsSynced :
      (e : Ended) (core' : Chain Header)
      → (run lib net genesis world config core candidates).0 ≡ some (e, core')
      → IsSynced lib net genesis core told_height e core'
  unfolding run
  run-IsSynced e core' is =
      let (pool, left) =
        fill world (record { peers = []; attempts = 0 }) candidates (max config.peers 1)
          config.limit (start_height core) in
      let r = started lib net genesis world.magic core pool.peers in
      run_loop-IsSynced lib net genesis core told_height world.magic (round_fuel r) r e core'
        (started-Follows lib net genesis core world.magic pool.peers) is
