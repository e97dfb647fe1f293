-- ===== src/Node/Run/Ends.antt =====
-- The fuel of a run: every round reads a frame or drops a peer.
use rsk.Prelude.{
  ℕ, zero, suc, ◌+◌, ◌*◌, ◌≤◌, ◌<◌, ◌≡◌, refl, Bool, false, Option, none, some, List, [], ◌∷◌,
  length, get_elem?, get_or, set, unwrap_or, if◌then◌else◌, arith, max,
}
use rsk.Bitcoin.{Bitcoin, Network}
use rsk.Result.{Result}
use rsk.Btc.Store.Meta.{Chain}
use rsk.Btc.Connect.{ConnectOutcome, connect_headers}
use rsk.Btc.Query.{tip_height, chainwork}
use rsk.P2p.Message.{Session, Reply, ok, err}
use rsk.P2p.Session.{read_headers}
use rsk.P2p.Session.Ends.{Below, read_headers-Below}
use rsk.Node.Peers.{World, Peer, fill}
use rsk.Node.Sync.{locator, next_alive, round_from}
use rsk.Node.Fetch.{Fetch, ask, with_session, prefetch}
use rsk.Node.Report.{Ended}
use rsk.Node.Run.{
  Driver, Round, again, ends, Config, requested, request_locator, dropped, drop_current, counted,
  connected, fetched, last_header, listened, react, step, run_loop, frames_left, usable,
  rounds_left, round_fuel, started, start_height, run,
}
use rsk.Node.Run.Spares.{
  usable-set, first_alive-get_or, frames_left-set, frames_left-ask, prefetch-Spares,
}

-- The round that follows, if there is one, leaves fewer than `n` rounds.
abbrev pub Fewer : {Header : Type 0} → ℕ → Round Header → Type 0
Fewer n (ends e core) = Unit
Fewer n (again d) = rounds_left d < n

module _ {Header : Type 0} (lib : Bitcoin Header) (net : Network) (genesis : Header)
    (magic : ℕ) where
  requested-Fewer :
      (d : Driver Header) (n : ℕ) (r : Reply (Unit {0}) × List (Peer Header))
      → frames_left r.1 ≡ frames_left d.peers
      → rounds_left d < n
      → Fewer n (requested lib net genesis magic d r)
  requested-Fewer d n (err e, peers) same lt = tt
  requested-Fewer d n (ok a, peers) same lt = omega arith

  request_locator-Fewer :
      (d : Driver Header) (n : ℕ)
      → rounds_left d < n
      → Fewer n (request_locator lib net genesis magic d)
  request_locator-Fewer d n lt =
      requested-Fewer d n (ask d.peers d.cur (locator lib d.core))
        (frames_left-ask d.peers d.cur (locator lib d.core)) lt

  dropped-Fewer :
      (d : Driver Header) (alive : List Bool) (n : ℕ) (next : Option ℕ)
      → next_alive alive d.cur ≡ next
      → 2 * frames_left d.peers + usable alive < n
      → Fewer n (dropped lib net genesis magic d alive next)
  unfolding next_alive
  dropped-Fewer d alive n none e lt = tt
  dropped-Fewer d alive n (some p) e lt =
      let up =
        first_alive-get_or alive (length alive) p (round_from (length alive) d.cur 1 (length alive))
          e in
      request_locator-Fewer (record d { alive = alive; cur = p }) n (ground arith)

  drop_current-Fewer :
      (d : Driver Header) (n : ℕ)
      → rounds_left d ≤ n
      → Fewer n (drop_current lib net genesis magic d)
  drop_current-Fewer d n le =
      dropped-Fewer d (set d.alive d.cur false) n (next_alive (set d.alive d.cur false) d.cur) refl
        (ground (arith, usable-set d.alive d.cur))

  counted-Fewer :
      (d : Driver Header) (out : ConnectOutcome) (n : ℕ) (work tip : Option ℕ)
      → rounds_left d < n
      → Fewer n (counted lib net genesis magic d out work tip)
  counted-Fewer d out n none tip lt = tt
  counted-Fewer d out n (some work) none lt = tt
  counted-Fewer d out n (some work) (some tip) lt = lt

  connected-Fewer :
      (d : Driver Header) (n : ℕ) (r : Result (ConnectOutcome × Chain Header))
      → rounds_left d < n
      → Fewer n (connected lib net genesis magic d r)
  connected-Fewer d n (Result.err e) lt = tt
  connected-Fewer d n (Result.ok (out, core)) lt =
      counted-Fewer (record d { core = core }) out n (chainwork core) (tip_height core) lt

  flag_le : (b : Bool) → (if b then 0 else 1) ≤ 1
  flag_le b = ground arith

  fetched-Fewer :
      (d : Driver Header) (headers : List Header) (last n : ℕ) (r : Reply (Fetch Header))
      → prefetch d.peers d.alive d.cur last ≡ r
      → 2 * frames_left d.peers + usable d.alive + 1 < n
      → Fewer n (fetched lib net genesis magic d headers r)
  fetched-Fewer d headers last n (err e) is lt = tt
  fetched-Fewer d headers last n (ok f) is lt =
      let (same, le) = prefetch-Spares d.peers d.alive d.cur last f is in
      connected-Fewer
        (record d { peers = f.peers; alive = f.alive; cur = unwrap_or f.holder d.cur }) n
        (connect_headers lib net d.core headers)
        (omega (arith, flag_le (get_or f.alive (unwrap_or f.holder d.cur) false)))

  react-Fewer :
      (d : Driver Header) (n k : ℕ) (s : Session Header) (r : Reply (List Header))
      → Below k (r, s)
      → 2 * frames_left d.peers + 2 * k ≤ n + 2 * length s.incoming
      → Fewer
          (n + usable d.alive + (if get_or d.alive d.cur false then 0 else 1))
          (react lib net genesis magic d r)
  unfolding react
  react-Fewer d n k s (err e) below le =
      drop_current-Fewer d (n + usable d.alive + (if get_or d.alive d.cur false then 0 else 1))
        (omega (arith, below.1))
  react-Fewer d n k s (ok []) below le = tt
  react-Fewer d n k s (ok (first ∷ rest)) below le =
      fetched-Fewer d (first ∷ rest) (lib.block_hash (last_header first rest))
        (n + usable d.alive + (if get_or d.alive d.cur false then 0 else 1))
        (prefetch d.peers d.alive d.cur (lib.block_hash (last_header first rest))) refl
        (omega (arith, below))

  listened-Fewer :
      (d : Driver Header) (o : Option (Peer Header))
      → get_elem? d.peers d.cur ≡ o
      → Fewer (rounds_left d) (listened lib net genesis magic d o)
  unfolding listened
  listened-Fewer d none e = tt
  listened-Fewer d (some peer) e =
      let (reply, s) = read_headers magic peer.session in
      react-Fewer (record d { peers = set d.peers d.cur (with_session peer s) })
        (2 * frames_left d.peers) (length peer.session.incoming) s reply
        (read_headers-Below magic peer.session)
        (omega (arith, frames_left-set d.peers d.cur peer (with_session peer s) e))

  step-Fewer : (d : Driver Header) → Fewer (rounds_left d) (step lib net genesis magic d)
  unfolding step
  step-Fewer d = listened-Fewer d (get_elem? d.peers d.cur) refl

  run_loop_ends :
      (fuel : ℕ) (r : Round Header)
      → Fewer fuel r
      → (out : Ended × Chain Header) × (run_loop lib net genesis magic fuel r ≡ some out)
  unfolding run_loop
  run_loop_ends fuel (ends e core) fewer = ((e, core), refl)
  run_loop_ends zero (again d) fewer = absurd (omega arith)
  run_loop_ends (suc fuel) (again d) fewer =
      run_loop_ends fuel (step lib net genesis magic d)
        (Fewer_mono (step lib net genesis magic d) (omega arith) (step-Fewer d))
    where
      Fewer_mono :
          (r : Round Header) → rounds_left d ≤ fuel → Fewer (rounds_left d) r → Fewer fuel r
      Fewer_mono (ends e core) le f = tt
      Fewer_mono (again d') le f = omega arith

  round_fuel-Fewer : (r : Round Header) → Fewer (round_fuel r) r
  round_fuel-Fewer (ends e core) = tt
  round_fuel-Fewer (again d) = omega arith

module _ {Header : Type 0} (lib : Bitcoin Header) (net : Network) (genesis : Header) where
  -- The fuel of a run is enough against peers that close after what they send, whatever that is and
  -- whichever writes fail.
  pub run_ends :
      (world : World Header) (config : Config) (core : Chain Header) (candidates : List ℕ)
      → (out : Ended × Chain Header) × ((run lib net genesis world config core candidates).0
          ≡ some out)
  unfolding run
  run_ends world config core candidates =
      let (pool, left) =
        fill world (record { peers = []; attempts = 0 }) candidates (max config.peers 1)
          config.limit (start_height core) in
      let r = started lib net genesis world.magic core pool.peers in
      run_loop_ends lib net genesis world.magic (round_fuel r) r
        (round_fuel-Fewer lib net genesis world.magic r)
