-- ===== src/Node/Fetch.antt =====
-- `prefetch` of crates/rsk/src/sync.rs: the request for the next batch, which goes round the pool.
use rsk.Prelude.{
  ℕ, Bool, false, Option, none, some, List, [], ◌∷◌, length, get_elem?, get_or, set, if◌then◌else◌,
}
use rsk.P2p.Message
use rsk.P2p.Message.{Session, Reply, ok, err}
use rsk.P2p.Session.{request_headers}
use rsk.Node.Peers.{Peer}
use rsk.Node.Sync.{round_from}

-- What a prefetch leaves: the peers, those alive, and the one that holds the request.
pub record Fetch (Header : Type 0) : Type 0 where
  pub peers : List (Peer Header)
  pub alive : List Bool
  pub holder : Option ℕ

module _ {Header : Type 0} where
  abbrev pub with_session : Peer Header → Session Header → Peer Header
  with_session peer s = record peer { session = s }

  -- A request to the peer at an index. The indices are in range; one that is not would panic, and reads
  -- as an error of the stream here.
  unfoldable pub ask : List (Peer Header) → ℕ → List ℕ → Reply (Unit {0}) × List (Peer Header)
  ask peers p hashes = elim (get_elem? peers p) [
    | none ↦ (err Message.io, peers)
    | some peer ↦
        let (reply, s) = request_headers hashes 0 peer.session in
        (reply, set peers p (with_session peer s))
  ]

  -- The rounds of `prefetch`: the next alive peer that takes the request.
  unfoldable pub prefetch_rounds : List ℕ → ℕ → List (Peer Header) → List Bool → Fetch Header
  prefetch_rounds [] last peers alive = record { peers = peers; alive = alive; holder = none }
  prefetch_rounds (p ∷ rounds) last peers alive =
      let (reply, asked) = ask peers p (last ∷ []) in
      let skip = prefetch_rounds rounds last peers alive in
      let drop_peer = prefetch_rounds rounds last asked (set alive p false) in
      let took : Fetch Header = record { peers = asked; alive = alive; holder = some p } in
      if get_or alive p false then elim reply [ err e ↦ drop_peer | ok _ ↦ took ] else skip

  abbrev pub answered :
      Message.Reply (Unit {0}) × List (Peer Header) → List Bool → ℕ → Reply (Fetch Header)
  answered (err e, peers) alive from = err e
  answered (ok _, peers) alive from =
      ok (record { peers = peers; alive = alive; holder = some from })

  -- Where no peer took it, the peer that was read from is asked.
  unfoldable pub prefetch : List (Peer Header) → List Bool → ℕ → ℕ → Reply (Fetch Header)
  prefetch peers alive from last =
      let n = length peers in
      let f = prefetch_rounds (round_from n from 1 n) last peers alive in
      elim f.holder [ some p ↦ ok f | none ↦ answered (ask f.peers from (last ∷ [])) f.alive from ]
