-- ===== src/Node/Peers.antt =====
-- The candidates and the pool of crates/rsk/src/peers.rs, and `Session::connect` of
-- crates/btc-p2p/src/session.rs. Addresses are numbers; log lines are left out.
pub mod Fill
use rsk.Prelude.{
  ℕ, ◌+◌, ◌<◌, ◌≡◌, Bool, true, false, ◌&&◌, Option, none, some, List, [], ◌∷◌, ◌++◌, ltb, length,
  member, if◌then◌else◌,
}
use rsk.Prelude.Int.{ℤ}
use rsk.P2p.Message.{VersionMessage, Error, io, Session, Reply, ok, err}
use rsk.P2p.Session.{Handshake, handshake}

module _ (lookup_host : ℕ → Option (List ℕ)) where
  -- The addresses of the hosts that resolve, and the hosts that do not.
  unfoldable pub resolve_hosts : List ℕ → List ℕ × List ℕ
  resolve_hosts [] = ([], [])
  resolve_hosts (host ∷ hosts) =
      let (addrs, failed) = resolve_hosts hosts in
      elim (lookup_host host) [
        | none ↦ (addrs, host ∷ failed)
        | some found ↦ (found ++ addrs, failed)
      ]

-- An address is pushed unless it is there already.
unfoldable pub push_new : List ℕ → List ℕ → List ℕ
push_new out [] = out
push_new out (addr ∷ addrs) = push_new (if member addr out then out else out ++ addr ∷ []) addrs

abbrev pub hosts_or : List ℕ → List ℕ → List ℕ
hosts_or mainnet_seeds [] = mainnet_seeds
hosts_or mainnet_seeds (s ∷ ss) = s ∷ ss

unfoldable pub candidates : (ℕ → Option (List ℕ)) → List ℕ → List ℕ → List ℕ → List ℕ × List ℕ
candidates lookup_host mainnet_seeds addrs given_seeds =
    let (resolved, failed) = resolve_hosts lookup_host (hosts_or mainnet_seeds given_seeds) in
    (push_new addrs resolved, failed)

-- What the machine and the packages give: a connection to an address with our own address on it,
-- the protocol version and service flags of the `bitcoin` package, the clock, and the nonces.
pub record World (Header : Type 0) : Type 0 where
  pub dial : ℕ → Option (ℕ × Session Header)
  pub magic : ℕ
  pub protocol_version : ℕ
  pub services_none : ℕ
  pub now_unix : ℕ → ℕ
  pub nonce : ℕ → ℕ
  pub user_agent : List ℕ

pub record Peer (Header : Type 0) : Type 0 where
  pub addr : ℕ
  pub shake : Handshake
  pub session : Session Header

pub record Pool (Header : Type 0) : Type 0 where
  pub peers : List (Peer Header)
  pub attempts : ℕ

module _ {Header : Type 0} (world : World Header) where
  abbrev our_version : ℕ → ℕ → ℤ → VersionMessage
  our_version addr sender start_height = record {
    version = world.protocol_version;
    services = world.services_none;
    timestamp = world.now_unix addr;
    receiver = addr;
    sender = sender;
    nonce = world.nonce addr;
    user_agent = world.user_agent;
    start_height = start_height;
  }

  abbrev peer_of : ℕ → Reply Handshake × Session Header → Option (Peer Header)
  peer_of addr (err e, s) = none
  peer_of addr (ok shake, s) = some (record { addr = addr; shake = shake; session = s })

  -- `none` where the connection or the handshake fails.
  unfoldable pub connect : ℕ → ℤ → Option (Peer Header)
  connect addr start_height = elim (world.dial addr) [
    | none ↦ none
    | some (sender, s) ↦
        peer_of addr (handshake world.magic (our_version addr sender start_height) s)
  ]

  abbrev pub with_peer : List (Peer Header) → Option (Peer Header) → List (Peer Header)
  with_peer peers none = peers
  with_peer peers (some p) = peers ++ p ∷ []

  -- The pool, and the candidates that are left.
  unfoldable pub fill : Pool Header → List ℕ → ℕ → ℕ → ℤ → Pool Header × List ℕ
  fill pool [] want max_attempts start_height = (pool, [])
  fill pool (addr ∷ rest) want max_attempts start_height =
      let filled =
        fill
          (record {
            peers = with_peer pool.peers (connect addr start_height);
            attempts = pool.attempts + 1;
          })
          rest want max_attempts start_height in
      if ltb (length pool.peers) want && ltb pool.attempts max_attempts
      then filled
      else (pool, addr ∷ rest)
