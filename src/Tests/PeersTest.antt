-- ===== src/Tests/PeersTest.antt =====
-- Sessions and pools of peers that follow a script.
use rsk.Prelude.{
  ℕ, ◌≡◌, ◌≢◌, ◌↔◌, ◌⊎◌, inr, refl, true, none, some, Option, List, [], ◌∷◌, ◌++◌, member, ◌==◌,
  if◌then◌else◌, Distinct,
}
use rsk.Prelude.Int.{pos}
use rsk.P2p.Message.{
  Payload, version, verack, wtxid_relay, send_addr_v2, ping, headers, other, VersionMessage, frame,
  garbled, Session, ok,
}
use rsk.P2p.Session.{handshake, read_headers}
use rsk.P2p.Session.Headers.{arrives, heard, frames, pongs, payloads}
use rsk.P2p.Session.Headers
use rsk.P2p.Session.Headers.{read_headers_lem}
use rsk.P2p.Session.Shakes
use rsk.P2p.Session.Shakes.{handshake_lem, told, verdict, acknowledged}
use rsk.P2p.Seeds.{resolve, extend_all, dedup, sort, dedup_after, Ascends, IsResolved, resolve_lem}
use rsk.Node.Peers.{candidates, World, Pool, fill}
use rsk.Node.Peers.Fill.{candidates_lem, fill-Filled, Filled, AllNew}
use rsk.Tests.Sample.{ToyHeader}
use rsk.Tests.ConnectTest.{two}

abbrev pub hello : VersionMessage
hello = record {
  version = 70001;
  services = 1;
  timestamp = 7;
  receiver = 10;
  sender = 20;
  nonce = 3;
  user_agent = 47 ∷ [];
  start_height = pos 2;
}

-- A stream that can be written, with nothing to read.
abbrev pub silent : Session ToyHeader
silent = record { incoming = []; write_ok = λ n. true; writes = 0; sent = [] }

abbrev talk : List (ℕ × Payload ToyHeader)
talk = (24, wtxid_relay) ∷ (24, send_addr_v2) ∷ []

abbrev chatter : List (ℕ × Payload ToyHeader)
chatter = (32, ping 5) ∷ (90, other 77) ∷ (32, ping 6) ∷ []

read_headers_lem_example :
    (s' : Session ToyHeader) × (read_headers 8
        (arrives silent (Headers.script 8 200 refl two (garbled ∷ []) chatter))
      ≡ (ok two, s'))
    × (s'.incoming ≡ garbled ∷ [])
    × (s'.sent ≡ [] ++ pongs (payloads chatter))
read_headers_lem_example =
    read_headers_lem 8 200 refl two (garbled ∷ []) chatter silent (λ n. refl)
      ((refl, refl), ((refl, refl), ((refl, refl), tt)))

-- A peer that pings before its `verack`.
abbrev last : Payload ToyHeader
last = ping 5

handshake_lem_example :
    handshake 8 hello
      (arrives silent (frame 8 100 (version hello) ∷ Shakes.script 8 32 refl last refl [] talk))
    ≡ (verdict (told hello) last, heard (acknowledged silent hello) last [])
handshake_lem_example =
    handshake_lem 8 32 refl last refl [] hello hello talk silent 100 refl (λ n. refl)
      ((refl, refl), ((refl, refl), tt))

abbrev pub lookup : ℕ → Option (List ℕ)
lookup host = if host == 1 then some (5 ∷ 3 ∷ []) else if host == 2 then some (4 ∷ 5 ∷ []) else none

abbrev seeds : List ℕ
seeds = 1 ∷ 9 ∷ 2 ∷ []

resolve_lem_example :
    Ascends (resolve lookup seeds)
    × ((a : ℕ) → (member a (resolve lookup seeds) ≡ true) ↔ IsResolved lookup seeds a)
resolve_lem_example = resolve_lem lookup seeds

resolved : resolve lookup (1 ∷ 2 ∷ 9 ∷ []) ≡ 3 ∷ 4 ∷ 5 ∷ []
unfolding resolve extend_all dedup sort dedup_after
resolved = refl

some_seeds : seeds ≢ []
some_seeds e = cc e

candidates_lem_example :
    (fresh : List ℕ) × ((candidates lookup (1 ∷ []) (3 ∷ 3 ∷ []) seeds).0 ≡ (3 ∷ 3 ∷ []) ++ fresh)
    × Distinct fresh
    × AllNew (3 ∷ 3 ∷ []) fresh
    × ((a : ℕ)
        → (member a (candidates lookup (1 ∷ []) (3 ∷ 3 ∷ []) seeds).0 ≡ true)
          ↔ ((member a (3 ∷ 3 ∷ []) ≡ true) ⊎ IsResolved lookup seeds a))
    × ((h : ℕ)
        → (member h (candidates lookup (1 ∷ []) (3 ∷ 3 ∷ []) seeds).1 ≡ true)
          ↔ ((member h seeds ≡ true) × (lookup h ≡ none)))
candidates_lem_example =
    candidates_lem lookup (1 ∷ []) (3 ∷ 3 ∷ []) seeds seeds (inr (some_seeds, refl))

-- The address 4 answers with two headers and then with none; no other one connects.
abbrev scripted : Session ToyHeader
scripted = record {
  incoming =
      frame 8 100 (version hello)
      ∷ frame 8 24 verack
      ∷ frame 8 200 (headers two)
      ∷ frame 8 32 (ping 5)
      ∷ frame 8 25 (headers [])
      ∷ [];
  write_ok = λ n. true;
  writes = 0;
  sent = [];
}

abbrev pub world : World ToyHeader
world = record {
  dial = λ addr. if addr == 4 then some (20, scripted) else none;
  magic = 8;
  protocol_version = 70001;
  services_none = 0;
  now_unix = λ addr. 7;
  nonce = λ addr. addr;
  user_agent = 47 ∷ [];
}

abbrev empty_pool : Pool ToyHeader
empty_pool = record { peers = []; attempts = 0 }

fill-Filled_example :
    Filled world 1 8
      (pos 0)
      empty_pool
      (3 ∷ 4 ∷ 5 ∷ [])
      (fill world empty_pool (3 ∷ 4 ∷ 5 ∷ []) 1 8 (pos 0)).0
      (fill world empty_pool (3 ∷ 4 ∷ 5 ∷ []) 1 8 (pos 0)).1
fill-Filled_example = fill-Filled world 1 8 (pos 0) (3 ∷ 4 ∷ 5 ∷ []) empty_pool
