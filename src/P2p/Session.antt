-- ===== src/P2p/Session.antt =====
-- The session of crates/btc-p2p/src/session.rs and the frames of codec.rs. A stream is read frame by
-- frame; the encoding of a frame is that of the `bitcoin` package.
pub mod Headers
pub mod Ends
pub mod Shakes
use rsk.Prelude.{
  ℕ, zero, suc, ◌+◌, Bool, true, false, List, [], ◌∷◌, ◌++◌, ◌==◌, leb, length, if◌then◌else◌,
}
use rsk.Prelude.Int.{ℤ}
use rsk.P2p.Message.{
  Payload, version, verack, wtxid_relay, send_addr_v2, ping, pong, get_headers, headers,
  VersionMessage, Command, version_cmd, verack_cmd, cmd, Error, io, consensus, protocol,
  out_of_fuel, unexpected_message, Received, frame, garbled, Session, Reply, err, ok, M, pure, fail,
  and_then, ◌>>=◌, ◌>>◌,
}

abbrev pub max_message_size : ℕ
max_message_size = 5000000

-- What the peer told in its `version` message.
pub record Handshake : Type 0 where
  pub version : ℕ
  pub services : ℕ
  pub user_agent : List ℕ
  pub start_height : ℤ

module _ {Header : Type 0} where
  -- A frame that is cut off at the size limit does not decode.
  abbrev decode : Received Header → Reply (ℕ × Payload Header)
  decode (frame m size p) = if leb size max_message_size then ok (m, p) else err consensus
  decode garbled = err consensus

  -- The end of the stream is an error of the decoder. Each read meets the next item, so what the
  -- decoder leaves of a frame above the limit is the item behind it.
  unfoldable pub read_message : M Header (ℕ × Payload Header)
  read_message s = elim s.incoming [
    | [] ↦ (err consensus, s)
    | r ∷ rest ↦ (decode r, record s { incoming = rest })
  ]

  -- `write_message` and `send`.
  unfoldable pub send : Payload Header → M Header (Unit {0})
  send p s =
      if s.write_ok s.writes
      then (ok tt, record s { writes = s.writes + 1; sent = s.sent ++ p ∷ [] })
      else (err io, record s { writes = s.writes + 1 })

  -- The message is returned also where it was a `ping`.
  abbrev pub answer : Payload Header → M Header (Payload Header)
  answer (ping nonce) = do send (pong nonce); pure (ping nonce)
  answer msg = pure msg

  abbrev pub handshake_of : Payload Header → M Header Handshake
  handshake_of (version v) = pure (record {
    version = v.version;
    services = v.services;
    user_agent = v.user_agent;
    start_height = v.start_height;
  })
  handshake_of msg = fail (unexpected_message version_cmd (cmd msg))

  -- A message while the `verack` is awaited.
  abbrev pub until_verack : M Header (Unit {0}) → Payload Header → M Header (Unit {0})
  until_verack more verack = pure tt
  until_verack more wtxid_relay = more
  until_verack more send_addr_v2 = more
  until_verack more refused = fail (unexpected_message verack_cmd (cmd refused))

  -- A message while headers are awaited.
  abbrev pub until_headers : M Header (List Header) → Payload Header → M Header (List Header)
  until_headers more (headers hs) = pure hs
  until_headers more chatter = more

  unfoldable pub request_headers : List ℕ → ℕ → M Header (Unit {0})
  unfolding send
  request_headers locator stop = send (get_headers locator stop)

module _ {Header : Type 0} (magic : ℕ) where
  unfoldable pub read_message_for : M Header (Payload Header)
  unfolding read_message
  read_message_for = do msg ← read_message; if msg.0 == magic then pure msg.1 else fail protocol

  unfoldable pub next_message : M Header (Payload Header)
  unfolding read_message_for send
  next_message = do msg ← read_message_for; answer msg

  -- The loop up to the `verack`.
  unfoldable pub await_verack : ℕ → M Header (Unit {0})
  await_verack zero s = (err out_of_fuel, s)
  await_verack (suc fuel) s = and_then (next_message s) (until_verack (await_verack fuel))

  -- Each round reads a frame or fails, so the frames that arrive bound the rounds.
  abbrev await_verack_all : M Header (Unit {0})
  await_verack_all s = await_verack (suc (length s.incoming)) s

  unfoldable pub handshake : VersionMessage → M Header Handshake
  unfolding send
  handshake ours = do
    send (version ours)
    msg ← next_message
    shake ← handshake_of msg
    send verack
    await_verack_all
    pure shake

  unfoldable pub read_headers_loop : ℕ → M Header (List Header)
  read_headers_loop zero s = (err out_of_fuel, s)
  read_headers_loop (suc fuel) s =
      and_then (next_message s) (until_headers (read_headers_loop fuel))

  unfoldable pub read_headers : M Header (List Header)
  read_headers s = read_headers_loop (suc (length s.incoming)) s

  unfoldable pub session_get_headers : List ℕ → ℕ → M Header (List Header)
  unfolding request_headers
  session_get_headers locator stop = do request_headers locator stop; read_headers
