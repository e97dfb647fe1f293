-- ===== src/P2p/Session/Shakes.antt =====
-- What the handshake makes of the messages of a peer.
use rsk.Prelude.{
  ℕ, zero, suc, ◌+◌, ◌<◌, ◌≡◌, refl, ◌∙◌, ap, Bool, true, false, List, [], ◌∷◌, ◌++◌, arith, leb,
  length, All,
}
use rsk.P2p.Message.{
  Payload, version, verack, wtxid_relay, send_addr_v2, VersionMessage, verack_cmd, cmd,
  unexpected_message, Received, frame, Session, Reply, err, ok, and_then, pure,
}
use rsk.P2p.Session.{max_message_size, Handshake, send, next_message, await_verack, handshake}
use rsk.P2p.Session.Headers.{arrives, heard, frames, next_message-frame}

-- The messages that may come between `version` and `verack`.
abbrev pub negotiates : {Header : Type 0} → Payload Header → Bool
negotiates wtxid_relay = true
negotiates send_addr_v2 = true
negotiates _ = false

abbrev pub IsNegotiation : {Header : Type 0} → ℕ × Payload Header → Type 0
IsNegotiation (size, p) = (leb size max_message_size ≡ true) × (negotiates p ≡ true)

-- What the handshake returns for the message that ends it.
abbrev pub verdict {ℓ} : {Header : Type 0} {A : Type ℓ} → A → Payload Header → Reply A
verdict shake verack = ok shake
verdict shake p = err (unexpected_message verack_cmd (cmd p))

abbrev pub told : VersionMessage → Handshake
told v = record {
  version = v.version;
  services = v.services;
  user_agent = v.user_agent;
  start_height = v.start_height;
}

and_then-verdict :
    {Header : Type 0} (shake : Handshake) (s : Session Header) (p : Payload Header)
    → and_then {0, 0} (verdict {0} (tt {0}) p, s) (λ _. pure shake) ≡ (verdict shake p, s)
and_then-verdict shake s verack = refl
and_then-verdict shake s _ = refl

-- The stream after both sides told their versions.
abbrev pub acknowledged : {Header : Type 0} → Session Header → VersionMessage → Session Header
acknowledged s ours = record s {
  writes = s.writes + 1 + 1;
  sent = (s.sent ++ version ours ∷ []) ++ verack ∷ [];
}

module _ {Header : Type 0} (magic : ℕ) where
  round-negotiation :
      (s s' : Session Header) (fuel : ℕ) (p : Payload Header)
      → next_message magic s ≡ (ok p, s')
      → negotiates p ≡ true
      → await_verack magic (suc fuel) s ≡ await_verack magic fuel s'
  unfolding await_verack
  round-negotiation s s' fuel wtxid_relay e n = rw e refl
  round-negotiation s s' fuel send_addr_v2 e n = rw e refl
  round-negotiation s s' fuel _ e n = cc n

  round-verdict :
      (s s' : Session Header) (fuel : ℕ) (p : Payload Header)
      → next_message magic s ≡ (ok p, s')
      → negotiates p ≡ false
      → await_verack magic (suc fuel) s ≡ (verdict tt p, s')
  unfolding await_verack cmd
  round-verdict s s' fuel wtxid_relay e n = cc n
  round-verdict s s' fuel send_addr_v2 e n = cc n
  round-verdict s s' fuel _ e n = rw e refl

  heard-negotiation :
      (s : Session Header) (p : Payload Header) (rest : List (Received Header))
      → negotiates p ≡ true
      → heard s p rest ≡ arrives s rest
  heard-negotiation s wtxid_relay rest n = refl
  heard-negotiation s send_addr_v2 rest n = refl
  heard-negotiation s _ rest n = cc

  module _ (size : ℕ) (fits : leb size max_message_size ≡ true) (p : Payload Header)
      (last : negotiates p ≡ false) (rest : List (Received Header)) where
    -- The negotiation, the message that ends it, and more.
    abbrev pub script : List (ℕ × Payload Header) → List (Received Header)
    script talk = frames magic talk ++ frame magic size p ∷ rest

    await-script :
        (talk : List (ℕ × Payload Header)) (s : Session Header) (fuel : ℕ)
        → ((n : ℕ) → s.write_ok n ≡ true)
        → All IsNegotiation talk
        → length talk < fuel
        → await_verack magic fuel (arrives s (script talk)) ≡ (verdict tt p, heard s p rest)
    await-script talk s zero writable all enough = absurd (omega arith)
    await-script [] s (suc fuel) writable all enough =
        round-verdict (arrives s (script [])) (heard s p rest) fuel p
          (next_message-frame magic s writable size fits rest p) last
    await-script ((n, q) ∷ talk) s (suc fuel) writable ((n_fits, is), all) enough =
        round-negotiation (arrives s (frame magic n q ∷ script talk)) (heard s q (script talk)) fuel
          q (next_message-frame magic s writable n n_fits (script talk) q) is
        ∙ ap (await_verack magic fuel) (heard-negotiation s q (script talk) is)
        ∙ await-script talk s fuel writable all (omega arith)

    length-script : (talk : List (ℕ × Payload Header)) → length talk < suc (length (script talk))
    length-script [] = omega arith
    length-script ((n, q) ∷ talk) = omega (arith, length-script talk)

    -- Against a peer that tells its version, over a stream that can be written and in frames of the
    -- network within the size limit, the handshake sends ours and a `verack`, skips the
    -- negotiation, and ends with the first message that is none: it succeeds with what the peer
    -- told if that is a `verack`, and fails with the message's command if it is any other, a `ping`
    -- too.
    pub handshake_lem :
        (ours theirs : VersionMessage) (talk : List (ℕ × Payload Header)) (s : Session Header)
        (k : ℕ)
        → leb k max_message_size ≡ true
        → ((n : ℕ) → s.write_ok n ≡ true)
        → All IsNegotiation talk
        → handshake magic ours (arrives s (frame magic k (version theirs) ∷ script talk))
          ≡ (verdict (told theirs) p, heard (acknowledged s ours) p rest)
    unfolding handshake send
    handshake_lem ours theirs talk s k k_fits writable all =
        let s₁ : Session Header = record s {
          writes = s.writes + 1;
          sent = s.sent ++ version ours ∷ [];
        } in
        let heard_version =
          next_message-frame magic s₁ writable k k_fits (script talk) (version theirs) in
        rw (writable s.writes) (
          rw heard_version (
            rw (writable (s.writes + 1)) (
              rw
                (await-script talk (acknowledged s ours) (suc (length (script talk))) writable all
                  (length-script talk))
                (and_then-verdict (told theirs) (heard (acknowledged s ours) p rest) p))))
