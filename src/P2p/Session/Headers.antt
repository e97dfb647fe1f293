-- ===== src/P2p/Session/Headers.antt =====
-- What a client hears: each message that arrives, with the pongs that were sent.
use rsk.Prelude.{
  ℕ, zero, suc, ◌+◌, ◌<◌, ◌≡◌, refl, sym, ◌∙◌, ap, Bool, true, false, List, [], ◌∷◌, ◌++◌, arith,
  leb, length, All, ==_refl,
}
use mathlib.Core.List.{append_assoc, append-nil}
use rsk.P2p.Message.{
  Payload, version, verack, wtxid_relay, send_addr_v2, ping, pong, get_headers, headers, other,
  Received, frame, Session, ok,
}
use rsk.P2p.Session.{
  max_message_size, read_message_for, send, next_message, read_headers_loop, read_headers,
}

module _ {Header : Type 0} where
  -- The answer to a message.
  abbrev pub pongs_of : Payload Header → List (Payload Header)
  pongs_of (ping n) = pong n ∷ []
  pongs_of _ = []

  abbrev pub pongs : List (Payload Header) → List (Payload Header)
  pongs [] = []
  pongs (p ∷ ps) = pongs_of p ++ pongs ps

  -- The stream after a message was heard and answered.
  abbrev pub heard : Session Header → Payload Header → List (Received Header) → Session Header
  heard s (ping n) rest = record s {
    incoming = rest;
    writes = s.writes + 1;
    sent = s.sent ++ pong n ∷ [];
  }
  heard s _ rest = record s { incoming = rest }

  abbrev pub arrives : Session Header → List (Received Header) → Session Header
  arrives s incoming = record s { incoming = incoming }

module _ {Header : Type 0} (magic : ℕ) where
  -- Frames that the codec accepts.
  abbrev pub frames : List (ℕ × Payload Header) → List (Received Header)
  frames [] = []
  frames ((size, p) ∷ rest) = frame magic size p ∷ frames rest

  module _ (s : Session Header) (writable : (n : ℕ) → s.write_ok n ≡ true) (size : ℕ)
      (fits : leb size max_message_size ≡ true) (rest : List (Received Header)) where
    read_message_for-frame :
        (p : Payload Header)
        → read_message_for magic (arrives s (frame magic size p ∷ rest)) ≡ (ok p, arrives s rest)
    unfolding read_message_for
    read_message_for-frame p = rw fits (rw (==_refl magic) refl)

    send-pong : (n : ℕ) → send (pong n) (arrives s rest) ≡ (ok tt, heard s (ping n) rest)
    unfolding send
    send-pong n = rw (writable s.writes) refl

    -- A message that arrives is heard, and answered if it is a `ping`.
    pub next_message-frame :
        (p : Payload Header)
        → next_message magic (arrives s (frame magic size p ∷ rest)) ≡ (ok p, heard s p rest)
    unfolding next_message
    next_message-frame (ping n) = rw (read_message_for-frame (ping n)) (rw (send-pong n) refl)
    next_message-frame (version v) = rw (read_message_for-frame (version v)) refl
    next_message-frame verack = rw (read_message_for-frame verack) refl
    next_message-frame wtxid_relay = rw (read_message_for-frame wtxid_relay) refl
    next_message-frame send_addr_v2 = rw (read_message_for-frame send_addr_v2) refl
    next_message-frame (pong n) = rw (read_message_for-frame (pong n)) refl
    next_message-frame (get_headers l h) = rw (read_message_for-frame (get_headers l h)) refl
    next_message-frame (headers hs) = rw (read_message_for-frame (headers hs)) refl
    next_message-frame (other c) = rw (read_message_for-frame (other c)) refl

-- Not a `headers` message.
abbrev pub is_chatter : {Header : Type 0} → Payload Header → Bool
is_chatter (headers hs) = false
is_chatter _ = true

-- Chatter in frames that the codec accepts.
abbrev pub IsChatter : {Header : Type 0} → ℕ × Payload Header → Type 0
IsChatter (size, p) = (leb size max_message_size ≡ true) × (is_chatter p ≡ true)

abbrev pub payloads : {Header : Type 0} → List (ℕ × Payload Header) → List (Payload Header)
payloads [] = []
payloads ((size, p) ∷ rest) = p ∷ payloads rest

module _ {Header : Type 0} (magic : ℕ) where
  heard-writable :
      (s : Session Header) (p : Payload Header) (rest : List (Received Header)) (n : ℕ)
      → (heard s p rest).write_ok n ≡ s.write_ok n
  heard-writable s (ping k) rest n = refl
  heard-writable s (version v) rest n = refl
  heard-writable s verack rest n = refl
  heard-writable s wtxid_relay rest n = refl
  heard-writable s send_addr_v2 rest n = refl
  heard-writable s (pong k) rest n = refl
  heard-writable s (get_headers l h) rest n = refl
  heard-writable s (headers hs) rest n = refl
  heard-writable s (other c) rest n = refl

  heard-arrives :
      (s : Session Header) (p : Payload Header) (rest : List (Received Header))
      → arrives (heard s p rest) rest ≡ heard s p rest
  heard-arrives s (ping k) rest = refl
  heard-arrives s (version v) rest = refl
  heard-arrives s verack rest = refl
  heard-arrives s wtxid_relay rest = refl
  heard-arrives s send_addr_v2 rest = refl
  heard-arrives s (pong k) rest = refl
  heard-arrives s (get_headers l h) rest = refl
  heard-arrives s (headers hs) rest = refl
  heard-arrives s (other c) rest = refl

  heard-sent :
      (s : Session Header) (p : Payload Header) (rest : List (Received Header))
      → (heard s p rest).sent ≡ s.sent ++ pongs_of p
  heard-sent s (ping k) rest = refl
  heard-sent s (version v) rest = sym (append-nil s.sent)
  heard-sent s verack rest = sym (append-nil s.sent)
  heard-sent s wtxid_relay rest = sym (append-nil s.sent)
  heard-sent s send_addr_v2 rest = sym (append-nil s.sent)
  heard-sent s (pong k) rest = sym (append-nil s.sent)
  heard-sent s (get_headers l h) rest = sym (append-nil s.sent)
  heard-sent s (headers hs) rest = sym (append-nil s.sent)
  heard-sent s (other c) rest = sym (append-nil s.sent)

  -- A round of the loop that hears chatter.
  round-chatter :
      (s s' : Session Header) (fuel : ℕ) (p : Payload Header)
      → next_message magic s ≡ (ok p, s')
      → is_chatter p ≡ true
      → read_headers_loop magic (suc fuel) s ≡ read_headers_loop magic fuel s'
  unfolding read_headers_loop
  round-chatter s s' fuel (headers hs) e c = cc c
  round-chatter s s' fuel (ping k) e c = rw e refl
  round-chatter s s' fuel (version v) e c = rw e refl
  round-chatter s s' fuel verack e c = rw e refl
  round-chatter s s' fuel wtxid_relay e c = rw e refl
  round-chatter s s' fuel send_addr_v2 e c = rw e refl
  round-chatter s s' fuel (pong k) e c = rw e refl
  round-chatter s s' fuel (get_headers l h) e c = rw e refl
  round-chatter s s' fuel (other k) e c = rw e refl

  round-headers :
      (s s' : Session Header) (fuel : ℕ) (hs : List Header)
      → next_message magic s ≡ (ok (headers hs), s')
      → read_headers_loop magic (suc fuel) s ≡ (ok hs, s')
  unfolding read_headers_loop
  round-headers s s' fuel hs e = rw e refl

  module _ (size : ℕ) (fits : leb size max_message_size ≡ true) (hs : List Header)
      (rest : List (Received Header)) where
    -- What the peer sends: chatter, the headers, and more.
    abbrev pub script : List (ℕ × Payload Header) → List (Received Header)
    script chatter = frames magic chatter ++ frame magic size (headers hs) ∷ rest

    loop-script :
        (chatter : List (ℕ × Payload Header)) (s : Session Header) (fuel : ℕ)
        → ((n : ℕ) → s.write_ok n ≡ true)
        → All IsChatter chatter
        → length chatter < fuel
        → (s' : Session Header) × (read_headers_loop magic fuel (arrives s (script chatter))
            ≡ (ok hs, s'))
          × (s'.incoming ≡ rest)
          × (s'.sent ≡ s.sent ++ pongs (payloads chatter))
    loop-script chatter s zero writable chat enough = absurd (omega arith)
    loop-script [] s (suc fuel) writable chat enough = (
      arrives s rest,
      round-headers (arrives s (script [])) (arrives s rest) fuel hs
          (next_message-frame magic s writable size fits rest (headers hs)),
      refl,
      sym (append-nil s.sent),
    )
    loop-script ((n, p) ∷ chatter) s (suc fuel) writable ((n_fits, chats), chat) enough =
        let more = script chatter in
        let s₁ = heard s p more in
        let (s', e, i, w) =
          loop-script chatter s₁ fuel (λ k. heard-writable s p more k ∙ writable k) chat
            (omega arith) in
        (
          s',
          round-chatter (arrives s (frame magic n p ∷ more)) s₁ fuel p
                (next_message-frame magic s writable n n_fits more p) chats
              ∙ ap (read_headers_loop magic fuel) (sym (heard-arrives s p more))
              ∙ e,
          i,
          w
              ∙ ap (λ sent. sent ++ pongs (payloads chatter)) (heard-sent s p more)
              ∙ append_assoc s.sent (pongs_of p) (pongs (payloads chatter)),
        )

    length-script :
        (chatter : List (ℕ × Payload Header)) → length chatter < suc (length (script chatter))
    length-script [] = omega arith
    length-script ((n, p) ∷ chatter) = omega (arith, length-script chatter)

    -- Over a stream that can be written, a client that waits for headers gets those of the first
    -- `headers` message, whatever chatter arrives before it in frames of the network within the
    -- size limit; it answers each `ping` before it with its nonce, in order, and leaves what
    -- arrives after it unread.
    pub read_headers_lem :
        (chatter : List (ℕ × Payload Header)) (s : Session Header)
        → ((n : ℕ) → s.write_ok n ≡ true)
        → All IsChatter chatter
        → (s' : Session Header) × (read_headers magic (arrives s (script chatter)) ≡ (ok hs, s'))
          × (s'.incoming ≡ rest)
          × (s'.sent ≡ s.sent ++ pongs (payloads chatter))
    unfolding read_headers
    read_headers_lem chatter s writable chat =
        loop-script chatter s (suc (length (script chatter))) writable chat (length-script chatter)
