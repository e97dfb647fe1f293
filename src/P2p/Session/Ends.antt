-- ===== src/P2p/Session/Ends.antt =====
-- The fuel of the message loops: each round reads a frame, so the number of frames that a peer sends
-- before it closes is enough.
use rsk.Prelude.{
  ℕ, zero, suc, ◌≤◌, ◌<◌, ◌≢◌, refl, List, [], ◌∷◌, arith, leb, length, ◌==◌, Bool-cases, inl, inr,
}
use rsk.P2p.Message.{
  Payload, version, verack, wtxid_relay, send_addr_v2, ping, pong, headers, io, consensus, protocol,
  out_of_fuel, unexpected_message, VersionMessage, Received, frame, garbled, Session, Reply, err,
  ok, M, and_then,
}
use rsk.P2p.Session.{
  max_message_size, read_message_for, send, next_message, await_verack, await_verack_all, answer,
  handshake_of, until_verack, until_headers, handshake, read_headers_loop, read_headers,
}
use rsk.P2p.Session.Headers.{arrives}

module _ {Header : Type 0} where
  -- A reply for which fewer than `n` frames are left, or which is an error other than the lack of fuel.
  abbrev pub Below {ℓ} : {A : Type ℓ} → ℕ → Reply A × Session Header → Type 0
  Below n (err e, s) = (e ≢ out_of_fuel) × (length s.incoming ≤ n)
  Below n (ok a, s) = length s.incoming < n

  -- The same where no frame was read.
  abbrev pub Within {ℓ} : {A : Type ℓ} → ℕ → Reply A × Session Header → Type 0
  Within n (err e, s) = (e ≢ out_of_fuel) × (length s.incoming ≤ n)
  Within n (ok a, s) = length s.incoming ≤ n

  and_then-Below {ℓ κ} :
      {A : Type ℓ} {B : Type κ} (n : ℕ) (r : Reply A × Session Header) (f : A → M Header B)
      → Below n r
      → ((a : A) (s : Session Header) → length s.incoming < n → Below n (f a s))
      → Below n (and_then r f)
  and_then-Below n (err e, s) f b next = b
  and_then-Below n (ok a, s) f b next = next a s b

  Below-Within {ℓ} :
      {A : Type ℓ} (n k : ℕ) (r : Reply A × Session Header) → k < n → Within k r → Below n r
  Below-Within n k (err e, s) lt b = (b.0, omega (arith, b.1))
  Below-Within n k (ok a, s) lt b = omega (arith, b)

  Below-mono {ℓ} :
      {A : Type ℓ} (n k : ℕ) (r : Reply A × Session Header) → k ≤ n → Below k r → Below n r
  Below-mono n k (err e, s) le b = (b.0, omega (arith, b.1))
  Below-mono n k (ok a, s) le b = omega (arith, b)

  Below-not_out_of_fuel {ℓ} :
      {A : Type ℓ} (n : ℕ) (r : Reply A × Session Header) → Below n r → r.0 ≢ err out_of_fuel
  Below-not_out_of_fuel n (err out_of_fuel, t) b e = b.0 refl
  Below-not_out_of_fuel n (err io, t) b e = cc e
  Below-not_out_of_fuel n (err consensus, t) b e = cc e
  Below-not_out_of_fuel n (err protocol, t) b e = cc e
  Below-not_out_of_fuel n (err (unexpected_message a c), t) b e = cc e
  Below-not_out_of_fuel n (ok a, t) b e = cc e

  send-Within : (p : Payload Header) (s : Session Header) → Within (length s.incoming) (send p s)
  unfolding send
  send-Within p s = elim (Bool-cases (s.write_ok s.writes)) [
    | inl writable ↦ rw writable (omega arith)
    | inr broken ↦ rw broken (λ e. cc e, omega arith)
  ]

  answer-Below :
      (n : ℕ) (p : Payload Header) (s : Session Header)
      → length s.incoming < n
      → Below n (answer p s)
  answer-Below n (ping k) s lt =
      and_then-Below n (send (pong k) s) _
        (Below-Within n (length s.incoming) (send (pong k) s) lt (send-Within (pong k) s))
        (λ _ s' lt'. lt')
  answer-Below n _ s lt = lt

  until_verack-Below :
      (n : ℕ) (more : M Header (Unit {0})) (p : Payload Header) (s : Session Header)
      → length s.incoming < n
      → Below n (more s)
      → Below n (until_verack more p s)
  until_verack-Below n more verack s lt goes = lt
  until_verack-Below n more wtxid_relay s lt goes = goes
  until_verack-Below n more send_addr_v2 s lt goes = goes
  until_verack-Below n more _ s lt goes = (λ e. cc e, omega arith)

  until_headers-Below :
      (n : ℕ) (more : M Header (List Header)) (p : Payload Header) (s : Session Header)
      → length s.incoming < n
      → Below n (more s)
      → Below n (until_headers more p s)
  until_headers-Below n more (headers hs) s lt goes = lt
  until_headers-Below n more _ s lt goes = goes

  handshake_of-Below :
      (n : ℕ) (p : Payload Header) (s : Session Header)
      → length s.incoming < n
      → Below n (handshake_of p s)
  handshake_of-Below n (version v) s lt = lt
  handshake_of-Below n _ s lt = (λ e. cc e, omega arith)

module _ {Header : Type 0} (magic : ℕ) where
  read_message_for-Below :
      (incoming : List (Received Header)) (s : Session Header)
      → Below (length incoming) (read_message_for magic (arrives s incoming))
  unfolding read_message_for
  read_message_for-Below [] s = (λ e. cc e, omega arith)
  read_message_for-Below (garbled ∷ rest) s = (λ e. cc e, omega arith)
  read_message_for-Below (frame m size p ∷ rest) s = elim (Bool-cases (leb size max_message_size)) [
    | inr long ↦ rw long (λ e. cc e, omega arith)
    | inl fits ↦ elim (Bool-cases (m == magic)) [
      | inl ours ↦ rw (fits, ours) (omega arith)
      | inr others ↦ rw (fits, others) (λ e. cc e, omega arith)
    ]
  ]

  next_message-Below : (s : Session Header) → Below (length s.incoming) (next_message magic s)
  unfolding next_message
  next_message-Below s =
      and_then-Below (length s.incoming) (read_message_for magic s) _
        (read_message_for-Below s.incoming s) (answer-Below (length s.incoming))

  await_verack-Below :
      (fuel : ℕ) (s : Session Header)
      → length s.incoming < fuel
      → Below (length s.incoming) (await_verack magic fuel s)
  unfolding await_verack
  await_verack-Below zero s enough = absurd (omega arith)
  await_verack-Below (suc fuel) s enough =
      and_then-Below (length s.incoming) (next_message magic s) _ (next_message-Below s) (λ p s' lt.
        until_verack-Below (length s.incoming) (await_verack magic fuel) p s' lt (
          Below-mono (length s.incoming) (length s'.incoming) (await_verack magic fuel s')
            (omega arith) (await_verack-Below fuel s' (omega arith))))

  read_headers_loop-Below :
      (fuel : ℕ) (s : Session Header)
      → length s.incoming < fuel
      → Below (length s.incoming) (read_headers_loop magic fuel s)
  unfolding read_headers_loop
  read_headers_loop-Below zero s enough = absurd (omega arith)
  read_headers_loop-Below (suc fuel) s enough =
      and_then-Below (length s.incoming) (next_message magic s) _ (next_message-Below s) (λ p s' lt.
        until_headers-Below (length s.incoming) (read_headers_loop magic fuel) p s' lt (
          Below-mono (length s.incoming) (length s'.incoming) (read_headers_loop magic fuel s')
            (omega arith) (read_headers_loop-Below fuel s' (omega arith))))

  pub read_headers-Below : (s : Session Header) → Below (length s.incoming) (read_headers magic s)
  unfolding read_headers
  read_headers-Below s = read_headers_loop-Below (suc (length s.incoming)) s (omega arith)

  send_then-Below {ℓ} :
      {A : Type ℓ} (n : ℕ) (p : Payload Header) (s : Session Header) (f : Unit {0} → M Header A)
      → length s.incoming < n
      → ((a : Unit {0}) (s' : Session Header) → length s'.incoming < n → Below n (f a s'))
      → Below n (and_then (send p s) f)
  send_then-Below n p s f lt next =
      and_then-Below n (send p s) f
        (Below-Within n (length s.incoming) (send p s) lt (send-Within p s)) next

  handshake-Below :
      (ours : VersionMessage) (s : Session Header)
      → Below (suc (length s.incoming)) (handshake magic ours s)
  unfolding handshake
  handshake-Below ours s =
      let n = suc (length s.incoming) in
      send_then-Below n (version ours) s _ (omega arith) (λ _ s₁ lt₁.
        and_then-Below n (next_message magic s₁) _
          (Below-mono n (length s₁.incoming) (next_message magic s₁) (omega arith)
            (next_message-Below s₁))
          (λ p s₂ lt₂.
            and_then-Below n (handshake_of p s₂) _ (handshake_of-Below n p s₂ lt₂) (λ shake s₃ lt₃.
              send_then-Below n verack s₃ _ lt₃ (λ _ s₄ lt₄.
                and_then-Below n (await_verack_all magic s₄) _
                  (Below-mono n (length s₄.incoming) (await_verack_all magic s₄) (omega arith)
                    (await_verack-Below (suc (length s₄.incoming)) s₄ (omega arith)))
                  (λ _ s₅ lt₅. lt₅)))))
