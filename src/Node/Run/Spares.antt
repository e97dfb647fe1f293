-- ===== src/Node/Run/Spares.antt =====
-- Requests read no frames and revive no peers.
use rsk.Prelude.{
  ℕ, zero, suc, ◌+◌, ◌≤◌, ◌≡◌, refl, ap, ◌∙◌, Bool, true, false, none, some, List, [], ◌∷◌, length,
  get_elem?, get_or, set, unwrap_or, if◌then◌else◌, arith, Bool-cases, Option-cases, inl, inr,
}
use rsk.P2p.Message.{Session, Reply, ok, err}
use rsk.P2p.Session.{request_headers, send}
use rsk.Node.Peers.{Peer}
use rsk.Node.Sync.{first_alive, round_from}
use rsk.Node.Fetch.{Fetch, ask, with_session, prefetch_rounds, prefetch, answered}
use rsk.Node.Run.{frames_left, usable}

pub usable-set :
    (alive : List Bool) (i : ℕ)
    → usable (set alive i false) + (if get_or alive i false then 1 else 0) ≡ usable alive
usable-set [] i = refl
usable-set (true ∷ alive) zero = refl
usable-set (false ∷ alive) zero = omega arith
usable-set (true ∷ alive) (suc i) = omega (arith, usable-set alive i)
usable-set (false ∷ alive) (suc i) = usable-set alive i

pub first_alive-get_or :
    (alive : List Bool) (n p : ℕ) (ps : List ℕ)
    → first_alive alive n ps ≡ some p
    → get_or alive p false ≡ true
first_alive-get_or alive n p [] e = cc e
first_alive-get_or alive n p (q ∷ ps) e = elim (Bool-cases (get_or alive q false)) [
  | inl up ↦ cc (up, rw up at e)
  | inr down ↦ first_alive-get_or alive n p ps (rw down at e)
]

module _ {Header : Type 0} where
  pub frames_left-set :
      (peers : List (Peer Header)) (i : ℕ) (p q : Peer Header)
      → get_elem? peers i ≡ some p
      → frames_left (set peers i q) + length p.session.incoming
        ≡ frames_left peers + length q.session.incoming
  frames_left-set [] i p q e = cc e
  frames_left-set (r ∷ peers) zero p q e =
      let same : length r.session.incoming ≡ length p.session.incoming =
        ap (λ o. length (unwrap_or o p).session.incoming) e in
      omega arith
  frames_left-set (r ∷ peers) (suc i) p q e = omega (arith, frames_left-set peers i p q e)

  incoming-send :
      (hashes : List ℕ) (s : Session Header) → (request_headers hashes 0 s).1.incoming ≡ s.incoming
  unfolding request_headers send
  incoming-send hashes s = elim (Bool-cases (s.write_ok s.writes)) [
    | inl writable ↦ rw writable refl
    | inr broken ↦ rw broken refl
  ]

  pub frames_left-ask :
      (peers : List (Peer Header)) (i : ℕ) (hashes : List ℕ)
      → frames_left (ask peers i hashes).1 ≡ frames_left peers
  unfolding ask
  frames_left-ask peers i hashes = elim (Option-cases (get_elem? peers i)) [
    | inl out ↦ rw (out, ask) refl
    | inr (p, there) ↦
        rw (there, ask)
          (omega (
            arith,
            frames_left-set peers i p (with_session p (request_headers hashes 0 p.session).1) there,
            ap length (incoming-send hashes p.session),
          ))
  ]

  -- A fetch reads no frame and revives no peer.
  abbrev pub Spares : List (Peer Header) → List Bool → Fetch Header → Type 0
  Spares peers alive f = (frames_left f.peers ≡ frames_left peers) × (usable f.alive ≤ usable alive)

  asked-Spares :
      (peers : List (Peer Header)) (alive : List Bool) (p : ℕ)
      (retry : List (Peer Header) → Fetch Header) (r : Reply (Unit {0}) × List (Peer Header))
      → frames_left r.1 ≡ frames_left peers
      → ((peers' : List (Peer Header)) → Spares peers' (set alive p false) (retry peers'))
      → Spares peers alive (elim r.0 [
        | err e ↦ retry r.1
        | ok _ ↦ record { peers = r.1; alive = alive; holder = some p }
      ])
  asked-Spares peers alive p retry (ok a, peers') same more = (same, omega arith)
  asked-Spares peers alive p retry (err e, peers') same more =
      ((more peers').0 ∙ same, omega (arith, (more peers').1, usable-set alive p))

  prefetch_rounds-Spares :
      (rounds : List ℕ) (last : ℕ) (peers : List (Peer Header)) (alive : List Bool)
      → Spares peers alive (prefetch_rounds rounds last peers alive)
  unfolding prefetch_rounds
  prefetch_rounds-Spares [] last peers alive = (refl, omega arith)
  prefetch_rounds-Spares (p ∷ rounds) last peers alive = elim (Bool-cases (get_or alive p false)) [
    | inr down ↦ rw down (prefetch_rounds-Spares rounds last peers alive)
    | inl up ↦ rw up (
        asked-Spares peers alive p
          (λ peers'. prefetch_rounds rounds last peers' (set alive p false))
          (ask peers p (last ∷ [])) (frames_left-ask peers p (last ∷ []))
          (λ peers'. prefetch_rounds-Spares rounds last peers' (set alive p false)))
  ]

  answered-Spares :
      (peers : List (Peer Header)) (alive : List Bool) (from : ℕ)
      (r : Reply (Unit {0}) × List (Peer Header)) (f : Fetch Header)
      → answered r alive from ≡ ok f
      → frames_left r.1 ≡ frames_left peers
      → Spares peers alive f
  answered-Spares peers alive from (err e, peers') f is same = cc is
  answered-Spares peers alive from (ok a, peers') f is same =
      let f_is : record { peers = peers'; alive = alive; holder = some from } ≡ f = cc is in
      rw (← f_is) (same, omega arith)

  pub prefetch-Spares :
      (peers : List (Peer Header)) (alive : List Bool) (from last : ℕ) (f : Fetch Header)
      → prefetch peers alive from last ≡ ok f
      → Spares peers alive f
  unfolding prefetch
  prefetch-Spares peers alive from last f e =
      chosen (prefetch_rounds (round_from (length peers) from 1 (length peers)) last peers alive)
        (prefetch_rounds-Spares (round_from (length peers) from 1 (length peers)) last peers alive)
        e
    where
      chosen :
          (g : Fetch Header)
          → Spares peers alive g
          → (elim g.holder [
            | some p ↦ ok g
            | none ↦ answered (ask g.peers from (last ∷ [])) g.alive from
          ])
            ≡ ok f
          → Spares peers alive f
      chosen g spares is = elim (Option-cases g.holder) [
        | inr (p, held) ↦ let g_is : g ≡ f = cc (rw held at is) in rw (← g_is) spares
        | inl free ↦
            let (same, le) =
              answered-Spares g.peers g.alive from (ask g.peers from (last ∷ [])) f (rw free at is)
                (frames_left-ask g.peers from (last ∷ [])) in
            (same ∙ spares.0, omega (arith, le, spares.1))
      ]
