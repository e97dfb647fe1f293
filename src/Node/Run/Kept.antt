-- ===== src/Node/Run/Kept.antt =====
-- Requests keep the number of peers, and name peers of the pool only.
use rsk.Prelude.{
  ℕ, zero, suc, ◌+◌, ◌<◌, ◌≡◌, refl, ◌∙◌, Bool, false, none, some, List, [], ◌∷◌, length,
  length-set, get_elem?, get_or, set, All, arith, Bool-cases, Option-cases, inl, inr,
}
use rsk.P2p.Message.{Reply, ok, err}
use rsk.P2p.Session.{request_headers}
use rsk.Node.Peers.{Peer}
use rsk.Node.Sync.{first_alive, round_from}
use rsk.Node.Fetch.{Fetch, ask, with_session, prefetch_rounds, prefetch, answered}

pub round_from-lt : (n from i k : ℕ) → 0 < n → All (λ p. p < n) (round_from n from i k)
round_from-lt n from i zero some_peer = tt
round_from-lt n from i (suc k) some_peer = (omega arith, round_from-lt n from (i + 1) k some_peer)

pub first_alive-lt :
    (alive : List Bool) (n p : ℕ) (ps : List ℕ)
    → All (λ q. q < n) ps
    → first_alive alive n ps ≡ some p
    → p < n
first_alive-lt alive n p [] below e = cc e
first_alive-lt alive n p (q ∷ ps) below e = elim (Bool-cases (get_or alive q false)) [
  | inl up ↦ let same : q ≡ p = cc (rw up at e) in omega (arith, below.0)
  | inr down ↦ first_alive-lt alive n p ps below.1 (rw down at e)
]

module _ {Header : Type 0} where
  pub length-ask :
      (peers : List (Peer Header)) (i : ℕ) (hashes : List ℕ)
      → length (ask peers i hashes).1 ≡ length peers
  unfolding ask
  length-ask peers i hashes = elim (Option-cases (get_elem? peers i)) [
    | inl out ↦ rw (out, ask) refl
    | inr (p, there) ↦
        rw (there, ask) (length-set peers i (with_session p (request_headers hashes 0 p.session).1))
  ]

  -- As many peers and flags, and a holder among them.
  pub record Kept (n : ℕ) (f : Fetch Header) : Type 0 where
    pub peers_are : length f.peers ≡ n
    pub alive_are : length f.alive ≡ n
    pub holder_lt : (p : ℕ) → f.holder ≡ some p → p < n

  asked-Kept :
      (n : ℕ) (alive : List Bool) (p : ℕ) (retry : List (Peer Header) → Fetch Header)
      (r : Reply (Unit {0}) × List (Peer Header))
      → length r.1 ≡ n
      → length alive ≡ n
      → p < n
      → ((peers' : List (Peer Header)) → length peers' ≡ n → Kept n (retry peers'))
      → Kept n (elim r.0 [
        | err e ↦ retry r.1
        | ok _ ↦ record { peers = r.1; alive = alive; holder = some p }
      ])
  asked-Kept n alive p retry (err e, peers') same flags lt more = more peers' same
  asked-Kept n alive p retry (ok a, peers') same flags lt more = record {
    peers_are = same;
    alive_are = flags;
    holder_lt = λ q e. let is : p ≡ q = cc e in omega arith;
  }

  prefetch_rounds-Kept :
      (n : ℕ) (rounds : List ℕ) (last : ℕ) (peers : List (Peer Header)) (alive : List Bool)
      → All (λ p. p < n) rounds
      → length peers ≡ n
      → length alive ≡ n
      → Kept n (prefetch_rounds rounds last peers alive)
  unfolding prefetch_rounds
  prefetch_rounds-Kept n [] last peers alive below same flags = record {
    peers_are = same;
    alive_are = flags;
    holder_lt = λ q e. cc e;
  }
  prefetch_rounds-Kept n (p ∷ rounds) last peers alive below same flags =
      elim (Bool-cases (get_or alive p false)) [
        | inr down ↦ rw down (prefetch_rounds-Kept n rounds last peers alive below.1 same flags)
        | inl up ↦ rw up (
            asked-Kept n alive p (λ peers'. prefetch_rounds rounds last peers' (set alive p false))
              (ask peers p (last ∷ [])) (length-ask peers p (last ∷ []) ∙ same) flags below.0
              (λ peers' same'.
                prefetch_rounds-Kept n rounds last peers' (set alive p false) below.1 same'
                  (length-set alive p false ∙ flags)))
      ]

  answered-Kept :
      (n : ℕ) (alive : List Bool) (from : ℕ) (r : Reply (Unit {0}) × List (Peer Header))
      (f : Fetch Header)
      → answered r alive from ≡ ok f
      → length r.1 ≡ n
      → length alive ≡ n
      → from < n
      → Kept n f
  answered-Kept n alive from (err e, peers') f is same flags lt = cc is
  answered-Kept n alive from (ok a, peers') f is same flags lt =
      let f_is : record { peers = peers'; alive = alive; holder = some from } ≡ f = cc is in
      rw (← f_is) (record {
        peers_are = same;
        alive_are = flags;
        holder_lt = λ q e. let is : from ≡ q = cc e in omega arith;
      })

  pub prefetch-Kept :
      (peers : List (Peer Header)) (alive : List Bool) (from last : ℕ) (f : Fetch Header)
      → from < length peers
      → length alive ≡ length peers
      → prefetch peers alive from last ≡ ok f
      → Kept (length peers) f
  unfolding prefetch
  prefetch-Kept peers alive from last f lt flags e =
      let n = length peers in
      chosen (prefetch_rounds (round_from n from 1 n) last peers alive)
        (prefetch_rounds-Kept n (round_from n from 1 n) last peers alive
          (round_from-lt n from 1 n (omega arith)) refl flags)
        e
    where
      chosen :
          (g : Fetch Header)
          → Kept (length peers) g
          → (elim g.holder [
            | some p ↦ ok g
            | none ↦ answered (ask g.peers from (last ∷ [])) g.alive from
          ])
            ≡ ok f
          → Kept (length peers) f
      chosen g kept is = elim (Option-cases g.holder) [
        | inr (p, held) ↦ let g_is : g ≡ f = cc (rw held at is) in rw (← g_is) kept
        | inl free ↦
            answered-Kept (length peers) g.alive from (ask g.peers from (last ∷ [])) f
              (rw free at is) (length-ask g.peers from (last ∷ []) ∙ kept.peers_are) kept.alive_are
              lt
      ]
