-- ===== src/Node/Peers/Fill.antt =====
-- The candidates in their order, and what a fill of the pool spends and gets.
use rsk.Prelude.{
  ℕ, ◌+◌, ◌≤◌, ◌<◌, ◌≡◌, ◌≢◌, ◌↔◌, true, if◌then◌else◌, Option-cases, nat-cases, refl, sym, ap, ◌∙◌,
  ◌⊎◌, inl, inr, false, ◌&&◌, Option, none, some, List, [], ◌∷◌, ◌++◌, ltb, length, length-append,
  member, Distinct, All, max, arith, Bool-cases,
}
use rsk.Prelude.{member-append_or}
use rsk.Prelude.Int.{ℤ}
use mathlib.Core.List.{append_assoc, append-nil}
use rsk.P2p.Seeds.{extend_all, IsResolved, extend_all_iff_IsResolved}
use rsk.Node.Peers.{
  push_new, resolve_hosts, hosts_or, candidates, World, Peer, Pool, connect, with_peer, fill,
}

stopped : (a b c d : ℕ) → (ltb a b && ltb c d) ≡ false → (b ≤ a) ⊎ (d ≤ c)
stopped a b c d e = ground arith

eq_member : (a x : ℕ) (out : List ℕ) → x ≡ a → member a out ≡ member x out
eq_member a x out e = ap (λ y. member y out) (sym e)

-- The new ones among the addresses, each once.
abbrev pub AllNew : List ℕ → List ℕ → Type 0
AllNew out fresh = All (λ a. member a out ≡ false) fresh

All-not-member_snoc :
    (out fresh : List ℕ) (x : ℕ)
    → AllNew (out ++ x ∷ []) fresh
    → AllNew out fresh × (member x fresh ≡ false)
All-not-member_snoc out [] x all = (tt, refl)
All-not-member_snoc out (y ∷ fresh) x all =
    let (rest, absent) = All-not-member_snoc out fresh x all.1 in
    let apart = member-append_or y out (x ∷ []) in
    let absent_y : member y (out ++ x ∷ []) ≡ false = all.0 in ((ground arith, rest), ground arith)

push_new_lem :
    (out addrs : List ℕ)
    → (fresh : List ℕ) × (push_new out addrs ≡ out ++ fresh)
      × Distinct fresh
      × AllNew out fresh
      × ((a : ℕ) → member a (out ++ fresh) ≡ member a (out ++ addrs))
unfolding push_new
push_new_lem out [] = ([], sym (append-nil out), tt, tt, λ a. refl)
push_new_lem out (x ∷ addrs) = elim (Bool-cases (member x out)) [
  | inl known ↦
      let (fresh, is, distinct, new, same) = push_new_lem out addrs in
      (
        fresh,
        rw known is,
        distinct,
        new,
        λ a.
            same a
            ∙ ground (
              arith,
              member-append_or a out addrs,
              member-append_or a out (x ∷ addrs),
              eq_member a x out,
            ),
      )
  | inr unknown ↦
      let (fresh, is, distinct, new, same) = push_new_lem (out ++ x ∷ []) addrs in
      let (new', absent) = All-not-member_snoc out fresh x new in
      (
        x ∷ fresh,
        rw unknown (is ∙ append_assoc out (x ∷ []) fresh),
        (absent, distinct),
        (unknown, new'),
        λ a.
            ap (member a) (sym (append_assoc out (x ∷ []) fresh))
            ∙ same a
            ∙ ap (member a) (append_assoc out (x ∷ []) addrs),
      )
]

resolve_hosts-eq-extend_all :
    (lookup_host : ℕ → Option (List ℕ)) (hosts : List ℕ)
    → (resolve_hosts lookup_host hosts).0 ≡ extend_all lookup_host hosts
unfolding resolve_hosts extend_all
resolve_hosts-eq-extend_all lookup_host [] = refl
resolve_hosts-eq-extend_all lookup_host (host ∷ hosts) = elim (Option-cases (lookup_host host)) [
  | inl fails ↦ rw (fails, resolve_hosts) (resolve_hosts-eq-extend_all lookup_host hosts)
  | inr (given, is) ↦
      rw (is, resolve_hosts) (ap (λ l. given ++ l) (resolve_hosts-eq-extend_all lookup_host hosts))
]

-- The hosts that do not resolve.
resolve_hosts-failed :
    (lookup_host : ℕ → Option (List ℕ)) (hosts : List ℕ) (h : ℕ)
    → (member h (resolve_hosts lookup_host hosts).1 ≡ true)
      ↔ ((member h hosts ≡ true) × (lookup_host h ≡ none))
unfolding resolve_hosts
resolve_hosts-failed lookup_host [] h = (λ e. cc e, λ e. cc e.0)
resolve_hosts-failed lookup_host (host ∷ hosts) h =
    let rest = resolve_hosts-failed lookup_host hosts h in
    elim (Option-cases (lookup_host host)) [
      | inl fails ↦
          rw (fails, resolve_hosts)
            (
              λ e. elim (nat-cases h host) [
                | inl same ↦ (ground arith, ap lookup_host same ∙ fails)
                | inr other ↦
                    let (among, none_there) = rest.0 (ground arith) in (ground arith, none_there)
              ],
              λ e. elim (nat-cases h host) [
                | inl same ↦ ground arith
                | inr other ↦ let below = rest.1 (ground arith, e.1) in ground arith
              ],
            )
      | inr (given, is) ↦
          rw (is, resolve_hosts)
            (
              λ e. let (among, none_there) = rest.0 e in (ground arith, none_there),
              λ e. elim (nat-cases h host) [
                | inl same ↦ cc (sym (ap lookup_host same ∙ is) ∙ e.1)
                | inr other ↦ rest.1 (ground arith, e.1)
              ],
            )
    ]

hosts_or-eq :
    (mainnet_seeds given_seeds hosts : List ℕ)
    → ((given_seeds ≡ []) × (hosts ≡ mainnet_seeds)) ⊎ ((given_seeds ≢ []) × (hosts ≡ given_seeds))
    → hosts_or mainnet_seeds given_seeds ≡ hosts
hosts_or-eq mainnet_seeds [] hosts (inl (_, is)) = sym is
hosts_or-eq mainnet_seeds [] hosts (inr (ne, _)) = absurd (ne refl)
hosts_or-eq mainnet_seeds (s ∷ ss) hosts (inl (gone, _)) = cc gone
hosts_or-eq mainnet_seeds (s ∷ ss) hosts (inr (_, is)) = sym is

-- The hosts are those given, or those of the main network where none is given. The candidates are
-- the given addresses, as they were given, and then each once, unless it was given, the addresses
-- that the name server gives for the hosts: an address is a candidate exactly if it was given or
-- one of the hosts has it. The hosts reported as failed are those that do not resolve.
pub candidates_lem :
    (lookup_host : ℕ → Option (List ℕ)) (mainnet_seeds addrs given_seeds hosts : List ℕ)
    → ((given_seeds ≡ []) × (hosts ≡ mainnet_seeds)) ⊎ ((given_seeds ≢ []) × (hosts ≡ given_seeds))
    → let (out, failed) = candidates lookup_host mainnet_seeds addrs given_seeds in
      (fresh : List ℕ) × (out ≡ addrs ++ fresh)
      × Distinct fresh
      × AllNew addrs fresh
      × ((a : ℕ)
          → (member a out ≡ true) ↔ ((member a addrs ≡ true) ⊎ IsResolved lookup_host hosts a))
      × ((h : ℕ) → (member h failed ≡ true) ↔ ((member h hosts ≡ true) × (lookup_host h ≡ none)))
unfolding candidates
candidates_lem lookup_host mainnet_seeds addrs given_seeds hosts asked =
    let same_hosts = hosts_or-eq mainnet_seeds given_seeds hosts asked in
    let resolved = (resolve_hosts lookup_host hosts).0 in
    let (fresh, is, distinct, new, same) = push_new_lem addrs resolved in
    rw same_hosts (
      fresh,
      is,
      distinct,
      new,
      λ a.
          let split : member a (push_new addrs resolved)
              ≡ (if member a addrs then true else member a resolved) =
            ap (member a) is ∙ same a ∙ member-append_or a addrs resolved in
          let there : member a resolved ≡ member a (extend_all lookup_host hosts) =
            ap (member a) (resolve_hosts-eq-extend_all lookup_host hosts) in
          let found = extend_all_iff_IsResolved lookup_host hosts a in
          (
            λ e. elim (Bool-cases (member a addrs)) [
              | inl given ↦ inl given
              | inr absent ↦ inr (found.0 (ground arith))
            ],
            λ e. elim e [
              | inl given ↦ ground arith
              | inr resolves ↦ let known = found.1 resolves in ground arith
            ],
          ),
      resolve_hosts-failed lookup_host hosts,
    )

module _ {Header : Type 0} (world : World Header) (want max_attempts : ℕ) (height : ℤ) where
  -- The peers among the addresses that connect.
  abbrev pub connected : List ℕ → List (Peer Header)
  connected [] = []
  connected (a ∷ others) = with_peer world [] (connect world a height) ++ connected others

  -- What a fill of the pool did: it dialled some candidates from the front, in order, kept those that
  -- connect, and stopped with enough peers, with no attempts left, or with no candidates left.
  pub record Filled (pool : Pool Header) (addrs : List ℕ) (pool' : Pool Header) (rest : List ℕ)
      : Type 0 where
    pub dialled : List ℕ
    pub split : addrs ≡ dialled ++ rest
    pub peers : pool'.peers ≡ pool.peers ++ connected dialled
    pub spent : pool'.attempts ≡ pool.attempts + length dialled
    pub attempts_le : pool'.attempts ≤ max pool.attempts max_attempts
    pub peers_le : length pool'.peers ≤ max (length pool.peers) want
    pub ended : (want ≤ length pool'.peers) ⊎ ((max_attempts ≤ pool'.attempts) ⊎ (rest ≡ []))

  with_peer-append :
      (peers : List (Peer Header)) (o : Option (Peer Header))
      → with_peer world peers o ≡ peers ++ with_peer world [] o
  with_peer-append peers none = sym (append-nil peers)
  with_peer-append peers (some p) = refl

  length-with_peer :
      (peers : List (Peer Header)) (o : Option (Peer Header))
      → length (with_peer world peers o) ≤ length peers + 1
  length-with_peer peers none = omega arith
  length-with_peer peers (some p) = omega (arith, length-append peers (p ∷ []))

  stop-Filled :
      (pool : Pool Header) (addrs : List ℕ)
      → (want ≤ length pool.peers) ⊎ ((max_attempts ≤ pool.attempts) ⊎ (addrs ≡ []))
      → Filled pool addrs pool addrs
  stop-Filled pool addrs ended = record {
    dialled = [];
    split = refl;
    peers = sym (append-nil pool.peers);
    spent = omega arith;
    attempts_le = omega arith;
    peers_le = omega arith;
    ended = ended;
  }

  -- A fill of the pool dials candidates from the front and keeps those that connect, in their
  -- order. Each candidate that is dialled is an attempt; there are no more attempts than the bound
  -- and no more peers than wanted, unless the pool had more of them before. The fill stops with as
  -- many peers as wanted, with all attempts spent, or with no candidates left.
  pub fill-Filled :
      (addrs : List ℕ) (pool : Pool Header)
      → Filled pool addrs
          (fill world pool addrs want max_attempts height).0
          (fill world pool addrs want max_attempts height).1
  unfolding fill
  fill-Filled [] pool = stop-Filled pool [] (inr (inr refl))
  fill-Filled (a ∷ others) pool =
      elim (Bool-cases (ltb (length pool.peers) want && ltb pool.attempts max_attempts)) [
        | inr stop ↦ rw stop (
            stop-Filled pool (a ∷ others) (elim (stopped _ _ _ _ stop) [
              | inl enough ↦ inl enough
              | inr spent ↦ inr (inl spent)
            ]))
        | inl go ↦
            let next : Pool Header = record {
              peers = with_peer world pool.peers (connect world a height);
              attempts = pool.attempts + 1;
            } in
            let f = fill-Filled others next in
            let few : length pool.peers < want = ground arith in
            let left : pool.attempts < max_attempts = ground arith in
            rw go (record {
              dialled = a ∷ f.dialled;
              split = ap (λ l. a ∷ l) f.split;
              peers =
                  f.peers
                  ∙ ap (λ l. l ++ connected f.dialled)
                      (with_peer-append pool.peers (connect world a height))
                  ∙ append_assoc pool.peers (with_peer world [] (connect world a height))
                      (connected f.dialled);
              spent = omega (arith, f.spent);
              attempts_le = omega (arith, f.attempts_le);
              peers_le =
                  omega (arith, f.peers_le, length-with_peer pool.peers (connect world a height));
              ended = f.ended;
            })
      ]
