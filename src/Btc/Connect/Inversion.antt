-- ===== src/Btc/Connect/Inversion.antt =====
-- The steps behind a successful connect: what each of them read and returned.
use rsk.Prelude.{
  ℕ, ◌≡◌, refl, ◌⊎◌, inl, inr, Option, some, List, [], ◌∷◌, arith, length, drop, Option-cases,
}
use rsk.Bitcoin.{Bitcoin, Network}
use rsk.Result.{ok, Result-cases}
use rsk.Btc.Store.Meta.{Chain, locate}
use rsk.Btc.Store.Walk.{work_at, header_at}
use rsk.Btc.Store.Put.{put_headers}
use rsk.Btc.Connect.Run.{validate_run}
use rsk.Btc.Connect.Finalize.{finalize_in_txn}
use rsk.Btc.Connect.{
  ConnectOutcome, Target, choose_target, select_best, entries_of, connect_run, connect_headers,
  network_ok, required_work, connect_behind, store_run, known_prefix, parent_hash, nothing_new,
  connect_new,
}

module _ {Header : Type 0} (lib : Bitcoin Header) where
  -- The last stage, for a run that was put.
  pub record Stored (txn : Chain Header) (target : Target Header) (base : ℕ) (run : List Header)
      (outcome : ConnectOutcome) (final : Chain Header) : Type 0 where
    pub stored : Chain Header
    pub put :
        put_headers lib target.txn target.fork (entries_of lib target.forkpoint base run)
        ≡ ok stored
    pub finalized :
        finalize_in_txn (select_best stored target.fork).1 ≡ ok (outcome.finalized, final)
    pub connected : outcome.connected ≡ length run
    pub best : outcome.best_fork ≡ some (select_best stored target.fork).0

  store_run-Stored :
      (txn : Chain Header) (target : Target Header) (base : ℕ) (run : List Header)
      (outcome : ConnectOutcome) (final : Chain Header)
      → store_run lib txn target base run ≡ ok (outcome, final)
      → Stored txn target base run outcome final
  unfolding store_run
  store_run-Stored txn target base run outcome final e =
      elim (Result-cases
        (put_headers lib target.txn target.fork (entries_of lib target.forkpoint base run))) [
          | inr (x, failed) ↦ cc (rw failed at e)
          | inl (stored, put) ↦
              elim (Result-cases (finalize_in_txn (select_best stored target.fork).1)) [
                | inr (x, failed) ↦ cc (rw (put, failed) at e)
                | inl ((advanced, last), done) ↦
                    let e' = rw (put, done) at e in
                    record {
                      stored = stored;
                      put = put;
                      finalized = cc (done, e');
                      connected = cc e';
                      best = cc e';
                    }
              ]
        ]

  -- The steps of `connect_run` for a run that was stored.
  pub record Steps (net : Network) (txn : Chain Header) (parent : ℕ) (first : Header)
      (rest : List Header) (outcome : ConnectOutcome) (final : Chain Header) : Type 0 where
    pub parent_fork : ℕ
    pub parent_height : ℕ
    pub target : Target Header
    pub base : ℕ
    pub located : locate txn parent ≡ some (parent_fork, parent_height)
    pub chosen : choose_target txn parent_fork parent_height (lib.block_hash first) ≡ ok target
    pub validated :
        validate_run lib net
          (header_at target.txn target.fork)
          (first ∷ rest)
          target.forkpoint
          target.forkpoint
          parent
          (first ∷ rest)
        ≡ ok tt
    pub base_work : work_at target.txn parent_fork parent_height ≡ some base
    pub last_stage : Stored txn target base (first ∷ rest) outcome final

  required_work-eq-ok : (o : Option ℕ) (w : ℕ) → required_work lib o ≡ ok w → o ≡ some w
  required_work-eq-ok o w e = ground arith

  pub connect_run-Steps :
      (net : Network) (txn : Chain Header) (parent : ℕ) (first : Header) (rest : List Header)
      (outcome : ConnectOutcome) (final : Chain Header)
      → connect_run lib net txn parent first rest ≡ ok (outcome, final)
      → Steps net txn parent first rest outcome final
  unfolding connect_run connect_behind
  connect_run-Steps net txn parent first rest outcome final e =
      let run = first ∷ rest in
      elim (Option-cases (locate txn parent)) [
        | inl unknown ↦ cc (rw (unknown, connect_run) at e)
        | inr ((f, h), located) ↦
            let e₁ = rw (located, connect_run) at e in
            elim (Result-cases (choose_target txn f h (lib.block_hash first))) [
              | inr (x, failed) ↦ cc (rw failed at e₁)
              | inl (target, chosen) ↦
                  let e₂ = rw chosen at e₁ in
                  elim (Result-cases (
                    validate_run lib net (header_at target.txn target.fork) run target.forkpoint
                      target.forkpoint parent run)) [
                        | inr (x, failed) ↦ cc (rw failed at e₂)
                        | inl (_, validated) ↦
                            let e₃ = rw validated at e₂ in
                            elim (Result-cases (required_work lib (work_at target.txn f h))) [
                              | inr (x, failed) ↦ cc (rw failed at e₃)
                              | inl (base, base_work) ↦ record {
                                parent_fork = f;
                                parent_height = h;
                                target = target;
                                base = base;
                                located = located;
                                chosen = chosen;
                                validated = validated;
                                base_work = required_work-eq-ok _ base base_work;
                                last_stage =
                                    store_run-Stored txn target base run outcome final
                                      (rw base_work at e₃);
                              }
                            ]
                      ]
            ]
      ]

  -- A call that returns stored a run, or had nothing new and returned the tables as they were.
  pub connect_headers-cases :
      (net : Network) (txn : Chain Header) (headers : List Header) (outcome : ConnectOutcome)
      (final : Chain Header)
      → connect_headers lib net txn headers ≡ ok (outcome, final)
      → ((drop (known_prefix lib txn headers) headers ≡ [])
          × (outcome ≡ nothing_new txn)
          × (final ≡ txn))
        ⊎ ((first : Header) × (rest : List Header) × (drop (known_prefix lib txn headers) headers
              ≡ first ∷ rest)
            × Steps net txn
                (parent_hash lib headers (known_prefix lib txn headers) first)
                first
                rest
                outcome
                final)
  unfolding connect_headers
  connect_headers-cases net txn headers outcome final e =
      elim (Result-cases (network_ok lib net txn)) [
        | inr (x, failed) ↦ cc (rw failed at e)
        | inl (_, fits) ↦ split (drop start headers) refl (rw fits at e)
      ]
    where
      start : ℕ
      start = known_prefix lib txn headers

      split :
          (new : List Header)
          → drop start headers ≡ new
          → connect_new lib net txn headers start new ≡ ok (outcome, final)
          → ((drop start headers ≡ []) × (outcome ≡ nothing_new txn) × (final ≡ txn))
            ⊎ ((first : Header) × (rest : List Header) × (drop start headers ≡ first ∷ rest)
                × Steps net txn (parent_hash lib headers start first) first rest outcome final)
      split [] d r = inl (d, cc r, cc r)
      split (first ∷ rest) d r = inr (
        first,
        rest,
        d,
        connect_run-Steps net txn (parent_hash lib headers start first) first rest outcome final r,
      )
