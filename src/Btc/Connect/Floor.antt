-- ===== src/Btc/Connect/Floor.antt =====
-- The finalized height, the floor of new forks, only rises.
use rsk.Prelude.{
  ℕ, ◌≤◌, ◌≡◌, refl, ap, ◌∙◌, inl, inr, some, List, ◌∷◌, arith, ltb, ◌==◌, not, ◌&&◌, unwrap_or,
  Bool-cases, Option, add_u64,
}
use rsk.Prelude.Table.{get-insert}
use rsk.Bitcoin.{Bitcoin, Network}
use rsk.Result.{ok}
use rsk.Rows.Meta.{u64}
use rsk.Btc.Store.Meta.{
  Chain, meta_key, meta_u64, best_fork, finalized, set_best_fork, set_finalized, best_fork_key,
  next_fork, finalized_height,
}
use rsk.Btc.Store.Walk.{fork_chainwork}
use rsk.Btc.Store.Put.{create_fork, next_fork_id, put_headers, set_tip}
use rsk.Btc.Connect.{
  ConnectOutcome, Target, choose_target, select_best, connect_headers, entries_of, known_prefix,
  parent_hash,
}
use rsk.Btc.Connect.Finalize.{finalize_in_txn}
use rsk.Btc.Connect.Finalize.Advance.{finalize_in_txn-cases}
use rsk.Btc.Connect.Stored.{meta-put_entries}
use rsk.Btc.Connect.Effect.{choose_target-cases, put_headers-eq-ok}
use rsk.Btc.Connect.Inversion.{Steps, connect_headers-cases}

module _ {Header : Type 0} where
  finalized-create_fork :
      (c : Chain Header) (f forkpoint hash : ℕ)
      → finalized (create_fork c f forkpoint hash).1 ≡ finalized c
  unfolding finalized meta_u64 create_fork
  finalized-create_fork c f forkpoint hash =
      rw (get-insert c.meta next_fork (u64 (add_u64 (next_fork_id c) 1)) finalized_height) refl

  pub finalized-choose_target :
      (c : Chain Header) (f h hash : ℕ) (target : Target Header)
      → choose_target c f h hash ≡ ok target
      → finalized target.txn ≡ finalized c
  finalized-choose_target c f h hash target e = elim (choose_target-cases c f h hash target e) [
    | inl (_, is) ↦ rw is refl
    | inr (_, _, is) ↦ rw is (finalized-create_fork c f (add_u64 h 1) hash)
  ]

  pub finalized-select_best :
      (s : Chain Header) (t : ℕ) → finalized (select_best s t).1 ≡ finalized s
  unfolding select_best set_best_fork finalized meta_u64
  finalized-select_best s t =
      elim (Bool-cases (
        not (t == unwrap_or (best_fork s) 0)
        && ltb (unwrap_or (fork_chainwork s (unwrap_or (best_fork s) 0)) 0)
            (unwrap_or (fork_chainwork s t) 0))) [
              | inl moves ↦
                  rw moves (rw (get-insert s.meta best_fork_key (u64 t) finalized_height) refl)
              | inr stays ↦ rw stays refl
            ]

  finalized-set_finalized : (s : Chain Header) (h : ℕ) → finalized (set_finalized s h) ≡ some h
  unfolding set_finalized finalized meta_u64
  finalized-set_finalized s h =
      rw (get-insert s.meta finalized_height (u64 h) finalized_height) refl

  -- The floor `k`, or a higher one.
  abbrev pub IsFloor : Chain Header → ℕ → Type 0
  IsFloor c k = (k' : ℕ) × (finalized c ≡ some k') × (k ≤ k')

  finalize_in_txn-IsFloor :
      (s final : Chain Header) (o : Option ℕ) (k : ℕ)
      → finalize_in_txn s ≡ ok (o, final)
      → IsFloor s k
      → IsFloor final k
  finalize_in_txn-IsFloor s final o k e (k', is, le) = elim (finalize_in_txn-cases s final o e) [
    | inl (_, stays) ↦ rw stays (k', is, le)
    | inr (h, _, set, advanced) ↦ rw set (
      h,
      finalized-set_finalized s h,
      omega (arith, le, ap (λ o. unwrap_or o 0) is, advanced.above),
    )
  ]

module _ {Header : Type 0} (lib : Bitcoin Header) where
  pub finalized-put_headers :
      (before after : Chain Header) (t start base : ℕ) (x : Header) (xs : List Header)
      → put_headers lib before t (entries_of lib start base (x ∷ xs)) ≡ ok after
      → finalized after ≡ finalized before
  unfolding finalized meta_u64 entries_of
  finalized-put_headers before after t start base x xs e =
      let (m, _, is) = put_headers-eq-ok lib before after t _ _ e in
      rw is (
        unfold set_tip in
        rw (meta-put_entries lib t before (entries_of lib start base (x ∷ xs))) refl)

  Steps-IsFloor :
      (net : Network) (c final : Chain Header) (parent : ℕ) (first : Header) (rest : List Header)
      (outcome : ConnectOutcome) (k : ℕ)
      → Steps lib net c parent first rest outcome final
      → IsFloor c k
      → IsFloor final k
  Steps-IsFloor net c final parent first rest outcome k steps (k', is, le) =
      let last = steps.last_stage in
      let target = steps.target in
      finalize_in_txn-IsFloor (select_best last.stored target.fork).1 final outcome.finalized k
        last.finalized
        (
          k',
          finalized-select_best last.stored target.fork
              ∙ finalized-put_headers target.txn last.stored target.fork target.forkpoint steps.base
                  first rest last.put
              ∙ finalized-choose_target c steps.parent_fork steps.parent_height
                  (lib.block_hash first) target steps.chosen
              ∙ is,
          le,
        )

  pub connect_headers-IsFloor :
      (net : Network) (c final : Chain Header) (headers : List Header) (outcome : ConnectOutcome)
      (k : ℕ)
      → connect_headers lib net c headers ≡ ok (outcome, final)
      → IsFloor c k
      → IsFloor final k
  connect_headers-IsFloor net c final headers outcome k e floor =
      elim (connect_headers-cases lib net c headers outcome final e) [
        | inl (_, _, same) ↦ rw same floor
        | inr (first, rest, _, steps) ↦
            Steps-IsFloor net c final (parent_hash lib headers (known_prefix lib c headers) first)
              first rest outcome k steps floor
      ]
