-- ===== src/Btc/Connect/Sound.antt =====
-- A connect keeps the invariants of the tables: the forks stay a tree, and the best fork a heaviest
-- one.
use rsk.Prelude.{
  ℕ, zero, suc, ◌+◌, ◌≤◌, ◌<◌, ◌≡◌, sym, ap, ◌∙◌, inl, inr, some, arith, length, List, [], ◌∷◌,
  u64_mod, u256_mod, drop,
}
use rsk.Prelude.Table.{get, pair_key}
use rsk.Bitcoin.{Bitcoin, Network}
use rsk.Result.{ok}
use rsk.Rows.Header.{BtcRow}
use rsk.Rows.Fork.{ForkMeta}
use rsk.Btc.Store.Meta.{Chain, locate, fork_meta}
use rsk.Btc.Store.Walk.{work_at}
use rsk.Btc.Store.Put.{next_fork_id}
use rsk.Btc.Store.Sound.{IsTree, IsHeaviest}
use rsk.Btc.Connect.{Target, choose_target, connect_headers, known_prefix, ConnectOutcome}
use rsk.Btc.Connect.Stored.{works_sum}
use rsk.Btc.Connect.Effect.{choose_target-cases}
use rsk.Btc.Connect.Inversion.{Steps, connect_headers-cases}
use rsk.Btc.Connect.Placed.{Placed, extend-Placed, create-Placed, work_at_row}
use rsk.Btc.Connect.Grown.{put-Grown}
use rsk.Btc.Connect.Select.{select_best_sound, finalize_in_txn-IsTree, finalize_in_txn-IsHeaviest}

module _ {Header : Type 0} (lib : Bitcoin Header) where
  -- The numbers of the store leave room for a run: heights in a `u64`, works in 256 bits, and the
  -- number of one more fork.
  pub record Fits (c : Chain Header) (run : List Header) : Type 0 where
    pub heights : (hash f h : ℕ) → locate c hash ≡ some (f, h) → h + 1 + length run ≤ u64_mod
    pub works :
        (f h : ℕ) (row : BtcRow Header)
        → get c.headers (f, h) ≡ some row
        → row.work + works_sum lib run < u256_mod
    pub numbers : next_fork_id c + 1 < u64_mod

  length-drop_le : (k : ℕ) (xs : List Header) → length (drop k xs) ≤ length xs
  length-drop_le zero xs = omega arith
  length-drop_le (suc k) [] = omega arith
  length-drop_le (suc k) (x ∷ xs) = omega (arith, length-drop_le k xs)

  works_sum-drop_le : (k : ℕ) (xs : List Header) → works_sum lib (drop k xs) ≤ works_sum lib xs
  works_sum-drop_le zero xs = omega arith
  works_sum-drop_le (suc k) [] = omega arith
  works_sum-drop_le (suc k) (x ∷ xs) = omega (arith, works_sum-drop_le k xs)

  pub Fits-drop : (c : Chain Header) (k : ℕ) (run : List Header) → Fits c run → Fits c (drop k run)
  Fits-drop c k run fits = record {
    heights = λ hash f h e. omega (arith, fits.heights hash f h e, length-drop_le k run);
    works = λ f h row e. omega (arith, fits.works f h row e, works_sum-drop_le k run);
    numbers = fits.numbers;
  }

  pub choose_target-Placed :
      (c : Chain Header) (f h hash base : ℕ) (target : Target Header)
      → IsTree c
      → h + 1 < u64_mod
      → next_fork_id c + 1 < u64_mod
      → ((m : ForkMeta) × (fork_meta c f ≡ some m))
      → choose_target c f h hash ≡ ok target
      → work_at target.txn f h ≡ some base
      → Placed c f h target base
  choose_target-Placed c f h hash base target tree small room (m, there) chosen based =
      elim (choose_target-cases c f h hash target chosen) [
        | inl (at_tip, is) ↦
            rw is (extend-Placed c tree f h base m there at_tip small (rw is at based))
        | inr (_, above, is) ↦ rw is (create-Placed c tree f h base hash m there small room above)
      ]

  pub work_at_bound :
      (c : Chain Header) (target : Target Header) (f h base : ℕ) (run : List Header)
      → Fits c run
      → target.txn.headers ≡ c.headers
      → work_at target.txn f h ≡ some base
      → base + works_sum lib run < u256_mod
  work_at_bound c target f h base run fits same based =
      let (g, row, stored, is) = work_at_row target.txn f h base based in
      omega (arith, is, fits.works g h row (ap (λ t. get t (g, h)) (sym same) ∙ stored))

  -- A run that was stored on a sound store.
  Steps-sound :
      (net : Network) (c final : Chain Header) (parent : ℕ) (first : Header) (rest : List Header)
      (outcome : ConnectOutcome)
      → IsTree c
      → IsHeaviest c
      → Fits c (first ∷ rest)
      → Steps lib net c parent first rest outcome final
      → IsTree final × IsHeaviest final
  Steps-sound net c final parent first rest outcome tree heavy fits steps =
      let last = steps.last_stage in
      let target = steps.target in
      let placed =
        choose_target-Placed c steps.parent_fork steps.parent_height (lib.block_hash first)
          steps.base target tree
          (omega (arith, fits.heights parent steps.parent_fork steps.parent_height steps.located))
          fits.numbers (tree.located parent steps.parent_fork steps.parent_height steps.located)
          steps.chosen steps.base_work in
      let grown =
        put-Grown lib c last.stored steps.parent_fork steps.parent_height steps.base target first
          rest placed
          (omega (arith, fits.heights parent steps.parent_fork steps.parent_height steps.located))
          (work_at_bound c target steps.parent_fork steps.parent_height steps.base (first ∷ rest)
            fits placed.same_headers steps.base_work)
          last.put in
      let (tree', heavy') = select_best_sound c last.stored target.fork grown tree heavy in
      (
        finalize_in_txn-IsTree _ final outcome.finalized last.finalized tree',
        finalize_in_txn-IsHeaviest _ final outcome.finalized last.finalized tree' heavy',
      )

  -- Connecting headers keeps the forks a tree and the best fork a heaviest one, where the numbers
  -- of the store leave room for the headers.
  pub connect_headers_sound :
      (net : Network) (c final : Chain Header) (headers : List Header) (outcome : ConnectOutcome)
      → IsTree c
      → IsHeaviest c
      → Fits c headers
      → connect_headers lib net c headers ≡ ok (outcome, final)
      → IsTree final × IsHeaviest final
  connect_headers_sound net c final headers outcome tree heavy fits e =
      elim (connect_headers-cases lib net c headers outcome final e) [
        | inl (_, _, same) ↦ (rw same tree, rw same heavy)
        | inr (first, rest, new, steps) ↦
            Steps-sound net c final _ first rest outcome tree heavy
              (rw new at (Fits-drop c (known_prefix lib c headers) headers fits)) steps
      ]
