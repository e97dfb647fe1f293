-- ===== src/Btc/Store/Seed.antt =====
-- `seed_checkpoints`: the spine of trusted headers, one for each difficulty period.
use rsk.Prelude.{
  ℕ, zero, suc, ◌+◌, ◌-◌, Bool, true, ◌&&◌, none, List, [], ◌∷◌, ◌==◌, leb, if◌then◌else◌, add_u64,
  add_u256, is_some,
}
use rsk.Prelude.Table.{insert, nat_key, pair_key}
use rsk.Bitcoin.{Bitcoin}
use rsk.Result.{Result, ok, err, guard, internal, already_seeded, ◌>>◌}
use rsk.Rows.Meta.{u64}
use rsk.Btc.Validation.{difficulty_period}
use rsk.Btc.Store.Meta.{
  Chain, meta_key, seed_height, finalized_height, best_fork_key, next_fork, fork_meta,
}

-- `work` added to itself `n` times.
pub work_scaled_loop : ℕ → ℕ → ℕ → ℕ
work_scaled_loop work zero acc = acc
work_scaled_loop work (suc n) acc = work_scaled_loop work n (add_u256 acc work)

unfoldable pub work_scaled : ℕ → ℕ → ℕ
unfolding work_scaled_loop
work_scaled work n = work_scaled_loop work n 0

module _ {Header : Type 0} where
  unfoldable pub insert_by_height : ℕ × Header → List (ℕ × Header) → List (ℕ × Header)
  insert_by_height x [] = x ∷ []
  insert_by_height x (y ∷ ys) = if leb x.0 y.0 then x ∷ y ∷ ys else y ∷ insert_by_height x ys

  -- `sorted.sort_by_key(|(h, _)| *h)`, which is stable.
  unfoldable pub sort_by_height : List (ℕ × Header) → List (ℕ × Header)
  unfolding insert_by_height
  sort_by_height [] = []
  sort_by_height (x ∷ xs) = insert_by_height x (sort_by_height xs)

  -- The check of `sorted.windows(2)`.
  unfoldable pub is_contiguous : List (ℕ × Header) → Bool
  is_contiguous [] = true
  is_contiguous (x ∷ []) = true
  is_contiguous (x ∷ y ∷ rest) = (y.0 == add_u64 x.0 difficulty_period) && is_contiguous (y ∷ rest)

  abbrev pub last_height : ℕ × Header → List (ℕ × Header) → ℕ × Header
  last_height x [] = x
  last_height x (y ∷ ys) = last_height y ys

module _ {Header : Type 0} (lib : Bitcoin Header) where
  -- The cumulative work at a boundary: the block itself for the first (`i = 0`), else the rest of
  -- the period before it and the block.
  unfoldable pub boundary_work : ℕ → ℕ → ℕ → ℕ → ℕ
  unfolding work_scaled
  boundary_work i cum prev_w w =
      if i == 0 then w else add_u256 (add_u256 cum (work_scaled prev_w (difficulty_period - 1))) w

  unfoldable pub put_checkpoint : Chain Header → ℕ → Header → ℕ → Chain Header
  put_checkpoint txn height header cum = record txn {
    checkpoints = insert txn.checkpoints height header;
    hash_loc = insert txn.hash_loc (lib.block_hash header) (0, height);
    headers = insert txn.headers (0, height) (record { header = header; work = cum });
  }

  -- The loop over the sorted entries: the tables, and the work at the last one.
  unfoldable pub put_spine : Chain Header → ℕ → ℕ → ℕ → List (ℕ × Header) → Chain Header × ℕ
  unfolding boundary_work put_checkpoint
  put_spine txn i cum prev_w [] = (txn, cum)
  put_spine txn i cum prev_w ((height, header) ∷ rest) =
      let w = lib.work header in
      let cum' = boundary_work i cum prev_w w in
      put_spine (put_checkpoint txn height header cum') (i + 1) cum' w rest

  -- The root chain over the spine, and the metadata of a new store.
  unfoldable pub put_root : Chain Header → ℕ × Header → ℕ × Header → ℕ → Chain Header
  put_root txn first last cum = record txn {
    forks = insert txn.forks 0 (record {
      forkpoint = 0;
      parent = none;
      forkpoint_hash = lib.block_hash first.1;
      tip_height = last.0;
      tip_hash = lib.block_hash last.1;
      tip_work = cum;
    });
    meta =
        insert
          (insert (insert (insert txn.meta seed_height (u64 first.0)) finalized_height (u64 last.0))
            best_fork_key (u64 0))
          next_fork (u64 1);
  }

  unfoldable pub seed_sorted : Chain Header → List (ℕ × Header) → Result (Chain Header)
  unfolding put_spine put_root is_contiguous
  seed_sorted txn [] = err internal
  seed_sorted txn (x ∷ xs) = do
    guard (is_contiguous (x ∷ xs)) internal
    let (rows, cum) = put_spine txn 0 0 0 (x ∷ xs)
    ok (put_root rows x (last_height x xs) cum)

  unfoldable pub seed_checkpoints : Chain Header → List (ℕ × Header) → Result (Chain Header)
  unfolding seed_sorted sort_by_height
  seed_checkpoints txn entries =
      if is_some (fork_meta txn 0)
      then err already_seeded
      else seed_sorted txn (sort_by_height entries)
