-- ===== src/Btc/Store/Put.antt =====
-- The writes of a connect: `create_fork` and `put_headers`.
use rsk.Prelude.{
  ℕ, ◌-◌, ◌%◌, ◌&&◌, none, some, List, [], ◌∷◌, ◌==◌, if◌then◌else◌, add_u64, unwrap_or,
}
use rsk.Prelude.Table.{insert, nat_key, pair_key}
use rsk.Bitcoin.{Bitcoin}
use rsk.Result.{Result, ok, err, panic}
use rsk.Rows.Meta.{u64}
use rsk.Rows.Fork.{ForkMeta}
use rsk.Btc.Validation.{difficulty_period}
use rsk.Btc.Store.Meta.{Chain, meta_key, next_fork, meta_u64, fork_meta}

-- A header, its height and its cumulative work.
pub record Entry (Header : Type 0) : Type 0 where
  pub height : ℕ
  pub header : Header
  pub work : ℕ

module _ {Header : Type 0} where
  -- The number of the next fork; `unwrap_or(1)`.
  unfoldable pub next_fork_id : Chain Header → ℕ
  unfolding meta_u64
  next_fork_id txn = unwrap_or (meta_u64 txn next_fork) 1

  -- `all_zeros` is 0; `saturating_sub` is that of the natural numbers.
  unfoldable pub create_fork : Chain Header → ℕ → ℕ → ℕ → ℕ × Chain Header
  unfolding next_fork_id
  create_fork txn parent forkpoint forkpoint_hash =
      let id = next_fork_id txn in
      (
        id,
        record txn {
          meta = insert txn.meta next_fork (u64 (add_u64 id 1));
          forks = insert txn.forks id (record {
            forkpoint = forkpoint;
            parent = some parent;
            forkpoint_hash = forkpoint_hash;
            tip_height = forkpoint - 1;
            tip_hash = 0;
            tip_work = 0;
          });
        },
      )

  abbrev pub last_of : Entry Header → List (Entry Header) → Entry Header
  last_of x [] = x
  last_of x (y ∷ ys) = last_of y ys

module _ {Header : Type 0} (lib : Bitcoin Header) where
  -- The rows of one entry; on the root chain a period boundary joins the spine.
  unfoldable pub put_entry : ℕ → Chain Header → Entry Header → Chain Header
  put_entry fork_id txn x = record txn {
    headers = insert txn.headers (fork_id, x.height) (record { header = x.header; work = x.work });
    hash_loc = insert txn.hash_loc (lib.block_hash x.header) (fork_id, x.height);
    checkpoints =
        if (fork_id == 0) && (x.height % difficulty_period == 0)
        then insert txn.checkpoints x.height x.header
        else txn.checkpoints;
  }

  unfoldable pub put_entries : ℕ → Chain Header → List (Entry Header) → Chain Header
  put_entries fork_id txn [] = txn
  put_entries fork_id txn (x ∷ xs) = put_entries fork_id (put_entry fork_id txn x) xs

  unfoldable pub set_tip : Chain Header → ℕ → Entry Header → ForkMeta → Chain Header
  set_tip txn fork_id last m = record txn {
    forks = insert txn.forks fork_id (record m {
      tip_height = last.height;
      tip_hash = lib.block_hash last.header;
      tip_work = last.work;
    });
  }

  unfoldable pub put_headers : Chain Header → ℕ → List (Entry Header) → Result (Chain Header)
  put_headers txn fork_id [] = ok txn
  put_headers txn fork_id (x ∷ xs) =
      let rows = put_entries fork_id txn (x ∷ xs) in
      elim (fork_meta rows fork_id) [
        | none ↦ err panic
        | some m ↦ ok (set_tip rows fork_id (last_of x xs) m)
      ]
