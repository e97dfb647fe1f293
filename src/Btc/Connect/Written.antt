-- ===== src/Btc/Connect/Written.antt =====
-- What a connect writes: the rows of the run behind its parent, and nothing on other chains.
use rsk.Prelude.{
  ℕ, suc, ◌+◌, ◌%◌, ◌<◌, ◌≡◌, ◌≢◌, ◌⊎◌, some, List, [], ◌∷◌, length, get_elem?, take, u256_mod,
}
use rsk.Prelude.Table.{get, insert, nat_key, pair_key}
use rsk.Bitcoin.{Bitcoin, Network}
use rsk.Rows.Fork.{ForkMeta}
use rsk.Btc.Store.Meta.{Chain, locate, fork_meta, finalized}
use rsk.Btc.Store.Put.{next_fork_id}
use rsk.Btc.Store.Walk.{work_at, header_at}
use rsk.Btc.Connect.{Target, tip_of}
use rsk.Btc.Connect.Run.{header_in}
use rsk.Btc.Connect.Run.Valid.{ValidRun}
use rsk.Btc.Connect.Stored.{works_sum}

module _ {Header : Type 0} (lib : Bitcoin Header) (net : Network) where
  abbrev pub first_hash : List Header → ℕ
  first_hash [] = 0
  first_hash (h ∷ hs) = lib.block_hash h

  -- The run joins its parent's chain if the parent is the tip of it, and else starts a fork with
  -- the next free number, behind the parent and above the finalized height. It stands in the store from the height above its parent on, with the work summed up behind
  -- the work at the parent; it is valid there, and the other chains are as they were.
  pub record Written (c final : Chain Header) (parent : ℕ) (run : List Header) : Type 0 where
    pub parent_fork : ℕ
    pub parent_height : ℕ
    pub located : locate c parent ≡ some (parent_fork, parent_height)
    pub target : Target Header
    pub forkpoint_is : target.forkpoint ≡ parent_height + 1
    pub placed :
        ((parent_height ≡ tip_of c parent_fork) × (target.fork ≡ parent_fork) × (target.txn ≡ c))
        ⊎ ((parent_height ≢ tip_of c parent_fork)
            × ((k : ℕ) → finalized c ≡ some k → k < parent_height + 1)
            × (target.fork ≡ next_fork_id c)
            × (target.txn.forks
                ≡ insert c.forks (next_fork_id c) (record {
                  forkpoint = parent_height + 1;
                  parent = some parent_fork;
                  forkpoint_hash = first_hash run;
                  tip_height = parent_height;
                  tip_hash = 0;
                  tip_work = 0;
                }))
            × (target.txn.headers ≡ c.headers))
    pub base : ℕ
    pub base_work : work_at target.txn parent_fork parent_height ≡ some base
    pub valid :
        ValidRun lib net
          (header_in (header_at target.txn target.fork) run target.forkpoint)
          target.forkpoint
          parent
          run
    pub rows :
        (i : ℕ) (h : Header)
        → get_elem? run i ≡ some h
        → get final.headers (target.fork, parent_height + 1 + i)
          ≡ some
              (record { header = h; work = (base + works_sum lib (take (suc i) run)) % u256_mod })
    pub kept : (g h : ℕ) → g ≢ target.fork → get final.headers (g, h) ≡ get c.headers (g, h)
    pub tip : ForkMeta
    pub has_tip : fork_meta final target.fork ≡ some tip
    pub tip_is : tip.tip_height ≡ parent_height + length run
