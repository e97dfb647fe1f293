-- ===== src/Btc/Connect/Placed.antt =====
-- The target of a run: where the run goes, and what a new fork leaves as it was.
use rsk.Prelude.{
  ℕ, ◌+◌, ◌-◌, ◌≤◌, ◌<◌, ◌≡◌, ◌≢◌, refl, sym, ◌∙◌, ◌⊎◌, inl, inr, none, some, true, arith, ◌==◌,
  add_u64, u64_mod, if◌then◌else◌, Option-cases,
}
use rsk.Prelude.Table.{get, get-insert, nat_key, pair_key}
use rsk.Rows.Meta.{u64}
use rsk.Rows.Header.{BtcRow}
use rsk.Rows.Fork.{ForkMeta, reread}
use rsk.Btc.Store.Meta.{
  Chain, fork_meta, best_fork, finalized, fork_tip, meta_key, next_fork, best_fork_key,
}
use rsk.Btc.Store.Walk.{work_at, row_at, owner_fork, fork_chainwork}
use rsk.Btc.Store.Put.{create_fork, next_fork_id}
use rsk.Btc.Store.Sound.{IsTree, fork_chainwork-none}
use rsk.Btc.Connect.{Target, tip_of, above_finalized}

-- What `create_fork` writes.
abbrev created : ℕ → ℕ → ℕ → ForkMeta
created parent forkpoint hash = record {
  forkpoint = forkpoint;
  parent = some parent;
  forkpoint_hash = hash;
  tip_height = forkpoint - 1;
  tip_hash = 0;
  tip_work = 0;
}

module _ {Header : Type 0} where
  row_at_row :
      (c : Chain Header) (f h : ℕ) (row : BtcRow Header)
      → row_at c f h ≡ some row
      → (g : ℕ) × (get c.headers (g, h) ≡ some row)
  unfolding row_at
  row_at_row c f h row e = elim (Option-cases (owner_fork c f h)) [
    | inl gone ↦ cc (rw (gone, row_at) at e)
    | inr (g, owned) ↦ (g, rw (owned, row_at) at e)
  ]

  -- A work that is read is that of a stored row.
  pub work_at_row :
      (c : Chain Header) (f h w : ℕ)
      → work_at c f h ≡ some w
      → (g : ℕ) × (row : BtcRow Header) × (get c.headers (g, h) ≡ some row) × (row.work ≡ w)
  unfolding work_at
  work_at_row c f h w e = elim (Option-cases (row_at c f h)) [
    | inl gone ↦ cc (rw (gone, work_at) at e)
    | inr (row, read) ↦
        let (g, stored) = row_at_row c f h row read in
        (g, row, stored, cc (rw (read, work_at) at e))
  ]

  tip_of-eq :
      (c : Chain Header) (f : ℕ) (m : ForkMeta) → fork_meta c f ≡ some m → tip_of c f ≡ m.tip_height
  unfolding tip_of fork_tip
  tip_of-eq c f m e = rw (e, tip_of) refl

  pub fork_meta-create_fork :
      (c : Chain Header) (f forkpoint hash g : ℕ)
      → fork_meta (create_fork c f forkpoint hash).1 g
        ≡ (if next_fork_id c == g then some (reread (created f forkpoint hash)) else fork_meta c g)
  unfolding fork_meta create_fork
  fork_meta-create_fork c f forkpoint hash g =
      ground (arith, get-insert c.forks (next_fork_id c) (created f forkpoint hash) g)

  next_fork_id-create_fork :
      (c : Chain Header) (f forkpoint hash : ℕ)
      → next_fork_id (create_fork c f forkpoint hash).1 ≡ add_u64 (next_fork_id c) 1
  unfolding next_fork_id create_fork
  next_fork_id-create_fork c f forkpoint hash =
      rw (get-insert c.meta next_fork (u64 (add_u64 (next_fork_id c) 1)) next_fork) refl

  best_fork-create_fork :
      (c : Chain Header) (f forkpoint hash : ℕ)
      → best_fork (create_fork c f forkpoint hash).1 ≡ best_fork c
  unfolding best_fork create_fork
  best_fork-create_fork c f forkpoint hash =
      rw (get-insert c.meta next_fork (u64 (add_u64 (next_fork_id c) 1)) best_fork_key) refl

  -- The run goes on from the tip of the fork `f`, ...
  pub record Extends (c : Chain Header) (f height t : ℕ) (m : ForkMeta) : Type 0 where
    pub same_fork : t ≡ f
    pub was_there : fork_meta c t ≡ some m
    pub at_tip : m.tip_height ≡ height

  -- ... or on a new fork, which leaves `f` above the height.
  pub record Leaves (c : Chain Header) (f height t : ℕ) (m : ForkMeta) : Type 0 where
    pub is_new : fork_meta c t ≡ none
    pub starts_at : m.forkpoint ≡ height + 1
    pub child : m.parent ≡ some f
    pub above_floor : (k : ℕ) → finalized c ≡ some k → k < m.forkpoint

  -- The chain that a run joins, in the store `c` and in the target's transaction.
  pub record Placed (c : Chain Header) (f height : ℕ) (target : Target Header) (base : ℕ)
      : Type 0 where
    pub forkpoint : target.forkpoint ≡ add_u64 height 1
    pub meta : ForkMeta
    pub is_there : fork_meta target.txn target.fork ≡ some meta
    pub owned : meta.forkpoint ≤ target.forkpoint
    pub parent_below : (p : ℕ) → meta.parent ≡ some p → p < target.fork
    pub in_range : target.fork < next_fork_id target.txn
    pub range : next_fork_id c ≤ next_fork_id target.txn
    pub others : (g : ℕ) → g ≢ target.fork → fork_meta target.txn g ≡ fork_meta c g
    pub same_headers : target.txn.headers ≡ c.headers
    pub same_hashes : target.txn.hash_loc ≡ c.hash_loc
    pub same_best : best_fork target.txn ≡ best_fork c
    pub light : (w : ℕ) → fork_chainwork c target.fork ≡ some w → w ≤ base
    pub place : Extends c f height target.fork meta ⊎ Leaves c f height target.fork meta

  module _ (c : Chain Header) (tree : IsTree c) where
    pub extend-Placed :
        (f h base : ℕ) (m : ForkMeta)
        → fork_meta c f ≡ some m
        → h ≡ tip_of c f
        → h + 1 < u64_mod
        → work_at c f h ≡ some base
        → Placed c f h (record { fork = f; forkpoint = add_u64 h 1; txn = c }) base
    unfolding fork_chainwork
    extend-Placed f h base m there at_tip small based =
        let tip = tree.tips f m there in
        record {
          forkpoint = refl;
          meta = m;
          is_there = there;
          owned = omega (arith, tip.owned, same);
          parent_below = λ p e. tree.parents.below f p m there e;
          in_range = tree.numbered f m there;
          range = omega arith;
          others = λ g ne. refl;
          same_headers = refl;
          same_hashes = refl;
          same_best = refl;
          light = λ w e. omega (arith, light w e);
          place = inl (record { same_fork = refl; was_there = there; at_tip = sym same });
        }
      where
        same : h ≡ m.tip_height
        same = at_tip ∙ tip_of-eq c f m there

        light : (w : ℕ) → fork_chainwork c f ≡ some w → w ≡ base
        light w e =
            let read : work_at c f m.tip_height ≡ some w = rw (there, fork_chainwork) at e in
            cc (read, based, same)

    pub create-Placed :
        (f h base hash : ℕ) (m : ForkMeta)
        → fork_meta c f ≡ some m
        → h + 1 < u64_mod
        → next_fork_id c + 1 < u64_mod
        → above_finalized c (add_u64 h 1) ≡ true
        → Placed c f h
            (record {
              fork = next_fork_id c;
              forkpoint = add_u64 h 1;
              txn = (create_fork c f (add_u64 h 1) hash).1;
            })
            base
    create-Placed f h base hash m there small room above = record {
      forkpoint = refl;
      meta = reread (created f (add_u64 h 1) hash);
      is_there = ground (arith, fork_meta-create_fork c f (add_u64 h 1) hash (next_fork_id c));
      owned = omega arith;
      parent_below = λ p e. below p (cc e);
      in_range = omega (arith, next_fork_id-create_fork c f (add_u64 h 1) hash);
      range = omega (arith, next_fork_id-create_fork c f (add_u64 h 1) hash);
      others = λ g ne. ground (arith, fork_meta-create_fork c f (add_u64 h 1) hash g);
      same_headers = unfold create_fork in refl;
      same_hashes = unfold create_fork in refl;
      same_best = best_fork-create_fork c f (add_u64 h 1) hash;
      light = λ w e. cc (fork_chainwork-none c (next_fork_id c) fresh, e);
      place = inr (record {
        is_new = fresh;
        starts_at = omega arith;
        child = refl;
        above_floor = λ k e. floor k e;
      });
    }
      where
        floor : (k : ℕ) → finalized c ≡ some k → k < add_u64 h 1
        floor k e = unfold above_finalized in ground arith

        below : (p : ℕ) → f ≡ p → p < next_fork_id c
        below p e = omega (arith, tree.numbered f m there)

        fresh : fork_meta c (next_fork_id c) ≡ none
        fresh = elim (Option-cases (fork_meta c (next_fork_id c))) [
          | inl gone ↦ gone
          | inr (m', used) ↦ absurd (omega (arith, tree.numbered (next_fork_id c) m' used))
        ]
