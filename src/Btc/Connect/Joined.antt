-- ===== src/Btc/Connect/Joined.antt =====
-- A store after a run was connected, against the store before: the facts that the reads rest on.
use rsk.Prelude.{
  ℕ, suc, ◌+◌, ◌%◌, ◌≤◌, ◌<◌, ◌≡◌, ◌≢◌, sym, ap, ◌∙◌, ◌⊎◌, inl, inr, true, some, List, ◌∷◌, arith,
  length, get_elem?, take, u256_mod,
}
use rsk.Prelude.Table.{get, pair_key, nat_key}
use rsk.Bitcoin.{Bitcoin, Network}
use rsk.Rows.Header.{BtcRow}
use rsk.Rows.Fork.{ForkMeta}
use rsk.Btc.Store.Meta.{Chain, locate, fork_meta}
use rsk.Btc.Store.Walk.{work_at, header_at}
use rsk.Btc.Store.Walk.Owns.{work_at_own}
use rsk.Btc.Store.Sound.{IsTree}
use rsk.Btc.Store.Linked.{IsLinked}
use rsk.Btc.Connect.{Target, ConnectOutcome, select_best}
use rsk.Btc.Connect.Run.{validate_run, header_in}
use rsk.Btc.Connect.Run.Valid.{ValidRun, check_headers_iff_valid}
use rsk.Btc.Connect.Stored.{works_sum, InRun}
use rsk.Btc.Connect.Effect.{PutEffect, put_headers-PutEffect}
use rsk.Btc.Connect.Inversion.{Steps}
use rsk.Btc.Connect.Placed.{Placed, Extends, Leaves}
use rsk.Btc.Connect.Select.{
  SameRows, SameRows-trans, select_best-SameRows, finalize_in_txn-SameRows, same_meta,
}
use rsk.Btc.Connect.Sound.{Fits, choose_target-Placed, work_at_bound}
use rsk.Btc.Connect.Behind.{hash_before, ValidRun-at, works_sum-take_le}

module _ {Header : Type 0} (lib : Bitcoin Header) where
  -- The run stands behind the row of its parent, on the fork of that one or on a new fork; all other
  -- rows, forks and places are as they were.
  pub record Joined (c s : Chain Header) (parent : ℕ) (run : List Header) : Type 0 where
    pub target : ℕ
    pub parent_fork : ℕ
    pub parent_height : ℕ
    pub parent_row : BtcRow Header
    pub located : locate c parent ≡ some (parent_fork, parent_height)
    pub has_parent : get c.headers (parent_fork, parent_height) ≡ some parent_row
    pub has_hash : lib.block_hash parent_row.header ≡ parent
    pub light : parent_row.work + works_sum lib run < u256_mod
    pub valid_at :
        (i : ℕ) (x : Header)
        → get_elem? run i ≡ some x
        → (lib.prev_blockhash x ≡ hash_before lib parent run i) × (lib.pow_ok x ≡ true)
    pub some_new : 1 ≤ length run
    pub meta : ForkMeta
    pub is_there : fork_meta s target ≡ some meta
    pub tip_is : meta.tip_height ≡ parent_height + length run
    pub old_meta : ForkMeta
    pub same_forkpoint : meta.forkpoint ≡ old_meta.forkpoint
    pub same_parent : meta.parent ≡ old_meta.parent
    pub place :
        Extends c parent_fork parent_height target old_meta
        ⊎ Leaves c parent_fork parent_height target old_meta
    pub others : (g : ℕ) → g ≢ target → fork_meta s g ≡ fork_meta c g
    pub other_rows : (g h : ℕ) → g ≢ target → get s.headers (g, h) ≡ get c.headers (g, h)
    pub kept_rows :
        (h : ℕ)
        → (h ≤ parent_height) ⊎ (parent_height + length run < h)
        → get s.headers (target, h) ≡ get c.headers (target, h)
    pub new_rows :
        (i height : ℕ) (x : Header)
        → get_elem? run i ≡ some x
        → parent_height + 1 + i ≡ height
        → get s.headers (target, height)
          ≡ some (record { header = x; work = parent_row.work + works_sum lib (take (suc i) run) })
    pub locates :
        (hash f h : ℕ)
        → locate s hash ≡ some (f, h)
        → InRun lib target (parent_height + 1) run hash f h ⊎ (locate c hash ≡ some (f, h))

  -- What was put, with the height and the work of the parent in place of the target's.
  module _ (before after : Chain Header) (t start base h w : ℕ) (run : List Header)
      (effect : PutEffect lib before after t start base run) (at : start ≡ h + 1)
      (based : base ≡ w) where
    put_kept :
        (k : ℕ)
        → (k ≤ h) ⊎ (h + length run < k)
        → get after.headers (t, k) ≡ get before.headers (t, k)
    put_kept k (inl below) = effect.kept_rows k (inl (omega arith))
    put_kept k (inr above) = effect.kept_rows k (inr (omega arith))

    put_new :
        (i height : ℕ) (x : Header)
        → w + works_sum lib run < u256_mod
        → get_elem? run i ≡ some x
        → h + 1 + i ≡ height
        → get after.headers (t, height)
          ≡ some (record { header = x; work = w + works_sum lib (take (suc i) run) })
    put_new i height x light e height_is =
        let work : (base + works_sum lib (take (suc i) run)) % u256_mod
            ≡ w + works_sum lib (take (suc i) run) =
          omega (arith, works_sum-take_le lib (suc i) run) in
        effect.rows i height x e (omega arith)
        ∙ ap (λ v. some (record { header = x; work = v })) work

    put_locates :
        (hash f k : ℕ)
        → locate after hash ≡ some (f, k)
        → InRun lib t (h + 1) run hash f k ⊎ (locate before hash ≡ some (f, k))
    put_locates hash f k e = rw at at (effect.locates hash f k e)

  locate-same :
      (c s : Chain Header) (hash : ℕ) → s.hash_loc ≡ c.hash_loc → locate s hash ≡ locate c hash
  unfolding locate
  locate-same c s hash same = ap (λ t. get t hash) same

  module _ (anchor : ℕ) (c : Chain Header) (rows : IsLinked lib anchor c) where
    -- The parent's fork has the same record in the target's transaction.
    pub parent_meta :
        (f h base : ℕ) (target : Target Header) (m : ForkMeta)
        → Placed c f h target base
        → fork_meta c f ≡ some m
        → fork_meta target.txn f ≡ some m
    parent_meta f h base target m placed there = elim placed.place [
      | inl extends ↦
          let same : placed.meta ≡ m = cc (extends.was_there, extends.same_fork, there) in
          cc (placed.is_there, extends.same_fork, same)
      | inr leaves ↦ placed.others f (λ same. cc (leaves.is_new, same, there)) ∙ there
    ]

    pub parent_work :
        (f h base : ℕ) (target : Target Header) (x : BtcRow Header)
        → Placed c f h target base
        → get c.headers (f, h) ≡ some x
        → work_at target.txn f h ≡ some base
        → base ≡ x.work
    parent_work f h base target x placed row based =
        let inside = rows.rows_in f h x row in
        let read =
          work_at_own target.txn f h inside.meta x
            (parent_meta f h base target inside.meta placed inside.is_there) inside.above
            (ap (λ t. get t (f, h)) placed.same_headers ∙ row) in
        cc (read, based)

    -- The last stage of a call, behind the parent's row.
    pub Stored-Joined :
        (net : Network) (final : Chain Header) (parent f h base : ℕ) (target : Target Header)
        (row : BtcRow Header) (run : List Header) (stored : Chain Header)
        → Placed c f h target base
        → locate c parent ≡ some (f, h)
        → get c.headers (f, h) ≡ some row
        → lib.block_hash row.header ≡ parent
        → row.work + works_sum lib run < u256_mod
        → base ≡ row.work
        → target.forkpoint ≡ h + 1
        → 1 ≤ length run
        → ValidRun lib net
            (header_in (header_at target.txn target.fork) run target.forkpoint)
            target.forkpoint
            parent
            run
        → PutEffect lib target.txn stored target.fork target.forkpoint base run
        → SameRows stored final
        → Joined c final parent run
    Stored-Joined net final parent f h base target row run stored placed located has_row has_hash
          light based at some_new valid effect same =
        let old : effect.old_meta ≡ placed.meta = cc (effect.was_there, placed.is_there) in
        record {
          target = target.fork;
          parent_fork = f;
          parent_height = h;
          parent_row = row;
          located = located;
          has_parent = has_row;
          has_hash = has_hash;
          light = light;
          valid_at = λ i x e.
              ValidRun-at lib net
                (header_in (header_at target.txn target.fork) run target.forkpoint) target.forkpoint
                parent run i x valid e;
          some_new = some_new;
          meta = effect.new_meta;
          is_there = same_meta stored final same target.fork ∙ effect.is_there;
          tip_is = omega (arith, effect.new_tip);
          old_meta = placed.meta;
          same_forkpoint = effect.same_forkpoint ∙ ap (λ m. m.forkpoint) old;
          same_parent = effect.same_parent ∙ ap (λ m. m.parent) old;
          place = placed.place;
          others =
              λ g ne. same_meta stored final same g ∙ effect.other_forks g ne ∙ placed.others g ne;
          other_rows = λ g k ne.
              ap (λ t. get t (g, k)) same.same_headers
              ∙ effect.other_rows g k ne
              ∙ ap (λ t. get t (g, k)) placed.same_headers;
          kept_rows = λ k apart.
              ap (λ t. get t (target.fork, k)) same.same_headers
              ∙ put_kept target.txn stored target.fork target.forkpoint base h row.work run effect
                  at based k apart
              ∙ ap (λ t. get t (target.fork, k)) placed.same_headers;
          new_rows = λ i height x e height_is.
              ap (λ t. get t (target.fork, height)) same.same_headers
              ∙ put_new target.txn stored target.fork target.forkpoint base h row.work run effect at
                  based i height x light e height_is;
          locates = λ hash g k e. rw (locate-same c target.txn hash placed.same_hashes) at (
              put_locates target.txn stored target.fork target.forkpoint base h row.work run effect
                at based hash g k (sym (locate-same stored final hash same.same_hashes) ∙ e));
        }

    pub Steps-Joined :
        (net : Network) (final : Chain Header) (parent : ℕ) (first : Header) (rest : List Header)
        (outcome : ConnectOutcome)
        → IsTree c
        → Fits lib c (first ∷ rest)
        → Steps lib net c parent first rest outcome final
        → Joined c final parent (first ∷ rest)
    Steps-Joined net final parent first rest outcome tree fits steps =
        let last = steps.last_stage in
        let target = steps.target in
        let f = steps.parent_fork in
        let h = steps.parent_height in
        let base = steps.base in
        let run = first ∷ rest in
        let room = fits.heights parent f h steps.located in
        let placed =
          choose_target-Placed lib c f h (lib.block_hash first) base target tree (omega arith)
            fits.numbers (tree.located parent f h steps.located) steps.chosen steps.base_work in
        let (row, has_row, has_hash) = rows.found parent f h steps.located in
        let based : base ≡ row.work =
          parent_work f h base target row placed has_row steps.base_work in
        let light =
          work_at_bound lib c target f h base run fits placed.same_headers steps.base_work in
        let at : target.forkpoint ≡ h + 1 = omega (arith, placed.forkpoint) in
        Stored-Joined net final parent f h base target row run last.stored placed steps.located
          has_row has_hash (omega (arith, based, light)) based at (omega arith)
          ((check_headers_iff_valid lib net
              (header_in (header_at target.txn target.fork) run target.forkpoint) run
              target.forkpoint parent).0
            (unfold validate_run in steps.validated))
          (put_headers-PutEffect lib target.txn last.stored target.fork target.forkpoint base first
            rest (omega arith) last.put)
          (SameRows-trans last.stored (select_best last.stored target.fork).1 final
            (select_best-SameRows last.stored target.fork)
            (finalize_in_txn-SameRows (select_best last.stored target.fork).1 final
              outcome.finalized last.finalized))
