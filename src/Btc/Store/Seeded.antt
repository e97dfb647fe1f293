-- ===== src/Btc/Store/Seeded.antt =====
-- What seeding makes of an empty store.
pub mod Linked
use rsk.Prelude.{
  ℕ, ◌+◌, ◌≡◌, refl, sym, ap, ◌∙◌, inl, inr, none, some, List, [], ◌∷◌, ◌==◌, arith, if◌then◌else◌,
  Bool-cases, Option-cases, unwrap_or,
}
use rsk.Prelude.Table.{get, get-insert, insert, nat_key, pair_key}
use rsk.Bitcoin.{Bitcoin}
use rsk.Result.{ok, err, already_seeded}
use rsk.Rows.Meta.{u64, as_u64}
use rsk.Rows.Header.{BtcRow}
use rsk.Rows.Fork.{ForkMeta, reread}
use rsk.Btc.Store.Meta.{
  Chain, meta_key, best_fork, finalized, fork_meta, fork_tip, locate, meta_u64, number_of,
  next_fork, best_fork_key, finalized_height, seed_height,
}
use rsk.Btc.Store.Walk.{fork_chainwork}
use rsk.Btc.Store.Put.{next_fork_id}
use rsk.Btc.Store.Seed.{
  seed_checkpoints, seed_sorted, sort_by_height, is_contiguous, last_height, put_spine, put_root,
  put_checkpoint, boundary_work,
}
use rsk.Btc.Store.Sound.{IsTree, IsHeaviest, fork_chainwork_of_tip, fork_chainwork-none}
use rsk.Btc.Query.{tip_height}

-- No chain, no header, and no block that is found by its hash.
pub record IsEmpty {Header : Type 0} (c : Chain Header) : Type 0 where
  pub no_fork : (f : ℕ) → fork_meta c f ≡ none
  pub no_row : (f h : ℕ) → get c.headers (f, h) ≡ none
  pub no_block : (hash : ℕ) → locate c hash ≡ none

pub tip_height_at :
    {Header : Type 0} (c : Chain Header) (f : ℕ) (m : ForkMeta)
    → best_fork c ≡ some f
    → fork_meta c f ≡ some m
    → tip_height c ≡ some m.tip_height
unfolding tip_height fork_tip
tip_height_at c f m is there = rw (is, tip_height) (rw (there, fork_tip) refl)

module _ {Header : Type 0} (lib : Bitcoin Header) where
  -- The tables that the spine does not touch.
  put_spine_keeps :
      (entries : List (ℕ × Header)) (c : Chain Header) (i cum prev_w : ℕ)
      → ((put_spine lib c i cum prev_w entries).0.forks ≡ c.forks)
        × ((put_spine lib c i cum prev_w entries).0.meta ≡ c.meta)
  unfolding put_spine put_checkpoint
  put_spine_keeps [] c i cum prev_w = (refl, refl)
  put_spine_keeps ((height, header) ∷ rest) c i cum prev_w =
      let w = lib.work header in
      let cum' = boundary_work lib i cum prev_w w in
      put_spine_keeps rest (put_checkpoint lib c height header cum') (i + 1) cum' w

  -- Every block that is found is on the root chain.
  locate-put_spine :
      (entries : List (ℕ × Header)) (c : Chain Header) (i cum prev_w hash f h : ℕ)
      → ((f h : ℕ) → locate c hash ≡ some (f, h) → f ≡ 0)
      → locate (put_spine lib c i cum prev_w entries).0 hash ≡ some (f, h)
      → f ≡ 0
  unfolding put_spine put_checkpoint locate
  locate-put_spine [] c i cum prev_w hash f h before e = before f h e
  locate-put_spine ((height, header) ∷ rest) c i cum prev_w hash f h before e =
      let w = lib.work header in
      let cum' = boundary_work lib i cum prev_w w in
      locate-put_spine rest (put_checkpoint lib c height header cum') (i + 1) cum' w hash f h
        (λ f h e.
          ground
            (arith, get-insert c.hash_loc (lib.block_hash header) (0, height) hash, before f h))
        e

  -- The last entry has its row, with the work that the loop returns.
  put_spine_last :
      (x : ℕ × Header) (entries : List (ℕ × Header)) (c : Chain Header) (i cum prev_w : ℕ)
      → get (put_spine lib c i cum prev_w (x ∷ entries)).0.headers (0, (last_height x entries).0)
        ≡ some (record {
          header = (last_height x entries).1;
          work = (put_spine lib c i cum prev_w (x ∷ entries)).1;
        })
  unfolding put_spine put_checkpoint
  put_spine_last (height, header) [] c i cum prev_w =
      let w = lib.work header in
      let row : BtcRow Header = record {
        header = header;
        work = boundary_work lib i cum prev_w w;
      } in
      let key : ℕ × ℕ = (0, height) in ground (arith, get-insert c.headers key row key)
  put_spine_last (height, header) (y ∷ ys) c i cum prev_w =
      let w = lib.work header in
      let cum' = boundary_work lib i cum prev_w w in
      put_spine_last y ys (put_checkpoint lib c height header cum') (i + 1) cum' w

  module _ (c : Chain Header) (empty : IsEmpty c) (x : ℕ × Header) (xs : List (ℕ × Header)) where
    abbrev rows : Chain Header × ℕ
    rows = put_spine lib c 0 0 0 (x ∷ xs)

    abbrev seeded : Chain Header
    seeded = put_root lib rows.0 x (last_height x xs) rows.1

    abbrev root : ForkMeta
    root = record {
      forkpoint = 0;
      parent = none;
      forkpoint_hash = lib.block_hash x.1;
      tip_height = (last_height x xs).0;
      tip_hash = lib.block_hash (last_height x xs).1;
      tip_work = rows.1;
    }

    fork_meta-seeded : (f : ℕ) → fork_meta seeded f ≡ (if 0 == f then some (reread root) else none)
    unfolding fork_meta put_root
    fork_meta-seeded f =
        let got = get-insert rows.0.forks 0 root f in
        let kept = (put_spine_keeps (x ∷ xs) c 0 0 0).0 in
        elim (Bool-cases (0 == f)) [
          | inl same ↦ rw (got, fork_meta) (rw same refl)
          | inr other ↦ rw (got, fork_meta) (rw other (rw kept (empty.no_fork f)))
        ]

    root_only : (f : ℕ) (m : ForkMeta) → fork_meta seeded f ≡ some m → (0 ≡ f) × (reread root ≡ m)
    root_only f m e =
        let found : (if 0 == f then some (reread root) else none) ≡ some m =
          sym (fork_meta-seeded f) ∙ e in
        ground arith

    is_root_meta : fork_meta seeded 0 ≡ some (reread root)
    is_root_meta = fork_meta-seeded 0

    root_row :
        get seeded.headers (0, (last_height x xs).0)
        ≡ some (record { header = (last_height x xs).1; work = rows.1 })
    unfolding put_root
    root_row = put_spine_last x xs c 0 0 0

    seeded_numbers :
        (next_fork_id seeded ≡ 1)
        × (best_fork seeded ≡ some 0)
        × (finalized seeded ≡ some (last_height x xs).0)
    unfolding next_fork_id best_fork finalized meta_u64 put_root as_u64
    seeded_numbers =
        let with_seed = insert rows.0.meta seed_height (u64 x.0) in
        let with_final = insert with_seed finalized_height (u64 (last_height x xs).0) in
        let with_best = insert with_final best_fork_key (u64 0) in
        let final_is =
          get-insert with_seed finalized_height (u64 (last_height x xs).0) finalized_height in
        (
          ap (λ o. unwrap_or (number_of o) 1) (get-insert with_best next_fork (u64 1) next_fork),
          ap number_of (
              get-insert with_best next_fork (u64 1) best_fork_key
              ∙ get-insert with_final best_fork_key (u64 0) best_fork_key),
          ap number_of (
              get-insert with_best next_fork (u64 1) finalized_height
              ∙ get-insert with_final best_fork_key (u64 0) finalized_height
              ∙ final_is),
        )

    seeded-IsTree : IsTree seeded
    seeded-IsTree = record {
      parents = record {
        below = λ f p m there child.
            let (_, is) = root_only f m there in
            let no_parent : none ≡ m.parent = ap (λ m. m.parent) is in cc (no_parent, child);
      };
      numbered = λ f m there. omega (arith, (root_only f m there).0, seeded_numbers.0);
      tips = λ f m there.
          let (same, is) = root_only f m there in
          rw (← same, ← is)
            (record {
              owned = omega arith;
              row = record { header = (last_height x xs).1; work = rows.1 };
              stored = root_row;
            });
      located = λ hash f h e.
          let at_root : f ≡ 0 =
            locate-put_spine (x ∷ xs) c 0 0 0 hash f h
              (λ f h found. cc (empty.no_block hash, found)) (unfold put_root locate in e) in
          (reread root, rw at_root is_root_meta);
    }

    fork_chainwork-root : fork_chainwork seeded 0 ≡ some rows.1
    fork_chainwork-root =
        fork_chainwork_of_tip seeded 0 (reread root)
          (record { header = (last_height x xs).1; work = rows.1 }) is_root_meta (omega arith)
          root_row

    seeded-IsHeaviest : IsHeaviest seeded
    seeded-IsHeaviest = record {
      best = 0;
      best_work = rows.1;
      is_best = seeded_numbers.1;
      has_work = fork_chainwork-root;
      heaviest = λ f w e. elim (Option-cases (fork_meta seeded f)) [
        | inl gone ↦ cc (fork_chainwork-none seeded f gone, e)
        | inr (m, there) ↦
            let (same, _) = root_only f m there in
            let work_same : rows.1 ≡ w = cc (fork_chainwork-root, same, e) in omega arith
      ];
    }

    tip_height-seeded : tip_height seeded ≡ finalized seeded
    tip_height-seeded =
        tip_height_at seeded 0 (reread root) seeded_numbers.1 is_root_meta ∙ sym seeded_numbers.2

    seed_checkpoints-again :
        (entries : List (ℕ × Header)) → seed_checkpoints lib seeded entries ≡ err already_seeded
    unfolding seed_checkpoints
    seed_checkpoints-again entries = rw (is_root_meta, seed_checkpoints) refl

  seed_sorted-eq-ok :
      (c c' : Chain Header) (x : ℕ × Header) (xs : List (ℕ × Header))
      → seed_sorted lib c (x ∷ xs) ≡ ok c'
      → put_root lib
          (put_spine lib c 0 0 0 (x ∷ xs)).0
          x
          (last_height x xs)
          (put_spine lib c 0 0 0 (x ∷ xs)).1
        ≡ c'
  unfolding seed_sorted
  seed_sorted-eq-ok c c' x xs e = elim (Bool-cases (is_contiguous (x ∷ xs))) [
    | inl fine ↦ cc (rw fine at e)
    | inr gap ↦ cc (rw gap at e)
  ]

  -- What a seeded store is: its forks are a tree, its best fork is a heaviest one, all of it is
  -- finalized, and it is seeded once.
  abbrev pub IsSeeded : Chain Header → Type 0
  IsSeeded c =
      IsTree c
      × IsHeaviest c
      × (tip_height c ≡ finalized c)
      × ((entries : List (ℕ × Header)) → seed_checkpoints lib c entries ≡ err already_seeded)

  seed_sorted-IsSeeded :
      (c c' : Chain Header) (entries : List (ℕ × Header))
      → IsEmpty c
      → seed_sorted lib c entries ≡ ok c'
      → IsSeeded c'
  unfolding seed_sorted
  seed_sorted-IsSeeded c c' [] empty e = cc e
  seed_sorted-IsSeeded c c' (x ∷ xs) empty e =
      let is = seed_sorted-eq-ok c c' x xs e in
      rw (← is) (
        seeded-IsTree c empty x xs,
        seeded-IsHeaviest c empty x xs,
        tip_height-seeded c empty x xs,
        seed_checkpoints-again c empty x xs,
      )

  -- Seeding an empty store, where it succeeds, makes the forks a tree with a heaviest best fork, with
  -- the finalized height at the tip; the store cannot be seeded again.
  pub seed_checkpoints-IsSeeded :
      (c c' : Chain Header) (entries : List (ℕ × Header))
      → IsEmpty c
      → seed_checkpoints lib c entries ≡ ok c'
      → IsSeeded c'
  unfolding seed_checkpoints
  seed_checkpoints-IsSeeded c c' entries empty e =
      seed_sorted-IsSeeded c c' (sort_by_height entries) empty (rw (empty.no_fork 0) at e)
