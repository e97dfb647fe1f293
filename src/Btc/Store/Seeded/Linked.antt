-- ===== src/Btc/Store/Seeded/Linked.antt =====
-- The rows of a seeded store: the spine climbs to its last boundary, and nothing stands above.
use rsk.Prelude.{
  ℕ, ◌+◌, ◌≤◌, ◌<◌, ◌≡◌, sym, ap, inl, inr, true, none, some, List, [], ◌∷◌, ◌==◌, ==_iff, arith,
  leb, add_u64, Bool-cases, if◌then◌else◌,
}
use rsk.Prelude.Table.{get, get-insert, nat_key, pair_key, pair_beq}
use rsk.Bitcoin.{Bitcoin}
use rsk.Result.{ok}
use rsk.Rows.Header.{BtcRow}
use rsk.Rows.Fork.{reread}
use rsk.Btc.Validation.{difficulty_period}
use rsk.Btc.Store.Meta.{Chain, finalized, locate}
use rsk.Btc.Store.Seed.{
  seed_checkpoints, seed_sorted, sort_by_height, insert_by_height, is_contiguous, last_height,
  put_spine, put_root, put_checkpoint, boundary_work,
}
use rsk.Btc.Store.Linked.{IsLinked}
use rsk.Btc.Store.Seeded.{
  IsEmpty, seeded, root, rows, root_only, is_root_meta, root_row, seeded_numbers, seed_sorted-eq-ok,
}

module _ {Header : Type 0} where
  -- The heights do not fall, and with `Climbs` they rise.
  abbrev Rises : ℕ × Header → List (ℕ × Header) → Type 0
  Rises x [] = Unit
  Rises x (y ∷ ys) = (x.0 ≤ y.0) × Rises y ys

  abbrev Climbs : ℕ × Header → List (ℕ × Header) → Type 0
  Climbs x [] = Unit
  Climbs x (y ∷ ys) = (x.0 < y.0) × Climbs y ys

  abbrev IsSorted : List (ℕ × Header) → Type 0
  IsSorted [] = Unit
  IsSorted (x ∷ xs) = Rises x xs

  insert_by_height-Rises :
      (y x : ℕ × Header) (xs : List (ℕ × Header))
      → y.0 ≤ x.0
      → Rises y xs
      → Rises y (insert_by_height x xs)
  unfolding insert_by_height
  insert_by_height-Rises y x [] le rises = (le, tt)
  insert_by_height-Rises y x (z ∷ zs) le (first, rest) = elim (Bool-cases (leb x.0 z.0)) [
    | inl before ↦ rw before (le, (ground arith, rest))
    | inr behind ↦ rw behind (first, insert_by_height-Rises z x zs (ground arith) rest)
  ]

  insert_by_height-IsSorted :
      (x : ℕ × Header) (xs : List (ℕ × Header)) → IsSorted xs → IsSorted (insert_by_height x xs)
  unfolding insert_by_height
  insert_by_height-IsSorted x [] sorted = tt
  insert_by_height-IsSorted x (z ∷ zs) sorted = elim (Bool-cases (leb x.0 z.0)) [
    | inl before ↦ rw before (ground arith, sorted)
    | inr behind ↦ rw behind (insert_by_height-Rises z x zs (ground arith) sorted)
  ]

  sort_by_height-IsSorted : (xs : List (ℕ × Header)) → IsSorted (sort_by_height xs)
  unfolding sort_by_height
  sort_by_height-IsSorted [] = tt
  sort_by_height-IsSorted (x ∷ xs) =
      insert_by_height-IsSorted x (sort_by_height xs) (sort_by_height-IsSorted xs)

  -- A step of the spine that wraps around would fall.
  contiguous-Climbs :
      (x : ℕ × Header) (xs : List (ℕ × Header))
      → Rises x xs
      → is_contiguous (x ∷ xs) ≡ true
      → Climbs x xs
  unfolding is_contiguous
  contiguous-Climbs x [] rises e = tt
  contiguous-Climbs x (y ∷ ys) (le, rest) e =
      let step : y.0 ≡ add_u64 x.0 difficulty_period = ground arith in
      let more : is_contiguous (y ∷ ys) ≡ true = ground arith in
      (omega (arith, step), contiguous-Climbs y ys rest more)

module _ {Header : Type 0} (lib : Bitcoin Header) where
  -- The rows of the root chain below a height, each found by its hash.
  record IsSpine (c : Chain Header) (n : ℕ) : Type 0 where
    below : (f h : ℕ) (x : BtcRow Header) → get c.headers (f, h) ≡ some x → (0 ≡ f) × (h < n)
    found :
        (hash f h : ℕ)
        → locate c hash ≡ some (f, h)
        → (x : BtcRow Header) × (get c.headers (f, h) ≡ some x) × (lib.block_hash x.header ≡ hash)

  module _ (c : Chain Header) (n height cum : ℕ) (header : Header) (spine : IsSpine c n)
      (le : n ≤ height) where
    abbrev new_row : BtcRow Header
    new_row = record { header = header; work = cum }

    headers-put_checkpoint :
        (f h : ℕ)
        → get (put_checkpoint lib c height header cum).headers (f, h)
          ≡ (if pair_beq (0, height) (f, h) then some new_row else get c.headers (f, h))
    unfolding put_checkpoint
    headers-put_checkpoint f h = get-insert c.headers (0, height) new_row (f, h)

    locate-put_checkpoint :
        (hash : ℕ)
        → locate (put_checkpoint lib c height header cum) hash
          ≡ (if lib.block_hash header == hash then some (0, height) else locate c hash)
    unfolding put_checkpoint locate
    locate-put_checkpoint hash = get-insert c.hash_loc (lib.block_hash header) (0, height) hash

    put_checkpoint-IsSpine : IsSpine (put_checkpoint lib c height header cum) (height + 1)
    put_checkpoint-IsSpine = record {
      below = λ f h x e. ground (arith, headers-put_checkpoint f h, spine.below f h x);
      found = λ hash f h e. elim (Bool-cases (lib.block_hash header == hash)) [
        | inl same ↦ (
          new_row,
          ground (arith, headers-put_checkpoint f h, locate-put_checkpoint hash),
          (==_iff (lib.block_hash header) hash).0 same,
        )
        | inr other ↦
            let (x, row, has_hash) =
              spine.found hash f h (ground (arith, locate-put_checkpoint hash)) in
            (x, ground (arith, headers-put_checkpoint f h, spine.below f h x row), has_hash)
      ];
    }

  put_spine-IsSpine :
      (x : ℕ × Header) (xs : List (ℕ × Header)) (c : Chain Header) (n i cum prev_w : ℕ)
      → IsSpine c n
      → n ≤ x.0
      → Climbs x xs
      → IsSpine (put_spine lib c i cum prev_w (x ∷ xs)).0 ((last_height x xs).0 + 1)
  unfolding put_spine
  put_spine-IsSpine (height, header) [] c n i cum prev_w spine le climbs =
      put_checkpoint-IsSpine c n height (boundary_work lib i cum prev_w (lib.work header)) header
        spine le
  put_spine-IsSpine (height, header) (y ∷ ys) c n i cum prev_w spine le (lt, climbs) =
      let w = lib.work header in
      let cum' = boundary_work lib i cum prev_w w in
      put_spine-IsSpine y ys (put_checkpoint lib c height header cum') (height + 1) (i + 1) cum' w
        (put_checkpoint-IsSpine c n height cum' header spine le) (omega (arith, lt)) climbs

  module _ (c : Chain Header) (empty : IsEmpty c) (x : ℕ × Header) (xs : List (ℕ × Header))
      (climbs : Climbs x xs) where
    abbrev anchor : ℕ
    anchor = (last_height x xs).0

    empty-IsSpine : IsSpine c x.0
    empty-IsSpine = record {
      below = λ f h y e. cc (empty.no_row f h, e);
      found = λ hash f h e. cc (empty.no_block hash, e);
    }

    seeded-IsSpine : IsSpine (seeded lib c empty x xs) (anchor + 1)
    seeded-IsSpine =
        let spine = put_spine-IsSpine x xs c x.0 0 0 0 empty-IsSpine (omega arith) climbs in
        record {
          below = λ f h y e. spine.below f h y (unfold put_root in e);
          found = λ hash f h e. unfold put_root locate in spine.found hash f h e;
        }

    seeded-IsLinked : IsLinked lib anchor (seeded lib c empty x xs)
    seeded-IsLinked = record {
      rows_in = λ f h y e.
          let (same, lt) = seeded-IsSpine.below f h y e in
          record {
            meta = reread (root lib c empty x xs);
            is_there = rw (← same) (is_root_meta lib c empty x xs);
            above = omega arith;
            below = omega (arith, lt);
          };
      dense = λ f h above inside.
          let (same, is) = root_only lib c empty x xs f inside.meta inside.is_there in
          let tip : anchor ≡ inside.meta.tip_height = ap (λ m. m.tip_height) is in
          let at : anchor ≡ h = omega (arith, inside.below, tip, above) in
          (
            record { header = (last_height x xs).1; work = (rows lib c empty x xs).1 },
            rw (← same, ← at) (root_row lib c empty x xs),
          );
      within = λ f h y z above lower upper.
          absurd (omega (arith, (seeded-IsSpine.below f (h + 1) z upper).1));
      joint = λ f p m there child.
          let (_, is) = root_only lib c empty x xs f m there in
          let no_parent : none ≡ m.parent = ap (λ m. m.parent) is in absurd (cc (no_parent, child));
      rooted = λ f m there no_parent.
          sym (ap (λ m. m.forkpoint) (root_only lib c empty x xs f m there).1);
      found = seeded-IsSpine.found;
    }

  seed_sorted-eq-contiguous :
      (c c' : Chain Header) (x : ℕ × Header) (xs : List (ℕ × Header))
      → seed_sorted lib c (x ∷ xs) ≡ ok c'
      → is_contiguous (x ∷ xs) ≡ true
  unfolding seed_sorted
  seed_sorted-eq-contiguous c c' x xs e = elim (Bool-cases (is_contiguous (x ∷ xs))) [
    | inl fine ↦ fine
    | inr gap ↦ cc (rw gap at e)
  ]

  seed_sorted-IsLinked :
      (c c' : Chain Header) (entries : List (ℕ × Header))
      → IsEmpty c
      → IsSorted entries
      → seed_sorted lib c entries ≡ ok c'
      → (k : ℕ) × (finalized c' ≡ some k) × IsLinked lib k c'
  unfolding seed_sorted
  seed_sorted-IsLinked c c' [] empty sorted e = cc e
  seed_sorted-IsLinked c c' (x ∷ xs) empty sorted e =
      let is = seed_sorted-eq-ok lib c c' x xs e in
      let climbs = contiguous-Climbs x xs sorted (seed_sorted-eq-contiguous c c' x xs e) in
      rw (← is) (
        (last_height x xs).0,
        (seeded_numbers lib c empty x xs).2,
        seeded-IsLinked c empty x xs climbs,
      )

  -- The spine is linked from its last boundary on, which is finalized.
  pub seed_checkpoints-IsLinked :
      (c c' : Chain Header) (entries : List (ℕ × Header))
      → IsEmpty c
      → seed_checkpoints lib c entries ≡ ok c'
      → (k : ℕ) × (finalized c' ≡ some k) × IsLinked lib k c'
  unfolding seed_checkpoints
  seed_checkpoints-IsLinked c c' entries empty e =
      seed_sorted-IsLinked c c' (sort_by_height entries) empty (sort_by_height-IsSorted entries)
        (rw (empty.no_fork 0) at e)
