-- ===== src/Btc/Connect/Effect.antt =====
-- What a connect changes: the choice of the target, and the tables after the run was put.
use rsk.Prelude.{
  ℕ, suc, ◌+◌, ◌%◌, ◌≤◌, ◌<◌, ◌≡◌, ◌≢◌, refl, sym, ◌∙◌, ap, ◌⊎◌, inl, inr, true, some, List, [],
  ◌∷◌, arith, ◌==◌, length, get_elem?, take, add_u64, u64_mod, u256_mod, if◌then◌else◌,
  Option-cases, Bool-cases,
}
use rsk.Prelude.Table.{get, get-insert, pair_key, nat_key}
use rsk.Bitcoin.{Bitcoin}
use rsk.Result.{ok}
use rsk.Rows.Header.{BtcRow}
use rsk.Rows.Fork.{ForkMeta, reread}
use rsk.Btc.Store.Meta.{Chain, locate, fork_meta}
use rsk.Btc.Store.Put.{Entry, create_fork, next_fork_id, put_entries, put_headers, set_tip, last_of}
use rsk.Btc.Connect.{Target, tip_of, above_finalized, choose_target, entries_of}
use rsk.Btc.Connect.Stored.{
  works_sum, forks-put_entries, meta-put_entries, headers-put_entries_ne, headers-put_entries_at,
  locate-put_entries, headers-put_entries_below, headers-put_entries_above, InRun,
}

module _ {Header : Type 0} where
  -- The run extends the chain of its parent, or starts a fork above the finalized checkpoint.
  pub choose_target-cases :
      (txn : Chain Header) (f h hash : ℕ) (target : Target Header)
      → choose_target txn f h hash ≡ ok target
      → ((h ≡ tip_of txn f) × (target ≡ record { fork = f; forkpoint = add_u64 h 1; txn = txn }))
        ⊎ ((h ≢ tip_of txn f)
            × (above_finalized txn (add_u64 h 1) ≡ true)
            × (target ≡ record {
              fork = next_fork_id txn;
              forkpoint = add_u64 h 1;
              txn = (create_fork txn f (add_u64 h 1) hash).1;
            }))
  unfolding choose_target create_fork
  choose_target-cases txn f h hash target e = elim (Bool-cases (h == tip_of txn f)) [
    | inl same ↦ inl (ground arith, cc (rw same at e))
    | inr other ↦ elim (Bool-cases (above_finalized txn (add_u64 h 1))) [
      | inl above ↦ inr (ground arith, above, cc (rw (other, above) at e))
      | inr below ↦ cc (rw (other, below) at e)
    ]
  ]

  last_item : Header → List Header → Header
  last_item x [] = x
  last_item x (y ∷ ys) = last_item y ys

  get_elem?-last :
      (x : Header) (xs : List Header) → get_elem? (x ∷ xs) (length xs) ≡ some (last_item x xs)
  unfolding last_item
  get_elem?-last x [] = refl
  get_elem?-last x (y ∷ ys) = get_elem?-last y ys

  take_all : (xs : List Header) → take (length xs) xs ≡ xs
  take_all [] = refl
  take_all (x ∷ xs) = ap (λ t. x ∷ t) (take_all xs)

module _ {Header : Type 0} (lib : Bitcoin Header) where
  last_of-entries_height :
      (x : Header) (xs : List Header) (start base : ℕ)
      → start + suc (length xs) ≤ u64_mod
      → (last_of
          (record { height = start; header = x; work = (base + lib.work x) % u256_mod })
          (entries_of lib (add_u64 start 1) ((base + lib.work x) % u256_mod) xs)).height
        ≡ start + length xs
  unfolding entries_of
  last_of-entries_height x [] start base fits = omega arith
  last_of-entries_height x (y ∷ ys) start base fits =
      last_of-entries_height y ys (add_u64 start 1) ((base + lib.work x) % u256_mod) (omega arith)
      ∙ omega arith

  -- The tables after a run of at least one header was put on the fork `t`.
  pub record PutEffect (before after : Chain Header) (t start base : ℕ) (run : List Header)
      : Type 0 where
    pub old_meta : ForkMeta
    pub was_there : fork_meta before t ≡ some old_meta
    pub new_meta : ForkMeta
    pub is_there : fork_meta after t ≡ some new_meta
    pub same_forkpoint : new_meta.forkpoint ≡ old_meta.forkpoint
    pub same_parent : new_meta.parent ≡ old_meta.parent
    pub new_tip : new_meta.tip_height + 1 ≡ start + length run
    pub other_forks : (g : ℕ) → g ≢ t → fork_meta after g ≡ fork_meta before g
    pub other_rows : (g h : ℕ) → g ≢ t → get after.headers (g, h) ≡ get before.headers (g, h)
    pub rows :
        (i height : ℕ) (h : Header)
        → get_elem? run i ≡ some h
        → start + i ≡ height
        → get after.headers (t, height)
          ≡ some
              (record { header = h; work = (base + works_sum lib (take (suc i) run)) % u256_mod })
    pub tip_row : BtcRow Header
    pub has_tip_row : get after.headers (t, new_meta.tip_height) ≡ some tip_row
    pub tip_weight : tip_row.work ≡ (base + works_sum lib run) % u256_mod
    pub locates :
        (hash f h : ℕ)
        → locate after hash ≡ some (f, h)
        → InRun lib t start run hash f h ⊎ (locate before hash ≡ some (f, h))
    pub kept_rows :
        (h : ℕ)
        → (h < start) ⊎ (start + length run ≤ h)
        → get after.headers (t, h) ≡ get before.headers (t, h)
    pub same_meta : after.meta ≡ before.meta

  pub put_headers-eq-ok :
      (before after : Chain Header) (t : ℕ) (x : Entry Header) (xs : List (Entry Header))
      → put_headers lib before t (x ∷ xs) ≡ ok after
      → (m : ForkMeta) × (fork_meta before t ≡ some m)
        × (after ≡ set_tip lib (put_entries lib t before (x ∷ xs)) t (last_of x xs) m)
  unfolding put_headers
  put_headers-eq-ok before after t x xs e =
      elim (Option-cases (fork_meta (put_entries lib t before (x ∷ xs)) t)) [
        | inl gone ↦ cc (rw (gone, put_headers) at e)
        | inr (m, there) ↦ (m, sym (same_forks t) ∙ there, cc (rw (there, put_headers) at e))
      ]
    where
      same_forks : (g : ℕ) → fork_meta (put_entries lib t before (x ∷ xs)) g ≡ fork_meta before g
      same_forks g = unfold fork_meta in rw (forks-put_entries lib t before (x ∷ xs)) refl

  fork_meta-set_tip :
      (txn : Chain Header) (t g : ℕ) (last : Entry Header) (m : ForkMeta)
      → fork_meta (set_tip lib txn t last m) g ≡ (
          if t == g
          then some (
              reread (record m {
                tip_height = last.height;
                tip_hash = lib.block_hash last.header;
                tip_work = last.work;
              }))
          else fork_meta txn g)
  unfolding fork_meta set_tip
  fork_meta-set_tip txn t g last m = ground (
    arith,
    get-insert txn.forks t
        (record m {
          tip_height = last.height;
          tip_hash = lib.block_hash last.header;
          tip_work = last.work;
        })
        g,
  )

  module _ (before : Chain Header) (t start base : ℕ) (x : Header) (xs : List Header)
      (fits : start + suc (length xs) ≤ u64_mod) (m : ForkMeta)
      (there : fork_meta before t ≡ some m) where
    abbrev entries : List (Entry Header)
    entries = entries_of lib start base (x ∷ xs)

    abbrev first : Entry Header
    first = record { height = start; header = x; work = (base + lib.work x) % u256_mod }

    abbrev last : Entry Header
    last = last_of first (entries_of lib (add_u64 start 1) ((base + lib.work x) % u256_mod) xs)

    abbrev after : Chain Header
    after = set_tip lib (put_entries lib t before entries) t last m

    rows_at :
        (i height : ℕ) (h : Header)
        → get_elem? (x ∷ xs) i ≡ some h
        → start + i ≡ height
        → get after.headers (t, height)
          ≡ some (record {
            header = h;
            work = (base + works_sum lib (take (suc i) (x ∷ xs))) % u256_mod;
          })
    unfolding set_tip
    rows_at i height h e p =
        headers-put_entries_at lib t (x ∷ xs) before start base i height e p fits

    last_height : last.height ≡ start + length xs
    last_height = last_of-entries_height x xs start base fits

    tip_row_at :
        get after.headers (t, last.height)
        ≡ some
            (record { header = last_item x xs; work = (base + works_sum lib (x ∷ xs)) % u256_mod })
    tip_row_at =
        rows_at (length xs) last.height (last_item x xs) (get_elem?-last x xs) (sym last_height)
        ∙ ap
            (λ run.
              some
                (record { header = last_item x xs; work = (base + works_sum lib run) % u256_mod }))
            (take_all (x ∷ xs))

    set_tip-PutEffect : PutEffect before after t start base (x ∷ xs)
    set_tip-PutEffect = record {
      old_meta = m;
      was_there = there;
      new_meta = reread (record m {
        tip_height = last.height;
        tip_hash = lib.block_hash last.header;
        tip_work = last.work;
      });
      is_there = ground (arith, fork_meta-set_tip (put_entries lib t before entries) t t last m);
      same_forkpoint = refl;
      same_parent = refl;
      new_tip = omega (arith, last_height);
      other_forks = λ g ne. other g ne;
      other_rows = λ g h ne. unfold set_tip in headers-put_entries_ne lib t before entries g h ne;
      rows = rows_at;
      tip_row = record {
        header = last_item x xs;
        work = (base + works_sum lib (x ∷ xs)) % u256_mod;
      };
      has_tip_row = tip_row_at;
      tip_weight = refl;
      locates = λ hash f h e.
          locate-put_entries lib t (x ∷ xs) before start base hash f h fits
            (unfold set_tip locate in e);
      kept_rows = kept;
      same_meta = unfold set_tip in meta-put_entries lib t before entries;
    }
      where
        kept :
            (h : ℕ)
            → (h < start) ⊎ (start + length (x ∷ xs) ≤ h)
            → get after.headers (t, h) ≡ get before.headers (t, h)
        kept h (inl below) =
            unfold set_tip in
            headers-put_entries_below lib t (x ∷ xs) before start base h below fits
        kept h (inr above) =
            unfold set_tip in
            headers-put_entries_above lib t (x ∷ xs) before start base h above fits

        unchanged : (g : ℕ) → fork_meta (put_entries lib t before entries) g ≡ fork_meta before g
        unchanged g = unfold fork_meta in rw (forks-put_entries lib t before entries) refl

        other : (g : ℕ) → g ≢ t → fork_meta after g ≡ fork_meta before g
        other g ne =
            ground
              (arith, unchanged g, fork_meta-set_tip (put_entries lib t before entries) t g last m)

  pub put_headers-PutEffect :
      (before after : Chain Header) (t start base : ℕ) (x : Header) (xs : List Header)
      → start + suc (length xs) ≤ u64_mod
      → put_headers lib before t (entries_of lib start base (x ∷ xs)) ≡ ok after
      → PutEffect before after t start base (x ∷ xs)
  unfolding entries_of
  put_headers-PutEffect before after t start base x xs fits e =
      let (m, there, same) =
        put_headers-eq-ok before after t
          (record { height = start; header = x; work = (base + lib.work x) % u256_mod })
          (entries_of lib (add_u64 start 1) ((base + lib.work x) % u256_mod) xs) e in
      rw same (set_tip-PutEffect before t start base x xs fits m there)
