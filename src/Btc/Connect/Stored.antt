-- ===== src/Btc/Connect/Stored.antt =====
-- What the tables hold after the headers of a run were put.
use rsk.Prelude.{
  ◌==◌, ◌⊎◌, inl, inr, ℕ, zero, suc, sym, Option, ==_iff, Bool-cases, ◌+◌, ◌%◌, ◌≤◌, ◌<◌, ◌≡◌, ◌≢◌,
  refl, ◌∙◌, ap, some, List, [], ◌∷◌, arith, length, get_elem?, take, add_u64, add_u256, u64_mod,
  u256_mod, if◌then◌else◌,
}
use rsk.Prelude.Table.{get, get-insert, pair_key, nat_key, pair_beq}
use rsk.Bitcoin.{Bitcoin}
use rsk.Btc.Store.Meta.{Chain, locate}
use rsk.Btc.Store.Put.{Entry, put_entry, put_entries}
use rsk.Btc.Connect.{entries_of}

module _ {Header : Type 0} (lib : Bitcoin Header) where
  -- The work of a run of headers, as a sum.
  abbrev pub works_sum : List Header → ℕ
  works_sum [] = 0
  works_sum (h ∷ hs) = lib.work h + works_sum hs

module _ {Header : Type 0} (lib : Bitcoin Header) (t : ℕ) where
  pub forks-put_entries :
      (txn : Chain Header) (xs : List (Entry Header)) → (put_entries lib t txn xs).forks ≡ txn.forks
  unfolding put_entries put_entry
  forks-put_entries txn [] = refl
  forks-put_entries txn (x ∷ xs) = forks-put_entries (put_entry lib t txn x) xs

  pub meta-put_entries :
      (txn : Chain Header) (xs : List (Entry Header)) → (put_entries lib t txn xs).meta ≡ txn.meta
  unfolding put_entries put_entry
  meta-put_entries txn [] = refl
  meta-put_entries txn (x ∷ xs) = meta-put_entries (put_entry lib t txn x) xs

  headers-put_entry :
      (txn : Chain Header) (x : Entry Header) (g h : ℕ)
      → get (put_entry lib t txn x).headers (g, h) ≡ (
          if pair_beq (t, x.height) (g, h)
          then some (record { header = x.header; work = x.work })
          else get txn.headers (g, h))
  unfolding put_entry
  headers-put_entry txn x g h = get-insert txn.headers (t, x.height) _ (g, h)

  -- The rows of the other forks stay.
  pub headers-put_entries_ne :
      (txn : Chain Header) (xs : List (Entry Header)) (g h : ℕ)
      → g ≢ t
      → get (put_entries lib t txn xs).headers (g, h) ≡ get txn.headers (g, h)
  unfolding put_entries
  headers-put_entries_ne txn [] g h ne = refl
  headers-put_entries_ne txn (x ∷ xs) g h ne =
      headers-put_entries_ne (put_entry lib t txn x) xs g h ne
      ∙ ground (arith, headers-put_entry txn x g h)

  -- So do the rows below the run.
  pub headers-put_entries_below :
      (run : List Header) (txn : Chain Header) (start base h : ℕ)
      → h < start
      → start + length run ≤ u64_mod
      → get (put_entries lib t txn (entries_of lib start base run)).headers (t, h)
        ≡ get txn.headers (t, h)
  unfolding put_entries entries_of
  headers-put_entries_below [] txn start base h below fits = refl
  headers-put_entries_below (x ∷ []) txn start base h below fits =
      let x' : Entry Header = record {
        height = start;
        header = x;
        work = add_u256 base (lib.work x);
      } in
      ground (arith, headers-put_entry txn x' t h)
  headers-put_entries_below (x ∷ y ∷ run) txn start base h below fits =
      let x' : Entry Header = record {
        height = start;
        header = x;
        work = add_u256 base (lib.work x);
      } in
      headers-put_entries_below (y ∷ run) (put_entry lib t txn x') (add_u64 start 1)
        (add_u256 base (lib.work x)) h (omega arith) (omega arith)
      ∙ ground (arith, headers-put_entry txn x' t h)

  -- And the rows above it.
  pub headers-put_entries_above :
      (run : List Header) (txn : Chain Header) (start base h : ℕ)
      → start + length run ≤ h
      → start + length run ≤ u64_mod
      → get (put_entries lib t txn (entries_of lib start base run)).headers (t, h)
        ≡ get txn.headers (t, h)
  unfolding put_entries entries_of
  headers-put_entries_above [] txn start base h above fits = refl
  headers-put_entries_above (x ∷ []) txn start base h above fits =
      let x' : Entry Header = record {
        height = start;
        header = x;
        work = add_u256 base (lib.work x);
      } in
      ground (arith, headers-put_entry txn x' t h)
  headers-put_entries_above (x ∷ y ∷ run) txn start base h above fits =
      let x' : Entry Header = record {
        height = start;
        header = x;
        work = add_u256 base (lib.work x);
      } in
      headers-put_entries_above (y ∷ run) (put_entry lib t txn x') (add_u64 start 1)
        (add_u256 base (lib.work x)) h (omega arith) (omega arith)
      ∙ ground (arith, headers-put_entry txn x' t h)

  -- The place is that of a header of the run, which has the hash.
  pub record InRun (start : ℕ) (run : List Header) (hash f h : ℕ) : Type 0 where
    pub on_target : f ≡ t
    pub index : ℕ
    pub header : Header
    pub listed : get_elem? run index ≡ some header
    pub height : start + index ≡ h
    pub has_hash : lib.block_hash header ≡ hash

  locate-put_entry :
      (txn : Chain Header) (x : Entry Header) (hash : ℕ)
      → locate (put_entry lib t txn x) hash
        ≡ (if lib.block_hash x.header == hash then some (t, x.height) else locate txn hash)
  unfolding locate put_entry
  locate-put_entry txn x hash = get-insert txn.hash_loc (lib.block_hash x.header) (t, x.height) hash

  same_place :
      (start f h : ℕ) (place : Option (ℕ × ℕ))
      → place ≡ some (t, start)
      → place ≡ some (f, h)
      → (f ≡ t) × (start ≡ h)
  same_place start f h place e e' = (ground arith, ground arith)

  locate-put_entry_cases :
      (txn : Chain Header) (x : Header) (run : List Header) (start work hash f h : ℕ)
      → locate (put_entry lib t txn (record { height = start; header = x; work = work })) hash
        ≡ some (f, h)
      → InRun start (x ∷ run) hash f h ⊎ (locate txn hash ≡ some (f, h))
  locate-put_entry_cases txn x run start work hash f h e =
      let row = locate-put_entry txn (record { height = start; header = x; work = work }) hash in
      elim (Bool-cases (lib.block_hash x == hash)) [
        | inl same ↦
            let (on_target, height) = same_place start f h _ (rw same at row) e in
            inl (record {
              on_target = on_target;
              index = 0;
              header = x;
              listed = refl;
              height = omega (arith, height);
              has_hash = (==_iff (lib.block_hash x) hash).0 same;
            })
        | inr other ↦ inr (sym (rw other at row) ∙ e)
      ]

  InRun-cons :
      (x : Header) (run : List Header) (start hash f h : ℕ)
      → InRun (start + 1) run hash f h
      → InRun start (x ∷ run) hash f h
  InRun-cons x run start hash f h inside = record {
    on_target = inside.on_target;
    index = suc inside.index;
    header = inside.header;
    listed = inside.listed;
    height = omega (arith, inside.height);
    has_hash = inside.has_hash;
  }

  -- A hash that is located in the end is one of the run, or was located before.
  pub locate-put_entries :
      (run : List Header) (txn : Chain Header) (start base hash f h : ℕ)
      → start + length run ≤ u64_mod
      → locate (put_entries lib t txn (entries_of lib start base run)) hash ≡ some (f, h)
      → InRun start run hash f h ⊎ (locate txn hash ≡ some (f, h))
  unfolding put_entries entries_of
  locate-put_entries [] txn start base hash f h fits e = inr e
  locate-put_entries (x ∷ []) txn start base hash f h fits e =
      locate-put_entry_cases txn x [] start (add_u256 base (lib.work x)) hash f h e
  locate-put_entries (x ∷ y ∷ run) txn start base hash f h fits e =
      let work = add_u256 base (lib.work x) in
      let x' : Entry Header = record { height = start; header = x; work = work } in
      let next : add_u64 start 1 ≡ start + 1 = omega arith in
      elim (locate-put_entries (y ∷ run) (put_entry lib t txn x') (add_u64 start 1) work hash f h
        (omega arith) e) [
          | inl inside ↦ inl (InRun-cons x (y ∷ run) start hash f h (rw next at inside))
          | inr before ↦ locate-put_entry_cases txn x (y ∷ run) start work hash f h before
        ]

  -- The row of the first entry.
  first_row :
      (x : Header) (run : List Header) (txn : Chain Header) (start base : ℕ)
      → start + suc (length run) ≤ u64_mod
      → get (put_entries lib t txn (entries_of lib start base (x ∷ run))).headers (t, start)
        ≡ some (record { header = x; work = add_u256 base (lib.work x) })
  unfolding put_entries entries_of
  first_row x [] txn start base fits =
      let x' : Entry Header = record {
        height = start;
        header = x;
        work = add_u256 base (lib.work x);
      } in
      ground (arith, headers-put_entry txn x' t start)
  first_row x (y ∷ run) txn start base fits =
      let x' : Entry Header = record {
        height = start;
        header = x;
        work = add_u256 base (lib.work x);
      } in
      headers-put_entries_below (y ∷ run) (put_entry lib t txn x') (add_u64 start 1)
        (add_u256 base (lib.work x)) start (omega arith) (omega arith)
      ∙ ground (arith, headers-put_entry txn x' t start)

  -- The `i`-th header of the run has its row at the height `start + i`, with the work of the chain
  -- below and of the run so far.
  pub headers-put_entries_at :
      (run : List Header) (txn : Chain Header) (start base i height : ℕ) {h : Header}
      → get_elem? run i ≡ some h
      → start + i ≡ height
      → start + length run ≤ u64_mod
      → get (put_entries lib t txn (entries_of lib start base run)).headers (t, height)
        ≡ some (record { header = h; work = (base + works_sum lib (take (suc i) run)) % u256_mod })
  unfolding put_entries entries_of
  headers-put_entries_at [] txn start base i height e p fits = cc
  headers-put_entries_at (x ∷ run) txn start base zero height {h} e p fits =
      let same : start ≡ height = omega arith in
      let head : x ≡ h = cc in
      let work : add_u256 base (lib.work x) ≡ (base + (lib.work x + 0)) % u256_mod = omega arith in
      rw (← same) (
        first_row x run txn start base (omega arith)
        ∙ ap (λ w. some (record { header = x; work = w })) work
        ∙ ap (λ y. some (record { header = y; work = (base + (lib.work x + 0)) % u256_mod })) head)
  headers-put_entries_at (x ∷ []) txn start base (suc i) height e p fits = cc
  headers-put_entries_at (x ∷ y ∷ run) txn start base (suc i) height {h} e p fits =
      let x' : Entry Header = record {
        height = start;
        header = x;
        work = add_u256 base (lib.work x);
      } in
      let w : ℕ = works_sum lib (take (suc i) (y ∷ run)) in
      let sum : (add_u256 base (lib.work x) + w) % u256_mod ≡ (base + (lib.work x + w)) % u256_mod =
        omega arith in
      headers-put_entries_at (y ∷ run) (put_entry lib t txn x') (add_u64 start 1)
        (add_u256 base (lib.work x)) i height e (omega arith) (omega arith)
      ∙ ap (λ v. some (record { header = h; work = v })) sum
