-- ===== src/Btc/Connect/Succeeds.antt =====
-- That a connect succeeds: no step behind the validation of the run fails on well-formed tables.
use rsk.Prelude.{
  u64_mod, ℕ, ◌+◌, ◌-◌, ◌%◌, ◌≤◌, ◌<◌, ◌≡◌, ◌≢◌, refl, ap, ◌∙◌, inl, inr, some, none, List, ◌∷◌,
  arith, Bool, Option, ltb, leb, ◌==◌, length, Bool-cases, Option-cases, unwrap_or, sub_u256,
  add_u64, add_u256,
}
use rsk.Prelude.Table.{get, pair_key}
use rsk.Bitcoin.{Bitcoin, Network}
use rsk.Result.{ok}
use rsk.Rows.Header.{BtcRow}
use rsk.Rows.Fork.{ForkMeta}
use rsk.Btc.Validation.{difficulty_period}
use rsk.Btc.Store.Meta.{Chain, best_fork, fork_meta, fork_tip, finalized, locate, set_finalized}
use rsk.Btc.Store.Walk.{work_at, row_at, header_at}
use rsk.Btc.Store.Walk.Owns.{work_at_own}
use rsk.Btc.Store.Put.{next_fork_id, create_fork, put_headers, put_entries, set_tip, last_of}
use rsk.Btc.Store.Sound.{IsTree, IsHeaviest}
use rsk.Btc.Store.Linked.{IsLinked, IsLinked-Whole}
use rsk.Btc.Connect.{
  Target, ConnectOutcome, tip_of, choose_target, select_best, store_run, connect_behind, entries_of,
}
use rsk.Btc.Connect.Finalize.{
  finalize_in_txn, finalize_at, outweighs, boundary_below, finality_margin_blocks,
}
use rsk.Btc.Connect.Floor.{
  IsFloor, finalized-choose_target, finalized-select_best, finalized-put_headers,
}
use rsk.Btc.Connect.Stored.{forks-put_entries}
use rsk.Btc.Connect.Effect.{choose_target-cases, put_headers-PutEffect}
use rsk.Btc.Connect.Placed.{fork_meta-create_fork}
use rsk.Btc.Connect.Grown.{put-Grown}
use rsk.Btc.Connect.Select.{select_best_sound, select_best-SameRows}
use rsk.Btc.Connect.Sound.{Fits, choose_target-Placed}
use rsk.Btc.Connect.Joined.{Stored-Joined}
use rsk.Btc.Connect.Linked.{Joined-IsLinked}
use rsk.Btc.Connect.Run.Valid.{ValidRun, check_headers_iff_valid}
use rsk.Btc.Connect.Run.{validate_run, header_in}

module _ {Header : Type 0} where
  work_of_row :
      (c : Chain Header) (f h : ℕ) (x : BtcRow Header)
      → row_at c f h ≡ some x
      → work_at c f h ≡ some x.work
  unfolding work_at
  work_of_row c f h x e = rw (e, work_at) refl

  outweighs-eq :
      (s : Chain Header) (tip b u v w : ℕ)
      → work_at s 0 b ≡ some u
      → work_at s 0 (b - difficulty_period) ≡ some v
      → work_at s 0 tip ≡ some w
      → (heavy : Bool) × (outweighs s tip b ≡ ok heavy)
  unfolding outweighs
  outweighs-eq s tip b u v w e₁ e₂ e₃ = (leb (sub_u256 u v) (sub_u256 w u), rw (e₁, e₂, e₃) refl)

  finalize_at-eq :
      (s : Chain Header) (tip : ℕ)
      → (finality_margin_blocks ≤ tip
          → unwrap_or (finalized s) 0 < boundary_below tip
          → (heavy : Bool) × (outweighs s tip (boundary_below tip) ≡ ok heavy))
      → (r : Option ℕ × Chain Header) × (finalize_at s tip ≡ ok r)
  unfolding finalize_at
  finalize_at-eq s tip weigh = elim (Bool-cases (ltb tip finality_margin_blocks)) [
    | inl short ↦ ((none, s), rw short refl)
    | inr long ↦ elim (Bool-cases (leb (boundary_below tip) (unwrap_or (finalized s) 0))) [
      | inl old ↦ ((none, s), rw (long, old) refl)
      | inr new ↦
          let (heavy, weighed) = weigh (ground arith) (ground arith) in
          elim (Bool-cases heavy) [
            | inl heavier ↦ (
              (some (boundary_below tip), set_finalized s (boundary_below tip)),
              rw (long, new, weighed, heavier) refl,
            )
            | inr lighter ↦ ((none, s), rw (long, new, weighed, lighter) refl)
          ]
    ]
  ]

  finalize_in_txn-eq :
      (s : Chain Header)
      → ((m : ForkMeta)
          → fork_meta s 0 ≡ some m
          → (r : Option ℕ × Chain Header) × (finalize_at s m.tip_height ≡ ok r))
      → (r : Option ℕ × Chain Header) × (finalize_in_txn s ≡ ok r)
  unfolding finalize_in_txn fork_tip
  finalize_in_txn-eq s at = elim (Option-cases (best_fork s)) [
    | inl gone ↦ ((none, s), rw (gone, finalize_in_txn) refl)
    | inr (best, is) ↦ elim (Option-cases (fork_meta s 0)) [
      | inl gone ↦ ((none, s), rw (is, finalize_in_txn) (rw (gone, finalize_in_txn) refl))
      | inr (m, there) ↦
          let (r, fine) = at m there in
          elim (Bool-cases (best == 0)) [
            | inl root ↦ (r, rw (is, finalize_in_txn) (rw (there, finalize_in_txn) (rw root fine)))
            | inr fork ↦
                ((none, s), rw (is, finalize_in_txn) (rw (there, finalize_in_txn) (rw fork refl)))
          ]
    ]
  ]

module _ {Header : Type 0} (lib : Bitcoin Header) (anchor : ℕ) where
  -- The checkpoint rule finds the works that it compares.
  pub finalize_in_txn_total :
      (s : Chain Header)
      → IsTree s
      → IsLinked lib anchor s
      → IsFloor s anchor
      → anchor % difficulty_period ≡ 0
      → (r : Option ℕ × Chain Header) × (finalize_in_txn s ≡ ok r)
  unfolding boundary_below
  finalize_in_txn_total s tree rows (k, floor, le) whole = finalize_in_txn-eq s λ m there.
      finalize_at-eq s m.tip_height λ long above.
        let tip = m.tip_height in
        let b = boundary_below tip in
        let final : unwrap_or (finalized s) 0 ≡ k = ap (λ o. unwrap_or o 0) floor in
        let reads = (IsLinked-Whole lib anchor s tree.parents rows).complete 0 in
        let up : anchor + difficulty_period ≤ b = omega (arith, above, final, whole, le) in
        let low : b ≤ tip = omega arith in
        let (x, at_b) = reads b m there (omega (arith, up)) low in
        let (y, at_start) =
          reads (b - difficulty_period) m there (omega (arith, up)) (omega (arith, low)) in
        let (z, at_tip) = reads tip m there (omega (arith, up, low)) (omega arith) in
        outweighs-eq s tip b x.work y.work z.work (work_of_row s 0 b x at_b)
          (work_of_row s 0 (b - difficulty_period) y at_start) (work_of_row s 0 tip z at_tip)

module _ {Header : Type 0} (lib : Bitcoin Header) where
  put_headers_total :
      (before : Chain Header) (t start base : ℕ) (x : Header) (xs : List Header) (m : ForkMeta)
      → fork_meta before t ≡ some m
      → (after : Chain Header) × (put_headers lib before t (entries_of lib start base (x ∷ xs))
          ≡ ok after)
  unfolding put_headers entries_of
  put_headers_total before t start base x xs m there =
      let rows = put_entries lib t before (entries_of lib start base (x ∷ xs)) in
      let same : fork_meta rows t ≡ some m =
        unfold fork_meta in
        rw (forks-put_entries lib t before (entries_of lib start base (x ∷ xs))) there in
      let work = add_u256 base (lib.work x) in
      let last =
        last_of (record { height = start; header = x; work = work })
          (entries_of lib (add_u64 start 1) work xs) in
      (set_tip lib rows t last m, rw (same, put_headers) refl)

  -- The last stage, from the steps that it takes.
  store_run-eq :
      (txn stored final : Chain Header) (target : Target Header) (base : ℕ) (run : List Header)
      (advanced : Option ℕ)
      → put_headers lib target.txn target.fork (entries_of lib target.forkpoint base run)
        ≡ ok stored
      → finalize_in_txn (select_best stored target.fork).1 ≡ ok (advanced, final)
      → (outcome : ConnectOutcome) × (store_run lib txn target base run ≡ ok (outcome, final))
  unfolding store_run
  store_run-eq txn stored final target base run advanced put done = (
    record {
      connected = length run;
      prev_best_fork = best_fork txn;
      best_fork = some (select_best stored target.fork).0;
      tip_height = elim (best_fork txn) [
        | none ↦ (add_u64 target.forkpoint (length run) + u64_mod - 1) % u64_mod
        | some _ ↦ tip_of (select_best stored target.fork).1 (select_best stored target.fork).0
      ];
      finalized = advanced;
    },
    rw (put, done) refl,
  )

  connect_behind-eq :
      (net : Network) (txn : Chain Header) (parent f h base : ℕ) (target : Target Header)
      (first : Header) (rest : List Header) (out : ConnectOutcome × Chain Header)
      → choose_target txn f h (lib.block_hash first) ≡ ok target
      → validate_run lib net
          (header_at target.txn target.fork)
          (first ∷ rest)
          target.forkpoint
          target.forkpoint
          parent
          (first ∷ rest)
        ≡ ok tt
      → work_at target.txn f h ≡ some base
      → store_run lib txn target base (first ∷ rest) ≡ ok out
      → connect_behind lib net txn parent f h first rest ≡ ok out
  unfolding connect_behind
  connect_behind-eq net txn parent f h base target first rest out chosen valid based stored =
      rw (chosen, valid, based) stored

  target_work :
      (c : Chain Header) (f h : ℕ) (hash : ℕ) (target : Target Header) (m : ForkMeta)
      (x : BtcRow Header)
      → IsTree c
      → choose_target c f h hash ≡ ok target
      → fork_meta c f ≡ some m
      → m.forkpoint ≤ h
      → get c.headers (f, h) ≡ some x
      → work_at target.txn f h ≡ some x.work
  target_work c f h hash target m x tree chosen there le row =
      elim (choose_target-cases c f h hash target chosen) [
        | inl (_, is) ↦ rw is (work_at_own c f h m x there le row)
        | inr (_, _, is) ↦
            let other : next_fork_id c ≢ f = λ e. omega (arith, e, tree.numbered f m there) in
            let same : fork_meta (create_fork c f (add_u64 h 1) hash).1 f ≡ some m =
              ground (arith, fork_meta-create_fork c f (add_u64 h 1) hash f) in
            rw is (
              work_at_own (create_fork c f (add_u64 h 1) hash).1 f h m x same le
                (unfold create_fork in row))
      ]

  module _ (anchor : ℕ) (net : Network) (c : Chain Header) (tree : IsTree c) (heavy : IsHeaviest c)
      (rows : IsLinked lib anchor c) (floor : IsFloor c anchor)
      (whole : anchor % difficulty_period ≡ 0) where
    -- Behind a valid run nothing fails.
    pub connect_behind_total :
        (parent f h : ℕ) (target : Target Header) (first : Header) (rest : List Header)
        → Fits lib c (first ∷ rest)
        → locate c parent ≡ some (f, h)
        → choose_target c f h (lib.block_hash first) ≡ ok target
        → ValidRun lib net
            (header_in (header_at target.txn target.fork) (first ∷ rest) target.forkpoint)
            target.forkpoint
            parent
            (first ∷ rest)
        → (out : ConnectOutcome × Chain Header) × (connect_behind lib net c parent f h first rest
            ≡ ok out)
    connect_behind_total parent f h target first rest fits located chosen valid =
        let run = first ∷ rest in
        let room = fits.heights parent f h located in
        let (row, has_row, has_hash) = rows.found parent f h located in
        let inside = rows.rows_in f h row has_row in
        let based =
          target_work c f h (lib.block_hash first) target inside.meta row tree chosen
            inside.is_there inside.above has_row in
        let placed =
          choose_target-Placed lib c f h (lib.block_hash first) row.work target tree (omega arith)
            fits.numbers (inside.meta, inside.is_there) chosen based in
        let light = fits.works f h row has_row in
        let at : target.forkpoint ≡ h + 1 = omega (arith, placed.forkpoint) in
        let (stored, put) =
          put_headers_total target.txn target.fork target.forkpoint row.work first rest placed.meta
            placed.is_there in
        let grown =
          put-Grown lib c stored f h row.work target first rest placed (omega arith) light put in
        let chosen_best = (select_best stored target.fork).1 in
        let tree' = (select_best_sound c stored target.fork grown tree heavy).0 in
        let joined =
          Stored-Joined lib anchor c rows net chosen_best parent f h row.work target row run stored
            placed located has_row has_hash light refl at (omega arith) valid
            (put_headers-PutEffect lib target.txn stored target.fork target.forkpoint row.work first
              rest (omega arith) put)
            (select_best-SameRows stored target.fork) in
        let (k, is, le) = floor in
        let floor' : IsFloor chosen_best anchor = (
          k,
          finalized-select_best stored target.fork
              ∙ finalized-put_headers lib target.txn stored target.fork target.forkpoint row.work
                  first rest put
              ∙ finalized-choose_target c f h (lib.block_hash first) target chosen
              ∙ is,
          le,
        ) in
        let (r, done) =
          finalize_in_txn_total lib anchor chosen_best tree' (Joined-IsLinked tree rows joined)
            floor' whole in
        let (outcome, ran) = store_run-eq c stored r.1 target row.work run r.0 put done in
        (
          (outcome, r.1),
          connect_behind-eq net c parent f h row.work target first rest (outcome, r.1) chosen
              (unfold validate_run in
                (check_headers_iff_valid lib net
                    (header_in (header_at target.txn target.fork) run target.forkpoint) run
                    target.forkpoint parent).1
                  valid)
              based ran,
        )
