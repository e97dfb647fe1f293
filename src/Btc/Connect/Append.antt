-- ===== src/Btc/Connect/Append.antt =====
-- What the chains read as after a connect: the target's is the parent's chain up to the parent and
-- then the run, and every other chain reads as before.
use rsk.Prelude.{
  ℕ, zero, suc, ◌+◌, ◌≤◌, ◌<◌, ◌≡◌, ◌≢◌, refl, sym, ap, ◌∙◌, ◌⊎◌, inl, inr, none, some, List, arith,
  length, get_elem?, take, leb, Bool-cases, nat-cases, Option-cases,
}
use rsk.Prelude.Table.{get, pair_key}
use rsk.Bitcoin.{Bitcoin}
use rsk.Rows.Header.{BtcRow}
use rsk.Rows.Fork.{ForkMeta}
use rsk.Btc.Store.Meta.{Chain, fork_meta, locate}
use rsk.Btc.Store.Walk.{row_at}
use rsk.Btc.Store.Walk.Owns.{Owns, here, up, row_at_own}
use rsk.Btc.Store.Sound.{IsTree}
use rsk.Btc.Store.Linked.{IsLinked, row_at-eq, row_at-Owns, parent_reaches, row_at-none}
use rsk.Btc.Connect.Stored.{works_sum}
use rsk.Btc.Connect.Joined.{Joined}
use rsk.Btc.Connect.Rows.{fork_stays, row_stays, forkpoint_le}
use rsk.Btc.Connect.Linked.{Joined-IsLinked}

module _ {Header : Type 0} (lib : Bitcoin Header) where
  -- The chains as functions from heights to rows: the run is appended to a chain that ends at the
  -- parent, which is a fork that has its tip there or a new fork.
  pub record Appended (c s : Chain Header) (parent : ℕ) (run : List Header) : Type 0 where
    pub target : ℕ
    pub parent_fork : ℕ
    pub parent_height : ℕ
    pub parent_row : BtcRow Header
    pub located : locate c parent ≡ some (parent_fork, parent_height)
    pub has_parent : row_at c parent_fork parent_height ≡ some parent_row
    pub has_hash : lib.block_hash parent_row.header ≡ parent
    pub tip_or_new :
        ((target ≡ parent_fork)
          × (m : ForkMeta) × (fork_meta c target ≡ some m)
          × (m.tip_height ≡ parent_height))
        ⊎ (fork_meta c target ≡ none)
    pub others :
        (f h : ℕ) (m : ForkMeta) → fork_meta c f ≡ some m → f ≢ target → row_at s f h ≡ row_at c f h
    pub below : (h : ℕ) → h ≤ parent_height → row_at s target h ≡ row_at c parent_fork h
    pub appended :
        (i : ℕ) (x : Header)
        → get_elem? run i ≡ some x
        → row_at s target (parent_height + 1 + i)
          ≡ some (record { header = x; work = parent_row.work + works_sum lib (take (suc i) run) })
    pub above : (h : ℕ) → parent_height + length run < h → row_at s target h ≡ none

module _ {Header : Type 0} {lib : Bitcoin Header} {anchor : ℕ} {c : Chain Header} (tree : IsTree c)
    (rows : IsLinked lib anchor c) where
  -- Every fork's ancestry has an owner of any height.
  pub some_owner :
      (fuel f h : ℕ) (m : ForkMeta) → f < fuel → fork_meta c f ≡ some m → (o : ℕ) × Owns c h f o
  some_owner zero f h m lt there = absurd (omega arith)
  some_owner (suc fuel) f h m lt there = elim (Bool-cases (leb m.forkpoint h)) [
    | inl own ↦ (f, here there (ground arith))
    | inr higher ↦
        let lt' : h < m.forkpoint = ground arith in
        elim (Option-cases m.parent) [
          | inl root ↦ absurd (omega (arith, rows.rooted f m there root))
          | inr (p, child) ↦
              let (m', there', _) =
                parent_reaches lib anchor c tree.parents rows f p h m there child lt' in
              let (o, owns) =
                some_owner fuel p h m' (omega (arith, tree.parents.below f p m there child))
                  there' in
              (o, up there lt' child owns)
        ]
  ]

  -- An ancestor owns no height above its tip.
  Owns-below :
      (h f o : ℕ)
      → Owns c h f o
      → f ≢ o
      → (m : ForkMeta) × (fork_meta c o ≡ some m) × (h ≤ m.tip_height)
  Owns-below h f o (here _ _) ne = absurd (ne refl)
  Owns-below h f o (up {p = p} {m = m} there lt child rest) ne = elim (nat-cases p o) [
    | inr other ↦ Owns-below h p o rest other
    | inl same ↦
        let (m', there', reaches) =
          parent_reaches lib anchor c tree.parents rows f p h m there child lt in
        (m', rw (← same) there', reaches)
  ]

  Owns-there : (h f o : ℕ) → Owns c h f o → (m : ForkMeta) × (fork_meta c o ≡ some m)
  Owns-there h f o (here {m = m} there _) = (m, there)
  Owns-there h f o (up {p = p} _ _ _ rest) = Owns-there h p o rest

module _ {Header : Type 0} {lib : Bitcoin Header} {anchor : ℕ} {c s : Chain Header} {parent : ℕ}
    {run : List Header} (tree : IsTree c) (rows : IsLinked lib anchor c)
    (j : Joined lib c s parent run) (tree' : IsTree s) where
  Owns-stays : (h f o : ℕ) → Owns c h f o → Owns s h f o
  Owns-stays h f o (here {m = m} there le) =
      let (m', there', same, _, _) = fork_stays tree rows j f m there in
      here there' (omega (arith, same))
  Owns-stays h f o (up {p = p} {m = m} there lt child rest) =
      let (m', there', same, same_parent, _) = fork_stays tree rows j f m there in
      up there' (omega (arith, same)) (same_parent ∙ child) (Owns-stays h p o rest)

  -- A read whose owner has the row that it had.
  read_stays :
      (f h o : ℕ)
      → Owns c h f o
      → (o ≢ j.target) ⊎ (h ≤ j.parent_height)
      → row_at s f h ≡ row_at c f h
  read_stays f h o owns old =
      row_at-eq s f h o tree'.parents (Owns-stays h f o owns)
      ∙ same_row old
      ∙ sym (row_at-eq c f h o tree.parents owns)
    where
      same_row :
          (o ≢ j.target) ⊎ (h ≤ j.parent_height) → get s.headers (o, h) ≡ get c.headers (o, h)
      same_row (inl other) = j.other_rows o h other
      same_row (inr low) = elim (nat-cases o j.target) [
        | inl same ↦ rw same (j.kept_rows h (inl low))
        | inr other ↦ j.other_rows o h other
      ]

  pub read_persists : (f h : ℕ) (x : BtcRow Header) → row_at c f h ≡ some x → row_at s f h ≡ some x
  read_persists f h x e =
      let (o, owns, row) = row_at-Owns c f h x tree.parents e in
      row_at-eq s f h o tree'.parents (Owns-stays h f o owns) ∙ row_stays tree rows j o h x row

  -- The target's tip in the store before is the parent's height.
  old_tip : (m : ForkMeta) → fork_meta c j.target ≡ some m → m.tip_height ≡ j.parent_height
  old_tip m there = elim j.place [
    | inl extends ↦
        let same : j.old_meta ≡ m = cc (extends.was_there, there) in
        ap (λ m. m.tip_height) (sym same) ∙ extends.at_tip
    | inr leaves ↦ cc (leaves.is_new, there)
  ]

  other_reads :
      (f h : ℕ) (m : ForkMeta) → fork_meta c f ≡ some m → f ≢ j.target → row_at s f h ≡ row_at c f h
  other_reads f h m there other =
      let (o, owns) = some_owner tree rows (suc f) f h m (omega arith) there in
      elim (nat-cases o j.target) [
        | inr ne ↦ read_stays f h o owns (inl ne)
        | inl same ↦
            let (m', there', le) = Owns-below tree rows h f o owns (λ e. other (e ∙ same)) in
            let tip = old_tip m' (ap (fork_meta c) (sym same) ∙ there') in
            read_stays f h o owns (inr (omega (arith, le, tip)))
      ]

  below_reads : (h : ℕ) → h ≤ j.parent_height → row_at s j.target h ≡ row_at c j.parent_fork h
  below_reads h le =
      let inside = rows.rows_in j.parent_fork j.parent_height j.parent_row j.has_parent in
      let (o, owns) =
        some_owner tree rows (suc j.parent_fork) j.parent_fork h inside.meta (omega arith)
          inside.is_there in
      elim j.place [
        | inl extends ↦ rw extends.same_fork (read_stays j.parent_fork h o owns (inr le))
        | inr leaves ↦
            let (m', there') = Owns-there tree rows h j.parent_fork o owns in
            let owns' =
              up j.is_there (omega (arith, j.same_forkpoint, leaves.starts_at))
                (j.same_parent ∙ leaves.child) (Owns-stays h j.parent_fork o owns) in
            row_at-eq s j.target h o tree'.parents owns'
            ∙ j.other_rows o h (λ same. cc (leaves.is_new, same, there'))
            ∙ sym (row_at-eq c j.parent_fork h o tree.parents owns)
      ]

  new_reads :
      (i : ℕ) (x : Header)
      → get_elem? run i ≡ some x
      → row_at s j.target (j.parent_height + 1 + i)
        ≡ some (record { header = x; work = j.parent_row.work + works_sum lib (take (suc i) run) })
  new_reads i x e =
      row_at_own s j.target (j.parent_height + 1 + i) j.meta _ j.is_there
        (omega (arith, forkpoint_le tree rows j)) (j.new_rows i (j.parent_height + 1 + i) x e refl)

  no_reads : (h : ℕ) → j.parent_height + length run < h → row_at s j.target h ≡ none
  no_reads h beyond =
      row_at-none lib anchor s tree'.parents (Joined-IsLinked tree rows j) j.target h j.meta
        j.is_there (omega (arith, forkpoint_le tree rows j, j.tip_is, j.some_new))
        (omega (arith, j.tip_is))

  pub Joined-Appended : Appended lib c s parent run
  Joined-Appended = record {
    target = j.target;
    parent_fork = j.parent_fork;
    parent_height = j.parent_height;
    parent_row = j.parent_row;
    located = j.located;
    has_parent =
        let inside = rows.rows_in j.parent_fork j.parent_height j.parent_row j.has_parent in
        row_at_own c j.parent_fork j.parent_height inside.meta j.parent_row inside.is_there
          inside.above j.has_parent;
    has_hash = j.has_hash;
    tip_or_new = elim j.place [
      | inl extends ↦ inl (extends.same_fork, j.old_meta, extends.was_there, extends.at_tip)
      | inr leaves ↦ inr leaves.is_new
    ];
    others = other_reads;
    below = below_reads;
    appended = new_reads;
    above = no_reads;
  }
