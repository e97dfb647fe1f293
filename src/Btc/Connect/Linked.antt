-- ===== src/Btc/Connect/Linked.antt =====
-- A connect keeps the rows of the chains linked.
use rsk.Prelude.{
  ℕ, zero, suc, ◌+◌, ◌≤◌, ◌≡◌, refl, sym, ap, ◌∙◌, inl, inr, none, some, List, arith, get_elem?,
  nat-cases,
}
use rsk.Prelude.Table.{get, pair_key}
use rsk.Bitcoin.{Bitcoin}
use rsk.Rows.Header.{BtcRow}
use rsk.Rows.Fork.{ForkMeta}
use rsk.Btc.Store.Meta.{Chain, locate, fork_meta}
use rsk.Btc.Store.Sound.{IsTree}
use rsk.Btc.Store.Linked.{IsLinked, Links, Joint}
use rsk.Btc.Connect.Placed.{Leaves}
use rsk.Btc.Connect.Joined.{Joined}
use rsk.Btc.Connect.Behind.{hash_before-suc, get_elem?-lt, get_elem?_lt, works_sum-take-suc}
use rsk.Btc.Connect.Rows.{new_row, row_stays, row-cases, rows_in, dense}

module _ {Header : Type 0} {lib : Bitcoin Header} {anchor : ℕ} {c s : Chain Header} {parent : ℕ}
    {run : List Header} (tree : IsTree c) (rows : IsLinked lib anchor c)
    (j : Joined lib c s parent run) where
  first_Links : (x : Header) → get_elem? run 0 ≡ some x → Links lib j.parent_row (new_row j 0 x)
  first_Links x e =
      let (link, works) = j.valid_at 0 x e in
      record {
        named = link ∙ sym j.has_hash;
        summed = omega (arith, works_sum-take-suc lib run 0 x e);
        works = works;
      }

  next_Links :
      (i : ℕ) (y x : Header)
      → get_elem? run i ≡ some y
      → get_elem? run (suc i) ≡ some x
      → Links lib (new_row j i y) (new_row j (suc i) x)
  next_Links i y x lower upper =
      let (link, works) = j.valid_at (suc i) x upper in
      record {
        named = link ∙ hash_before-suc lib parent run i y lower;
        summed = omega (arith, works_sum-take-suc lib run (suc i) x upper);
        works = works;
      }

  -- The row at the parent's height on the target is the parent's, if the target has one.
  parent_row_is :
      (y : BtcRow Header) → get s.headers (j.target, j.parent_height) ≡ some y → y ≡ j.parent_row
  parent_row_is y e =
      let old = sym (j.kept_rows j.parent_height (inl (omega arith))) ∙ e in
      elim j.place [
        | inl extends ↦ cc (old, extends.same_fork, j.has_parent)
        | inr leaves ↦ cc (leaves.is_new, (rows.rows_in j.target j.parent_height y old).is_there)
      ]

  -- The row of the run above a row of the target.
  new_within :
      (i : ℕ) (h : ℕ) (y : BtcRow Header) (x : Header)
      → get s.headers (j.target, h) ≡ some y
      → get_elem? run i ≡ some x
      → j.parent_height + 1 + i ≡ h + 1
      → Links lib y (new_row j i x)
  new_within zero h y x lower listed height =
      let at : h ≡ j.parent_height = omega arith in
      rw (parent_row_is y (rw at at lower)) (first_Links x listed)
  new_within (suc i) h y x lower listed height =
      let (z, below) = get_elem?-lt run i (omega (arith, get_elem?_lt run (suc i) x listed)) in
      let is : y ≡ new_row j i z = cc (lower, j.new_rows i h z below (omega arith)) in
      rw is (next_Links i z x below listed)

  within :
      (f h : ℕ) (y x : BtcRow Header)
      → anchor ≤ h
      → get s.headers (f, h) ≡ some y
      → get s.headers (f, h + 1) ≡ some x
      → Links lib y x
  within f h y x above lower upper = elim (row-cases tree rows j f (h + 1) x upper) [
    | inl (old, inl other) ↦ rows.within f h y x above (sym (j.other_rows f h other) ∙ lower) old
    | inl (old, inr low) ↦ elim (row-cases tree rows j f h y lower) [
      | inl (before, _) ↦ rows.within f h y x above before old
      | inr new ↦ absurd (omega (arith, new.height))
    ]
    | inr new ↦
        rw new.is_row
          (new_within new.index h y new.header (rw new.on_target at lower) new.listed new.height)
  ]

  old-Joint :
      (f p : ℕ) (m m' : ForkMeta)
      → Joint lib c f p m'
      → m.forkpoint ≡ m'.forkpoint
      → Joint lib s f p m
  old-Joint f p m m' joint same = record {
    height = joint.height;
    lower = joint.lower;
    upper = joint.upper;
    forkpoint_is = same ∙ joint.forkpoint_is;
    has_lower = row_stays tree rows j p joint.height joint.lower joint.has_lower;
    has_upper = row_stays tree rows j f (joint.height + 1) joint.upper joint.has_upper;
    joins = joint.joins;
  }

  -- The joint of the new fork is that of the run.
  new-Joint :
      (p : ℕ)
      → Leaves c j.parent_fork j.parent_height j.target j.old_meta
      → j.meta.parent ≡ some p
      → Joint lib s j.target p j.meta
  new-Joint p leaves child =
      let same : j.parent_fork ≡ p = cc (leaves.child, j.same_parent, child) in
      let (x, listed) = get_elem?-lt run 0 (omega (arith, j.some_new)) in
      record {
        height = j.parent_height;
        lower = j.parent_row;
        upper = new_row j 0 x;
        forkpoint_is = j.same_forkpoint ∙ leaves.starts_at;
        has_lower =
            rw (← same)
              (row_stays tree rows j j.parent_fork j.parent_height j.parent_row j.has_parent);
        has_upper = j.new_rows 0 (j.parent_height + 1) x listed (omega arith);
        joins = first_Links x listed;
      }

  joint : (f p : ℕ) (m : ForkMeta) → fork_meta s f ≡ some m → m.parent ≡ some p → Joint lib s f p m
  joint f p m there child = elim (nat-cases f j.target) [
    | inr other ↦ old-Joint f p m m (rows.joint f p m (sym (j.others f other) ∙ there) child) refl
    | inl same ↦
        let is : m ≡ j.meta = cc (there, same, j.is_there) in
        elim j.place [
          | inl extends ↦
              old-Joint f p m j.old_meta
                (rows.joint f p j.old_meta (rw same extends.was_there)
                  (sym j.same_parent ∙ ap (λ m. m.parent) (sym is) ∙ child))
                (ap (λ m. m.forkpoint) is ∙ j.same_forkpoint)
          | inr leaves ↦
              let new = new-Joint p leaves (ap (λ m. m.parent) (sym is) ∙ child) in
              rw (same, is) new
        ]
  ]

  rooted : (f : ℕ) (m : ForkMeta) → fork_meta s f ≡ some m → m.parent ≡ none → m.forkpoint ≡ 0
  rooted f m there root = elim (nat-cases f j.target) [
    | inr other ↦ rows.rooted f m (sym (j.others f other) ∙ there) root
    | inl same ↦
        let is : m ≡ j.meta = cc (there, same, j.is_there) in
        let forkpoint : m.forkpoint ≡ j.old_meta.forkpoint =
          ap (λ m. m.forkpoint) is ∙ j.same_forkpoint in
        let no_parent : j.old_meta.parent ≡ none =
          sym j.same_parent ∙ ap (λ m. m.parent) (sym is) ∙ root in
        elim j.place [
          | inl extends ↦ forkpoint ∙ rows.rooted j.target j.old_meta extends.was_there no_parent
          | inr leaves ↦ cc (leaves.child, no_parent)
        ]
  ]

  found :
      (hash f h : ℕ)
      → locate s hash ≡ some (f, h)
      → (x : BtcRow Header) × (get s.headers (f, h) ≡ some x) × (lib.block_hash x.header ≡ hash)
  found hash f h e = elim (j.locates hash f h e) [
    | inl inside ↦ (
      new_row j inside.index inside.header,
      rw inside.on_target (j.new_rows inside.index h inside.header inside.listed inside.height),
      inside.has_hash,
    )
    | inr before ↦
        let (x, row, has_hash) = rows.found hash f h before in
        (x, row_stays tree rows j f h x row, has_hash)
  ]

  pub Joined-IsLinked : IsLinked lib anchor s
  Joined-IsLinked = record {
    rows_in = rows_in tree rows j;
    dense = dense tree rows j;
    within = within;
    joint = joint;
    rooted = rooted;
    found = found;
  }
