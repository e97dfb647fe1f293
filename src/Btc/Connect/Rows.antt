-- ===== src/Btc/Connect/Rows.antt =====
-- The rows after a connect: those of before, and those of the run.
use rsk.Prelude.{
  ℕ, suc, ◌+◌, ◌-◌, ◌≤◌, ◌<◌, ◌≡◌, ◌≢◌, refl, sym, ap, ◌∙◌, ◌⊎◌, inl, inr, some, List, arith,
  length, get_elem?, take, leb, Bool-cases, nat-cases,
}
use rsk.Prelude.Table.{get, pair_key}
use rsk.Bitcoin.{Bitcoin}
use rsk.Rows.Header.{BtcRow}
use rsk.Rows.Fork.{ForkMeta}
use rsk.Btc.Store.Meta.{Chain, fork_meta}
use rsk.Btc.Store.Sound.{IsTree}
use rsk.Btc.Store.Linked.{IsLinked, InFork}
use rsk.Btc.Connect.Stored.{works_sum}
use rsk.Btc.Connect.Joined.{Joined}
use rsk.Btc.Connect.Behind.{get_elem?-lt, get_elem?_lt}

module _ {Header : Type 0} {lib : Bitcoin Header} {c s : Chain Header} {parent : ℕ}
    {run : List Header} (j : Joined lib c s parent run) where
  abbrev pub new_row : ℕ → Header → BtcRow Header
  new_row i x = record { header = x; work = j.parent_row.work + works_sum lib (take (suc i) run) }

  -- A row of the run.
  pub record IsNew (f h : ℕ) (x : BtcRow Header) : Type 0 where
    pub on_target : f ≡ j.target
    pub index : ℕ
    pub header : Header
    pub listed : get_elem? run index ≡ some header
    pub height : j.parent_height + 1 + index ≡ h
    pub is_row : x ≡ new_row index header

module _ {Header : Type 0} {lib : Bitcoin Header} {anchor : ℕ} {c s : Chain Header} {parent : ℕ}
    {run : List Header} (tree : IsTree c) (rows : IsLinked lib anchor c)
    (j : Joined lib c s parent run) where
  -- The rows of the target so far end at the parent's height.
  old_row_le :
      (h : ℕ) (x : BtcRow Header) → get c.headers (j.target, h) ≡ some x → h ≤ j.parent_height
  old_row_le h x e =
      let inside = rows.rows_in j.target h x e in
      elim j.place [
        | inl extends ↦
            let same : inside.meta ≡ j.old_meta = cc (inside.is_there, extends.was_there) in
            omega (arith, inside.below, ap (λ m. m.tip_height) same, extends.at_tip)
        | inr leaves ↦ cc (inside.is_there, leaves.is_new)
      ]

  pub row_stays :
      (f h : ℕ) (x : BtcRow Header) → get c.headers (f, h) ≡ some x → get s.headers (f, h) ≡ some x
  row_stays f h x e = elim (nat-cases f j.target) [
    | inr other ↦ j.other_rows f h other ∙ e
    | inl same ↦ let e' = rw same at e in rw same (j.kept_rows h (inl (old_row_le h x e')) ∙ e')
  ]

  IsNew-at :
      (h : ℕ)
      → j.parent_height < h
      → h ≤ j.meta.tip_height
      → (x : BtcRow Header) × (get s.headers (j.target, h) ≡ some x) × IsNew j j.target h x
  IsNew-at h lt le =
      let i = h - (j.parent_height + 1) in
      let (x, listed) = get_elem?-lt run i (omega (arith, j.tip_is)) in
      let height : j.parent_height + 1 + i ≡ h = omega arith in
      (
        new_row j i x,
        j.new_rows i h x listed height,
        record {
          on_target = refl;
          index = i;
          header = x;
          listed = listed;
          height = height;
          is_row = refl;
        },
      )

  -- A row of the grown store is one of before, not above the parent on the target, or a new one.
  pub row-cases :
      (f h : ℕ) (x : BtcRow Header)
      → get s.headers (f, h) ≡ some x
      → ((get c.headers (f, h) ≡ some x) × ((f ≢ j.target) ⊎ (h ≤ j.parent_height))) ⊎ IsNew j f h x
  row-cases f h x e = elim (nat-cases f j.target) [
    | inr other ↦ inl (sym (j.other_rows f h other) ∙ e, inl other)
    | inl same ↦
        let e' = rw same at e in
        elim (Bool-cases (leb h j.parent_height)) [
          | inl below ↦
              let le : h ≤ j.parent_height = ground arith in
              inl (rw same (sym (j.kept_rows h (inl le)) ∙ e'), inr le)
          | inr above ↦ elim (Bool-cases (leb h j.meta.tip_height)) [
            | inl inside ↦
                let (x', row, new) = IsNew-at h (ground arith) (ground arith) in
                let is : x ≡ x' = cc (row, e') in inr (rw (same, is) new)
            | inr beyond ↦
                let gone : j.parent_height + length run < h =
                  (let gt : j.meta.tip_height < h = ground arith in omega (arith, j.tip_is)) in
                absurd (
                  let gt : j.parent_height < h = omega arith in
                  omega (arith, old_row_le h x (sym (j.kept_rows h (inr gone)) ∙ e')))
          ]
        ]
  ]

  pub fork_stays :
      (f : ℕ) (m : ForkMeta)
      → fork_meta c f ≡ some m
      → (m' : ForkMeta) × (fork_meta s f ≡ some m')
        × (m'.forkpoint ≡ m.forkpoint)
        × (m'.parent ≡ m.parent)
        × (m.tip_height ≤ m'.tip_height)
  fork_stays f m there = elim (nat-cases f j.target) [
    | inr other ↦ (m, j.others f other ∙ there, refl, refl, omega arith)
    | inl same ↦ elim j.place [
      | inr leaves ↦ cc (leaves.is_new, same, there)
      | inl extends ↦
          let is : j.old_meta ≡ m = cc (extends.was_there, same, there) in
          (
            j.meta,
            rw same j.is_there,
            j.same_forkpoint ∙ ap (λ m. m.forkpoint) is,
            j.same_parent ∙ ap (λ m. m.parent) is,
            omega (arith, j.tip_is, extends.at_tip, ap (λ m. m.tip_height) is),
          )
    ]
  ]

  InFork-stays : (f h : ℕ) → InFork c f h → InFork s f h
  InFork-stays f h inside =
      let (m, there, forkpoint, _, tip) = fork_stays f inside.meta inside.is_there in
      record {
        meta = m;
        is_there = there;
        above = omega (arith, inside.above, forkpoint);
        below = omega (arith, inside.below, tip);
      }

  -- The target's forkpoint is at most the height of the run's first header.
  pub forkpoint_le : j.meta.forkpoint ≤ j.parent_height + 1
  forkpoint_le = elim j.place [
    | inl extends ↦ omega (
      arith,
      j.same_forkpoint,
      (tree.tips j.target j.old_meta extends.was_there).owned,
      extends.at_tip,
    )
    | inr leaves ↦ omega (arith, j.same_forkpoint, leaves.starts_at)
  ]

  pub rows_in : (f h : ℕ) (x : BtcRow Header) → get s.headers (f, h) ≡ some x → InFork s f h
  rows_in f h x e = elim (row-cases f h x e) [
    | inl (old, _) ↦ InFork-stays f h (rows.rows_in f h x old)
    | inr new ↦ record {
      meta = j.meta;
      is_there = rw new.on_target j.is_there;
      above = omega (arith, forkpoint_le, new.height);
      below = omega (arith, new.height, j.tip_is, get_elem?_lt run new.index new.header new.listed);
    }
  ]

  pub dense :
      (f h : ℕ) → anchor ≤ h → InFork s f h → (x : BtcRow Header) × (get s.headers (f, h) ≡ some x)
  dense f h above inside = elim (nat-cases f j.target) [
    | inr other ↦
        let (x, row) = rows.dense f h above (record {
          meta = inside.meta;
          is_there = sym (j.others f other) ∙ inside.is_there;
          above = inside.above;
          below = inside.below;
        }) in
        (x, j.other_rows f h other ∙ row)
    | inl same ↦
        let is : inside.meta ≡ j.meta = cc (inside.is_there, same, j.is_there) in
        let forkpoint : inside.meta.forkpoint ≡ j.meta.forkpoint = ap (λ m. m.forkpoint) is in
        let tip : inside.meta.tip_height ≡ j.meta.tip_height = ap (λ m. m.tip_height) is in
        elim (Bool-cases (leb h j.parent_height)) [
          | inr higher ↦
              let (x, row, _) = IsNew-at h (ground arith) (omega (arith, inside.below, tip)) in
              (x, rw same row)
          | inl lower ↦
              let le : h ≤ j.parent_height = ground arith in
              elim j.place [
                | inr leaves ↦
                    absurd (
                      omega
                        (arith, le, inside.above, forkpoint, j.same_forkpoint, leaves.starts_at))
                | inl extends ↦
                    let (x, row) = rows.dense j.target h above (record {
                      meta = j.old_meta;
                      is_there = extends.was_there;
                      above = omega (arith, inside.above, forkpoint, j.same_forkpoint);
                      below = omega (arith, le, extends.at_tip);
                    }) in
                    (x, rw same (row_stays j.target h x row))
              ]
        ]
  ]
