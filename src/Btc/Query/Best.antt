-- ===== src/Btc/Query/Best.antt =====
-- What the reads of the best chain give on well-formed tables.
use rsk.Prelude.{
  ℕ, ◌+◌, ◌≤◌, ◌<◌, ◌≡◌, refl, sym, ap, ◌∙◌, inl, inr, true, none, some, arith, Option-cases,
}
use rsk.Prelude.Table.{pair_key}
use rsk.Bitcoin.{Bitcoin}
use rsk.Rows.Header.{BtcRow}
use rsk.Btc.Store.Meta.{Chain, best_fork, fork_meta}
use rsk.Btc.Store.Walk.{row_at, header_at, work_at, fork_chainwork}
use rsk.Btc.Store.Sound.{IsTree, IsHeaviest, fork_chainwork-none}
use rsk.Btc.Store.Linked.{IsLinked, IsLinked-Whole, row_at-none}
use rsk.Btc.Store.Seeded.{tip_height_at}
use rsk.Btc.Query.{tip_height, chainwork, chainwork_at, canonical_header_at}

module _ {Header : Type 0} (lib : Bitcoin Header) where
  -- The best chain as the queries give it: a header and a work at each height from the anchor to the
  -- tip, none above, each header behind the one below with the work summed up; its work is that at
  -- the tip, and no chain has more.
  pub record IsBestChain (anchor : ℕ) (c : Chain Header) : Type 0 where
    pub tip : ℕ
    pub total : ℕ
    pub has_tip : tip_height c ≡ some tip
    pub has_work : chainwork c ≡ some total
    pub at_tip : chainwork_at c tip ≡ some total
    pub heaviest : (f w : ℕ) → fork_chainwork c f ≡ some w → w ≤ total
    pub reads :
        (h : ℕ)
        → anchor ≤ h
        → h ≤ tip
        → (x : Header) × (w : ℕ) × (canonical_header_at c h ≡ some x) × (chainwork_at c h ≡ some w)
    pub above : (h : ℕ) → tip < h → canonical_header_at c h ≡ none
    pub linked :
        (h w v : ℕ) (y x : Header)
        → anchor ≤ h
        → canonical_header_at c h ≡ some y
        → chainwork_at c h ≡ some w
        → canonical_header_at c (h + 1) ≡ some x
        → chainwork_at c (h + 1) ≡ some v
        → (lib.prev_blockhash x ≡ lib.block_hash y) × (v ≡ w + lib.work x) × (lib.pow_ok x ≡ true)

  module _ (c : Chain Header) (best : ℕ) (is_best : best_fork c ≡ some best) where
    canonical_at : (h : ℕ) → canonical_header_at c h ≡ header_at c best h
    unfolding canonical_header_at
    canonical_at h = rw (is_best, canonical_header_at) refl

    work_of_best : (h : ℕ) → chainwork_at c h ≡ work_at c best h
    unfolding chainwork_at
    work_of_best h = rw (is_best, chainwork_at) refl

    total_of_best : chainwork c ≡ fork_chainwork c best
    unfolding chainwork
    total_of_best = rw (is_best, chainwork) refl

    -- A row that is read gives the header and the work.
    of_row :
        (h : ℕ) (x : BtcRow Header)
        → row_at c best h ≡ some x
        → (canonical_header_at c h ≡ some x.header) × (chainwork_at c h ≡ some x.work)
    of_row h x e = (
      canonical_at h ∙ (unfold header_at in rw (e, header_at) refl),
      work_of_best h ∙ (unfold work_at in rw (e, work_at) refl),
    )

    row_of :
        (h w : ℕ) (y : Header)
        → canonical_header_at c h ≡ some y
        → chainwork_at c h ≡ some w
        → (x : BtcRow Header) × (row_at c best h ≡ some x) × (x.header ≡ y) × (x.work ≡ w)
    row_of h w y e v = elim (Option-cases (row_at c best h)) [
      | inl gone ↦
          let none_there : header_at c best h ≡ none =
            unfold header_at in rw (gone, header_at) refl in
          cc (canonical_at h, none_there, e)
      | inr (x, row) ↦
          let (header_is, work_is) = of_row h x row in (x, row, cc (header_is, e), cc (work_is, v))
    ]

  pub sound-IsBestChain :
      (anchor : ℕ) (c : Chain Header)
      → IsTree c
      → IsHeaviest c
      → IsLinked lib anchor c
      → IsBestChain anchor c
  sound-IsBestChain anchor c tree heavy rows = elim (Option-cases (fork_meta c heavy.best)) [
    | inl gone ↦ absurd (cc (fork_chainwork-none c heavy.best gone, heavy.has_work))
    | inr (m, there) ↦
        let whole = IsLinked-Whole lib anchor c tree.parents rows in
        let tip = tree.tips heavy.best m there in
        let is = heavy.is_best in
        record {
          tip = m.tip_height;
          total = heavy.best_work;
          has_tip = tip_height_at c heavy.best m is there;
          has_work = total_of_best c heavy.best is ∙ heavy.has_work;
          at_tip =
              work_of_best c heavy.best is m.tip_height
              ∙ (unfold fork_chainwork in rw (there, fork_chainwork) at heavy.has_work);
          heaviest = heavy.heaviest;
          reads = λ h le low.
              let (x, row) = whole.complete heavy.best h m there le low in
              let (header_is, work_is) = of_row c heavy.best is h x row in
              (x.header, x.work, header_is, work_is);
          above = λ h high.
              let gone =
                row_at-none lib anchor c tree.parents rows heavy.best h m there tip.owned high in
              canonical_at c heavy.best is h ∙ (unfold header_at in rw (gone, header_at) refl);
          linked = λ h w v y x le e₁ e₂ e₃ e₄.
              let (lower, row, lower_is, w_is) = row_of c heavy.best is h w y e₁ e₂ in
              let (upper, row', upper_is, v_is) = row_of c heavy.best is (h + 1) v x e₃ e₄ in
              let links = whole.linked heavy.best h lower upper le row row' in
              (
                ap lib.prev_blockhash (sym upper_is) ∙ links.named ∙ ap lib.block_hash lower_is,
                omega (arith, links.summed, w_is, v_is, ap lib.work upper_is),
                ap lib.pow_ok (sym upper_is) ∙ links.works,
              );
        }
  ]
