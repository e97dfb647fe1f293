-- ===== src/Btc/Connect/Select.antt =====
-- The end of a connect keeps the invariants of the tables: the choice of the best fork and the
-- checkpoint rule.
use rsk.Prelude.{
  ℕ, ◌≤◌, ◌<◌, ◌≡◌, refl, sym, ◌∙◌, ap, ◌⊎◌, inl, inr, some, Option, arith, ◌==◌, if◌then◌else◌,
  Option-cases, Bool-cases, nat-cases, not, ◌&&◌, ltb, unwrap_or,
}
use rsk.Prelude.Table.{get, get-insert, nat_key, pair_key}
use rsk.Result.{ok}
use rsk.Rows.Meta.{u64}
use rsk.Rows.Fork.{ForkMeta}
use rsk.Btc.Store.Meta.{
  Chain, locate, fork_meta, best_fork, meta_u64, meta_key, set_best_fork, set_finalized,
  best_fork_key, next_fork, finalized_height,
}
use rsk.Btc.Store.Walk.{fork_chainwork}
use rsk.Btc.Store.Put.{next_fork_id}
use rsk.Btc.Store.Sound.{IsTree, IsHeaviest, HasTip, fork_chainwork_of_tip, fork_chainwork-none}
use rsk.Btc.Connect.{select_best}
use rsk.Btc.Connect.Finalize.{finalize_in_txn}
use rsk.Btc.Connect.Finalize.Advance.{finalize_in_txn-cases}
use rsk.Btc.Connect.Grown.{Grown, Grown-IsTree, chainwork_target, chainwork_other}

module _ {Header : Type 0} where
  -- Two stores that differ in their metadata only, and not in the number of the next fork.
  pub record SameRows (c s : Chain Header) : Type 0 where
    pub same_forks : s.forks ≡ c.forks
    pub same_headers : s.headers ≡ c.headers
    pub same_hashes : s.hash_loc ≡ c.hash_loc
    pub same_next : next_fork_id s ≡ next_fork_id c

  module _ (c s : Chain Header) (rows : SameRows c s) where
    pub same_meta : (f : ℕ) → fork_meta s f ≡ fork_meta c f
    same_meta f = unfold fork_meta in rw rows.same_forks refl

    module _ (tree : IsTree c) where
      same_tips : (f : ℕ) (m : ForkMeta) → fork_meta c f ≡ some m → HasTip s f m
      same_tips f m e =
          let tip = tree.tips f m e in
          record {
            owned = tip.owned;
            row = tip.row;
            stored = ap (λ t. get t (f, m.tip_height)) rows.same_headers ∙ tip.stored;
          }

      same_located :
          (hash f h : ℕ) → locate s hash ≡ some (f, h) → (m : ForkMeta) × (fork_meta s f ≡ some m)
      same_located hash f h e =
          let before : locate c hash ≡ some (f, h) =
            unfold locate in (ap (λ t. get t hash) (sym rows.same_hashes) ∙ e) in
          let (m, there) = tree.located hash f h before in (m, same_meta f ∙ there)

      pub same-IsTree : IsTree s
      same-IsTree = record {
        parents = record {
          below = λ f p m e k. tree.parents.below f p m (sym (same_meta f) ∙ e) k;
        };
        numbered =
            λ f m e. omega (arith, rows.same_next, tree.numbered f m (sym (same_meta f) ∙ e));
        tips = λ f m e. same_tips f m (sym (same_meta f) ∙ e);
        located = same_located;
      }

      same_chainwork : (f : ℕ) → fork_chainwork s f ≡ fork_chainwork c f
      same_chainwork f = elim (Option-cases (fork_meta c f)) [
        | inl gone ↦
            fork_chainwork-none s f (same_meta f ∙ gone) ∙ sym (fork_chainwork-none c f gone)
        | inr (m, there) ↦
            let tip = tree.tips f m there in
            fork_chainwork_of_tip s f m tip.row (same_meta f ∙ there) tip.owned
              (ap (λ t. get t (f, m.tip_height)) rows.same_headers ∙ tip.stored)
            ∙ sym (fork_chainwork_of_tip c f m tip.row there tip.owned tip.stored)
      ]

      pub same-IsHeaviest : best_fork s ≡ best_fork c → IsHeaviest c → IsHeaviest s
      same-IsHeaviest same_best heavy = record {
        best = heavy.best;
        best_work = heavy.best_work;
        is_best = same_best ∙ heavy.is_best;
        has_work = same_chainwork heavy.best ∙ heavy.has_work;
        heaviest = λ f w e. heavy.heaviest f w (sym (same_chainwork f) ∙ e);
      }

  set_best-SameRows : (s : Chain Header) (f : ℕ) → SameRows s (set_best_fork s f)
  unfolding set_best_fork next_fork_id meta_u64
  set_best-SameRows s f = record {
    same_forks = refl;
    same_headers = refl;
    same_hashes = refl;
    same_next = rw (get-insert s.meta best_fork_key (u64 f) next_fork) refl;
  }

  best_fork-set_best_fork : (s : Chain Header) (f : ℕ) → best_fork (set_best_fork s f) ≡ some f
  unfolding set_best_fork best_fork meta_u64
  best_fork-set_best_fork s f = rw (get-insert s.meta best_fork_key (u64 f) best_fork_key) refl

  set_finalized-SameRows : (s : Chain Header) (h : ℕ) → SameRows s (set_finalized s h)
  unfolding set_finalized next_fork_id meta_u64
  set_finalized-SameRows s h = record {
    same_forks = refl;
    same_headers = refl;
    same_hashes = refl;
    same_next = rw (get-insert s.meta finalized_height (u64 h) next_fork) refl;
  }

  best_fork-set_finalized : (s : Chain Header) (h : ℕ) → best_fork (set_finalized s h) ≡ best_fork s
  unfolding set_finalized best_fork meta_u64
  best_fork-set_finalized s h = rw (get-insert s.meta finalized_height (u64 h) best_fork_key) refl

  pub SameRows-trans : (c s r : Chain Header) → SameRows c s → SameRows s r → SameRows c r
  SameRows-trans c s r one two = record {
    same_forks = two.same_forks ∙ one.same_forks;
    same_headers = two.same_headers ∙ one.same_headers;
    same_hashes = two.same_hashes ∙ one.same_hashes;
    same_next = two.same_next ∙ one.same_next;
  }

  SameRows-refl : (c : Chain Header) → SameRows c c
  SameRows-refl c = record {
    same_forks = refl;
    same_headers = refl;
    same_hashes = refl;
    same_next = refl;
  }

  pub select_best-SameRows : (s : Chain Header) (t : ℕ) → SameRows s (select_best s t).1
  unfolding select_best
  select_best-SameRows s t =
      elim (Bool-cases (
        not (t == unwrap_or (best_fork s) 0)
        && ltb (unwrap_or (fork_chainwork s (unwrap_or (best_fork s) 0)) 0)
            (unwrap_or (fork_chainwork s t) 0))) [
              | inl moves ↦ rw moves (set_best-SameRows s t)
              | inr stays ↦ rw stays (SameRows-refl s)
            ]

  pub finalize_in_txn-SameRows :
      (s final : Chain Header) (o : Option ℕ) → finalize_in_txn s ≡ ok (o, final) → SameRows s final
  finalize_in_txn-SameRows s final o e = elim (finalize_in_txn-cases s final o e) [
    | inl (_, stays) ↦ rw stays (SameRows-refl s)
    | inr (h, _, set, _) ↦ rw set (set_finalized-SameRows s h)
  ]

  -- The checkpoint rule sets a height at most.
  module _ (s final : Chain Header) (o : Option ℕ) (e : finalize_in_txn s ≡ ok (o, final))
      (tree : IsTree s) where
    pub finalize_in_txn-IsTree : IsTree final
    finalize_in_txn-IsTree = elim (finalize_in_txn-cases s final o e) [
      | inl (_, stays) ↦ rw stays tree
      | inr (h, _, set, _) ↦ rw set (same-IsTree s _ (set_finalized-SameRows s h) tree)
    ]

    pub finalize_in_txn-IsHeaviest : IsHeaviest s → IsHeaviest final
    finalize_in_txn-IsHeaviest heavy = elim (finalize_in_txn-cases s final o e) [
      | inl (_, stays) ↦ rw stays heavy
      | inr (h, _, set, _) ↦ rw set (
          same-IsHeaviest s _ (set_finalized-SameRows s h) tree (best_fork-set_finalized s h) heavy)
    ]

  select_best-eq :
      (s : Chain Header) (t b bw tw : ℕ)
      → best_fork s ≡ some b
      → fork_chainwork s b ≡ some bw
      → fork_chainwork s t ≡ some tw
      → select_best s t ≡ (if not (t == b) && ltb bw tw then (t, set_best_fork s t) else (b, s))
  unfolding select_best
  select_best-eq s t b bw tw is w v = rw (is, select_best) (rw (w, v) refl)

  -- The best fork stays, or a strictly heavier target takes its place.
  select_best-cases :
      (s : Chain Header) (t b bw tw : ℕ)
      → best_fork s ≡ some b
      → fork_chainwork s b ≡ some bw
      → fork_chainwork s t ≡ some tw
      → ((select_best s t ≡ (b, s)) × ((t ≡ b) ⊎ (tw ≤ bw)))
        ⊎ ((select_best s t ≡ (t, set_best_fork s t)) × (bw < tw))
  select_best-cases s t b bw tw is w v = elim (Bool-cases (not (t == b) && ltb bw tw)) [
    | inl moves ↦ inr (rw moves at (select_best-eq s t b bw tw is w v), ground arith)
    | inr stays ↦ inl (rw stays at (select_best-eq s t b bw tw is w v), ground arith)
  ]

  -- The choice of the best fork, on a store that grew.
  module _ (c s : Chain Header) (t : ℕ) (grown : Grown c s t) (tree : IsTree c)
      (heavy : IsHeaviest c) where
    abbrev new_work : ℕ
    new_work = grown.tip.row.work

    -- The work of any fork in the end, against the two that compete.
    bounded : (f w : ℕ) → fork_chainwork s f ≡ some w → (w ≤ heavy.best_work) ⊎ (w ≡ new_work)
    bounded f w e = elim (nat-cases f t) [
      | inl same ↦ inr (cc (chainwork_target c s t grown tree, same, e))
      | inr other ↦ inl (heavy.heaviest f w (sym (chainwork_other c s t grown tree f other) ∙ e))
    ]

    stays :
        (best : ℕ) (w : ℕ)
        → best_fork s ≡ some best
        → fork_chainwork s best ≡ some w
        → heavy.best_work ≤ w
        → new_work ≤ w
        → IsHeaviest s
    stays best w is has old_le new_le = record {
      best = best;
      best_work = w;
      is_best = is;
      has_work = has;
      heaviest = λ f v e. elim (bounded f v e) [
        | inl old ↦ omega (arith, old, old_le)
        | inr new ↦ omega (arith, new, new_le)
      ];
    }

    moves : heavy.best_work < new_work → IsHeaviest (set_best_fork s t)
    moves lt =
        let same =
          same_chainwork s (set_best_fork s t) (set_best-SameRows s t)
            (Grown-IsTree c s t grown tree) in
        record {
          best = t;
          best_work = new_work;
          is_best = best_fork-set_best_fork s t;
          has_work = same t ∙ chainwork_target c s t grown tree;
          heaviest = λ f v e. elim (bounded f v (sym (same f) ∙ e)) [
            | inl old ↦ omega (arith, old, lt)
            | inr new ↦ omega (arith, new)
          ];
        }

    -- The work of the best fork so far, in the grown store: as before, or that of the target.
    old_best : (w : ℕ) × (fork_chainwork s heavy.best ≡ some w) × (heavy.best_work ≤ w)
    old_best = elim (nat-cases t heavy.best) [
      | inl same ↦ (
        new_work,
        rw (← same) (chainwork_target c s t grown tree),
        grown.heavier heavy.best_work (rw (← same) at heavy.has_work),
      )
      | inr other ↦ (
        heavy.best_work,
        chainwork_other c s t grown tree heavy.best (λ e. other (sym e)) ∙ heavy.has_work,
        omega arith,
      )
    ]

    pub select_best_sound : IsTree (select_best s t).1 × IsHeaviest (select_best s t).1
    select_best_sound =
        let (w, work, le) = old_best in
        let target = chainwork_target c s t grown tree in
        let best : best_fork s ≡ some heavy.best = grown.same_best ∙ heavy.is_best in
        let sound = Grown-IsTree c s t grown tree in
        elim (select_best-cases s t heavy.best w new_work best work target) [
          | inl (chosen, inl same) ↦
              let equal : new_work ≡ w = cc (same, work, target) in
              (rw chosen sound, rw chosen (stays heavy.best w best work le (omega (arith, equal))))
          | inl (chosen, inr lighter) ↦
              (rw chosen sound, rw chosen (stays heavy.best w best work le lighter))
          | inr (chosen, heavier) ↦ (
            rw chosen (same-IsTree s (set_best_fork s t) (set_best-SameRows s t) sound),
            rw chosen (moves (omega (arith, le, heavier))),
          )
        ]
