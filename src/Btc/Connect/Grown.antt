-- ===== src/Btc/Connect/Grown.antt =====
-- The tables after the run was put, against the tables before the call.
use rsk.Prelude.{
  ℕ, suc, ◌+◌, ◌≤◌, ◌<◌, ◌≡◌, ◌≢◌, refl, sym, ◌∙◌, ap, ◌⊎◌, inl, inr, some, arith, length, List,
  ◌∷◌, u64_mod, u256_mod, Option-cases, nat-cases,
}
use rsk.Prelude.Table.{get, nat_key, pair_key}
use rsk.Bitcoin.{Bitcoin}
use rsk.Result.{ok}
use rsk.Rows.Fork.{ForkMeta}
use rsk.Btc.Store.Meta.{Chain, locate, fork_meta, best_fork, meta_u64, meta_key}
use rsk.Btc.Store.Walk.{fork_chainwork}
use rsk.Btc.Store.Put.{next_fork_id, put_headers}
use rsk.Btc.Store.Sound.{IsTree, HasTip, fork_chainwork_of_tip, fork_chainwork-none}
use rsk.Btc.Connect.{Target, entries_of}
use rsk.Btc.Connect.Stored.{works_sum}
use rsk.Btc.Connect.Effect.{PutEffect, put_headers-PutEffect}
use rsk.Btc.Connect.Placed.{Placed}

module _ {Header : Type 0} where
  -- One fork of `s` is new or longer than in `c`, and no lighter; the rest is as it was.
  pub record Grown (c s : Chain Header) (t : ℕ) : Type 0 where
    pub meta : ForkMeta
    pub is_there : fork_meta s t ≡ some meta
    pub tip : HasTip s t meta
    pub parent_below : (p : ℕ) → meta.parent ≡ some p → p < t
    pub in_range : t < next_fork_id s
    pub range : next_fork_id c ≤ next_fork_id s
    pub others : (g : ℕ) → g ≢ t → fork_meta s g ≡ fork_meta c g
    pub other_rows : (g h : ℕ) → g ≢ t → get s.headers (g, h) ≡ get c.headers (g, h)
    pub heavier : (w : ℕ) → fork_chainwork c t ≡ some w → w ≤ tip.row.work
    pub same_best : best_fork s ≡ best_fork c
    pub locates :
        (hash f h : ℕ) → locate s hash ≡ some (f, h) → (f ≡ t) ⊎ (locate c hash ≡ some (f, h))

  module _ (c s : Chain Header) (t : ℕ) (grown : Grown c s t) (tree : IsTree c) where
    -- A fork is the grown one, or an old one.
    meta_of :
        (f : ℕ) (m : ForkMeta)
        → fork_meta s f ≡ some m
        → ((f ≡ t) × (m ≡ grown.meta)) ⊎ ((f ≢ t) × (fork_meta c f ≡ some m))
    meta_of f m e = elim (nat-cases f t) [
      | inl same ↦ inl (same, cc (grown.is_there, same, e))
      | inr other ↦ inr (other, sym (grown.others f other) ∙ e)
    ]

    parents : (f p : ℕ) (m : ForkMeta) → fork_meta s f ≡ some m → m.parent ≡ some p → p < f
    parents f p m e k = elim (meta_of f m e) [
      | inl (same, is) ↦ rw same (grown.parent_below p (rw is at k))
      | inr (_, old) ↦ tree.parents.below f p m old k
    ]

    numbered : (f : ℕ) (m : ForkMeta) → fork_meta s f ≡ some m → f < next_fork_id s
    numbered f m e = elim (meta_of f m e) [
      | inl (same, _) ↦ omega (arith, same, grown.in_range)
      | inr (_, old) ↦ omega (arith, tree.numbered f m old, grown.range)
    ]

    tips : (f : ℕ) (m : ForkMeta) → fork_meta s f ≡ some m → HasTip s f m
    tips f m e = elim (meta_of f m e) [
      | inl (same, is) ↦ rw same (rw is grown.tip)
      | inr (other, old) ↦
          let tip = tree.tips f m old in
          record {
            owned = tip.owned;
            row = tip.row;
            stored = grown.other_rows f m.tip_height other ∙ tip.stored;
          }
    ]

    located :
        (hash f h : ℕ) → locate s hash ≡ some (f, h) → (m : ForkMeta) × (fork_meta s f ≡ some m)
    located hash f h e = elim (grown.locates hash f h e) [
      | inl same ↦ (grown.meta, rw same grown.is_there)
      | inr before ↦ again (tree.located hash f h before) (nat-cases f t)
    ]
      where
        again :
            ((m : ForkMeta) × (fork_meta c f ≡ some m))
            → (f ≡ t) ⊎ (f ≢ t)
            → (m : ForkMeta) × (fork_meta s f ≡ some m)
        again (m, old) (inl same) = (grown.meta, rw same grown.is_there)
        again (m, old) (inr other) = (m, grown.others f other ∙ old)

    pub Grown-IsTree : IsTree s
    Grown-IsTree = record {
      parents = record { below = parents };
      numbered = numbered;
      tips = tips;
      located = located;
    }

    pub chainwork_target : fork_chainwork s t ≡ some grown.tip.row.work
    chainwork_target =
        fork_chainwork_of_tip s t grown.meta grown.tip.row grown.is_there grown.tip.owned
          grown.tip.stored

    pub chainwork_other : (g : ℕ) → g ≢ t → fork_chainwork s g ≡ fork_chainwork c g
    chainwork_other g ne = elim (Option-cases (fork_meta c g)) [
      | inl gone ↦
          fork_chainwork-none s g (grown.others g ne ∙ gone) ∙ sym (fork_chainwork-none c g gone)
      | inr (m, there) ↦
          let tip = tree.tips g m there in
          fork_chainwork_of_tip s g m tip.row (grown.others g ne ∙ there) tip.owned
            (grown.other_rows g m.tip_height ne ∙ tip.stored)
          ∙ sym (fork_chainwork_of_tip c g m tip.row there tip.owned tip.stored)
    ]

module _ {Header : Type 0} (lib : Bitcoin Header) where
  module _ (c s : Chain Header) (f height base : ℕ) (target : Target Header) (run : List Header)
      (placed : Placed c f height target base)
      (effect : PutEffect lib target.txn s target.fork target.forkpoint base run)
      (light : base + works_sum lib run < u256_mod) where
    old_meta : effect.old_meta ≡ placed.meta
    old_meta = cc (effect.was_there, placed.is_there)

    forkpoint : effect.new_meta.forkpoint ≡ placed.meta.forkpoint
    forkpoint = effect.same_forkpoint ∙ ap (λ m. m.forkpoint) old_meta

    parent : effect.new_meta.parent ≡ placed.meta.parent
    parent = effect.same_parent ∙ ap (λ m. m.parent) old_meta

    next : next_fork_id s ≡ next_fork_id target.txn
    next = unfold next_fork_id meta_u64 in rw effect.same_meta refl

    best : best_fork s ≡ best_fork target.txn
    best = unfold best_fork meta_u64 in rw effect.same_meta refl

    located_after :
        (hash f h : ℕ)
        → locate s hash ≡ some (f, h)
        → (f ≡ target.fork) ⊎ (locate c hash ≡ some (f, h))
    located_after hash f h e = elim (effect.locates hash f h e) [
      | inl inside ↦ inl inside.on_target
      | inr before ↦ inr (again before)
    ]
      where
        again : locate target.txn hash ≡ some (f, h) → locate c hash ≡ some (f, h)
        again b = unfold locate in (ap (λ t. get t hash) (sym placed.same_hashes) ∙ b)

    effect-Grown : 1 ≤ length run → Grown c s target.fork
    effect-Grown some_new = record {
      meta = effect.new_meta;
      is_there = effect.is_there;
      tip = record {
        owned = omega (arith, forkpoint, placed.owned, effect.new_tip);
        row = effect.tip_row;
        stored = effect.has_tip_row;
      };
      parent_below = λ p e. placed.parent_below p (sym parent ∙ e);
      in_range = omega (arith, next, placed.in_range);
      range = omega (arith, next, placed.range);
      others = λ g ne. effect.other_forks g ne ∙ placed.others g ne;
      other_rows = λ g h ne. effect.other_rows g h ne ∙ ap (λ t. get t (g, h)) placed.same_headers;
      heavier = λ w e. omega (arith, effect.tip_weight, placed.light w e);
      same_best = best ∙ placed.same_best;
      locates = located_after;
    }

  pub put-Grown :
      (c s : Chain Header) (f height base : ℕ) (target : Target Header) (x : Header)
      (xs : List Header)
      → Placed c f height target base
      → height + 1 + suc (length xs) ≤ u64_mod
      → base + works_sum lib (x ∷ xs) < u256_mod
      → put_headers lib target.txn target.fork (entries_of lib target.forkpoint base (x ∷ xs))
        ≡ ok s
      → Grown c s target.fork
  put-Grown c s f height base target x xs placed fits light put =
      effect-Grown c s f height base target (x ∷ xs) placed
        (put_headers-PutEffect lib target.txn s target.fork target.forkpoint base x xs
          (omega (arith, placed.forkpoint)) put)
        light (omega arith)
