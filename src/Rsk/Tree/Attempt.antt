-- ===== src/Rsk/Tree/Attempt.antt =====
-- The checkpoint attempt finds the heaviest root that qualifies.
use rsk.Prelude.{
  member, ℕ, ◌≤◌, ◌≡◌, refl, ap, ◌⊎◌, inl, inr, true, Option, none, some, List, [], ◌∷◌, ltb, arith,
  Bool-cases, Option-cases,
}
use rsk.Rows.Block.{RskBlock}
use rsk.Rsk.Forest.{Forest, rsk_block}
use rsk.Rsk.Ghost.{push_all, rsk_subtree_work}
use rsk.Rsk.Ghost.Subtree.{member-push_all}
use rsk.Rsk.Checkpoint.{clears_threshold}
use rsk.Rsk.Tree.{EphemeralChainCheckpoint, heavier, consider, attempt_over, attempt_checkpoint}

module _ (txn : Forest) (start tail_work : ℕ) where
  -- A root with a stored block whose tree clears the threshold.
  pub record Qualifies (root : ℕ) : Type 0 where
    pub block : RskBlock
    pub stored : rsk_block txn root ≡ some block
    pub clears : clears_threshold (rsk_subtree_work txn root) tail_work ≡ true

  -- The checkpoint is one of the roots that qualify, with the data of its block and tree.
  pub record IsOf (roots : List ℕ) (cp : EphemeralChainCheckpoint) : Type 0 where
    pub is_root : member cp.hash roots ≡ true
    pub qualifies : Qualifies cp.hash
    pub number : cp.number ≡ qualifies.block.number
    pub work : cp.work ≡ rsk_subtree_work txn cp.hash
    pub tail : cp.btc_tail_work ≡ tail_work
    pub from : cp.tail_start ≡ start

  pub record IsHeaviestOf (roots : List ℕ) (best : Option EphemeralChainCheckpoint) : Type 0 where
    pub sound : (cp : EphemeralChainCheckpoint) → best ≡ some cp → IsOf roots cp
    pub heaviest :
        (root : ℕ)
        → member root roots ≡ true
        → Qualifies root
        → (cp : EphemeralChainCheckpoint) × (best ≡ some cp) × (rsk_subtree_work txn root ≤ cp.work)

  member_cons : (h x : ℕ) (xs : List ℕ) → member h (x ∷ xs) ≡ true → (x ≡ h) ⊎ (member h xs ≡ true)
  member_cons h x xs e = ground arith

  below_top : (h x : ℕ) (xs : List ℕ) → member h xs ≡ true → member h (x ∷ xs) ≡ true
  below_top h x xs e = ground arith

  on_top : (x : ℕ) (xs : List ℕ) → member x (x ∷ xs) ≡ true
  on_top x xs = ground arith

  IsOf-cons :
      (r : ℕ) (roots : List ℕ) (cp : EphemeralChainCheckpoint) → IsOf roots cp → IsOf (r ∷ roots) cp
  IsOf-cons r roots cp is = record {
    is_root = below_top cp.hash r roots is.is_root;
    qualifies = is.qualifies;
    number = is.number;
    work = is.work;
    tail = is.tail;
    from = is.from;
  }

  -- A root that does not qualify changes nothing.
  skip-IsHeaviestOf :
      (r : ℕ) (roots : List ℕ) (best : Option EphemeralChainCheckpoint)
      → ¬ Qualifies r
      → IsHeaviestOf roots best
      → IsHeaviestOf (r ∷ roots) best
  skip-IsHeaviestOf r roots best never is = record {
    sound = λ cp e. IsOf-cons r roots cp (is.sound cp e);
    heaviest = λ root e q. elim (member_cons root r roots e) [
      | inl same ↦ absurd (never (rw same q))
      | inr old ↦ is.heaviest root old q
    ];
  }

  abbrev candidate : ℕ → RskBlock → EphemeralChainCheckpoint
  candidate root block = record {
    hash = root;
    number = block.number;
    work = rsk_subtree_work txn root;
    btc_tail_work = tail_work;
    tail_start = start;
  }

  candidate-IsOf :
      (root : ℕ) (roots : List ℕ) (block : RskBlock)
      → rsk_block txn root ≡ some block
      → clears_threshold (rsk_subtree_work txn root) tail_work ≡ true
      → IsOf (root ∷ roots) (candidate root block)
  candidate-IsOf root roots block there enough = record {
    is_root = on_top root roots;
    qualifies = record { block = block; stored = there; clears = enough };
    number = refl;
    work = refl;
    tail = refl;
    from = refl;
  }

  some-IsHeaviestOf :
      (roots : List ℕ) (best : EphemeralChainCheckpoint)
      → IsOf roots best
      → ((root : ℕ)
          → member root roots ≡ true
          → Qualifies root
          → rsk_subtree_work txn root ≤ best.work)
      → IsHeaviestOf roots (some best)
  some-IsHeaviestOf roots best is bound = record {
    sound = λ cp e. let same : best ≡ cp = cc e in rw (← same) is;
    heaviest = λ root e q. (best, refl, bound root e q);
  }

  -- The heavier of the best checkpoint so far and of a root that qualifies.
  heavier-IsHeaviestOf :
      (r : ℕ) (roots : List ℕ) (best : Option EphemeralChainCheckpoint) (block : RskBlock)
      → rsk_block txn r ≡ some block
      → clears_threshold (rsk_subtree_work txn r) tail_work ≡ true
      → IsHeaviestOf roots best
      → IsHeaviestOf (r ∷ roots) (some (heavier best (candidate r block)))
  heavier-IsHeaviestOf r roots none block there enough is =
      some-IsHeaviestOf (r ∷ roots) (candidate r block) (candidate-IsOf r roots block there enough)
        (λ root e q. elim (member_cons root r roots e) [
          | inl same ↦ rw (← same) (omega arith)
          | inr old ↦ let (cp, never, _) = is.heaviest root old q in cc never
        ])
  heavier-IsHeaviestOf r roots (some b) block there enough is =
      elim (Bool-cases (ltb b.work (rsk_subtree_work txn r))) [
        | inl wins ↦ rw wins (
            some-IsHeaviestOf (r ∷ roots) (candidate r block)
              (candidate-IsOf r roots block there enough)
              (λ root e q. elim (member_cons root r roots e) [
                | inl same ↦ rw (← same) (omega arith)
                | inr old ↦ lighter root old q (ground arith)
              ]))
        | inr stays ↦ rw stays (
            some-IsHeaviestOf (r ∷ roots) b (IsOf-cons r roots b (is.sound b refl)) (λ root e q.
              elim (member_cons root r roots e) [
                | inl same ↦ rw (← same) (ground arith)
                | inr old ↦ lighter root old q (omega arith)
              ]))
      ]
    where
      lighter :
          {w : ℕ} (root : ℕ)
          → member root roots ≡ true
          → Qualifies root
          → b.work ≤ w
          → rsk_subtree_work txn root ≤ w
      lighter root old q le =
          let (cp, same, below) = is.heaviest root old q in
          let equal : b ≡ cp = cc same in omega (arith, below, le, ap (λ c. c.work) equal)

  consider-IsHeaviestOf :
      (r : ℕ) (roots : List ℕ) (best : Option EphemeralChainCheckpoint)
      → IsHeaviestOf roots best
      → IsHeaviestOf (r ∷ roots) (consider txn start tail_work best r)
  unfolding consider
  consider-IsHeaviestOf r roots best is =
      elim (Bool-cases (clears_threshold (rsk_subtree_work txn r) tail_work)) [
        | inr short ↦ rw short (skip-IsHeaviestOf r roots best (λ q. cc (short, q.clears)) is)
        | inl enough ↦ elim (Option-cases (rsk_block txn r)) [
          | inl gone ↦
              rw enough (rw gone (skip-IsHeaviestOf r roots best (λ q. cc (gone, q.stored)) is))
          | inr (block, there) ↦
              rw enough (rw there (heavier-IsHeaviestOf r roots best block there enough is))
        ]
      ]

  attempt_over-IsHeaviestOf :
      (roots before : List ℕ) (best : Option EphemeralChainCheckpoint)
      → IsHeaviestOf before best
      → IsHeaviestOf (push_all roots before) (attempt_over txn start tail_work best roots)
  unfolding attempt_over
  attempt_over-IsHeaviestOf [] before best is = is
  attempt_over-IsHeaviestOf (r ∷ roots) before best is =
      attempt_over-IsHeaviestOf roots (r ∷ before) (consider txn start tail_work best r)
        (consider-IsHeaviestOf r before best is)

  member-push_all_nil :
      (h : ℕ) (roots : List ℕ) → member h (push_all roots []) ≡ true → member h roots ≡ true
  member-push_all_nil h roots e = elim ((member-push_all h roots []).0 e) [
    | inl in_roots ↦ in_roots
    | inr never ↦ cc never
  ]

  -- A checkpoint that the attempt reports is a proposed root whose tree clears the threshold, with
  -- the number of its block and the work of its tree; and if any proposed root clears it, one is
  -- reported, with at least that root's work.
  pub attempt_checkpoint-IsHeaviestOf :
      IsHeaviestOf txn.roots (attempt_checkpoint txn start tail_work)
  unfolding attempt_checkpoint
  attempt_checkpoint-IsHeaviestOf =
      let all =
        attempt_over-IsHeaviestOf txn.roots [] none
          (record { sound = λ cp e. cc e; heaviest = λ root e q. cc e }) in
      record {
        sound = λ cp e.
            let of = all.sound cp e in
            record {
              is_root = member-push_all_nil cp.hash txn.roots of.is_root;
              qualifies = of.qualifies;
              number = of.number;
              work = of.work;
              tail = of.tail;
              from = of.from;
            };
        heaviest = λ root e q. all.heaviest root ((member-push_all root txn.roots []).1 (inl e)) q;
      }
