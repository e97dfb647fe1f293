-- ===== src/Rsk/Ghost/Subtree.antt =====
-- The walk ends within its fuel, and sums the work of the blocks that the root reaches.
use rsk.Prelude.{
  member, Distinct, ℕ, zero, suc, ◌+◌, ◌-◌, ◌≤◌, ◌≡◌, refl, ◌↔◌, ◌⊎◌, inl, inr, true, false, Option,
  none, some, List, [], ◌∷◌, ◌==◌, if◌then◌else◌, length, arith, Bool-cases, unwrap_or, min,
  u256_mod,
}
use rsk.Prelude.Table.{Table, get, nat_key}
use rsk.Rows.Block.{RskBlock}
use rsk.Rsk.Forest.{Forest, rsk_block, rsk_children}
use rsk.Rsk.Ghost.{push_all, add_work, edges, walk, rsk_subtree_walk, rsk_subtree_work}

-- The edges of the rows that are not expanded yet.
abbrev unexpanded : List ℕ → Table ℕ (List ℕ) → ℕ
unexpanded seen [] = 0
unexpanded seen ((parent, cs) ∷ rows) =
    if member parent seen then unexpanded seen rows else length cs + unexpanded seen rows

unexpanded_cons :
    (h : ℕ) (seen : List ℕ) (rows : Table ℕ (List ℕ))
    → unexpanded (h ∷ seen) rows ≤ unexpanded seen rows
unexpanded_cons h seen [] = omega arith
unexpanded_cons h seen ((parent, cs) ∷ rows) = ground (arith, unexpanded_cons h seen rows)

unexpanded-get :
    (h : ℕ) (seen : List ℕ) (rows : Table ℕ (List ℕ))
    → member h seen ≡ false
    → unexpanded (h ∷ seen) rows + length (unwrap_or (get rows h) []) ≤ unexpanded seen rows
unfolding get
unexpanded-get h seen [] new = omega arith
unexpanded-get h seen ((parent, cs) ∷ rows) new = elim (Bool-cases (parent == h)) [
  | inl same ↦
      let is : parent ≡ h = ground arith in
      let new' : member parent seen ≡ false = rw is new in
      ground (arith, unexpanded_cons h seen rows)
  | inr other ↦ ground (arith, unexpanded-get h seen rows new)
]

unexpanded_nil : (rows : Table ℕ (List ℕ)) → unexpanded [] rows ≡ edges rows
unexpanded_nil [] = refl
unexpanded_nil ((parent, cs) ∷ rows) = omega (arith, unexpanded_nil rows)

length-push_all : (cs stack : List ℕ) → length (push_all cs stack) ≡ length cs + length stack
length-push_all [] stack = omega arith
length-push_all (c ∷ cs) stack = omega (arith, length-push_all cs (c ∷ stack))

pub member-push_all :
    (h : ℕ) (cs stack : List ℕ)
    → (member h (push_all cs stack) ≡ true) ↔ ((member h cs ≡ true) ⊎ (member h stack ≡ true))
member-push_all h [] stack = ground arith
member-push_all h (c ∷ cs) stack = ground (arith, member-push_all h cs (c ∷ stack))

-- What a root reaches over the child edges.
pub data Reaches (txn : Forest) (root : ℕ) : ℕ → Type 0 where
  itself : Reaches txn root root
  edge : {p h : ℕ} → Reaches txn root p → member h (rsk_children txn p) ≡ true → Reaches txn root h

-- The work of a block, nothing for a hash that is not stored.
abbrev work_of : Option RskBlock → ℕ
work_of none = 0
work_of (some b) = b.cumulative_difficulty

abbrev pub own_work : Forest → ℕ → ℕ
own_work txn hash = work_of (rsk_block txn hash)

add_work-sum :
    (o : Option RskBlock) (total works : ℕ)
    → total ≡ min works (u256_mod - 1)
    → add_work total o ≡ min (work_of o + works) (u256_mod - 1)
add_work-sum none total works e = omega arith
add_work-sum (some b) total works e = omega arith

abbrev pub own_works : Forest → List ℕ → ℕ
own_works txn [] = 0
own_works txn (h ∷ hs) = own_work txn h + own_works txn hs

module _ (txn : Forest) where
  walk_ends :
      (fuel : ℕ) (stack seen : List ℕ) (total : ℕ)
      → length stack + unexpanded seen txn.children ≤ fuel
      → (seen' : List ℕ) × (total' : ℕ) × (walk txn fuel stack seen total ≡ some (seen', total'))
  unfolding walk rsk_children
  walk_ends zero [] seen total h = (seen, total, refl)
  walk_ends zero (x ∷ stack) seen total h = absurd (omega arith)
  walk_ends (suc fuel) [] seen total h = (seen, total, refl)
  walk_ends (suc fuel) (x ∷ stack) seen total h = elim (Bool-cases (member x seen)) [
    | inl old ↦ let (s, t, e) = walk_ends fuel stack seen total (omega arith) in (s, t, rw old e)
    | inr new ↦
        let (s, t, e) =
          walk_ends fuel (push_all (rsk_children txn x) stack) (x ∷ seen)
            (add_work total (rsk_block txn x))
            (omega (
              arith,
              unexpanded-get x seen txn.children new,
              length-push_all (rsk_children txn x) stack,
            )) in
        (s, t, rw new e)
  ]

  module _ (root : ℕ) where
    record Inv (stack seen : List ℕ) (total : ℕ) : Type 0 where
      stacked : (h : ℕ) → member h stack ≡ true → Reaches txn root h
      reached : (h : ℕ) → member h seen ≡ true → Reaches txn root h
      closed :
          (p h : ℕ)
          → member p seen ≡ true
          → member h (rsk_children txn p) ≡ true
          → (member h seen ≡ true) ⊎ (member h stack ≡ true)
      started : (member root seen ≡ true) ⊎ (member root stack ≡ true)
      distinct : Distinct seen
      sum : total ≡ min (own_works txn seen) (u256_mod - 1)

    skip-Inv :
        (x : ℕ) (stack seen : List ℕ) (total : ℕ)
        → member x seen ≡ true
        → Inv (x ∷ stack) seen total
        → Inv stack seen total
    skip-Inv x stack seen total old inv = record {
      stacked = λ h e. inv.stacked h (ground arith);
      reached = inv.reached;
      closed = λ p h e c. ground (arith, inv.closed p h e c);
      started = ground (arith, inv.started);
      distinct = inv.distinct;
      sum = inv.sum;
    }

    member_cons :
        (h x : ℕ) (xs : List ℕ) → member h (x ∷ xs) ≡ true → (x ≡ h) ⊎ (member h xs ≡ true)
    member_cons h x xs e = ground arith

    on_top : (x : ℕ) (xs : List ℕ) → member x (x ∷ xs) ≡ true
    on_top x xs = ground arith

    is_top : (h x : ℕ) (xs : List ℕ) → x ≡ h → member h (x ∷ xs) ≡ true
    is_top h x xs e = ground arith

    below_top : (h x : ℕ) (xs : List ℕ) → member h xs ≡ true → member h (x ∷ xs) ≡ true
    below_top h x xs e = ground arith

    visit-closed :
        (x p h : ℕ) (stack seen : List ℕ) (total : ℕ)
        → Inv (x ∷ stack) seen total
        → member p (x ∷ seen) ≡ true
        → member h (rsk_children txn p) ≡ true
        → (member h (x ∷ seen) ≡ true) ⊎ (member h (push_all (rsk_children txn x) stack) ≡ true)
    visit-closed x p h stack seen total inv e c =
        let pushed = member-push_all h (rsk_children txn x) stack in
        elim (member_cons p x seen e) [
          | inl same ↦ inr (pushed.1 (inl (rw same c)))
          | inr old ↦ elim (inv.closed p h old c) [
            | inl known ↦ inl (below_top h x seen known)
            | inr waits ↦ elim (member_cons h x stack waits) [
              | inl top ↦ inl (is_top h x seen top)
              | inr below ↦ inr (pushed.1 (inr below))
            ]
          ]
        ]

    visit-Inv :
        (x : ℕ) (stack seen : List ℕ) (total : ℕ)
        → member x seen ≡ false
        → Inv (x ∷ stack) seen total
        → Inv (push_all (rsk_children txn x) stack) (x ∷ seen) (add_work total (rsk_block txn x))
    visit-Inv x stack seen total new inv = record {
      stacked = λ h e. elim ((member-push_all h (rsk_children txn x) stack).0 e) [
        | inl c ↦ edge (inv.stacked x (on_top x stack)) c
        | inr waits ↦ inv.stacked h (below_top h x stack waits)
      ];
      reached = λ h e. elim (member_cons h x seen e) [
        | inl same ↦ rw (← same) (inv.stacked x (on_top x stack))
        | inr old ↦ inv.reached h old
      ];
      closed = λ p h e c. visit-closed x p h stack seen total inv e c;
      started = elim inv.started [
        | inl known ↦ inl (below_top root x seen known)
        | inr waits ↦ elim (member_cons root x stack waits) [
          | inl top ↦ inl (is_top root x seen top)
          | inr below ↦ inr ((member-push_all root (rsk_children txn x) stack).1 (inr below))
        ]
      ];
      distinct = (new, inv.distinct);
      sum = add_work-sum (rsk_block txn x) total (own_works txn seen) inv.sum;
    }

    walk-Inv :
        (fuel : ℕ) (stack seen : List ℕ) (total : ℕ) (seen' : List ℕ) (total' : ℕ)
        → Inv stack seen total
        → walk txn fuel stack seen total ≡ some (seen', total')
        → Inv [] seen' total'
    unfolding walk
    walk-Inv zero [] seen total s t inv e =
        let same : seen ≡ s = cc e in let equal : total ≡ t = cc e in rw (← same) (rw (← equal) inv)
    walk-Inv zero (x ∷ stack) seen total s t inv e = cc e
    walk-Inv (suc fuel) [] seen total s t inv e =
        let same : seen ≡ s = cc e in let equal : total ≡ t = cc e in rw (← same) (rw (← equal) inv)
    walk-Inv (suc fuel) (x ∷ stack) seen total s t inv e = elim (Bool-cases (member x seen)) [
      | inl old ↦
          walk-Inv fuel stack seen total s t (skip-Inv x stack seen total old inv) (rw old at e)
      | inr new ↦
          walk-Inv fuel (push_all (rsk_children txn x) stack) (x ∷ seen)
            (add_work total (rsk_block txn x)) s t (visit-Inv x stack seen total new inv)
            (rw new at e)
    ]

    start-Inv : Inv (root ∷ []) [] 0
    start-Inv = record {
      stacked = λ h e. elim (member_cons h root [] e) [
        | inl same ↦ rw (← same) itself
        | inr never ↦ cc never
      ];
      reached = λ h e. cc e;
      closed = λ p h e c. cc e;
      started = inr (on_top root []);
      distinct = tt;
      sum = refl;
    }

    Inv-complete :
        (seen : List ℕ) (total h : ℕ)
        → Inv [] seen total
        → Reaches txn root h
        → member h seen ≡ true
    Inv-complete seen total h inv itself = elim inv.started [
      | inl known ↦ known
      | inr never ↦ cc never
    ]
    Inv-complete seen total h inv (edge {p} r c) =
        elim (inv.closed p h (Inv-complete seen total p inv r) c) [
          | inl known ↦ known
          | inr never ↦ cc never
        ]

    -- The work of a tree is the sum of the works of the blocks that its root reaches over the child
    -- edges, each counted once however often an edge is stored, up to the largest 256-bit number;
    -- the walk ends within its fuel on any tables.
    pub rsk_subtree_work_correct :
        (blocks : List ℕ) × Distinct blocks
        × ((h : ℕ) → (member h blocks ≡ true) ↔ Reaches txn root h)
        × (rsk_subtree_work txn root ≡ min (own_works txn blocks) (u256_mod - 1))
    unfolding rsk_subtree_work rsk_subtree_walk
    rsk_subtree_work_correct =
        let (seen, total, e) =
          walk_ends (suc (edges txn.children)) (root ∷ []) [] 0
            (omega (arith, unexpanded_nil txn.children)) in
        let inv = walk-Inv (suc (edges txn.children)) (root ∷ []) [] 0 seen total start-Inv e in
        (
          seen,
          inv.distinct,
          λ h. (inv.reached h, Inv-complete seen total h inv),
          rw (e, rsk_subtree_work) inv.sum,
        )
