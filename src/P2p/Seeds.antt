-- ===== src/P2p/Seeds.antt =====
-- `resolve` of crates/btc-p2p/src/seeds.rs. A name server is a function from hosts to addresses, which
-- are ordered as numbers.
use rsk.Prelude.{
  ℕ, ◌<◌, ◌≡◌, sym, ap, ◌∙◌, ◌↔◌, inl, inr, true, false, Option, none, some, List, [], ◌∷◌, ◌++◌,
  ◌==◌, leb, if◌then◌else◌, member, arith, Bool-cases, nat-cases, Option-cases, member-append_or,
}

module _ (lookup_host : ℕ → Option (List ℕ)) where
  abbrev found : Option (List ℕ) → List ℕ
  found none = []
  found (some addrs) = addrs

  -- The addresses of every host that resolves.
  unfoldable pub extend_all : List ℕ → List ℕ
  extend_all [] = []
  extend_all (seed ∷ seeds) = found (lookup_host seed) ++ extend_all seeds

pub insert_in_order : ℕ → List ℕ → List ℕ
insert_in_order x [] = x ∷ []
insert_in_order x (y ∷ ys) = if leb x y then x ∷ y ∷ ys else y ∷ insert_in_order x ys

-- `out.sort()`
unfoldable pub sort : List ℕ → List ℕ
unfolding insert_in_order
sort [] = []
sort (x ∷ xs) = insert_in_order x (sort xs)

-- `out.dedup()`: of equal neighbours the first is kept.
unfoldable pub dedup_after : ℕ → List ℕ → List ℕ
dedup_after x [] = []
dedup_after x (y ∷ ys) = if x == y then dedup_after x ys else y ∷ dedup_after y ys

unfoldable pub dedup : List ℕ → List ℕ
unfolding dedup_after
dedup [] = []
dedup (x ∷ xs) = x ∷ dedup_after x xs

unfoldable pub resolve : (ℕ → Option (List ℕ)) → List ℕ → List ℕ
resolve lookup_host seeds = dedup (sort (extend_all lookup_host seeds))

-- Every address is above `x`, and above the one before it.
abbrev pub AscendsFrom : ℕ → List ℕ → Type 0
AscendsFrom x [] = Unit
AscendsFrom x (y ∷ ys) = (x < y) × AscendsFrom y ys

abbrev pub Ascends : List ℕ → Type 0
Ascends [] = Unit
Ascends (x ∷ xs) = AscendsFrom x xs

-- In order, with repetitions.
abbrev InOrder : ℕ → List ℕ → Type 0
InOrder x [] = Unit
InOrder x (y ∷ ys) = (leb x y ≡ true) × InOrder y ys

abbrev Sorted : List ℕ → Type 0
Sorted [] = Unit
Sorted (x ∷ xs) = InOrder x xs

insert_in_order-InOrder :
    (y x : ℕ) (xs : List ℕ) → leb y x ≡ true → InOrder y xs → InOrder y (insert_in_order x xs)
unfolding insert_in_order
insert_in_order-InOrder y x [] le o = (le, tt)
insert_in_order-InOrder y x (z ∷ zs) le o = elim (Bool-cases (leb x z)) [
  | inl first ↦ rw first (le, (first, o.1))
  | inr later ↦ rw later (o.0, insert_in_order-InOrder z x zs (ground arith) o.1)
]

insert_in_order-Sorted : (x : ℕ) (xs : List ℕ) → Sorted xs → Sorted (insert_in_order x xs)
unfolding insert_in_order
insert_in_order-Sorted x [] o = tt
insert_in_order-Sorted x (z ∷ zs) o = elim (Bool-cases (leb x z)) [
  | inl first ↦ rw first (first, o)
  | inr later ↦ rw later (insert_in_order-InOrder z x zs (ground arith) o)
]

sort-Sorted : (xs : List ℕ) → Sorted (sort xs)
unfolding sort
sort-Sorted [] = tt
sort-Sorted (x ∷ xs) = insert_in_order-Sorted x (sort xs) (sort-Sorted xs)

dedup_after-AscendsFrom : (x : ℕ) (xs : List ℕ) → InOrder x xs → AscendsFrom x (dedup_after x xs)
unfolding dedup_after
dedup_after-AscendsFrom x [] o = tt
dedup_after-AscendsFrom x (y ∷ ys) o = elim (nat-cases x y) [
  | inl same ↦
      let again : (x == y) ≡ true = ground arith in
      rw again (dedup_after-AscendsFrom x ys (rw (← same) at o.1))
  | inr other ↦
      let differs : (x == y) ≡ false = ground arith in
      rw differs (ground arith, dedup_after-AscendsFrom y ys o.1)
]

dedup-Ascends : (xs : List ℕ) → Sorted xs → Ascends (dedup xs)
unfolding dedup
dedup-Ascends [] o = tt
dedup-Ascends (x ∷ xs) o = dedup_after-AscendsFrom x xs o

member-insert_in_order :
    (a x : ℕ) (xs : List ℕ) → member a (insert_in_order x xs) ≡ member a (x ∷ xs)
unfolding insert_in_order
member-insert_in_order a x [] = ground arith
member-insert_in_order a x (y ∷ ys) = ground (arith, member-insert_in_order a x ys)

member-sort : (a : ℕ) (xs : List ℕ) → member a (sort xs) ≡ member a xs
unfolding sort
member-sort a [] = ground arith
member-sort a (x ∷ xs) = ground (arith, member-insert_in_order a x (sort xs), member-sort a xs)

member-dedup_after : (a x : ℕ) (xs : List ℕ) → member a (x ∷ dedup_after x xs) ≡ member a (x ∷ xs)
unfolding dedup_after
member-dedup_after a x [] = ground arith
member-dedup_after a x (y ∷ ys) =
    ground (arith, member-dedup_after a x ys, member-dedup_after a y ys)

member-dedup : (a : ℕ) (xs : List ℕ) → member a (dedup xs) ≡ member a xs
unfolding dedup
member-dedup a [] = ground arith
member-dedup a (x ∷ xs) = member-dedup_after a x xs

-- An address that the name server gives for one of the hosts.
abbrev pub IsResolved : (ℕ → Option (List ℕ)) → List ℕ → ℕ → Type 0
IsResolved lookup_host hosts a =
    (host : ℕ) × (given : List ℕ) × (member host hosts ≡ true)
    × (lookup_host host ≡ some given)
    × (member a given ≡ true)

module _ (lookup_host : ℕ → Option (List ℕ)) where
  later-IsResolved :
      (seed : ℕ) (seeds : List ℕ) (a : ℕ)
      → IsResolved lookup_host seeds a
      → IsResolved lookup_host (seed ∷ seeds) a
  later-IsResolved seed seeds a (host, given, among, is, there) =
      (host, given, ground arith, is, there)

  extend_all-IsResolved :
      (seeds : List ℕ) (a : ℕ)
      → member a (extend_all lookup_host seeds) ≡ true
      → IsResolved lookup_host seeds a
  unfolding extend_all
  extend_all-IsResolved [] a e = cc e
  extend_all-IsResolved (seed ∷ seeds) a e = elim (Option-cases (lookup_host seed)) [
    | inl fails ↦ later-IsResolved seed seeds a (extend_all-IsResolved seeds a (rw fails at e))
    | inr (given, is) ↦ elim (Bool-cases (member a given)) [
      | inl there ↦ (seed, given, ground arith, is, there)
      | inr absent ↦
          let e₁ : member a (given ++ extend_all lookup_host seeds) ≡ true = rw is at e in
          let apart = member-append_or a given (extend_all lookup_host seeds) in
          later-IsResolved seed seeds a (extend_all-IsResolved seeds a (ground arith))
    ]
  ]

  IsResolved-extend_all :
      (seeds : List ℕ) (a : ℕ)
      → IsResolved lookup_host seeds a
      → member a (extend_all lookup_host seeds) ≡ true
  unfolding extend_all
  IsResolved-extend_all [] a (host, given, among, is, there) = cc among
  IsResolved-extend_all (seed ∷ seeds) a (host, given, among, is, there) =
      let apart =
        member-append_or a (found lookup_host (lookup_host seed)) (extend_all lookup_host seeds) in
      elim (nat-cases host seed) [
        | inl same ↦
            let here : member a (found lookup_host (lookup_host seed)) ≡ true =
              rw (sym (ap lookup_host same) ∙ is) there in
            ground arith
        | inr other ↦
            let below = IsResolved-extend_all seeds a (host, given, ground arith, is, there) in
            ground arith
      ]

  pub extend_all_iff_IsResolved :
      (seeds : List ℕ) (a : ℕ)
      → (member a (extend_all lookup_host seeds) ≡ true) ↔ IsResolved lookup_host seeds a
  extend_all_iff_IsResolved seeds a = (extend_all-IsResolved seeds a, IsResolved-extend_all seeds a)

-- The candidates are in ascending order with none repeated, and an address is among them exactly if
-- the name server gives it for one of the hosts; a host that does not resolve drops no other.
pub resolve_lem :
    (lookup_host : ℕ → Option (List ℕ)) (seeds : List ℕ)
    → Ascends (resolve lookup_host seeds)
      × ((a : ℕ) → (member a (resolve lookup_host seeds) ≡ true) ↔ IsResolved lookup_host seeds a)
unfolding resolve
resolve_lem lookup_host seeds =
    let all = extend_all lookup_host seeds in
    (
      dedup-Ascends (sort all) (sort-Sorted all),
      λ a.
          let same : member a (dedup (sort all)) ≡ member a all =
            member-dedup a (sort all) ∙ member-sort a all in
          let resolved = extend_all_iff_IsResolved lookup_host seeds a in
          (λ e. resolved.0 (sym same ∙ e), λ r. same ∙ resolved.1 r),
    )
