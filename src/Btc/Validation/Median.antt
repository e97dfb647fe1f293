-- ===== src/Btc/Validation/Median.antt =====
-- The median of eleven times is their sixth smallest, in whatever order they come.
use rsk.Prelude.{
  ℕ, zero, suc, ◌+◌, ◌≤◌, ◌<◌, ◌≡◌, refl, true, false, List, [], ◌∷◌, arith, leb, ◌==◌, length,
  get_or, if◌then◌else◌, All, Bool-cases, inl, inr,
}
use rsk.Btc.Validation.{insert_sorted, sort, median_time_past}

-- How many items are at most `m`, and how many are at least `m`.
abbrev pub count_le : ℕ → List ℕ → ℕ
count_le m [] = 0
count_le m (x ∷ xs) = (if leb x m then 1 else 0) + count_le m xs

abbrev pub count_ge : ℕ → List ℕ → ℕ
count_ge m [] = 0
count_ge m (x ∷ xs) = (if leb m x then 1 else 0) + count_ge m xs

abbrev pub count_eq : ℕ → List ℕ → ℕ
count_eq m [] = 0
count_eq m (x ∷ xs) = (if x == m then 1 else 0) + count_eq m xs

abbrev IsSorted : List ℕ → Type 0
IsSorted [] = Unit
IsSorted (x ∷ xs) = All (λ y. x ≤ y) xs × IsSorted xs

All-mono : {x y : ℕ} (xs : List ℕ) → x ≤ y → All (λ z. y ≤ z) xs → All (λ z. x ≤ z) xs
All-mono [] h a = tt
All-mono (z ∷ zs) h (a, rest) = (omega arith, All-mono zs h rest)

All-insert_sorted :
    (b t : ℕ) (xs : List ℕ) → b ≤ t → All (λ z. b ≤ z) xs → All (λ z. b ≤ z) (insert_sorted t xs)
unfolding insert_sorted
All-insert_sorted b t [] h a = (h, tt)
All-insert_sorted b t (x ∷ xs) h (a, rest) = ground (arith, All-insert_sorted b t xs h rest)

insert_sorted-IsSorted : (t : ℕ) (xs : List ℕ) → IsSorted xs → IsSorted (insert_sorted t xs)
unfolding insert_sorted
insert_sorted-IsSorted t [] s = (tt, tt)
insert_sorted-IsSorted t (x ∷ xs) (a, s) = elim (Bool-cases (leb t x)) [
  | inl le ↦ rw le ((omega (arith, below le), All-mono xs (below le) a), (a, s))
  | inr gt ↦ rw gt (All-insert_sorted x t xs (above gt) a, insert_sorted-IsSorted t xs s)
]
  where
    below : leb t x ≡ true → t ≤ x
    below e = ground arith

    above : leb t x ≡ false → x ≤ t
    above e = ground arith

sort-IsSorted : (ts : List ℕ) → IsSorted (sort ts)
unfolding sort
sort-IsSorted [] = tt
sort-IsSorted (t ∷ ts) = insert_sorted-IsSorted t (sort ts) (sort-IsSorted ts)

-- The three counts do not see the order.
count-insert_sorted :
    (m t : ℕ) (xs : List ℕ)
    → (count_le m (insert_sorted t xs) ≡ count_le m (t ∷ xs))
      × (count_ge m (insert_sorted t xs) ≡ count_ge m (t ∷ xs))
      × (count_eq m (insert_sorted t xs) ≡ count_eq m (t ∷ xs))
      × (length (insert_sorted t xs) ≡ suc (length xs))
unfolding insert_sorted
count-insert_sorted m t [] = (refl, refl, refl, refl)
count-insert_sorted m t (x ∷ xs) = elim (Bool-cases (leb t x)) [
  | inl le ↦ rw le (refl, refl, refl, refl)
  | inr gt ↦
      let (le, ge, eq, len) = count-insert_sorted m t xs in
      rw gt (omega arith, omega arith, omega arith, omega arith)
]

count-sort :
    (m : ℕ) (ts : List ℕ)
    → (count_le m (sort ts) ≡ count_le m ts)
      × (count_ge m (sort ts) ≡ count_ge m ts)
      × (count_eq m (sort ts) ≡ count_eq m ts)
      × (length (sort ts) ≡ length ts)
unfolding sort
count-sort m [] = (refl, refl, refl, refl)
count-sort m (t ∷ ts) =
    let (le, ge, eq, len) = count-sort m ts in
    let (le', ge', eq', len') = count-insert_sorted m t (sort ts) in
    (omega arith, omega arith, omega arith, omega arith)

count_ge-All : (m : ℕ) (xs : List ℕ) → All (λ z. m ≤ z) xs → count_ge m xs ≡ length xs
count_ge-All m [] a = refl
count_ge-All m (x ∷ xs) (a, rest) = ground (arith, count_ge-All m xs rest)

-- In a sorted list the item at `i` has `i + 1` items at most as large, itself one of them, and all
-- from `i` on are at least as large.
rank :
    (i : ℕ) (xs : List ℕ)
    → IsSorted xs
    → i < length xs
    → (i + 1 ≤ count_le (get_or xs i 0) xs)
      × (length xs ≤ i + count_ge (get_or xs i 0) xs)
      × (1 ≤ count_eq (get_or xs i 0) xs)
rank i [] s h = absurd (omega arith)
rank zero (x ∷ xs) (a, s) h = ground (arith, count_ge-All x xs a)
rank (suc i) (x ∷ xs) (a, s) h =
    let (le, ge, eq) = rank i xs s (omega arith) in
    let first : x ≤ get_or xs i 0 = from_first xs i a (omega arith) in ground arith
  where
    from_first : (ys : List ℕ) (j : ℕ) → All (λ z. x ≤ z) ys → j < length ys → x ≤ get_or ys j 0
    from_first [] j b k = absurd (omega arith)
    from_first (y ∷ ys) zero (b, bs) k = b
    from_first (y ∷ ys) (suc j) (b, bs) k = from_first ys j bs (omega arith)

-- The median-time-past of eleven times is one of them, at least six of them are at most the
-- median, and at least six are at least the median.
pub median_time_past_rank :
    (times : List ℕ)
    → length times ≡ 11
    → (6 ≤ count_le (median_time_past times) times)
      × (6 ≤ count_ge (median_time_past times) times)
      × (1 ≤ count_eq (median_time_past times) times)
unfolding median_time_past
median_time_past_rank times h =
    let m = median_time_past times in
    let (le, ge, eq, len) = count-sort m times in
    let (le', ge', eq') = rank 5 (sort times) (sort-IsSorted times) (omega arith) in
    (omega arith, omega arith, omega arith)
