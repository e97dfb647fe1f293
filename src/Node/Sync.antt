-- ===== src/Node/Sync.antt =====
-- The locator and the choice of the next peer, of crates/rsk/src/sync.rs.
use rsk.Prelude.{
  ℕ, zero, suc, ◌+◌, ◌-◌, ◌%◌, ◌≤◌, ◌≡◌, refl, Bool, true, false, Option, none, some, List, [], ◌∷◌,
  ◌++◌, ◌==◌, length, get_or, if◌then◌else◌, arith, Bool-cases, inl, inr,
}
use rsk.Bitcoin.{Bitcoin}
use rsk.Btc.Store.Meta.{Chain}
use rsk.Btc.Query.{tip_height, canonical_header_at}

abbrev pub last? : List ℕ → Option ℕ
last? [] = none
last? (x ∷ []) = some x
last? (x ∷ y ∷ ys) = last? (y ∷ ys)

abbrev pub is_last : ℕ → Option ℕ → Bool
is_last hash none = false
is_last hash (some x) = x == hash

module _ {Header : Type 0} (lib : Bitcoin Header) (core : Chain Header) where
  abbrev pub with_hash : Option Header → List ℕ → List ℕ
  with_hash none rest = rest
  with_hash (some h) rest = lib.block_hash h ∷ rest

  -- The stored hashes of `n` heights, downwards.
  unfoldable pub recent : ℕ → ℕ → List ℕ
  recent zero height = []
  recent (suc n) height =
      let rest = recent n (height - 1) in with_hash (canonical_header_at core height) rest

  -- Genesis is added unless it is the last one already.
  abbrev pub with_genesis : List ℕ → Option Header → List ℕ
  with_genesis out none = out
  with_genesis out (some genesis) =
      if is_last (lib.block_hash genesis) (last? out)
      then out
      else out ++ lib.block_hash genesis ∷ []

  -- The heights are those from `tip.saturating_sub(9)` to the tip.
  unfoldable pub locator : List ℕ
  locator = elim (tip_height core) [
    | none ↦ []
    | some tip ↦ with_genesis (recent (suc (tip - (tip - 9))) tip) (canonical_header_at core 0)
  ]

abbrev pub first_alive : List Bool → ℕ → List ℕ → Option ℕ
first_alive alive n [] = none
first_alive alive n (p ∷ ps) =
    let rest = first_alive alive n ps in if get_or alive p false then some p else rest

-- `(1..=n).map(|step| (from + step) % n)`, from a step on.
abbrev pub round_from : ℕ → ℕ → ℕ → ℕ → List ℕ
round_from n from step zero = []
round_from n from step (suc k) = (from + step) % n ∷ round_from n from (step + 1) k

unfoldable pub next_alive : List Bool → ℕ → Option ℕ
next_alive alive from =
    first_alive alive (length alive) (round_from (length alive) from 1 (length alive))

last?-append : (xs : List ℕ) (x : ℕ) → last? (xs ++ x ∷ []) ≡ some x
last?-append [] x = refl
last?-append (y ∷ []) x = refl
last?-append (y ∷ z ∷ xs) x = last?-append (z ∷ xs) x

length-append_one : (xs : List ℕ) (x : ℕ) → length (xs ++ x ∷ []) ≡ suc (length xs)
length-append_one [] x = refl
length-append_one (y ∷ xs) x = omega (arith, length-append_one xs x)

module _ {Header : Type 0} (lib : Bitcoin Header) (core : Chain Header) where
  length-recent : (n height : ℕ) → length (recent lib core n height) ≤ n
  unfolding recent
  length-recent zero height = omega arith
  length-recent (suc n) height =
      one_more (canonical_header_at core height) (recent lib core n (height - 1))
        (length-recent n (height - 1))
    where
      one_more :
          (o : Option Header) (rest : List ℕ)
          → length rest ≤ n
          → length (with_hash lib core o rest) ≤ suc n
      one_more none rest le = omega arith
      one_more (some h) rest le = omega arith

  with_genesis_ends :
      (out : List ℕ) (genesis : Header)
      → length out ≤ 10
      → (last? (with_genesis lib core out (some genesis)) ≡ some (lib.block_hash genesis))
        × (length (with_genesis lib core out (some genesis)) ≤ 11)
  with_genesis_ends out genesis le =
      elim (Bool-cases (is_last (lib.block_hash genesis) (last? out))) [
        | inl known ↦ rw known (is_last-eq (last? out) known, omega arith)
        | inr new ↦ rw new (
          last?-append out (lib.block_hash genesis),
          omega (arith, length-append_one out (lib.block_hash genesis)),
        )
      ]
    where
      is_last-eq :
          (o : Option ℕ)
          → is_last (lib.block_hash genesis) o ≡ true
          → o ≡ some (lib.block_hash genesis)
      is_last-eq none e = cc e
      is_last-eq (some x) e = ground arith

  -- On a chain with a tip and its genesis block, the locator ends with genesis and names at most
  -- eleven blocks.
  pub locator_ends :
      (tip : ℕ) (genesis : Header)
      → tip_height core ≡ some tip
      → canonical_header_at core 0 ≡ some genesis
      → (last? (locator lib core) ≡ some (lib.block_hash genesis))
        × (length (locator lib core) ≤ 11)
  unfolding locator
  locator_ends tip genesis is there =
      rw (is, locator)
        (rw there (
          with_genesis_ends (recent lib core (suc (tip - (tip - 9))) tip) genesis
            (omega (arith, length-recent (suc (tip - (tip - 9))) tip))))
