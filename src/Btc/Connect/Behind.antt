-- ===== src/Btc/Connect/Behind.antt =====
-- The headers of a run one by one: the hash that each must name, and the work up to it.
use rsk.Prelude.{
  ℕ, zero, suc, ◌+◌, ◌≤◌, ◌<◌, ◌≡◌, refl, true, some, Option, List, [], ◌∷◌, arith, length,
  get_elem?, take, add_u64,
}
use rsk.Bitcoin.{Bitcoin, Network}
use rsk.Btc.Connect.Run.Valid.{ValidRun, done, next}
use rsk.Btc.Connect.Stored.{works_sum}

module _ {Header : Type 0} where
  pub get_elem?-lt :
      (xs : List Header) (i : ℕ) → i < length xs → (x : Header) × (get_elem? xs i ≡ some x)
  get_elem?-lt [] i lt = absurd (omega arith)
  get_elem?-lt (x ∷ xs) zero lt = (x, refl)
  get_elem?-lt (x ∷ xs) (suc i) lt = get_elem?-lt xs i (omega arith)

  pub get_elem?_lt :
      (xs : List Header) (i : ℕ) (x : Header) → get_elem? xs i ≡ some x → i < length xs
  get_elem?_lt [] i x e = cc e
  get_elem?_lt (y ∷ ys) zero x e = omega arith
  get_elem?_lt (y ∷ ys) (suc i) x e = omega (arith, get_elem?_lt ys i x e)

module _ {Header : Type 0} (lib : Bitcoin Header) where
  -- The hash of the block that the `i`-th header of a run behind `prev` stands on.
  abbrev pub hash_before : ℕ → List Header → ℕ → ℕ
  hash_before prev run zero = prev
  hash_before prev [] (suc i) = prev
  hash_before prev (h ∷ run) (suc i) = hash_before (lib.block_hash h) run i

  pub hash_before-suc :
      (prev : ℕ) (run : List Header) (i : ℕ) (y : Header)
      → get_elem? run i ≡ some y
      → hash_before prev run (suc i) ≡ lib.block_hash y
  hash_before-suc prev [] i y e = cc e
  hash_before-suc prev (h ∷ run) zero y e = let same : h ≡ y = cc e in rw same refl
  hash_before-suc prev (h ∷ run) (suc i) y e = hash_before-suc (lib.block_hash h) run i y e

  pub ValidRun-at :
      (net : Network) (at : ℕ → Option Header) (height prev : ℕ) (run : List Header) (i : ℕ)
      (x : Header)
      → ValidRun lib net at height prev run
      → get_elem? run i ≡ some x
      → (lib.prev_blockhash x ≡ hash_before prev run i) × (lib.pow_ok x ≡ true)
  ValidRun-at net at height prev _ i x done e = cc e
  ValidRun-at net at height prev (h ∷ run) zero x (next v rest) e =
      let same : h ≡ x = cc e in rw (← same) (v.link, v.works)
  ValidRun-at net at height prev (h ∷ run) (suc i) x (next v rest) e =
      ValidRun-at net at (add_u64 height 1) (lib.block_hash h) run i x rest e

  pub works_sum-take-suc :
      (run : List Header) (i : ℕ) (x : Header)
      → get_elem? run i ≡ some x
      → works_sum lib (take (suc i) run) ≡ works_sum lib (take i run) + lib.work x
  works_sum-take-suc [] i x e = cc e
  works_sum-take-suc (h ∷ run) zero x e = let same : h ≡ x = cc e in rw same (omega arith)
  works_sum-take-suc (h ∷ run) (suc i) x e = omega (arith, works_sum-take-suc run i x e)

  pub works_sum-take_le :
      (i : ℕ) (run : List Header) → works_sum lib (take i run) ≤ works_sum lib run
  works_sum-take_le zero run = omega arith
  works_sum-take_le (suc i) [] = omega arith
  works_sum-take_le (suc i) (h ∷ run) = omega (arith, works_sum-take_le i run)
