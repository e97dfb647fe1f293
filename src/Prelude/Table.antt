-- ===== src/Prelude/Table.antt =====
-- A key-value table of the database: what `get` reads after `insert`. redb is a third-party
-- package: the table is a list of rows with distinct keys, which is all that the program reads.
use mathlib.Core.Path.{◌≡◌, refl}
use mathlib.Core.Logic.{◌↔◌}
use mathlib.Core.Bool.{Bool, true, ◌&&◌}
use mathlib.Core.Option.{Option, none, some}
use mathlib.Core.List.{List, [], ◌∷◌}
use native.Mathlib.Omega.{arith}
use Prim.Native.Nat.{ℕ}
use rsk.Prelude.Tests.{if◌then◌else◌, ==_iff, ◌==◌ as nat_beq}

-- A key: its equality test decides equality.
pub record Key {ℓ} (K : Type ℓ) : Type ℓ where
  pub beq : K → K → Bool
  pub beq_iff : (a b : K) → (beq a b ≡ true) ↔ (a ≡ b)

instance abbrev pub nat_key : Key ℕ
nat_key = record { beq = nat_beq; beq_iff = ==_iff }

abbrev pub pair_beq : ℕ × ℕ → ℕ × ℕ → Bool
pair_beq a b = nat_beq a.0 b.0 && nat_beq a.1 b.1

pub pair_beq_iff : (a b : ℕ × ℕ) → (pair_beq a b ≡ true) ↔ (a ≡ b)
pair_beq_iff a b = ground arith

instance abbrev pub pair_key : Key (ℕ × ℕ)
pair_key = record { beq = pair_beq; beq_iff = pair_beq_iff }

abbrev pub Table {ℓ κ} : Type ℓ → Type κ → Type (ℓ ⊔ κ)
Table K V = List (K × V)

module _ {ℓ κ} {K : Type ℓ} {V : Type κ} ⦃e : Key K⦄ where
  unfoldable pub get : Table K V → K → Option V
  get [] j = none
  get ((k, v) ∷ rows) j = if e.beq k j then some v else get rows j

  -- The row of the key is replaced, or added behind the others.
  unfoldable pub insert : Table K V → K → V → Table K V
  insert [] k v = (k, v) ∷ []
  insert ((i, w) ∷ rows) k v = if e.beq i k then (k, v) ∷ rows else (i, w) ∷ insert rows k v

  pub get-insert :
      (t : Table K V) (k : K) (v : V) (j : K)
      → get (insert t k v) j ≡ (if e.beq k j then some v else get t j)
  unfolding get insert
  get-insert [] k v j = refl
  get-insert ((i, w) ∷ rows) k v j =
      ground (arith, e.beq_iff i k, e.beq_iff i j, e.beq_iff k j, get-insert rows k v j)
