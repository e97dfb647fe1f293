-- ===== src/Result.antt =====
-- `Error` of crates/core/src/error.rs without the texts of its messages, and the results of
-- fallible methods. The database's own errors do not occur: storage is taken to work. `panic` is no
-- value of the source: it stands for a panic, which drops the transaction like an error.
use rsk.Prelude.{ℕ, Bool, if◌then◌else◌, ◌≡◌, refl, ◌⊎◌, inl, inr}
use rsk.Bitcoin.{Network}

pub data Error : Type 0 where
  unseeded already_seeded rootstock internal panic : Error
  checkpoint_format : ℕ → Error
  unknown_ancestor : ℕ → Error
  bad_pow : ℕ → Error
  bad_difficulty : ℕ → ℕ → ℕ → Error
  bad_timestamp : ℕ → ℕ → ℕ → Error
  link_break : ℕ → ℕ → Error
  network_mismatch : Network → Network → Error
  fork_below_finalized : ℕ → ℕ → Error

-- What a fallible method returns: the error it stopped with, or its value.
pub data Result {ℓ} (A : Type ℓ) : Type ℓ where
  err : Error → Result A
  ok : A → Result A

-- The result of a check, `Result<(), Error>`.
abbrev pub Check : Type 0
Check = Result (Unit {0})

infixl 5 ◌>>=◌ ◌>>◌
-- `?` on a result, and what the method does with the value.
abbrev pub ◌>>=◌ {κ ℓ} : {B : Type κ} {A : Type ℓ} → Result A → (A → Result B) → Result B
err stop >>= next = err stop
ok value >>= next = next value

abbrev pub ◌>>◌ {κ} : {B : Type κ} → Check → Result B → Result B
check >> rest = check >>= λ _. rest

-- A check that ends the method with an error where it fails.
abbrev pub guard : Bool → Error → Check
guard passed failure = if passed then ok tt else err failure

-- The first step of a chain that succeeded, and the rest of the chain.
pub chain-eq-ok {κ ℓ} :
    {B : Type κ} {A : Type ℓ} (first : Result A) (next : A → Result B) {last : B}
    → (first >>= next) ≡ ok last
    → (value : A) × (first ≡ ok value) × (next value ≡ ok last)
chain-eq-ok (err stop) next done = cc
chain-eq-ok (ok value) next done = (value, refl, done)

pub Result-cases {ℓ} :
    {A : Type ℓ} (r : Result A) → ((a : A) × (r ≡ ok a)) ⊎ ((e : Error) × (r ≡ err e))
Result-cases (err e) = inr (e, refl)
Result-cases (ok a) = inl (a, refl)
