-- ===== src/Prelude/Word.antt =====
-- Machine words as native numbers: the sums of `u64` and of the 256-bit integers. A plain `+` of
-- Rust wraps in a release build; `saturating_add` stops at the largest value.
use Prim.Native.Nat.{ℕ, ◌+◌, ◌-◌, ◌*◌, ◌%◌, ◌^◌, ◌≤◌, ◌<◌, min}
use mathlib.Core.Path.{◌≡◌}
use native.Mathlib.Omega.{arith}

abbrev pub u64_mod : ℕ
u64_mod = 2 ^ 64

abbrev pub u256_mod : ℕ
u256_mod = 2 ^ 256

abbrev pub add_u64 : ℕ → ℕ → ℕ
add_u64 a b = (a + b) % u64_mod

abbrev pub saturating_add_u64 : ℕ → ℕ → ℕ
saturating_add_u64 a b = min (a + b) (u64_mod - 1)

abbrev pub add_u256 : ℕ → ℕ → ℕ
add_u256 a b = (a + b) % u256_mod

abbrev pub sub_u256 : ℕ → ℕ → ℕ
sub_u256 a b = (a + u256_mod - b) % u256_mod

abbrev pub mul_u256 : ℕ → ℕ → ℕ
mul_u256 a b = a * b % u256_mod

abbrev pub saturating_add_u256 : ℕ → ℕ → ℕ
saturating_add_u256 a b = min (a + b) (u256_mod - 1)

pub add_u64-eq : (a b : ℕ) → a + b < u64_mod → add_u64 a b ≡ a + b
add_u64-eq a b h = omega arith

pub add_u256-eq : (a b : ℕ) → a + b < u256_mod → add_u256 a b ≡ a + b
add_u256-eq a b h = omega arith

pub sub_u256-eq : (a b : ℕ) → b ≤ a → a < u256_mod → sub_u256 a b ≡ a - b
sub_u256-eq a b h k = omega arith
