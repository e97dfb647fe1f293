-- ===== src/Bytes.antt =====
-- Byte strings as lists of numbers below 256: the big-endian forms of the integers
-- (`to_be_bytes`, `from_be_bytes`), the slice `data[a..b]`, and `copy_from_slice` into a buffer.
-- A 32-byte hash stands for the number that its bytes spell in big-endian order, so that the order
-- and the equality of hashes are those of numbers.
pub mod BigEndian
pub mod Slices
use rsk.Prelude.{ℕ, zero, suc, ◌+◌, ◌-◌, ◌*◌, ◌/◌, ◌%◌, List, [], ◌∷◌, ◌++◌, take, drop}

-- `n.to_be_bytes()`, for an integer of `w` bytes.
unfoldable pub to_be_bytes : ℕ → ℕ → List ℕ
to_be_bytes zero n = []
to_be_bytes (suc w) n = to_be_bytes w (n / 256) ++ n % 256 ∷ []

abbrev pub from_be_bytes_acc : ℕ → List ℕ → ℕ
from_be_bytes_acc acc [] = acc
from_be_bytes_acc acc (b ∷ bs) = from_be_bytes_acc (acc * 256 + b) bs

unfoldable pub from_be_bytes : List ℕ → ℕ
from_be_bytes bs = from_be_bytes_acc 0 bs

-- `data[a..b]`
unfoldable pub slice : ℕ → ℕ → List ℕ → List ℕ
slice a b xs = take (b - a) (drop a xs)

pub overlay : List ℕ → List ℕ → List ℕ
overlay [] buf = buf
overlay (s ∷ seg) [] = []
overlay (s ∷ seg) (x ∷ buf) = s ∷ overlay seg buf

-- `buf[at..at + seg.len()].copy_from_slice(seg)`
unfoldable pub copy_at : ℕ → List ℕ → List ℕ → List ℕ
unfolding overlay
copy_at zero seg buf = overlay seg buf
copy_at (suc i) seg [] = []
copy_at (suc i) seg (x ∷ buf) = x ∷ copy_at i seg buf
