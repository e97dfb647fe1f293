-- ===== src/Rows/Meta.antt =====
-- `Meta` of crates/core/src/store.rs: a number or a text, behind a tag byte. A text is the list of
-- its UTF-8 bytes, and `from_utf8_lossy` of the standard library is a parameter.
use rsk.Prelude.{
  ℕ, zero, suc, ◌^◌, ◌<◌, ◌≡◌, refl, ap, Option, none, some, List, ◌∷◌, arith, length, take, leb,
  if◌then◌else◌,
}
use rsk.Bytes.{to_be_bytes, from_be_bytes, slice}
use rsk.Bytes.BigEndian.{length-to_be_bytes, from_be_bytes-to_be_bytes, take-length}

pub data Meta : Type 0 where
  u64 : ℕ → Meta
  text : List ℕ → Meta

unfoldable pub as_u64 : Meta → Option ℕ
as_u64 (u64 value) = some value
as_u64 (text _) = none

unfoldable pub as_text : Meta → Option (List ℕ)
as_text (text t) = some t
as_text (u64 _) = none

pub as_bytes : Meta → List ℕ
as_bytes (u64 number) = 0 ∷ to_be_bytes 8 number
as_bytes (text t) = 1 ∷ t

module _ (from_utf8_lossy : List ℕ → List ℕ) where
  pub from_bytes : List ℕ → Option Meta
  from_bytes (zero ∷ rest) =
      if leb 9 (length (0 ∷ rest)) then some (u64 (from_be_bytes (slice 1 9 (0 ∷ rest)))) else none
  from_bytes (suc zero ∷ rest) = some (text (from_utf8_lossy rest))
  from_bytes _ = none

  -- A number that fits 64 bits, and a text that `from_utf8_lossy` leaves alone.
  abbrev pub IsStorable : Meta → Type 0
  IsStorable (u64 n) = n < 2 ^ 64
  IsStorable (text t) = from_utf8_lossy t ≡ t

  -- A meta value that is storable decodes from its bytes to itself.
  pub meta_from_bytes-as_bytes : (m : Meta) → IsStorable m → from_bytes (as_bytes m) ≡ some m
  unfolding from_bytes as_bytes slice
  meta_from_bytes-as_bytes (u64 n) h =
      let len = length-to_be_bytes 8 n in
      let whole : take 8 (to_be_bytes 8 n) ≡ to_be_bytes 8 n =
        rw len at (take-length (to_be_bytes 8 n)) in
      rw (len, whole, from_be_bytes-to_be_bytes 8 n (omega arith)) refl
  meta_from_bytes-as_bytes (text t) h = ap (λ s. some (text s)) h
