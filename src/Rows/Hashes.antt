-- ===== src/Rows/Hashes.antt =====
-- `HashList` of crates/core/src/store/rsk.rs: 32-byte hashes one behind another.
use rsk.Prelude.{
  ℕ, zero, suc, ◌-◌, ◌*◌, ◌/◌, ◌^◌, ◌≤◌, ◌<◌, ◌≡◌, refl, ap, ◌∙◌, List, [], ◌∷◌, ◌++◌, arith,
  length, take, min, drop, min, length-append, length-take, length-drop, All, ◌==◌, if◌then◌else◌,
}
use mathlib.Core.List.{append_assoc}
use rsk.Bytes.{to_be_bytes, from_be_bytes}
use rsk.Bytes.BigEndian.{length-to_be_bytes, from_be_bytes-to_be_bytes}
use rsk.Bytes.Slices.{take-append_of_length, drop-append_of_length}

-- `data.chunks(32)`, with the rounds that are left as fuel; the last chunk may be shorter.
pub chunks : ℕ → List ℕ → List (List ℕ)
chunks zero xs = []
chunks (suc fuel) [] = []
chunks (suc fuel) (x ∷ xs) = take 32 (x ∷ xs) ∷ chunks fuel (drop 32 (x ∷ xs))

-- `.filter(|chunk| chunk.len() == 32).map(...)`
pub whole_chunks : List (List ℕ) → List ℕ
whole_chunks [] = []
whole_chunks (c ∷ cs) =
    if length c == 32 then from_be_bytes c ∷ whole_chunks cs else whole_chunks cs

-- A chunk takes at least one byte, so the length is fuel enough.
unfoldable pub from_bytes : List ℕ → List ℕ
unfolding chunks whole_chunks
from_bytes bytes = whole_chunks (chunks (length bytes) bytes)

unfoldable pub as_bytes : List ℕ → List ℕ
as_bytes [] = []
as_bytes (h ∷ hs) = to_be_bytes 32 h ++ as_bytes hs

chunks_step :
    (fuel : ℕ) (h : ℕ) (rest : List ℕ)
    → chunks (suc fuel) (to_be_bytes 32 h ++ rest) ≡ to_be_bytes 32 h ∷ chunks fuel rest
chunks_step fuel h rest =
    nonempty (to_be_bytes 32 h ++ rest)
      (omega (arith, length-append (to_be_bytes 32 h) rest, length-to_be_bytes 32 h))
    ∙ ap (λ t. t ∷ chunks fuel (drop 32 (to_be_bytes 32 h ++ rest)))
        (take-append_of_length 32 (to_be_bytes 32 h) rest (length-to_be_bytes 32 h))
    ∙ ap (λ t. to_be_bytes 32 h ∷ chunks fuel t)
        (drop-append_of_length 32 (to_be_bytes 32 h) rest (length-to_be_bytes 32 h))
  where
    nonempty :
        (xs : List ℕ) → 0 < length xs → chunks (suc fuel) xs ≡ take 32 xs ∷ chunks fuel (drop 32 xs)
    nonempty [] h = absurd (omega arith)
    nonempty (x ∷ xs) h = unfold chunks in refl

pub length-as_bytes : (hs : List ℕ) → length (as_bytes hs) ≡ 32 * length hs
unfolding as_bytes
length-as_bytes [] = omega arith
length-as_bytes (h ∷ hs) = omega (
  arith,
  length-append (to_be_bytes 32 h) (as_bytes hs),
  length-to_be_bytes 32 h,
  length-as_bytes hs,
)

length-whole_chunks_cons :
    (c : List ℕ) (cs : List (List ℕ))
    → length (whole_chunks (c ∷ cs))
      ≡ (if length c == 32 then suc (length (whole_chunks cs)) else length (whole_chunks cs))
unfolding whole_chunks
length-whole_chunks_cons c cs = ground arith

count_chunk :
    (n m r q : ℕ) → m ≡ min 32 n → r ≡ n - 32 → q ≡ r / 32 → (if m == 32 then suc q else q) ≡ n / 32
count_chunk n m r q e f g = ground arith

length-whole_chunks :
    (fuel : ℕ) (xs : List ℕ)
    → length xs ≤ fuel
    → length (whole_chunks (chunks fuel xs)) ≡ length xs / 32
length-whole_chunks zero [] h = unfold chunks whole_chunks in omega arith
length-whole_chunks zero (x ∷ xs) h = absurd (omega arith)
length-whole_chunks (suc fuel) [] h = unfold chunks whole_chunks in omega arith
length-whole_chunks (suc fuel) (x ∷ xs) h =
    cons (x ∷ xs) (length-whole_chunks fuel (drop 32 (x ∷ xs)) (short (x ∷ xs) h))
      (unfold chunks in refl)
  where
    short : (ys : List ℕ) → length ys ≤ suc fuel → length (drop 32 ys) ≤ fuel
    short ys k = omega (arith, length-drop 32 ys)

    cons :
        (ys : List ℕ)
        → length (whole_chunks (chunks fuel (drop 32 ys))) ≡ length (drop 32 ys) / 32
        → chunks (suc fuel) (x ∷ xs) ≡ take 32 ys ∷ chunks fuel (drop 32 ys)
        → length (whole_chunks (chunks (suc fuel) (x ∷ xs))) ≡ length ys / 32
    cons ys ih e = rw e (
        length-whole_chunks_cons (take 32 ys) (chunks fuel (drop 32 ys))
        ∙ count_chunk (length ys) (length (take 32 ys)) (length (drop 32 ys)) _ (length-take 32 ys)
            (length-drop 32 ys) ih)

-- Fewer bytes than a hash has are no hash.
whole_chunks-short :
    (fuel : ℕ) (rest : List ℕ)
    → length rest ≤ fuel
    → length rest < 32
    → whole_chunks (chunks fuel rest) ≡ []
whole_chunks-short fuel rest h short =
    empty (whole_chunks (chunks fuel rest)) (omega (arith, length-whole_chunks fuel rest h))
  where
    empty : (hs : List ℕ) → length hs ≡ 0 → hs ≡ []
    empty [] e = refl
    empty (x ∷ hs) e = absurd (omega arith)

whole_chunks-chunks :
    (hs : List ℕ) (fuel : ℕ) (rest : List ℕ)
    → All (λ h. h < 2 ^ 256) hs
    → length rest < 32
    → length (as_bytes hs ++ rest) ≤ fuel
    → whole_chunks (chunks fuel (as_bytes hs ++ rest)) ≡ hs
unfolding whole_chunks as_bytes
whole_chunks-chunks [] fuel rest small short h = whole_chunks-short fuel rest h short
whole_chunks-chunks (x ∷ hs) zero rest small short h = absurd (
    omega (
      arith,
      length-append (to_be_bytes 32 x ++ as_bytes hs) rest,
      length-append (to_be_bytes 32 x) (as_bytes hs),
      length-to_be_bytes 32 x,
    ))
whole_chunks-chunks (x ∷ hs) (suc fuel) rest (x_small, small) short h =
    let split = append_assoc (to_be_bytes 32 x) (as_bytes hs) rest in
    let le : length (as_bytes hs ++ rest) ≤ fuel = omega (
      arith,
      ap length split,
      length-append (to_be_bytes 32 x) (as_bytes hs ++ rest),
      length-to_be_bytes 32 x,
    ) in
    ap (λ bytes. whole_chunks (chunks (suc fuel) bytes)) split
    ∙ rw
        (
          chunks_step fuel x (as_bytes hs ++ rest),
          length-to_be_bytes 32 x,
          from_be_bytes-to_be_bytes 32 x x_small,
        )
        (ap (λ t. x ∷ t) (whole_chunks-chunks hs fuel rest small short le))

-- A list of hashes decodes from its bytes to itself, and fewer bytes than a hash has behind them are
-- dropped.
pub hashes_from_bytes-as_bytes :
    (hs rest : List ℕ)
    → All (λ h. h < 2 ^ 256) hs
    → length rest < 32
    → from_bytes (as_bytes hs ++ rest) ≡ hs
unfolding from_bytes
hashes_from_bytes-as_bytes hs rest small short =
    whole_chunks-chunks hs (length (as_bytes hs ++ rest)) rest small short (omega arith)

-- Any byte string decodes to one hash for each whole run of 32 bytes.
length-from_bytes : (bytes : List ℕ) → length (from_bytes bytes) ≡ length bytes / 32
unfolding from_bytes
length-from_bytes bytes = length-whole_chunks (length bytes) bytes (omega arith)
