-- ===== src/Bytes/BigEndian.antt =====
-- The laws of the big-endian forms.
use native.Mathlib.Nat.{
  pow-suc, mod-lt, mod-eq_of_lt, div-add-mod, div-div-eq-div-mul, add-mul-mod_self_right,
}
use rsk.Prelude.{
  ℕ, zero, suc, ◌+◌, ◌*◌, ◌/◌, ◌%◌, ◌^◌, ◌≤◌, ◌<◌, ◌≡◌, refl, sym, ap, ◌∙◌, List, [], ◌∷◌, ◌++◌,
  arith, length, length-append, take, drop,
}
use rsk.Bytes.{to_be_bytes, from_be_bytes, from_be_bytes_acc}

pub length-to_be_bytes : (w n : ℕ) → length (to_be_bytes w n) ≡ w
unfolding to_be_bytes
length-to_be_bytes zero n = refl
length-to_be_bytes (suc w) n =
    omega (
      arith,
      length-append (to_be_bytes w (n / 256)) (n % 256 ∷ []),
      length-to_be_bytes w (n / 256),
    )

from_be_bytes_acc-concat :
    (acc : ℕ) (xs : List ℕ) (b : ℕ)
    → from_be_bytes_acc acc (xs ++ b ∷ []) ≡ from_be_bytes_acc acc xs * 256 + b
from_be_bytes_acc-concat acc [] b = refl
from_be_bytes_acc-concat acc (x ∷ xs) b = from_be_bytes_acc-concat (acc * 256 + x) xs b

-- Reading back an integer that fits its width.
pub from_be_bytes-to_be_bytes : (w n : ℕ) → n < 256 ^ w → from_be_bytes (to_be_bytes w n) ≡ n
unfolding from_be_bytes to_be_bytes
from_be_bytes-to_be_bytes zero n h = omega arith
from_be_bytes-to_be_bytes (suc w) n h = omega (
  arith,
  from_be_bytes_acc-concat 0 (to_be_bytes w (n / 256)) (n % 256),
  from_be_bytes-to_be_bytes w (n / 256) (omega (arith, pow-suc 256 w)),
)

drop-concat :
    (k : ℕ) (xs : List ℕ) (b : ℕ) → k ≤ length xs → drop k (xs ++ b ∷ []) ≡ drop k xs ++ b ∷ []
drop-concat zero xs b h = refl
drop-concat (suc k) [] b h = absurd (omega arith)
drop-concat (suc k) (x ∷ xs) b h = drop-concat k xs b (omega arith)

take-concat : (k : ℕ) (xs : List ℕ) (b : ℕ) → k ≤ length xs → take k (xs ++ b ∷ []) ≡ take k xs
take-concat zero xs b h = refl
take-concat (suc k) [] b h = absurd (omega arith)
take-concat (suc k) (x ∷ xs) b h = ap (λ t. x ∷ t) (take-concat k xs b (omega arith))

drop-length : (xs : List ℕ) → drop (length xs) xs ≡ []
drop-length [] = refl
drop-length (x ∷ xs) = drop-length xs

pub take-length : (xs : List ℕ) → take (length xs) xs ≡ xs
take-length [] = refl
take-length (x ∷ xs) = ap (λ t. x ∷ t) (take-length xs)

-- The last bytes of an integer are those of the integer at the smaller width.
pub drop-to_be_bytes : (k v n : ℕ) → drop k (to_be_bytes (v + k) n) ≡ to_be_bytes v n
unfolding to_be_bytes
drop-to_be_bytes k zero n =
    let e : zero + k ≡ k = omega arith in
    rw e (rw (length-to_be_bytes k n) at (drop-length (to_be_bytes k n)))
drop-to_be_bytes k (suc v) n =
    let e : suc v + k ≡ suc (v + k) = omega arith in
    let xs = to_be_bytes (v + k) (n / 256) in
    rw e (
      drop-concat k xs (n % 256) (omega (arith, length-to_be_bytes (v + k) (n / 256)))
      ∙ ap (λ t. t ++ n % 256 ∷ []) (drop-to_be_bytes k v (n / 256)))

div_pow : (n v : ℕ) → n / 256 / 256 ^ v ≡ n / 256 ^ suc v
div_pow n v = div-div-eq-div-mul n 256 (256 ^ v) ∙ ap (λ t. n / t) (omega (arith, pow-suc 256 v))

pow_pos : (w : ℕ) → 0 < 256 ^ w
pow_pos zero = omega arith
pow_pos (suc w) = omega (arith, pow-suc 256 w, pow_pos w)

mod_pow : (n w : ℕ) → n / 256 % 256 ^ w * 256 + n % 256 ≡ n % 256 ^ suc w
mod_pow n w =
    let m = 256 ^ w in
    let low = n / 256 % m * 256 + n % 256 in
    let below : n / 256 % m < m = mod-lt (n / 256) (pow_pos w) in
    let small : low < 256 ^ suc w = omega (arith, pow-suc 256 w) in
    let whole : low + n / 256 / m * 256 ^ suc w ≡ n =
      omega (arith, div-add-mod (n / 256) m, ap (λ t. n / 256 / m * t) (pow-suc 256 w)) in
    sym (
      ap (λ t. t % 256 ^ suc w) (sym whole)
      ∙ add-mul-mod_self_right low (n / 256 / m) (256 ^ suc w)
      ∙ mod-eq_of_lt small)

-- The first bytes of an integer are those of its quotient.
pub take-to_be_bytes : (k v n : ℕ) → take k (to_be_bytes (v + k) n) ≡ to_be_bytes k (n / 256 ^ v)
unfolding to_be_bytes
take-to_be_bytes k zero n =
    let e : zero + k ≡ k = omega arith in
    let q : n / 256 ^ zero ≡ n = omega arith in
    rw (e, q) (rw (length-to_be_bytes k n) at (take-length (to_be_bytes k n)))
take-to_be_bytes k (suc v) n =
    let e : suc v + k ≡ suc (v + k) = omega arith in
    let xs = to_be_bytes (v + k) (n / 256) in
    rw e (
      take-concat k xs (n % 256) (omega (arith, length-to_be_bytes (v + k) (n / 256)))
      ∙ take-to_be_bytes k v (n / 256)
      ∙ ap (to_be_bytes k) (div_pow n v))

-- Reading back an integer at a smaller width leaves its remainder.
pub from_be_bytes-to_be_bytes_mod : (w n : ℕ) → from_be_bytes (to_be_bytes w n) ≡ n % 256 ^ w
unfolding from_be_bytes to_be_bytes
from_be_bytes-to_be_bytes_mod zero n = omega arith
from_be_bytes-to_be_bytes_mod (suc w) n = omega (
  arith,
  from_be_bytes_acc-concat 0 (to_be_bytes w (n / 256)) (n % 256),
  from_be_bytes-to_be_bytes_mod w (n / 256),
  mod_pow n w,
)

-- A number read in two parts.
from_be_bytes_acc-append :
    (acc : ℕ) (xs ys : List ℕ)
    → from_be_bytes_acc acc (xs ++ ys) ≡ from_be_bytes_acc (from_be_bytes_acc acc xs) ys
from_be_bytes_acc-append acc [] ys = refl
from_be_bytes_acc-append acc (x ∷ xs) ys = from_be_bytes_acc-append (acc * 256 + x) xs ys

from_be_bytes_acc-shift :
    (acc : ℕ) (ys : List ℕ)
    → from_be_bytes_acc acc ys ≡ acc * 256 ^ length ys + from_be_bytes_acc 0 ys
from_be_bytes_acc-shift acc [] = omega arith
from_be_bytes_acc-shift acc (y ∷ ys) = omega (
  arith,
  from_be_bytes_acc-shift (acc * 256 + y) ys,
  from_be_bytes_acc-shift (0 + y) ys,
  ap (λ t. acc * t) (pow-suc 256 (length ys)),
)

pub from_be_bytes-append :
    (xs ys : List ℕ)
    → from_be_bytes (xs ++ ys) ≡ from_be_bytes xs * 256 ^ length ys + from_be_bytes ys
unfolding from_be_bytes
from_be_bytes-append xs ys =
    from_be_bytes_acc-append 0 xs ys ∙ from_be_bytes_acc-shift (from_be_bytes_acc 0 xs) ys
