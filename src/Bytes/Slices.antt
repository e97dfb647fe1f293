-- ===== src/Bytes/Slices.antt =====
-- The laws of slices and of writes into a buffer.
use rsk.Prelude.{
  ℕ, zero, suc, ◌+◌, ◌-◌, ◌≤◌, ◌≡◌, refl, sym, ◌∙◌, ap, List, [], ◌∷◌, ◌++◌, arith, length, take,
  drop,
}
use rsk.Bytes.{slice, overlay, copy_at}

length-overlay : (seg buf : List ℕ) → length (overlay seg buf) ≡ length buf
unfolding overlay
length-overlay [] buf = refl
length-overlay (s ∷ seg) [] = refl
length-overlay (s ∷ seg) (x ∷ buf) = ap suc (length-overlay seg buf)

pub length-copy_at : (i : ℕ) (seg buf : List ℕ) → length (copy_at i seg buf) ≡ length buf
unfolding copy_at
length-copy_at zero seg buf = length-overlay seg buf
length-copy_at (suc i) seg [] = refl
length-copy_at (suc i) seg (x ∷ buf) = ap suc (length-copy_at i seg buf)

take-overlay :
    (seg buf : List ℕ) → length seg ≤ length buf → take (length seg) (overlay seg buf) ≡ seg
unfolding overlay
take-overlay [] buf h = refl
take-overlay (s ∷ seg) [] h = absurd (omega arith)
take-overlay (s ∷ seg) (x ∷ buf) h = ap (λ t. s ∷ t) (take-overlay seg buf (omega arith))

drop-overlay : (seg buf : List ℕ) (k : ℕ) → length seg ≤ k → drop k (overlay seg buf) ≡ drop k buf
unfolding overlay
drop-overlay [] buf k h = refl
drop-overlay (s ∷ seg) [] k h = refl
drop-overlay (s ∷ seg) (x ∷ buf) zero h = absurd (omega arith)
drop-overlay (s ∷ seg) (x ∷ buf) (suc k) h = drop-overlay seg buf k (omega arith)

take-copy_at :
    (i : ℕ) (seg buf : List ℕ)
    → i + length seg ≤ length buf
    → take (length seg) (drop i (copy_at i seg buf)) ≡ seg
unfolding copy_at
take-copy_at zero seg buf h = take-overlay seg buf (omega arith)
take-copy_at (suc i) seg [] h = absurd (omega arith)
take-copy_at (suc i) seg (x ∷ buf) h = take-copy_at i seg buf (omega arith)

drop-copy_at :
    (i : ℕ) (seg buf : List ℕ) (k : ℕ)
    → i + length seg ≤ k
    → drop k (copy_at i seg buf) ≡ drop k buf
unfolding copy_at
drop-copy_at zero seg buf k h = drop-overlay seg buf k (omega arith)
drop-copy_at (suc i) seg [] k h = refl
drop-copy_at (suc i) seg (x ∷ buf) zero h = absurd (omega arith)
drop-copy_at (suc i) seg (x ∷ buf) (suc k) h = drop-copy_at i seg buf k (omega arith)

take-copy_at_before :
    (i : ℕ) (seg buf : List ℕ) (a n : ℕ)
    → a + n ≤ i
    → take n (drop a (copy_at i seg buf)) ≡ take n (drop a buf)
unfolding copy_at
take-copy_at_before i seg buf a zero h = refl
take-copy_at_before zero seg buf a (suc n) h = absurd (omega arith)
take-copy_at_before (suc i) seg [] a (suc n) h = refl
take-copy_at_before (suc i) seg (x ∷ buf) zero (suc n) h =
    ap (λ t. x ∷ t) (take-copy_at_before i seg buf zero n (omega arith))
take-copy_at_before (suc i) seg (x ∷ buf) (suc a) (suc n) h =
    take-copy_at_before i seg buf a (suc n) (omega arith)

-- A slice at the place of the write is what was written.
pub slice-copy_at_self :
    (i n : ℕ) (seg buf : List ℕ)
    → length seg ≡ n
    → i + n ≤ length buf
    → slice i (i + n) (copy_at i seg buf) ≡ seg
unfolding slice
slice-copy_at_self i n seg buf e h =
    let w : i + n - i ≡ length seg = omega arith in rw w (take-copy_at i seg buf (omega arith))

-- A write changes no slice that ends before it or starts behind it.
pub slice-copy_at_before :
    (a b i : ℕ) (seg buf : List ℕ) → a ≤ b → b ≤ i → slice a b (copy_at i seg buf) ≡ slice a b buf
unfolding slice
slice-copy_at_before a b i seg buf h k = take-copy_at_before i seg buf a (b - a) (omega arith)

pub slice-copy_at_behind :
    (a b i : ℕ) (seg buf : List ℕ)
    → i + length seg ≤ a
    → slice a b (copy_at i seg buf) ≡ slice a b buf
unfolding slice
slice-copy_at_behind a b i seg buf h = ap (take (b - a)) (drop-copy_at i seg buf a h)

take-take_append : (m n : ℕ) (xs : List ℕ) → take (m + n) xs ≡ take m xs ++ take n (drop m xs)
take-take_append zero n xs = let e : zero + n ≡ n = omega arith in rw e
take-take_append (suc m) zero [] = let e : suc m + zero ≡ suc m = omega arith in rw e
take-take_append (suc m) (suc n) [] = let e : suc m + suc n ≡ suc (m + suc n) = omega arith in rw e
take-take_append (suc m) n (x ∷ xs) =
    let e : suc m + n ≡ suc (m + n) = omega arith in
    rw e (ap (λ t. x ∷ t) (take-take_append m n xs))

drop-drop : (m n : ℕ) (xs : List ℕ) → drop n (drop m xs) ≡ drop (m + n) xs
drop-drop zero n xs = let e : zero + n ≡ n = omega arith in rw e
drop-drop (suc m) zero [] = let e : suc m + zero ≡ suc m = omega arith in rw e
drop-drop (suc m) (suc n) [] = let e : suc m + suc n ≡ suc (m + suc n) = omega arith in rw e
drop-drop (suc m) n (x ∷ xs) =
    let e : suc m + n ≡ suc (m + n) = omega arith in rw e (drop-drop m n xs)

-- A slice in two parts.
pub slice-split :
    (a b c : ℕ) (xs : List ℕ) → a ≤ b → b ≤ c → slice a c xs ≡ slice a b xs ++ slice b c xs
unfolding slice
slice-split a b c xs h k =
    let e : c - a ≡ b - a + (c - b) = omega arith in
    let e' : b ≡ a + (b - a) = omega arith in
    rw e (
      take-take_append (b - a) (c - b) (drop a xs)
      ∙ ap (λ t. take (b - a) (drop a xs) ++ take (c - b) t)
          (drop-drop a (b - a) xs ∙ ap (λ t. drop t xs) (sym e')))

take-drop-overlay :
    (seg buf : List ℕ) (a n : ℕ)
    → a + n ≤ length seg
    → length seg ≤ length buf
    → take n (drop a (overlay seg buf)) ≡ take n (drop a seg)
unfolding overlay
take-drop-overlay seg buf a zero h k = refl
take-drop-overlay [] buf a (suc n) h k = absurd (omega arith)
take-drop-overlay (s ∷ seg) [] a (suc n) h k = absurd (omega arith)
take-drop-overlay (s ∷ seg) (x ∷ buf) zero (suc n) h k =
    ap (λ t. s ∷ t) (take-drop-overlay seg buf zero n (omega arith) (omega arith))
take-drop-overlay (s ∷ seg) (x ∷ buf) (suc a) (suc n) h k =
    take-drop-overlay seg buf a (suc n) (omega arith) (omega arith)

take-drop-copy_at :
    (i : ℕ) (seg buf : List ℕ) (a n : ℕ)
    → a + n ≤ length seg
    → i + length seg ≤ length buf
    → take n (drop (i + a) (copy_at i seg buf)) ≡ take n (drop a seg)
unfolding copy_at
take-drop-copy_at zero seg buf a n h k =
    let e : zero + a ≡ a = omega arith in rw e (take-drop-overlay seg buf a n h (omega arith))
take-drop-copy_at (suc i) seg [] a n h k = absurd (omega arith)
take-drop-copy_at (suc i) seg (x ∷ buf) a n h k =
    let e : suc i + a ≡ suc (i + a) = omega arith in
    rw e (take-drop-copy_at i seg buf a n h (omega arith))

-- A slice inside what was written.
pub slice-copy_at_inner :
    (a b i : ℕ) (seg buf : List ℕ)
    → i ≤ a
    → a ≤ b
    → b ≤ i + length seg
    → i + length seg ≤ length buf
    → slice a b (copy_at i seg buf) ≡ slice (a - i) (b - i) seg
unfolding slice
slice-copy_at_inner a b i seg buf p q r h =
    let n : b - i - (a - i) ≡ b - a = omega arith in
    let e : i + (a - i) ≡ a = omega arith in
    rw n (rw e at (take-drop-copy_at i seg buf (a - i) (b - a) (omega arith) h))

take_whole : (n : ℕ) (xs : List ℕ) → length xs ≡ n → take n xs ≡ xs
take_whole zero [] e = refl
take_whole zero (x ∷ xs) e = absurd (omega arith)
take_whole (suc n) [] e = refl
take_whole (suc n) (x ∷ xs) e = ap (λ t. x ∷ t) (take_whole n xs (omega arith))

-- The slice of all of a byte string.
pub slice_whole : (n : ℕ) (xs : List ℕ) → length xs ≡ n → slice 0 n xs ≡ xs
unfolding slice
slice_whole n xs e = let w : n - 0 ≡ n = omega arith in rw w (take_whole n xs e)

drop-append : (xs ys : List ℕ) → drop (length xs) (xs ++ ys) ≡ ys
drop-append [] ys = refl
drop-append (x ∷ xs) ys = drop-append xs ys

take-append : (xs ys : List ℕ) → take (length xs) (xs ++ ys) ≡ xs
take-append [] ys = refl
take-append (x ∷ xs) ys = ap (λ t. x ∷ t) (take-append xs ys)

-- The slice between two parts of a byte string.
pub slice-middle :
    (a b : ℕ) (front seg rest : List ℕ)
    → length front ≡ a
    → a + length seg ≡ b
    → slice a b (front ++ (seg ++ rest)) ≡ seg
unfolding slice
slice-middle a b front seg rest e w =
    let n : b - a ≡ length seg = omega arith in
    rw n (rw (← e) (rw drop-append (take-append seg rest)))

-- Taking and dropping the first part of a byte string.
pub take-append_of_length : (n : ℕ) (xs ys : List ℕ) → length xs ≡ n → take n (xs ++ ys) ≡ xs
take-append_of_length n xs ys e = rw (← e) (take-append xs ys)

pub drop-append_of_length : (n : ℕ) (xs ys : List ℕ) → length xs ≡ n → drop n (xs ++ ys) ≡ ys
drop-append_of_length n xs ys e = rw (← e) (drop-append xs ys)
