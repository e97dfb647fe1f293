-- ===== src/Btc/Spine/Text.antt =====
-- `str::lines` and `str::trim`, on the code points of a text, and the spine's text read back.
use rsk.Prelude.{
  ℕ, ◌*◌, ◌<◌, ◌≡◌, refl, Bool, true, false, ◌&&◌, ◌||◌, Option, some, List, [], ◌∷◌, ◌++◌, ◌==◌,
  leb, if◌then◌else◌, length, All, arith,
}
use rsk.Bitcoin.{Bitcoin}
use rsk.Result.{Result}
use rsk.Btc.Spine.{parse, without_blanks}

-- `char::is_whitespace`: the code points with the property White_Space.
unfoldable pub is_whitespace : ℕ → Bool
is_whitespace c =
    (leb 9 c && leb c 13)
    || (c == 32)
    || (c == 133)
    || (c == 160)
    || (c == 5760)
    || (leb 8192 c && leb c 8202)
    || (c == 8232)
    || (c == 8233)
    || (c == 8239)
    || (c == 8287)
    || (c == 12288)

abbrev trim_start : List ℕ → List ℕ
trim_start [] = []
trim_start (c ∷ cs) = let rest = trim_start cs in if is_whitespace c then rest else c ∷ cs

abbrev keep_before : ℕ → List ℕ → List ℕ
keep_before c [] = if is_whitespace c then [] else c ∷ []
keep_before c (d ∷ rest) = c ∷ d ∷ rest

abbrev trim_end : List ℕ → List ℕ
trim_end [] = []
trim_end (c ∷ cs) = keep_before c (trim_end cs)

unfoldable pub trim : List ℕ → List ℕ
unfolding is_whitespace
trim text = trim_start (trim_end text)

abbrev starts_new_line : List ℕ → Bool
starts_new_line [] = false
starts_new_line (c ∷ cs) = c == 10

-- A code point of the first line.
abbrev push_front : ℕ → List (List ℕ) → List (List ℕ)
push_front c [] = (c ∷ []) ∷ []
push_front c (line ∷ lines) = (c ∷ line) ∷ lines

-- A line ends at a line feed, or at a carriage return and a line feed, or with the text.
unfoldable pub lines : List ℕ → List (List ℕ)
lines [] = []
lines (c ∷ cs) =
    let rest = lines cs in
    if c == 10
    then [] ∷ rest
    else if (c == 13) && starts_new_line cs
    then rest
    else push_front c rest

-- The `hex` package, which is not in the repository.
pub record Hex : Type 0 where
  pub encode : List ℕ → List ℕ
  pub decode : List ℕ → Option (List ℕ)

unfoldable pub is_hex_digit : ℕ → Bool
is_hex_digit c = (leb 48 c && leb c 57) || (leb 97 c && leb c 102)

abbrev pub IsByte : ℕ → Type 0
IsByte b = b < 256

-- Its documented behaviour: two lowercase digits for a byte, which decode to the byte.
pub record EncodesHex (hex : Hex) : Type 0 where
  pub decode-encode :
      (bytes : List ℕ) → All IsByte bytes → hex.decode (hex.encode bytes) ≡ some bytes
  pub encoded_length : (bytes : List ℕ) → length (hex.encode bytes) ≡ 2 * length bytes
  pub digits : (bytes : List ℕ) → All (λ c. is_hex_digit c ≡ true) (hex.encode bytes)

unfoldable pub parse_text :
    {Header : Type 0} → Bitcoin Header → Hex → List ℕ → Result (List (ℕ × Header))
unfolding lines trim
parse_text lib hex text = parse lib trim hex.decode (lines text)

-- No blanks in it.
abbrev pub IsPlain : List ℕ → Type 0
IsPlain = All (λ c. is_whitespace c ≡ false)

hex_digit_plain : (c : ℕ) → is_hex_digit c ≡ true → is_whitespace c ≡ false
unfolding is_hex_digit is_whitespace
hex_digit_plain c e = ground arith

pub IsPlain-digits : (cs : List ℕ) → All (λ c. is_hex_digit c ≡ true) cs → IsPlain cs
IsPlain-digits [] all = tt
IsPlain-digits (c ∷ cs) all = (hex_digit_plain c all.0, IsPlain-digits cs all.1)

plain_not_break : (c : ℕ) → is_whitespace c ≡ false → ((c == 10) ≡ false) × ((c == 13) ≡ false)
unfolding is_whitespace
plain_not_break c e = (ground arith, ground arith)

trim_end-plain : (cs : List ℕ) → IsPlain cs → trim_end cs ≡ cs
trim_end-plain [] plain = refl
trim_end-plain (c ∷ []) plain = rw plain.0 refl
trim_end-plain (c ∷ d ∷ cs) plain = rw (trim_end-plain (d ∷ cs) plain.1) refl

pub trim-plain : (cs : List ℕ) → IsPlain cs → trim cs ≡ cs
unfolding trim
trim-plain [] plain = refl
trim-plain (c ∷ cs) plain = rw (trim_end-plain (c ∷ cs) plain) (rw plain.0 refl)

pub lines-line : (cs rest : List ℕ) → IsPlain cs → lines (cs ++ 10 ∷ rest) ≡ cs ∷ lines rest
unfolding lines
lines-line [] rest plain = refl
lines-line (c ∷ cs) rest plain =
    let (not_feed, not_return) = plain_not_break c plain.0 in
    rw (not_feed, not_return) (rw (lines-line cs rest plain.1) refl)

pub without_blanks-plain :
    {Header : Type 0} (lib : Bitcoin Header) (hex_decode : List ℕ → Option (List ℕ)) (line : List ℕ)
    (more : List (List ℕ))
    → IsPlain line
    → 0 < length line
    → without_blanks lib trim hex_decode (line ∷ more)
      ≡ line ∷ without_blanks lib trim hex_decode more
unfolding without_blanks
without_blanks-plain lib hex_decode [] more plain some_digits = absurd (omega arith)
without_blanks-plain lib hex_decode (c ∷ cs) more plain some_digits =
    rw (trim-plain (c ∷ cs) plain, without_blanks) refl
