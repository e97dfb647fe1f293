-- ===== src/Btc/Spine.antt =====
-- The embedded checkpoint spine, crates/core/src/btc/checkpoints.rs. A text is the list of its
-- bytes; `hex::decode` is a parameter, and `trim` that of `Text`.
pub mod Text
use rsk.Prelude.{
  ℕ, zero, suc, ◌+◌, ◌*◌, ◌%◌, ◌<◌, ◌≡◌, refl, true, Option, none, some, List, [], ◌∷◌, ◌==◌,
  length, u64_mod, arith, inl, inr, get_elem?, add_u64,
}
use rsk.Bitcoin.{Bitcoin}
use rsk.Result.{Result, ok, err, guard, checkpoint_format, ◌>>=◌, ◌>>◌, Result-cases}
use rsk.Btc.Validation.{difficulty_period}
use rsk.Btc.Store.Seed.{is_contiguous}

module _ {Header : Type 0} (lib : Bitcoin Header) (trim : List ℕ → List ℕ)
    (hex_decode : List ℕ → Option (List ℕ)) where
  -- `CHECKPOINTS.lines().filter(|l| !l.trim().is_empty())`
  unfoldable pub without_blanks : List (List ℕ) → List (List ℕ)
  without_blanks [] = []
  without_blanks (line ∷ lines) =
      let rest = without_blanks lines in elim (trim line) [ [] ↦ rest | c ∷ cs ↦ line ∷ rest ]

  abbrev or_format {ℓ} : {A : Type ℓ} → ℕ → Option A → Result A
  or_format i none = err (checkpoint_format i)
  or_format i (some a) = ok a

  unfoldable pub parse_line : ℕ → List ℕ → Result Header
  parse_line i line = do
    bytes ← or_format i (hex_decode (trim line))
    guard (length bytes == 80) (checkpoint_format i)
    or_format i (lib.consensus_decode bytes)

  -- The loop, from the line `i` on.
  unfoldable pub parse_lines : ℕ → List (List ℕ) → Result (List (ℕ × Header))
  parse_lines i [] = ok []
  parse_lines i (line ∷ lines) =
      let rest = parse_lines (i + 1) lines in
      parse_line i line >>= λ header.
      rest >>= λ entries. ok ((i * difficulty_period % u64_mod, header) ∷ entries)

  unfoldable pub parse : List (List ℕ) → Result (List (ℕ × Header))
  parse lines = parse_lines 0 (without_blanks lines)

  parse_lines-cons :
      (i : ℕ) (line : List ℕ) (lines : List (List ℕ)) (out : List (ℕ × Header))
      → parse_lines i (line ∷ lines) ≡ ok out
      → (header : Header) × (entries : List (ℕ × Header)) × (parse_lines (i + 1) lines ≡ ok entries)
        × (out ≡ (i * difficulty_period % u64_mod, header) ∷ entries)
  unfolding parse_lines
  parse_lines-cons i line lines out e = elim (Result-cases (parse_line i line)) [
    | inr (x, failed) ↦ cc (rw failed at e)
    | inl (header, parsed) ↦ elim (Result-cases (parse_lines (i + 1) lines)) [
      | inr (x, failed) ↦ cc (rw (parsed, failed) at e)
      | inl (entries, rest) ↦ (header, entries, rest, cc (rw (parsed, rest) at e))
    ]
  ]

  is_contiguous_cons :
      (h : ℕ) (header : Header) (entries : List (ℕ × Header))
      → ((e : ℕ × Header) → get_elem? entries 0 ≡ some e → e.0 ≡ add_u64 h difficulty_period)
      → is_contiguous entries ≡ true
      → is_contiguous ((h, header) ∷ entries) ≡ true
  unfolding is_contiguous
  is_contiguous_cons h header [] next rest = refl
  is_contiguous_cons h header (e ∷ entries) next rest = ground (arith, next e refl)

  heights_cons :
      (i h k : ℕ) (header : Header) (entries : List (ℕ × Header)) (e : ℕ × Header)
      → h ≡ i * difficulty_period
      → ((j : ℕ) (e : ℕ × Header)
          → get_elem? entries j ≡ some e
          → e.0 ≡ (i + 1 + j) * difficulty_period)
      → get_elem? ((h, header) ∷ entries) k ≡ some e
      → e.0 ≡ (i + k) * difficulty_period
  heights_cons i h zero header entries e at rest found =
      let same : h ≡ e.0 = cc found in omega arith
  heights_cons i h (suc k) header entries e at rest found = omega (arith, rest k e found)

  -- The entries of the lines from the line `i` on.
  pub record Placed (i : ℕ) (lines : List (List ℕ)) (out : List (ℕ × Header)) : Type 0 where
    pub contiguous : is_contiguous out ≡ true
    pub all_lines : length out ≡ length lines
    pub heights :
        (k : ℕ) (e : ℕ × Header) → get_elem? out k ≡ some e → e.0 ≡ (i + k) * difficulty_period

  parse_lines-Placed :
      (i : ℕ) (lines : List (List ℕ)) (out : List (ℕ × Header))
      → (i + length lines) * difficulty_period < u64_mod
      → parse_lines i lines ≡ ok out
      → Placed i lines out
  unfolding parse_lines is_contiguous
  parse_lines-Placed i [] out fits e =
      let none_left : [] ≡ out = cc e in
      rw (← none_left)
        (record { contiguous = refl; all_lines = refl; heights = λ k e never. cc never })
  parse_lines-Placed i (line ∷ lines) out fits e =
      let (header, entries, rest, is) = parse_lines-cons i line lines out e in
      let placed = parse_lines-Placed (i + 1) lines entries (omega arith) rest in
      let at : i * difficulty_period % u64_mod ≡ i * difficulty_period = omega arith in
      rw is (record {
        contiguous =
            is_contiguous_cons (i * difficulty_period % u64_mod) header entries
              (λ e first. omega (arith, placed.heights 0 e first)) placed.contiguous;
        all_lines = omega (arith, placed.all_lines);
        heights = λ k e.
            heights_cons i (i * difficulty_period % u64_mod) k header entries e at placed.heights;
      })

  -- A spine that parses has one entry for each line that is not blank, the entry `k` at the height
  -- `k * 2016`, and its heights pass the check of `seed_checkpoints`.
  pub parse-Placed :
      (lines : List (List ℕ)) (out : List (ℕ × Header))
      → length (without_blanks lines) * difficulty_period < u64_mod
      → parse lines ≡ ok out
      → Placed 0 (without_blanks lines) out
  unfolding parse
  parse-Placed lines out fits e = parse_lines-Placed 0 (without_blanks lines) out (omega arith) e
