-- ===== src/Node/Export.antt =====
-- `export_checkpoints` of crates/rsk/src/node.rs, and its text read back by the spine's parser.
use rsk.Prelude.{
  ℕ, zero, suc, ◌+◌, ◌*◌, ◌/◌, ◌%◌, ◌<◌, ◌≤◌, ◌≡◌, refl, ap, sym, ◌∙◌, true, none, some, List, [],
  ◌∷◌, ◌++◌, leb, All, arith, u64_mod, add_u64,
}
use rsk.Bitcoin.{Bitcoin, EncodesHeaders}
use rsk.Result.{ok}
use rsk.Btc.Validation.{difficulty_period}
use rsk.Btc.Store.Meta.{Chain, best_fork, finalized}
use rsk.Btc.Store.Walk.{header_at}
use rsk.Btc.Query.{finalized_checkpoints, checkpoints_loop}
use rsk.Btc.Spine.{parse, parse_lines, parse_line, without_blanks}
use rsk.Btc.Spine.Text.{
  Hex, EncodesHex, IsByte, IsPlain, IsPlain-digits, trim, trim-plain, lines, lines-line,
  without_blanks-plain, parse_text,
}

pub data Exported : Type 0 where
  not_seeded : Exported
  no_checkpoints : ℕ → Exported
  text : List ℕ → Exported

module _ {Header : Type 0} (lib : Bitcoin Header) (hex : Hex) where
  -- One line for each header.
  unfoldable pub checkpoint_text : List (ℕ × Header) → List ℕ
  checkpoint_text [] = []
  checkpoint_text (e ∷ entries) =
      hex.encode (lib.consensus_encode e.1) ++ 10 ∷ checkpoint_text entries

  abbrev pub exported : ℕ → List (ℕ × Header) → Exported
  unfolding checkpoint_text
  exported last [] = no_checkpoints last
  exported last (e ∷ entries) = text (checkpoint_text (e ∷ entries))

  unfoldable pub export_checkpoints : Chain Header → Exported
  unfolding checkpoint_text
  export_checkpoints core = elim (finalized core) [
    | none ↦ not_seeded
    | some last ↦ exported last (finalized_checkpoints core)
  ]

-- The headers of entries, numbered by period from `i` on.
abbrev pub numbered : {Header : Type 0} → ℕ → List (ℕ × Header) → List (ℕ × Header)
numbered i [] = []
numbered i (e ∷ entries) = (i * difficulty_period % u64_mod, e.1) ∷ numbered (i + 1) entries

module _ {Header : Type 0} (lib : Bitcoin Header) (hex : Hex) (encodes : EncodesHeaders lib)
    (hexes : EncodesHex hex) (bytes : (h : Header) → All IsByte (lib.consensus_encode h)) where
  abbrev line_of : Header → List ℕ
  line_of h = hex.encode (lib.consensus_encode h)

  lines_of : List (ℕ × Header) → List (List ℕ)
  lines_of [] = []
  lines_of (e ∷ entries) = line_of e.1 ∷ lines_of entries

  line_of-IsPlain : (h : Header) → IsPlain (line_of h)
  line_of-IsPlain h = IsPlain-digits (line_of h) (hexes.digits (lib.consensus_encode h))

  lines-checkpoint_text :
      (entries : List (ℕ × Header)) → lines (checkpoint_text lib hex entries) ≡ lines_of entries
  unfolding checkpoint_text lines_of lines
  lines-checkpoint_text [] = refl
  lines-checkpoint_text (e ∷ entries) =
      lines-line (line_of e.1) (checkpoint_text lib hex entries) (line_of-IsPlain e.1)
      ∙ ap (λ ls. line_of e.1 ∷ ls) (lines-checkpoint_text entries)

  without_blanks-lines_of :
      (entries : List (ℕ × Header))
      → without_blanks lib trim hex.decode (lines_of entries) ≡ lines_of entries
  unfolding without_blanks lines_of
  without_blanks-lines_of [] = refl
  without_blanks-lines_of (e ∷ entries) =
      without_blanks-plain lib hex.decode (line_of e.1) (lines_of entries) (line_of-IsPlain e.1)
        (omega (arith, hexes.encoded_length (lib.consensus_encode e.1), encodes.encoded_length e.1))
      ∙ ap (λ ls. line_of e.1 ∷ ls) (without_blanks-lines_of entries)

  parse_line-line_of : (i : ℕ) (h : Header) → parse_line lib trim hex.decode i (line_of h) ≡ ok h
  unfolding parse_line
  parse_line-line_of i h = rw (trim-plain (line_of h) (line_of-IsPlain h)) (
      rw (hexes.decode-encode (lib.consensus_encode h) (bytes h))
        (rw (encodes.encoded_length h) (rw (encodes.decode-encode h) refl)))

  parse_lines-lines_of :
      (i : ℕ) (entries : List (ℕ × Header))
      → parse_lines lib trim hex.decode i (lines_of entries) ≡ ok (numbered i entries)
  unfolding parse_lines lines_of
  parse_lines-lines_of i [] = refl
  parse_lines-lines_of i (e ∷ entries) =
      rw (parse_line-line_of i e.1) (rw (parse_lines-lines_of (i + 1) entries) refl)

  parse_text-checkpoint_text :
      (entries : List (ℕ × Header))
      → parse_text lib hex (checkpoint_text lib hex entries) ≡ ok (numbered 0 entries)
  unfolding parse_text parse
  parse_text-checkpoint_text entries =
      rw (lines-checkpoint_text entries)
        (rw (without_blanks-lines_of entries) (parse_lines-lines_of 0 entries))

-- The boundaries from the period `k` on, with the headers that a chain has there.
abbrev pub boundaries : {Header : Type 0} → (ℕ → Header) → ℕ → ℕ → List (ℕ × Header)
boundaries at zero k = []
boundaries at (suc n) k = (k * difficulty_period, at k) ∷ boundaries at n (k + 1)

numbered-boundaries :
    {Header : Type 0} (at : ℕ → Header) (n k : ℕ)
    → (k + n) * difficulty_period < u64_mod + difficulty_period
    → numbered k (boundaries at n k) ≡ boundaries at n k
numbered-boundaries at zero k fits = refl
numbered-boundaries at (suc n) k fits =
    let same : k * difficulty_period % u64_mod ≡ k * difficulty_period = omega arith in
    rw (same, numbered-boundaries at n (k + 1) (omega arith)) refl

module _ {Header : Type 0} (core : Chain Header) (best last : ℕ) (small : last < u64_mod)
    (at : ℕ → Header)
    (stored : (k : ℕ)
      → k * difficulty_period ≤ last
      → header_at core best (k * difficulty_period) ≡ some (at k)) where
  -- The rounds from the boundary `k` on find every header.
  checkpoints_loop-boundaries :
      (fuel k height : ℕ)
      → k + fuel ≡ suc (last / difficulty_period)
      → height ≡ k * difficulty_period % u64_mod
      → checkpoints_loop core fuel best last height ≡ boundaries at fuel k
  unfolding checkpoints_loop
  checkpoints_loop-boundaries zero k height all is = refl
  checkpoints_loop-boundaries (suc fuel) k height all is =
      let same : height ≡ k * difficulty_period = omega arith in
      let within : leb height last ≡ true = ground arith in
      let found : header_at core best height ≡ some (at k) = rw same (stored k (omega arith)) in
      let rest =
        checkpoints_loop-boundaries fuel (k + 1) (add_u64 height difficulty_period) (omega arith)
          (omega arith) in
      rw within (rw found (rw (rest, same) refl))

  finalized_checkpoints-boundaries :
      finalized core ≡ some last
      → best_fork core ≡ some best
      → finalized_checkpoints core ≡ boundaries at (suc (last / difficulty_period)) 0
  unfolding finalized_checkpoints
  finalized_checkpoints-boundaries is_final is_best =
      rw (is_final, is_best, finalized_checkpoints)
        (checkpoints_loop-boundaries (suc (last / difficulty_period)) 0 0 (omega arith)
          (omega arith))

-- With a `bitcoin` and a `hex` package that behave as documented, on a chain that has a header at
-- each boundary up to the finalized height, the checkpoints are these headers at their heights, and
-- the exported text parses back to exactly the checkpoints.
pub export_roundtrip :
    {Header : Type 0} (lib : Bitcoin Header) (hex : Hex) (encodes : EncodesHeaders lib)
    (hexes : EncodesHex hex) (bytes : (h : Header) → All IsByte (lib.consensus_encode h))
    (core : Chain Header) (best last : ℕ) (at : ℕ → Header)
    → last < u64_mod
    → finalized core ≡ some last
    → best_fork core ≡ some best
    → ((k : ℕ)
        → k * difficulty_period ≤ last
        → header_at core best (k * difficulty_period) ≡ some (at k))
    → (out : List ℕ) × (export_checkpoints lib hex core ≡ text out)
      × (parse_text lib hex out ≡ ok (finalized_checkpoints core))
      × (finalized_checkpoints core ≡ boundaries at (suc (last / difficulty_period)) 0)
unfolding export_checkpoints
export_roundtrip lib hex encodes hexes bytes core best last at small is_final is_best stored =
    let all = boundaries at (suc (last / difficulty_period)) 0 in
    let are = finalized_checkpoints-boundaries core best last small at stored is_final is_best in
    (
      checkpoint_text lib hex all,
      rw (is_final, are, export_checkpoints) refl,
      parse_text-checkpoint_text lib hex encodes hexes bytes all
          ∙ ap ok
              (numbered-boundaries at (suc (last / difficulty_period)) 0 (omega arith) ∙ sym are),
      are,
    )
