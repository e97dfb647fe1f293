-- ===== src/Tests/SpineTest.antt =====
-- The spine on two lines and a blank one.
use rsk.Prelude.{ℕ, refl, Option, some, List, [], ◌∷◌, arith, replicate, Bool, true, false}
use rsk.Btc.Spine.{Placed, parse, parse_lines, parse_line, without_blanks, parse-Placed}
use rsk.Tests.Sample.{two_headers}

-- A text is its own bytes and has no blanks around it.
abbrev same : List ℕ → List ℕ
same text = text

abbrev decoded : List ℕ → Option (List ℕ)
decoded text = some text

abbrev lines : List (List ℕ)
lines = replicate 80 1 ∷ [] ∷ replicate 80 0 ∷ []

abbrev spine : List (ℕ × Bool)
spine = (0, true) ∷ (2016, false) ∷ []

parse-Placed_example :
    Placed two_headers same decoded 0 (without_blanks two_headers same decoded lines) spine
unfolding parse parse_lines parse_line without_blanks
parse-Placed_example = parse-Placed two_headers same decoded lines spine (omega arith) refl
