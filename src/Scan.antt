-- ===== src/Scan.antt =====
-- src/scan.rs: `find_terminator`, the search for the line that ends a COPY block. Its `strip_cr`
-- does what `Rows::next` of src/copy.rs does to a line, and is that function here.
pub mod Terminator
pub mod Names
pub mod Ddl
pub mod Scanner
pub mod Tests
pub mod DumpTests
use rust_streamer_pgdb.Copy.Field.{is_end_of_data}
use rust_streamer_pgdb.Copy.Rows.{strip_cr}
use rust_streamer_pgdb.Prelude.Loop.{Round, done, more, loop}
use rust_streamer_pgdb.Prelude.{
  ℕ, ◌+◌, ◌-◌, ◌<◌, ◌≡◌, Bool, true, false, Option, none, some, Bytes, Memchr, take, drop, length,
  arith, first_index, first_index-SplitsAt, length-drop, sym, ◌∙◌,
}

-- The bytes consumed, and the place of the line that ends the block.
abbrev pub Found : Type 0
Found = ℕ × Option ℕ

abbrev pub on_line : Bool → ℕ → ℕ → Round ℕ Found
on_line true start end = done (end + 1, some start)
on_line false start end = more (end + 1)

abbrev pub at_line : Bytes → ℕ → Option ℕ → Round ℕ Found
at_line input pos none = done (pos, none)
at_line input pos (some nl) =
    on_line (is_end_of_data (strip_cr (take nl (drop pos input)))) pos (pos + nl)

at_line_falls :
    (input : Bytes) (pos : ℕ) (o : Option ℕ) (t : ℕ)
    → first_index b'\n' (drop pos input) ≡ o
    → at_line input pos o ≡ more t
    → length input - t < length input - pos
at_line_falls input pos none t e h = cc
at_line_falls input pos (some nl) t e h =
    let hit = first_index-SplitsAt b'\n' (drop pos input) nl e in
    moved (is_end_of_data (strip_cr (take nl (drop pos input)))) hit.within h
  where
    moved :
        (b : Bool)
        → nl < length (drop pos input)
        → on_line b pos (pos + nl) ≡ more t
        → length input - t < length input - pos
    moved true w h = cc
    moved false w h = ground (arith, w, length-drop pos input)

module _ ⦃m : Memchr⦄ where
  -- One round of the `while let`.
  unfoldable pub line_round : Bytes → ℕ → Round ℕ Found
  line_round input pos = at_line input pos (m.memchr b'\n' (drop pos input))

  pub line_round_falls :
      (input : Bytes) (pos t : ℕ)
      → line_round input pos ≡ more t
      → length input - t < length input - pos
  unfolding line_round
  line_round_falls input pos t h =
      at_line_falls input pos _ t (sym (m.memchr_first b'\n' (drop pos input))) h

  -- The loop from a place on.
  abbrev pub find_from : Bytes → ℕ → Found
  find_from input = loop (λ pos. length input - pos) (line_round input) (line_round_falls input)

  unfoldable pub find_terminator : Bytes → Found
  unfolding line_round
  find_terminator input = find_from input 0
