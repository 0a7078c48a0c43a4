-- ===== src/Scan/Tests.antt =====
-- src/scan.rs: the theorems at concrete input.
use rust_streamer_pgdb.Copy.DecodeRow.RoundTrip.{written_row}
use rust_streamer_pgdb.Copy.Field.{is_end_of_data}
use rust_streamer_pgdb.Copy.Rows.{strip_cr}
use rust_streamer_pgdb.Lines.{split_lines, unlines}
use rust_streamer_pgdb.Prelude.Loop.{loop}
use rust_streamer_pgdb.Prelude.{
  ◌≡◌, ◌+◌, refl, List, Option, [], ◌∷◌, ◌++◌, some, none, map, length, Bytes, codes, Memchr,
  linear_search, first_index,
}
use rust_streamer_pgdb.Scan.{find_terminator}
use rust_streamer_pgdb.Scan.Terminator.{
  walk, find_terminator-split_lines, find_terminator-written_row,
}

instance abbrev search_bytes : Memchr
search_bytes = linear_search

found : find_terminator (codes "1\r\n\\.\r\nx") ≡ (7, some 3)
unfolding find_terminator loop first_index is_end_of_data strip_cr
found = refl

abbrev two_rows : List (List (Option Bytes))
two_rows = (some (codes "1") ∷ none ∷ []) ∷ (some (codes "\\.") ∷ []) ∷ []

find_terminator-split_lines_example :
    find_terminator (codes "a\n\\.\nb") ≡ walk 0 (split_lines (codes "a\n\\.\nb")).0
find_terminator-split_lines_example = find_terminator-split_lines (codes "a\n\\.\nb")

find_terminator-written_row_example :
    find_terminator (unlines (map written_row two_rows) ++ codes "\\.\nSET") ≡ (
      length (unlines (map written_row two_rows)) + 3,
      some (length (unlines (map written_row two_rows))),
    )
find_terminator-written_row_example = find_terminator-written_row two_rows (codes "SET")
