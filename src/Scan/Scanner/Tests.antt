-- ===== src/Scan/Scanner/Tests.antt =====
-- src/scan.rs: the theorems on the scanner at concrete input.
use rust_streamer_pgdb.Prelude.{linear_search, Memchr, codes, ◌∷◌, [], ◌≡◌, ◌++◌}
use rust_streamer_pgdb.Scan.Scanner.{new, finish, sql_line, copy, Scanner, copy_start, copy_rows}
use rust_streamer_pgdb.Scan.Scanner.Blocks.{Ordered}
use rust_streamer_pgdb.Scan.Scanner.Nested.{feed_all-Ordered, finished}
use rust_streamer_pgdb.Scan.Scanner.Versions.{finish-feed_all}
use rust_streamer_pgdb.Error.{ok}
use rust_streamer_pgdb.Prelude.{none, some, refl, first_index, bytes_eq}
use rust_streamer_pgdb.Prelude.Ascii.{
  eq_ignore_ascii_case, to_ascii_lowercase, trim_end_matches, is_ascii_whitespace, skip_while,
  position, from_utf8_lossy,
}
use rust_streamer_pgdb.Scan.Ddl.{parse_copy_header}
use rust_streamer_pgdb.Scan.{find_terminator}
use rust_streamer_pgdb.Copy.Field.{is_end_of_data}
use rust_streamer_pgdb.Prelude.Loop.{loop}
use rust_streamer_pgdb.Copy.Rows.{strip_cr}
use rust_streamer_pgdb.Dump.Compression.{starts_with}
use rust_streamer_pgdb.Scan.Names.{TableName, strip_create_table, ends_with_ci}
use rust_streamer_pgdb.Scan.Scanner.Lines.{feed_lines, expand_fed}
use rust_streamer_pgdb.Scan.Scanner.Feed.{feed}
use rust_streamer_pgdb.Scan.Scanner.Chunks.{feed-feed_lines}
use rust_streamer_pgdb.Scan.Scanner.Cuts.{feed-append, feed_both}
use rust_streamer_pgdb.Scan.Scanner.Dump.{feed_all, feed_all-Drains}
use rust_streamer_pgdb.Dump.Tests.{two_at_once, two_lines-Drains}

instance abbrev search_bytes : Memchr
search_bytes = linear_search

feed-feed_lines_example :
    expand_fed (feed new (codes "COPY t (a) FROM stdin;\n1\n2"))
    ≡ feed_lines new (codes "COPY t (a) FROM stdin;\n1\n2")
feed-feed_lines_example = feed-feed_lines new (codes "COPY t (a) FROM stdin;\n1\n2") tt

feed-append_example :
    expand_fed (feed_both (feed new (codes "COPY t (a) FROM stdin;\n1\n2")) (codes "3\n\\.\n"))
    ≡ expand_fed (feed new (codes "COPY t (a) FROM stdin;\n1\n2" ++ codes "3\n\\.\n"))
feed-append_example = feed-append new (codes "COPY t (a) FROM stdin;\n1\n2") (codes "3\n\\.\n") tt

feed_all-Drains_example :
    expand_fed (feed_all new (codes "ab\n" ∷ codes "c" ∷ []))
    ≡ expand_fed (feed new (codes "ab\nc"))
feed_all-Drains_example =
    feed_all-Drains two_at_once (codes "ab\nc") 4 6 (codes "ab\n" ∷ codes "c" ∷ []) two_lines-Drains

feed_all-Ordered_example :
    Ordered none
      (feed_all new (codes "COPY t (a)" ∷ codes " FROM stdin;\n1" ∷ codes "\n\\.\n" ∷ []))
feed_all-Ordered_example =
    feed_all-Ordered new (codes "COPY t (a)" ∷ codes " FROM stdin;\n1" ∷ codes "\n\\.\n" ∷ []) tt

-- A dump that is cut off inside a block.
abbrev name_t : TableName
name_t = record { schema = none; table = codes "t" }

abbrev inside : Scanner
inside = record new { state = copy; open_table = some name_t }

cut_off :
    feed_all new (codes "COPY t FROM stdin;\n1\n" ∷ [])
    ≡ ok (inside, copy_start name_t [] ∷ copy_rows (codes "1\n") ∷ [])
unfolding feed_all feed loop first_index sql_line strip_cr starts_with strip_create_table
    eq_ignore_ascii_case bytes_eq to_ascii_lowercase ends_with_ci trim_end_matches
    is_ascii_whitespace parse_copy_header skip_while position find_terminator is_end_of_data
    from_utf8_lossy
cut_off = refl

finish-feed_all_example : finish inside ≡ finished (some name_t) none
finish-feed_all_example =
    finish-feed_all (codes "COPY t FROM stdin;\n1\n" ∷ []) inside
      (copy_start name_t [] ∷ copy_rows (codes "1\n") ∷ []) cut_off
