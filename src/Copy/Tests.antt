-- ===== src/Copy/Tests.antt =====
-- src/copy.rs: the tests of the file, and the theorems at concrete input.
use rust_streamer_pgdb.Copy.DecodeRow.Arity.{decode_row-arity}
use rust_streamer_pgdb.Copy.DecodeRow.Blocks.{collect-written_row, is_end_of_data-written_row}
use rust_streamer_pgdb.Copy.DecodeRow.Reference.{split_tabs, read_row, contents, map_ok}
use rust_streamer_pgdb.Copy.DecodeRow.Refines.{contents-decode_row}
use rust_streamer_pgdb.Copy.DecodeRow.RoundTrip.{
  written_row, decode_row-written_row, written, written_byte,
}
use rust_streamer_pgdb.Copy.DecodeRow.{decode_row, each_field, push_field, Decoded}
use rust_streamer_pgdb.Copy.Field.{classify, Limits, default_limits, is_end_of_data}
use rust_streamer_pgdb.Copy.Fields.{next}
use rust_streamer_pgdb.Copy.Rows.{rows, remainder, collect}
use rust_streamer_pgdb.Copy.Rows.Whole.{collect-append}
use rust_streamer_pgdb.Copy.Unescape.{to_vec, unescape, round, escape_at, unescape_into}
use rust_streamer_pgdb.Copy.Unescape.Steps.{unescape-append}
use rust_streamer_pgdb.Error.{◌>>=◌, ok, err, truncated_escape, invalid_hex_escape}
use rust_streamer_pgdb.Lines.{unlines}
use rust_streamer_pgdb.Prelude.Loop.{loop}
use rust_streamer_pgdb.Prelude.{
  arith, false, [], none, Bytes, ◌++◌, ◌∷◌, Option, refl, ◌<◌, linear_search, length, Memchr, codes,
  List, map, ◌≡◌, some, first_index,
}

instance abbrev search_bytes : Memchr
search_bytes = linear_search

escapes :
    (to_vec (classify (codes "a\\tb\\\\x\\1011")) ≡ ok (some (codes "a\tb\\xA1")))
    × (to_vec (classify (codes "\\x4")) ≡ ok (some (4 ∷ [])))
    × (to_vec (classify (codes "\\N")) ≡ ok none)
    × (to_vec (classify (codes "a\\")) ≡ err truncated_escape)
    × (to_vec (classify (codes "\\xz")) ≡ err invalid_hex_escape)
unfolding to_vec classify unescape_into unescape loop round escape_at first_index
escapes = (refl, refl, refl, refl, refl)

-- `1`, `alice` and NULL.
abbrev three : List (Option Bytes)
three = some (codes "1") ∷ some (codes "alice") ∷ none ∷ []

abbrev three_decoded : Decoded
three_decoded = (codes "1alice", some (0, 1) ∷ some (1, 6) ∷ none ∷ [])

decode_three : decode_row (codes "1\talice\t\\N") 3 default_limits ≡ ok three_decoded
unfolding decode_row each_field push_field next unescape_into loop classify first_index
decode_three = refl

collect-append_example : collect (codes "a\r\nb" ++ codes "c\nd") ≡ (
  (collect (codes "a\r\nb")).0
      ++ (collect (remainder (collect (codes "a\r\nb")).1 ++ codes "c\nd")).0,
  (collect (remainder (collect (codes "a\r\nb")).1 ++ codes "c\nd")).1,
)
collect-append_example = collect-append (codes "a\r\nb") (codes "c\nd")

contents-decode_row_example :
    map_ok contents (decode_row (codes "1\t\\x4") 3 default_limits)
    ≡ read_row default_limits (codes "1\t\\x4") 3
contents-decode_row_example = contents-decode_row (codes "1\t\\x4") 3 default_limits

abbrev small_limits : Limits
small_limits = record { max_field_bytes = 8; max_row_bytes = 20; max_columns = 3 }

decode_row-written_row_example :
    map_ok contents (decode_row (written_row three) 3 small_limits) ≡ ok three
decode_row-written_row_example =
    decode_row-written_row small_limits (some (codes "1")) (some (codes "alice") ∷ none ∷ [])
      (unfold written_row written written_byte in omega arith)

decode_row-arity_example :
    (length (split_tabs (codes "1\talice\t\\N")) ≡ 3) × (length three_decoded.1 ≡ 3) × (0 < 3)
decode_row-arity_example =
    decode_row-arity default_limits (codes "1\talice\t\\N") 3 {d = three_decoded} decode_three

collect-written_row_example :
    collect (unlines (map written_row (three ∷ (some (codes "a\nb") ∷ []) ∷ [])))
    ≡ (map written_row (three ∷ (some (codes "a\nb") ∷ []) ∷ []), rows [])
collect-written_row_example = collect-written_row (three ∷ (some (codes "a\nb") ∷ []) ∷ [])

is_end_of_data-written_row_example : is_end_of_data (written_row (some (codes "\\.") ∷ [])) ≡ false
is_end_of_data-written_row_example = is_end_of_data-written_row (some (codes "\\.") ∷ [])

unescape-append_example :
    unescape (codes "\\101b") (codes "x" ++ codes "y")
    ≡ (unescape (codes "\\101b") (codes "y") >>= λ v. ok (codes "x" ++ v))
unescape-append_example = unescape-append (codes "\\101b") (codes "x") (codes "y")
