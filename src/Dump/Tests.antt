-- ===== src/Dump/Tests.antt =====
-- src/dump.rs: the theorems at concrete input.
use rust_streamer_pgdb.Dump.ChunkReader.{with_limits, ChunkReader}
use rust_streamer_pgdb.Dump.ChunkReader.NextChunk.{next_chunk}
use rust_streamer_pgdb.Prelude.{
  false, true, ◌∷◌, flatten, [], none, refl, some, ◌≡◌, codes, last_index, arith, Bytes,
  linear_search, ◌<◌, Memchr,
}
use rust_streamer_pgdb.Dump.Reader.{memory_reader, Reader}
use rust_streamer_pgdb.Prelude.Loop.{loop}
use rust_streamer_pgdb.Dump.ChunkReader.Splits.{Outcome}
use rust_streamer_pgdb.Dump.ChunkReader.Run.{
  Drains, drained, chunk, with_limits-Drains, WholeLines, with_limits-IsValid, next_chunk-Outcome,
}
use rust_streamer_pgdb.Error.{ok}

instance abbrev search_bytes : Memchr
search_bytes = linear_search

-- A stream that is read by at most two bytes at once.
abbrev pub two_at_once : Reader Bytes
two_at_once = memory_reader 1

abbrev small_reader : ChunkReader Bytes
small_reader = with_limits (codes "ab\ncde\nf") 4 6

small_positive : 0 < small_reader.target
unfolding with_limits
small_positive = omega arith

-- The tests of the file: whole lines, the growth for a long line, and the ceiling.
next_chunk_lines : (next_chunk two_at_once small_reader small_positive).0 ≡ ok (some (codes "ab\n"))
unfolding next_chunk loop last_index with_limits
next_chunk_lines = refl

next_chunk-Outcome_example :
    Outcome two_at_once 6 (codes "ab\ncde\nf") (next_chunk two_at_once small_reader small_positive)
unfolding with_limits
next_chunk-Outcome_example =
    next_chunk-Outcome two_at_once small_reader small_positive
      (with_limits-IsValid two_at_once (codes "ab\ncde\nf") 4 6)

abbrev two_lines : ChunkReader Bytes
unfolding with_limits
two_lines = with_limits (codes "ab\nc") 4 6

abbrev behind_one : ChunkReader Bytes
behind_one = record {
  inner = [];
  buf = codes "ab\nc";
  filled = 4;
  consumed = 3;
  target = 4;
  max_chunk = 6;
  eof = false;
}

abbrev behind_two : ChunkReader Bytes
behind_two = record {
  inner = [];
  buf = codes "cb\nc";
  filled = 1;
  consumed = 1;
  target = 4;
  max_chunk = 6;
  eof = true;
}

two_positive : 0 < two_lines.target
unfolding with_limits
two_positive = omega arith

first_call : next_chunk two_at_once two_lines two_positive ≡ (ok (some (codes "ab\n")), behind_one)
unfolding next_chunk loop last_index with_limits
first_call = refl

behind_positive : 0 < behind_one.target
behind_positive = omega arith

second_call :
    next_chunk two_at_once behind_one behind_positive ≡ (ok (some (codes "c")), behind_two)
unfolding next_chunk loop last_index
second_call = refl

third_call :
    next_chunk two_at_once behind_two behind_positive
    ≡ (ok none, record behind_two { filled = 0; consumed = 0 })
unfolding next_chunk loop last_index
third_call = refl

pub two_lines-Drains :
    Drains two_at_once (with_limits (codes "ab\nc") 4 6) (codes "ab\n" ∷ codes "c" ∷ [])
unfolding with_limits
two_lines-Drains =
    chunk _ behind_one two_positive _ _ first_call
      (chunk _ behind_two behind_positive _ _ second_call (drained _ _ behind_positive third_call))

with_limits-Drains_example :
    (flatten (codes "ab\n" ∷ codes "c" ∷ []) ≡ codes "ab\nc")
    × WholeLines (codes "ab\n" ∷ codes "c" ∷ [])
with_limits-Drains_example =
    with_limits-Drains two_at_once (codes "ab\nc") 4 6 (codes "ab\n" ∷ codes "c" ∷ [])
      two_lines-Drains
