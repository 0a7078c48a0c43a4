-- ===== src/Scan/Scanner/Dump.antt =====
-- src/scan.rs with src/dump.rs: the scanner on a whole dump that is read in chunks.
use rust_streamer_pgdb.Prelude.{
  refl, append-nil, [], ◌∷◌, Lacks, ℕ, ◌≡◌, Bytes, List, Memchr, flatten, sym, ap, ◌∙◌,
}
use rust_streamer_pgdb.Scan.Scanner.{Fed, Event, Scanner, new}
use rust_streamer_pgdb.Scan.Scanner.Lines.{in_front, expand_fed, read_lines, expand}
use rust_streamer_pgdb.Dump.Reader.{Reader}
use rust_streamer_pgdb.Error.{err, ◌>>=◌, ok}
use rust_streamer_pgdb.Dump.ChunkReader.Run.{with_limits-Drains, Drains}
use rust_streamer_pgdb.Scan.Scanner.Feed.{feed}
use rust_streamer_pgdb.Scan.Scanner.Cuts.{feed-append, feed_both, feed-Lacks, expand-in_front}
use rust_streamer_pgdb.Dump.ChunkReader.{with_limits}
use rust_streamer_pgdb.Scan.Scanner.Chunks.{feed-feed_lines}
use rust_streamer_pgdb.Lines.{split_lines-Lacks}

expand-in_front_fed :
    (es : List Event) (f g : Fed)
    → expand_fed f ≡ expand_fed g
    → expand_fed (in_front es f) ≡ expand_fed (in_front es g)
expand-in_front_fed es f g h =
    expand-in_front es f ∙ ap (in_front (expand es)) h ∙ sym (expand-in_front es g)

module _ ⦃m : Memchr⦄ where
  -- The calls of `feed` on the chunks of a dump.
  unfoldable pub feed_all : Scanner → List Bytes → Fed
  feed_all s [] = ok (s, [])
  feed_all s (c ∷ cs) = feed s c >>= λ r. in_front r.1 (feed_all r.0 cs)

  feed-nil : (s : Scanner) → Lacks b'\n' s.pending → expand_fed (feed s []) ≡ ok (s, [])
  unfolding read_lines expand
  feed-nil s h =
      feed-feed_lines s [] h ∙ (rw (append-nil s.pending, split_lines-Lacks s.pending h) refl)

  both_alike :
      (f : Fed) (cs : List Bytes) (b : Bytes)
      → ((t : Scanner) (es : List Event)
          → f ≡ ok (t, es)
          → expand_fed (feed_all t cs) ≡ expand_fed (feed t b))
      → expand_fed (f >>= λ r. in_front r.1 (feed_all r.0 cs)) ≡ expand_fed (feed_both f b)
  both_alike (err e) cs b k = refl
  both_alike (ok (t, es)) cs b k = expand-in_front_fed es (feed_all t cs) (feed t b) (k t es refl)

  -- Feeding a dump chunk by chunk gives what feeding it whole gives, wherever it is cut: the same
  -- events, with runs of rows taken as rows without carriage returns at their ends, the same
  -- scanner, and the same error, if what was pending holds no newline.
  pub feed_all-flatten :
      (s : Scanner) (cs : List Bytes)
      → Lacks b'\n' s.pending
      → expand_fed (feed_all s cs) ≡ expand_fed (feed s (flatten cs))
  unfolding feed_all expand
  feed_all-flatten s [] h = sym (feed-nil s h)
  feed_all-flatten s (c ∷ cs) h =
      both_alike (feed s c) cs (flatten cs)
        (λ t es q. feed_all-flatten t cs (feed-Lacks s t c es h q))
      ∙ feed-append s c (flatten cs) h

  -- A new scanner that is fed the chunks of a drained reader gives what it gives for the reader's
  -- whole stream, whatever the limits and however short the reads: the same events, with runs of
  -- rows taken as rows without carriage returns at their ends, the same scanner, and the same error.
  pub feed_all-Drains :
      {R : Type 0} (source : Reader R) (inner : R) (target max_chunk : ℕ) (cs : List Bytes)
      → Drains source (with_limits inner target max_chunk) cs
      → expand_fed (feed_all new cs) ≡ expand_fed (feed new (source.unread inner))
  feed_all-Drains source inner target max_chunk cs d =
      feed_all-flatten new cs tt
      ∙ ap (λ s. expand_fed (feed new s)) (with_limits-Drains source inner target max_chunk cs d).0
