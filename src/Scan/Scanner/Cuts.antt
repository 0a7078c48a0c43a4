-- ===== src/Scan/Scanner/Cuts.antt =====
-- src/scan.rs: where a dump is cut into chunks makes no difference.
use rust_streamer_pgdb.Prelude.{
  ap₂, subst, refl, ◌∷◌, ◌∙◌, append_assoc, sym, ap, [], ◌≡◌, ◌++◌, Lacks, Bytes, List, Memchr,
}
use rust_streamer_pgdb.Scan.Scanner.{Fed, Event, Scanner}
use rust_streamer_pgdb.Scan.Scanner.Lines.{
  expand-append, expand, expand_fed, in_front, settle, read_lines,
}
use rust_streamer_pgdb.Error.{err, ok, ◌>>=◌}
use rust_streamer_pgdb.Scan.Scanner.Pending.{read_lines-KeepsPending, KeepsPending}
use rust_streamer_pgdb.Scan.Scanner.Feed.{completed_line, feed}
use rust_streamer_pgdb.Lines.{split_lines-append, split_lines_lack, after, split_lines}
use rust_streamer_pgdb.Scan.Scanner.Rounds.{then_lines}
use rust_streamer_pgdb.Scan.Scanner.Refines.{in_front-nil}
use rust_streamer_pgdb.Scan.Scanner.Chunks.{feed-feed_lines}
use rust_streamer_pgdb.Copy.Rows.{strip_cr}

in_front-in_front :
    (xs ys : List Event) (f : Fed) → in_front xs (in_front ys f) ≡ in_front (xs ++ ys) f
in_front-in_front xs ys (ok (s, es)) = ap (λ t. ok (s, t)) (sym (append_assoc xs ys es))
in_front-in_front xs ys (err e) = refl

-- Lines behind lines.
read_lines-append :
    (s : Scanner) (xs ys : List Bytes) → read_lines s (xs ++ ys) ≡ then_lines (read_lines s xs) ys
unfolding read_lines
read_lines-append s [] ys = sym (in_front-nil (read_lines s ys))
read_lines-append s (l ∷ xs) ys =
    step (completed_line s (strip_cr l)) (λ t. read_lines-append t xs ys)
  where
    behind :
        (es : List Event) (f : Fed) → in_front es (then_lines f ys) ≡ then_lines (in_front es f) ys
    behind es (err e) = refl
    behind es (ok (t, later)) = in_front-in_front es later (read_lines t ys)

    step :
        (f : Fed)
        → ((t : Scanner) → read_lines t (xs ++ ys) ≡ then_lines (read_lines t xs) ys)
        → then_lines f (xs ++ ys) ≡ then_lines (then_lines f xs) ys
    step (err e) k = refl
    step (ok (t, es)) k = ap (in_front es) (k t) ∙ behind es (read_lines t xs)

settle-in_front :
    (es : List Event) (r : Bytes) (f : Fed)
    → settle r (in_front es f) ≡ in_front (expand es) (settle r f)
settle-in_front es r (err e) = refl
settle-in_front es r (ok (s, later)) =
    ap (λ t. ok (record s { pending = s.pending ++ r }, t)) (expand-append es later)

pub expand-in_front :
    (es : List Event) (f : Fed) → expand_fed (in_front es f) ≡ in_front (expand es) (expand_fed f)
expand-in_front es (err e) = refl
expand-in_front es (ok (s, later)) = ap (λ t. ok (s, t)) (expand-append es later)

module _ ⦃m : Memchr⦄ where
  -- Two chunks, one after the other.
  abbrev pub feed_both : Fed → Bytes → Fed
  feed_both f b = f >>= λ r. in_front r.1 (feed r.0 b)

  -- The second chunk, behind the lines of the first.
  second_chunk :
      (f : Fed) (g : Fed) (r b : Bytes)
      → Lacks b'\n' r
      → KeepsPending [] g
      → expand_fed f ≡ settle r g
      → expand_fed (feed_both f b)
        ≡ settle (split_lines (r ++ b)).1 (then_lines g (split_lines (r ++ b)).0)
  second_chunk (err e) (err e') r b k p h = ap (λ x. x) h
  second_chunk (err e) (ok (t, es)) r b k p h = cc
  second_chunk (ok (s, es)) (err e) r b k p h = cc
  second_chunk (ok (s, es)) (ok (t, later)) r b k p h =
      let kept : s ≡ record t { pending = t.pending ++ r } = cc in
      let told : expand es ≡ expand later = cc in
      let again : s ≡ record t { pending = r } = kept ∙ ap (λ q. record t { pending = q ++ r }) p in
      let whole : ◌≡◌ {A = Scanner} (record t { pending = [] }) t =
        ap (λ q. record t { pending = q }) (sym p) in
      let more_lines : expand_fed (feed s b)
          ≡ settle (split_lines (r ++ b)).1 (read_lines t (split_lines (r ++ b)).0) =
        ap (λ u. expand_fed (feed u b)) again
        ∙ feed-feed_lines (record t { pending = r }) b k
        ∙ ap (λ u. settle (split_lines (r ++ b)).1 (read_lines u (split_lines (r ++ b)).0)) whole in
      expand-in_front es (feed s b)
      ∙ ap₂ in_front told more_lines
      ∙ sym (settle-in_front later (split_lines (r ++ b)).1 (read_lines t (split_lines (r ++ b)).0))

  -- Feeding two chunks, one after the other, gives what feeding them as one gives: the same events,
  -- with runs of rows taken as rows without carriage returns at their ends, the same scanner, and
  -- the same error, if what was pending holds no newline.
  pub feed-append :
      (s : Scanner) (a b : Bytes)
      → Lacks b'\n' s.pending
      → expand_fed (feed_both (feed s a) b) ≡ expand_fed (feed s (a ++ b))
  feed-append s a b h =
      let first = split_lines (s.pending ++ a) in
      let start : Scanner = record s { pending = [] } in
      let joined : split_lines (s.pending ++ (a ++ b))
          ≡ after first.0 (split_lines (first.1 ++ b)) =
        ap split_lines (sym (append_assoc s.pending a b)) ∙ split_lines-append (s.pending ++ a) b in
      second_chunk (feed s a) (read_lines start first.0) first.1 b
        (split_lines_lack (s.pending ++ a)).1 (read_lines-KeepsPending start first.0)
        (feed-feed_lines s a h)
      ∙ ap (settle (split_lines (first.1 ++ b)).1)
          (sym (read_lines-append start first.0 (split_lines (first.1 ++ b)).0))
      ∙ ap (λ (t : List Bytes × Bytes). settle t.1 (read_lines start t.0)) (sym joined)
      ∙ sym (feed-feed_lines s (a ++ b) h)

  -- What is pending behind a call holds no newline, so chunks can be fed on and on.
  settled-Lacks :
      (f g : Fed) (r : Bytes)
      → Lacks b'\n' r
      → KeepsPending [] g
      → expand_fed f ≡ settle r g
      → (s : Scanner) (es : List Event) → f ≡ ok (s, es)
      → Lacks b'\n' s.pending
  settled-Lacks f (err e) r k p h s es q = absurd (cc (ap expand_fed q))
  settled-Lacks f (ok (t, later)) r k p h s es q =
      let same : ◌≡◌ {A = Fed} (ok (s, expand es))
          (ok (record t { pending = t.pending ++ r }, expand later)) =
        ap expand_fed (sym q) ∙ h in
      let kept : s ≡ record t { pending = t.pending ++ r } = cc in
      let rest : s.pending ≡ r = ap (λ (u : Scanner). u.pending) kept ∙ ap (λ q'. q' ++ r) p in
      subst (Lacks b'\n') (sym rest) k

  pub feed-Lacks :
      (s t : Scanner) (a : Bytes) (es : List Event)
      → Lacks b'\n' s.pending
      → feed s a ≡ ok (t, es)
      → Lacks b'\n' t.pending
  feed-Lacks s t a es h q =
      settled-Lacks (feed s a)
        (read_lines (record s { pending = [] }) (split_lines (s.pending ++ a)).0)
        (split_lines (s.pending ++ a)).1 (split_lines_lack (s.pending ++ a)).1
        (read_lines-KeepsPending (record s { pending = [] }) (split_lines (s.pending ++ a)).0)
        (feed-feed_lines s a h) t es q
