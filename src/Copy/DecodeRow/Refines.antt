-- ===== src/Copy/DecodeRow/Refines.antt =====
-- src/copy.rs: `decode_row` computes the reference, on every branch.
use rust_streamer_pgdb.Copy.DecodeRow.{
  check_count, Ranges, Decoded, push_field, continue_with, on_item, each_field, each_field_falls,
  decode_fields, decode_row,
}
use rust_streamer_pgdb.Copy.DecodeRow.Reference.{
  split_tabs-cons, split_tabs-Lacks, split_tabs, read_parts, check_arity, read_row, slice, contents,
  InRange, IsSound, contents_grow, IsSound-grow, slice_end, map_ok,
}
use rust_streamer_pgdb.Copy.Field.{Limits, Field, null, plain, escaped, classify}
use rust_streamer_pgdb.Copy.Unescape.{unescape, unescape_into, to_vec}
use rust_streamer_pgdb.Copy.Unescape.Steps.{unescape-append}
use mathlib.Core.Option
use rust_streamer_pgdb.Error.{row_too_large, Error, err, ◌>>=◌, ok, Result}
use rust_streamer_pgdb.Prelude.{
  ◌==◌, length-map, take-append_self, take, drop-append_cons, if◌then◌else◌, first_index-append,
  Lacks-first_index, Lacks, drop-drop, zero, first_occurrence, suc, drop, false, first_index, ◌<◌,
  true, inr, inl, ltb, Bool-cases, ◌+◌, length-append, ap, append_assoc, arith, ap₂, List, refl,
  ◌∙◌, append-nil, All-append, [], length, some, ◌∷◌, ℕ, ◌++◌, none, Option, ◌≡◌, map-append, Bytes,
  Memchr,
}
use rust_streamer_pgdb.Copy.Fields.{fields, take_raw, check_raw, next, Fields}
use rust_streamer_pgdb.Prelude.Loop.{loop_same, loop_done, done, loop_more}

IsSound-append :
    (scratch : Bytes) (out : Ranges) (o : Option (ℕ × ℕ))
    → IsSound (scratch, out)
    → InRange scratch o
    → IsSound (scratch, out ++ o ∷ [])
IsSound-append scratch out o h i = All-append (InRange scratch) out (o ∷ []) h (i, tt)

-- What pushing a field does to the values that the buffers hold.
abbrev Pushes : Decoded → Result Decoded → Result (Option Bytes) → Type 0
Pushes d (ok d') (ok v) = (contents d' ≡ contents d ++ v ∷ []) × IsSound d'
Pushes d (err e) (err e') = e ≡ e'
Pushes d (ok d') (err e) = ⊥
Pushes d (err e) (ok v) = ⊥

-- The range at the end of a buffer that grew by `v`.
push_range :
    (scratch v : Bytes) (out : Ranges)
    → IsSound (scratch, out)
    → Pushes
        (scratch, out)
        (ok (scratch ++ v, out ++ some (length scratch, length (scratch ++ v)) ∷ []))
        (ok (some v))
push_range scratch v out h = (
  map-append _ out _
      ∙ ap₂ (λ xs x. xs ++ some x ∷ []) (contents_grow scratch v out h) (slice_end scratch v),
  IsSound-append (scratch ++ v) out _ (IsSound-grow scratch v out h)
      (omega (arith, length-append scratch v)),
)

module _ ⦃m : Memchr⦄ where
  push_unescaped :
      (s scratch : Bytes) (out : Ranges) (r : Result Bytes)
      → IsSound (scratch, out)
      → unescape s scratch ≡ (r >>= λ v. ok (scratch ++ v))
      → Pushes
          (scratch, out)
          (unescape s scratch >>= λ scratch'.
            ok (scratch', out ++ some (length scratch, length scratch') ∷ []))
          (r >>= λ v. ok (some v))
  push_unescaped s scratch out (ok v) h e = rw e (push_range scratch v out h)
  push_unescaped s scratch out (err x) h e = rw e refl

  push_field-Pushes : (f : Field) (d : Decoded) → IsSound d → Pushes d (push_field f d) (to_vec f)
  unfolding push_field to_vec unescape_into
  push_field-Pushes null (scratch, out) h =
      (map-append _ out (none ∷ []), IsSound-append scratch out none h tt)
  push_field-Pushes (plain b) (scratch, out) h = push_range scratch b out h
  push_field-Pushes (escaped b) (scratch, out) h =
      push_unescaped b scratch out (unescape b []) h
        (rw (← unescape-append b scratch [], append-nil))

  -- The result of a row's loop, joined to what the buffers held before it.
  abbrev joined : Decoded → Result (List (Option Bytes)) → Result (List (Option Bytes))
  joined d r = r >>= λ vs. ok (contents d ++ vs)

  joined_nil : (r : Result (List (Option Bytes))) → joined ([], []) r ≡ r
  joined_nil (ok vs) = refl
  joined_nil (err x) = refl

  joined_cons :
      (d d' : Decoded) (v : Option Bytes) (r : Result (List (Option Bytes)))
      → contents d' ≡ contents d ++ v ∷ []
      → joined d' r ≡ joined d (r >>= λ vs. ok (v ∷ vs))
  joined_cons d d' v (ok vs) e = rw (e, append_assoc)
  joined_cons d d' v (err x) e = refl

  module _ (f g : Fields) (d : Decoded) (tail : Result (List (Option Bytes))) where
    abbrev GoesOn : Type 0
    GoesOn = (d' : Decoded) → IsSound d' → map_ok contents (decode_fields (g, d')) ≡ joined d' tail

    step_push :
        (r : Result Decoded) (v : Result (Option Bytes))
        → Pushes d r v
        → each_field (f, d) ≡ continue_with g r
        → GoesOn
        → map_ok contents (decode_fields (f, d)) ≡ joined d (v >>= λ x. tail >>= λ xs. ok (x ∷ xs))
    step_push (ok d') (ok v) p e k =
        ap (map_ok contents) (loop_more _ each_field each_field_falls (f, d) (g, d') e)
        ∙ k d' p.1
        ∙ joined_cons d d' v tail p.0
    step_push (err x) (err y) p e k =
        ap (map_ok contents) (loop_done _ each_field each_field_falls (f, d) (err x) e) ∙ ap err p
    step_push (ok d') (err y) p e k = absurd p
    step_push (err x) (ok v) p e k = absurd p

  step_error :
      (f : Fields) (d : Decoded) (x : Error)
      → each_field (f, d) ≡ done (err x)
      → map_ok contents (decode_fields (f, d)) ≡ err x
  step_error f d x e =
      ap (map_ok contents) (loop_done _ each_field each_field_falls (f, d) (err x) e)

  -- One part: the iterator's bounds and the pushed value are those of the reference.
  step_part :
      (f g : Fields) (d : Decoded) (raw : Bytes) (ps : List Bytes)
      → IsSound d
      → next f ≡ check_raw (raw, g)
      → GoesOn f (record g { count = g.count + 1 }) d (read_parts g.limits (g.count + 1) ps)
      → map_ok contents (decode_fields (f, d)) ≡ joined d (read_parts g.limits g.count (raw ∷ ps))
  unfolding each_field read_parts
  step_part f g d raw ps s e k = elim (Bool-cases (ltb g.limits.max_columns (g.count + 1))) [
    | inl many ↦ rw many (step_error f d _ (ap (λ i. on_item i d) e ∙ rw many))
    | inr few ↦ elim (Bool-cases (ltb g.limits.max_field_bytes (length raw))) [
      | inl big ↦ rw (few, big) (step_error f d _ (ap (λ i. on_item i d) e ∙ rw (few, big)))
      | inr fits ↦
          rw (few, fits)
            (step_push f _ d _ _ _ (push_field-Pushes (classify raw) d s)
              (ap (λ i. on_item i d) e ∙ rw (few, fits)) k)
    ]
  ]

  -- The iterator at byte `pos` of the row, behind `n` fields.
  abbrev at : Bytes → Limits → ℕ → ℕ → Fields
  at row limits pos n = record {
    row = row;
    pos = pos;
    count = n;
    limits = limits;
    finished = false;
    row_checked = true;
  }

  next-at :
      (row : Bytes) (limits : Limits) (pos n : ℕ) (o : Option ℕ)
      → first_index b'\t' (drop pos row) ≡ o
      → next (at row limits pos n) ≡ check_raw (take_raw o (at row limits pos n))
  unfolding next
  next-at row limits pos n o e =
      ap (λ x. check_raw (take_raw x (at row limits pos n)))
        (m.memchr_first b'\t' (drop pos row) ∙ e)

  -- Behind the last field the loop ends.
  decode_ended :
      (f : Fields) (d : Decoded)
      → f.row_checked ≡ true
      → f.finished ≡ true
      → decode_fields (f, d) ≡ ok d
  decode_ended f d c e =
      loop_done _ each_field each_field_falls (f, d) (ok d) (unfold each_field next in rw (c, e))

  next_last :
      (row : Bytes) (limits : Limits) (pos n : ℕ) (rest : Bytes)
      → drop pos row ≡ rest
      → Lacks b'\t' rest
      → next (at row limits pos n)
        ≡ check_raw (rest, record (at row limits pos n) { finished = true })
  next_last row limits pos n rest e l =
      next-at row limits pos n none (rw e (Lacks-first_index b'\t' rest l))
      ∙ ap (λ r. check_raw (r, record (at row limits pos n) { finished = true })) e

  next_first :
      (row : Bytes) (limits : Limits) (pos n : ℕ) (p t : Bytes)
      → drop pos row ≡ p ++ b'\t' ∷ t
      → Lacks b'\t' p
      → next (at row limits pos n) ≡ check_raw (p, at row limits (pos + length p + 1) n)
  next_first row limits pos n p t e l =
      next-at row limits pos n (some (length p)) (rw e (first_index-append b'\t' p t l))
      ∙ ap (λ r. check_raw (r, at row limits (pos + length p + 1) n))
          (ap (take (length p)) e ∙ take-append_self p (b'\t' ∷ t))

  drop_past :
      (row : Bytes) (pos : ℕ) (p t : Bytes)
      → drop pos row ≡ p ++ b'\t' ∷ t
      → drop (pos + length p + 1) row ≡ t
  drop_past row pos p t e =
      let step : pos + length p + 1 ≡ pos + suc (length p) = omega arith in
      rw (step, ← drop-drop (suc (length p)) pos row, e) (drop-append_cons p b'\t' t)

  decode_last :
      (f : Fields) (limits : Limits) (n : ℕ) (d : Decoded)
      → f.row_checked ≡ true
      → f.finished ≡ true
      → map_ok contents (decode_fields (f, d)) ≡ joined d (read_parts limits n [])
  unfolding read_parts
  decode_last f limits n d c e = ap (map_ok contents) (decode_ended f d c e) ∙ rw append-nil

  decode_rest :
      (k : ℕ) (row : Bytes) (limits : Limits) (pos n : ℕ) (rest : Bytes) (d : Decoded)
      → length rest < k
      → drop pos row ≡ rest
      → IsSound d
      → map_ok contents (decode_fields (at row limits pos n, d))
        ≡ joined d (read_parts limits n (split_tabs rest))
  decode_rest zero row limits pos n rest d h e s = absurd (omega arith)
  decode_rest (suc k) row limits pos n rest d h e s = elim (first_occurrence b'\t' rest) [
    | inl l ↦ rw (split_tabs-Lacks rest l) (
        step_part (at row limits pos n) (record (at row limits pos n) { finished = true }) d rest []
          s (next_last row limits pos n rest e l)
          (λ d' s'. decode_last _ limits (n + 1) d' refl refl))
    | inr (p, t, l, e') ↦
        rw (e', split_tabs-cons p t l)
          (step_part (at row limits pos n) (at row limits (pos + length p + 1) n) d p (split_tabs t)
            s (next_first row limits pos n p t (e ∙ e') l)
            (λ d' s'.
              decode_rest k row limits (pos + length p + 1) (n + 1) t d'
                (omega (arith, ap length e', length-append p (b'\t' ∷ t)))
                (drop_past row pos p t (e ∙ e')) s'))
  ]

  -- What is tested of the row itself, before the first field.
  decode_whole :
      (row : Bytes) (limits : Limits)
      → map_ok contents (decode_fields (fields row limits, ([], []))) ≡ (
          if ltb limits.max_row_bytes (length row)
          then err (row_too_large (length row) limits.max_row_bytes)
          else read_parts limits 0 (split_tabs row))
  decode_whole row limits = elim (Bool-cases (ltb limits.max_row_bytes (length row))) [
    | inl big ↦
        rw big (step_error (fields row limits) ([], []) _ (unfold each_field next in rw big))
    | inr fits ↦ rw fits (
        ap (map_ok contents) (
          loop_same _ each_field each_field_falls (fields row limits, ([], []))
            (at row limits 0 0, ([], [])) (unfold each_field next in rw fits))
        ∙ decode_rest (suc (length row)) row limits 0 0 row ([], []) (omega arith) refl tt
        ∙ joined_nil (read_parts limits 0 (split_tabs row)))
  ]

  check_contents :
      (expected : ℕ) (r : Result Decoded)
      → map_ok contents (r >>= check_count expected) ≡ (map_ok contents r >>= check_arity expected)
  check_contents expected (err e) = refl
  check_contents expected (ok (scratch, out)) =
      rw (length-map (Option.map (slice scratch)) out)
        (elim (Bool-cases (length out == expected)) [ inl e ↦ rw e | inr e ↦ rw e ])

  -- Decoding a row into the buffers gives exactly the values, or the error, of the reference, for
  -- every row, field count and limits.
  pub contents-decode_row :
      (row : Bytes) (expected : ℕ) (limits : Limits)
      → map_ok contents (decode_row row expected limits) ≡ read_row limits row expected
  unfolding decode_row read_row
  contents-decode_row row expected limits =
      check_contents expected (decode_fields (fields row limits, ([], [])))
      ∙ ap (λ r. r >>= check_arity expected) (decode_whole row limits)
      ∙ elim (Bool-cases (ltb limits.max_row_bytes (length row))) [ inl e ↦ rw e | inr e ↦ rw e ]
