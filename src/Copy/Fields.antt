-- ===== src/Copy/Fields.antt =====
-- src/copy.rs: `fields` and the iterator `Fields`.
use rust_streamer_pgdb.Copy.Field.{Limits, Field, classify}
use rust_streamer_pgdb.Prelude.{
  ◌-◌, length, ltb, suc, none, sym, if◌then◌else◌, length-drop, first_index-SplitsAt, arith, take,
  ◌<◌, drop, some, Bool, first_index, true, ◌≡◌, ◌+◌, false, ℕ, Bytes, Option, Memchr,
}
use rust_streamer_pgdb.Error.{ok, field_too_large, row_too_large, too_many_columns, err, Result}

pub record Fields : Type 0 where
  pub row : Bytes
  pub pos : ℕ
  pub count : ℕ
  pub limits : Limits
  pub finished : Bool
  pub row_checked : Bool

abbrev pub fields : Bytes → Limits → Fields
fields row limits = record {
  row = row;
  pos = 0;
  count = 0;
  limits = limits;
  finished = false;
  row_checked = false;
}

-- `Option<Self::Item>` and the iterator behind the call.
abbrev pub Item : Type 0
Item = Option (Result Field) × Fields

-- The slice up to the tab, and the iterator behind it.
abbrev pub take_raw : Option ℕ → Fields → Bytes × Fields
take_raw (some off) f = (take off (drop f.pos f.row), record f { pos = f.pos + off + 1 })
take_raw none f = (drop f.pos f.row, record f { finished = true })

-- The rounds that are left: every call that yields an item lowers it.
abbrev pub rounds_left : Fields → ℕ
rounds_left f =
    (if f.finished then 0 else suc (length f.row - f.pos)) + (if f.row_checked then 0 else 1)

module _ ⦃m : Memchr⦄ where
  -- The bounds, in the order of the code, on the slice and the iterator behind it.
  abbrev pub check_raw : Bytes × Fields → Item
  check_raw (raw, f) =
      let counted = record f { count = f.count + 1 } in
      let ended = record f { count = f.count + 1; finished = true } in
      if ltb f.limits.max_columns counted.count
      then (some (err (too_many_columns counted.count f.limits.max_columns)), ended)
      else if ltb f.limits.max_field_bytes (length raw)
      then (some (err (field_too_large (length raw) f.limits.max_field_bytes)), ended)
      else (some (ok (classify raw)), counted)

  -- From the test of `finished` on.
  abbrev pub next_raw : Fields → Item
  next_raw f =
      if f.finished then (none, f) else check_raw (take_raw (m.memchr b'\t' (drop f.pos f.row)) f)

  -- `Fields::next`
  unfoldable pub next : Fields → Item
  next f =
      if f.row_checked
      then next_raw f
      else if ltb f.limits.max_row_bytes (length f.row)
      then (
        some (err (row_too_large (length f.row) f.limits.max_row_bytes)),
        record f { row_checked = true; finished = true },
      )
      else next_raw (record f { row_checked = true })

  take_raw_falls :
      (f : Fields) (o : Option ℕ)
      → first_index b'\t' (drop f.pos f.row) ≡ o
      → f.finished ≡ false
      → rounds_left (take_raw o f).1 < rounds_left f
  take_raw_falls f none e u = ground arith
  take_raw_falls f (some off) e u =
      let hit = first_index-SplitsAt b'\t' (drop f.pos f.row) off e in
      ground (arith, hit.within, length-drop f.pos f.row)

  pub next_falls :
      (f g : Fields) (r : Result Field) → next f ≡ (some r, g) → rounds_left g < rounds_left f
  unfolding next
  next_falls f g r h = ground (
    arith,
    take_raw_falls f _ (sym (m.memchr_first b'\t' (drop f.pos f.row))),
    take_raw_falls (record f { row_checked = true }) _
        (sym (m.memchr_first b'\t' (drop f.pos f.row))),
  )
