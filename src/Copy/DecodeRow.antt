-- ===== src/Copy/DecodeRow.antt =====
-- src/copy.rs: `decode_row`. The buffers are cleared on entry, so what they held is no argument;
-- the result holds both as the call leaves them. A range is a pair of its ends.
pub mod Reference
pub mod Refines
pub mod RoundTrip
pub mod Arity
pub mod Blocks
use rust_streamer_pgdb.Copy.Field.{Limits, Field, is_null}
use rust_streamer_pgdb.Copy.Fields.{Fields, Item, fields, next, rounds_left, next_falls}
use rust_streamer_pgdb.Copy.Unescape.{unescape_into}
use rust_streamer_pgdb.Prelude.{
  arith, some, refl, [], ◌∷◌, none, ◌==◌, ◌++◌, ◌<◌, length, if◌then◌else◌, Option, ◌≡◌, ℕ, Memchr,
  List, Bytes,
}
use rust_streamer_pgdb.Error.{◌>>=◌, field_count_mismatch, err, ok, Result}
use rust_streamer_pgdb.Prelude.Loop.{done, more, Round, loop}

abbrev pub Ranges : Type 0
Ranges = List (Option (ℕ × ℕ))

abbrev pub Decoded : Type 0
Decoded = Bytes × Ranges

abbrev pub State : Type 0
State = Fields × Decoded

module _ ⦃m : Memchr⦄ where
  -- The body of the `for` on one field.
  unfoldable pub push_field : Field → Decoded → Result Decoded
  unfolding is_null
  push_field f (scratch, out) = if is_null f then ok (scratch, out ++ none ∷ []) else (do
    scratch' ← unescape_into f scratch
    ok (scratch', out ++ some (length scratch, length scratch') ∷ []))

  abbrev pub continue_with : Fields → Result Decoded → Round State (Result Decoded)
  continue_with g (ok d) = more (g, d)
  continue_with g (err e) = done (err e)

  -- `for field in fields(row, limits)` with the `?` on the item.
  abbrev pub on_item : Item → Decoded → Round State (Result Decoded)
  on_item (none, g) d = done (ok d)
  on_item (some (err e), g) d = done (err e)
  on_item (some (ok f), g) d = continue_with g (push_field f d)

  unfoldable pub each_field : State → Round State (Result Decoded)
  each_field (f, d) = on_item (next f) d

  on_item_falls :
      (f : Fields) (i : Item) (d : Decoded) (t : State)
      → next f ≡ i
      → on_item i d ≡ more t
      → rounds_left t.0 < rounds_left f
  on_item_falls f (none, g) d t e h = cc
  on_item_falls f (some (err r), g) d t e h = cc
  on_item_falls f (some (ok x), g) d t e h = ground (arith, push_field x d, next_falls f g (ok x) e)

  pub each_field_falls : (s t : State) → each_field s ≡ more t → rounds_left t.0 < rounds_left s.0
  unfolding each_field
  each_field_falls (f, d) t h = on_item_falls f (next f) d t refl h

  abbrev pub decode_fields : State → Result Decoded
  decode_fields = loop (λ (s : State). rounds_left s.0) each_field each_field_falls

  -- The test of the field count behind the loop.
  abbrev pub check_count : ℕ → Decoded → Result Decoded
  check_count expected (scratch, out) =
      if length out == expected
      then ok (scratch, out)
      else err (field_count_mismatch (length out) expected)

  unfoldable pub decode_row : Bytes → ℕ → Limits → Result Decoded
  unfolding each_field push_field
  decode_row row expected limits = do
    d ← decode_fields (fields row limits, ([], []))
    check_count expected d
