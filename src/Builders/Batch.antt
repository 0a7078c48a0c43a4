-- ===== src/Builders/Batch.antt =====
-- src/builders.rs: `BatchBuilder`. A column is what the interface `ColumnOps` says, which
-- Builders.Column.Ops fills: `append` may fail,
-- and tells whether a value was replaced by NULL; `finish` gives its array and leaves it empty. A batch
-- of the arrow crate is the parameter `BatchOps`.
pub mod Sizes
use rust_streamer_pgdb.Builders.Schema.{arrow_schema, DataType}
use rust_streamer_pgdb.Error.{field_count_mismatch, err, ◌>>=◌, internal, ok, Result, Error}
use rust_streamer_pgdb.Prelude.{
  replicate, map, drop, none, ◌+◌, length, codes, ◌||◌, ◌==◌, ◌-◌, take, some, if◌then◌else◌, leb,
  [], ◌≡◌, ◌∷◌, Bool, Bytes, List, Option, ℕ,
}
use rust_streamer_pgdb.Types.{ResolvedType}

pub record ColumnOps (C V : Type 0) : Type 0 where
  pub new_column : ResolvedType → Bool → Bool → C
  pub append : C → Option Bytes → Bytes → Result (C × Bool)
  pub finish : C → C × V
  pub size : C → ℕ
  pub array_size : V → ℕ
  pub new_size : (rt : ResolvedType) (wide native : Bool) → size (new_column rt wide native) ≡ 0
  pub append_size :
      (c : C) (value : Option Bytes) (name : Bytes) (x : C × Bool)
      → append c value name ≡ ok x
      → size x.0 ≡ size c + 1
  pub finish_size : (c : C) → (size (finish c).0 ≡ 0) × (array_size (finish c).1 ≡ size c)

-- `RecordBatch::try_new`, which refuses a batch without columns, and `num_rows`.
pub record BatchOps (V B : Type 0) (array_size : V → ℕ) : Type 0 where
  pub try_new : List (Bytes × DataType) → List V → Result B
  pub num_rows : B → ℕ
  pub some_column : (schema : List (Bytes × DataType)) (b : B) → try_new schema [] ≡ ok b → ⊥
  pub rows_of_column :
      (schema : List (Bytes × DataType)) (v : V) (vs : List V) (b : B)
      → try_new schema (v ∷ vs) ≡ ok b
      → num_rows b ≡ array_size v

pub record BatchBuilder (C : Type 0) : Type 0 where
  pub schema : List (Bytes × DataType)
  pub names : List Bytes
  pub columns : List C
  pub rows : ℕ
  pub bytes : ℕ
  pub max_rows : ℕ
  pub max_bytes : ℕ
  pub substitutions : List ℕ

-- `BatchBuilder::is_full`
unfoldable pub is_full : {C : Type 0} → BatchBuilder C → Bool
is_full b = leb b.max_rows b.rows || leb b.max_bytes b.bytes

-- `range.clone().map(|r| &scratch[r])` and its length
abbrev pub ranged : Bytes → Option (ℕ × ℕ) → Option Bytes
ranged scratch none = none
ranged scratch (some (start, end)) = some (take (end - start) (drop start scratch))

abbrev pub value_length : Option Bytes → ℕ
value_length none = 0
value_length (some v) = length v

abbrev pub range_length : Option (ℕ × ℕ) → ℕ
range_length none = 0
range_length (some (start, end)) = end - start

-- An index behind the columns, where the code would panic.
abbrev pub out_of_bounds : Error
out_of_bounds = internal (codes "index out of bounds")

-- The columns, the substitutions and the bytes behind the fields of a row.
abbrev pub Appended : Type 0 → Type 0
Appended C = List C × List ℕ × ℕ

module _ {C V : Type 0} (ops : ColumnOps C V) where
  abbrev pub new_columns : List (Bytes × ResolvedType) → Bool → Bool → List C
  new_columns [] wide native = []
  new_columns ((n, rt) ∷ columns) wide native =
      ops.new_column rt wide native ∷ new_columns columns wide native

  -- `BatchBuilder::new`
  unfoldable pub new_batch : List (Bytes × ResolvedType) → ℕ → ℕ → Bool → Bool → BatchBuilder C
  new_batch columns max_rows max_bytes wide native = record {
    schema = arrow_schema columns wide native;
    names = map (λ (c : Bytes × ResolvedType). c.0) columns;
    columns = new_columns columns wide native;
    rows = 0;
    bytes = 0;
    max_rows = max_rows;
    max_bytes = max_bytes;
    substitutions = replicate (length columns) 0;
  }

  -- `for (i, value) in values.iter().enumerate()`
  unfoldable pub append_values :
      List (Option Bytes) → List C → List Bytes → List ℕ → ℕ → Result (Appended C)
  append_values [] columns names substitutions bytes = ok (columns, substitutions, bytes)
  append_values (v ∷ values) (c ∷ columns) (n ∷ names) (s ∷ substitutions) bytes =
      ops.append c v n >>= λ x.
      append_values values columns names substitutions (bytes + value_length v) >>= λ rest.
      ok (x.0 ∷ rest.0, (if x.1 then s + 1 else s) ∷ rest.1, rest.2)
  append_values (v ∷ values) _ _ _ bytes = err out_of_bounds

  abbrev pub with_row : BatchBuilder C → Appended C → BatchBuilder C
  with_row b a = record b { columns = a.0; substitutions = a.1; bytes = a.2; rows = b.rows + 1 }

  -- `BatchBuilder::append_row`
  unfoldable pub append_row : BatchBuilder C → List (Option Bytes) → Result (BatchBuilder C)
  append_row b values =
      if length values == length b.columns
      then (append_values values b.columns b.names b.substitutions b.bytes >>= λ a.
          ok (with_row b a))
      else err (field_count_mismatch (length values) (length b.columns))

  -- `for (i, range) in ranges.iter().enumerate()`
  unfoldable pub append_fields :
      Bytes → List (Option (ℕ × ℕ)) → List C → List Bytes → List ℕ → ℕ → Result (Appended C)
  append_fields scratch [] columns names substitutions bytes = ok (columns, substitutions, bytes)
  append_fields scratch (r ∷ ranges) (c ∷ columns) (n ∷ names) (s ∷ substitutions) bytes =
      ops.append c (ranged scratch r) n >>= λ x.
      append_fields scratch ranges columns names substitutions (bytes + range_length r) >>= λ rest.
      ok (x.0 ∷ rest.0, (if x.1 then s + 1 else s) ∷ rest.1, rest.2)
  append_fields scratch (r ∷ ranges) _ _ _ bytes = err out_of_bounds

  -- `BatchBuilder::append_row_ranges`
  unfoldable pub append_row_ranges :
      BatchBuilder C → Bytes → List (Option (ℕ × ℕ)) → Result (BatchBuilder C)
  append_row_ranges b scratch ranges =
      if length ranges == length b.columns
      then (append_fields scratch ranges b.columns b.names b.substitutions b.bytes >>= λ a.
          ok (with_row b a))
      else err (field_count_mismatch (length ranges) (length b.columns))

  -- `columns.iter_mut().map(|c| c.finish())`
  unfoldable pub finish_columns : List C → List C × List V
  finish_columns [] = ([], [])
  finish_columns (c ∷ columns) =
      let rest = finish_columns columns in ((ops.finish c).0 ∷ rest.0, (ops.finish c).1 ∷ rest.1)

  module _ {B : Type 0} (batches : BatchOps V B ops.array_size) where
    -- `BatchBuilder::finish`
    unfoldable pub finish_batch : BatchBuilder C → Result (BatchBuilder C × Option B)
    finish_batch b =
        if b.rows == 0
        then ok (b, none)
        else (batches.try_new b.schema (finish_columns b.columns).1 >>= λ batch.
            ok (
              record b { columns = (finish_columns b.columns).0; rows = 0; bytes = 0 },
              some batch,
            ))
