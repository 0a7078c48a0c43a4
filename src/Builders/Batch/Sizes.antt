-- ===== src/Builders/Batch/Sizes.antt =====
-- src/builders.rs: the columns of a `BatchBuilder` are as long as it has rows.
use rust_streamer_pgdb.Error.Ends.{Ends-ok, Ends-bind, Ends, Anything}
use rust_streamer_pgdb.Builders.Batch.{
  range_length, ranged, ColumnOps, BatchOps, BatchBuilder, new_batch, new_columns, append_fields,
  append_row_ranges, finish_columns, finish_batch, Appended,
}
use rust_streamer_pgdb.Prelude.{
  length-replicate, length-map, ==_iff, ◌∙◌, inr, sym, inl, refl, suc, arith, ◌==◌, Bool-cases, [],
  Bool, ap, none, ◌∷◌, ◌+◌, some, length, Option, ℕ, List, Bytes, ◌≡◌,
}
use rust_streamer_pgdb.Types.{ResolvedType}
use rust_streamer_pgdb.Builders.Schema.{DataType}

module _ {C V : Type 0} (ops : ColumnOps C V) where
  abbrev pub AllSized : ℕ → List C → Type 0
  AllSized n [] = Unit
  AllSized n (c ∷ columns) = (ops.size c ≡ n) × AllSized n columns

  -- Each column has as many values as the builder has rows, and there is a name and a count for it.
  abbrev pub IsSized : BatchBuilder C → Type 0
  IsSized b =
      AllSized b.rows b.columns
      × (length b.names ≡ length b.columns)
      × (length b.substitutions ≡ length b.columns)

  pub new_batch-IsSized :
      (columns : List (Bytes × ResolvedType)) (max_rows max_bytes : ℕ) (wide native : Bool)
      → IsSized (new_batch ops columns max_rows max_bytes wide native)
  unfolding new_batch
  new_batch-IsSized columns max_rows max_bytes wide native = (
    sized columns,
    length-map (λ (c : Bytes × ResolvedType). c.0) columns ∙ sym (as_long columns),
    length-replicate (length columns) 0 ∙ sym (as_long columns),
  )
    where
      sized :
          (columns : List (Bytes × ResolvedType)) → AllSized 0 (new_columns ops columns wide native)
      sized [] = tt
      sized ((n, rt) ∷ columns) = (ops.new_size rt wide native, sized columns)

      as_long :
          (columns : List (Bytes × ResolvedType))
          → length (new_columns ops columns wide native) ≡ length columns
      as_long [] = refl
      as_long ((n, rt) ∷ columns) = ap suc (as_long columns)

  -- A row puts one value into every column.
  abbrev Grown : ℕ → ℕ → Appended C → Type 0
  Grown n k a = AllSized (n + 1) a.0 × (length a.0 ≡ k) × (length a.1 ≡ k)

  append_fields-Grown :
      (n : ℕ) (scratch : Bytes) (ranges : List (Option (ℕ × ℕ))) (columns : List C)
      (names : List Bytes) (counts : List ℕ) (bytes : ℕ)
      → length ranges ≡ length columns
      → length names ≡ length columns
      → length counts ≡ length columns
      → AllSized n columns
      → Ends Anything
          (Grown n (length columns))
          (append_fields ops scratch ranges columns names counts bytes)
  unfolding append_fields
  append_fields-Grown n scratch [] [] names counts bytes r m k h = (tt, refl, k)
  append_fields-Grown n scratch [] (c ∷ columns) names counts bytes r m k h = absurd (omega arith)
  append_fields-Grown n scratch (r ∷ ranges) [] names counts bytes e m k h = absurd (omega arith)
  append_fields-Grown n scratch (r ∷ ranges) (c ∷ columns) [] counts bytes e m k h =
      absurd (omega arith)
  append_fields-Grown n scratch (r ∷ ranges) (c ∷ columns) (name ∷ names) [] bytes e m k h =
      absurd (omega arith)
  append_fields-Grown n scratch (r ∷ ranges) (c ∷ columns) (name ∷ names) (s ∷ counts) bytes e m k
        h =
      Ends-bind Anything (λ x. ops.size x.0 ≡ n + 1) _ (ops.append c (ranged scratch r) name) _
        (Ends-ok _ (ops.append c (ranged scratch r) name)
          λ x e. ops.append_size c (ranged scratch r) name x e ∙ ap (λ n. n + 1) h.0)
        λ x g.
          Ends-bind Anything _ _
            (append_fields ops scratch ranges columns names counts (bytes + range_length r)) _
            (append_fields-Grown n scratch ranges columns names counts (bytes + range_length r)
              (omega arith) (omega arith) (omega arith) h.1)
            λ rest t. ((g, t.0), ap suc t.1, ap suc t.2)

  pub append_row_ranges-IsSized :
      (b : BatchBuilder C) (scratch : Bytes) (ranges : List (Option (ℕ × ℕ)))
      → IsSized b
      → Ends Anything
          (λ t. IsSized t × (t.rows ≡ b.rows + 1))
          (append_row_ranges ops b scratch ranges)
  unfolding append_row_ranges
  append_row_ranges-IsSized b scratch ranges h =
      elim (Bool-cases (length ranges == length b.columns)) [
        | inl same ↦ rw same (
            Ends-bind Anything _ _
              (append_fields ops scratch ranges b.columns b.names b.substitutions b.bytes) _
              (append_fields-Grown b.rows scratch ranges b.columns b.names b.substitutions b.bytes
                ((==_iff (length ranges) (length b.columns)).0 same) h.1 h.2 h.0)
              λ a g. ((g.0, h.1 ∙ sym g.1, g.2 ∙ sym g.1), refl))
        | inr other ↦ rw other tt
      ]

  finish_columns-sized :
      (n : ℕ) (columns : List C)
      → AllSized n columns
      → AllSized 0 (finish_columns ops columns).0
        × (length (finish_columns ops columns).0 ≡ length columns)
  unfolding finish_columns
  finish_columns-sized n [] h = (tt, refl)
  finish_columns-sized n (c ∷ columns) h =
      let rest = finish_columns-sized n columns h.1 in
      (((ops.finish_size c).0, rest.0), ap suc rest.1)

  module _ {B : Type 0} (batches : BatchOps V B ops.array_size) where
    abbrev pub rows_in : Option B → ℕ
    rows_in none = 0
    rows_in (some batch) = batches.num_rows batch

    try_new-rows :
        (schema : List (Bytes × DataType)) (n : ℕ) (columns : List C)
        → AllSized n columns
        → Ends Anything
            (λ batch. batches.num_rows batch ≡ n)
            (batches.try_new schema (finish_columns ops columns).1)
    unfolding finish_columns
    try_new-rows schema n [] h =
        Ends-ok _ (batches.try_new schema []) λ batch e. absurd (batches.some_column schema batch e)
    try_new-rows schema n (c ∷ columns) h =
        Ends-ok _ (batches.try_new schema (finish_columns ops (c ∷ columns)).1) λ batch e.
          batches.rows_of_column schema (ops.finish c).1 (finish_columns ops columns).1 batch e
          ∙ (ops.finish_size c).1
          ∙ h.0

    -- A batch has all rows that were appended, and the builder is empty behind it.
    pub finish_batch-IsSized :
        (b : BatchBuilder C)
        → IsSized b
        → Ends Anything
            (λ t. IsSized t.0 × (t.0.rows ≡ 0) × (rows_in t.1 ≡ b.rows))
            (finish_batch ops batches b)
    unfolding finish_batch
    finish_batch-IsSized b h = elim (Bool-cases (b.rows == 0)) [
      | inl done ↦ rw done (h, (==_iff b.rows 0).0 done, sym ((==_iff b.rows 0).0 done))
      | inr left ↦ rw left (
          Ends-bind Anything _ _ (batches.try_new b.schema (finish_columns ops b.columns).1) _
            (try_new-rows b.schema b.rows b.columns h.0)
            λ batch e.
              let emptied : AllSized 0 (finish_columns ops b.columns).0
                  × (length (finish_columns ops b.columns).0 ≡ length b.columns) =
                finish_columns-sized b.rows b.columns h.0 in
              ((emptied.0, h.1 ∙ sym emptied.1, h.2 ∙ sym emptied.1), refl, e))
    ]
