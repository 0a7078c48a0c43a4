-- ===== src/Pipeline/State.antt =====
-- src/pipeline.rs: the variables of `drive` and its maps and sets, which are lists.
use rust_streamer_pgdb.Error.{Error, internal}
use rust_streamer_pgdb.Pipeline.Pool.{Sent}
use rust_streamer_pgdb.Prelude.{
  ◌==◌, not, ◌||◌, bytes_eq, false, true, ltb, ◌&&◌, some, Bool, if◌then◌else◌, none, ◌∷◌, Bytes,
  List, [], Option, ℕ, codes,
}
use rust_streamer_pgdb.Scan.Names.{TableName}
use rust_streamer_pgdb.Sink.Opening.{Schema}
use rust_streamer_pgdb.Scan.Ddl.{TableDef}
use rust_streamer_pgdb.Sink.Drift.{SchemaDrift}
use rust_streamer_pgdb.Types.{ResolvedType}

pub record CommitTarget (T A : Type 0) : Type 0 where
  pub qualified : Bytes
  pub table : T
  pub schema : Schema
  pub drift : SchemaDrift
  pub actions : List A

pub record OpenBlock : Type 0 where
  pub generation : ℕ
  pub table : TableName
  pub qualified : Bytes
  pub columns : List (Bytes × ResolvedType)
  pub drift : SchemaDrift

pub record TableStats : Type 0 where
  pub table : Bytes
  pub schema_drift : SchemaDrift
  pub rows : ℕ
  pub batches : ℕ
  pub delta_version : ℕ
  pub null_substitutions : List (Bytes × ℕ)
  pub text_fallback_columns : List (Bytes × Bytes)

pub record Progress : Type 0 where
  pub bytes_read : ℕ
  pub rows : ℕ
  pub tables_done : ℕ
  pub table : Option Bytes

-- The variables of `drive`, the jobs sent, and how often `progress` was called.
pub record Reader (T A : Type 0) : Type 0 where
  pub seen_tables : List Bytes
  pub table_defs : List (Bytes × TableDef)
  pub preloads : List (Bytes × TableName)
  pub dumped_by : Option ℕ
  pub from_database : Option ℕ
  pub total_rows : ℕ
  pub tables : List TableStats
  pub open_tables : List (CommitTarget T A)
  pub staged : List (Bytes × List A)
  pub generation : ℕ
  pub current : Option OpenBlock
  pub round_robin : ℕ
  pub skipping : Bool
  pub sent : List Sent
  pub progress_calls : ℕ

abbrev pub new_reader : {T A : Type 0} → Reader T A
new_reader = record {
  seen_tables = [];
  table_defs = [];
  preloads = [];
  dumped_by = none;
  from_database = none;
  total_rows = 0;
  tables = [];
  open_tables = [];
  staged = [];
  generation = 0;
  current = none;
  round_robin = 0;
  skipping = false;
  sent = [];
  progress_calls = 0;
}

-- `HashMap::insert`, `get` and `remove`.
module _ {V : Type 0} where
  unfoldable pub insert_key : Bytes → V → List (Bytes × V) → List (Bytes × V)
  insert_key key v [] = (key, v) ∷ []
  insert_key key v ((k, w) ∷ rest) =
      if bytes_eq k key then (key, v) ∷ rest else (k, w) ∷ insert_key key v rest

  unfoldable pub get_key : Bytes → List (Bytes × V) → Option V
  get_key key [] = none
  get_key key ((k, w) ∷ rest) = if bytes_eq k key then some w else get_key key rest

  unfoldable pub remove_key : Bytes → List (Bytes × V) → List (Bytes × V)
  remove_key key [] = []
  remove_key key ((k, w) ∷ rest) = if bytes_eq k key then rest else (k, w) ∷ remove_key key rest

abbrev pub or_empty : {A : Type 0} → Option (List A) → List A
or_empty none = []
or_empty (some actions) = actions

-- `BTreeSet::insert` on names in the order of their bytes.
unfoldable pub bytes_less : Bytes → Bytes → Bool
bytes_less [] [] = false
bytes_less [] (b ∷ bs) = true
bytes_less (a ∷ as') [] = false
bytes_less (a ∷ as') (b ∷ bs) = ltb a b || (a == b && bytes_less as' bs)

unfoldable pub insert_name : Bytes → List Bytes → List Bytes
insert_name name [] = name ∷ []
insert_name name (n ∷ names) =
    if bytes_eq n name
    then n ∷ names
    else if bytes_less name n
    then name ∷ n ∷ names
    else n ∷ insert_name name names

abbrev pub keep_counts : List ((Bytes × ResolvedType) × ℕ) → List (Bytes × ℕ)
keep_counts [] = []
keep_counts ((c, count) ∷ rest) =
    let kept = keep_counts rest in if ltb 0 count then (c.0, count) ∷ kept else kept

abbrev pub fallback_columns : List (Bytes × ResolvedType) → List (Bytes × Bytes)
fallback_columns [] = []
fallback_columns ((n, rt) ∷ rest) =
    let kept = fallback_columns rest in if rt.recognised then kept else (n, rt.source) ∷ kept

abbrev pub mismatched : Option ℕ → ℕ → Bool
mismatched none major = false
mismatched (some expected) major = not (major == expected)

abbrev pub block_open : Error
block_open = internal (codes "COPY block started while another was still open")

abbrev pub no_open_block : Error
no_open_block = internal (codes "COPY rows arrived with no open block")

abbrev pub none_open : Error
none_open = internal (codes "COPY block ended with none open")

abbrev pub other_name : Error
other_name = internal (codes "COPY block ended under a different name than it began")

abbrev pub same_option : Option Bytes → Option Bytes → Bool
same_option none none = true
same_option (some a) (some b) = bytes_eq a b
same_option _ _ = false

-- `TableName`'s equality
abbrev pub same_table : TableName → TableName → Bool
same_table a b = same_option a.schema b.schema && bytes_eq a.table b.table
