-- ===== src/Lib.antt =====
-- A model of the loader that reads a PostgreSQL dump (`pg_dump` in plain text, possibly
-- compressed), cuts it into chunks of whole lines, scans them for table definitions and COPY
-- blocks, hands these from the reader to the workers through a bounded channel, decodes the rows
-- of the blocks into values, and parses these by the declared types of their columns.
--
-- Prelude holds what the parts share: Boolean tests on numbers, lists over the native numbers
-- with `take`, `drop` and slices as lists, searches for a byte, and Prelude.Loop, a loop whose
-- body is a function of its variables and that is run by recursion on a measure each round
-- lowers. No definition takes fuel: each loop comes with the proof that its measure falls, so
-- each function is total. The crate `memchr` is not part of the repository: the record `Memchr`
-- is an instance argument of what calls it, with the documented contract that it finds the first
-- (the last) place of a byte. Prelude.Ascii, Prelude.Text and Prelude.Int are the parts of the
-- standard library that the code calls: a `String` is the list of its bytes in UTF-8, and a
-- signed number that is only counted or compared is an integer without bounds.
--
-- Error is the error type of src/error.rs and the operator `?`; Error.Ends says how a call that
-- may fail ends.
--
-- Copy models src/copy.rs: Copy.Field its constants, limits and fields, Copy.Unescape the
-- escapes, Copy.Rows the iterator over the rows of a chunk, Copy.Fields the iterator over the
-- fields of a row with its three limits, Copy.DecodeRow the decoder with the scratch buffer and
-- the ranges into it. A `&mut` buffer is handed on and returned. A byte is a natural number;
-- arithmetic on a `u8` is written with its remainder by 256. Lines describes text as lines;
-- Copy.DecodeRow.Reference describes a row without buffers, and Copy.DecodeRow.RoundTrip what
-- PostgreSQL writes.
--
-- Dump models src/dump.rs: Dump.Compression the detection of a format by its first bytes,
-- Dump.ChunkReader the reader with its buffer, and Dump.ChunkReader.NextChunk a call of
-- `next_chunk`. What is read from is a parameter, `Reader`, with the contract of
-- `std::io::Read`: any number of bytes up to what there is room for, and none only at the end. A
-- reader is called with the proof that its target is not zero, which `with_limits` establishes
-- and calls keep. `decompressed` and `read_head` are not modelled, since they hand the stream to
-- decoders of other crates.
--
-- Chan models src/chan.rs: the state under the mutex, the two condition variables by how many
-- threads wait, were woken, or are owed a notification, and Chan.Steps the steps of any number
-- of threads in any order. What a call does under the lock is one step, and the notification
-- behind the lock is another. A thread that wakes up is not told apart from others that wait, so
-- a woken sender may go on with any value: the model has more runs than the code.
--
-- Values models parts of src/values.rs: booleans and both forms of `bytea` in Values itself,
-- with Values.Bytea the description of what PostgreSQL writes, one-dimensional array literals in
-- Values.Arrays, and in Values.Numbers the integers and decimals, where the parse of std is
-- bounded by the width of the type and each checked step of an `i128` compares with 2^127.
-- `10_i128.pow(precision)` is written without its overflow, since precisions are at most 38. The
-- counts and lengths of the code (`usize`) are natural numbers, since none of them exceeds the
-- length of a buffer in memory.
--
-- Scan models src/scan.rs. Scan itself has the search for the line that ends a COPY block;
-- Scan.Names the identifiers and qualified names, Scan.Ddl the parsers of CREATE TABLE
-- statements and COPY headers; Scan.Scanner the scanner with its fields, what a line outside a
-- COPY block does to it, and `finish`; Scan.Scanner.Feed the loop of `feed`. The `?` that leaves
-- a call with an error drops the scanner with its events, as its caller does. The maps and sets
-- of the standard library are lists with the last insertion in force, and a slice of the chunk
-- is its bytes. Scan.Scanner.Lines describes a dump line by line; `expand` takes a run of rows
-- as its rows without the carriage returns at their ends, since the code cuts runs as the chunks
-- lie and leaves the carriage returns to the decoder. Scan.Scanner.Blocks says in which order
-- events may come, and Scan.Scanner.Versions which version they tell. Scan.Scanner.Dump puts the
-- scanner behind the reader of Dump.
--
-- Types models src/types.rs: Types.Name takes a declaration apart (array suffixes, parameters,
-- spelling), and Types resolves it. The table of lowercase letters of Unicode is a parameter,
-- `Lowercase`, known on ASCII.
--
-- Builders models src/builders.rs: Builders.Schema has the Arrow type and the new builder of a
-- column, Builders.Column the `ColumnBuilder` with what it holds, and Builders.Batch the
-- `BatchBuilder`, whose columns are the interface `ColumnOps`, which Builders.Column.Ops fills,
-- and whose batches are the parameter `BatchOps`. The builders of the arrow crate are the
-- parameter `ArrowBuilders`, which appends one value for each call and hands over all of them;
-- the parsers of floats, dates and times are the parameter `OtherParsers`, of which nothing is
-- assumed; the check of `ListArray::try_new`, which panics if the offsets and the validity of a
-- list do not agree, is left out. That `with_precision_and_scale` accepts what a `Decimal128`
-- can hold is the contract of the parameter `DecimalBuilder`.
--
-- Sink models parts of src/sink.rs: Sink.Paths has `relative_path` and `table_uri`, on the
-- characters of a name; what is a letter, a digit or a control character is a parameter,
-- `CharClass`, known on ASCII. Sink.Drift has `SchemaDrift` and `diff_schema`, where a type of
-- the Delta kernel is known by the record `KernelType`. Sink.Opening has `preload_table`,
-- `finish_open` and `commit_table`; what delta-rs does is the parameter `Delta`, which answers
-- by its arguments. Sink.Writer is `TableWriter`, over the parameter `WriterOps`, and Sink.Table
-- `TableSink`. A failed load of the log is the answer that the table has no schema yet.
--
-- Pipeline models the reader thread of src/pipeline.rs. Pipeline.Config has the configuration,
-- the choice of tables and the types of the columns of a COPY block, and `reserved_collision` of
-- src/manifest.rs; Pipeline.Pool the jobs of the workers and what the reader receives, where the
-- workers are the parameter `Pool`: it says whether a send is taken and which event is received,
-- by the jobs sent so far. Pipeline.State has the variables of `drive` as a record, with the
-- jobs sent, and the hash maps as association lists; Pipeline.Reader a definition for each arm
-- of its `match`. Pipeline.Commit is phase two, with the order in which the commits come back as
-- an argument, Pipeline.Report the comparison of expected and seen tables, which
-- Pipeline.Drive.Seen ties to the blocks of the dump, and Pipeline.Drive puts them together,
-- behind the scanner and in front of `append` of Manifest, which is an argument that answers
-- with a name or an error. Pipeline.Worker is the loop of a decode worker, from its jobs to its
-- events. Pipeline.Reader.Outline is the machine that the handlers are compared with. The
-- variables are named as in the code. The options for the storage go to delta-rs alone and are
-- left out; so are the permits that bound how many tables are opened or committed at once,
-- panics, and tasks that are cancelled: a table that is opened ahead is opened where the code
-- waits for it, under the name its task was started with. The sums of the code (`u64`) are
-- natural numbers, since they count rows and bytes that were read.
--
-- Manifest models src/manifest.rs: the columns of the load history, each with its values, and
-- `append`. The clock and `RecordBatch::try_new` are arguments.
--
-- Not modelled: floats, dates and times as values, the refusal of managed storage, object
-- stores, and the Python bindings. Floats are the parse of the standard library; object stores
-- and bindings are mostly calls of other crates.
pub mod Prelude
pub mod Error
pub mod Lines
pub mod Copy
pub mod Dump
pub mod Chan
pub mod Values
pub mod Scan
pub mod Types
pub mod Builders
pub mod Sink
pub mod Pipeline
pub mod Manifest
