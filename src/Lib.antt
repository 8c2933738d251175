-- ===== src/Lib.antt =====
-- incresql, an incremental SQL engine: its byte formats, its versioned table store, and the
-- expressions and the row iterators that its queries run on.
--
-- The program is a stack of crates. Under it all, src/data/src holds the values of a row
-- (datum.rs) and their order-preserving byte form (encoding_core.rs, encoding_datum.rs).
-- src/storage/src keeps tables in RocksDB: table.rs turns a row into a key and a value, and reads
-- a table as it was at a point in time. src/planner/src and src/executor/src turn a query into a tree
-- of iterators over such rows.
--
-- Files and the code they model:
--   Prelude, Prelude/Tests, Lists, Int: shared names, tests, lists and integers over the
--     native numbers.
--   Data/Datum: src/data/src/datum.rs, the values, their equality and order. The record
--     `Externals` holds the decimals, a type of another package, and the JSON paths of
--     src/data/src/jsonpath_utils.rs, whose parser is a grammar in a parser library, with the
--     functions that the code calls on them. The order of JSON paths is that of their texts.
--     Data/Datum/Class: the equality as one of the interface.
--   Encoding/SortOrder: src/data/src/lib.rs.
--   Encoding/Bytes: the byte-order functions of the language and of byteorder.
--   Encoding/Unsigned, Signed, Chunks: src/data/src/encoding_core.rs, the variable-length
--     integers and the chunked strings. A writer appends to a buffer; a reader returns the
--     value and the rest, or `none` where the slice is too short.
--   Encoding/Datums: src/data/src/encoding_datum.rs, a tag and the value's bytes. The bytes of a
--     decimal are a parameter (`DecimalCodec`).
--   Storage/Table: the keys and the values of src/storage/src/table.rs.
--   Storage/IndexIter: `IndexIter` of src/storage/src/table.rs. The RocksDB cursor is the list of
--     entries at and after it. The loop runs on that list, so it needs no fuel; `rows` collects
--     what `next` returns and is given as many steps as the table has groups, plus one.
--   Storage/Writer: `Writer` of src/storage/src/table.rs over a database and a write batch with an
--     index, given by their map laws. `atomic_write` fills a batch and commits it; the point lookup
--     reads the database, which shows the writes of a batch only after that.
--   Storage/Merge: frequency_merge_impl, compaction_filter and `table` of src/storage/src/storage.rs.
--   Functions: src/functions/src/lib.rs, the trait of a function as a record (`Functions`) with the
--     law that the planner relies on; Functions/Registry: src/functions/src/registry.rs, the choice
--     of a function by the types of a call's arguments, where a function's own resolver of its return
--     type may panic; Functions/Boolean: src/functions/src/scalar/bool;
--     Functions/Aggregate: count and the 64-bit sum of src/functions/src/aggregate.
--   Ast/Expr: src/ast/src/expr.rs, expressions with their argument lists; Ast/Logical:
--     src/ast/src/rel/logical.rs, the operators of a query.
--   Executor/Scalar: src/executor/src/scalar_expression.rs, the value of an expression on a row.
--   Planner/Expr: src/planner/src/utils/expr.rs, with child modules for column numbers, inlining and
--     predicates; Planner/Fold and Planner/CollapseProjects: fold_constants.rs and
--     collapse_projects.rs of src/planner/src/p2_optimization. A distinct project has a meaning of
--     its own in the rows of a query.
--   Data/DataType, Data/TupleIter: src/data/src/datatype.rs and src/data/src/tuple_iter.rs, the trait
--     and, in Peekable, `PeekableIter`. `Yields` says which rows an iterator delivers.
--   Executor/Aggregate: src/executor/src/aggregate_expression.rs, the states of the aggregates of a
--     group, kept in one slice; Functions/Aggregate/Interface is the trait they are called through.
--   Executor/PointInTime: the executors of that folder of src/executor/src. Each is an iterator
--     over its source. The loops of a filter and of a limit, and those that read a whole source (the
--     build side of a join, a sort, a group), take a bound on the rows of one call, and their
--     theorems hold for each bound that is large enough. A hash map is an association list by the
--     keys' equality; the order in which a hash group walks its map is a parameter that permutes.
--     `sort_unstable_by` is an insertion sort by the code's comparison.
--   Server: src/server/src/mysql. Constants, ProtocolBase and Packets are constants.rs,
--     protocol_base.rs and packets.rs, with what a client sends in Packets/Handshake. How a value
--     prints is an argument of the row packet. The loop over the attributes of a connection has
--     the length of the buffer as its fuel, since each round takes a byte at least. A reader is
--     `none` where it panics on a short packet or on bytes left over.
--   Examples: the theorems at concrete values, those on rows in Examples/Streams.
-- In each part, child modules hold the theorems and are named for what they show.
--
-- Machine integers: a u64 or i64 is a number with its range as a hypothesis, or with its
-- wrap-around written out (`as_u64`, `as_i64`, `wrap_i64`). `none` stands for a panic.
--
-- Not modelled: folding and pushing predicates over a query, the other aggregates, the
-- arithmetic, the casts and the catalog; the parsers of queries and of JSON paths, the connection of
-- the server, JSON and printing, which are text and input; and RocksDB itself.
pub mod Ast
pub mod Data
pub mod Encoding
pub mod Examples
pub mod Executor
pub mod Functions
pub mod Planner
pub mod Prelude
pub mod Server
pub mod Storage
