-- ===== src/Lib.antt =====
-- remindb, the memory database for agents: a verification library for its Go code.
--
-- A compile reads source files, parses them into trees of context nodes (pkg/parser), transforms
-- and redacts them (pkg/transformer, internal/redaction), compares the flat list of nodes with the
-- rows of the database (pkg/diff), and emits the deltas (pkg/emitter) into the store (pkg/store) as
-- one snapshot with its diffs. Queries (pkg/query) read the rows and the diffs under token budgets
-- and row limits; the tools of the server (pkg/mcp/tools) forget nodes and roll back to snapshots.
--
-- Which module models what:
-- - Prelude: Boolean tests, lists and strings of bytes over the native numbers; Prelude.Assoc is a Go
--   map with string keys, Prelude.Sorting a stable sort, Prelude.Result a result with its error,
--   Prelude.Text and Prelude.Paths what is used of Go's strings, strconv, path and filepath.
-- - Parser.Ast: pkg/parser/ast.go. A node's children are a second data type, `Trees`.
-- - Diff: pkg/diff (delta.go, cursor.go, engine.go). Ids are compared as byte strings; the removals
--   are sorted as `sort.Strings` sorts them. Diff.Hash: hash.go, with xxhash as a parameter.
-- - Store.Rows, Store.Removal, Store.Snapshots, Store.Prune: the tables `nodes`, `snapshots`, `diffs`
--   and the HEAD cursor of pkg/store, one function for each statement or method. A table is keyed by
--   id; `ON DELETE CASCADE` drops the rows below a row, found by a walk up the parents whose fuel is
--   the number of rows, which no path without a cycle exceeds. The diffs stand in the order of their
--   ids, which is that of their snapshots.
-- - Emitter: pkg/emitter/emitter.go, from `capturePreState` to `AdvanceCursorTx`.
-- - Compiler: pkg/compiler/compiler.go behind the parsing of the files: `buildPrevState`, the diff and
--   the emit, with the counts of `Result`.
-- - Query.Budget, Query.Engine, Query.Delta, Query.Consolidate: pkg/query. The engine reads through
--   the `QueryStore` interface, a record here; the arithmetic of scores is the record `Scoring`.
-- - Tools.Rollback, Tools.Forget: pkg/mcp/tools/rollback.go and forget.go, without the text of the
--   answers.
-- - Temperature: the configuration of pkg/temperature and the notices of cold nodes.
-- - Session: the registry of pkg/mcp/session as a state machine over requests, snapshots and flushes.
-- - Logbuf: the ring buffer of pkg/logbuf and the state of its handler.
-- - Parser.Preamble: pkg/parser/preamble.go.
-- - Transformer.Whitespace, Transformer.Label, Transformer.Prefix, Transformer.Identity: compress.go,
--   label.go, prefix.go and anchor.go of pkg/transformer; Transformer.Pipeline is `Transform`, which
--   runs them in turn. The fuel of the loop that collapses blank lines is the length of the text,
--   which every round shortens. A node that is changed in place is a node that is built again.
-- - Store.Relations and Relations: the tables of edges and of pending relations of pkg/store, and
--   pkg/relations, from the wikilinks of the compiled nodes to the retry of what is pending.
-- - Pathmatch: internal/pathmatch, the patterns of the files ignore and pinned. `path.Match` on one
--   segment is a parameter.
-- - Treewalk: the walk of internal/treewalk over the children of each node, on fuel of one round for
--   each level.
-- - Walk: the callback that the rescan loop and the compiler walk a directory with, and the extensions
--   and names of internal/fileext. A directory is the tree of its entries.
-- - Rescan: the loop of pkg/mcp/rescan. One scan is a function of the time, the files that the walk
--   finds, the loop and the database; the compile is the function that is given to it.
-- - Ledger: pkg/mcp/ledger/ledger.go over the lines of a client's file. JSON is a parameter.
-- - Redaction: internal/redaction. A regular expression is the function that finds its matches.
--   The sort of the hits is a parameter, since `slices.SortFunc` need not be stable.
-- - Contentid: internal/contentid and internal/tokens. xxhash is a parameter.
--
-- A string is its list of bytes. A floating-point number is its bit pattern; what is computed with it
-- is a parameter. Times, counts and ids are numbers that are not negative. A statement of SQL that
-- fails is an error value, and a transaction that fails leaves the database as it was, because its
-- result is only the error. A write or a slice out of bounds, a panic in Go, is `none`. Names in
-- `Core` say what a snapshot can give back of a node: all but the temperature, the access counts, the
-- times and the pin, which no diff holds.
--
-- Not modelled: the parsers of the formats, which stand on libraries, full-text search and the walk
-- over related nodes, which are SQL, the trigger that makes an edge pending again, statistics,
-- migrations, the doctor, the transports of the server, the command line, and the reading and writing
-- of files. The call of `RunTx` inside a compile is modelled beside the compile, not as a part of it.
pub mod Prelude
pub mod Parser
pub mod Diff
pub mod Store
pub mod Emitter
pub mod Query
pub mod Compiler
pub mod Contentid
pub mod Ledger
pub mod Logbuf
pub mod Pathmatch
pub mod Redaction
pub mod Relations
pub mod Rescan
pub mod Session
pub mod Temperature
pub mod Tools
pub mod Transformer
pub mod Treewalk
pub mod Walk
