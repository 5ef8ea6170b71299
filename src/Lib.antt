-- ===== src/Lib.antt =====
-- A verification library for DQL, a query language in two forms: a classic query (a document of
-- SELECT, WHERE, JOIN, GROUP BY, HAVING, ORDER BY, LIMIT and OFFSET) and a pipe of stages.
--
-- The program. A classic query is planned against the catalogue (planner/planner.go): what SQL can
-- do is pushed, the rest is left for memory. The generator (sqlgen/sql_generator.go) writes a
-- parameterised statement from the plan, with the partition columns that the host requires
-- (scope/scope.go), and the processor (processor/processor.go) does the rest to the rows that come
-- back. The engine (exec/engine.go) puts these together: it gives a query its limits, plans and
-- generates, reads what the database answers, processes it, adds what the ids in it stand for
-- (expand/expander.go), and tells the two forms of a query apart. A query that comes in is checked
-- first (parser/parser.go). A pipe is written as JSON or in a textual form (pipe/textual.go) that
-- is split at its bars, tokenized and parsed. It is planned (pipe/planner.go) into one classic
-- query, for its longest prefix that folds, and a tail of operators; the executor
-- (pipe/executor.go) asks the classic engine for the prefix, runs the tail in memory over it,
-- keeps the outputs that later stages name, and can replay the end of a run over a snapshot. A
-- sheet (sheet/) is a list of named formulas that refer to each other, put into an order in which
-- they can be computed.
--
-- The files. A directory has the name of the package that it models.
--   Prelude    names passed on from the libraries, Boolean tests, lists over the native numbers,
--              Go's results (a value or an error), its integers, and `sort.Slice`.
--   Go         what of Go the program computes with: `any` as the data type Value, a row as an
--              association list, the functions of strings and strconv, and the coercions
--              (`compareValues`, `toFloat`, `toBool`) of pipe/helpers.go and the processor; Runes is
--              a text as code points, Numbers `strconv.Atoi`, Wrap the sums of an int.
--   Dsl        dsl/types.go: WHERE trees, queries, datasets and plans; Dsl.Tree is the walk over a
--              WHERE tree that the processor and the pipe both write out, over the test of a
--              simple condition; Dsl.Filters has the laws of filtering by a tree.
--   Scope      scope/scope.go.
--   Planner    planner/planner.go: Where is `splitWhere`, Joins the JOIN loop, Select `planSelect`
--              and `buildColumnInfo`, Plan is `Plan`. Paging and Pushdown are theorems; Where.Sql is what is
--              asked of a database for the latter.
--   Processor  processor/processor.go: Where, Aggregate and Steps are its functions, Process is
--              `Process` and `ProcessInMemory`. Sizes and Pages are theorems.
--   Sqlgen     sqlgen/sql_generator.go: Emit is the state of `sqlGen` (the text as a list of pieces,
--              so that a placeholder is told apart from text, and the parameters), Ident the quoting,
--              Condition `writeWhereClause`, Generate `GenerateSQL` and its clauses. Numbering,
--              Placeholders, Bound, Operands, Joining, Tenancy and Limits are theorems.
--   Pipe       pipe/: Operator is the operator interface, a stage and a chain; Where is `evalWhere`,
--              Order `orderSpec`; Rows, Columns, Grouping, Branching, Lookup, Window, Reshape
--              and Quality are the operators and their factories; Graph is the check of ids and references, Moves and
--              Plan are `PlanPipe`, Execute the run of the tail and the replay, Detailed is
--              `ExecuteDetailed` and the classification. Text is pipe/textual.go: Split is
--              `splitTopLevel`, Token `tokenize`, Stages and Reshape the parsers of the stages, Parse
--              `ParseText` and `ParseTextLenient`. Theorems stand in child modules.
--   Sheet      sheet/formula.go and sheet/dag.go: Formula is a formula and the check of a list of
--              them, Dag is `topoSort`.
--   Parser     parser/parser.go and pipe/validate.go: Validate is `Validate`, Shape `ValidateShape`,
--              Normalize the parameters and the normalisers. Accepted is a theorem.
--   Expand     expand/: Expander is `Expand`; Direct is a theorem.
--   Exec       exec/: Scan is `executeSQL` and exec/querier.go, Config `NewEngine` and
--              `applyDefaults`, Classic `executeClassic` and `explainClassic`, Dispatch the rest of
--              exec/engine.go, Cursor and Stream exec/stream.go with `streamPrefix` of
--              pipe/source.go. Trace, Bounds, Paged, Clipped, Drained, Complete, Enriched and
--              Ignored are theorems.
--   Checks     concrete data, and the theorems applied to it.
--
-- The correspondence. A Go function is a function with the snake_case form of its name; one that
-- is long has a definition for each of its parts. A `(T, error)` is an Outcome. Go's pointers to
-- optional values are Options, its maps association lists, its type switches clauses on Value.
-- An operator is a record of its name, `IsLiveSafe` and `Apply`, where Apply takes the rows and the
-- world, a type that is a parameter: side effects are changes of the world. What is mutated in
-- place (the generator's buffer, the executor's snapshot and cache) is passed along as state.
--
-- Parameters. Floats and Unicode case (Go.Runtime), the classes of Unicode characters
-- (Go.Runes.Unicode), the conversions of strconv and time that a cast or a token rests on, decoding
-- of JSON, the host's expression evaluator, the schema resolver, the database, the directory of
-- users and teams, how a map stands in a column, and the registered factories of operators. A
-- theorem that needs something of them says it as a hypothesis: of the database, that a statement
-- that binds a number behind LIMIT is answered with at most so many rows; or, for the halves of a
-- WHERE clause, that it evaluates AND, OR and NOT as SQL does and agrees with the processor on the
-- simple conditions of the clause, which is not so of all of them.
--
-- Bounds. Each loop of the program that is modelled runs over a list or a tree, and is recursion
-- on it, except the main loop of `topoSort`, which has fuel: the indices that are ready and the
-- degrees, taken together, as each round takes an index and each index that becomes ready a
-- degree; the tokenizer, whose fuel is the number of characters, as each token takes one at least;
-- and the drain of a cursor, whose fuel is the rows that the database has yet to give and one.
-- Lengths, limits and offsets are natural numbers or the integers of Prelude.Int. The one sum of two
-- numbers that a caller chooses, offset and limit in the pagination of a result, and the page number
-- beside it wrap around at 64 bits (Go.Wrap); other sums count rows, stages, characters and
-- parameters, which memory bounds. Sums of integer columns are floats as in the source.
--
-- Not modelled: decoding from JSON (encoding/json in front of the parser, and the forms that
-- dsl/types.go reads), the rest of sheets (sheet/) with the signal of a complete source that they
-- read, the cache of a lookup, times, the setters of services, the operators on times, histograms,
-- samples and computed columns, the calls to host services, and the tables for editors
-- (pipe/catalog.go, lang/, cmd/dql-lsp).
pub mod Prelude
pub mod Go
pub mod Dsl
pub mod Scope
pub mod Planner
pub mod Processor
pub mod Sqlgen
pub mod Pipe
pub mod Sheet
pub mod Parser
pub mod Expand
pub mod Exec
pub mod Checks
