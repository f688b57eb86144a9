-- ===== src/Lib.antt =====
-- libpreludedb stores intrusion-detection messages (IDMEF) in SQL databases. A client opens a
-- connection from a settings string, selects paths of the messages, and reads, inserts or deletes
-- messages through a format plugin, which builds SQL, and a SQL plugin, which runs it.
--
-- The parts and their files:
--   * Base: shared lists, tests and text; Base/Append has the functions that write behind the text
--     that they are given, Base/Decimal the reading of printed numbers; Base/Errors has the error
--     codes of src/include/preludedb-error.h and the results that carry them. `fault` marks a read
--     through a null pointer, at which the model stops.
--   * Settings: src/preludedb-sql-settings.c. `set_from_string` is the loop over `get_name` and
--     `get_value`, each a function of the rest of the string; libprelude's hash is `HashLib`.
--   * Sql: src/preludedb-sql.c. The record `Sql` is `struct preludedb_sql`; each operation takes it
--     and returns it with its result. The database is a `Plugin`, with any answer to any statement.
--     The recursive lock is the number of times that the calling thread holds it.
--   * Criteria: the criterion strings of src/preludedb-sql.c. The operators of libprelude are
--     `Operators`, and what the SQL plugin writes is `Writer`.
--   * Rows: the results of src/preludedb-sql.c, a cache of rows over the SQLite plugin,
--     plugins/sql/sqlite3/sqlite3.c. SQLite's statement is a `Cursor`.
--   * Delete: plugins/format/classic/classic-delete.c, on top of Sql: one transaction for each
--     deletion.
--   * Format: src/preludedb-plugin-format.c: the deletion of lists for a format plugin that has
--     none of its own.
--   * Joins: plugins/format/classic/classic-sql-join.c: the tables that a SELECT statement joins.
--     libprelude's paths are `PathLib`, of two elements or more.
--   * PathResolve: plugins/format/classic/classic-path-resolve.c, which table and columns hold the
--     value of a path, on top of Joins; and the column count of plugins/format/classic/classic.c.
--     PathResolve/Select puts it below `SqlSelect.add_selected`.
--   * ClassicCriteria: the criteria of plugins/format/classic/classic-path-resolve.c: the condition
--     of a statement, and what it means when it is read with AND before OR.
--   * ClassicQueries: the statements of plugins/format/classic/classic.c for values and for the
--     idents of messages, on top of PathResolve, ClassicCriteria, Joins and SqlSelect.
--   * Insert: plugins/format/classic/classic-insert.c: the rows of every IDMEF class, and the
--     transaction around them. Insert/Classes has libprelude's messages, `Database` in Insert/Row
--     the operations that the insertion calls, Insert/OverSql their definition on top of Sql.
--     Insert/Steps is the relation of what the insertion does, with the steps of each class below
--     it; Insert/Deleted joins it to the statements of Delete. The `fault` of a tool alert, at which
--     the program crashes inside the transaction, is returned like an error, and ends it.
--   * SqlPlugins: what plugins/sql/sqlite3/sqlite3.c, plugins/sql/pgsql/pgsql.c and
--     plugins/sql/mysql/mysql.c write: operators, constraints, parts of times, intervals, limits.
--     SqlPlugins/Binary has the escaping of src/preludedb-plugin-sql.c for a plugin without its own.
--   * Samples: values for the tests of several parts.
--   * Idmef: what is used of libprelude's IDMEF values and strings.
--   * PathSelection: src/preludedb-path-selection.c: selected objects, and the layout of their
--     columns in a result. An IDMEF path is any type.
--   * SqlSelect: src/preludedb-sql-select.c: the columns and clauses of a SELECT statement for a
--     selection. `Writers` is what the format plugin and the SQL plugin write.
--
-- Bytes are numbers, strings are lists of them. Unsigned 32-bit counters wrap around.
--
-- Fuel: `Settings.set_from_string` is given a round for each character and one more, and
-- `SqlSelect.add_selection` a round for each path and one more; both are shown to be enough. The
-- loop of `Delete.string_from_result_ident` takes its fuel as an argument, since it may not end.
-- The loop of `Rows.fetch_row` runs once for each row that is missing.
--
-- Not modelled: the null that libprelude returns for the text of an empty string, where values are
-- escaped; failures of malloc and strdup outside the string appends of `StringLib`; the log
-- of statements; reference counts of objects, selections, rows and tables; the row count, the
-- conversions of fields and the reading of timestamps in src/preludedb-sql.c; the sessions and
-- results of the plugins for MySQL and PostgreSQL; the retrieval of messages in
-- plugins/format/classic/classic-get.c; the handle of src/preludedb.c; the deletions from results in
-- src/preludedb-plugin-format.c; the other files of src; the bindings, the administration tool, the
-- generated parser, and gnulib in libmissing.
pub mod Base
pub mod Settings
pub mod Sql
pub mod Delete
pub mod Idmef
pub mod Insert
pub mod Format
pub mod PathSelection
pub mod SqlSelect
pub mod Criteria
pub mod Rows
pub mod Joins
pub mod PathResolve
pub mod Samples
pub mod SqlPlugins
pub mod ClassicCriteria
pub mod ClassicQueries
