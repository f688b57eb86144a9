-- ===== src/Rows.antt =====
-- src/preludedb-sql.c: the rows of a statement's result. A table keeps the rows that were fetched,
-- and asks the plugin for the others; the plugin here is plugins/sql/sqlite3/sqlite3.c, on a
-- statement of SQLite, which is a parameter.
pub mod Append
pub mod Access
pub mod Random
pub mod Fields
mod Tests
use libpreludedb.Base.{
  ℕ, zero, suc, ◌+◌, ◌-◌, ◌%◌, ◌≡◌, Bool, true, false, Option, none, some, List, [], ◌∷◌, ◌++◌,
  Bytes, Result, ok, err, Error, index, query, foreign, length, get_elem?, set, replicate, leb,
  ◌==◌, if◌then◌else◌,
}
use libpreludedb.Idmef.{ℤ, pos, negsuc}
use libpreludedb.Idmef.{uint32_mod}
use libpreludedb.Sql.{Plugin, Sql, update_sql_from_errno}

-- The value of a field: not read yet, NULL, or text.
pub data Cell : Type 0 where
  unread null_cell : Cell
  value : Bytes → Cell

-- `struct preludedb_sql_row`, without its reference count
pub record Row : Type 0 where
  pub index : ℕ
  pub fields : List Cell

-- `struct preludedb_sql_table`; `rows` holds null pointers, and its length is `nrow`.
pub record Table (Statement : Type 0) : Type 0 where
  pub rows : List (Option Row)
  pub column_count : ℕ
  pub done : Bool
  pub statement : Statement

-- SQLite: sqlite3_column_count, and sqlite3_step with the bytes of each column of the row
pub record Cursor (Statement : Type 0) : Type 0 where
  pub columns : ℕ
  pub step : Statement → Result (Option (List Bytes)) × Statement

-- The pointer that a fetch hands back, or leaves as it was.
abbrev pub Pointer : Type 0
Pointer = Option ℕ

-- `preludedb_sql_row_new_field`
abbrev pub cell_of : Option Bytes → Cell
cell_of none = null_cell
cell_of (some content) = value content

unfoldable pub row_new_field : Row → ℕ → Option Bytes → Row
row_new_field row num content = record row { fields = set row.fields num (cell_of content) }

-- `sql_table_field_copy`: a column of no bytes has no data.
abbrev pub column_data : Bytes → Option Bytes
column_data [] = none
column_data (c ∷ bytes) = some (c ∷ bytes)

unfoldable pub field_copy : Row → ℕ → Bytes → Row
unfolding row_new_field
field_copy row col bytes = row_new_field row col (column_data bytes)

-- the loop over the columns in `sql_fetch_row`
unfoldable pub copy_fields : Row → ℕ → List Bytes → Row
copy_fields row i [] = row
copy_fields row i (bytes ∷ columns) = copy_fields (field_copy row i bytes) (i + 1) columns

module _ {Statement : Type 0} (cursor : Cursor Statement) where
  open cursor use {columns, step}

  -- `preludedb_sql_table_get_column_count`
  unfoldable pub table_get_column_count : Table Statement → ℕ × Table Statement
  table_get_column_count t =
      if t.column_count == 0
      then (columns, record t { column_count = columns })
      else (t.column_count, t)

  -- the rows, with null pointers up to `n` of them
  abbrev pub grown : List (Option Row) → ℕ → List (Option Row)
  grown rows n = rows ++ replicate (n - length rows) none

  -- `preludedb_sql_table_new_row`
  unfoldable pub table_new_row : Table Statement → ℕ → Row × Table Statement
  unfolding table_get_column_count
  table_new_row t row_index =
      let (n, t') = table_get_column_count t in
      let row : Row = record { index = row_index; fields = replicate n unread } in
      let rows =
        if leb (length t'.rows) row_index then grown t'.rows (row_index + 1) else t'.rows in
      (row, record t' { rows = set rows row_index (some row) })

  -- A row of the statement behind the rows of the table.
  unfoldable pub add_row : List Bytes → Table Statement → Table Statement
  unfolding table_new_row copy_fields
  add_row bytes t =
      let (row, t') = table_new_row t (length t.rows) in
      record t' { rows = set t'.rows (length t.rows) (some (copy_fields row 0 bytes)) }

  -- The loop of `sql_fetch_row`, with the rows that are missing. `ok none` stands for 0, and
  -- `ok (some row)` for 1 and the pointer to a row.
  unfoldable pub fetch_rows :
      ℕ → Pointer → Table Statement → Result (Option Pointer) × Table Statement
  fetch_rows zero row t = (ok (some row), t)
  fetch_rows (suc missing) row t =
      let (r, st) = step t.statement in
      elim r [
        | err e ↦ (err query, record t { statement = st })
        | ok none ↦ (ok none, record t { statement = st })
        | ok (some bytes) ↦
            fetch_rows missing (some (length t.rows)) (add_row bytes (record t { statement = st }))
      ]

  -- `sql_fetch_row`
  unfoldable pub fetch_row : ℕ → Table Statement → Result (Option Pointer) × Table Statement
  unfolding fetch_rows
  fetch_row row_index t = fetch_rows ((row_index + 1) - length t.rows) none t

  module _ (plugin : Plugin) where
    open plugin use {Session}

    abbrev fetched :
        Result (Option Pointer) × Table Statement
        → Sql Session
        → Result (Option Pointer) × Table Statement × Sql Session
    fetched (err e, t) s = (err e, t, update_sql_from_errno plugin e s)
    fetched (ok none, t) s = (ok none, record t { done = true }, s)
    fetched (ok (some row), t) s = (ok (some row), t, s)

    abbrev missed :
        ℕ → Table Statement → Sql Session → Result (Option Pointer) × Table Statement × Sql Session
    missed i t s =
        if t.done
        then ((if i == length t.rows then ok none else err Error.index), t, s)
        else fetched (fetch_row i t) s

    -- `(unsigned int) -1` asks for the row behind those that were fetched.
    abbrev pub wanted : ℕ → Table Statement → ℕ
    wanted row_index t = if row_index == uint32_mod - 1 then length t.rows else row_index

    -- `preludedb_sql_table_get_row`
    unfoldable pub get_row :
        ℕ → Table Statement → Sql Session → Result (Option Pointer) × Table Statement × Sql Session
    unfolding fetch_row update_sql_from_errno
    get_row row_index t s = elim (get_elem? t.rows (wanted row_index t)) [
      | some (some row) ↦ (ok (some (some (wanted row_index t))), t, s)
      | some none ↦ missed (wanted row_index t) t s
      | none ↦ missed (wanted row_index t) t s
    ]

-- `column_num = ccount - (-column_num)` for a negative number, in 32 bits
abbrev pub column_of : ℕ → ℤ → ℕ
column_of ccount (pos n) = n
column_of ccount (negsuc n) = ((ccount + uint32_mod) - (n + 1)) % uint32_mod

-- `preludedb_sql_row_get_field`: nothing for NULL, or the text. `fetch_field` is the plugin's. The
-- index error is one of libprelude's source.
module _ (plugin : Plugin) (fetch_field : ℕ → Result (Option Bytes)) where
  abbrev read_field :
      Result (Option Bytes) → Sql (plugin.Session) → Result (Option Bytes) × Sql (plugin.Session)
  read_field (err e) s = (err e, update_sql_from_errno plugin e s)
  read_field (ok content) s = (ok content, s)

  abbrev cell_result :
      ℕ → Option Cell → Sql (plugin.Session) → Result (Option Bytes) × Sql (plugin.Session)
  cell_result col none s = read_field (fetch_field col) s
  cell_result col (some unread) s = read_field (fetch_field col) s
  cell_result col (some null_cell) s = (ok none, s)
  cell_result col (some (value content)) s = (ok (some content), s)

  unfoldable pub row_get_field :
      ℕ → Row → ℤ → Sql (plugin.Session) → Result (Option Bytes) × Sql (plugin.Session)
  unfolding update_sql_from_errno
  row_get_field ccount row column_num s =
      if leb ccount (column_of ccount column_num)
      then (err (foreign 21), s)
      else cell_result (column_of ccount column_num)
          (get_elem? row.fields (column_of ccount column_num)) s
