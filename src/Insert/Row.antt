-- ===== src/Insert/Row.antt =====
-- plugins/format/classic/classic-insert.c: the columns of a row, its insertion, and the loops over
-- the children of a class.
use libpreludedb.Base.{
  ℕ, ◌+◌, Option, some, none, List, [], ◌∷◌, ◌++◌, map, Bytes, ok, err, text, print_nat,
}
use libpreludedb.Idmef.{ℤ, print_int}
use libpreludedb.Insert.Call.{Action, ◌>>◌, done}
use libpreludedb.Insert.Classes.{StringRef, Time, Data, byte_string, char_string, character, other}

-- The number of a child, or -1 for the copy of the last one.
pub data Index : Type 0 where
  at : ℕ → Index
  last : Index

-- printf's "%d"
unfoldable pub print_index : Index → Bytes
print_index (at n) = print_nat n
print_index last = text "-1"

-- A row of a message: `_parent_type`, if the table has it, `_message_ident`, the indexes, and the
-- printed columns.
pub record MessageRow : Type 0 where
  pub table : Bytes
  pub fields : Bytes
  pub parent_type : Option ℕ
  pub message_ident : ℕ
  pub indexes : List Index
  pub columns : List Bytes

-- printf with a directive for each value, and ", " between them
unfoldable pub separated : List Bytes → Bytes
separated [] = []
separated (v ∷ []) = v
separated (v ∷ w ∷ values) = v ++ (text ", " ++ separated (w ∷ values))

abbrev print_parent : Option ℕ → List Bytes
print_parent none = []
print_parent (some c) = (text "'" ++ (c ∷ text "'")) ∷ []

unfoldable pub print_values : MessageRow → Bytes
unfolding separated print_index
print_values row = separated (
    print_parent row.parent_type
    ++ (print_nat row.message_ident ∷ map print_index row.indexes ++ row.columns))

-- A time in a row: the values of the columns for the time, its offset, and its microseconds.
pub record Timestamp : Type 0 where
  pub time : Bytes
  pub gmtoff : Bytes
  pub usec : Bytes

-- The operations of preludedb-sql.h that the insertion calls, on a connection `St`:
-- `preludedb_escape_fast`, of a string or NULL, `preludedb_escape_bytes`,
-- `preludedb_sql_time_to_timestamp`, `preludedb_sql_insert` of a printed row, and
-- `preludedb_sql_query`. A result has rows and fields; a missing one is a null pointer.
pub record Database (St : Type 0) : Type 1 where
  pub Table : Type 0
  pub Fetched : Type 0
  pub Field : Type 0
  pub escape : Option Bytes → Action St Bytes
  pub escape_binary : Bytes → Action St Bytes
  pub time_to_timestamp : Option Time → Action St Timestamp
  pub insert : Bytes → Bytes → Bytes → Action St (Unit {0})
  pub query : Bytes → Action St Table
  pub fetch_row : Table → Action St Fetched
  pub get_field : Fetched → ℕ → Action St Field
  pub to_uint64 : Field → Action St ℕ
  pub transaction_start : Action St (Unit {0})
  pub transaction_end : Action St (Unit {0})
  pub transaction_abort : Action St (Unit {0})

-- a string without content is empty
unfoldable pub get_string : StringRef → Option Bytes
get_string none = none
get_string (some none) = some []
get_string (some (some s)) = some s

-- `get_optional_uint8`, `get_optional_uint16`, `get_optional_uint32`, `get_optional_uint64`
unfoldable pub get_optional_uint : Option ℕ → Bytes
get_optional_uint none = text "NULL"
get_optional_uint (some n) = print_nat n

unfoldable pub get_optional_int32 : Option ℤ → Bytes
get_optional_int32 none = text "NULL"
get_optional_int32 (some n) = print_int n

module _ {St : Type 0} where
  -- `if ( ! child ) return 0;`
  unfoldable pub if_given :
      {A : Type 0} → (A → Action St (Unit {0})) → Option A → Action St (Unit {0})
  unfolding done
  if_given f none = done
  if_given f (some a) = f a

  -- `while ( (child = get_next(parent, child)) )`, from the index `i` on
  unfoldable pub insert_each :
      {A : Type 0} → (Index → A → Action St (Unit {0})) → ℕ → List A → Action St (Unit {0})
  unfolding done ◌>>◌
  insert_each f i [] = done
  insert_each f i (x ∷ xs) = f (at i) x >> insert_each f (i + 1) xs

  unfoldable pub insert_last :
      {A : Type 0} → (Index → A → Action St (Unit {0})) → Option A → Action St (Unit {0})
  unfolding done
  insert_last f none = done
  insert_last f (some x) = f last x

  -- the loop that remembers the last child, and inserts it again with the index -1
  unfoldable pub insert_from :
      {A : Type 0}
      → (Index → A → Action St (Unit {0}))
      → ℕ
      → Option A
      → List A
      → Action St (Unit {0})
  unfolding ◌>>◌ insert_last
  insert_from f i previous [] = insert_last f previous
  insert_from f i previous (x ∷ xs) = f (at i) x >> insert_from f (i + 1) (some x) xs

  unfoldable pub insert_all :
      {A : Type 0} → (Index → A → Action St (Unit {0})) → List A → Action St (Unit {0})
  unfolding insert_from
  insert_all f xs = insert_from f 0 none xs

module _ {St : Type 0} (db : Database St) where
  unfoldable pub escape_string : StringRef → Action St Bytes
  unfolding get_string
  escape_string s = db.escape (get_string s)

  unfoldable pub insert_row : MessageRow → Action St (Unit {0})
  unfolding print_values
  insert_row row = db.insert row.table row.fields (print_values row)

  unfoldable pub get_data : Data → Action St Bytes
  get_data (byte_string s) = db.escape_binary s
  get_data (char_string s) = db.escape_binary s
  get_data (character c) = db.escape_binary (c ∷ [])
  get_data (other (err e)) = λ s. (err e, s)
  get_data (other (ok s)) = db.escape_binary s
