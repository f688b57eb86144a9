-- ===== src/Insert/OverSql.antt =====
-- The operations of src/preludedb-sql.c on which plugins/format/classic/classic-insert.c stands.
use libpreludedb.Base.{ℕ, Option, none, some, Bytes, text, print_nat, Result, ok, err, fault}
use libpreludedb.Idmef.{print_int}
use libpreludedb.Sql.{
  Plugin, Sql, lock, unlock, assert_connected, sql_query, sql_insert, transaction_start,
  transaction_end, transaction_abort,
}
use libpreludedb.Insert.Classes.{Time}
use libpreludedb.Insert.Row.{Timestamp, Database}

-- What the plugin does with values and results: it escapes on its session, writes the time that
-- gmtime_r breaks down, and fetches rows. The fetch reads a table and leaves the connection alone.
pub record Values (plugin : Plugin) : Type 1 where
  pub Fetched : Type 0
  pub Field : Type 0
  pub escape : Bytes → plugin.Session → Result Bytes × plugin.Session
  pub escape_binary : Bytes → plugin.Session → Result Bytes × plugin.Session
  pub build_timestamp_string : ℕ → Result Bytes
  pub fetch_row : plugin.Table → plugin.Session → Result Fetched × plugin.Session
  pub get_field : Fetched → ℕ → Result Field
  pub to_uint64 : Field → Result ℕ

module _ (plugin : Plugin) (values : Values plugin) where
  open plugin use {Session, Table}

  abbrev on_session :
      {A : Type 0} → (Session → Result A × Session) → Sql Session → Result A × Sql Session
  on_session f s = let (r, session) = f s.session in (r, record s { session = session })

  -- a call of the plugin on the connected session, under the lock
  abbrev pub call_plugin :
      {A : Type 0}
      → (Session → Result A × Session)
      → Result (Unit {0}) × Sql Session
      → Result A × Sql Session
  call_plugin f (err e, s) = (err e, s)
  call_plugin f (ok _, s) = let (r, s') = on_session f s in (r, unlock s')

  -- `preludedb_escape_fast`
  unfoldable pub escape_fast : Option Bytes → Sql Session → Result Bytes × Sql Session
  unfolding lock unlock assert_connected
  escape_fast none s = (ok (text "NULL"), s)
  escape_fast (some input) s = call_plugin (values.escape input) (assert_connected plugin (lock s))

  -- `preludedb_escape_bytes`, of a buffer that is there
  unfoldable pub escape_bytes : Bytes → Sql Session → Result Bytes × Sql Session
  unfolding lock unlock assert_connected
  escape_bytes input s = call_plugin (values.escape_binary input) (assert_connected plugin (lock s))

  abbrev timestamp_of : Time → Result Bytes → Result Timestamp
  timestamp_of t (err e) = err e
  timestamp_of t (ok time) =
      ok record { time = time; gmtoff = print_int t.gmt_offset; usec = print_nat t.usec }

  unfoldable pub timestamps : Option Time → Result Timestamp
  timestamps none = ok record { time = text "NULL"; gmtoff = text "NULL"; usec = text "NULL" }
  timestamps (some t) = timestamp_of t (values.build_timestamp_string t.sec)

  abbrev pub forget : Result (Option Table) × Sql Session → Result (Unit {0}) × Sql Session
  forget (err e, s) = (err e, s)
  forget (ok _, s) = (ok tt, s)

  abbrev pub fetch : Option Table → Sql Session → Result (values.Fetched) × Sql Session
  fetch none s = (err fault, s)
  fetch (some t) s = on_session (values.fetch_row t) s

  unfoldable pub sql_database : Database (Sql Session)
  unfolding escape_fast escape_bytes timestamps sql_query sql_insert transaction_start
      transaction_end transaction_abort
  sql_database = record {
    Table = Option Table;
    Fetched = values.Fetched;
    Field = values.Field;
    escape = escape_fast;
    escape_binary = escape_bytes;
    time_to_timestamp = λ t s. (timestamps t, s);
    insert = λ table fields row s. forget (sql_insert plugin table fields row s);
    query = sql_query plugin;
    fetch_row = fetch;
    get_field = λ row i s. (values.get_field row i, s);
    to_uint64 = λ field s. (values.to_uint64 field, s);
    transaction_start = transaction_start plugin;
    transaction_end = transaction_end plugin;
    transaction_abort = transaction_abort plugin;
  }
