-- ===== src/Sql.antt =====
-- src/preludedb-sql.c: the connection to a database, its lock and its transactions. The database
-- behind it is a plugin, a parameter.
pub mod Query
pub mod Transaction
pub mod Journal
mod Tests
use libpreludedb.Base.{
  ℕ, ◌+◌, ◌-◌, ◌≡◌, Bool, true, false, Option, none, some, List, [], ◌∷◌, ◌++◌, Bytes, Result, ok,
  err, Error, connection, query, already_in_transaction, not_in_transaction, text, ◌&&◌, not,
  if◌then◌else◌,
}

-- A plugin of src/include/preludedb-plugin-sql.h. `Session` stands for the connection, the
-- database behind it, and the error message that libprelude keeps for the thread. A statement may
-- return a table, or nothing.
pub record Plugin : Type 1 where
  pub Session : Type 0
  pub Table : Type 0
  pub open_session : Session → Result (Unit {0}) × Session
  pub close_session : Session → Session
  pub run : Bytes → Session → Result (Option Table) × Session
  pub has_error : Session → Bool

-- `struct preludedb_sql`. `connected` and `in_transaction` are the two flags of `status`; `held`
-- counts how often the thread holds the recursive lock.
pub record Sql (Session : Type 0) : Type 0 where
  pub session : Session
  pub connected : Bool
  pub in_transaction : Bool
  pub internal_transaction_disabled : Bool
  pub held : ℕ
  pub refcount : ℕ

-- preludedb_error_check(error, PRELUDEDB_ERROR_CONNECTION)
abbrev pub is_connection_error : Error → Bool
is_connection_error connection = true
is_connection_error _ = false

module _ {Session : Type 0} where
  unfoldable pub lock : Sql Session → Sql Session
  lock s = record s { held = s.held + 1 }

  unfoldable pub unlock : Sql Session → Sql Session
  unlock s = record s { held = s.held - 1 }

module _ (plugin : Plugin) where
  open plugin use {Session, Table, open_session, close_session, run, has_error}

  -- A connection that fails is closed, and the next statement opens it again.
  unfoldable pub update_sql_from_errno : Error → Sql Session → Sql Session
  update_sql_from_errno e s =
      if is_connection_error e
      then record s { session = close_session s.session; connected = false }
      else s

  -- `sql->status = PRELUDEDB_SQL_STATUS_CONNECTED` clears the other flag.
  abbrev opened : Result (Unit {0}) × Session → Sql Session → Result (Unit {0}) × Sql Session
  opened (err e, session) s = (err e, record s { session = session })
  opened (ok _, session) s =
      (ok tt, record s { session = session; connected = true; in_transaction = false })

  unfoldable pub sql_connect : Sql Session → Result (Unit {0}) × Sql Session
  sql_connect s = opened (open_session s.session) s

  -- `assert_connected`, within a function that holds the lock: a failure releases it.
  abbrev unlock_on_error : Result (Unit {0}) × Sql Session → Result (Unit {0}) × Sql Session
  unlock_on_error (err e, s) = (err e, unlock s)
  unlock_on_error (ok _, s) = (ok tt, s)

  unfoldable pub assert_connected : Sql Session → Result (Unit {0}) × Sql Session
  unfolding sql_connect unlock
  assert_connected s = if s.connected then (ok tt, s) else unlock_on_error (sql_connect s)

  abbrev answered :
      Result (Option Table) × Session → Sql Session → Result (Option Table) × Sql Session
  answered (err e, session) s =
      (err e, unlock (update_sql_from_errno e (record s { session = session })))
  answered (ok none, session) s = (ok none, unlock (record s { session = session }))
  answered (ok (some t), session) s = (
    ok (some t),
    let s' = unlock (record s { session = session }) in record s' { refcount = s'.refcount + 1 },
  )

  abbrev when_connected :
      Bytes → Result (Unit {0}) × Sql Session → Result (Option Table) × Sql Session
  when_connected statement (err e, s) = (err e, s)
  when_connected statement (ok _, s) = answered (run statement s.session) s

  -- `preludedb_sql_query`, without the log file
  unfoldable pub sql_query : Bytes → Sql Session → Result (Option Table) × Sql Session
  unfolding lock unlock assert_connected update_sql_from_errno
  sql_query statement s = when_connected statement (assert_connected (lock s))

  -- `preludedb_sql_insert`, on values that are printed already
  unfoldable pub sql_insert :
      Bytes → Bytes → Bytes → Sql Session → Result (Option Table) × Sql Session
  unfolding sql_query
  sql_insert table fields values = sql_query (
      text "INSERT INTO " ++ table ++ text " (" ++ fields ++ text ") VALUES(" ++ values ++ text ")")

  abbrev started : Result (Option Table) × Sql Session → Result (Unit {0}) × Sql Session
  started (err e, s) = (err e, unlock s)
  started (ok _, s) = (ok tt, record s { in_transaction = true })

  unfoldable pub transaction_start' : Sql Session → Result (Unit {0}) × Sql Session
  unfolding sql_query
  transaction_start' s =
      let s₁ = lock s in
      if s₁.in_transaction
      then (err already_in_transaction, unlock s₁)
      else started (sql_query (text "BEGIN") s₁)

  abbrev ended : Result (Option Table) × Sql Session → Result (Unit {0}) × Sql Session
  ended (err e, s) = (err e, unlock (record s { in_transaction = false }))
  ended (ok _, s) = (ok tt, unlock (record s { in_transaction = false }))

  unfoldable pub transaction_end' : Sql Session → Result (Unit {0}) × Sql Session
  unfolding sql_query
  transaction_end' s =
      if s.in_transaction then ended (sql_query (text "COMMIT") s) else (err not_in_transaction, s)

  abbrev rolled_back : Result (Option Table) × Sql Session → Result (Unit {0}) × Sql Session
  rolled_back (err e, s) = (err query, unlock s)
  rolled_back (ok _, s) = (ok tt, unlock s)

  unfoldable pub transaction_abort' : Sql Session → Result (Unit {0}) × Sql Session
  unfolding sql_query
  transaction_abort' s =
      if s.in_transaction
      then (let s₁ = record s { in_transaction = false } in
          if has_error s.session && not s.connected
          then (err query, unlock s₁)
          else rolled_back (sql_query (text "ROLLBACK") s₁))
      else (err not_in_transaction, s)

  -- The public entries: with internal transactions disabled they do nothing.
  abbrev unless_disabled :
      (Sql Session → Result (Unit {0}) × Sql Session)
      → Sql Session
      → Result (Unit {0}) × Sql Session
  unless_disabled f s = if s.internal_transaction_disabled then (ok tt, s) else f s

  unfoldable pub transaction_start : Sql Session → Result (Unit {0}) × Sql Session
  unfolding transaction_start'
  transaction_start s = unless_disabled transaction_start' s

  unfoldable pub transaction_end : Sql Session → Result (Unit {0}) × Sql Session
  unfolding transaction_end'
  transaction_end s = unless_disabled transaction_end' s

  unfoldable pub transaction_abort : Sql Session → Result (Unit {0}) × Sql Session
  unfolding transaction_abort'
  transaction_abort s = unless_disabled transaction_abort' s

  pub enable_internal_transaction : Sql Session → Sql Session
  enable_internal_transaction s = record s { internal_transaction_disabled = false }

  pub disable_internal_transaction : Sql Session → Sql Session
  disable_internal_transaction s = record s { internal_transaction_disabled = true }
