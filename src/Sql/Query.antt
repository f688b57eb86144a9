-- ===== src/Sql/Query.antt =====
-- What a statement does to the connection of src/preludedb-sql.c.
use libpreludedb.Base.{◌≡◌, true, Option, Bytes, ok, arith}
use libpreludedb.Sql.{Plugin, Sql, sql_query}

module _ (plugin : Plugin) where
  open plugin use {Session, run}

  -- A statement leaves the lock as it found it, on every path: connected or not, whether the
  -- connection opens, and whether the statement succeeds, fails or loses the connection.
  pub held-sql_query :
      (statement : Bytes) (s : Sql Session) → (sql_query plugin statement s).1.held ≡ s.held
  unfolding sql_query
  held-sql_query statement s = ground arith

  -- A connected session stays in its transaction.
  pub in_transaction-sql_query :
      (statement : Bytes) (s : Sql Session)
      → s.connected ≡ true
      → (sql_query plugin statement s).1.in_transaction ≡ s.in_transaction
  unfolding sql_query
  in_transaction-sql_query statement s h = ground arith

  pub connected-sql_query_ok :
      (statement : Bytes) (s : Sql Session)
      → (t : Option (plugin.Table)) → (sql_query plugin statement s).0 ≡ ok t
      → (sql_query plugin statement s).1.connected ≡ true
  unfolding sql_query
  connected-sql_query_ok statement s h = ground arith

  pub disabled-sql_query :
      (statement : Bytes) (s : Sql Session)
      → (sql_query plugin statement s).1.internal_transaction_disabled
        ≡ s.internal_transaction_disabled
  unfolding sql_query
  disabled-sql_query statement s = ground arith

  -- On a connected session a statement is run once.
  pub session-sql_query_ok :
      (statement : Bytes) (s : Sql Session) (t : Option (plugin.Table))
      → s.connected ≡ true
      → (sql_query plugin statement s).0 ≡ ok t
      → run statement s.session ≡ (ok t, (sql_query plugin statement s).1.session)
  unfolding sql_query
  session-sql_query_ok statement s t c h = ground arith
