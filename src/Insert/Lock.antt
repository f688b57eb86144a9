-- ===== src/Insert/Lock.antt =====
-- The lock that `classic_insert` of plugins/format/classic/classic-insert.c takes.
use libpreludedb.Base.{ℕ, ◌≡◌, refl, true, false, Option, none, some, Bytes, Result, ok, err, arith}
use libpreludedb.Sql.{
  Plugin, Sql, is_connection_error, sql_query, sql_insert, transaction_start, transaction_end,
  transaction_abort,
}
use libpreludedb.Delete.Lock.{IsOpen, Started, transaction_start-Started}
use libpreludedb.Insert.{
  get_last_insert_ident, insert_message_messageid, insert_alert_parts, insert_alert,
  insert_heartbeat_row, insert_heartbeat_parts, insert_heartbeat, insert_message, end_insertion,
  insert_in_transaction, classic_insert,
}
use libpreludedb.Insert.Call.{bound, ◌>>=◌, ◌>>◌, done}
use libpreludedb.Insert.Classes.{
  Alert, Heartbeat, Message, alert_message, heartbeat_message, other_message,
}
use libpreludedb.Insert.Row.{Database, escape_string, insert_row, if_given}
use libpreludedb.Insert.Steps.{Steps, stay, escaped, escaped_binary, timed, inserted}
use libpreludedb.Insert.Deleted.{insert_alert_parts-Steps, insert_heartbeat_parts-Steps}
use libpreludedb.Insert.Keeps.{Keeps, >>=-Keeps, >>-Keeps, if_given-Keeps, fail-Keeps}
use libpreludedb.Insert.OverSql.{Values, escape_fast, escape_bytes, forget, fetch, sql_database}

-- an answer that leaves the connection up
abbrev pub LeavesUp : {A : Type 0} → Result A → Type 0
LeavesUp (err e) = is_connection_error e ≡ false
LeavesUp (ok _) = Unit

module _ (plugin : Plugin) (values : Values plugin) where
  open plugin use {Session, Table, run}

  abbrev db : Database (Sql Session)
  db = sql_database plugin values

  module _ (up : (statement : Bytes) (s : Session) → LeavesUp (run statement s).0) (base : ℕ) where
    -- in the transaction, on a connection
    abbrev pub InTransaction : Sql Session → Type 0
    InTransaction s = IsOpen plugin base s × (s.connected ≡ true)

    query-Keeps : (statement : Bytes) → Keeps InTransaction (sql_query plugin statement)
    unfolding Keeps sql_query
    query-Keeps statement s i = ground (arith, up statement s.session)

    forget-InTransaction :
        (r : Result (Option Table) × Sql Session)
        → InTransaction r.1
        → InTransaction (forget plugin values r).1
    forget-InTransaction (err e, s) i = i
    forget-InTransaction (ok _, s) i = i

    insert-Keeps : (table fields row : Bytes) → Keeps InTransaction (db.insert table fields row)
    unfolding Keeps sql_database sql_insert
    insert-Keeps table fields row s i = forget-InTransaction _ (query-Keeps _ s i)

    escape-Keeps : (v : Option Bytes) → Keeps InTransaction (db.escape v)
    unfolding Keeps sql_database escape_fast
    escape-Keeps none s i = i
    escape-Keeps (some v) s i = ground arith

    escape_binary-Keeps : (v : Bytes) → Keeps InTransaction (db.escape_binary v)
    unfolding Keeps sql_database escape_bytes
    escape_binary-Keeps v s i = ground arith

    fetch_row-Keeps : (t : Option Table) → Keeps InTransaction (fetch plugin values t)
    unfolding Keeps
    fetch_row-Keeps none s i = i
    fetch_row-Keeps (some t) s i = ground arith

    Steps-InTransaction :
        {Allowed : Bytes → Option ℕ → Type 0} {ident : ℕ} {s t : Sql Session}
        → Steps db Allowed ident s t
        → InTransaction s
        → InTransaction t
    unfolding Keeps sql_database insert_row
    Steps-InTransaction stay i = i
    Steps-InTransaction (escaped v r) i = escape-Keeps v _ (Steps-InTransaction r i)
    Steps-InTransaction (escaped_binary v r) i = escape_binary-Keeps v _ (Steps-InTransaction r i)
    Steps-InTransaction (timed t r) i = Steps-InTransaction r i
    Steps-InTransaction (inserted row e h r) i = insert-Keeps _ _ _ _ (Steps-InTransaction r i)

    get_last_insert_ident-Keeps :
        (table : Bytes) → Keeps InTransaction (get_last_insert_ident db table)
    unfolding sql_database get_last_insert_ident Keeps
    get_last_insert_ident-Keeps table =
        >>=-Keeps InTransaction (sql_query plugin _) _ (query-Keeps _) λ t.
          >>=-Keeps InTransaction (fetch plugin values t) _ (fetch_row-Keeps t) λ row.
            >>=-Keeps InTransaction (λ s. (values.get_field row 0, s)) _ (λ s i. i) λ field s i. i

    alert_parts-Keeps :
        (a : Alert) (ident : ℕ) → Keeps InTransaction (insert_alert_parts db a ident)
    unfolding Keeps
    alert_parts-Keeps a ident s i = Steps-InTransaction (insert_alert_parts-Steps db a ident s) i

    alert-Keeps : (a : Alert) → Keeps InTransaction (insert_alert db a)
    unfolding insert_alert insert_message_messageid escape_string
    alert-Keeps a =
        >>=-Keeps InTransaction _ _
          (>>=-Keeps InTransaction _ _ (escape-Keeps _)
            λ tmp. >>-Keeps InTransaction _ _ (insert-Keeps _ _ _) (get_last_insert_ident-Keeps _))
          λ ident. alert_parts-Keeps a ident

    heartbeat_parts-Keeps :
        (h : Heartbeat) (ident : ℕ) → Keeps InTransaction (insert_heartbeat_parts db h ident)
    unfolding Keeps
    heartbeat_parts-Keeps h ident s i =
        Steps-InTransaction (insert_heartbeat_parts-Steps db h ident s) i

    heartbeat-Keeps : (h : Heartbeat) → Keeps InTransaction (insert_heartbeat db h)
    unfolding insert_heartbeat insert_heartbeat_row escape_string
    heartbeat-Keeps h =
        >>=-Keeps InTransaction _ _
          (>>=-Keeps InTransaction _ _ (escape-Keeps _)
            λ tmp. >>-Keeps InTransaction _ _ (insert-Keeps _ _ _) (get_last_insert_ident-Keeps _))
          λ ident. heartbeat_parts-Keeps h ident

    pub message-Keeps : (m : Message) → Keeps InTransaction (insert_message db m)
    unfolding insert_message
    message-Keeps (alert_message a) = if_given-Keeps InTransaction _ a alert-Keeps
    message-Keeps (heartbeat_message h) = if_given-Keeps InTransaction _ h heartbeat-Keeps
    message-Keeps other_message = fail-Keeps InTransaction _

    held-end_insertion :
        (r : Result (Unit {0}) × Sql Session)
        → InTransaction r.1
        → ((end_insertion db r).1.held ≡ base) × ((end_insertion db r).1.in_transaction ≡ false)
    unfolding sql_database transaction_abort transaction_end sql_query
    held-end_insertion (err e, s) i = ground arith
    held-end_insertion (ok _, s) i = ground arith

    held-begun :
        (m : Message) (r : Result (Unit {0}) × Sql Session)
        → Started plugin base r
        → (bound (λ _. insert_in_transaction db m) r).1.held ≡ base
    unfolding insert_in_transaction Keeps
    held-begun m (err e, s) h = h
    held-begun m (ok _, s) h = (held-end_insertion (insert_message db m s) (message-Keeps m s h)).0

  -- With internal transactions enabled, and a database that answers anything but a lost
  -- connection, the insertion of a message gives the lock back, whatever fails.
  pub held-classic_insert :
      ((statement : Bytes) (s : Session) → LeavesUp (run statement s).0)
      → (m : Option Message) (s : Sql Session) → s.internal_transaction_disabled ≡ false
      → (classic_insert (sql_database plugin values) m s).1.held ≡ s.held
  unfolding classic_insert if_given done ◌>>◌ ◌>>=◌ sql_database
  held-classic_insert up none s on = refl
  held-classic_insert up (some m) s on =
      held-begun up s.held m (transaction_start plugin s) (transaction_start-Started plugin s on)
