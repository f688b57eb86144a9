-- ===== src/Insert/Outcome.antt =====
-- How `classic_insert` of plugins/format/classic/classic-insert.c ends its transaction.
use libpreludedb.Base.{ℕ, ◌≡◌, query, false, Option, some, Bytes, Result, ok, err, text, arith}
use libpreludedb.Sql.{Plugin, Sql, sql_query, transaction_start, transaction_end, transaction_abort}
use libpreludedb.Delete.Lock.{Started, transaction_start-Started}
use libpreludedb.Insert.{insert_message, end_insertion, insert_in_transaction, classic_insert}
use libpreludedb.Insert.Call.{bound, ◌>>=◌, ◌>>◌}
use libpreludedb.Insert.Classes.{Message}
use libpreludedb.Insert.Row.{Database, if_given}
use libpreludedb.Insert.Lock.{LeavesUp, InTransaction, message-Keeps}
use libpreludedb.Insert.Keeps.{Keeps}
use libpreludedb.Insert.OverSql.{Values, sql_database}

module _ (plugin : Plugin) (values : Values plugin)
    (up : (statement : Bytes) (s : plugin.Session) → LeavesUp (plugin.run statement s).0) where
  open plugin use {Session, Table, run}

  abbrev db : Database (Sql Session)
  db = sql_database plugin values

  -- the statement that ends the transaction
  abbrev pub closing : Result (Unit {0}) → Bytes
  closing (err e) = text "ROLLBACK"
  closing (ok _) = text "COMMIT"

  -- what is returned, for the result of the insertion and the answer to that statement
  abbrev pub outcome : Result (Unit {0}) → Result (Option Table) → Result (Unit {0})
  outcome (err e) (ok _) = err e
  outcome (err e) (err _) = err query
  outcome (ok _) (ok _) = ok tt
  outcome (ok _) (err e) = err e

  -- the end of a transaction with this result, whose return value and connection are these
  abbrev pub Ends : Result (Unit {0}) × Sql Session → Result (Unit {0}) × Sql Session → Type 0
  Ends r t =
      (t.0 ≡ outcome r.0 (run (closing r.0) r.1.session).0)
      × (t.1.session ≡ (run (closing r.0) r.1.session).1)

  end_insertion-Ends :
      (base : ℕ) (r : Result (Unit {0}) × Sql Session)
      → InTransaction plugin values up base r.1
      → Ends r (end_insertion db r)
  unfolding sql_database transaction_abort transaction_end sql_query
  end_insertion-Ends base (err e, s) i = ground (arith, up (text "ROLLBACK") s.session)
  end_insertion-Ends base (ok _, s) i = ground (arith, up (text "COMMIT") s.session)

  begun-Ends :
      (m : Message) (base : ℕ) (r : Result (Unit {0}) × Sql Session)
      → Started plugin base r
      → r.0 ≡ ok tt
      → Ends (insert_message db m r.1) (bound (λ _. insert_in_transaction db m) r)
  unfolding insert_in_transaction Keeps
  begun-Ends m base (err e, s) h begun = absurd (cc)
  begun-Ends m base (ok _, s) h begun =
      end_insertion-Ends base (insert_message db m s) (message-Keeps plugin values up base m s h)

  -- With internal transactions enabled, and a database that answers anything but a lost
  -- connection: once the transaction has started, the insertion of a message that fails is ended by
  -- ROLLBACK and its error comes back, or that of the query if this fails too; one that succeeds
  -- is ended by COMMIT, whose failure comes back.
  pub classic_insert-Ends :
      (m : Message) (s : Sql Session)
      → s.internal_transaction_disabled ≡ false
      → (transaction_start plugin s).0 ≡ ok tt
      → Ends (insert_message db m (transaction_start plugin s).1) (classic_insert db (some m) s)
  unfolding classic_insert if_given ◌>>◌ ◌>>=◌ sql_database
  classic_insert-Ends m s on begun =
      begun-Ends m s.held (transaction_start plugin s) (transaction_start-Started plugin s on) begun
