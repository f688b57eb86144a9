-- ===== src/Insert.antt =====
-- plugins/format/classic/classic-insert.c: an IDMEF message is written as rows of many tables, in
-- one transaction.
pub mod Call
pub mod Classes
pub mod Row
pub mod Subject
pub mod Service
pub mod File
pub mod Ends
pub mod Details
pub mod Assessment
pub mod Kind
pub mod Steps
pub mod Loops
pub mod Deleted
pub mod OverSql
pub mod Unchecked
pub mod Keeps
pub mod Lock
pub mod Outcome
mod Tests
use libpreludedb.Base.{ℕ, Option, ◌++◌, Bytes, text, Result, ok, err, Error, failure}
use Call.{Action, ◌>>=◌, ◌>>◌, done, fail}
use Classes.{StringRef, Alert, Heartbeat, Message, alert_message, heartbeat_message, other_message}
use Row.{Database, escape_string, get_optional_uint, if_given, insert_all}
use Ends.{insert_source, insert_target, insert_analyzer}
use Details.{
  insert_classification, insert_additional_data, insert_createtime, insert_detecttime,
  insert_analyzertime,
}
use Assessment.{insert_assessment}
use Kind.{insert_alert_type}

module _ {St : Type 0} (db : Database St) where
  unfoldable pub get_last_insert_ident : Bytes → Action St ℕ
  unfolding ◌>>=◌
  get_last_insert_ident table_name = do
    table ← db.query (text "SELECT max(_ident) FROM " ++ (table_name ++ text ";"))
    row ← db.fetch_row table
    field ← db.get_field row 0
    db.to_uint64 field

  unfoldable pub insert_message_messageid : Bytes → StringRef → Action St ℕ
  unfolding ◌>>=◌ ◌>>◌ escape_string get_last_insert_ident
  insert_message_messageid table_name messageid = do
    tmp ← escape_string db messageid
    db.insert table_name (text "messageid") tmp
    get_last_insert_ident table_name

  -- `insert_alert` behind the row of Prelude_Alert
  unfoldable pub insert_alert_parts : Alert → ℕ → Action St (Unit {0})
  unfolding ◌>>◌ if_given insert_all insert_createtime insert_detecttime insert_analyzertime
      insert_assessment insert_alert_type insert_analyzer insert_source insert_target
      insert_classification insert_additional_data
  insert_alert_parts alert ident = do
    insert_createtime db b'A' ident alert.create_time
    if_given (insert_detecttime db ident) alert.detect_time
    if_given (insert_analyzertime db b'A' ident) alert.analyzer_time
    if_given (insert_assessment db ident) alert.assessment
    insert_alert_type db ident alert.type
    insert_all (insert_analyzer db b'A' ident) alert.analyzers
    insert_all (insert_source db ident) alert.sources
    insert_all (insert_target db ident) alert.targets
    if_given (insert_classification db ident) alert.classification
    insert_all (insert_additional_data db b'A' ident) alert.additional_data

  unfoldable pub insert_alert : Alert → Action St (Unit {0})
  unfolding ◌>>=◌ insert_message_messageid insert_alert_parts
  insert_alert alert =
      insert_message_messageid (text "Prelude_Alert") alert.messageid >>= insert_alert_parts alert

  unfoldable pub insert_heartbeat_row : Heartbeat → Action St ℕ
  unfolding ◌>>=◌ ◌>>◌ escape_string get_optional_uint get_last_insert_ident
  insert_heartbeat_row heartbeat = do
    messageid ← escape_string db heartbeat.messageid
    db.insert (text "Prelude_Heartbeat") (text "messageid, heartbeat_interval")
        (messageid ++ (text ", " ++ get_optional_uint heartbeat.heartbeat_interval))
    get_last_insert_ident (text "Prelude_Heartbeat")

  -- `insert_heartbeat` behind the row of Prelude_Heartbeat
  unfoldable pub insert_heartbeat_parts : Heartbeat → ℕ → Action St (Unit {0})
  unfolding ◌>>◌ if_given insert_all insert_createtime insert_analyzertime insert_analyzer
      insert_additional_data
  insert_heartbeat_parts heartbeat ident = do
    insert_all (insert_analyzer db b'H' ident) heartbeat.analyzers
    insert_createtime db b'H' ident heartbeat.create_time
    if_given (insert_analyzertime db b'H' ident) heartbeat.analyzer_time
    insert_all (insert_additional_data db b'H' ident) heartbeat.additional_data

  unfoldable pub insert_heartbeat : Heartbeat → Action St (Unit {0})
  unfolding ◌>>=◌ insert_heartbeat_row insert_heartbeat_parts
  insert_heartbeat heartbeat = insert_heartbeat_row heartbeat >>= insert_heartbeat_parts heartbeat

  unfoldable pub insert_message : Message → Action St (Unit {0})
  unfolding fail if_given insert_alert insert_heartbeat
  insert_message (alert_message a) = if_given insert_alert a
  insert_message (heartbeat_message h) = if_given insert_heartbeat h
  insert_message other_message = fail failure

  -- `return (tmp < 0) ? tmp : ret`
  abbrev pub after_abort : Error → Result (Unit {0}) × St → Result (Unit {0}) × St
  after_abort e (err tmp, s) = (err tmp, s)
  after_abort e (ok _, s) = (err e, s)

  abbrev pub end_insertion : Result (Unit {0}) × St → Result (Unit {0}) × St
  end_insertion (err e, s) = after_abort e (db.transaction_abort s)
  end_insertion (ok _, s) = db.transaction_end s

  unfoldable pub insert_in_transaction : Message → Action St (Unit {0})
  unfolding insert_message
  insert_in_transaction message s = end_insertion (insert_message message s)

  unfoldable pub classic_insert : Option Message → Action St (Unit {0})
  unfolding ◌>>◌ if_given insert_in_transaction
  classic_insert = if_given λ message. db.transaction_start >> insert_in_transaction message
