-- ===== src/Insert/Kind.antt =====
-- plugins/format/classic/classic-insert.c: the rows of tool, overflow and correlation
-- alerts.
use libpreludedb.Base.{ℕ, none, some, List, [], ◌∷◌, text, Result, ok, err, failure, fault}
use libpreludedb.Insert.Call.{Action, ◌>>=◌, ◌>>◌, done, fail, caught}
use libpreludedb.Insert.Classes.{
  OverflowAlert, Alertident, ToolAlert, CorrelationAlert, AlertType, default_alert, tool_alert_type,
  overflow_alert_type, correlation_alert_type, other_alert,
}
use libpreludedb.Insert.Row.{
  Database, Index, escape_string, get_data, get_optional_uint, if_given, insert_all, insert_each,
  insert_row,
}

module _ {St : Type 0} (db : Database St) where
  unfoldable pub insert_overflow_alert : ℕ → OverflowAlert → Action St (Unit {0})
  unfolding ◌>>=◌ escape_string get_data get_optional_uint insert_row
  insert_overflow_alert message_ident overflow_alert = do
    program ← escape_string db overflow_alert.program
    buffer ← get_data db overflow_alert.buffer
    insert_row db record {
      table = text "Prelude_OverflowAlert";
      fields = text "_message_ident, program, size, buffer";
      parent_type = none;
      message_ident = message_ident;
      indexes = [];
      columns = program ∷ get_optional_uint overflow_alert.size ∷ buffer ∷ [];
    }

  unfoldable pub insert_alertident : ℕ → ℕ → Index → Alertident → Action St (Unit {0})
  unfolding ◌>>=◌ escape_string insert_row
  insert_alertident parent_type message_ident alertident_index alertident = do
    analyzerid ← escape_string db alertident.analyzerid
    messageid ← escape_string db alertident.alertident
    insert_row db record {
      table = text "Prelude_Alertident";
      fields = text "_parent_type, _message_ident, _index, alertident, analyzerid";
      parent_type = some parent_type;
      message_ident = message_ident;
      indexes = alertident_index ∷ [];
      columns = messageid ∷ analyzerid ∷ [];
    }

  -- The result of the insertion into Prelude_ToolAlert is looked at only without alertidents, and
  -- then a null alertident is read.
  unfoldable pub insert_tool_alertidents :
      ℕ → List Alertident → Result (Unit {0}) → Action St (Unit {0})
  unfolding done fail insert_each insert_alertident
  insert_tool_alertidents message_ident [] (err e) = fail fault
  insert_tool_alertidents message_ident [] (ok _) = done
  insert_tool_alertidents message_ident (x ∷ xs) r =
      insert_each (insert_alertident b'T' message_ident) 0 (x ∷ xs)

  unfoldable pub insert_tool_alert : ℕ → ToolAlert → Action St (Unit {0})
  unfolding ◌>>=◌ caught escape_string insert_row insert_tool_alertidents
  insert_tool_alert message_ident tool_alert = do
    name ← escape_string db tool_alert.name
    command ← escape_string db tool_alert.command
    ret ← caught (
        insert_row db record {
          table = text "Prelude_ToolAlert";
          fields = text "_message_ident, name, command";
          parent_type = none;
          message_ident = message_ident;
          indexes = [];
          columns = name ∷ command ∷ [];
        })
    insert_tool_alertidents message_ident tool_alert.alertidents ret

  unfoldable pub insert_correlation_alert : ℕ → CorrelationAlert → Action St (Unit {0})
  unfolding ◌>>=◌ ◌>>◌ escape_string insert_row insert_all insert_alertident
  insert_correlation_alert message_ident correlation_alert = do
    name ← escape_string db correlation_alert.name
    insert_row db record {
      table = text "Prelude_CorrelationAlert";
      fields = text "_message_ident, name";
      parent_type = none;
      message_ident = message_ident;
      indexes = [];
      columns = name ∷ [];
    }
    insert_all (insert_alertident b'C' message_ident) correlation_alert.alertidents

  unfoldable pub insert_alert_type : ℕ → AlertType → Action St (Unit {0})
  unfolding done fail if_given insert_tool_alert insert_overflow_alert insert_correlation_alert
  insert_alert_type message_ident default_alert = done
  insert_alert_type message_ident (tool_alert_type t) = if_given (insert_tool_alert message_ident) t
  insert_alert_type message_ident (overflow_alert_type o) = insert_overflow_alert message_ident o
  insert_alert_type message_ident (correlation_alert_type c) =
      if_given (insert_correlation_alert message_ident) c
  insert_alert_type message_ident other_alert = fail failure
