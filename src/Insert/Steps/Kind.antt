-- ===== src/Insert/Steps/Kind.antt =====
-- plugins/format/classic/classic-insert.c: the steps of the insertion of the kinds of alerts.
use libpreludedb.Base.{ℕ, Option, none, some, List, [], ◌∷◌, Bytes, text, Result, ok, err}
use libpreludedb.Insert.Classes.{
  OverflowAlert, Alertident, ToolAlert, CorrelationAlert, AlertType, default_alert, tool_alert_type,
  overflow_alert_type, correlation_alert_type, other_alert,
}
use libpreludedb.Insert.Row.{Index, Database}
use libpreludedb.Insert.Kind.{
  insert_overflow_alert, insert_alertident, insert_tool_alertidents, insert_tool_alert,
  insert_correlation_alert, insert_alert_type,
}
use libpreludedb.Insert.Steps.{Inserts, insertion}

abbrev pub AllowsKind : (Bytes → Option ℕ → Type 0) → Type 0
AllowsKind Allowed =
    (Allowed (text "Prelude_OverflowAlert") none)
    × (Allowed (text "Prelude_ToolAlert") none)
    × (Allowed (text "Prelude_CorrelationAlert") none)
    × (Allowed (text "Prelude_Alertident") (some b'T'))
    × (Allowed (text "Prelude_Alertident") (some b'C'))

module _ {St : Type 0} (db : Database St) (Allowed : Bytes → Option ℕ → Type 0) (ident : ℕ) where
  insert_overflow_alert-Inserts :
      (v : OverflowAlert)
      → Allowed (text "Prelude_OverflowAlert") none
      → Inserts db Allowed ident (insert_overflow_alert db ident v)
  unfolding insert_overflow_alert
  insert_overflow_alert-Inserts v h = search (insertion) depth 30

  insert_alertident-Inserts :
      (p : ℕ) (i : Index) (v : Alertident)
      → Allowed (text "Prelude_Alertident") (some p)
      → Inserts db Allowed ident (insert_alertident db p ident i v)
  unfolding insert_alertident
  insert_alertident-Inserts p i v h = search (insertion) depth 30

  insert_tool_alertidents-Inserts :
      (v : List Alertident) (r : Result (Unit {0}))
      → Allowed (text "Prelude_Alertident") (some b'T')
      → Inserts db Allowed ident (insert_tool_alertidents db ident v r)
  unfolding insert_tool_alertidents
  insert_tool_alertidents-Inserts [] (err e) h = search (insertion) depth 30
  insert_tool_alertidents-Inserts [] (ok _) h = search (insertion) depth 30
  insert_tool_alertidents-Inserts (x ∷ xs) r h =
      search (insertion, insert_alertident-Inserts) depth 30

  insert_tool_alert-Inserts :
      (v : ToolAlert)
      → Allowed (text "Prelude_ToolAlert") none
      → Allowed (text "Prelude_Alertident") (some b'T')
      → Inserts db Allowed ident (insert_tool_alert db ident v)
  unfolding insert_tool_alert
  insert_tool_alert-Inserts v h0 h1 = search (insertion, insert_tool_alertidents-Inserts) depth 30

  insert_correlation_alert-Inserts :
      (v : CorrelationAlert)
      → Allowed (text "Prelude_CorrelationAlert") none
      → Allowed (text "Prelude_Alertident") (some b'C')
      → Inserts db Allowed ident (insert_correlation_alert db ident v)
  unfolding insert_correlation_alert
  insert_correlation_alert-Inserts v h0 h1 = search (insertion, insert_alertident-Inserts) depth 30

  pub insert_alert_type-Inserts :
      (v : AlertType) → AllowsKind Allowed → Inserts db Allowed ident (insert_alert_type db ident v)
  unfolding insert_alert_type
  insert_alert_type-Inserts default_alert h = search (insertion) depth 30
  insert_alert_type-Inserts (tool_alert_type v) h =
      search (insertion, insert_tool_alert-Inserts) depth 30
  insert_alert_type-Inserts (overflow_alert_type v) h =
      search (insertion, insert_overflow_alert-Inserts) depth 30
  insert_alert_type-Inserts (correlation_alert_type v) h =
      search (insertion, insert_correlation_alert-Inserts) depth 30
  insert_alert_type-Inserts other_alert h = search (insertion) depth 30
