-- ===== src/Insert/Steps/Assessment.antt =====
-- plugins/format/classic/classic-insert.c: the steps of the insertion of assessments.
use libpreludedb.Base.{ℕ, Option, none, Bytes, text}
use libpreludedb.Insert.Classes.{Impact, Act, Confidence, Assessment}
use libpreludedb.Insert.Row.{Index, Database}
use libpreludedb.Insert.Assessment.{
  insert_impact, insert_action, insert_confidence, insert_assessment,
}
use libpreludedb.Insert.Steps.{Inserts, insertion}

module _ {St : Type 0} (db : Database St) (Allowed : Bytes → Option ℕ → Type 0) (ident : ℕ) where
  insert_impact-Inserts :
      (v : Impact)
      → Allowed (text "Prelude_Impact") none
      → Inserts db Allowed ident (insert_impact db ident v)
  unfolding insert_impact
  insert_impact-Inserts v h = search (insertion) depth 30

  insert_action-Inserts :
      (i : Index) (v : Act)
      → Allowed (text "Prelude_Action") none
      → Inserts db Allowed ident (insert_action db ident i v)
  unfolding insert_action
  insert_action-Inserts i v h = search (insertion) depth 30

  insert_confidence-Inserts :
      (v : Confidence)
      → Allowed (text "Prelude_Confidence") none
      → Inserts db Allowed ident (insert_confidence db ident v)
  unfolding insert_confidence
  insert_confidence-Inserts v h = search (insertion) depth 30

  pub insert_assessment-Inserts :
      (v : Assessment)
      → Allowed (text "Prelude_Assessment") none
      → Allowed (text "Prelude_Impact") none
      → Allowed (text "Prelude_Confidence") none
      → Allowed (text "Prelude_Action") none
      → Inserts db Allowed ident (insert_assessment db ident v)
  unfolding insert_assessment
  insert_assessment-Inserts v h0 h1 h2 h3 =
      search (insertion, insert_impact-Inserts, insert_action-Inserts, insert_confidence-Inserts)
        depth 30
