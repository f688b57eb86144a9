-- ===== src/Insert/Steps/Details.antt =====
-- plugins/format/classic/classic-insert.c: the steps of the insertion of times, classifications and additional data.
use libpreludedb.Base.{ℕ, Option, none, some, Bytes, text}
use libpreludedb.Insert.Classes.{Time, Reference, Classification, AdditionalData}
use libpreludedb.Insert.Row.{Index, Database}
use libpreludedb.Insert.Details.{
  insert_reference, insert_classification, insert_additional_data, insert_createtime,
  insert_detecttime, insert_analyzertime,
}
use libpreludedb.Insert.Steps.{Inserts, insertion}

module _ {St : Type 0} (db : Database St) (Allowed : Bytes → Option ℕ → Type 0) (ident : ℕ) where
  pub insert_reference-Inserts :
      (i : Index) (v : Reference)
      → Allowed (text "Prelude_Reference") none
      → Inserts db Allowed ident (insert_reference db ident i v)
  unfolding insert_reference
  insert_reference-Inserts i v h = search (insertion) depth 30

  pub insert_classification-Inserts :
      (v : Classification)
      → Allowed (text "Prelude_Classification") none
      → Allowed (text "Prelude_Reference") none
      → Inserts db Allowed ident (insert_classification db ident v)
  unfolding insert_classification
  insert_classification-Inserts v h0 h1 = search (insertion, insert_reference-Inserts) depth 30

  pub insert_additional_data-Inserts :
      (p : ℕ) (i : Index) (v : AdditionalData)
      → Allowed (text "Prelude_AdditionalData") (some p)
      → Inserts db Allowed ident (insert_additional_data db p ident i v)
  unfolding insert_additional_data
  insert_additional_data-Inserts p i v h = search (insertion) depth 30

  pub insert_createtime-Inserts :
      (p : ℕ) (v : Option Time)
      → Allowed (text "Prelude_CreateTime") (some p)
      → Inserts db Allowed ident (insert_createtime db p ident v)
  unfolding insert_createtime
  insert_createtime-Inserts p v h = search (insertion) depth 30

  pub insert_detecttime-Inserts :
      (v : Time)
      → Allowed (text "Prelude_DetectTime") none
      → Inserts db Allowed ident (insert_detecttime db ident v)
  unfolding insert_detecttime
  insert_detecttime-Inserts v h = search (insertion) depth 30

  pub insert_analyzertime-Inserts :
      (p : ℕ) (v : Time)
      → Allowed (text "Prelude_AnalyzerTime") (some p)
      → Inserts db Allowed ident (insert_analyzertime db p ident v)
  unfolding insert_analyzertime
  insert_analyzertime-Inserts p v h = search (insertion) depth 30
