-- ===== src/Insert/Steps/Ends.antt =====
-- plugins/format/classic/classic-insert.c: the steps of the insertion of sources, targets and analyzers.
use libpreludedb.Base.{ℕ, Option, none, some, Bytes, text}
use libpreludedb.Insert.Classes.{Source, Target, Analyzer}
use libpreludedb.Insert.Row.{Index, Database}
use libpreludedb.Insert.Ends.{insert_source, insert_target, insert_analyzer}
use libpreludedb.Insert.Steps.{Inserts, insertion}
use libpreludedb.Insert.Steps.Subject.{
  AllowsNode, AllowsProcess, AllowsUser, insert_node-Inserts, insert_process-Inserts,
  insert_user-Inserts,
}
use libpreludedb.Insert.Steps.Service.{AllowsService, insert_service-Inserts}
use libpreludedb.Insert.Steps.File.{AllowsFile, insert_file-Inserts}

module _ {St : Type 0} (db : Database St) (Allowed : Bytes → Option ℕ → Type 0) (ident : ℕ) where
  pub insert_source-Inserts :
      (i : Index) (v : Source)
      → Allowed (text "Prelude_Source") none
      → AllowsNode Allowed b'S'
      → AllowsUser Allowed b'S'
      → AllowsProcess Allowed b'S'
      → AllowsService Allowed b'S'
      → Inserts db Allowed ident (insert_source db ident i v)
  unfolding insert_source
  insert_source-Inserts i v h0 h1 h2 h3 h4 =
      search
        (
          insertion, insert_node-Inserts, insert_user-Inserts, insert_process-Inserts,
          insert_service-Inserts,
        )
        depth 30

  pub insert_target-Inserts :
      (i : Index) (v : Target)
      → Allowed (text "Prelude_Target") none
      → AllowsNode Allowed b'T'
      → AllowsUser Allowed b'T'
      → AllowsProcess Allowed b'T'
      → AllowsService Allowed b'T'
      → AllowsFile Allowed
      → Inserts db Allowed ident (insert_target db ident i v)
  unfolding insert_target
  insert_target-Inserts i v h0 h1 h2 h3 h4 h5 =
      search
        (
          insertion, insert_node-Inserts, insert_user-Inserts, insert_process-Inserts,
          insert_service-Inserts, insert_file-Inserts,
        )
        depth 30

  pub insert_analyzer-Inserts :
      (p : ℕ) (i : Index) (v : Analyzer)
      → Allowed (text "Prelude_Analyzer") (some p)
      → AllowsNode Allowed p
      → AllowsProcess Allowed p
      → Inserts db Allowed ident (insert_analyzer db p ident i v)
  unfolding insert_analyzer
  insert_analyzer-Inserts p i v h0 h1 h2 =
      search (insertion, insert_node-Inserts, insert_process-Inserts) depth 30
