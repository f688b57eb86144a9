-- ===== src/Insert/Ends.antt =====
-- plugins/format/classic/classic-insert.c: the rows of sources, targets and analyzers.
use libpreludedb.Base.{ℕ, none, some, [], ◌∷◌, text, failure, foreign}
use libpreludedb.Insert.Call.{Action, ◌>>=◌, ◌>>◌, failing_as}
use libpreludedb.Insert.Classes.{Source, Target, Analyzer}
use libpreludedb.Insert.Row.{Database, Index, escape_string, insert_all, insert_row}
use libpreludedb.Insert.Subject.{insert_node, insert_user, insert_process}
use libpreludedb.Insert.Service.{insert_service}
use libpreludedb.Insert.File.{insert_file}

module _ {St : Type 0} (db : Database St) where
  unfoldable pub insert_source : ℕ → Index → Source → Action St (Unit {0})
  unfolding ◌>>=◌ ◌>>◌ escape_string insert_row insert_node insert_user insert_process
      insert_service
  insert_source message_ident index source = do
    ident ← escape_string db source.ident
    spoofed ← db.escape source.spoofed
    interface ← escape_string db source.interface
    insert_row db record {
      table = text "Prelude_Source";
      fields = text "_message_ident, _index, ident, spoofed, interface";
      parent_type = none;
      message_ident = message_ident;
      indexes = index ∷ [];
      columns = ident ∷ spoofed ∷ interface ∷ [];
    }
    insert_node db b'S' message_ident index source.node
    insert_user db b'S' message_ident index source.user
    insert_process db b'S' message_ident index source.process
    insert_service db b'S' message_ident index source.service

  unfoldable pub insert_target : ℕ → Index → Target → Action St (Unit {0})
  unfolding ◌>>=◌ ◌>>◌ failing_as escape_string insert_row insert_all insert_node insert_user
      insert_process insert_service insert_file
  insert_target message_ident target_index target = do
    decoy ← db.escape target.decoy
    ident ← failing_as (foreign 2) (escape_string db target.ident)
    interface ← failing_as (foreign 2) (escape_string db target.interface)
    failing_as failure (
        insert_row db record {
          table = text "Prelude_Target";
          fields = text "_message_ident, _index, ident, decoy, interface";
          parent_type = none;
          message_ident = message_ident;
          indexes = target_index ∷ [];
          columns = ident ∷ decoy ∷ interface ∷ [];
        })
    insert_node db b'T' message_ident target_index target.node
    insert_user db b'T' message_ident target_index target.user
    insert_process db b'T' message_ident target_index target.process
    insert_service db b'T' message_ident target_index target.service
    insert_all (insert_file db message_ident target_index) target.files

  unfoldable pub insert_analyzer : ℕ → ℕ → Index → Analyzer → Action St (Unit {0})
  unfolding ◌>>=◌ ◌>>◌ escape_string insert_row insert_node insert_process
  insert_analyzer parent_type message_ident analyzer_index analyzer = do
    analyzerid ← escape_string db analyzer.analyzerid
    class ← escape_string db analyzer.class
    name ← escape_string db analyzer.name
    model ← escape_string db analyzer.model
    version ← escape_string db analyzer.version
    manufacturer ← escape_string db analyzer.manufacturer
    ostype ← escape_string db analyzer.ostype
    osversion ← escape_string db analyzer.osversion
    insert_row db record {
      table = text "Prelude_Analyzer";
      fields =
          text
            "_parent_type, _message_ident, _index, analyzerid, name, manufacturer, model, version, class, ostype, osversion";
      parent_type = some parent_type;
      message_ident = message_ident;
      indexes = analyzer_index ∷ [];
      columns =
          analyzerid ∷ name ∷ manufacturer ∷ model ∷ version ∷ class ∷ ostype ∷ osversion ∷ [];
    }
    insert_node db parent_type message_ident analyzer_index analyzer.node
    insert_process db parent_type message_ident analyzer_index analyzer.process
