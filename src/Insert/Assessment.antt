-- ===== src/Insert/Assessment.antt =====
-- plugins/format/classic/classic-insert.c: the rows of assessments.
use libpreludedb.Base.{ℕ, none, [], ◌∷◌, text}
use libpreludedb.Insert.Call.{Action, ◌>>=◌, ◌>>◌}
use libpreludedb.Insert.Classes.{Impact, Act, Confidence, Assessment}
use libpreludedb.Insert.Row.{Database, Index, escape_string, if_given, insert_all, insert_row}

module _ {St : Type 0} (db : Database St) where
  unfoldable pub insert_impact : ℕ → Impact → Action St (Unit {0})
  unfolding ◌>>=◌ escape_string insert_row
  insert_impact message_ident impact = do
    completion ← db.escape impact.completion
    type ← db.escape impact.type
    severity ← db.escape impact.severity
    description ← escape_string db impact.description
    insert_row db record {
      table = text "Prelude_Impact";
      fields = text "_message_ident, severity, completion, type, description";
      parent_type = none;
      message_ident = message_ident;
      indexes = [];
      columns = severity ∷ completion ∷ type ∷ description ∷ [];
    }

  unfoldable pub insert_action : ℕ → Index → Act → Action St (Unit {0})
  unfolding ◌>>=◌ escape_string insert_row
  insert_action message_ident action_index action = do
    category ← db.escape action.category
    description ← escape_string db action.description
    insert_row db record {
      table = text "Prelude_Action";
      fields = text "_message_ident, _index, category, description";
      parent_type = none;
      message_ident = message_ident;
      indexes = action_index ∷ [];
      columns = category ∷ description ∷ [];
    }

  unfoldable pub insert_confidence : ℕ → Confidence → Action St (Unit {0})
  unfolding ◌>>=◌ escape_string insert_row
  insert_confidence message_ident confidence = do
    rating ← db.escape confidence.rating
    insert_row db record {
      table = text "Prelude_Confidence";
      fields = text "_message_ident, rating, confidence";
      parent_type = none;
      message_ident = message_ident;
      indexes = [];
      columns = rating ∷ confidence.confidence ∷ [];
    }

  unfoldable pub insert_assessment : ℕ → Assessment → Action St (Unit {0})
  unfolding ◌>>◌ insert_row insert_all if_given insert_impact insert_confidence insert_action
  insert_assessment message_ident assessment = do
    insert_row db record {
      table = text "Prelude_Assessment";
      fields = text "_message_ident";
      parent_type = none;
      message_ident = message_ident;
      indexes = [];
      columns = [];
    }
    if_given (insert_impact message_ident) assessment.impact
    if_given (insert_confidence message_ident) assessment.confidence
    insert_all (insert_action message_ident) assessment.actions
