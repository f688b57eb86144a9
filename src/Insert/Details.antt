-- ===== src/Insert/Details.antt =====
-- plugins/format/classic/classic-insert.c: the rows of times, classifications and additional data.
use libpreludedb.Base.{ℕ, Option, none, some, [], ◌∷◌, text}
use libpreludedb.Insert.Call.{Action, ◌>>=◌, ◌>>◌, unchecked}
use libpreludedb.Insert.Classes.{Time, Reference, Classification, AdditionalData}
use libpreludedb.Insert.Row.{Database, Index, escape_string, get_data, insert_all, insert_row}

module _ {St : Type 0} (db : Database St) where
  unfoldable pub insert_reference : ℕ → Index → Reference → Action St (Unit {0})
  unfolding ◌>>=◌ escape_string insert_row
  insert_reference message_ident reference_index reference = do
    origin ← db.escape reference.origin
    url ← escape_string db reference.url
    name ← escape_string db reference.name
    meaning ← escape_string db reference.meaning
    insert_row db record {
      table = text "Prelude_Reference";
      fields = text "_message_ident, _index, origin, name, url, meaning";
      parent_type = none;
      message_ident = message_ident;
      indexes = reference_index ∷ [];
      columns = origin ∷ name ∷ url ∷ meaning ∷ [];
    }

  -- The result of the insertion into Prelude_Classification is not looked at.
  unfoldable pub insert_classification : ℕ → Classification → Action St (Unit {0})
  unfolding ◌>>=◌ ◌>>◌ unchecked escape_string insert_row insert_all insert_reference
  insert_classification message_ident classification = do
    ident ← escape_string db classification.ident
    caption ← escape_string db classification.text
    unchecked (
        insert_row db record {
          table = text "Prelude_Classification";
          fields = text "_message_ident, ident, text";
          parent_type = none;
          message_ident = message_ident;
          indexes = [];
          columns = ident ∷ caption ∷ [];
        })
    insert_all (insert_reference message_ident) classification.references

  unfoldable pub insert_additional_data : ℕ → ℕ → Index → AdditionalData → Action St (Unit {0})
  unfolding ◌>>=◌ escape_string get_data insert_row
  insert_additional_data parent_type message_ident ad_index additional_data = do
    type ← db.escape additional_data.type
    meaning ← escape_string db additional_data.meaning
    content ← get_data db additional_data.data_
    insert_row db record {
      table = text "Prelude_AdditionalData";
      fields = text "_parent_type, _message_ident, _index, type, meaning, data";
      parent_type = some parent_type;
      message_ident = message_ident;
      indexes = ad_index ∷ [];
      columns = type ∷ meaning ∷ content ∷ [];
    }

  unfoldable pub insert_createtime : ℕ → ℕ → Option Time → Action St (Unit {0})
  unfolding ◌>>=◌ insert_row
  insert_createtime parent_type message_ident time = do
    utc_time ← db.time_to_timestamp time
    insert_row db record {
      table = text "Prelude_CreateTime";
      fields = text "_parent_type, _message_ident, time, gmtoff, usec";
      parent_type = some parent_type;
      message_ident = message_ident;
      indexes = [];
      columns = utc_time.time ∷ utc_time.gmtoff ∷ utc_time.usec ∷ [];
    }

  unfoldable pub insert_detecttime : ℕ → Time → Action St (Unit {0})
  unfolding ◌>>=◌ insert_row
  insert_detecttime message_ident time = do
    utc_time ← db.time_to_timestamp (some time)
    insert_row db record {
      table = text "Prelude_DetectTime";
      fields = text "_message_ident, time, gmtoff, usec";
      parent_type = none;
      message_ident = message_ident;
      indexes = [];
      columns = utc_time.time ∷ utc_time.gmtoff ∷ utc_time.usec ∷ [];
    }

  unfoldable pub insert_analyzertime : ℕ → ℕ → Time → Action St (Unit {0})
  unfolding ◌>>=◌ insert_row
  insert_analyzertime parent_type message_ident time = do
    utc_time ← db.time_to_timestamp (some time)
    insert_row db record {
      table = text "Prelude_AnalyzerTime";
      fields = text "_parent_type, _message_ident, time, gmtoff, usec";
      parent_type = some parent_type;
      message_ident = message_ident;
      indexes = [];
      columns = utc_time.time ∷ utc_time.gmtoff ∷ utc_time.usec ∷ [];
    }
