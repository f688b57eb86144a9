-- ===== src/Insert/Deleted.antt =====
-- The rows that plugins/format/classic/classic-insert.c writes for a message, and the statements of
-- plugins/format/classic/classic-delete.c that remove them.
use libpreludedb.Base.{
  ℕ, ◌≡◌, refl, Bool, true, false, not, ◌&&◌, ◌||◌, ◌==◌, ◌=ₛ◌, Option, none, some, List, [], ◌∷◌,
  ◌++◌, Bytes, text,
}
use libpreludedb.Delete.{alert_queries, heartbeat_queries}
use libpreludedb.Insert.{insert_alert_parts, insert_heartbeat_parts}
use libpreludedb.Insert.Classes.{Alert, Heartbeat}
use libpreludedb.Insert.Row.{Database}
use libpreludedb.Insert.Steps.{
  Steps, stay, Inserts, >>-Inserts, if_given-Inserts, insert_all-Inserts,
}
use libpreludedb.Insert.Steps.Ends.{
  insert_source-Inserts, insert_target-Inserts, insert_analyzer-Inserts,
}
use libpreludedb.Insert.Steps.Details.{
  insert_classification-Inserts, insert_additional_data-Inserts, insert_createtime-Inserts,
  insert_detecttime-Inserts, insert_analyzertime-Inserts,
}
use libpreludedb.Insert.Steps.Assessment.{insert_assessment-Inserts}
use libpreludedb.Insert.Steps.Kind.{insert_alert_type-Inserts}

-- DELETE FROM <table> WHERE <condition>
abbrev from_where : Bytes → Bytes → Bytes
from_where table condition = text "DELETE FROM " ++ (table ++ (text " WHERE " ++ condition))

-- Whether a statement removes the rows of a table with a parent type, or without one, whose ident
-- it is given.
abbrev removes : Bytes → Bytes → Option ℕ → Bool
removes query table none = query =ₛ from_where table (text "_message_ident %s")
removes query table (some c) =
    query =ₛ from_where table (text "_message_ident %s")
    || c == b'A' && query =ₛ from_where table (text "_message_ident %s AND _parent_type = 'A'")
    || c == b'H' && query =ₛ from_where table (text "_parent_type = 'H' AND _message_ident %s")
    || not (c == b'H')
      && query =ₛ from_where table (text "_message_ident %s AND _parent_type != 'H'")

unfoldable pub is_removed : List Bytes → Bytes → Option ℕ → Bool
unfolding text
is_removed [] table parent_type = false
is_removed (q ∷ queries) table parent_type =
    removes q table parent_type || is_removed queries table parent_type

-- what one of the statements removes
abbrev pub IsRemoved : List Bytes → Bytes → Option ℕ → Type 0
IsRemoved queries table parent_type = is_removed queries table parent_type ≡ true

module _ {St : Type 0} (db : Database St) where
  alert_parts-Inserts :
      (a : Alert) (ident : ℕ)
      → Inserts db (IsRemoved alert_queries) ident (insert_alert_parts db a ident)
  unfolding insert_alert_parts is_removed alert_queries text
  alert_parts-Inserts a ident =
      >>-Inserts db (IsRemoved alert_queries) ident _ _
        (insert_createtime-Inserts db (IsRemoved alert_queries) ident b'A' a.create_time refl)
        (>>-Inserts db (IsRemoved alert_queries) ident _ _
          (if_given-Inserts db (IsRemoved alert_queries) ident _ _
            λ x. insert_detecttime-Inserts db (IsRemoved alert_queries) ident x refl)
          (>>-Inserts db (IsRemoved alert_queries) ident _ _
            (if_given-Inserts db (IsRemoved alert_queries) ident _ _
              λ x. insert_analyzertime-Inserts db (IsRemoved alert_queries) ident b'A' x refl)
            (>>-Inserts db (IsRemoved alert_queries) ident _ _
              (if_given-Inserts db (IsRemoved alert_queries) ident _ _ λ x.
                insert_assessment-Inserts db (IsRemoved alert_queries) ident x refl refl refl refl)
              (>>-Inserts db (IsRemoved alert_queries) ident _ _
                (insert_alert_type-Inserts db (IsRemoved alert_queries) ident a.type
                  (refl, refl, refl, refl, refl))
                (>>-Inserts db (IsRemoved alert_queries) ident _ _
                  (insert_all-Inserts db (IsRemoved alert_queries) ident _ _ λ i x.
                    insert_analyzer-Inserts db (IsRemoved alert_queries) ident b'A' i x refl
                      (refl, refl) (refl, refl, refl))
                  (>>-Inserts db (IsRemoved alert_queries) ident _ _
                    (insert_all-Inserts db (IsRemoved alert_queries) ident _ _ λ i x.
                      insert_source-Inserts db (IsRemoved alert_queries) ident i x refl (refl, refl)
                        (refl, refl) (refl, refl, refl) (refl, refl, refl, refl))
                    (>>-Inserts db (IsRemoved alert_queries) ident _ _
                      (insert_all-Inserts db (IsRemoved alert_queries) ident _ _ λ i x.
                        insert_target-Inserts db (IsRemoved alert_queries) ident i x refl
                          (refl, refl) (refl, refl) (refl, refl, refl) (refl, refl, refl, refl)
                          (refl, refl, refl, refl, refl, refl, refl))
                      (>>-Inserts db (IsRemoved alert_queries) ident _ _
                        (if_given-Inserts db (IsRemoved alert_queries) ident _ _ λ x.
                          insert_classification-Inserts db (IsRemoved alert_queries) ident x refl
                            refl)
                        (insert_all-Inserts db (IsRemoved alert_queries) ident _ _ λ i x.
                          insert_additional_data-Inserts db (IsRemoved alert_queries) ident b'A' i x
                            refl)))))))))

  heartbeat_parts-Inserts :
      (h : Heartbeat) (ident : ℕ)
      → Inserts db (IsRemoved heartbeat_queries) ident (insert_heartbeat_parts db h ident)
  unfolding insert_heartbeat_parts is_removed heartbeat_queries text
  heartbeat_parts-Inserts h ident =
      >>-Inserts db (IsRemoved heartbeat_queries) ident _ _
        (insert_all-Inserts db (IsRemoved heartbeat_queries) ident _ _ λ i x.
          insert_analyzer-Inserts db (IsRemoved heartbeat_queries) ident b'H' i x refl (refl, refl)
            (refl, refl, refl))
        (>>-Inserts db (IsRemoved heartbeat_queries) ident _ _
          (insert_createtime-Inserts db (IsRemoved heartbeat_queries) ident b'H' h.create_time refl)
          (>>-Inserts db (IsRemoved heartbeat_queries) ident _ _
            (if_given-Inserts db (IsRemoved heartbeat_queries) ident _ _
              λ x. insert_analyzertime-Inserts db (IsRemoved heartbeat_queries) ident b'H' x refl)
            (insert_all-Inserts db (IsRemoved heartbeat_queries) ident _ _ λ i x.
              insert_additional_data-Inserts db (IsRemoved heartbeat_queries) ident b'H' i x refl)))

  -- Whatever the database answers, the insertion of an alert, behind its row of Prelude_Alert, only
  -- escapes values and inserts rows that carry the ident of the alert, in tables and with parent
  -- types that the statements which delete an alert cover.
  pub insert_alert_parts-Steps :
      (a : Alert) (ident : ℕ) (s : St)
      → Steps db (IsRemoved alert_queries) ident s (insert_alert_parts db a ident s).1
  unfolding Inserts
  insert_alert_parts-Steps a ident s = alert_parts-Inserts a ident s s stay

  -- Whatever the database answers, the insertion of a heartbeat, behind its row of
  -- Prelude_Heartbeat, only escapes values and inserts rows that carry the ident of the heartbeat,
  -- in tables and with parent types that the statements which delete a heartbeat cover.
  pub insert_heartbeat_parts-Steps :
      (h : Heartbeat) (ident : ℕ) (s : St)
      → Steps db (IsRemoved heartbeat_queries) ident s (insert_heartbeat_parts db h ident s).1
  unfolding Inserts
  insert_heartbeat_parts-Steps h ident s = heartbeat_parts-Inserts h ident s s stay
