-- ===== src/Joins/Paths.antt =====
-- The paths of libprelude, and the parent types that plugins/format/classic/classic-sql-join.c finds
-- for them.
use libpreludedb.Base.{
  ℕ, ◌-◌, Bool, ◌&&◌, ◌||◌, Option, none, some, Bytes, text, ltb, ◌==◌, ◌=ₛ◌, if◌then◌else◌,
}
use libpreludedb.Idmef.{ℤ}

-- The class ids of libprelude that are told apart; 0 is no class.
pub record ClassIds : Type 0 where
  pub alert : ℕ
  pub heartbeat : ℕ
  pub classification : ℕ
  pub assessment : ℕ
  pub overflow_alert : ℕ
  pub tool_alert : ℕ
  pub correlation_alert : ℕ
  pub source : ℕ
  pub target : ℕ
  pub file : ℕ
  pub file_access : ℕ
  pub user_id : ℕ
  pub alertident : ℕ
  pub process : ℕ
  pub snmp_service : ℕ
  pub web_service : ℕ
  pub checksum : ℕ
  pub additional_data : ℕ
  pub inode : ℕ

-- What `idmef_path_get_index` returns: an index, where -1 is the last one, or one of two errors.
pub data PathIndex : Type 0 where
  at : ℤ → PathIndex
  undefined forbidden : PathIndex

-- libprelude's paths: the depth; the class, name and index at a depth; whether the value is a
-- time, or data; and the comparisons of a whole path and of its first elements.
pub record PathLib (IdmefPath : Type 0) : Type 0 where
  pub depth : IdmefPath → ℕ
  pub class_of : IdmefPath → ℕ → ℕ
  pub name_of : IdmefPath → ℕ → Bytes
  pub index_of : IdmefPath → ℕ → PathIndex
  pub is_time : IdmefPath → Bool
  pub is_data : IdmefPath → Bool
  pub same : IdmefPath → IdmefPath → Bool
  pub same_up_to : IdmefPath → IdmefPath → ℕ → Bool

module _ (ids : ClassIds) {IdmefPath : Type 0} (paths : PathLib IdmefPath) where
  open ids use {
    heartbeat, classification, assessment, overflow_alert, tool_alert, correlation_alert, source,
    target, file, file_access, user_id, alertident,
  }
  open paths use {depth, class_of, name_of}

  unfoldable pub resolve_file_parent_type : IdmefPath → Option ℕ
  resolve_file_parent_type path =
      if class_of path 3 == file_access && class_of path 4 == user_id then some b'F' else none

  unfoldable pub resolve_target_parent_type : IdmefPath → Option ℕ
  unfolding resolve_file_parent_type
  resolve_target_parent_type path =
      if depth path == 3
      then none
      else (if class_of path 2 == file then resolve_file_parent_type path else some b'T')

  unfoldable pub resolve_source_parent_type : IdmefPath → Option ℕ
  resolve_source_parent_type path = if ltb 3 (depth path) then some b'S' else none

  unfoldable pub resolve_tool_alert_parent_type : IdmefPath → Option ℕ
  resolve_tool_alert_parent_type path = if class_of path 2 == alertident then some b'T' else none

  unfoldable pub resolve_correlation_alert_parent_type : IdmefPath → Option ℕ
  resolve_correlation_alert_parent_type path =
      if class_of path 2 == alertident then some b'C' else none

  -- the end of the function below: the paths of the alert itself
  abbrev alert_parent_type : IdmefPath → Option ℕ
  alert_parent_type path =
      if name_of path (depth path - 1) =ₛ text "detect_time" then none else some b'A'

  unfoldable pub resolve_alert_parent_type : IdmefPath → Option ℕ
  unfolding resolve_target_parent_type resolve_source_parent_type resolve_tool_alert_parent_type
      resolve_correlation_alert_parent_type
  resolve_alert_parent_type path =
      let c = class_of path 1 in
      if c == classification || c == assessment || c == overflow_alert
      then none
      else (if c == tool_alert
          then resolve_tool_alert_parent_type path
          else (if c == correlation_alert
              then resolve_correlation_alert_parent_type path
              else (if c == source
                  then resolve_source_parent_type path
                  else (if c == target
                      then resolve_target_parent_type path
                      else alert_parent_type path))))

  unfoldable pub resolve_parent_type : IdmefPath → Option ℕ
  unfolding resolve_alert_parent_type
  resolve_parent_type path =
      if class_of path 0 == heartbeat then some b'H' else resolve_alert_parent_type path
