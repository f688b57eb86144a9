-- ===== src/PathResolve/Resolvers.antt =====
-- The resolvers of plugins/format/classic/classic-path-resolve.c: the name of the table for a path,
-- and the columns of it that hold the value.
use libpreludedb.Base.{
  ℕ, ◌+◌, ◌-◌, ◌%◌, Bool, true, false, ◌&&◌, ◌||◌, [], ◌∷◌, ◌++◌, Bytes, Result, ok, text, ◌==◌,
  ◌=ₛ◌, if◌then◌else◌, ◌>>=◌,
}
use libpreludedb.Idmef.{StringLib}
use libpreludedb.Joins.{ClassIds, PathLib}

-- FIELD_CONTEXT_WHERE, FIELD_CONTEXT_SELECT, FIELD_CONTEXT_FUNCTION
pub data FieldContext : Type 0 where
  where_context select_context function_context : FieldContext

abbrev pub is_message_time : Bytes → Bool
is_message_time name =
    name =ₛ text "create_time" || name =ₛ text "detect_time" || name =ₛ text "analyzer_time"

abbrev pub is_file_time : Bytes → Bool
is_file_time name =
    name =ₛ text "create_time" || name =ₛ text "modify_time" || name =ₛ text "access_time"

-- table.column
abbrev pub column : Bytes → Bytes → Bytes
column table_name name = table_name ++ (text "." ++ name)

abbrev pub is_select : FieldContext → Bool
is_select select_context = true
is_select _ = false

module _ (ids : ClassIds) (lib : StringLib) {IdmefPath : Type 0} (paths : PathLib IdmefPath)
    (class_name : ℕ → Bytes) where
  open ids use {
    alert, heartbeat, process, snmp_service, web_service, checksum, file, file_access,
    additional_data,
  }
  open lib use {cat}
  open paths use {depth, class_of, name_of, is_time, is_data}

  abbrev pub parent_class : IdmefPath → ℕ
  parent_class path = class_of path (depth path - 2)

  abbrev pub child_name : IdmefPath → Bytes
  child_name path = name_of path (depth path - 1)

  -- The loop of `default_table_name_resolver`: the letter behind a `_`, and the first one, are
  -- made capitals.
  unfoldable pub capitalized : Bool → Bytes → Bytes → Result Bytes
  capitalized next_is_maj [] output = ok output
  capitalized next_is_maj (c ∷ name) output = elim (c == b'_') [
    | true ↦ capitalized true name output
    | false ↦ cat output ((if next_is_maj then (c + 224) % 256 else c) ∷ []) >>= λ output'.
        capitalized false name output'
  ]

  unfoldable pub default_table_name : IdmefPath → Result Bytes
  unfolding capitalized
  default_table_name path = cat [] (text "Prelude_") >>= λ output.
      capitalized true (class_name (parent_class path)) output

  unfoldable pub message_table_name : IdmefPath → Result Bytes
  unfolding default_table_name
  message_table_name path =
      if child_name path =ₛ text "create_time"
      then ok (text "Prelude_CreateTime")
      else (if child_name path =ₛ text "detect_time"
          then ok (text "Prelude_DetectTime")
          else (if child_name path =ₛ text "analyzer_time"
              then ok (text "Prelude_AnalyzerTime")
              else default_table_name path))

  unfoldable pub process_table_name : IdmefPath → Result Bytes
  process_table_name path =
      if child_name path =ₛ text "arg"
      then ok (text "Prelude_ProcessArg")
      else (if child_name path =ₛ text "env"
          then ok (text "Prelude_ProcessEnv")
          else ok (text "Prelude_Process"))

  unfoldable pub file_access_table_name : IdmefPath → Result Bytes
  file_access_table_name path =
      if child_name path =ₛ text "permission"
      then ok (text "Prelude_FileAccess_Permission")
      else ok (text "Prelude_FileAccess")

  unfoldable pub web_service_table_name : IdmefPath → Result Bytes
  web_service_table_name path =
      if child_name path =ₛ text "arg"
      then ok (text "Prelude_WebServiceArg")
      else ok (text "Prelude_WebService")

  unfoldable pub default_field : IdmefPath → FieldContext → Bytes → Bytes → Result Bytes
  default_field path context table output = cat output (column table (child_name path))

  unfoldable pub time_with_usec_field : IdmefPath → FieldContext → Bytes → Bytes → Result Bytes
  time_with_usec_field path context table output =
      if is_select context
      then cat output (
          column table (text "time")
          ++ (text ", "
              ++ (column table (text "gmtoff") ++ (text ", " ++ column table (text "usec")))))
      else cat output (column table (text "time"))

  unfoldable pub time_without_usec_field : IdmefPath → FieldContext → Bytes → Bytes → Result Bytes
  time_without_usec_field path context table output =
      if is_select context
      then cat output (
          column table (child_name path)
          ++ (text ", " ++ column table (child_name path ++ text "_gmtoff")))
      else cat output (column table (child_name path))

  unfoldable pub message_field : IdmefPath → FieldContext → Bytes → Bytes → Result Bytes
  unfolding default_field time_with_usec_field
  message_field path context table output =
      if is_message_time (child_name path)
      then time_with_usec_field path context table output
      else default_field path context table output

  unfoldable pub snmp_field : IdmefPath → FieldContext → Bytes → Bytes → Result Bytes
  snmp_field path context table output =
      cat output
        (column table (if child_name path =ₛ text "oid" then text "snmp_oid" else child_name path))

  unfoldable pub checksum_field : IdmefPath → FieldContext → Bytes → Bytes → Result Bytes
  checksum_field path context table output = cat output (
      column table (if child_name path =ₛ text "key" then text "checksum_key" else child_name path))

  unfoldable pub file_field : IdmefPath → FieldContext → Bytes → Bytes → Result Bytes
  unfolding time_without_usec_field
  file_field path context table output =
      if is_file_time (child_name path)
      then time_without_usec_field path context table output
      else cat output (column table (child_name path))

  unfoldable pub addata_field : IdmefPath → FieldContext → Bytes → Bytes → Result Bytes
  addata_field path context table output =
      if is_select context && child_name path =ₛ text "data"
      then cat output (column table (child_name path) ++ (text ", " ++ column table (text "type")))
      else cat output (column table (child_name path))
