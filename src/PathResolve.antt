-- ===== src/PathResolve.antt =====
-- plugins/format/classic/classic-path-resolve.c: the tables and columns of the classic format that
-- hold the value of a path; and plugins/format/classic/classic.c: how many columns they are.
pub mod Resolvers
pub mod Columns
pub mod Selected
pub mod Resolve
pub mod Select
pub mod Inode
mod Tests
use libpreludedb.Base.{
  ℕ, ◌-◌, Bool, true, false, not, ◌&&◌, ◌||◌, Option, none, some, List, [], ◌∷◌, Bytes, Result, ok,
  err, fault, text, ◌==◌, if◌then◌else◌,
}
use libpreludedb.Idmef.{StringLib}
use libpreludedb.PathSelection.{
  Object, int, string, idmef_path, function, Flags, SelectedPath, is_function,
}
use libpreludedb.Joins.{ClassIds, PathLib, JoinedTable, Join, lookup_table, new_table}
use libpreludedb.PathResolve.Resolvers.{
  FieldContext, where_context, select_context, function_context, default_table_name,
  message_table_name, process_table_name, file_access_table_name, web_service_table_name,
  default_field, message_field, snmp_field, checksum_field, file_field, addata_field, parent_class,
}

-- An entry of `classes`: how a path of the class finds its table, and its columns in that table,
-- written behind a text.
pub record ClassResolver (IdmefPath : Type 0) : Type 0 where
  pub resolve_table_name : IdmefPath → Result Bytes
  pub resolve_field_name : IdmefPath → FieldContext → Bytes → Bytes → Result Bytes

module _ (ids : ClassIds) (lib : StringLib) {IdmefPath : Type 0} (paths : PathLib IdmefPath)
    (class_name : ℕ → Bytes) where
  open ids use {
    alert, heartbeat, process, snmp_service, web_service, checksum, file, file_access,
    additional_data,
  }
  open paths use {depth, is_time, is_data}

  abbrev resolver :
      (IdmefPath → Result Bytes)
      → (IdmefPath → FieldContext → Bytes → Bytes → Result Bytes)
      → ClassResolver IdmefPath
  resolver name field = record { resolve_table_name = name; resolve_field_name = field }

  -- `default_class`
  abbrev pub default_class : ClassResolver IdmefPath
  default_class =
      resolver (default_table_name ids lib paths class_name)
        (default_field ids lib paths class_name)

  abbrev pub classes : List (ℕ × ClassResolver IdmefPath)
  classes =
      (
        alert,
        resolver (message_table_name ids lib paths class_name)
            (message_field ids lib paths class_name),
      )
      ∷ (
        heartbeat,
        resolver (message_table_name ids lib paths class_name)
            (message_field ids lib paths class_name),
      )
      ∷ (
        process,
        resolver (process_table_name ids lib paths class_name)
            (default_field ids lib paths class_name),
      )
      ∷ (
        snmp_service,
        resolver (default_table_name ids lib paths class_name)
            (snmp_field ids lib paths class_name),
      )
      ∷ (
        web_service,
        resolver (web_service_table_name ids lib paths class_name)
            (default_field ids lib paths class_name),
      )
      ∷ (
        checksum,
        resolver (default_table_name ids lib paths class_name)
            (checksum_field ids lib paths class_name),
      )
      ∷ (
        file,
        resolver (default_table_name ids lib paths class_name)
            (file_field ids lib paths class_name),
      )
      ∷ (
        file_access,
        resolver (file_access_table_name ids lib paths class_name)
            (default_field ids lib paths class_name),
      )
      ∷ (
        additional_data,
        resolver (default_table_name ids lib paths class_name)
            (addata_field ids lib paths class_name),
      )
      ∷ []

  abbrev pub search_in : ℕ → List (ℕ × ClassResolver IdmefPath) → ClassResolver IdmefPath
  search_in id [] = default_class
  search_in id ((c, entry) ∷ entries) = if id == c then entry else search_in id entries

  -- `search_path`
  unfoldable pub search_path : IdmefPath → ClassResolver IdmefPath
  search_path path = search_in (parent_class ids lib paths class_name path) classes

  abbrev pub found_table :
      IdmefPath
      → Join IdmefPath
      → Option (JoinedTable IdmefPath)
      → Result (JoinedTable IdmefPath) × Join IdmefPath
  found_table path join (some table) = (ok table, join)
  found_table path join none = elim ((search_path path).resolve_table_name path) [
    | err e ↦ (err e, join)
    | ok table_name ↦ new_table ids lib paths join path table_name
  ]

  abbrev pub in_table :
      IdmefPath
      → FieldContext
      → Bytes
      → Result (JoinedTable IdmefPath) × Join IdmefPath
      → Result Bytes × Join IdmefPath
  in_table path context output (err e, join) = (err e, join)
  in_table path context output (ok table, join) =
      ((search_path path).resolve_field_name path context table.aliased_table_name output, join)

  -- `_classic_path_resolve`
  unfoldable pub path_resolve :
      IdmefPath → FieldContext → Join IdmefPath → Bytes → Result Bytes × Join IdmefPath
  unfolding search_path
  path_resolve path context join output =
      if depth path == 2 && not (is_time path)
      then (default_field ids lib paths class_name path context (text "top_table") output, join)
      else in_table path context output
          (found_table path join (lookup_table ids lib paths join path))

  -- `classic_get_path_column_count`, on the object of the selected path
  unfoldable pub object_column_count : Flags → Object IdmefPath → ℕ
  object_column_count flags (idmef_path path) =
      if flags.group_by
      then 1
      else (if parent_class ids lib paths class_name path == additional_data && is_data path
          then 2
          else (if is_time path then (if depth path == 2 then 3 else 2) else 1))
  object_column_count flags (int n) = 1
  object_column_count flags (string s) = 1
  object_column_count flags (function f args) = 1

  -- `get_field_context`
  unfoldable pub field_context : Flags → Object IdmefPath → FieldContext
  field_context flags object =
      if is_function object || flags.group_by then function_context else select_context

  abbrev pub with_join : Result Bytes × Join IdmefPath → Result (Bytes × Join IdmefPath)
  with_join (err e, join) = err e
  with_join (ok output, join) = ok (output, join)

  -- `classic_path_resolve`, as the select object calls it
  unfoldable pub classic_path_resolve :
      SelectedPath IdmefPath → IdmefPath → Join IdmefPath → Bytes → Result (Bytes × Join IdmefPath)
  unfolding path_resolve field_context
  classic_path_resolve selected path join output = elim selected.object [
    | none ↦ err fault
    | some object ↦ with_join (path_resolve path (field_context selected.flags object) join output)
  ]
