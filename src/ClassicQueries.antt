-- ===== src/ClassicQueries.antt =====
-- plugins/format/classic/classic.c: the SELECT statements for the values of a selection and for the
-- idents of messages, made of the fields and clauses of src/preludedb-sql-select.c, of the joins and
-- of the criteria, and run.
pub mod Statement
pub mod Idents
pub mod TopTable
mod Tests
use libpreludedb.Base.{
  ℕ, Bool, true, false, Option, none, some, List, [], ◌∷◌, ◌++◌, Bytes, Result, ok, err, text,
  if◌then◌else◌, ◌>>=◌, chain, ◌==◌,
}
use libpreludedb.Idmef.{ℤ, StringLib}
use libpreludedb.Sql.{Plugin, Sql, sql_query}
use libpreludedb.Criteria.{Operators, Writer}
use libpreludedb.PathSelection.{
  PathSelection, Flags, Object, idmef_path, SelectedPath, selected_path_new,
}
use libpreludedb.SqlSelect.{
  Select, Writers, select_new, add_field, add_selected, add_selection, fields_to_string,
  modifiers_to_string,
}
use libpreludedb.Joins.{ClassIds, PathLib, Join, join_to_string}
use libpreludedb.ClassicCriteria.{
  Criteria, absent, criteria, Criterion, Resolving, path_resolve_criteria,
}

-- `classic_sql_join_new`
abbrev pub join_new : {IdmefPath : Type 0} → Join IdmefPath
join_new = record { top_class = 0; tables = []; next_id = 0 }

-- `preludedb_result_idents_order_t`; `no_order` is 0.
pub data Order : Type 0 where
  no_order create_time_desc create_time_asc : Order

module _ (ids : ClassIds) (lib : StringLib) {IdmefPath : Type 0} (paths : PathLib IdmefPath)
    (class_name : ℕ → Bytes) (plugin : Plugin) (operators : Operators) {Time : Type 0}
    (writer : Writer (plugin.Session) (operators.Operator) Time)
    (writers : Writers IdmefPath (Join IdmefPath))
    (limit_offset : ℤ → ℤ → Bytes → Result Bytes) where
  open lib use {cat}
  open plugin use {Session, Table}

  -- the condition of a statement: none without criteria
  abbrev pub resolve_where :
      Criteria (Criterion IdmefPath (operators.Operator) Time)
      → Join IdmefPath × Sql Session
      → Result (Option Bytes) × (Join IdmefPath × Sql Session)
  resolve_where absent s = (ok none, s)
  resolve_where (criteria c or and) s =
      chain
        (path_resolve_criteria ids lib paths class_name plugin operators writer (criteria c or and)
          [] s)
        (λ condition s'. (ok (some condition), s'))

  -- `prelude_string_sprintf(query, " WHERE %s", …)`
  abbrev pub cat_where : Option Bytes → Bytes → Result Bytes
  cat_where none query = ok query
  cat_where (some condition) query = cat query (text " WHERE " ++ condition)

  -- The same in two steps.
  abbrev pub cat_where_twice : Option Bytes → Bytes → Result Bytes
  cat_where_twice none query = ok query
  cat_where_twice (some condition) query =
      cat query (text " WHERE ") >>= λ query'. cat query' condition

  -- The statement of `classic_get_values`.
  unfoldable pub values_query : Bool → Select → Join IdmefPath → Option Bytes → ℤ → ℤ → Result Bytes
  values_query distinct select join condition limit offset = do
    query₁ ← cat [] (text "SELECT ")
    query₂ ← if distinct then cat query₁ (text "DISTINCT ") else ok query₁
    query₃ ← fields_to_string lib select query₂
    query₄ ← cat query₃ (text " FROM ")
    query₅ ← join_to_string ids lib paths join query₄
    query₆ ← cat_where condition query₅
    query₇ ← modifiers_to_string lib select query₆
    limit_offset limit offset query₇

  -- The statement of `get_message_idents`.
  unfoldable pub idents_query : Select → Join IdmefPath → Option Bytes → ℤ → ℤ → Result Bytes
  idents_query select join condition limit offset = do
    query₁ ← cat [] (text "SELECT ")
    query₂ ← fields_to_string lib select query₁
    query₃ ← cat query₂ (text " FROM ")
    query₄ ← join_to_string ids lib paths join query₃
    query₅ ← cat_where_twice condition query₄
    query₆ ← modifiers_to_string lib select query₅
    limit_offset limit offset query₆

  -- run the statement, if it was built
  abbrev pub run_query : Result Bytes → Sql Session → Result (Option Table) × Sql Session
  run_query (err e) sql = (err e, sql)
  run_query (ok query) sql = sql_query plugin query sql

  abbrev pub run_where :
      (Join IdmefPath → Option Bytes → Result Bytes)
      → Result (Option Bytes) × (Join IdmefPath × Sql Session)
      → Result (Option Table) × Sql Session
  run_where build (err e, (join, sql)) = (err e, sql)
  run_where build (ok condition, (join, sql)) = run_query (build join condition) sql

  abbrev pub values_of :
      Criteria (Criterion IdmefPath (operators.Operator) Time)
      → Bool
      → ℤ
      → ℤ
      → Sql Session
      → Result (Select × Join IdmefPath)
      → Result (Option Table) × Sql Session
  values_of conditions distinct limit offset sql (err e) = (err e, sql)
  values_of conditions distinct limit offset sql (ok (select, join)) =
      run_where (λ join' condition. values_query distinct select join' condition limit offset)
        (resolve_where conditions (join, sql))

  abbrev pub values_from :
      Criteria (Criterion IdmefPath (operators.Operator) Time)
      → Bool
      → ℤ
      → ℤ
      → Sql Session
      → Option (Result (Select × Join IdmefPath))
      → Option (Result (Option Table) × Sql Session)
  values_from conditions distinct limit offset sql none = none
  values_from conditions distinct limit offset sql (some r) =
      some (values_of conditions distinct limit offset sql r)

  -- `classic_get_values`; `none`: the loop over the selection does not end.
  unfoldable pub classic_get_values :
      PathSelection IdmefPath
      → Criteria (Criterion IdmefPath (operators.Operator) Time)
      → Bool
      → ℤ
      → ℤ
      → Sql Session
      → Option (Result (Option Table) × Sql Session)
  classic_get_values selection conditions distinct limit offset sql =
      values_from conditions distinct limit offset sql
        (add_selection lib writers selection join_new select_new)

  -- libprelude's `idmef_path_new_fast`, as `preludedb_selected_object_new` calls it
  module _ (path_new : Bytes → Result IdmefPath) where
    abbrev pub order_flags : Order → Flags
    order_flags create_time_desc = record { group_by = false; order_asc = false; order_desc = true }
    order_flags other = record { group_by = false; order_asc = true; order_desc = false }

    abbrev create_time : ℕ → Bytes
    create_time message_type =
        if message_type == ids.alert then text "alert.create_time" else text "heartbeat.create_time"

    -- `get_message_idents_set_order`
    unfoldable pub set_order :
        ℕ → Order → Join IdmefPath → Select → Result (Select × Join IdmefPath)
    set_order message_type order join select = do
      path ← path_new (create_time message_type)
      add_selected lib writers (selected_path_new (some (idmef_path path)) (order_flags order)) join
          select

    -- `if ( order )`
    abbrev pub ordered : ℕ → Order → Join IdmefPath → Select → Result (Select × Join IdmefPath)
    ordered message_type no_order join select = ok (select, join)
    ordered message_type create_time_desc join select =
        set_order message_type create_time_desc join select
    ordered message_type create_time_asc join select =
        set_order message_type create_time_asc join select

    abbrev pub idents_of :
        Criteria (Criterion IdmefPath (operators.Operator) Time)
        → ℤ
        → ℤ
        → Sql Session
        → Result (Select × Join IdmefPath)
        → Result (Option Table) × Sql Session
    idents_of conditions limit offset sql (err e) = (err e, sql)
    idents_of conditions limit offset sql (ok (select, join)) =
        run_where (λ join' condition. idents_query select join' condition limit offset)
          (resolve_where conditions (join, sql))

    -- the fields of `get_message_idents`
    abbrev pub ident_fields : ℕ → Order → Result (Select × Join IdmefPath)
    ident_fields message_type order = do
      select ← add_field lib (text "DISTINCT(top_table._ident)") select_new
      ordered message_type order (record join_new { top_class = message_type }) select

    -- `get_message_idents`
    unfoldable pub get_message_idents :
        ℕ
        → Criteria (Criterion IdmefPath (operators.Operator) Time)
        → ℤ
        → ℤ
        → Order
        → Sql Session
        → Result (Option Table) × Sql Session
    unfolding set_order
    get_message_idents message_type conditions limit offset order sql =
        idents_of conditions limit offset sql (ident_fields message_type order)
