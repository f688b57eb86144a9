-- ===== src/ClassicQueries/Statement.antt =====
-- The statements of plugins/format/classic/classic.c, from the selection and the criteria to the
-- text that is run.
use libpreludedb.Base.{
  ℕ, Bool, true, false, ◌≡◌, refl, ap, ◌∙◌, sym, Option, none, some, [], ◌++◌, Bytes, Result, ok,
  is_empty, text, if◌then◌else◌, chain, chain_assoc, append_assoc, append-nil, ◌==◌,
}
use libpreludedb.Idmef.{ℤ, StringLib, IsAmple}
use libpreludedb.Sql.{Plugin, Sql, sql_query}
use libpreludedb.Criteria.{Operators, Writer}
use libpreludedb.Criteria.Append.{Appends}
use libpreludedb.PathSelection.{PathSelection}
use libpreludedb.PathSelection.Layout.{IsLaidOut}
use libpreludedb.SqlSelect.{Select, Writers, select_new, fields_to_string}
use libpreludedb.SqlSelect.Clauses.{modifiers_to_string_lem}
use libpreludedb.SqlSelect.Numbers.{add_all, add_selection_lem}
use libpreludedb.Joins.{ClassIds, PathLib, Join}
use libpreludedb.Joins.Statement.{left_joins, join_to_string_lem}
use libpreludedb.ClassicCriteria.{Criteria, absent, criteria, Criterion}
use libpreludedb.ClassicCriteria.Reading.{print, tokens}
use libpreludedb.ClassicCriteria.Writing.{test_texts}
use libpreludedb.ClassicCriteria.Meaning.{resolve_test, path_resolve_criteria_lem}
use libpreludedb.ClassicQueries.{
  join_new, resolve_where, cat_where, values_query, run_query, run_where, values_from,
  classic_get_values,
}

-- the table that a statement reads, and those that it joins
abbrev pub from_text : ClassIds → {IdmefPath : Type 0} → Join IdmefPath → Bytes
from_text ids join =
    ((if join.top_class == ids.alert then text "Prelude_Alert" else text "Prelude_Heartbeat")
      ++ text " AS top_table")
    ++ left_joins join.tables

abbrev pub where_text : Option Bytes → Bytes
where_text none = []
where_text (some condition) = text " WHERE " ++ condition

abbrev pub modifiers_text : Select → Bytes
modifiers_text select =
    (if is_empty select.group_by then [] else text " GROUP BY " ++ select.group_by)
    ++ (if is_empty select.order_by then [] else text " ORDER BY " ++ select.order_by)

-- A SELECT statement without its limit: `distinct` stands before the fields.
abbrev pub statement_text :
    ClassIds → {IdmefPath : Type 0} → Bytes → Select → Join IdmefPath → Option Bytes → Bytes
statement_text ids distinct select join condition =
    text "SELECT "
    ++ (distinct
        ++ (select.fields
            ++ (text " FROM "
                ++ (from_text ids join ++ (where_text condition ++ modifiers_text select)))))

abbrev pub distinct_text : Bool → Bytes
distinct_text distinct = if distinct then text "DISTINCT " else []

module _ (ids : ClassIds) (lib : StringLib) (ample : IsAmple lib) {IdmefPath : Type 0}
    (paths : PathLib IdmefPath) (class_name : ℕ → Bytes) (plugin : Plugin) (operators : Operators)
    {Time : Type 0} (writer : Writer (plugin.Session) (operators.Operator) Time)
    (writers : Writers IdmefPath (Join IdmefPath))
    (limit_offset : ℤ → ℤ → Bytes → Result Bytes) where
  abbrev pub run_where_of :
      (Join IdmefPath → Option Bytes → Result Bytes)
      → Result (Option Bytes) × (Join IdmefPath × Sql (plugin.Session))
      → Result (Option (plugin.Table)) × Sql (plugin.Session)
  run_where_of = run_where ids lib paths class_name plugin operators writer writers limit_offset

  abbrev pub run_query_of :
      Result Bytes → Sql (plugin.Session) → Result (Option (plugin.Table)) × Sql (plugin.Session)
  run_query_of = run_query ids lib paths class_name plugin operators writer writers limit_offset

  cat_distinct_lem :
      (distinct : Bool) (q : Bytes)
      → (if distinct then lib.cat q (text "DISTINCT ") else ok q) ≡ ok (q ++ distinct_text distinct)
  cat_distinct_lem true q = ample q (text "DISTINCT ")
  cat_distinct_lem false q = ap ok (sym (append-nil q))

  cat_where_lem :
      (condition : Option Bytes) (q : Bytes)
      → cat_where ids lib paths class_name plugin operators writer writers limit_offset condition q
        ≡ ok (q ++ where_text condition)
  cat_where_lem none q = ap ok (sym (append-nil q))
  cat_where_lem (some condition) q = ample q _

  values_query_lem :
      (distinct : Bool) (select : Select) (join : Join IdmefPath) (condition : Option Bytes)
      (limit offset : ℤ)
      → values_query ids lib paths class_name plugin operators writer writers limit_offset distinct
          select join condition limit offset
        ≡ limit_offset limit offset
            (statement_text ids (distinct_text distinct) select join condition)
  unfolding values_query fields_to_string
  values_query_lem distinct select join condition limit offset =
      let q₁ = text "SELECT " in
      let q₂ = q₁ ++ distinct_text distinct in
      let q₃ = q₂ ++ select.fields in
      let q₄ = q₃ ++ text " FROM " in
      let q₅ = q₄ ++ from_text ids join in
      let q₆ = q₅ ++ where_text condition in
      rw
        (
          ample [] q₁,
          cat_distinct_lem distinct q₁,
          ample q₂ select.fields,
          ample q₃ (text " FROM "),
        )
        (rw (join_to_string_lem ids lib ample paths join q₄) (
          rw (cat_where_lem condition q₅) (
            rw (modifiers_to_string_lem lib ample select q₆)
              (ap (limit_offset limit offset) (simp append_assoc)))))

  module _ (appends : Appends writer) where
    -- The condition of criteria, from the tests that they write; no criteria, no condition.
    abbrev pub condition_text :
        Criteria (Criterion IdmefPath (operators.Operator) Time)
        → Join IdmefPath × Sql (plugin.Session)
        → Result (Option Bytes) × (Join IdmefPath × Sql (plugin.Session))
    condition_text absent s = (ok none, s)
    condition_text (criteria c or and) s =
        chain
          (test_texts (resolve_test ids lib ample paths class_name plugin operators writer appends)
            (criteria c or and) s)
          (λ texts s'. (ok (some (print (tokens texts))), s'))

    pub resolve_where_lem :
        (conditions : Criteria (Criterion IdmefPath (operators.Operator) Time))
        (s : Join IdmefPath × Sql (plugin.Session))
        → resolve_where ids lib paths class_name plugin operators writer writers limit_offset
            conditions s
          ≡ condition_text conditions s
    resolve_where_lem absent s = refl
    resolve_where_lem (criteria c or and) s =
        ap (λ r. chain r (λ condition s'. (ok (some condition), s')))
          (path_resolve_criteria_lem ids lib ample paths class_name plugin operators writer appends
            c or and [] s)
        ∙ chain_assoc (test_texts _ (criteria c or and) s) _ _

    -- Where memory suffices, and the plugin writes behind the text that it is given: the values of
    -- a laid-out selection, whose paths are all added and whose criteria are all written without an
    -- error, are read by one statement. It selects the fields of the paths, distinct if that is
    -- asked for, from the top table and the tables joined for the paths and then for the criteria,
    -- where the condition of the criteria holds, with the clauses of the paths and the limits.
    pub classic_get_values_lem :
        (selection : PathSelection IdmefPath)
        (conditions : Criteria (Criterion IdmefPath (operators.Operator) Time)) (distinct : Bool)
        (limit offset : ℤ) (sql sql' : Sql (plugin.Session)) (select : Select)
        (join join' : Join IdmefPath) (condition : Option Bytes) (statement : Bytes)
        → IsLaidOut selection
        → add_all lib writers selection.selecteds join_new select_new ≡ ok (select, join)
        → condition_text conditions (join, sql) ≡ (ok condition, (join', sql'))
        → limit_offset limit offset
            (statement_text ids (distinct_text distinct) select join' condition)
          ≡ ok statement
        → classic_get_values ids lib paths class_name plugin operators writer writers limit_offset
            selection conditions distinct limit offset sql
          ≡ some (sql_query plugin statement sql')
    unfolding classic_get_values
    classic_get_values_lem selection conditions distinct limit offset sql sql' select join join'
          condition statement laid_out added written limited =
        let start =
          values_from ids lib paths class_name plugin operators writer writers limit_offset
            conditions distinct limit offset sql in
        let build = λ (j : Join IdmefPath) (w : Option Bytes).
          values_query ids lib paths class_name plugin operators writer writers limit_offset
            distinct select j w limit offset in
        ap start
          (add_selection_lem lib writers selection join_new select_new laid_out ∙ ap some added)
        ∙ ap (λ r. some (run_where_of build r)) (resolve_where_lem conditions (join, sql) ∙ written)
        ∙ ap (λ q. some (run_query_of q sql'))
            (values_query_lem distinct select join' condition limit offset ∙ limited)
