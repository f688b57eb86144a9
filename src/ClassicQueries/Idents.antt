-- ===== src/ClassicQueries/Idents.antt =====
-- The statement of plugins/format/classic/classic.c for the idents of messages, from the order and
-- the criteria to the text that is run.
use libpreludedb.Base.{
  ℕ, false, ◌≡◌, refl, ap, ◌∙◌, sym, Option, none, some, [], ◌++◌, Bytes, Result, ok, err, text,
  if◌then◌else◌, ◌>>=◌, >>=-eq-ok, append_assoc, append-nil, ◌==◌, arith, print_nat,
}
use libpreludedb.Idmef.{ℤ, StringLib, IsAmple}
use libpreludedb.Sql.{Plugin, Sql, sql_query}
use libpreludedb.Criteria.{Operators, Writer}
use libpreludedb.Criteria.Append.{Appends}
use libpreludedb.PathSelection.{Flags, idmef_path, SelectedPath, selected_path_new}
use libpreludedb.SqlSelect.{
  Select, Writers, select_new, separate, object_to_string, add_options, add_field, add_selected,
  fields_to_string,
}
use libpreludedb.SqlSelect.Clauses.{
  modifiers_to_string_lem, group_items, order_items, append_items, with_options, add_options_lem,
}
use libpreludedb.SqlSelect.Numbers.{add_selected-Extends}
use libpreludedb.Joins.{ClassIds, PathLib, Join}
use libpreludedb.Joins.Statement.{join_to_string_lem}
use libpreludedb.PathResolve.Resolve.{ok_same}
use libpreludedb.ClassicCriteria.{Criteria, Criterion}
use libpreludedb.ClassicQueries.Statement.{
  from_text, where_text, statement_text, run_where_of, run_query_of, condition_text,
  resolve_where_lem,
}
use libpreludedb.ClassicQueries.{
  join_new, Order, cat_where_twice, idents_query, no_order, create_time_desc, create_time_asc,
  set_order, order_flags, ordered, idents_of, ident_fields, get_message_idents,
}

module _ (ids : ClassIds) (lib : StringLib) (ample : IsAmple lib) {IdmefPath : Type 0}
    (paths : PathLib IdmefPath) (class_name : ℕ → Bytes) (plugin : Plugin) (operators : Operators)
    {Time : Type 0} (writer : Writer (plugin.Session) (operators.Operator) Time)
    (writers : Writers IdmefPath (Join IdmefPath))
    (limit_offset : ℤ → ℤ → Bytes → Result Bytes) where
  cat_where_twice_lem :
      (condition : Option Bytes) (q : Bytes)
      → cat_where_twice ids lib paths class_name plugin operators writer writers limit_offset
          condition q
        ≡ ok (q ++ where_text condition)
  cat_where_twice_lem none q = ap ok (sym (append-nil q))
  cat_where_twice_lem (some condition) q =
      rw (ample q (text " WHERE "))
        (ample (q ++ text " WHERE ") condition ∙ ap ok (append_assoc q _ _))

  idents_query_lem :
      (select : Select) (join : Join IdmefPath) (condition : Option Bytes) (limit offset : ℤ)
      → idents_query ids lib paths class_name plugin operators writer writers limit_offset select
          join condition limit offset
        ≡ limit_offset limit offset (statement_text ids [] select join condition)
  unfolding idents_query fields_to_string
  idents_query_lem select join condition limit offset =
      let q₁ = text "SELECT " in
      let q₂ = q₁ ++ select.fields in
      let q₃ = q₂ ++ text " FROM " in
      let q₄ = q₃ ++ from_text ids join in
      let q₅ = q₄ ++ where_text condition in
      rw (ample [] q₁, ample q₁ select.fields, ample q₂ (text " FROM "))
        (rw (join_to_string_lem ids lib ample paths join q₃) (
          rw (cat_where_twice_lem condition q₄) (
            rw (modifiers_to_string_lem lib ample select q₅)
              (ap (limit_offset limit offset) (simp append_assoc)))))

  module _ (appends : Appends writer) where
    module _ (path_new : Bytes → Result IdmefPath) where
      -- the ORDER BY clause of idents: the creation time is the second column
      abbrev pub order_text : Order → Bytes
      order_text no_order = []
      order_text create_time_desc = text "2 DESC"
      order_text create_time_asc = text "2 ASC"

      abbrev ident_field : Select
      ident_field = record select_new {
        fields = text "DISTINCT(top_table._ident)";
        field_count = 1;
      }

      add_ident_field :
          add_field lib (text "DISTINCT(top_table._ident)") select_new ≡ ok ident_field
      unfolding add_field
      add_ident_field = rw (ample [] (text "DISTINCT(top_table._ident)"))

      abbrev pub creation_time : ℕ → Bytes
      creation_time message_type =
          if message_type == ids.alert
          then text "alert.create_time"
          else text "heartbeat.create_time"

      -- Behind the ident stands what the path of the creation time is resolved to, outside a group.
      abbrev pub IdentAndTime : ℕ → Join IdmefPath → Select → Join IdmefPath → Type 0
      IdentAndTime message_type join select join' =
          (path : IdmefPath) × (path_new (creation_time message_type) ≡ ok path)
          × ((selected : SelectedPath IdmefPath) × (selected.object ≡ some (idmef_path path))
              × (selected.flags.group_by ≡ false)
              × (writers.path_resolve selected path join (text "DISTINCT(top_table._ident), ")
                  ≡ ok (select.fields, join')))

      -- the fields and the tables of the statement, as the order asks for them
      abbrev pub IdentFields : ℕ → Order → Select → Join IdmefPath → Type 0
      IdentFields message_type no_order select join =
          (select.fields ≡ text "DISTINCT(top_table._ident)")
          × (join ≡ record join_new { top_class = message_type })
      IdentFields message_type create_time_desc select join =
          IdentAndTime message_type (record join_new { top_class = message_type }) select join
      IdentFields message_type create_time_asc select join =
          IdentAndTime message_type (record join_new { top_class = message_type }) select join

      added_fields :
          (path : IdmefPath) (flags : Flags) (join join' : Join IdmefPath) (select : Select)
          → add_selected lib writers
              (selected_path_new (some (idmef_path path)) flags)
              join
              ident_field
            ≡ ok (select, join')
          → writers.path_resolve
              (selected_path_new (some (idmef_path path)) flags)
              path
              join
              (text "DISTINCT(top_table._ident), ")
            ≡ ok (select.fields, join')
      unfolding add_selected object_to_string selected_path_new text
      added_fields path flags join join' select e =
          let x = selected_path_new (some (idmef_path path)) flags in
          let (sep, at_sep, e₁) = >>=-eq-ok (separate lib ident_field.fields) _ e in
          let ((out, join₁), at_out, e₂) =
            >>=-eq-ok (object_to_string lib writers x (idmef_path path) join sep) _ e₁ in
          let t : Select = record ident_field { fields = out } in
          let (s₂, at_options, e₃) = >>=-eq-ok (add_options lib 1 flags t) _ e₂ in
          let enough = add_options_lem lib ample 1 flags t (omega arith) (omega arith) in
          let final : (with_options 1 flags t, join₁) ≡ (select, join') =
            ap (λ s. (s, join₁)) (ok_same (sym enough ∙ at_options)) ∙ ok_same e₃ in
          let start : text "DISTINCT(top_table._ident), " ≡ sep =
            ok_same (sym (ample (text "DISTINCT(top_table._ident)") (text ", ")) ∙ at_sep) in
          ap (writers.path_resolve x path join) start
          ∙ at_out
          ∙ ap (λ r. ok (r.0.fields, r.1)) final

      set_order_fields :
          (message_type : ℕ) (order : Order) (join join' : Join IdmefPath) (select : Select)
          → set_order ids lib paths class_name plugin operators writer writers limit_offset path_new
              message_type order join ident_field
            ≡ ok (select, join')
          → IdentAndTime message_type join select join'
      unfolding set_order selected_path_new
      set_order_fields message_type order join join' select e =
          let (path, named, added) = >>=-eq-ok (path_new (creation_time message_type)) _ e in
          let flags =
            order_flags ids lib paths class_name plugin operators writer writers limit_offset
              path_new order in
          (
            path,
            named,
            (
              selected_path_new (some (idmef_path path)) flags,
              refl,
              not_grouped order,
              added_fields path flags join join' select added,
            ),
          )
        where
          not_grouped :
              (o : Order)
              → (order_flags ids lib paths class_name plugin operators writer writers limit_offset
                  path_new o).group_by
                ≡ false
          not_grouped no_order = refl
          not_grouped create_time_desc = refl
          not_grouped create_time_asc = refl

      ordered_fields :
          (message_type : ℕ) (order : Order) (join : Join IdmefPath) (select : Select)
          → ordered ids lib paths class_name plugin operators writer writers limit_offset path_new
              message_type order
              (record join_new { top_class = message_type })
              ident_field
            ≡ ok (select, join)
          → IdentFields message_type order select join
      ordered_fields message_type no_order join select e =
          let same = ok_same e in (ap (λ r. r.0.fields) (sym same), ap (λ r. r.1) (sym same))
      ordered_fields message_type create_time_desc join select e =
          set_order_fields message_type create_time_desc _ join select e
      ordered_fields message_type create_time_asc join select e =
          set_order_fields message_type create_time_asc _ join select e

      added_clauses :
          (r : Result IdmefPath) (flags : Flags) (join join' : Join IdmefPath) (select : Select)
          → (r >>= λ path.
              add_selected lib writers
                (selected_path_new (some (idmef_path path)) flags)
                join
                ident_field)
            ≡ ok (select, join')
          → (select.group_by ≡ append_items [] (group_items 1 1 flags))
            × (select.order_by ≡ append_items [] (order_items 1 1 flags))
      unfolding selected_path_new
      added_clauses (err code) flags join join' select e = absurd (cc)
      added_clauses (ok path) flags join join' select e =
          let clauses =
            add_selected-Extends lib ample writers
              (selected_path_new (some (idmef_path path)) flags) join join' ident_field select
              (omega arith) (omega arith) e in
          (clauses.0, clauses.1)

      ordered_clauses :
          (message_type : ℕ) (order : Order) (join join' : Join IdmefPath) (select : Select)
          → ordered ids lib paths class_name plugin operators writer writers limit_offset path_new
              message_type order join ident_field
            ≡ ok (select, join')
          → (select.group_by ≡ []) × (select.order_by ≡ order_text order)
      unfolding set_order group_items order_items append_items text print_nat
      ordered_clauses message_type no_order join join' select e =
          let same : ident_field ≡ select = ap (λ r. r.0) (ok_same e) in
          (ap (λ (r : Select). r.group_by) (sym same), ap (λ (r : Select). r.order_by) (sym same))
      ordered_clauses message_type create_time_desc join join' select e =
          added_clauses _ _ join join' select e
      ordered_clauses message_type create_time_asc join join' select e =
          added_clauses _ _ join join' select e

      -- Where memory suffices, and the plugin writes behind the text that it is given: the idents
      -- of messages, whose order and criteria are written without an error, are read by one
      -- statement, from the top table and the tables joined for the order and the criteria, where
      -- the condition of the criteria holds. If an order is asked for, the fields are what the
      -- resolver of paths writes for the path of the creation time, of alerts or of heartbeats,
      -- behind the ident and a comma, and the statement is sorted by the second column in the
      -- direction of the order; if not, the ident alone is selected, and nothing is sorted. The
      -- statement is not grouped.
      pub get_message_idents_lem :
          (message_type : ℕ) (conditions : Criteria (Criterion IdmefPath (operators.Operator) Time))
          (limit offset : ℤ) (order : Order) (sql sql' : Sql (plugin.Session)) (select : Select)
          (join join' : Join IdmefPath) (condition : Option Bytes) (statement : Bytes)
          → ident_fields ids lib paths class_name plugin operators writer writers limit_offset
              path_new message_type order
            ≡ ok (select, join)
          → condition_text ids lib ample paths class_name plugin operators writer writers
              limit_offset appends conditions
              (join, sql)
            ≡ (ok condition, (join', sql'))
          → limit_offset limit offset (statement_text ids [] select join' condition) ≡ ok statement
          → (get_message_idents ids lib paths class_name plugin operators writer writers
                limit_offset path_new message_type conditions limit offset order sql
              ≡ sql_query plugin statement sql')
            × (select.group_by ≡ [])
            × (select.order_by ≡ order_text order)
            × IdentFields message_type order select join
      unfolding get_message_idents
      get_message_idents_lem message_type conditions limit offset order sql sql' select join join'
            condition statement fields written limited =
          let start =
            idents_of ids lib paths class_name plugin operators writer writers limit_offset path_new
              conditions limit offset sql in
          let build = λ (j : Join IdmefPath) (w : Option Bytes).
            idents_query ids lib paths class_name plugin operators writer writers limit_offset
              select j w limit offset in
          let rest =
            ordered ids lib paths class_name plugin operators writer writers limit_offset path_new
              message_type order (record join_new { top_class = message_type }) in
          let run = ap (λ r. r >>= rest) (sym add_ident_field) ∙ fields in
          let clauses =
            ordered_clauses message_type order (record join_new { top_class = message_type }) join
              select run in
          (
            ap start fields
                ∙ ap
                    (run_where_of ids lib ample paths class_name plugin operators writer writers
                      limit_offset build)
                    (resolve_where_lem ids lib ample paths class_name plugin operators writer
                        writers limit_offset appends conditions (join, sql)
                      ∙ written)
                ∙ ap
                    (λ q.
                      run_query_of ids lib ample paths class_name plugin operators writer writers
                        limit_offset q sql')
                    (idents_query_lem select join' condition limit offset ∙ limited),
            clauses.0,
            clauses.1,
            ordered_fields message_type order join select run,
          )
