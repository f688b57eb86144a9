-- ===== src/Joins/Statement.antt =====
-- The text of a join, in plugins/format/classic/classic-sql-join.c, where memory suffices.
use libpreludedb.Base.{
  ℕ, ◌≡◌, ap, ◌∙◌, sym, not, Option, none, some, List, [], ◌∷◌, ◌++◌, Bytes, ok, is_empty, text,
  ◌==◌, if◌then◌else◌, append_assoc, append-nil,
}
use libpreludedb.Idmef.{StringLib, IsAmple}
use libpreludedb.Joins.{
  ClassIds, PathLib, JoinedTable, Join, cat_if, cat_parent_type, joined_table_to_string,
  tables_to_string, join_to_string,
}

abbrev parent_condition : Option ℕ → Bytes → Bytes
parent_condition none aliased = []
parent_condition (some c) aliased = aliased ++ (text "._parent_type='" ++ (c ∷ text "' AND "))

abbrev index_condition : Bytes → Bytes
index_condition constraints = if is_empty constraints then [] else text " AND " ++ constraints

-- The condition of a joined table: its parent type if it has one, its message, and its indices if
-- they are constrained.
unfoldable pub condition : {IdmefPath : Type 0} → JoinedTable IdmefPath → Bytes
condition table =
    parent_condition table.parent_type table.aliased_table_name
    ++ ((table.aliased_table_name ++ text "._message_ident=top_table._ident")
        ++ index_condition table.index_constraints)

unfoldable pub left_join : {IdmefPath : Type 0} → JoinedTable IdmefPath → Bytes
left_join table =
    (text " LEFT JOIN "
      ++ (table.table_name ++ (text " AS " ++ (table.aliased_table_name ++ text " ON ("))))
    ++ (condition table ++ text ")")

unfoldable pub left_joins : {IdmefPath : Type 0} → List (JoinedTable IdmefPath) → Bytes
left_joins [] = []
left_joins (table ∷ tables) = left_join table ++ left_joins tables

module _ (ids : ClassIds) (lib : StringLib) (ample : IsAmple lib) {IdmefPath : Type 0}
    (paths : PathLib IdmefPath) where
  cat_parent_type_lem :
      (parent : Option ℕ) (aliased output : Bytes)
      → cat_parent_type ids lib paths parent aliased output
        ≡ ok (output ++ parent_condition parent aliased)
  cat_parent_type_lem none aliased output = ap ok (sym (append-nil output))
  cat_parent_type_lem (some c) aliased output = ample output _

  cat_indices_lem :
      (constraints output : Bytes)
      → cat_if ids lib paths (not (is_empty constraints)) output (text " AND " ++ constraints)
        ≡ ok (output ++ index_condition constraints)
  cat_indices_lem [] output = ap ok (sym (append-nil output))
  cat_indices_lem (c ∷ constraints) output = ample output _

  joined_table_to_string_lem :
      (table : JoinedTable IdmefPath) (output : Bytes)
      → joined_table_to_string ids lib paths table output ≡ ok (output ++ left_join table)
  unfolding joined_table_to_string left_join condition
  joined_table_to_string_lem table output =
      let join =
        text " LEFT JOIN "
        ++ (table.table_name ++ (text " AS " ++ (table.aliased_table_name ++ text " ON ("))) in
      let parent = parent_condition table.parent_type table.aliased_table_name in
      let message = table.aliased_table_name ++ text "._message_ident=top_table._ident" in
      let indices = index_condition table.index_constraints in
      rw (ample output join) (
        rw (cat_parent_type_lem table.parent_type table.aliased_table_name (output ++ join)) (
          rw (ample ((output ++ join) ++ parent) message) (
            rw (cat_indices_lem table.index_constraints (((output ++ join) ++ parent) ++ message)) (
              ample ((((output ++ join) ++ parent) ++ message) ++ indices) (text ")")
              ∙ simp append_assoc))))

  tables_to_string_lem :
      (tables : List (JoinedTable IdmefPath)) (output : Bytes)
      → tables_to_string ids lib paths tables output ≡ ok (output ++ left_joins tables)
  unfolding tables_to_string left_joins
  tables_to_string_lem [] output = ap ok (sym (append-nil output))
  tables_to_string_lem (table ∷ tables) output = rw (joined_table_to_string_lem table output) (
      tables_to_string_lem tables (output ++ left_join table)
      ∙ ap ok (append_assoc output (left_join table) (left_joins tables)))

  -- Where memory suffices, the text of a join is the table of its top class, and a LEFT JOIN for
  -- each table, in the order in which they were created.
  pub join_to_string_lem :
      (join : Join IdmefPath) (output : Bytes)
      → join_to_string ids lib paths join output
        ≡ ok (
            output
            ++ (((if join.top_class == ids.alert
                    then text "Prelude_Alert"
                    else text "Prelude_Heartbeat")
                  ++ text " AS top_table")
                ++ left_joins join.tables))
  unfolding join_to_string
  join_to_string_lem join output =
      let top =
        (if join.top_class == ids.alert then text "Prelude_Alert" else text "Prelude_Heartbeat")
        ++ text " AS top_table" in
      rw (ample output top) (
        tables_to_string_lem join.tables (output ++ top)
        ∙ ap ok (append_assoc output top (left_joins join.tables)))
