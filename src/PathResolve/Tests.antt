-- ===== src/PathResolve/Tests.antt =====
-- The columns of two paths in plugins/format/classic/classic-path-resolve.c, and the theorem there.
use libpreludedb.Base.{
  AreDistinct, ℕ, ◌≡◌, refl, true, some, none, ◌∷◌, [], ◌++◌, Bytes, ok, text, print_nat, length,
  ◌+◌, arith,
}
use libpreludedb.PathSelection.{idmef_path, SelectedPath, is_function}
use libpreludedb.SqlSelect.{
  Select, select_new, object_to_string, add_options, add_option, add_group_by, add_order_by,
  add_selected,
}
use libpreludedb.SqlSelect.Clauses.{append_item}
use libpreludedb.PathResolve.Select.{add_selected_columns}
use libpreludedb.Samples.{
  classic, time_joined, unbounded, unbounded-IsAmple, tree, class_name, ungrouped,
}
use libpreludedb.Joins.{Join, lookup_table, new_table, resolve_indexes}
use libpreludedb.Joins.Samples.{ids}
use libpreludedb.PathResolve.{
  path_resolve, object_column_count, classic_path_resolve, field_context,
}
use libpreludedb.PathResolve.Resolvers.{
  select_context, column, child_name, default_field, default_table_name, message_table_name,
  message_field, time_with_usec_field,
}
use libpreludedb.PathResolve.Columns.{comma_separated, columns, IsIdmefPath, is_inode_time}
use libpreludedb.PathResolve.Selected.{class_ids}
use libpreludedb.PathResolve.Resolve.{path_resolve_columns}
use libpreludedb.PathResolve.Inode.{inode_time_columns}

table_run : default_table_name ids unbounded tree class_name 1 ≡ ok (text "Prelude_SnmpService")
unfolding default_table_name text
table_run = refl

ids_distinct : AreDistinct (class_ids ids)
ids_distinct = (
  (refl, (refl, (refl, (refl, (refl, (refl, (refl, (refl, tt)))))))),
  (
    (refl, (refl, (refl, (refl, (refl, (refl, (refl, tt))))))),
    (
      (refl, (refl, (refl, (refl, (refl, (refl, tt)))))),
      (
        (refl, (refl, (refl, (refl, (refl, tt))))),
        (
          (refl, (refl, (refl, (refl, tt)))),
          ((refl, (refl, (refl, tt))), ((refl, (refl, tt)), ((refl, tt), (tt, tt)))),
        ),
      ),
    ),
  ),
)

create_time-IsIdmefPath : IsIdmefPath ids unbounded unbounded-IsAmple tree class_name 0
unfolding text
create_time-IsIdmefPath = record {
  messages = refl;
  times = refl;
  exclusive = refl;
  data_values = refl;
}

abbrev none_joined : Join ℕ
none_joined = record { top_class = 0; tables = []; next_id = 0 }

time_run :
    path_resolve ids unbounded tree class_name 0 select_context none_joined (text "SELECT ")
    ≡ (ok (text "SELECT t0.time, t0.gmtoff, t0.usec"), time_joined)
unfolding path_resolve lookup_table new_table message_table_name message_field time_with_usec_field
    text print_nat
time_run = refl

path_resolve_columns_example :
    (table : Bytes) × (text "SELECT t0.time, t0.gmtoff, t0.usec"
      ≡ text "SELECT "
        ++ comma_separated (columns ids unbounded unbounded-IsAmple tree class_name 0 table))
    × (length (columns ids unbounded unbounded-IsAmple tree class_name 0 table)
        ≡ object_column_count ids unbounded tree class_name ungrouped (idmef_path 0))
path_resolve_columns_example =
    path_resolve_columns ids unbounded unbounded-IsAmple tree class_name ids_distinct 0
      create_time-IsIdmefPath refl none_joined time_joined (text "SELECT ")
      (text "SELECT t0.time, t0.gmtoff, t0.usec") ungrouped refl time_run

abbrev create_time : SelectedPath ℕ
create_time = record {
  flags = ungrouped;
  idx = 0;
  position = 0;
  column_count = 3;
  object = some (idmef_path 0);
}

abbrev time_selected : Select
time_selected = record select_new { fields = text "t0.time, t0.gmtoff, t0.usec"; field_count = 3 }

select_run :
    add_selected unbounded classic create_time none_joined select_new
    ≡ ok (time_selected, time_joined)
unfolding add_selected object_to_string add_options add_option add_group_by add_order_by
    classic_path_resolve field_context is_function path_resolve lookup_table new_table
    message_table_name message_field time_with_usec_field text print_nat
select_run = refl

create_time_columns : 3 ≡ object_column_count ids unbounded tree class_name ungrouped (idmef_path 0)
unfolding object_column_count
create_time_columns = refl

add_selected_columns_example :
    (table : Bytes) × (text "t0.time, t0.gmtoff, t0.usec"
      ≡ append_item []
          (comma_separated (columns ids unbounded unbounded-IsAmple tree class_name 0 table)))
    × (3 ≡ 0 + length (columns ids unbounded unbounded-IsAmple tree class_name 0 table))
add_selected_columns_example =
    add_selected_columns ids unbounded unbounded-IsAmple tree class_name ids_distinct classic
      (λ x p join out. refl) create_time 0 none_joined time_joined select_new time_selected
      create_time-IsIdmefPath refl refl refl create_time_columns (omega arith) select_run

-- alert.target.file.inode.change_time
change_time-IsIdmefPath : IsIdmefPath ids unbounded unbounded-IsAmple tree class_name 2
unfolding text
change_time-IsIdmefPath = record {
  messages = refl;
  times = refl;
  exclusive = refl;
  data_values = refl;
}

change_time_named : is_inode_time ids unbounded unbounded-IsAmple tree class_name 2 ≡ true
unfolding text
change_time_named = refl

abbrev inode_joined : Join ℕ
inode_joined = record {
  top_class = 1;
  tables =
      record {
        path = 2;
        table_name = text "Prelude_Inode";
        aliased_table_name = text "t0";
        parent_type = none;
        index_constraints = [];
      }
      ∷ [];
  next_id = 1;
}

inode_run :
    path_resolve ids unbounded tree class_name 2 select_context none_joined (text "SELECT ")
    ≡ (ok (text "SELECT t0.change_time"), inode_joined)
unfolding path_resolve lookup_table new_table default_table_name default_field resolve_indexes text
    print_nat
inode_run = refl

inode_time_columns_example :
    ((table : Bytes) × (text "SELECT t0.change_time"
        ≡ text "SELECT " ++ column table (child_name ids unbounded tree class_name 2)))
    × (object_column_count ids unbounded tree class_name ungrouped (idmef_path 2) ≡ 2)
inode_time_columns_example =
    inode_time_columns ids unbounded unbounded-IsAmple tree class_name
      ((refl, (refl, (refl, (refl, (refl, (refl, (refl, (refl, (refl, tt))))))))), ids_distinct) 2
      change_time-IsIdmefPath change_time_named none_joined inode_joined (text "SELECT ")
      (text "SELECT t0.change_time") ungrouped refl inode_run
