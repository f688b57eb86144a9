-- ===== src/ClassicQueries/Tests.antt =====
-- The statements of plugins/format/classic/classic.c on the sample paths, and the theorems there.
use libpreludedb.Base.{
  ℕ, ◌≡◌, refl, true, some, none, [], ◌∷◌, Bytes, Result, ok, err, failure, text, ◌=ₛ◌,
  if◌then◌else◌, false, print_nat, arith,
}
use libpreludedb.Idmef.{ℤ, negsuc}
use libpreludedb.Sql.{sql_query}
use libpreludedb.Sql.Journal.{journal, fresh}
use libpreludedb.PathSelection.{
  idmef_path, SelectedPath, PathSelection, is_function, selected_path_new,
}
use libpreludedb.PathSelection.Layout.{IsLaidOut}
use libpreludedb.SqlSelect.{
  Select, select_new, object_to_string, add_options, add_option, add_group_by, add_order_by,
  add_selected, add_field,
}
use libpreludedb.SqlSelect.Numbers.{add_all}
use libpreludedb.Joins.{lookup_table, new_table}
use libpreludedb.Joins.Samples.{ids}
use libpreludedb.Joins.Statement.{left_joins, left_join, condition}
use libpreludedb.Samples.{
  unbounded, unbounded-IsAmple, numbered, writer, writer-Appends, tree, class_name, ungrouped,
  classic, time_joined,
}
use libpreludedb.PathResolve.{path_resolve, classic_path_resolve, field_context}
use libpreludedb.PathResolve.Resolvers.{
  message_table_name, message_field, time_with_usec_field, default_field,
}
use libpreludedb.ClassicCriteria.{absent}
use libpreludedb.ClassicQueries.{
  join_new, create_time_desc, classic_get_values, get_message_idents, ident_fields, set_order,
}
use libpreludedb.ClassicQueries.Statement.{classic_get_values_lem}
use libpreludedb.ClassicQueries.Idents.{get_message_idents_lem}
use libpreludedb.ClassicQueries.TopTable.{values_top_table}

abbrev create_time : SelectedPath ℕ
create_time = record {
  flags = ungrouped;
  idx = 0;
  position = 0;
  column_count = 3;
  object = some (idmef_path 0);
}

abbrev times : PathSelection ℕ
times = record { selecteds = create_time ∷ []; count = 1; numpos = 3 }

times-IsLaidOut : IsLaidOut times
times-IsLaidOut = omega arith

abbrev time_selected : Select
time_selected = record select_new { fields = text "t0.time, t0.gmtoff, t0.usec"; field_count = 3 }

times_run :
    add_all unbounded classic times.selecteds join_new select_new ≡ ok (time_selected, time_joined)
unfolding add_all add_selected object_to_string add_options add_option add_group_by add_order_by
    classic_path_resolve field_context is_function path_resolve lookup_table new_table
    message_table_name message_field time_with_usec_field text print_nat
times_run = refl

-- The limit of SQLite, where none is asked for.
abbrev no_limit : ℤ → ℤ → Bytes → Result Bytes
no_limit limit offset out = ok out

abbrev times_statement : Bytes
times_statement =
    text
      "SELECT DISTINCT t0.time, t0.gmtoff, t0.usec FROM Prelude_Alert AS top_table LEFT JOIN Prelude_CreateTime AS t0 ON (t0._parent_type='A' AND t0._message_ident=top_table._ident)"

classic_get_values_lem_example :
    classic_get_values ids unbounded tree class_name journal numbered writer classic no_limit times
      absent true
      (negsuc 0)
      (negsuc 0)
      fresh
    ≡ some (sql_query journal times_statement fresh)
unfolding text left_joins left_join condition
classic_get_values_lem_example =
    classic_get_values_lem ids unbounded unbounded-IsAmple tree class_name journal numbered writer
      classic no_limit writer-Appends times absent true (negsuc 0) (negsuc 0) fresh fresh
      time_selected time_joined time_joined none times_statement times-IsLaidOut times_run refl refl

abbrev path_named : Bytes → Result ℕ
path_named name = if name =ₛ text "alert.create_time" then ok 0 else err failure

abbrev ident_selected : Select
ident_selected = record select_new {
  fields = text "DISTINCT(top_table._ident), t0.time, t0.gmtoff, t0.usec";
  order_by = text "2 DESC";
  field_count = 2;
}

ident_run :
    ident_fields ids unbounded tree class_name journal numbered writer classic no_limit path_named 1
      create_time_desc
    ≡ ok (ident_selected, time_joined)
unfolding set_order selected_path_new add_field add_selected object_to_string add_options add_option
    add_group_by add_order_by classic_path_resolve field_context is_function path_resolve
    lookup_table new_table message_table_name message_field time_with_usec_field text print_nat
ident_run = refl

abbrev ident_statement : Bytes
ident_statement =
    text
      "SELECT DISTINCT(top_table._ident), t0.time, t0.gmtoff, t0.usec FROM Prelude_Alert AS top_table LEFT JOIN Prelude_CreateTime AS t0 ON (t0._parent_type='A' AND t0._message_ident=top_table._ident) ORDER BY 2 DESC"

get_message_idents_lem_example :
    (get_message_idents ids unbounded tree class_name journal numbered writer classic no_limit
        path_named 1 absent
        (negsuc 0)
        (negsuc 0)
        create_time_desc
        fresh
      ≡ sql_query journal ident_statement fresh)
    × (ident_selected.group_by ≡ [])
    × (ident_selected.order_by ≡ text "2 DESC")
    × ((path : ℕ) × (path_named (text "alert.create_time") ≡ ok path)
        × ((selected : SelectedPath ℕ) × (selected.object ≡ some (idmef_path path))
            × (selected.flags.group_by ≡ false)
            × (classic_path_resolve ids unbounded tree class_name selected path
                  (record join_new { top_class = 1 })
                  (text "DISTINCT(top_table._ident), ")
                ≡ ok (ident_selected.fields, time_joined))))
unfolding text left_joins left_join condition
get_message_idents_lem_example =
    get_message_idents_lem ids unbounded unbounded-IsAmple tree class_name journal numbered writer
      classic no_limit writer-Appends path_named 1 absent (negsuc 0) (negsuc 0) create_time_desc
      fresh fresh ident_selected time_joined time_joined none ident_statement ident_run refl refl

-- alert.messageid
abbrev messageid : SelectedPath ℕ
messageid = record {
  flags = ungrouped;
  idx = 0;
  position = 0;
  column_count = 1;
  object = some (idmef_path 3);
}

abbrev messageid_selected : Select
messageid_selected = record select_new { fields = text "top_table.messageid"; field_count = 1 }

messageid_run :
    add_all unbounded classic (messageid ∷ []) join_new select_new
    ≡ ok (messageid_selected, join_new)
unfolding add_all add_selected object_to_string add_options add_option add_group_by add_order_by
    classic_path_resolve field_context is_function path_resolve default_field text
messageid_run = refl

abbrev messageids : PathSelection ℕ
messageids = record { selecteds = messageid ∷ []; count = 1; numpos = 1 }

messageids-IsLaidOut : IsLaidOut messageids
messageids-IsLaidOut = omega arith

abbrev messageids_statement : Bytes
messageids_statement = text "SELECT top_table.messageid FROM Prelude_Heartbeat AS top_table"

values_top_table_example :
    classic_get_values ids unbounded tree class_name journal numbered writer classic no_limit
      messageids absent false
      (negsuc 0)
      (negsuc 0)
      fresh
    ≡ some (sql_query journal messageids_statement fresh)
unfolding text
values_top_table_example =
    values_top_table ids unbounded tree class_name classic (λ x p join out. refl) unbounded-IsAmple
      journal numbered writer writer-Appends no_limit messageids false (negsuc 0) (negsuc 0) fresh
      messageid_selected join_new messageids_statement (omega arith) messageids-IsLaidOut
      ((3, refl, refl), tt) messageid_run refl
