-- ===== src/SqlSelect/Tests.antt =====
-- Statements of src/preludedb-sql-select.c, and its theorems there.
use libpreludedb.Base.{
  ℕ, ◌+◌, ◌≡◌, refl, true, false, some, [], ◌++◌, ok, err, text, print_nat, failure, arith,
}
use libpreludedb.Idmef.{StringLib, IsAmple, ℤ, pos}
use libpreludedb.PathSelection.{
  idmef_path, function, no_args, arg, max, Flags, SelectedPath, PathSelection, selected_path_new,
  path_selection_new, path_selection_add, placed, get_next,
}
use libpreludedb.PathSelection.Layout.{
  IsLaidOut, path_selection_new-IsLaidOut, path_selection_add-IsLaidOut,
}
use libpreludedb.SqlSelect.{
  Select, select_new, add_selected, add_selection_from, func_to_string, option_rounds, add_option,
  add_group_by, add_order_by, Writers, add_options, add_selection, object_to_string,
}
use libpreludedb.SqlSelect.Clauses.{append_items}
use libpreludedb.SqlSelect.Numbers.{
  add_selection_numbers, selection_group_items, selection_order_items,
}

-- strings of any length
abbrev unbounded : StringLib
unbounded = record { cat = λ out s. ok (out ++ s) }

unbounded-IsAmple : IsAmple unbounded
unbounded-IsAmple out s = refl

-- A path is written as its number; the state counts the paths.
abbrev numbers : Writers ℕ ℕ
numbers = record {
  path_resolve = λ selected p d out. ok (out ++ print_nat p, d + 1);
  time_extract = λ out field unit. ok (out ++ (text "EXTRACT " ++ field));
  time_interval = λ out field value unit. err failure;
  time_timezone = λ out field zone. err failure;
}

abbrev grouped : Flags
grouped = record { group_by = true; order_asc = false; order_desc = true }

abbrev two_columns : SelectedPath ℕ → ℤ
two_columns _ = pos 2

abbrev latest : SelectedPath ℕ
latest = selected_path_new (some (function max (arg (idmef_path 7) no_args))) grouped

abbrev one_path : PathSelection ℕ
one_path = path_selection_add two_columns path_selection_new latest

one_path-IsLaidOut : IsLaidOut one_path
unfolding placed selected_path_new
one_path-IsLaidOut =
    path_selection_add-IsLaidOut two_columns path_selection_new latest path_selection_new-IsLaidOut
      (omega arith) (omega arith)

abbrev statement : Select
statement = record select_new {
  fields = text "MAX(7)";
  group_by = text "1, 2";
  order_by = text "1 DESC, 2 DESC";
  field_count = 2;
}

statement_run : add_selection unbounded numbers one_path 0 select_new ≡ some (ok (statement, 1))
unfolding add_selection add_selection_from get_next path_selection_add placed selected_path_new
    add_selected object_to_string func_to_string add_options option_rounds add_option add_group_by
    add_order_by text print_nat
statement_run = refl

add_selection_numbers_example :
    (statement.field_count ≡ one_path.numpos)
    × (statement.group_by ≡ append_items [] (selection_group_items one_path.selecteds))
    × (statement.order_by ≡ append_items [] (selection_order_items one_path.selecteds))
unfolding path_selection_add placed selected_path_new
add_selection_numbers_example =
    add_selection_numbers unbounded unbounded-IsAmple numbers one_path 0 1 statement
      one_path-IsLaidOut (omega arith, tt) (omega arith) statement_run
