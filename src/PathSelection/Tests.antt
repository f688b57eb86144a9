-- ===== src/PathSelection/Tests.antt =====
-- Selections of src/preludedb-path-selection.c, and its theorems there.
use libpreludedb.Base.{ℕ, ◌≡◌, refl, false, none, some, err, index, arith}
use libpreludedb.Idmef.{ℤ, pos, negsuc, time_value}
use libpreludedb.PathSelection.{
  int, idmef_path, function, no_args, arg, max, interval, Flags, SelectedPath, PathSelection,
  push_arg, push_args, get_arg, get_arg_in, get_value_type, idmef_path_type, selected_path_new,
  path_selection_new, placed, path_selection_add, get_selected,
}
use libpreludedb.PathSelection.Layout.{
  IsLaidOut, path_selection_new-IsLaidOut, path_selection_add-IsLaidOut,
}
use libpreludedb.PathSelection.Walk.{walk, walk_lem}

abbrev plain : Flags
plain = record { group_by = false; order_asc = false; order_desc = false }

abbrev path_of : ℕ → SelectedPath ℕ
path_of n = selected_path_new (some (idmef_path n)) plain

-- the format plugin that answers two columns
abbrev two_columns : SelectedPath ℕ → ℤ
two_columns _ = pos 2

abbrev failing : SelectedPath ℕ → ℤ
failing _ = negsuc 0

abbrev one_path : PathSelection ℕ
one_path = path_selection_add two_columns path_selection_new (path_of 7)

numpos_run : one_path.numpos ≡ 2
unfolding path_selection_add selected_path_new
numpos_run = refl

push_arg_run :
    get_arg {IdmefPath = ℕ}
      (push_arg (push_arg (function interval no_args) (idmef_path 7)) (int (pos 2)))
      1
    ≡ some (int (pos 2))
unfolding get_arg_in get_arg push_arg push_args
push_arg_run = refl

value_type_run :
    get_value_type {IdmefPath = ℕ} (λ p. time_value) (function max (arg (idmef_path 7) no_args))
    ≡ some (time_value, idmef_path_type)
unfolding get_value_type
value_type_run = refl

get_selected_run : get_selected one_path 1 ≡ err index
unfolding get_selected path_selection_add
get_selected_run = refl

path_selection_add-IsLaidOut_example : IsLaidOut one_path
unfolding placed selected_path_new
path_selection_add-IsLaidOut_example =
    path_selection_add-IsLaidOut two_columns path_selection_new (path_of 7)
      path_selection_new-IsLaidOut (omega arith) (omega arith)

walk_lem_example : walk 2 one_path none ≡ some one_path.selecteds
unfolding path_selection_add
walk_lem_example = walk_lem 2 one_path path_selection_add-IsLaidOut_example (omega arith)
