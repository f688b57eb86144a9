-- ===== src/SqlSelect.antt =====
-- src/preludedb-sql-select.c: the columns of a SELECT statement and its GROUP BY and ORDER BY
-- clauses, built from the selected paths of src/preludedb-path-selection.c.
pub mod Clauses
pub mod Numbers
mod Tests
use libpreludedb.Base.{
  is_empty, ℕ, zero, suc, ◌+◌, ◌-◌, ltb, ◌%◌, ◌^◌, Bool, true, false, Option, none, some, List, [],
  ◌∷◌, ◌++◌, Bytes, Result, ok, err, Error, fault, generic, text, length, print_nat, ◌==◌, ◌||◌,
  ◌&&◌, if◌then◌else◌, ◌>>=◌,
}
use libpreludedb.Idmef.{ℤ, pos, negsuc, StringLib, cat_unchecked, print_int, print_signed}
use libpreludedb.PathSelection.{
  Object, Args, int, string, idmef_path, function, no_args, arg, Function, min, max, avg, interval,
  extract, timezone, Flags, SelectedPath, PathSelection, get_next,
}
use libpreludedb.Idmef.{uint32_mod}

-- `struct preludedb_sql_select`; of its flags, whether functions are given an alias.
pub record Select : Type 0 where
  pub fields : Bytes
  pub order_by : Bytes
  pub group_by : Bytes
  pub field_count : ℕ
  pub index : ℕ
  pub alias_function : Bool

-- `preludedb_sql_select_new`
abbrev pub select_new : Select
select_new = record {
  fields = [];
  order_by = [];
  group_by = [];
  field_count = 0;
  index = 0;
  alias_function = false;
}

-- What the SQL plugin writes for the time functions, and the format plugin for a path. `State` is
-- what the format plugin keeps while a statement is built: its joined tables.
pub record Writers (IdmefPath State : Type 0) : Type 0 where
  pub path_resolve : SelectedPath IdmefPath → IdmefPath → State → Bytes → Result (Bytes × State)
  pub time_extract : Bytes → Bytes → ℤ → Result Bytes
  pub time_interval : Bytes → Bytes → Bytes → ℤ → Result Bytes
  pub time_timezone : Bytes → Bytes → Bytes → Result Bytes

-- `func_to_string`
unfoldable pub func_to_string : Function → Option Bytes
func_to_string avg = some (text "AVG")
func_to_string Function.count = some (text "COUNT")
func_to_string max = some (text "MAX")
func_to_string min = some (text "MIN")
func_to_string interval = some (text "INTERVAL")
func_to_string _ = none

module _ (lib : StringLib) {IdmefPath State : Type 0} (writers : Writers IdmefPath State) where
  open lib use {cat}
  open writers use {path_resolve, time_extract, time_interval, time_timezone}

  abbrev with_state : State → Result Bytes → Result (Bytes × State)
  with_state d (err e) = err e
  with_state d (ok out) = ok (out, d)

  -- the last branch of the function below: a function of one argument
  abbrev close_call : Bytes × State → Result (Bytes × State)
  close_call (out, d) = ok (cat_unchecked lib out (text ")"), d)

  abbrev open_call : Bytes → Function → Result Bytes
  open_call out f = elim (func_to_string f) [
    | none ↦ err generic
    | some name ↦ ok (cat_unchecked lib out (name ++ text "("))
  ]

  -- `preludedb_selected_object_to_string` below its end: the text of the object, behind `out`.
  -- An argument that is not there, or is not the integer or the string that is read, is a fault.
  unfoldable pub object_to_string :
      SelectedPath IdmefPath → Object IdmefPath → State → Bytes → Result (Bytes × State)
  object_to_string selected (string s) d out = with_state d (cat out s)
  object_to_string selected (int n) d out = with_state d (cat out (print_int n))
  object_to_string selected (idmef_path p) d out = path_resolve selected p d out
  object_to_string selected (function extract (arg a (arg (int unit) more))) d out = do
    (field, d') ← object_to_string selected a d []
    with_state d' (time_extract out field unit)
  object_to_string selected (function interval (arg a (arg v (arg (int unit) more)))) d out = do
    (field, d') ← object_to_string selected a d []
    (value, d'') ← object_to_string selected v d' []
    with_state d'' (time_interval out field value unit)
  object_to_string selected (function timezone (arg a (arg (string zone) more))) d out = do
    (field, d') ← object_to_string selected a d []
    with_state d' (time_timezone out field zone)
  object_to_string selected (function extract args) d out = err fault
  object_to_string selected (function interval args) d out = err fault
  object_to_string selected (function timezone args) d out = err fault
  object_to_string selected (function f no_args) d out = err fault
  object_to_string selected (function f (arg a args)) d out = do
    out' ← open_call out f
    r ← object_to_string selected a d out'
    close_call r

  -- the end of `preludedb_selected_object_to_string` at depth 0: a function may get an alias
  abbrev add_alias : Object IdmefPath → Select → Select
  add_alias (function f args) s =
      if s.alias_function
      then record s {
        fields = cat_unchecked lib s.fields (text " AS FUNC" ++ print_nat s.index);
        index = (s.index + 1) % uint32_mod;
      }
      else s
  add_alias other s = s

module _ (lib : StringLib) where
  open lib use {cat}

  -- a comma, unless the clause is empty
  abbrev pub separate : Bytes → Result Bytes
  separate clause = if is_empty clause then ok clause else cat clause (text ", ")

  abbrev set_group_by : Select → Result Select
  set_group_by s = do
    clause ← separate s.group_by
    clause' ← cat clause (print_signed (s.field_count + 1))
    ok (record s { group_by = clause' })

  abbrev set_order_by : Flags → Select → Result Select
  set_order_by flags s = do
    clause ← separate s.order_by
    clause' ← cat clause (
        print_signed (s.field_count + 1)
        ++ (text " " ++ (if flags.order_asc then text "ASC" else text "DESC")))
    ok (record s { order_by = clause' })

  unfoldable pub add_group_by : Flags → Select → Result Select
  add_group_by flags s = if flags.group_by then set_group_by s else ok s

  unfoldable pub add_order_by : Flags → Select → Result Select
  add_order_by flags s = if flags.order_asc || flags.order_desc then set_order_by flags s else ok s

  -- one round of the loop of `sql_select_add_options`
  unfoldable pub add_option : Flags → Select → Result Select
  add_option flags s = do
    s₁ ← add_group_by flags s
    s₂ ← add_order_by flags s₁
    ok (record s₂ { field_count = (s₂.field_count + 1) % uint32_mod })

  unfoldable pub option_rounds : ℕ → Flags → Select → Result Select
  option_rounds zero flags s = ok s
  option_rounds (suc n) flags s = do s' ← add_option flags s; option_rounds n flags s'

  -- `sql_select_add_options`: `do … while ( --num_field )` on an unsigned number, so that 0 stands
  -- for 2 ^ 32 rounds.
  unfoldable pub add_options : ℕ → Flags → Select → Result Select
  unfolding option_rounds
  add_options num_field flags =
      option_rounds (if num_field == 0 then uint32_mod else num_field) flags

  -- `preludedb_sql_select_add_field`
  unfoldable pub add_field : Bytes → Select → Result Select
  add_field selection s = do
    fields ← separate s.fields
    fields' ← cat fields selection
    ok (record s { fields = fields'; field_count = (s.field_count + 1) % uint32_mod })

  -- `preludedb_sql_select_fields_to_string`
  unfoldable pub fields_to_string : Select → Bytes → Result Bytes
  fields_to_string s output = cat output s.fields

  abbrev add_clause : Bytes → Bytes → Bytes → Result Bytes
  add_clause name clause output = if is_empty clause then ok output else cat output (name ++ clause)

  -- `preludedb_sql_select_modifiers_to_string`
  unfoldable pub modifiers_to_string : Select → Bytes → Result Bytes
  modifiers_to_string s output = do
    output' ← add_clause (text " GROUP BY ") s.group_by output
    add_clause (text " ORDER BY ") s.order_by output'

  module _ {IdmefPath State : Type 0} (writers : Writers IdmefPath State) where
    abbrev pub select_object :
        SelectedPath IdmefPath
        → Option (Object IdmefPath)
        → State
        → Select
        → Result (Select × State)
    select_object selected none d s = err fault
    select_object selected (some o) d s = do
      fields ← separate s.fields
      (fields', d') ← object_to_string lib writers selected o d fields
      s' ←
          add_options selected.column_count selected.flags
            (add_alias lib writers o (record s { fields = fields' }))
      ok (s', d')

    -- `preludedb_sql_select_add_selected`
    unfoldable pub add_selected : SelectedPath IdmefPath → State → Select → Result (Select × State)
    add_selected selected d s = select_object selected selected.object d s

    -- The loop of `preludedb_sql_select_add_selection`, from behind a path. `none`: the fuel ran
    -- out.
    unfoldable pub add_selection_from :
        ℕ
        → PathSelection IdmefPath
        → Option (SelectedPath IdmefPath)
        → State
        → Select
        → Option (Result (Select × State))
    add_selection_from zero selection selected d s = none
    add_selection_from (suc fuel) selection selected d s = elim (get_next selection selected) [
      | none ↦ some (ok (s, d))
      | some next ↦ elim (add_selected next d s) [
        | err e ↦ some (err e)
        | ok (s', d') ↦ add_selection_from fuel selection (some next) d' s'
      ]
    ]

    -- `preludedb_sql_select_add_selection`: a round for each path and one more
    unfoldable pub add_selection :
        PathSelection IdmefPath → State → Select → Option (Result (Select × State))
    unfolding add_selection_from
    add_selection selection d s =
        add_selection_from (suc (length selection.selecteds)) selection none d s
