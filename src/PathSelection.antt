-- ===== src/PathSelection.antt =====
-- src/preludedb-path-selection.c: what a client selects of the messages. A selected path holds an
-- object (an IDMEF path, a constant, or a function of objects), and a selection lists the selected
-- paths with the columns of the result that they take.
pub mod Layout
pub mod Walk
mod Tests
use libpreludedb.Base.{
  ℕ, zero, suc, ◌+◌, ◌-◌, ◌^◌, ◌%◌, Bool, true, false, Option, none, some, List, [], ◌∷◌, ◌++◌,
  Bytes, Result, ok, err, Error, index, ltb, ◌==◌, if◌then◌else◌, get_elem?,
}
use libpreludedb.Idmef.{
  uint32_mod, ℤ, pos, negsuc, ValueType, string_value, time_value, uint32_value,
}

-- the function types among `preludedb_selected_object_type_t`
pub data Function : Type 0 where
  min max avg count interval extract timezone : Function

pub data ObjectType : Type 0 where
  function_type : Function → ObjectType
  string_type idmef_path_type int_type : ObjectType

-- `struct preludedb_selected_object`, without its reference count; `IdmefPath` stands for libprelude's
-- `idmef_path_t`.
mutual
  pub data Object (IdmefPath : Type 0) : Type 0 where
    int : ℤ → Object IdmefPath
    string : Bytes → Object IdmefPath
    idmef_path : IdmefPath → Object IdmefPath
    function : Function → Args IdmefPath → Object IdmefPath

  pub data Args (IdmefPath : Type 0) : Type 0 where
    no_args : Args IdmefPath
    arg : Object IdmefPath → Args IdmefPath → Args IdmefPath

-- `preludedb_selected_path_flags_t`, a bit each
pub record Flags : Type 0 where
  pub group_by : Bool
  pub order_asc : Bool
  pub order_desc : Bool

-- `struct preludedb_selected_path`
pub record SelectedPath (IdmefPath : Type 0) : Type 0 where
  pub flags : Flags
  pub idx : ℕ
  pub position : ℕ
  pub column_count : ℕ
  pub object : Option (Object IdmefPath)

-- `struct preludedb_path_selection`; the fields are 32-bit unsigned integers.
pub record PathSelection (IdmefPath : Type 0) : Type 0 where
  pub selecteds : List (SelectedPath IdmefPath)
  pub count : ℕ
  pub numpos : ℕ

-- the conversion of an `int` to `unsigned int`
abbrev pub to_uint32 : ℤ → ℕ
to_uint32 (pos n) = n % uint32_mod
to_uint32 (negsuc n) = (uint32_mod - 1) - n % uint32_mod

module _ {IdmefPath : Type 0} where
  pub push_args : Args IdmefPath → Object IdmefPath → Args IdmefPath
  push_args no_args o = arg o no_args
  push_args (arg a args) o = arg a (push_args args o)

  -- `preludedb_selected_object_push_arg`, on an object that is a function
  pub push_arg : Object IdmefPath → Object IdmefPath → Object IdmefPath
  push_arg (function f args) o = function f (push_args args o)
  push_arg other o = other

  unfoldable pub get_arg_in : Args IdmefPath → ℕ → Option (Object IdmefPath)
  get_arg_in no_args i = none
  get_arg_in (arg a args) zero = some a
  get_arg_in (arg a args) (suc i) = get_arg_in args i

  -- `preludedb_selected_object_get_arg`
  pub get_arg : Object IdmefPath → ℕ → Option (Object IdmefPath)
  get_arg (function f args) i = get_arg_in args i
  get_arg _ i = none

  -- `preludedb_selected_object_get_type`
  unfoldable pub get_type : Object IdmefPath → ObjectType
  get_type (int n) = int_type
  get_type (string s) = string_type
  get_type (idmef_path p) = idmef_path_type
  get_type (function f args) = function_type f

  -- `preludedb_selected_object_is_function`
  unfoldable pub is_function : Object IdmefPath → Bool
  is_function (int n) = false
  is_function (string s) = false
  is_function (idmef_path p) = false
  is_function (function f args) = true

  -- `preludedb_selected_object_get_value_type`: the type of the value, with the object whose data
  -- and type the caller is handed. `path_type` is `idmef_path_get_value_type` at the last element.
  -- `none`: the first argument is read and there is none.
  unfoldable pub get_value_type :
      (IdmefPath → ValueType) → Object IdmefPath → Option (ValueType × ObjectType)
  get_value_type path_type (idmef_path p) = some (path_type p, idmef_path_type)
  get_value_type path_type (int n) = some (uint32_value, int_type)
  get_value_type path_type (string s) = some (string_value, string_type)
  get_value_type path_type (function Function.count args) =
      some (uint32_value, function_type Function.count)
  get_value_type path_type (function extract args) = some (uint32_value, function_type extract)
  get_value_type path_type (function interval args) = some (time_value, function_type interval)
  get_value_type path_type (function timezone args) = some (time_value, function_type timezone)
  get_value_type path_type (function avg (arg a args)) = get_value_type path_type a
  get_value_type path_type (function avg no_args) = none
  get_value_type path_type (function max (arg a args)) = get_value_type path_type a
  get_value_type path_type (function max no_args) = none
  get_value_type path_type (function min (arg a args)) = get_value_type path_type a
  get_value_type path_type (function min no_args) = none

  -- `preludedb_selected_path_new`
  unfoldable pub selected_path_new : Option (Object IdmefPath) → Flags → SelectedPath IdmefPath
  selected_path_new object flags = record {
    flags = flags;
    idx = 0;
    position = 0;
    column_count = 1;
    object = object;
  }

  -- `preludedb_selected_path_set_column_count`
  unfoldable pub set_column_count : SelectedPath IdmefPath → ℕ → SelectedPath IdmefPath
  set_column_count selected n = record selected { column_count = n }

  -- `preludedb_path_selection_new`
  abbrev pub path_selection_new : PathSelection IdmefPath
  path_selection_new = record { selecteds = []; count = 0; numpos = 0 }

  -- The selected path as `preludedb_path_selection_add` leaves it: the column count of 1 asks the
  -- format plugin, whose answer is stored in an unsigned field.
  unfoldable pub placed :
      (SelectedPath IdmefPath → ℤ)
      → PathSelection IdmefPath
      → SelectedPath IdmefPath
      → SelectedPath IdmefPath
  placed get_path_column_count selection selected =
      let s = record selected { idx = selection.count; position = selection.numpos } in
      if s.column_count == 1
      then record s { column_count = to_uint32 (get_path_column_count s) }
      else s

  -- `preludedb_path_selection_add`; both tests for a negative value are of unsigned fields.
  unfoldable pub path_selection_add :
      (SelectedPath IdmefPath → ℤ)
      → PathSelection IdmefPath
      → SelectedPath IdmefPath
      → PathSelection IdmefPath
  unfolding placed
  path_selection_add get_path_column_count selection selected =
      let s = placed get_path_column_count selection selected in
      record {
        selecteds = selection.selecteds ++ s ∷ [];
        count = (selection.count + 1) % uint32_mod;
        numpos = (selection.numpos + s.column_count) % uint32_mod;
      }

  abbrev checked_index : Option (SelectedPath IdmefPath) → Result (SelectedPath IdmefPath)
  checked_index none = err index
  checked_index (some s) = ok s

  -- `preludedb_path_selection_get_selected`
  unfoldable pub get_selected : PathSelection IdmefPath → ℕ → Result (SelectedPath IdmefPath)
  get_selected selection i =
      if ltb i selection.count then checked_index (get_elem? selection.selecteds i) else err index

  abbrev no_error : Result (SelectedPath IdmefPath) → Option (SelectedPath IdmefPath)
  no_error (ok s) = some s
  no_error (err e) = none

  -- `preludedb_path_selection_get_next`; without a selected path it starts over.
  unfoldable pub get_next :
      PathSelection IdmefPath → Option (SelectedPath IdmefPath) → Option (SelectedPath IdmefPath)
  unfolding get_selected
  get_next selection none = no_error (get_selected selection 0)
  get_next selection (some selected) =
      no_error (get_selected selection ((selected.idx + 1) % uint32_mod))
