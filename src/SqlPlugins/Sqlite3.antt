-- ===== src/SqlPlugins/Sqlite3.antt =====
-- plugins/sql/sqlite3/sqlite3.c: what the plugin writes into a statement.
use libpreludedb.Base.{
  ℕ, Bool, true, false, Option, none, some, List, [], ◌∷◌, ◌++◌, Bytes, Result, ok, err, generic,
  failure, text, if◌then◌else◌, ◌>>=◌,
}
use libpreludedb.Idmef.{ℤ, pos, negsuc, StringLib, print_int}
use libpreludedb.Criteria.{
  TimeConstraint, year, month, yday, mday, wday, hour, min, sec, msec, usec, quarter,
}
use libpreludedb.SqlPlugins.{
  OperatorCodes, Interval, search_operator, quotient, remainder, is_zero, buffered, or_empty,
}

-- `SQLITE_REGEX_OPERATOR`, from SQLite 3.2.2 on
abbrev regex_operator : Bytes
regex_operator = text "REGEXP"

module _ (codes : OperatorCodes) where
  open codes use {
    equal, equal_nocase, not_equal, not_equal_nocase, greater, greater_or_equal, lesser,
    lesser_or_equal, substr, substr_nocase, not_substr, not_substr_nocase, regex, regex_nocase,
    not_regex, not_regex_nocase, null, not_null,
  }

  -- the table of `get_operator_string`
  abbrev pub operator_table : List (ℕ × Bytes)
  operator_table =
      (equal, text "=")
      ∷ (equal_nocase, text "=")
      ∷ (not_equal, text "!=")
      ∷ (not_equal_nocase, text "!=")
      ∷ (greater, text ">")
      ∷ (greater_or_equal, text ">=")
      ∷ (lesser, text "<")
      ∷ (lesser_or_equal, text "<=")
      ∷ (substr, text "LIKE")
      ∷ (substr_nocase, text "LIKE")
      ∷ (not_substr, text "NOT LIKE")
      ∷ (not_substr_nocase, text "NOT LIKE ")
      ∷ (regex, regex_operator)
      ∷ (regex_nocase, regex_operator)
      ∷ (not_regex, text "NOT " ++ regex_operator)
      ∷ (not_regex_nocase, text "NOT " ++ regex_operator)
      ∷ (null, text "IS NULL")
      ∷ (not_null, text "IS NOT NULL")
      ∷ []

  -- `get_operator_string`
  unfoldable pub get_operator_string : ℕ → Option Bytes
  unfolding search_operator
  get_operator_string operator = search_operator operator operator_table

-- the number that a constraint compares with
abbrev pub time_number : TimeConstraint → ℤ → ℤ
time_number wday value = remainder value 7
time_number type value = value

abbrev pub interval_unit : Interval → Option Bytes
interval_unit Interval.year = some (text "years")
interval_unit Interval.month = some (text "months")
interval_unit Interval.day = some (text "days")
interval_unit Interval.hour = some (text "hours")
interval_unit Interval.min = some (text "minutes")
interval_unit Interval.sec = some (text "seconds")
interval_unit _ = none

module _ (lib : StringLib) where
  open lib use {cat}

  -- `sql_build_limit_offset_string`
  unfoldable pub build_limit_offset_string : ℤ → ℤ → Bytes → Result Bytes
  build_limit_offset_string (pos limit) (pos offset) output =
      cat output
        (text " LIMIT " ++ (print_int (pos offset) ++ (text ", " ++ print_int (pos limit))))
  build_limit_offset_string (pos limit) (negsuc n) output =
      cat output (text " LIMIT " ++ print_int (pos limit))
  build_limit_offset_string (negsuc n) (pos offset) output =
      cat output (text " LIMIT " ++ (print_int (pos offset) ++ text ", -1"))
  build_limit_offset_string (negsuc n) (negsuc m) output = ok output

  abbrev pub strftime : Bytes → Bytes → Bytes
  strftime format buf = text "STRFTIME('%" ++ (format ++ (text "', " ++ (buf ++ text ")")))

  abbrev pub extract_part : TimeConstraint → Bytes → Bytes → Result Bytes
  extract_part year buf output = cat output (strftime (text "Y") buf ++ text " + 0")
  extract_part quarter buf output =
      cat output (text "((" ++ (strftime (text "m") buf ++ text " + 2) / 3)"))
  extract_part month buf output = cat output (strftime (text "m") buf ++ text " + 0")
  extract_part yday buf output = cat output (strftime (text "j") buf ++ text " + 0")
  extract_part mday buf output = cat output (strftime (text "d") buf ++ text " + 0")
  extract_part wday buf output =
      cat output (text "((" ++ (strftime (text "w") buf ++ text " + 6) % 7)"))
  extract_part hour buf output = cat output (strftime (text "H") buf ++ text " + 0")
  extract_part min buf output = cat output (strftime (text "M") buf ++ text " + 0")
  extract_part sec buf output = cat output (strftime (text "S") buf ++ text " + 0")
  extract_part msec buf output = cat output (
      text "("
      ++ (strftime (text "f") buf ++ (text " - " ++ (strftime (text "S") buf ++ text ") * 1000"))))
  extract_part usec buf output = err generic

  -- `sql_build_time_extract_string`
  unfoldable pub build_time_extract_string : Bytes → Bytes → TimeConstraint → ℤ → Result Bytes
  build_time_extract_string output field type gmt_offset =
      buffered (
        if is_zero gmt_offset
        then field
        else text "DATETIME("
          ++ (field ++ (text ", '" ++ (print_int (quotient gmt_offset 3600) ++ text " hours')"))))
      >>= λ buf. extract_part type buf output

  -- `sql_build_time_interval_string`
  unfoldable pub build_time_interval_string : Bytes → Bytes → Bytes → Interval → Result Bytes
  build_time_interval_string output field value unit = elim (interval_unit unit) [
    | none ↦ err generic
    | some sunit ↦ cat output (
        text "datetime("
        ++ (field ++ (text ", " ++ (value ++ (text " || ' " ++ (sunit ++ text "')"))))))
  ]

  -- a test of a column, in lower case if the operator ignores the case
  abbrev pub tested : Bytes → Bool → Bytes → Option Bytes → Bytes → Result Bytes
  tested field nocase value none out = err failure
  tested field true value (some op_str) out = cat out (
      text "lower("
      ++ (field ++ (text ") " ++ (op_str ++ (text " lower(" ++ (value ++ text ")"))))))
  tested field false value (some op_str) out =
      cat out (field ++ (text " " ++ (op_str ++ (text " " ++ value))))

  -- the end of a time constraint
  abbrev pub compared : TimeConstraint → ℤ → Option Bytes → Bytes → Result Bytes
  compared type value none output = err generic
  compared type value (some sql_operator) output =
      cat output (text " " ++ (sql_operator ++ (text " " ++ print_int (time_number type value))))

  module _ (codes : OperatorCodes) where
    -- `sql_build_constraint_string`
    unfoldable pub build_constraint_string : Bytes → Bytes → ℕ → Option Bytes → Result Bytes
    unfolding get_operator_string
    build_constraint_string out field operator value =
        tested field (codes.has_nocase operator) (or_empty value)
          (get_operator_string codes operator) out

    -- `sql_build_time_constraint_string`
    unfoldable pub build_time_constraint_string :
        Bytes → Bytes → TimeConstraint → ℕ → ℤ → ℤ → Result Bytes
    unfolding build_time_extract_string get_operator_string
    build_time_constraint_string output field type operator value gmt_offset =
        build_time_extract_string output field type gmt_offset >>= λ output'.
        compared type value (get_operator_string codes operator) output'
