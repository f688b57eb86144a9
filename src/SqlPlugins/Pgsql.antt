-- ===== src/SqlPlugins/Pgsql.antt =====
-- plugins/sql/pgsql/pgsql.c: what the plugin writes into a statement.
use libpreludedb.Base.{
  ℕ, Option, none, some, List, [], ◌∷◌, ◌++◌, Bytes, Result, ok, err, generic, failure, text,
  if◌then◌else◌, ◌>>=◌, ◌==◌,
}
use libpreludedb.Idmef.{ℤ, pos, negsuc, StringLib, print_int}
use libpreludedb.Criteria.{
  TimeConstraint, year, month, yday, mday, wday, hour, min, sec, msec, usec, quarter, ◌+ℕ◌,
}
use libpreludedb.SqlPlugins.{
  OperatorCodes, Interval, search_operator, quotient, remainder, is_zero, buffered, or_empty,
}

module _ (codes : OperatorCodes) where
  open codes use {
    equal, equal_nocase, not_equal, not_equal_nocase, greater, greater_or_equal, lesser,
    lesser_or_equal, substr, substr_nocase, not_substr, not_substr_nocase, regex, regex_nocase,
    not_regex, not_regex_nocase, null, not_null,
  }

  -- the table of `get_operator_string`
  abbrev pub operator_table : List (ℕ × Bytes)
  operator_table =
      (equal, text "=")
      ∷ (not_equal, text "!=")
      ∷ (greater, text ">")
      ∷ (greater_or_equal, text ">=")
      ∷ (lesser, text "<")
      ∷ (lesser_or_equal, text "<=")
      ∷ (substr, text "LIKE")
      ∷ (substr_nocase, text "ILIKE")
      ∷ (not_substr, text "NOT LIKE")
      ∷ (not_substr_nocase, text "NOT ILIKE")
      ∷ (regex, text "~")
      ∷ (regex_nocase, text "~*")
      ∷ (not_regex, text "!~")
      ∷ (not_regex_nocase, text "!~*")
      ∷ (null, text "IS NULL")
      ∷ (not_null, text "IS NOT NULL")
      ∷ []

  -- `get_operator_string`
  unfoldable pub get_operator_string : ℕ → Option Bytes
  unfolding search_operator
  get_operator_string operator = search_operator operator operator_table

-- the number that a constraint compares with
abbrev pub time_number : TimeConstraint → ℤ → ℤ
time_number wday value = remainder value 7 +ℕ 1
time_number type value = value

abbrev pub interval_unit : Interval → Option Bytes
interval_unit Interval.year = some (text "YEAR")
interval_unit Interval.quarter = some (text "QUARTER")
interval_unit Interval.month = some (text "MONTH")
interval_unit Interval.day = some (text "DAY")
interval_unit Interval.hour = some (text "HOUR")
interval_unit Interval.min = some (text "MINUTE")
interval_unit Interval.sec = some (text "SECOND")
interval_unit Interval.other = none

module _ (lib : StringLib) where
  open lib use {cat}

  -- `sql_build_limit_offset_string`
  unfoldable pub build_limit_offset_string : ℤ → ℤ → Bytes → Result Bytes
  build_limit_offset_string (pos limit) (pos offset) output =
      cat output
        (text " LIMIT " ++ (print_int (pos limit) ++ (text " OFFSET " ++ print_int (pos offset))))
  build_limit_offset_string (pos limit) (negsuc n) output =
      cat output (text " LIMIT " ++ print_int (pos limit))
  build_limit_offset_string (negsuc n) (pos offset) output =
      cat output (text " LIMIT ALL OFFSET " ++ print_int (pos offset))
  build_limit_offset_string (negsuc n) (negsuc m) output = ok output

  abbrev pub extracted : Bytes → Bytes → Bytes
  extracted part buf = text "EXTRACT(" ++ (part ++ (text " FROM " ++ (buf ++ text ")")))

  abbrev pub extract_part : TimeConstraint → Bytes → Bytes
  extract_part year buf = extracted (text "YEAR") buf
  extract_part quarter buf = extracted (text "QUARTER") buf
  extract_part month buf = extracted (text "MONTH") buf
  extract_part yday buf = extracted (text "DOY") buf
  extract_part mday buf = extracted (text "DAY") buf
  extract_part wday buf = text "(" ++ (extracted (text "ISODOW") buf ++ text " - 1)")
  extract_part hour buf = extracted (text "HOUR") buf
  extract_part min buf = extracted (text "MINUTE") buf
  extract_part sec buf = extracted (text "SECOND") buf
  extract_part msec buf = extracted (text "MILLISECOND") buf
  extract_part usec buf = extracted (text "MICROSECOND") buf

  -- `sql_build_time_extract_string`
  unfoldable pub build_time_extract_string : Bytes → Bytes → TimeConstraint → ℤ → Result Bytes
  build_time_extract_string output field type gmt_offset =
      buffered (
        if is_zero gmt_offset
        then field
        else field
          ++ (text " + INTERVAL '" ++ (print_int (quotient gmt_offset 3600) ++ text " HOUR'")))
      >>= λ buf. cat output (extract_part type buf)

  -- `sql_build_time_timezone_string`
  unfoldable pub build_time_timezone_string : Bytes → Bytes → Bytes → Result Bytes
  build_time_timezone_string output field tzvalue =
      cat output
        (text "timezone('" ++ (tzvalue ++ (text "', timezone('UTC', " ++ (field ++ text "))"))))

  -- `sql_build_time_interval_string`: strtol always stores an end, so the second of its two formats
  -- is never written.
  unfoldable pub build_time_interval_string : Bytes → Bytes → Bytes → Interval → Result Bytes
  build_time_interval_string output field value unit = elim (interval_unit unit) [
    | none ↦ err generic
    | some sunit ↦ cat output (
        text "("
        ++ (field ++ (text " + (" ++ (value ++ (text " * INTERVAL '1 " ++ (sunit ++ text "'))"))))))
  ]

  -- the end of a time constraint
  abbrev pub compared : TimeConstraint → ℤ → Option Bytes → Bytes → Result Bytes
  compared type value none output = err generic
  compared type value (some sql_operator) output =
      cat output (text " " ++ (sql_operator ++ (text " " ++ (print_int (time_number type value)))))

  module _ (codes : OperatorCodes) where
    open codes use {equal_nocase, not_equal_nocase}

    abbrev pub lowered : Bytes → Bytes → Bytes → Bytes
    lowered field op value =
        text "lower(" ++ (field ++ (text ") " ++ (op ++ (text " lower(" ++ (value ++ text ")")))))

    -- a test of a column; two operators that ignore the case are not in the table
    abbrev pub tested : ℕ → Bytes → Bytes → Option Bytes → Bytes → Result Bytes
    tested operator field value (some op_str) out =
        cat out (field ++ (text " " ++ (op_str ++ (text " " ++ value))))
    tested operator field value none out =
        if operator == equal_nocase
        then cat out (lowered field (text "=") value)
        else (if operator == not_equal_nocase
            then cat out (lowered field (text "!=") value)
            else err failure)

    -- `sql_build_constraint_string`
    unfoldable pub build_constraint_string : Bytes → Bytes → ℕ → Option Bytes → Result Bytes
    unfolding get_operator_string
    build_constraint_string out field operator value =
        tested operator field (or_empty value) (get_operator_string codes operator) out

    -- `sql_build_time_constraint_string`
    unfoldable pub build_time_constraint_string :
        Bytes → Bytes → TimeConstraint → ℕ → ℤ → ℤ → Result Bytes
    unfolding build_time_extract_string get_operator_string
    build_time_constraint_string output field type operator value gmt_offset =
        build_time_extract_string output field type gmt_offset >>= λ output'.
        compared type value (get_operator_string codes operator) output'
