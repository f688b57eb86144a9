-- ===== src/SqlPlugins.antt =====
-- What the SQL plugins write into a statement: plugins/sql/sqlite3/sqlite3.c,
-- plugins/sql/pgsql/pgsql.c and plugins/sql/mysql/mysql.c. This file has what they share.
pub mod Sqlite3
pub mod Pgsql
pub mod Mysql
pub mod Limits
pub mod Writers
pub mod Binary
pub mod Operators
pub mod Weekdays
mod Tests
use libpreludedb.Base.{
  ℕ, ◌+◌, ◌-◌, ◌/◌, ◌%◌, Bool, true, false, Option, none, some, List, [], ◌∷◌, ◌++◌, Bytes, Result,
  ok, err, generic, text, ltb, leb, ◌==◌, if◌then◌else◌, length,
}
use libpreludedb.Idmef.{ℤ, pos, negsuc, StringLib, print_int}

-- libprelude's `idmef_criterion_operator_t`: the operators that the plugins name, and the test of
-- the bit IDMEF_CRITERION_OPERATOR_NOCASE.
pub record OperatorCodes : Type 0 where
  pub equal : ℕ
  pub equal_nocase : ℕ
  pub not_equal : ℕ
  pub not_equal_nocase : ℕ
  pub greater : ℕ
  pub greater_or_equal : ℕ
  pub lesser : ℕ
  pub lesser_or_equal : ℕ
  pub substr : ℕ
  pub substr_nocase : ℕ
  pub not_substr : ℕ
  pub not_substr_nocase : ℕ
  pub regex : ℕ
  pub regex_nocase : ℕ
  pub not_regex : ℕ
  pub not_regex_nocase : ℕ
  pub null : ℕ
  pub not_null : ℕ
  pub has_nocase : ℕ → Bool

-- `preludedb_selected_object_interval_t`
pub data Interval : Type 0 where
  year quarter month day hour min sec other : Interval

-- The loop of `get_operator_string`: an entry of operator 0 ends the table.
unfoldable pub search_operator : ℕ → List (ℕ × Bytes) → Option Bytes
search_operator operator [] = none
search_operator operator ((code, name) ∷ tbl) =
    if code == 0
    then none
    else (if operator == code then some name else search_operator operator tbl)

-- C's division of an `int` by a positive number, towards 0
abbrev pub quotient : ℤ → ℕ → ℤ
quotient (pos n) d = pos (n / d)
quotient (negsuc n) d = if (n + 1) / d == 0 then pos 0 else negsuc ((n + 1) / d - 1)

-- and its remainder, which has the sign of the number
abbrev pub remainder : ℤ → ℕ → ℤ
remainder (pos n) d = pos (n % d)
remainder (negsuc n) d = if (n + 1) % d == 0 then pos 0 else negsuc ((n + 1) % d - 1)

abbrev pub is_zero : ℤ → Bool
is_zero (pos n) = n == 0
is_zero (negsuc n) = false

abbrev pub is_negative : ℤ → Bool
is_negative (pos n) = false
is_negative (negsuc n) = true

-- snprintf into the 128 bytes of `buf`: a text that does not fit with its terminator is refused.
abbrev pub buffered : Bytes → Result Bytes
buffered s = if leb 128 (length s) then err generic else ok s

-- a text that may be null
abbrev pub or_empty : Option Bytes → Bytes
or_empty none = []
or_empty (some s) = s
