-- ===== src/SqlPlugins/Tests.antt =====
-- The SQL plugins at a few inputs, and the theorems on them there.
use libpreludedb.Base.{
  ℕ, ◌≡◌, ◌≢◌, refl, ◌||◌, none, some, List, [], ◌∷◌, ◌++◌, Bytes, Result, ok, err, failure, text,
  print_nat, ◌==◌, arith,
}
use libpreludedb.Idmef.{pos, negsuc, print_int}
use libpreludedb.Criteria.{wday, Tm}
use libpreludedb.Samples.{unbounded, unbounded-IsAmple}
use libpreludedb.SqlPlugins.Binary.{
  bin2hex, plugin_escape, plugin_escape_binary, read_literal, read_literal-plugin_escape_binary,
}
use libpreludedb.SqlPlugins.{OperatorCodes, Interval}
use libpreludedb.SqlPlugins.Sqlite3
use libpreludedb.SqlPlugins.Pgsql
use libpreludedb.SqlPlugins.Mysql
use libpreludedb.SqlPlugins.Limits.{Keeps, read_sqlite3, read_pgsql, read_mysql, limit_offset-Keeps}
use libpreludedb.SqlPlugins.Operators.{HaveCodes, mysql_not_regex}
use libpreludedb.SqlPlugins.Weekdays.{
  Misses, sqlite3_day, pgsql_day, mysql_day, weekday_constraints,
}

abbrev numbered : OperatorCodes
numbered = record {
  equal = 1;
  equal_nocase = 2;
  not_equal = 3;
  not_equal_nocase = 4;
  greater = 5;
  greater_or_equal = 6;
  lesser = 7;
  lesser_or_equal = 8;
  substr = 9;
  substr_nocase = 10;
  not_substr = 11;
  not_substr_nocase = 12;
  regex = 13;
  regex_nocase = 14;
  not_regex = 15;
  not_regex_nocase = 16;
  null = 17;
  not_null = 18;
  has_nocase = λ op. op == 2 || op == 4 || op == 10 || op == 12 || op == 14 || op == 16;
}

numbered_codes : HaveCodes numbered
numbered_codes = refl

lower_run :
    Sqlite3.build_constraint_string unbounded numbered [] (text "f") 2 (some (text "'A'"))
    ≡ ok (text "lower(f) = lower('A')")
unfolding Sqlite3.build_constraint_string text
lower_run = refl

quarter_run :
    Pgsql.build_time_interval_string unbounded [] (text "f") (text "2") Interval.quarter
    ≡ ok (text "(f + (2 * INTERVAL '1 QUARTER'))")
unfolding Pgsql.build_time_interval_string text
quarter_run = refl

hours_run :
    Mysql.build_time_constraint_string unbounded numbered [] (text "f") wday 1 (pos 1) (negsuc 7199)
    ≡ ok (text "WEEKDAY(DATE_ADD(f, INTERVAL -2 HOUR)) = BINARY '2'")
unfolding Mysql.build_time_constraint_string text print_int print_nat
hours_run = refl

abbrev three_rows : List ℕ
three_rows = 5 ∷ 6 ∷ 7 ∷ []

limit_offset-Keeps_example :
    Keeps
      (Sqlite3.build_limit_offset_string unbounded)
      read_sqlite3
      (negsuc 0)
      (pos 2)
      []
      three_rows
    × Keeps (Pgsql.build_limit_offset_string unbounded) read_pgsql (negsuc 0) (pos 2) [] three_rows
    × Keeps (Mysql.build_limit_offset_string unbounded) read_mysql (negsuc 0) (pos 2) [] three_rows
limit_offset-Keeps_example =
    limit_offset-Keeps unbounded unbounded-IsAmple (negsuc 0) (pos 2) [] three_rows (omega arith)

abbrev quoted : Bytes → ℕ → Result Bytes × ℕ
quoted input session = (ok (text "'" ++ (input ++ text "'")), session)

abbrev no_time : Tm → Result Bytes
no_time t = err failure

abbrev no_clock : ℕ → Result Tm
no_clock t = err failure

mysql_not_regex_example :
    (like like_nocase regex regex_nocase : Bytes) × (Mysql.get_operator_string numbered 9
      ≡ some like)
    × (Mysql.get_operator_string numbered 11 ≡ some (text "NOT " ++ like))
    × (Mysql.get_operator_string numbered 10 ≡ some like_nocase)
    × (Mysql.get_operator_string numbered 12 ≡ some (text "NOT " ++ (like_nocase ++ text " ")))
    × (Mysql.get_operator_string numbered 13 ≡ some regex)
    × (Mysql.get_operator_string numbered 14 ≡ some regex_nocase)
    × (Mysql.get_operator_string numbered 15 ≡ some (text "NOT " ++ regex_nocase))
    × (Mysql.get_operator_string numbered 16 ≡ some (text "NOT " ++ regex))
    × (regex ≢ regex_nocase)
mysql_not_regex_example = mysql_not_regex numbered numbered_codes

sqlite3_equal : Sqlite3.get_operator_string numbered 1 ≡ some (text "=")
unfolding Sqlite3.get_operator_string
sqlite3_equal = refl

pgsql_equal : Pgsql.get_operator_string numbered 1 ≡ some (text "=")
unfolding Pgsql.get_operator_string
pgsql_equal = refl

mysql_equal : Mysql.get_operator_string numbered 1 ≡ some (text "= BINARY")
unfolding Mysql.get_operator_string
mysql_equal = refl

-- Monday
weekday_constraints_example :
    Misses sqlite3_day
      (Sqlite3.build_time_constraint_string unbounded numbered [] (text "f") wday 1 (pos 1) (pos 0))
      []
      (text "f")
      (text "=")
      []
      1
    × Misses pgsql_day
        (Pgsql.build_time_constraint_string unbounded numbered [] (text "f") wday 1 (pos 1) (pos 0))
        []
        (text "f")
        (text "=")
        []
        1
    × Misses mysql_day
        (Mysql.build_time_constraint_string unbounded numbered [] (text "f") wday 1 (pos 1) (pos 0))
        []
        (text "f")
        (text "= BINARY")
        (text "'")
        1
unfolding text
weekday_constraints_example =
    weekday_constraints unbounded unbounded-IsAmple numbered [] (text "f") 1 1 (text "=") (text "=")
      (text "= BINARY") (omega arith) (omega arith) sqlite3_equal pgsql_equal mysql_equal

read_literal-plugin_escape_binary_example :
    (out : Bytes) × (plugin_escape_binary {Session = Unit} none (0 ∷ 171 ∷ 255 ∷ []) tt
      ≡ (ok out, tt))
    × (read_literal out ≡ some (0 ∷ 171 ∷ 255 ∷ []))
read_literal-plugin_escape_binary_example =
    read_literal-plugin_escape_binary (0 ∷ 171 ∷ 255 ∷ []) tt
      (omega arith, (omega arith, (omega arith, tt))) (omega arith)

escape_run :
    plugin_escape {Session = Unit} none none (0 ∷ 171 ∷ 255 ∷ []) tt ≡ (ok (text "X'00ABFF'"), tt)
unfolding plugin_escape plugin_escape_binary bin2hex text
escape_run = refl
