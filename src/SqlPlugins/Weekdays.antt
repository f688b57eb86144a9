-- ===== src/SqlPlugins/Weekdays.antt =====
-- The constraints of the SQL plugins on the day of the week, and what the databases document of the
-- expressions in them.
use libpreludedb.Base.{
  ℕ, ◌+◌, ◌-◌, ◌%◌, ◌<◌, ◌≡◌, ◌≢◌, false, some, [], ◌++◌, Bytes, Result, ok, text, arith, print_nat,
  ◌>>=◌, append-nil, append_assoc, length, leb, ap, ◌∙◌,
}
use libpreludedb.Idmef.{pos, StringLib, IsAmple, print_int}
use libpreludedb.Criteria.{wday}
use libpreludedb.SqlPlugins.{OperatorCodes}
use libpreludedb.SqlPlugins.Sqlite3
use libpreludedb.SqlPlugins.Pgsql
use libpreludedb.SqlPlugins.Mysql

-- The expressions for the day of the week in SQL: STRFTIME('%w', ..) in SQLite, WEEKDAY and
-- DAYOFWEEK in MySQL, ISODOW and DOW in PostgreSQL, and numbers computed from them.
pub data DayExpression : Type 0 where
  strftime_w weekday dayofweek isodow dow : DayExpression
  plus minus modulo : DayExpression → ℕ → DayExpression
  in_parentheses : DayExpression → DayExpression

-- how an expression on a column is written
abbrev pub written : Bytes → DayExpression → Bytes
written field strftime_w = text "STRFTIME('%w', " ++ (field ++ text ")")
written field weekday = text "WEEKDAY(" ++ (field ++ text ")")
written field dayofweek = text "DAYOFWEEK(" ++ (field ++ text ")")
written field isodow = text "EXTRACT(ISODOW FROM " ++ (field ++ text ")")
written field dow = text "EXTRACT(DOW FROM " ++ (field ++ text ")")
written field (plus e n) = written field e ++ (text " + " ++ print_nat n)
written field (minus e n) = written field e ++ (text " - " ++ print_nat n)
written field (modulo e n) = written field e ++ (text " % " ++ print_nat n)
written field (in_parentheses e) = text "(" ++ (written field e ++ text ")")

-- Its value on a day that `struct tm` numbers so, from Sunday, which is 0: WEEKDAY counts from
-- Monday, which is 0, ISODOW from Monday, which is 1, and DAYOFWEEK from Sunday, which is 1.
abbrev pub value : DayExpression → ℕ → ℕ
value strftime_w tm_wday = tm_wday
value weekday tm_wday = (tm_wday + 6) % 7
value dayofweek tm_wday = tm_wday + 1
value isodow tm_wday = (tm_wday + 6) % 7 + 1
value dow tm_wday = tm_wday
value (plus e n) tm_wday = value e tm_wday + n
value (minus e n) tm_wday = value e tm_wday - n
value (modulo e n) tm_wday = value e tm_wday % n
value (in_parentheses e) tm_wday = value e tm_wday

-- What the plugins extract.
abbrev pub sqlite3_day : DayExpression
sqlite3_day = in_parentheses (modulo (in_parentheses (plus strftime_w 6)) 7)

abbrev pub pgsql_day : DayExpression
pgsql_day = in_parentheses (minus isodow 1)

abbrev pub mysql_day : DayExpression
mysql_day = weekday

-- A constraint is written as this expression, an operator, and a number, in quotes or not, that is
-- not the value of the expression on the day.
abbrev pub Misses : DayExpression → Result Bytes → Bytes → Bytes → Bytes → Bytes → ℕ → Type 0
Misses e constraint out field sql_operator quote tm_wday =
    (day : ℕ) × (constraint
      ≡ ok (
          out
          ++ (written field e
              ++ (text " "
                  ++ (sql_operator ++ (text " " ++ (quote ++ (print_nat day ++ quote))))))))
    × (day ≢ value e tm_wday)

module _ (lib : StringLib) (ample : IsAmple lib) (codes : OperatorCodes) (out field : Bytes)
    (operator tm_wday : ℕ) (sqlite3_operator pgsql_operator mysql_operator : Bytes) where
  appended :
      (a b c : Bytes) → a ++ b ≡ c → (lib.cat out a >>= λ out'. lib.cat out' b) ≡ ok (out ++ c)
  appended a b c e =
      rw (ample out a) (ample (out ++ a) b ∙ ap ok (append_assoc out a b ∙ ap (λ s. out ++ s) e))

  -- Where memory suffices: a criterion on the day of the week, as `struct tm` numbers it, on a
  -- field of less than 128 characters, never asks for that day. In each of the three plugins the
  -- expression for the day, with the value that its database documents, is compared with a number
  -- that is not its value on that day.
  pub weekday_constraints :
      tm_wday < 7
      → length field < 128
      → Sqlite3.get_operator_string codes operator ≡ some sqlite3_operator
      → Pgsql.get_operator_string codes operator ≡ some pgsql_operator
      → Mysql.get_operator_string codes operator ≡ some mysql_operator
      → Misses sqlite3_day
          (Sqlite3.build_time_constraint_string lib codes out field wday operator
            (pos tm_wday)
            (pos 0))
          out
          field
          sqlite3_operator
          []
          tm_wday
        × Misses pgsql_day
            (Pgsql.build_time_constraint_string lib codes out field wday operator
              (pos tm_wday)
              (pos 0))
            out
            field
            pgsql_operator
            []
            tm_wday
        × Misses mysql_day
            (Mysql.build_time_constraint_string lib codes out field wday operator
              (pos tm_wday)
              (pos 0))
            out
            field
            mysql_operator
            (text "'")
            tm_wday
  unfolding Sqlite3.build_time_constraint_string Sqlite3.build_time_extract_string
      Pgsql.build_time_constraint_string Pgsql.build_time_extract_string
      Mysql.build_time_constraint_string Mysql.build_time_extract_string print_int print_nat text
  weekday_constraints d short s p m =
      let fits : leb 128 (length field) ≡ false = ground arith in
      (
        (tm_wday % 7, rw (s, fits) (appended _ _ _ (simp (append_assoc, append-nil))), omega arith),
        (
          tm_wday % 7 + 1,
          rw (p, fits) (appended _ _ _ (simp (append_assoc, append-nil))),
          omega arith,
        ),
        (
          tm_wday % 7 + 1,
          rw (m, fits) (appended _ _ _ (simp (append_assoc, append-nil))),
          omega arith,
        ),
      )
