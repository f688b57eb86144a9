-- ===== src/SqlPlugins/Writers.antt =====
-- The SQL plugins as the writers of src/preludedb-sql.c's criteria.
use libpreludedb.Base.{
  ℕ, Bool, true, false, Option, none, some, Bytes, Result, text, generic, failure, Bool-cases, inl,
  inr, IsAppending, >>=-IsAppending, after-IsAppending, err-IsAppending, ◌==◌,
}
use libpreludedb.Idmef.{ℤ, pos, StringLib, IsAmple}
use libpreludedb.Criteria.{
  TimeConstraint, year, month, yday, mday, wday, hour, min, sec, msec, usec, quarter, Tm, Writer,
}
use libpreludedb.Criteria.Append.{Appends, cat-IsAppending}
use libpreludedb.SqlPlugins.{OperatorCodes}
use libpreludedb.SqlPlugins.Sqlite3
use libpreludedb.SqlPlugins.Pgsql
use libpreludedb.SqlPlugins.Mysql

-- printf's "%s", which writes a null pointer so
abbrev shown : Option Bytes → Bytes
shown none = text "(null)"
shown (some s) = s

-- What the plugin of src/preludedb-plugin-sql.c does not write itself: the escaping, which the
-- client libraries do, and the time stamps, and the C library's gmtime.
module _ {Session Time : Type 0} (escape : Bytes → Session → Result Bytes × Session)
    (timestamp : Tm → Result Bytes) (gmtime : Time → Result Tm) (lib : StringLib)
    (codes : OperatorCodes) where
  abbrev pub sqlite3_writer : Writer Session ℕ Time
  sqlite3_writer = record {
    escape = escape;
    get_operator_string = λ op. shown (Sqlite3.get_operator_string codes op);
    build_constraint_string =
        λ out field op value. Sqlite3.build_constraint_string lib codes out field op (some value);
    build_time_constraint_string = λ out field type op n.
        Sqlite3.build_time_constraint_string lib codes out field type op n (pos 0);
    build_timestamp_string = timestamp;
    gmtime = gmtime;
  }

  abbrev pub pgsql_writer : Writer Session ℕ Time
  pgsql_writer = record {
    escape = escape;
    get_operator_string = λ op. shown (Pgsql.get_operator_string codes op);
    build_constraint_string =
        λ out field op value. Pgsql.build_constraint_string lib codes out field op (some value);
    build_time_constraint_string = λ out field type op n.
        Pgsql.build_time_constraint_string lib codes out field type op n (pos 0);
    build_timestamp_string = timestamp;
    gmtime = gmtime;
  }

  abbrev pub mysql_writer : Writer Session ℕ Time
  mysql_writer = record {
    escape = escape;
    get_operator_string = λ op. shown (Mysql.get_operator_string codes op);
    build_constraint_string =
        λ out field op value. Mysql.build_constraint_string lib codes out field op (some value);
    build_time_constraint_string = λ out field type op n.
        Mysql.build_time_constraint_string lib codes out field type op n (pos 0);
    build_timestamp_string = timestamp;
    gmtime = gmtime;
  }

module _ (lib : StringLib) (ample : IsAmple lib) (codes : OperatorCodes) where
  cat_lem : (s : Bytes) → IsAppending (λ out. lib.cat out s)
  cat_lem = cat-IsAppending lib ample

  extract_part-IsAppending :
      (type : TimeConstraint) (buf : Bytes) → IsAppending (Sqlite3.extract_part lib type buf)
  extract_part-IsAppending year buf = cat_lem _
  extract_part-IsAppending month buf = cat_lem _
  extract_part-IsAppending yday buf = cat_lem _
  extract_part-IsAppending mday buf = cat_lem _
  extract_part-IsAppending wday buf = cat_lem _
  extract_part-IsAppending hour buf = cat_lem _
  extract_part-IsAppending min buf = cat_lem _
  extract_part-IsAppending sec buf = cat_lem _
  extract_part-IsAppending msec buf = cat_lem _
  extract_part-IsAppending usec buf = err-IsAppending generic
  extract_part-IsAppending quarter buf = cat_lem _

  sqlite3_tested :
      (field : Bytes) (nocase : Bool) (value : Bytes) (op : Option Bytes)
      → IsAppending (Sqlite3.tested lib field nocase value op)
  sqlite3_tested field nocase value none = err-IsAppending failure
  sqlite3_tested field true value (some op) = cat_lem _
  sqlite3_tested field false value (some op) = cat_lem _

  sqlite3_compared :
      (type : TimeConstraint) (n : ℤ) (op : Option Bytes)
      → IsAppending (Sqlite3.compared lib type n op)
  sqlite3_compared type n none = err-IsAppending generic
  sqlite3_compared type n (some op) = cat_lem _

  sqlite3_time :
      (field : Bytes) (type : TimeConstraint) (op : ℕ) (n offset : ℤ)
      → IsAppending
          (λ out. Sqlite3.build_time_constraint_string lib codes out field type op n offset)
  unfolding Sqlite3.build_time_constraint_string Sqlite3.build_time_extract_string
  sqlite3_time field type op n offset =
      >>=-IsAppending _ _
        (after-IsAppending _ (Sqlite3.extract_part lib type) (extract_part-IsAppending type))
        (sqlite3_compared type n (Sqlite3.get_operator_string codes op))

  pgsql_tested :
      (code : ℕ) (field value : Bytes) (op : Option Bytes)
      → IsAppending (Pgsql.tested lib codes code field value op)
  pgsql_tested code field value (some op) out = cat_lem _ out
  pgsql_tested code field value none out = elim (Bool-cases (code == codes.equal_nocase)) [
    | inl h ↦ rw h (cat_lem _ out)
    | inr h ↦ elim (Bool-cases (code == codes.not_equal_nocase)) [
      | inl h' ↦ rw (h, h') (cat_lem _ out)
      | inr h' ↦ rw (h, h')
    ]
  ]

  pgsql_compared :
      (type : TimeConstraint) (n : ℤ) (op : Option Bytes)
      → IsAppending (Pgsql.compared lib type n op)
  pgsql_compared type n none = err-IsAppending generic
  pgsql_compared type n (some op) = cat_lem _

  pgsql_time :
      (field : Bytes) (type : TimeConstraint) (op : ℕ) (n offset : ℤ)
      → IsAppending (λ out. Pgsql.build_time_constraint_string lib codes out field type op n offset)
  unfolding Pgsql.build_time_constraint_string Pgsql.build_time_extract_string
  pgsql_time field type op n offset =
      >>=-IsAppending _ _ (after-IsAppending _ _ (λ buf. cat_lem _))
        (pgsql_compared type n (Pgsql.get_operator_string codes op))

  mysql_tested :
      (field value : Bytes) (op : Option Bytes) → IsAppending (Mysql.tested lib field value op)
  mysql_tested field value none = err-IsAppending failure
  mysql_tested field value (some op) = cat_lem _

  mysql_compared :
      (type : TimeConstraint) (n : ℤ) (op : Option Bytes)
      → IsAppending (Mysql.compared lib type n op)
  mysql_compared type n none = err-IsAppending generic
  mysql_compared type n (some op) = cat_lem _

  mysql_time :
      (field : Bytes) (type : TimeConstraint) (op : ℕ) (n offset : ℤ)
      → IsAppending (λ out. Mysql.build_time_constraint_string lib codes out field type op n offset)
  unfolding Mysql.build_time_constraint_string Mysql.build_time_extract_string
  mysql_time field type op n offset =
      >>=-IsAppending _ _ (after-IsAppending _ _ (λ buf. cat_lem _))
        (mysql_compared type n (Mysql.get_operator_string codes op))

  -- Where memory suffices, each of the three plugins writes a constraint on a column, and one on a
  -- part of a time, behind the text that it is given, or fails whatever text that is: they are what
  -- the criteria rely on.
  plugins_Appends :
      {Session Time : Type 0} (escape : Bytes → Session → Result Bytes × Session)
      (timestamp : Tm → Result Bytes) (gmtime : Time → Result Tm)
      → Appends (sqlite3_writer escape timestamp gmtime lib codes)
        × Appends (pgsql_writer escape timestamp gmtime lib codes)
        × Appends (mysql_writer escape timestamp gmtime lib codes)
  unfolding Sqlite3.build_constraint_string Pgsql.build_constraint_string
      Mysql.build_constraint_string
  plugins_Appends escape timestamp gmtime = (
    record {
      constraint = λ field op value.
          sqlite3_tested field (codes.has_nocase op) value (Sqlite3.get_operator_string codes op);
      time_constraint = λ field type op n. sqlite3_time field type op n (pos 0);
    },
    record {
      constraint =
          λ field op value. pgsql_tested op field value (Pgsql.get_operator_string codes op);
      time_constraint = λ field type op n. pgsql_time field type op n (pos 0);
    },
    record {
      constraint = λ field op value. mysql_tested field value (Mysql.get_operator_string codes op);
      time_constraint = λ field type op n. mysql_time field type op n (pos 0);
    },
  )
