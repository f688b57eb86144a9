-- ===== src/Criteria/Lock.antt =====
-- The lock of the connection while src/preludedb-sql.c builds a criterion.
use libpreludedb.Base.{◌≡◌, Option, none, some, [], Bytes, Result, ok, err, failure, arith, refl}
use libpreludedb.Idmef.{StringLib}
use libpreludedb.Sql.{Plugin, Sql}
use libpreludedb.Criteria.{
  Operators, Writer, Value, time, data_value, other, CriterionValue, fixed, regex, broken_down_time,
  other_type, sql_escape, fixed_sql_value, fixed_value, criterion_regex, criterion_value,
  build_criterion_string,
}

module _ (lib : StringLib) (plugin : Plugin) (operators : Operators) {Time : Type 0}
    (writer : Writer (plugin.Session) (operators.Operator) Time) where
  held-sql_escape :
      (input : Option Bytes) (s : Sql (plugin.Session))
      → (sql_escape lib plugin operators writer input s).1.held ≡ s.held
  unfolding sql_escape
  held-sql_escape none s = refl
  held-sql_escape (some input) s = ground arith

  held-fixed_sql_value :
      (output : Bytes) (value : Value Time) (op : operators.Operator) (s : Sql (plugin.Session))
      → (fixed_sql_value lib plugin operators writer output value op s).1.held ≡ s.held
  unfolding fixed_sql_value
  held-fixed_sql_value output (time t) op s = refl
  held-fixed_sql_value output (data_value input printed) op s = ground arith
  held-fixed_sql_value output (other input printed) op s = ground arith

  held-criterion_value :
      (output field : Bytes) (op : operators.Operator) (ret : Result Bytes)
      (value : CriterionValue Time) (s : Sql (plugin.Session))
      → (criterion_value lib plugin operators writer output field op ret value s).1.held ≡ s.held
  unfolding criterion_value fixed_value criterion_regex
  held-criterion_value output field op ret (fixed v) s =
      ground (arith, held-fixed_sql_value [] v op s)
  held-criterion_value output field op ret (regex r) s = ground (arith, held-sql_escape (some r) s)
  held-criterion_value output field op ret (broken_down_time lt) s = refl
  held-criterion_value output field op ret other_type s = refl

  -- Building a criterion leaves the lock as it found it, for every operator and value, whether the
  -- connection opens and whether the plugin fails.
  pub held-build_criterion_string :
      (output field : Bytes) (op : operators.Operator) (value : CriterionValue Time)
      (s : Sql (plugin.Session))
      → (build_criterion_string lib plugin operators writer output field op value s).1.held ≡ s.held
  unfolding build_criterion_string
  held-build_criterion_string output field op value s = ground (
    arith,
    λ (output' : Bytes). held-criterion_value output' field op (ok output') value s,
    held-criterion_value output field op (err failure) value s,
  )
