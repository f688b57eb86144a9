-- ===== src/Criteria.antt =====
-- The criteria of src/preludedb-sql.c: the condition that a statement puts on a column, from an
-- operator and a value of a criterion.
pub mod Like
pub mod Times
pub mod Lock
pub mod Append
mod Tests
use libpreludedb.Base.{
  backslash, ℕ, ◌+◌, ◌-◌, Bool, true, false, not, ◌&&◌, ◌||◌, Option, none, some, List, [], ◌∷◌,
  ◌++◌, Bytes, Result, ok, err, Error, failure, query, text, ltb, ◌==◌, if◌then◌else◌, ◌>>=◌, chain,
}
use libpreludedb.Idmef.{ℤ, pos, negsuc, StringLib, cat_unchecked}
use libpreludedb.Sql.{Plugin, Sql, lock, unlock, assert_connected}

-- libprelude's `idmef_criterion_operator_t`, with the tests that are made of it.
pub record Operators : Type 1 where
  pub Operator : Type 0
  pub null : Operator
  pub equal : Operator
  pub is_null : Operator → Bool
  pub is_not_null : Operator → Bool
  pub has_not : Operator → Bool
  pub has_substr : Operator → Bool
  pub is_equal : Operator → Bool
  pub is_not_equal : Operator → Bool

-- `preludedb_sql_time_constraint_type_t`
pub data TimeConstraint : Type 0 where
  year month yday mday wday hour min sec msec usec quarter : TimeConstraint

-- the fields of `struct tm` that are read
pub record Tm : Type 0 where
  pub tm_year : ℤ
  pub tm_mon : ℤ
  pub tm_yday : ℤ
  pub tm_mday : ℤ
  pub tm_wday : ℤ
  pub tm_hour : ℤ
  pub tm_min : ℤ
  pub tm_sec : ℤ

-- What the plugin writes, behind the text that it is given; `gmtime` is of the C library.
pub record Writer (Session Operator Time : Type 0) : Type 0 where
  pub escape : Bytes → Session → Result Bytes × Session
  pub get_operator_string : Operator → Bytes
  pub build_constraint_string : Bytes → Bytes → Operator → Bytes → Result Bytes
  pub build_time_constraint_string : Bytes → Bytes → TimeConstraint → Operator → ℤ → Result Bytes
  pub build_timestamp_string : Tm → Result Bytes
  pub gmtime : Time → Result Tm

-- `idmef_value_t`: a time; data or a string, if it is there; and what `idmef_value_to_string`
-- makes of a value that is no time.
pub data Value (Time : Type 0) : Type 0 where
  time : Option Time → Value Time
  data_value : Option Bytes → Result Bytes → Value Time
  other : Option Bytes → Result Bytes → Value Time

-- `idmef_criterion_value_t`, by its type
pub data CriterionValue (Time : Type 0) : Type 0 where
  fixed : Value Time → CriterionValue Time
  regex : Bytes → CriterionValue Time
  broken_down_time : Tm → CriterionValue Time
  other_type : CriterionValue Time

-- A C `int` and a positive number.
infixl 60 ◌+ℕ◌
abbrev pub ◌+ℕ◌ : ℤ → ℕ → ℤ
pos n +ℕ k = pos (n + k)
negsuc n +ℕ k = if ltb n k then pos (k - (n + 1)) else negsuc (n - k)

-- -1 stands for a field that is not given.
abbrev pub is_unset : ℤ → Bool
is_unset (pos n) = false
is_unset (negsuc n) = n == 0

abbrev pub unless_unset : ℤ → ℕ → ℤ
unless_unset n k = if is_unset n then n else n +ℕ k

-- the table of `build_criterion_broken_down_time_equal`
abbrev pub time_table : Tm → List (TimeConstraint × ℤ)
time_table lt =
    (year, unless_unset lt.tm_year 1900)
    ∷ (month, unless_unset lt.tm_mon 1)
    ∷ (yday, lt.tm_yday)
    ∷ (mday, lt.tm_mday)
    ∷ (wday, lt.tm_wday)
    ∷ (hour, lt.tm_hour)
    ∷ (min, lt.tm_min)
    ∷ (sec, lt.tm_sec)
    ∷ []

module _ (lib : StringLib) where
  open lib use {cat}

  -- one round of the loop of `build_criterion_fixed_sql_like_value`
  abbrev pub like_round : Bool → ℕ → Bytes → Bytes
  like_round escape_next c out =
      if c == b'%'
      then cat_unchecked lib out (text "\\%")
      else (if c == b'*' && not escape_next
          then cat_unchecked lib out (text "%")
          else cat_unchecked lib out (c ∷ []))

  unfoldable pub like_loop : Bool → Bytes → Bytes → Bytes
  like_loop escape_next [] out = out
  like_loop escape_next (c ∷ input) out =
      like_loop (not escape_next && c == backslash) input (like_round escape_next c out)

  -- `build_criterion_fixed_sql_like_value`, on the text of the value
  unfoldable pub like_value : Option Bytes → Result Bytes
  unfolding like_loop
  like_value none = err failure
  like_value (some input) = ok (like_loop false input [])

module _ (lib : StringLib) (plugin : Plugin) (operators : Operators) {Time : Type 0}
    (writer : Writer (plugin.Session) (operators.Operator) Time) where
  open lib use {cat}
  open plugin use {Session}
  open operators use {
    Operator, null, equal, is_null, is_not_null, has_not, has_substr, is_equal, is_not_equal,
  }
  open writer use {
    escape, get_operator_string, build_constraint_string, build_time_constraint_string,
    build_timestamp_string, gmtime,
  }

  abbrev escaped : Result Bytes × Session → Sql Session → Result Bytes × Sql Session
  escaped (r, session) s = (r, unlock (record s { session = session }))

  -- `preludedb_sql_escape`
  unfoldable pub sql_escape : Option Bytes → Sql Session → Result Bytes × Sql Session
  unfolding lock unlock assert_connected
  sql_escape none s = (ok (text "NULL"), s)
  sql_escape (some input) s =
      chain (assert_connected plugin (lock s)) (λ _ s'. escaped (escape input s'.session) s')

  -- `preludedb_sql_time_to_timestamp`, the part that writes the time
  unfoldable pub time_to_timestamp : Option Time → Result Bytes
  time_to_timestamp none = ok (text "NULL")
  time_to_timestamp (some t) = do utc ← gmtime t; build_timestamp_string utc

  unfoldable pub time_value : Option Time → Result Bytes
  unfolding time_to_timestamp
  time_value none = err failure
  time_value (some t) = time_to_timestamp (some t)

  abbrev escape_result : Bytes → Result Bytes → Sql Session → Result Bytes × Sql Session
  escape_result output r s =
      chain (r, s) (λ input s₁. chain (sql_escape (some input) s₁) (λ e s₂. (cat output e, s₂)))

  -- `build_criterion_fixed_sql_value`
  unfoldable pub fixed_sql_value :
      Bytes → Value Time → Operator → Sql Session → Result Bytes × Sql Session
  unfolding time_value like_value sql_escape
  fixed_sql_value output (time t) op s = (time_value t >>= λ buf. cat output buf, s)
  fixed_sql_value output (data_value input printed) op s =
      escape_result output (if has_substr op then like_value lib input else printed) s
  fixed_sql_value output (other input printed) op s =
      escape_result output (if has_substr op then like_value lib input else printed) s

  -- `build_criterion_fixed_value`
  unfoldable pub fixed_value :
      Bytes → Bytes → Operator → Value Time → Sql Session → Result Bytes × Sql Session
  unfolding fixed_sql_value
  fixed_value output field op value s =
      chain (fixed_sql_value [] value op s)
        (λ value_str s'. (build_constraint_string output field op value_str, s'))

  -- the loop of `build_criterion_broken_down_time_equal`
  unfoldable pub time_loop :
      Bytes → Operator → Bool → List (TimeConstraint × ℤ) → Bytes → Result Bytes
  time_loop field op prev [] output = ok output
  time_loop field op prev ((type, n) ∷ tbl) output = elim (is_unset n) [
    | true ↦ time_loop field op prev tbl output
    | false ↦ (if prev then cat output (text " AND ") else ok output) >>= λ output'.
        build_time_constraint_string output' field type op n >>= λ output''.
        time_loop field op true tbl output''
  ]

  unfoldable pub broken_down_time_equal : Bytes → Bytes → Operator → Tm → Result Bytes
  unfolding time_loop
  broken_down_time_equal output field op lt = time_loop field op false (time_table lt) output

  unfoldable pub broken_down_time_not_equal : Bytes → Bytes → Tm → Result Bytes
  unfolding broken_down_time_equal
  broken_down_time_not_equal output field lt = do
    output' ← cat output (text "NOT(")
    output'' ← broken_down_time_equal output' field equal lt
    cat output'' (text ")")

  -- `build_criterion_broken_down_time`
  unfoldable pub criterion_time : Bytes → Bytes → Operator → Tm → Result Bytes
  unfolding broken_down_time_equal broken_down_time_not_equal
  criterion_time output field op lt =
      if is_equal op
      then broken_down_time_equal output field op lt
      else (if is_not_equal op then broken_down_time_not_equal output field lt else err query)

  -- `build_criterion_regex`
  unfoldable pub criterion_regex :
      Bytes → Bytes → Operator → Bytes → Sql Session → Result Bytes × Sql Session
  unfolding sql_escape
  criterion_regex output field op pattern_text s =
      chain (sql_escape (some pattern_text) s)
        (λ e s'. (build_constraint_string output field op e, s'))

  -- the branches of `preludedb_sql_build_criterion_string` by the type of the value; `ret` is what
  -- the function returns for another type
  unfoldable pub criterion_value :
      Bytes
      → Bytes
      → Operator
      → Result Bytes
      → CriterionValue Time
      → Sql Session
      → Result Bytes × Sql Session
  unfolding fixed_value criterion_regex criterion_time
  criterion_value output field op ret (fixed value) s = fixed_value output field op value s
  criterion_value output field op ret (regex r) s = criterion_regex output field op r s
  criterion_value output field op ret (broken_down_time lt) s =
      (criterion_time output field op lt, s)
  criterion_value output field op ret other_type s = (ret, s)

  abbrev negated : Result Bytes × Sql Session → Result Bytes × Sql Session
  negated r = chain r (λ output s. (cat output (text ")"), s))

  -- `preludedb_sql_build_criterion_string`
  unfoldable pub build_criterion_string :
      Bytes → Bytes → Operator → CriterionValue Time → Sql Session → Result Bytes × Sql Session
  unfolding criterion_value
  build_criterion_string output field op value s =
      if is_null op || is_not_null op
      then (cat output (field ++ (text " " ++ get_operator_string op)), s)
      else (if has_not op
          then chain
              (
                cat output (
                    text "(" ++ (field ++ (text " " ++ (get_operator_string null ++ text " OR ")))),
                s,
              )
              (λ output' s'. negated (criterion_value output' field op (ok output') value s'))
          else criterion_value output field op (err failure) value s)
