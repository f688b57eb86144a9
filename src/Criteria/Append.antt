-- ===== src/Criteria/Append.antt =====
-- A criterion string is written behind the text that is there: src/preludedb-sql.c.
use libpreludedb.Base.{
  ap, ◌∙◌, sym, Bool, true, false, List, [], ◌∷◌, Bytes, Result, ok, err, if◌then◌else◌, Bool-cases,
  inl, inr, text, IsAppending, IsAppendingWith, behind, >>=-IsAppending, chain-IsAppendingWith,
  pure-IsAppendingWith, after-IsAppendingWith, ◌||◌, failure, ok-IsAppending, err-IsAppending,
}
use libpreludedb.Idmef.{ℤ, StringLib, IsAmple}
use libpreludedb.Sql.{Plugin}
use libpreludedb.Criteria.{
  Operators, TimeConstraint, Tm, Writer, CriterionValue, fixed, regex, broken_down_time, other_type,
  is_unset, time_loop, time_table, fixed_sql_value, broken_down_time_equal,
  broken_down_time_not_equal, criterion_time, criterion_regex, fixed_value, criterion_value,
  build_criterion_string,
}

-- The plugin writes its constraints behind the text that it is given.
pub record Appends {Session Operator Time : Type 0} (writer : Writer Session Operator Time)
    : Type 0 where
  pub constraint :
      (field : Bytes) (op : Operator) (value : Bytes)
      → IsAppending (λ out. writer.build_constraint_string out field op value)
  pub time_constraint :
      (field : Bytes) (type : TimeConstraint) (op : Operator) (n : ℤ)
      → IsAppending (λ out. writer.build_time_constraint_string out field type op n)

module _ (lib : StringLib) (ample : IsAmple lib) where
  pub cat-IsAppending : (s : Bytes) → IsAppending (λ out. lib.cat out s)
  cat-IsAppending s out = ample out s ∙ sym (ap (behind out) (ample [] s))

module _ (lib : StringLib) (ample : IsAmple lib) (plugin : Plugin) (operators : Operators)
    {Time : Type 0} (writer : Writer (plugin.Session) (operators.Operator) Time)
    (appends : Appends writer) where
  open operators use {Operator, equal, is_null, is_not_null, has_not, is_equal, is_not_equal, null}
  open writer use {get_operator_string}

  separator-IsAppending :
      (prev : Bool) → IsAppending (λ out. if prev then lib.cat out (text " AND ") else ok out)
  separator-IsAppending true = cat-IsAppending lib ample (text " AND ")
  separator-IsAppending false = ok-IsAppending

  time_loop-IsAppending :
      (field : Bytes) (op : Operator) (prev : Bool) (tbl : List (TimeConstraint × ℤ))
      → IsAppending (time_loop lib plugin operators writer field op prev tbl)
  unfolding time_loop
  time_loop-IsAppending field op prev [] out = ok-IsAppending out
  time_loop-IsAppending field op prev ((type, n) ∷ tbl) out = elim (Bool-cases (is_unset n)) [
    | inl h ↦ rw (h, time_loop) (time_loop-IsAppending field op prev tbl out)
    | inr h ↦
        rw (h, time_loop)
          (>>=-IsAppending (λ out. if prev then lib.cat out (text " AND ") else ok out) _
            (separator-IsAppending prev)
            (>>=-IsAppending (λ out. writer.build_time_constraint_string out field type op n) _
              (appends.time_constraint field type op n) (time_loop-IsAppending field op true tbl))
            out)
  ]

  criterion_time-IsAppending :
      (field : Bytes) (op : Operator) (lt : Tm)
      → IsAppending (λ out. criterion_time lib plugin operators writer out field op lt)
  unfolding criterion_time broken_down_time_equal broken_down_time_not_equal
  criterion_time-IsAppending field op lt out = elim (Bool-cases (is_equal op)) [
    | inl h ↦ rw h (time_loop-IsAppending field op false (time_table lt) out)
    | inr h ↦ elim (Bool-cases (is_not_equal op)) [
      | inl h' ↦
          rw (h, h')
            (>>=-IsAppending _ _ (cat-IsAppending lib ample (text "NOT("))
              (>>=-IsAppending _ _ (time_loop-IsAppending field equal false (time_table lt))
                (cat-IsAppending lib ample (text ")")))
              out)
      | inr h' ↦ rw (h, h')
    ]
  ]

  criterion_value-IsAppending :
      (field : Bytes) (op : Operator) (ret : Bytes → Result Bytes) (value : CriterionValue Time)
      → IsAppending ret
      → IsAppendingWith
          (λ out s. criterion_value lib plugin operators writer out field op (ret out) value s)
  unfolding criterion_value fixed_value criterion_regex
  criterion_value-IsAppending field op ret (fixed value) h =
      after-IsAppendingWith (fixed_sql_value lib plugin operators writer [] value op)
        (λ v out s. (writer.build_constraint_string out field op v, s))
        (λ v. pure-IsAppendingWith _ (appends.constraint field op v))
  criterion_value-IsAppending field op ret (regex r) h =
      after-IsAppendingWith _ (λ v out s. (writer.build_constraint_string out field op v, s))
        (λ v. pure-IsAppendingWith _ (appends.constraint field op v))
  criterion_value-IsAppending field op ret (broken_down_time lt) h =
      pure-IsAppendingWith _ (criterion_time-IsAppending field op lt)
  criterion_value-IsAppending field op ret other_type h = pure-IsAppendingWith ret h

  pub build_criterion_string-IsAppending :
      (field : Bytes) (op : Operator) (value : CriterionValue Time)
      → IsAppendingWith
          (λ out s. build_criterion_string lib plugin operators writer out field op value s)
  unfolding build_criterion_string
  build_criterion_string-IsAppending field op value out s =
      elim (Bool-cases (is_null op || is_not_null op)) [
        | inl h ↦ rw h (pure-IsAppendingWith _ (cat-IsAppending lib ample _) out s)
        | inr h ↦ elim (Bool-cases (has_not op)) [
          | inl h' ↦
              rw (h, h')
                (chain-IsAppendingWith _ _ (pure-IsAppendingWith _ (cat-IsAppending lib ample _))
                  (chain-IsAppendingWith _ _
                    (criterion_value-IsAppending field op ok value ok-IsAppending)
                    (pure-IsAppendingWith _ (cat-IsAppending lib ample (text ")"))))
                  out s)
          | inr h' ↦
              rw (h, h')
                (criterion_value-IsAppending field op (λ _. err failure) value
                  (err-IsAppending failure) out s)
        ]
      ]
