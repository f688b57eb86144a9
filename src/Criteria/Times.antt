-- ===== src/Criteria/Times.antt =====
-- The criteria on the parts of a time, in src/preludedb-sql.c.
use libpreludedb.Base.{
  conjunction, ◌≡◌, ap, ◌∙◌, sym, Bool, true, false, List, [], ◌∷◌, ◌++◌, Bytes, Result, ok, text,
  if◌then◌else◌, Bool-cases, inl, inr, append_assoc, append-nil,
}
use libpreludedb.Idmef.{ℤ, StringLib, IsAmple}
use libpreludedb.Sql.{Plugin, Sql}
use libpreludedb.Criteria.{
  Operators, TimeConstraint, Tm, Writer, broken_down_time, is_unset, time_loop, time_table,
  broken_down_time_equal, broken_down_time_not_equal, criterion_time, criterion_value,
  build_criterion_string,
}

-- The constraints on the parts that are given.
unfoldable pub constraints : (TimeConstraint → ℤ → Bytes) → List (TimeConstraint × ℤ) → List Bytes
constraints write [] = []
constraints write ((type, n) ∷ tbl) =
    (if is_unset n then [] else write type n ∷ []) ++ constraints write tbl

module _ (lib : StringLib) (ample : IsAmple lib) (plugin : Plugin) (operators : Operators)
    {Time : Type 0} (writer : Writer (plugin.Session) (operators.Operator) Time) (field : Bytes)
    (op : operators.Operator) (write : TimeConstraint → ℤ → Bytes) where
  open operators use {is_null, is_not_null, has_not, is_equal}

  -- The plugin writes the constraints of a table behind the text that it is given.
  abbrev pub Writes : List (TimeConstraint × ℤ) → Type 0
  Writes [] = Unit
  Writes ((type, n) ∷ tbl) =
      ((output : Bytes)
        → writer.build_time_constraint_string output field type op n ≡ ok (output ++ write type n))
      × Writes tbl

  abbrev separated : Bool → Bytes → Result Bytes
  separated prev output = if prev then lib.cat output (text " AND ") else ok output

  separated_lem :
      (prev : Bool) (output : Bytes)
      → separated prev output ≡ ok (output ++ (if prev then text " AND " else []))
  separated_lem true output = ample output (text " AND ")
  separated_lem false output = ap ok (sym (append-nil output))

  time_loop_lem :
      (prev : Bool) (tbl : List (TimeConstraint × ℤ)) (output : Bytes)
      → Writes tbl
      → time_loop lib plugin operators writer field op prev tbl output
        ≡ ok (output ++ conjunction prev (constraints write tbl))
  unfolding time_loop conjunction constraints
  time_loop_lem prev [] output h = ap ok (sym (append-nil output))
  time_loop_lem prev ((type, n) ∷ tbl) output h = elim (Bool-cases (is_unset n)) [
    | inl e ↦ rw (e, time_loop) (time_loop_lem prev tbl output h.1)
    | inr e ↦
        let sep = if prev then text " AND " else [] in
        let item = write type n in
        rw (e, time_loop)
          (rw (separated_lem prev output) (
            rw (h.0 (output ++ sep)) (
              time_loop_lem true tbl ((output ++ sep) ++ item) h.1
              ∙ ap ok (append_assoc (output ++ sep) item _ ∙ append_assoc output sep _))))
  ]

  -- the parts that are given
  abbrev pub parts : Tm → Bytes
  parts lt = conjunction false (constraints write (time_table lt))

  broken_down_time_equal_lem :
      (output : Bytes) (lt : Tm)
      → Writes (time_table lt)
      → broken_down_time_equal lib plugin operators writer output field op lt
        ≡ ok (output ++ parts lt)
  unfolding broken_down_time_equal
  broken_down_time_equal_lem output lt h = time_loop_lem false (time_table lt) output h

  -- Where memory suffices, and the plugin writes each constraint of the time behind the text that
  -- it is given, a criterion that compares a broken-down time by the equality operator is the
  -- constraints of the parts that are given, with AND between them.
  pub criterion_string_time_equal :
      (output : Bytes) (lt : Tm) (s : Sql (plugin.Session))
      → Writes (time_table lt)
      → is_null op ≡ false
      → is_not_null op ≡ false
      → has_not op ≡ false
      → is_equal op ≡ true
      → build_criterion_string lib plugin operators writer output field op (broken_down_time lt) s
        ≡ (ok (output ++ parts lt), s)
  unfolding build_criterion_string criterion_value criterion_time
  criterion_string_time_equal output lt s h a b c d =
      rw (a, b, c, d) (ap (λ r. (r, s)) (broken_down_time_equal_lem output lt h))

module _ (lib : StringLib) (ample : IsAmple lib) (plugin : Plugin) (operators : Operators)
    {Time : Type 0} (writer : Writer (plugin.Session) (operators.Operator) Time) (field : Bytes)
    (write : TimeConstraint → ℤ → Bytes) where
  open operators use {Operator, null, equal, is_null, is_not_null, has_not, is_equal, is_not_equal}
  open writer use {get_operator_string}

  -- the parts that are given, compared for equality
  abbrev equal_parts : Tm → Bytes
  equal_parts = parts lib ample plugin operators writer field equal write

  broken_down_time_not_equal_lem :
      (output : Bytes) (lt : Tm)
      → Writes lib ample plugin operators writer field equal write (time_table lt)
      → broken_down_time_not_equal lib plugin operators writer output field lt
        ≡ ok (output ++ (text "NOT(" ++ (equal_parts lt ++ text ")")))
  unfolding broken_down_time_not_equal
  broken_down_time_not_equal_lem output lt h = rw (ample output (text "NOT(")) (
      rw
        (broken_down_time_equal_lem lib ample plugin operators writer field equal write
          (output ++ text "NOT(") lt h)
        (ample _ (text ")")
          ∙ ap ok (append_assoc (output ++ text "NOT(") _ _ ∙ append_assoc output _ _)))

  -- Where memory suffices, and the plugin writes each constraint of the time behind the text that
  -- it is given, a criterion that compares a broken-down time by the inequality operator accepts a
  -- column without a value, and one for which some part that is given differs; its parentheses are
  -- closed.
  pub criterion_string_time_not_equal :
      (op : Operator) (output : Bytes) (lt : Tm) (s : Sql (plugin.Session))
      → Writes lib ample plugin operators writer field equal write (time_table lt)
      → is_null op ≡ false
      → is_not_null op ≡ false
      → has_not op ≡ true
      → is_equal op ≡ false
      → is_not_equal op ≡ true
      → build_criterion_string lib plugin operators writer output field op (broken_down_time lt) s
        ≡ (
          ok (
              output
              ++ (text "("
                  ++ (field
                      ++ (text " "
                          ++ (get_operator_string null
                              ++ (text " OR "
                                  ++ (text "NOT("
                                      ++ (equal_parts lt ++ (text ")" ++ text ")"))))))))),
          s,
        )
  unfolding build_criterion_string criterion_value criterion_time
  criterion_string_time_not_equal op output lt s h a b c d e =
      let opening =
        text "(" ++ (field ++ (text " " ++ (get_operator_string null ++ text " OR "))) in
      rw (a, b, c, d, e)
        (rw (ample output opening) (
          rw (broken_down_time_not_equal_lem (output ++ opening) lt h)
            (ap (λ r. (r, s)) (ample _ (text ")") ∙ ap ok (simp append_assoc)))))
