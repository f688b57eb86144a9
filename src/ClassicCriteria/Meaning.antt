-- ===== src/ClassicCriteria/Meaning.antt =====
-- The condition that plugins/format/classic/classic-path-resolve.c writes for criteria, read by the
-- precedence of SQL, means what the criteria mean.
use libpreludedb.Base.{
  ℕ, ◌≡◌, refl, ap, ◌∙◌, sym, List, [], ◌∷◌, ◌++◌, Bytes, Result, ok, err, Error, some,
  append_assoc, append-nil, chain, behind_with, IsAppendingWith,
}
use libpreludedb.Idmef.{StringLib, IsAmple}
use libpreludedb.Sql.{Plugin, Sql}
use libpreludedb.Criteria.{Operators, Writer}
use libpreludedb.Criteria.Append.{Appends, build_criterion_string-IsAppending}
use libpreludedb.Joins.{ClassIds, PathLib, Join}
use libpreludedb.PathResolve.{path_resolve}
use libpreludedb.PathResolve.Resolvers.{where_context}
use libpreludedb.ClassicCriteria.{
  Criteria, absent, criteria, Criterion, on_field, path_resolve_criterion, path_resolve_criteria,
}
use libpreludedb.ClassicCriteria.Reading.{
  Truth, yes, ◌and_also◌, and_also_yes, or_else_no, and_also_assoc, Token, test, or_word, opening,
  closing, print, Frame, fresh, operand, operator, read, all_of, meaning, conjuncts, tokens,
}
use libpreludedb.ClassicCriteria.Writing.{test_texts, IsThere, test_texts-IsThere, resolve_tree_lem}

-- a frame with one more conjunct
abbrev with_conjunct : Frame → Truth → Frame
with_conjunct f b = record f { both = f.both and_also b }

module _ (v : Bytes → Truth) where
  -- Criteria that are there are read as one conjunct.
  abbrev Reads : Criteria Bytes → Type 0
  Reads absent = Unit
  Reads (criteria c or and) =
      (rest : List Token) (groups : List Frame) (f : Frame)
      → operand v (tokens (criteria c or and) ++ rest) groups f
        ≡ operator v rest groups (with_conjunct f (meaning v (criteria c or and)))

  -- the tests that AND joins, inside a group
  read_body :
      (c : Bytes) (and : Criteria Bytes)
      → Reads and
      → (rest : List Token) (groups : List Frame) (f : Frame)
      → operand v ((test c ∷ conjuncts and (tokens and)) ++ rest) groups f
        ≡ operator v rest groups (with_conjunct f (v c and_also all_of and (meaning v and)))
  unfolding operand operator
  read_body c absent h rest groups f =
      ap (λ b. operator v rest groups (with_conjunct f b)) (sym (and_also_yes (v c)))
  read_body c (criteria a or and) h rest groups f =
      h rest groups (with_conjunct f (v c))
      ∙ ap (λ b. operator v rest groups (record f { both = b })) (and_also_assoc f.both (v c) _)

  read_alternatives :
      (c : Bytes) (or and : Criteria Bytes) → Reads or → Reads and → Reads (criteria c or and)
  unfolding operand operator tokens meaning
  read_alternatives c absent and ho ha rest groups f =
      read_body c and ha rest groups f
      ∙ ap (λ b. operator v rest groups (with_conjunct f b)) (sym (or_else_no _))
  read_alternatives c (criteria o or' and') and ho ha rest groups f =
      let first = v c and_also all_of and (meaning v and) in
      let body = test c ∷ conjuncts and (tokens and) in
      let ends = closing ∷ (closing ∷ []) in
      let tail = closing ∷ (or_word ∷ (opening ∷ (tokens (criteria o or' and') ++ ends))) in
      ap (λ ts. operand v ts (fresh ∷ (f ∷ groups)) fresh) (append_assoc body tail rest)
      ∙ read_body c and ha (tail ++ rest) (fresh ∷ (f ∷ groups)) fresh
      ∙ ap (λ ts. operand v ts (record { either = first; both = yes } ∷ (f ∷ groups)) fresh)
          (append_assoc (tokens (criteria o or' and')) ends rest)
      ∙ ho (ends ++ rest) (record { either = first; both = yes } ∷ (f ∷ groups)) fresh

  reads : (t : Criteria Bytes) → Reads t
  reads absent = tt
  reads (criteria c or and) = read_alternatives c or and (reads or) (reads and)

-- SQL reads the condition of criteria as what they mean.
pub read-tokens :
    (v : Bytes → Truth) (c : Bytes) (or and : Criteria Bytes)
    → read v (tokens (criteria c or and)) ≡ some (meaning v (criteria c or and))
unfolding read operator
read-tokens v c or and =
    ap (λ ts. operand v ts [] fresh) (sym (append-nil (tokens (criteria c or and))))
    ∙ reads v (criteria c or and) [] [] fresh

read_written :
    (texts : Criteria Bytes)
    → IsThere texts
    → (v : Bytes → Truth) → read v (tokens texts) ≡ some (meaning v texts)
read_written absent p v = absurd p
read_written (criteria t or and) p v = read-tokens v t or and

module _ (ids : ClassIds) (lib : StringLib) (ample : IsAmple lib) {IdmefPath : Type 0}
    (paths : PathLib IdmefPath) (class_name : ℕ → Bytes) (plugin : Plugin) (operators : Operators)
    {Time : Type 0} (writer : Writer (plugin.Session) (operators.Operator) Time)
    (appends : Appends writer) where
  abbrev pub resolve_test :
      Criterion IdmefPath (operators.Operator) Time
      → Bytes
      → Join IdmefPath × Sql (plugin.Session)
      → Result Bytes × (Join IdmefPath × Sql (plugin.Session))
  resolve_test = path_resolve_criterion ids lib paths class_name plugin operators writer

  on_field-behind :
      (c : Criterion IdmefPath (operators.Operator) Time) (out : Bytes) (sql : Sql (plugin.Session))
      (r : Result Bytes × Join IdmefPath)
      → on_field ids lib paths class_name plugin operators writer c out sql r
        ≡ behind_with out (on_field ids lib paths class_name plugin operators writer c [] sql r)
  on_field-behind c out sql (err e, join) = refl
  on_field-behind c out sql (ok field, join) =
      ap (λ r. (r.0, (join, r.1)))
        (build_criterion_string-IsAppending lib ample plugin operators writer appends field
          c.operator c.value out sql)

  pub path_resolve_criterion-IsAppending :
      (c : Criterion IdmefPath (operators.Operator) Time) → IsAppendingWith (resolve_test c)
  unfolding path_resolve_criterion
  path_resolve_criterion-IsAppending c out (join, sql) =
      on_field-behind c out sql (path_resolve ids lib paths class_name c.path where_context join [])

  -- what the tests make of the criteria, or the error of one of them
  pub path_resolve_criteria_lem :
      (c : Criterion IdmefPath (operators.Operator) Time)
      (or and : Criteria (Criterion IdmefPath (operators.Operator) Time)) (out : Bytes)
      (s : Join IdmefPath × Sql (plugin.Session))
      → path_resolve_criteria ids lib paths class_name plugin operators writer
          (criteria c or and)
          out
          s
        ≡ chain
            (test_texts resolve_test (criteria c or and) s)
            (λ texts s'. (ok (out ++ print (tokens texts)), s'))
  unfolding path_resolve_criteria
  path_resolve_criteria_lem c or and out s =
      resolve_tree_lem resolve_test lib ample path_resolve_criterion-IsAppending c or and out s

  -- Where memory suffices, and the plugin writes behind the text that it is given, criteria whose
  -- tests are all written without an error are written behind the text that is there, made of these
  -- tests. Read with AND before OR, the text is a condition, and its value is that of the criteria:
  -- the criterion and what AND joins to it, or else what OR joins to it, whatever the tests' values.
  pub path_resolve_criteria-meaning :
      (c : Criterion IdmefPath (operators.Operator) Time)
      (or and : Criteria (Criterion IdmefPath (operators.Operator) Time)) (out : Bytes)
      (s s' : Join IdmefPath × Sql (plugin.Session)) (texts : Criteria Bytes) (v : Bytes → Truth)
      → test_texts resolve_test (criteria c or and) s ≡ (ok texts, s')
      → (path_resolve_criteria ids lib paths class_name plugin operators writer
            (criteria c or and)
            out
            s
          ≡ (ok (out ++ print (tokens texts)), s'))
        × (read v (tokens texts) ≡ some (meaning v texts))
  path_resolve_criteria-meaning c or and out s s' texts v eq = (
    path_resolve_criteria_lem c or and out s
        ∙ ap (λ r. chain r (λ texts s'. (ok (out ++ print (tokens texts)), s'))) eq,
    read_written texts (test_texts-IsThere resolve_test c or and s eq) v,
  )

  -- Where memory suffices, and the plugin writes behind the text that it is given, criteria fail as
  -- the first of their tests that fails, in the order criterion, AND, OR.
  pub path_resolve_criteria_error :
      (c : Criterion IdmefPath (operators.Operator) Time)
      (or and : Criteria (Criterion IdmefPath (operators.Operator) Time)) (out : Bytes)
      (s s' : Join IdmefPath × Sql (plugin.Session)) (e : Error)
      → test_texts resolve_test (criteria c or and) s ≡ (err e, s')
      → path_resolve_criteria ids lib paths class_name plugin operators writer
          (criteria c or and)
          out
          s
        ≡ (err e, s')
  path_resolve_criteria_error c or and out s s' e eq =
      path_resolve_criteria_lem c or and out s
      ∙ ap (λ r. chain r (λ texts s'. (ok (out ++ print (tokens texts)), s'))) eq
