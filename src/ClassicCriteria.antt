-- ===== src/ClassicCriteria.antt =====
-- plugins/format/classic/classic-path-resolve.c: the condition of a statement from the criteria of
-- a client, a tree whose nodes have a criterion and what is joined to it by AND and by OR.
pub mod Reading
pub mod Writing
pub mod Meaning
mod Tests
use libpreludedb.Base.{ℕ, ◌++◌, [], Bytes, Result, ok, err, fault, text, chain}
use libpreludedb.Idmef.{StringLib}
use libpreludedb.Sql.{Plugin, Sql}
use libpreludedb.Criteria.{Operators, Writer, CriterionValue, build_criterion_string}
use libpreludedb.Joins.{ClassIds, PathLib, Join}
use libpreludedb.PathResolve.{path_resolve}
use libpreludedb.PathResolve.Resolvers.{where_context}

-- libprelude's `idmef_criterion_t`
pub record Criterion (IdmefPath Operator Time : Type 0) : Type 0 where
  pub path : IdmefPath
  pub operator : Operator
  pub value : CriterionValue Time

-- libprelude's `idmef_criteria_t`: a criterion, the criteria of `idmef_criteria_get_or` and those
-- of `idmef_criteria_get_and`; `absent` is a null pointer.
pub data Criteria (A : Type 0) : Type 0 where
  absent : Criteria A
  criteria : A → Criteria A → Criteria A → Criteria A

-- `if ( or )` before the criterion
abbrev pub open_or : StringLib → {A : Type 0} → Criteria A → Bytes → Result Bytes
open_or lib absent output = ok output
open_or lib (criteria c or and) output = lib.cat output (text "((")

module _ {St : Type 0} (lib : StringLib) where
  open lib use {cat}

  -- `if ( and )`: `rest` is the call on it
  abbrev pub with_and :
      {A : Type 0} → Criteria A → (Bytes → St → Result Bytes × St) → Bytes → St → Result Bytes × St
  with_and absent rest output s = (ok output, s)
  with_and (criteria c or and) rest output s = chain (cat output (text " AND "), s) rest

  -- `if ( or )` behind the criterion
  abbrev pub with_or :
      {A : Type 0} → Criteria A → (Bytes → St → Result Bytes × St) → Bytes → St → Result Bytes × St
  with_or absent rest output s = (ok output, s)
  with_or (criteria c or and) rest output s =
      chain (cat output (text ") OR ("), s)
        (λ output' s'. chain (rest output' s') (λ output'' s''. (cat output'' (text "))"), s'')))

  -- `classic_path_resolve_criteria`, where `resolve` is `classic_path_resolve_criterion`
  unfoldable pub resolve_tree :
      {A : Type 0}
      → (A → Bytes → St → Result Bytes × St)
      → Criteria A
      → Bytes
      → St
      → Result Bytes × St
  resolve_tree resolve absent output s = (err fault, s)
  resolve_tree resolve (criteria c or and) output s =
      let and_text = resolve_tree resolve and in
      let or_text = resolve_tree resolve or in
      chain (open_or lib or output, s)
        (λ output₁ s₁.
          chain (resolve c output₁ s₁)
            (λ output₂ s₂. chain (with_and and and_text output₂ s₂) (with_or or or_text)))

module _ (ids : ClassIds) (lib : StringLib) {IdmefPath : Type 0} (paths : PathLib IdmefPath)
    (class_name : ℕ → Bytes) (plugin : Plugin) (operators : Operators) {Time : Type 0}
    (writer : Writer (plugin.Session) (operators.Operator) Time) where
  -- The tables that are joined so far, and the connection.
  abbrev pub Resolving : Type 0
  Resolving = Join IdmefPath × Sql (plugin.Session)

  abbrev beside : Join IdmefPath → Result Bytes × Sql (plugin.Session) → Result Bytes × Resolving
  beside join (r, sql) = (r, (join, sql))

  abbrev pub on_field :
      Criterion IdmefPath (operators.Operator) Time
      → Bytes
      → Sql (plugin.Session)
      → Result Bytes × Join IdmefPath
      → Result Bytes × Resolving
  on_field criterion output sql (err e, join) = (err e, (join, sql))
  on_field criterion output sql (ok field_name, join) = beside join (
      build_criterion_string lib plugin operators writer output field_name criterion.operator
        criterion.value sql)

  -- `classic_path_resolve_criterion`
  unfoldable pub path_resolve_criterion :
      Criterion IdmefPath (operators.Operator) Time → Bytes → Resolving → Result Bytes × Resolving
  path_resolve_criterion criterion output (join, sql) =
      on_field criterion output sql
        (path_resolve ids lib paths class_name criterion.path where_context join [])

  -- `classic_path_resolve_criteria`
  unfoldable pub path_resolve_criteria :
      Criteria (Criterion IdmefPath (operators.Operator) Time)
      → Bytes
      → Resolving
      → Result Bytes × Resolving
  unfolding resolve_tree
  path_resolve_criteria = resolve_tree lib path_resolve_criterion
