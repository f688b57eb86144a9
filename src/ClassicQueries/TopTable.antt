-- ===== src/ClassicQueries/TopTable.antt =====
-- The top table of the statements of plugins/format/classic/classic.c: it is decided by the paths
-- that join a table, in plugins/format/classic/classic-sql-join.c.
use libpreludedb.Base.{
  ℕ, Bool, none, refl, ◌++◌, ◌≡◌, ◌≢◌, ap, ◌∙◌, sym, true, false, not, ◌&&◌, some, List, [], ◌∷◌,
  Bytes, Result, ok, err, text, >>=-eq-ok, All, ◌==◌, arith,
}
use libpreludedb.Idmef.{ℤ, StringLib, IsAmple}
use libpreludedb.PathSelection.{idmef_path, SelectedPath, PathSelection}
use libpreludedb.PathSelection.Layout.{IsLaidOut}
use libpreludedb.Sql.{Plugin, Sql, sql_query}
use libpreludedb.Criteria.{Operators, Writer}
use libpreludedb.Criteria.Append.{Appends}
use libpreludedb.ClassicCriteria.{absent}
use libpreludedb.SqlSelect.{
  Select, Writers, select_new, separate, object_to_string, add_options, add_selected, select_object,
}
use libpreludedb.SqlSelect.Numbers.{add_all}
use libpreludedb.Joins.{ClassIds, PathLib, Join}
use libpreludedb.PathResolve.{path_resolve, classic_path_resolve, with_join}
use libpreludedb.PathResolve.Resolve.{ok_same}
use libpreludedb.ClassicQueries.{join_new, classic_get_values}
use libpreludedb.Joins.Statement.{left_joins}
use libpreludedb.ClassicQueries.Statement.{
  from_text, distinct_text, modifiers_text, classic_get_values_lem,
}

module _ (ids : ClassIds) (lib : StringLib) {IdmefPath : Type 0} (paths : PathLib IdmefPath)
    (class_name : ℕ → Bytes) (writers : Writers IdmefPath (Join IdmefPath))
    (resolves : (x : SelectedPath IdmefPath) (p : IdmefPath) (join : Join IdmefPath) (out : Bytes)
      → writers.path_resolve x p join out
        ≡ classic_path_resolve ids lib paths class_name x p join out) where
  -- A column of the message itself: a path of two elements whose value is no time.
  abbrev pub IsTopColumn : SelectedPath IdmefPath → Type 0
  IsTopColumn x =
      (p : IdmefPath) × (x.object ≡ some (idmef_path p))
      × ((paths.depth p == 2 && not (paths.is_time p)) ≡ true)

  with_join-kept :
      (r : Result Bytes) (join join' : Join IdmefPath) (out : Bytes)
      → with_join ids lib paths class_name (r, join) ≡ ok (out, join')
      → join' ≡ join
  with_join-kept (err e) join join' out eq = absurd (cc)
  with_join-kept (ok o) join join' out eq = ap (λ r. r.1) (sym (ok_same eq))

  resolve-kept :
      (x : SelectedPath IdmefPath) (p : IdmefPath) (join join' : Join IdmefPath) (out out' : Bytes)
      → x.object ≡ some (idmef_path p)
      → (paths.depth p == 2 && not (paths.is_time p)) ≡ true
      → classic_path_resolve ids lib paths class_name x p join out ≡ ok (out', join')
      → join' ≡ join
  unfolding classic_path_resolve path_resolve
  resolve-kept x p join join' out out' o top eq =
      with_join-kept _ join join' out' (rw (o, top) at eq)

  add_selected-kept :
      (x : SelectedPath IdmefPath) (join join' : Join IdmefPath) (s s' : Select)
      → IsTopColumn x
      → add_selected lib writers x join s ≡ ok (s', join')
      → join' ≡ join
  unfolding add_selected object_to_string
  add_selected-kept x join join' s s' (p, o, top) eq =
      let e₀ : select_object lib writers x (some (idmef_path p)) join s ≡ ok (s', join') =
        sym (ap (λ object. select_object lib writers x object join s) o) ∙ eq in
      let (sep, _, e₁) = >>=-eq-ok (separate lib s.fields) _ e₀ in
      let ((out, join₁), at_out, e₂) =
        >>=-eq-ok (object_to_string lib writers x (idmef_path p) join sep) _ e₁ in
      let t : Select = record s { fields = out } in
      let (s₂, _, e₃) = >>=-eq-ok (add_options lib x.column_count x.flags t) _ e₂ in
      ap (λ r. r.1) (sym (ok_same e₃))
      ∙ resolve-kept x p join join₁ sep out o top (sym (resolves x p join sep) ∙ at_out)

  add_all-kept :
      (xs : List (SelectedPath IdmefPath)) (join join' : Join IdmefPath) (s s' : Select)
      → All IsTopColumn xs
      → add_all lib writers xs join s ≡ ok (s', join')
      → join' ≡ join
  unfolding add_all
  add_all-kept [] join join' s s' h eq = ap (λ r. r.1) (sym (ok_same eq))
  add_all-kept (x ∷ xs) join join' s s' h eq =
      let ((s₁, join₁), at_x, rest) = >>=-eq-ok (add_selected lib writers x join s) _ eq in
      add_all-kept xs join₁ join' s₁ s' h.1 rest ∙ add_selected-kept x join join₁ s s₁ h.0 at_x

  heartbeats :
      (xs : List (SelectedPath IdmefPath)) (join : Join IdmefPath) (select : Select)
      → ids.alert ≢ 0
      → All IsTopColumn xs
      → add_all lib writers xs join_new select_new ≡ ok (select, join)
      → from_text ids join ≡ text "Prelude_Heartbeat AS top_table"
  unfolding text left_joins
  heartbeats xs join select a h eq =
      let kept = add_all-kept xs join_new join select_new select h eq in
      let other : (0 == ids.alert) ≡ false = ground arith in rw (kept, other)

  module _ (ample : IsAmple lib) (plugin : Plugin) (operators : Operators) {Time : Type 0}
      (writer : Writer (plugin.Session) (operators.Operator) Time) (appends : Appends writer)
      (limit_offset : ℤ → ℤ → Bytes → Result Bytes) where
    -- Where memory suffices, and the plugin writes behind the text that it is given: if every
    -- selected path of a laid-out selection is a column of the message itself, of two elements and
    -- no time, all are added, and there are no criteria, then the values are read from the
    -- heartbeats alone, also for paths of an alert: no path decides the top table.
    pub values_top_table :
        (selection : PathSelection IdmefPath) (distinct : Bool) (limit offset : ℤ)
        (sql : Sql (plugin.Session)) (select : Select) (join : Join IdmefPath) (statement : Bytes)
        → ids.alert ≢ 0
        → IsLaidOut selection
        → All IsTopColumn selection.selecteds
        → add_all lib writers selection.selecteds join_new select_new ≡ ok (select, join)
        → limit_offset limit offset (
            text "SELECT "
            ++ (distinct_text distinct
                ++ (select.fields
                    ++ (text " FROM "
                        ++ (text "Prelude_Heartbeat AS top_table" ++ modifiers_text select)))))
          ≡ ok statement
        → classic_get_values ids lib paths class_name plugin operators writer writers limit_offset
            selection absent distinct limit offset sql
          ≡ some (sql_query plugin statement sql)
    values_top_table selection distinct limit offset sql select join statement a laid_out top added
          limited =
        classic_get_values_lem ids lib ample paths class_name plugin operators writer writers
          limit_offset appends selection absent distinct limit offset sql sql select join join none
          statement laid_out added refl
          (rw (heartbeats selection.selecteds join select a top added) limited)
