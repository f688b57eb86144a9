-- ===== src/PathResolve/Select.antt =====
-- A path of the classic format in a SELECT statement: src/preludedb-sql-select.c on top of
-- plugins/format/classic/classic-path-resolve.c.
use libpreludedb.Base.{
  AreDistinct, AreDistinct, ℕ, ◌+◌, ◌<◌, ◌^◌, ◌≡◌, ap, ◌∙◌, sym, false, some, [], ◌∷◌, ◌++◌, Bytes,
  Result, ok, err, length, arith, >>=-eq-ok, text, append_assoc,
}
use libpreludedb.Idmef.{StringLib, IsAmple}
use libpreludedb.PathSelection.{idmef_path, Flags, SelectedPath, is_function}
use libpreludedb.SqlSelect.{
  Select, Writers, separate, object_to_string, add_options, select_object, add_selected,
}
use libpreludedb.SqlSelect.Clauses.{append_item, with_options, add_options_lem}
use libpreludedb.Joins.{ClassIds, PathLib, Join}
use libpreludedb.PathResolve.{
  path_resolve, object_column_count, classic_path_resolve, with_join, field_context,
}
use libpreludedb.PathResolve.Resolvers.{select_context}
use libpreludedb.PathResolve.Columns.{comma_separated, columns, IsIdmefPath, is_inode_time}
use libpreludedb.PathResolve.Selected.{class_ids}
use libpreludedb.PathResolve.Resolve.{path_resolve_columns, ok_same}

module _ (ids : ClassIds) (lib : StringLib) (ample : IsAmple lib) {IdmefPath : Type 0}
    (paths : PathLib IdmefPath) (class_name : ℕ → Bytes) (distinct : AreDistinct (class_ids ids))
    (writers : Writers IdmefPath (Join IdmefPath))
    (resolves : (x : SelectedPath IdmefPath) (p : IdmefPath) (join : Join IdmefPath) (out : Bytes)
      → writers.path_resolve x p join out
        ≡ classic_path_resolve ids lib paths class_name x p join out) where
  with_join_ok :
      (r : Result Bytes × Join IdmefPath) (out : Bytes) (join : Join IdmefPath)
      → with_join ids lib paths class_name r ≡ ok (out, join)
      → r ≡ (ok out, join)
  with_join_ok (err e, join') out join eq = cc
  with_join_ok (ok out', join') out join eq = ap (λ r. (ok r.0, r.1)) (ok_same eq)

  positive :
      (flags : Flags) (path : IdmefPath)
      → 0 < object_column_count ids lib paths class_name flags (idmef_path path)
  unfolding object_column_count
  positive flags path = ground arith

  separate_lem :
      (clause item : Bytes) (sep : Bytes)
      → separate lib clause ≡ ok sep
      → sep ++ item ≡ append_item clause item
  separate_lem [] item sep e = ap (λ s. s ++ item) (sym (ok_same e))
  separate_lem (c ∷ clause) item sep e =
      ap (λ s. s ++ item) (ok_same (sym e ∙ ample (c ∷ clause) (text ", ")))
      ∙ append_assoc (c ∷ clause) (text ", ") item

  resolved :
      (x : SelectedPath IdmefPath) (path : IdmefPath) (join join' : Join IdmefPath)
      (out out' : Bytes)
      → x.object ≡ some (idmef_path path)
      → x.flags.group_by ≡ false
      → classic_path_resolve ids lib paths class_name x path join out ≡ ok (out', join')
      → path_resolve ids lib paths class_name path select_context join out ≡ (ok out', join')
  unfolding classic_path_resolve field_context is_function
  resolved x path join join' out out' o g e =
      with_join_ok (path_resolve ids lib paths class_name path select_context join out) out' join'
        (rw (o, g) at e)

  -- Where memory suffices, the classes have different ids, libprelude's class tree says of the
  -- path what `IsIdmefPath` holds, and paths are resolved as in the classic format: a selected path
  -- that is not the change time of an inode, is not grouped by, and has the column count of the
  -- format plugin, if adding it does not fail, adds its columns in one table to the fields of the
  -- statement, and the statement counts as many columns as it got; the numbers are below 2 ^ 31.
  pub add_selected_columns :
      (x : SelectedPath IdmefPath) (path : IdmefPath) (join join' : Join IdmefPath) (s s' : Select)
      → IsIdmefPath ids lib ample paths class_name path
      → is_inode_time ids lib ample paths class_name path ≡ false
      → x.object ≡ some (idmef_path path)
      → x.flags.group_by ≡ false
      → x.column_count ≡ object_column_count ids lib paths class_name x.flags (idmef_path path)
      → s.field_count + x.column_count < 2 ^ 31
      → add_selected lib writers x join s ≡ ok (s', join')
      → (table : Bytes) × (s'.fields
          ≡ append_item s.fields
              (comma_separated (columns ids lib ample paths class_name path table)))
        × (s'.field_count
            ≡ s.field_count + length (columns ids lib ample paths class_name path table))
  unfolding add_selected object_to_string
  add_selected_columns x path join join' s s' h i o g n q e =
      let e₀ : select_object lib writers x (some (idmef_path path)) join s ≡ ok (s', join') =
        sym (ap (λ object. select_object lib writers x object join s) o) ∙ e in
      let (sep, at_sep, e₁) = >>=-eq-ok (separate lib s.fields) _ e₀ in
      let ((out, join₁), at_out, e₂) =
        >>=-eq-ok (object_to_string lib writers x (idmef_path path) join sep) _ e₁ in
      let t : Select = record s { fields = out } in
      let (s₂, at_options, e₃) = >>=-eq-ok (add_options lib x.column_count x.flags t) _ e₂ in
      let run = resolved x path join join₁ sep out o g (sym (resolves x path join sep) ∙ at_out) in
      let (table, fields, count) =
        path_resolve_columns ids lib ample paths class_name distinct path h i join join₁ sep out
          x.flags g run in
      let enough =
        add_options_lem lib ample x.column_count x.flags t (rw n (positive x.flags path)) q in
      let final : with_options x.column_count x.flags t ≡ s' =
        ok_same (sym enough ∙ at_options) ∙ ap (λ r. r.0) (ok_same e₃) in
      (
        table,
        ap (λ (r : Select). r.fields) (sym final) ∙ fields ∙ separate_lem s.fields _ sep at_sep,
        ap (λ (r : Select). r.field_count) (sym final)
            ∙ ap (λ k. s.field_count + k) (n ∙ sym count),
      )
