-- ===== src/PathResolve/Inode.antt =====
-- The change time of an inode in plugins/format/classic/classic-path-resolve.c, and in the count of
-- plugins/format/classic/classic.c.
use libpreludedb.Base.{
  AreDistinct, ℕ, ◌≡◌, ◌∙◌, ap, sym, true, false, ◌∷◌, ◌++◌, Bytes, Result, ok, err, text, ◌==◌,
  ◌=ₛ◌, arith,
}
use libpreludedb.Idmef.{StringLib, IsAmple}
use libpreludedb.PathSelection.{idmef_path, Flags}
use libpreludedb.Joins.{ClassIds, PathLib, JoinedTable, Join}
use libpreludedb.PathResolve.{search_path, in_table, path_resolve, object_column_count}
use libpreludedb.PathResolve.Resolvers.{
  select_context, parent_class, child_name, column, default_field,
}
use libpreludedb.PathResolve.Columns.{IsIdmefPath, is_inode_time}
use libpreludedb.PathResolve.Selected.{class_ids}
use libpreludedb.PathResolve.Resolve.{ok_same}

module _ (ids : ClassIds) (lib : StringLib) (ample : IsAmple lib) {IdmefPath : Type 0}
    (paths : PathLib IdmefPath) (class_name : ℕ → Bytes)
    (distinct : AreDistinct (ids.inode ∷ class_ids ids)) (path : IdmefPath)
    (h : IsIdmefPath ids lib ample paths class_name path)
    (inode_time : is_inode_time ids lib ample paths class_name path ≡ true) where
  abbrev c : ℕ
  c = parent_class ids lib paths class_name path

  in_inode : (c == ids.inode) ≡ true
  in_inode = ground arith

  named : (child_name ids lib paths class_name path =ₛ text "change_time") ≡ true
  named = ground arith

  apart : (b : ℕ) → (ids.inode == b) ≡ false → (c == b) ≡ false
  apart b d = let i = in_inode in ground arith

  nested : (paths.depth path == 2) ≡ false
  nested =
      let a = apart ids.alert distinct.0.0 in
      let b = apart ids.heartbeat distinct.0.1.0 in rw (a, b) at (sym h.messages)

  timed : paths.is_time path ≡ true
  timed = h.times ∙ (let i = inode_time in ground arith)

  resolved_field :
      (table output : Bytes)
      → (search_path ids lib paths class_name path).resolve_field_name path select_context table
          output
        ≡ ok (output ++ column table (child_name ids lib paths class_name path))
  unfolding search_path default_field
  resolved_field table output =
      let (al, (hb, (pr, (sn, (we, (ch, (fi, (fa, (ad, _))))))))) = distinct.0 in
      rw
        (
          apart ids.alert al,
          apart ids.heartbeat hb,
          apart ids.process pr,
          apart ids.snmp_service sn,
          apart ids.web_service we,
          apart ids.checksum ch,
          apart ids.file fi,
          apart ids.file_access fa,
          apart ids.additional_data ad,
        )
        (ample output _)

  in_table_lem :
      (output out' : Bytes) (r : Result (JoinedTable IdmefPath) × Join IdmefPath)
      (join' : Join IdmefPath)
      → in_table ids lib paths class_name path select_context output r ≡ (ok out', join')
      → (table : Bytes) × (out' ≡ output ++ column table (child_name ids lib paths class_name path))
  in_table_lem output out' (err e, join) join' eq = cc
  in_table_lem output out' (ok t, join) join' eq = (
    t.aliased_table_name,
    ok_same (
        sym (ap (λ (r : Result Bytes × Join IdmefPath). r.0) eq)
        ∙ resolved_field t.aliased_table_name output),
  )

  -- Where memory suffices, inodes and the classes of the resolvers have different ids, and
  -- libprelude's class tree says of the path what `IsIdmefPath` holds: the change time of an
  -- inode, selected and not grouped by, takes two columns in the count of the format plugin; but
  -- resolving it, if it does not fail, writes one column.
  pub inode_time_columns :
      (join join' : Join IdmefPath) (output out' : Bytes) (flags : Flags)
      → flags.group_by ≡ false
      → path_resolve ids lib paths class_name path select_context join output ≡ (ok out', join')
      → ((table : Bytes) × (out'
            ≡ output ++ column table (child_name ids lib paths class_name path)))
        × (object_column_count ids lib paths class_name flags (idmef_path path) ≡ 2)
  unfolding path_resolve object_column_count
  inode_time_columns join join' output out' flags g e =
      let (_, (_, (_, (_, (_, (_, (_, (_, (ad, _))))))))) = distinct.0 in
      let apart_data = apart ids.additional_data ad in
      (in_table_lem output out' _ join' (rw nested at e), rw (g, apart_data, timed, nested))
