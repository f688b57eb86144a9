-- ===== src/PathResolve/Resolve.antt =====
-- `_classic_path_resolve` of plugins/format/classic/classic-path-resolve.c for a path that is
-- selected: the columns that it writes and those that plugins/format/classic/classic.c counts.
use libpreludedb.Base.{
  AreDistinct, ℕ, ◌≡◌, refl, ap, ◌∙◌, sym, true, false, ◌||◌, [], ◌++◌, Bytes, Result, ok, err,
  length, text, ◌==◌, Bool-cases, inl, inr,
}
use libpreludedb.Idmef.{StringLib, IsAmple}
use libpreludedb.PathSelection.{idmef_path, Flags}
use libpreludedb.Joins.{ClassIds, PathLib, JoinedTable, Join}
use libpreludedb.PathResolve.{in_table, path_resolve, object_column_count}
use libpreludedb.PathResolve.Resolvers.{select_context, parent_class, default_field}
use libpreludedb.PathResolve.Columns.{
  comma_separated, columns, IsIdmefPath, IsCounted, counted, is_inode_time, length-columns,
  field_lems, other,
}
use libpreludedb.PathResolve.Selected.{class_ids, resolve_field_name_columns, plain_columns}

pub ok_same : {A : Type 0} {a b : A} → ok a ≡ ok b → a ≡ b
ok_same {a = a} e = ap (λ r. elim r [ ok x ↦ x | err _ ↦ a ]) e

module _ (ids : ClassIds) (lib : StringLib) (ample : IsAmple lib) {IdmefPath : Type 0}
    (paths : PathLib IdmefPath) (class_name : ℕ → Bytes) (distinct : AreDistinct (class_ids ids))
    (path : IdmefPath) (idmef : IsIdmefPath ids lib ample paths class_name path)
    (no_inode_time : is_inode_time ids lib ample paths class_name path ≡ false) where
  open ids use {alert, heartbeat, snmp_service, checksum, additional_data}
  open paths use {depth, is_time}

  h : IsCounted ids lib ample paths class_name path
  h = counted ids lib ample paths class_name path idmef no_inode_time

  abbrev c : ℕ
  c = parent_class ids lib paths class_name path

  -- the output is the columns of the path in some table
  abbrev Written : Bytes → Bytes → Type 0
  Written output out' =
      (table : Bytes) × (out'
        ≡ output ++ comma_separated (columns ids lib ample paths class_name path table))

  message_apart :
      (c == alert || c == heartbeat) ≡ true
      → ((c == additional_data) ≡ false) × ((c == snmp_service) ≡ false) × ((c == checksum) ≡ false)
  message_apart e =
      let (al, (hb, _)) = distinct in
      let at = other ids lib ample paths class_name path [] h in
      elim (Bool-cases (c == alert)) [
        | inl x ↦ (
          at alert additional_data x al.1.1.1.1.1.1.1.0,
          at alert snmp_service x al.1.1.0,
          at alert checksum x al.1.1.1.1.0,
        )
        | inr x ↦
            let y : (c == heartbeat) ≡ true = rw x at e in
            (
              at heartbeat additional_data y hb.1.1.1.1.1.1.0,
              at heartbeat snmp_service y hb.1.0,
              at heartbeat checksum y hb.1.1.1.0,
            )
      ]

  top_table_columns :
      (output out' : Bytes)
      → (depth path == 2) ≡ true
      → is_time path ≡ false
      → default_field ids lib paths class_name path select_context (text "top_table") output
        ≡ ok out'
      → Written output out'
  unfolding comma_separated
  top_table_columns output out' two t e =
      let (a, s, k) = message_apart (h.messages ∙ two) in
      let (plain, _, _) =
        field_lems ids lib ample paths class_name path (text "top_table") output in
      (
        text "top_table",
        ok_same (sym e ∙ plain)
            ∙ ap (λ cols. output ++ comma_separated cols)
                (sym (
                  plain_columns ids lib ample paths class_name distinct path (text "top_table")
                    output h t a s k)),
      )

  joined_table_columns :
      (output out' : Bytes) (r : Result (JoinedTable IdmefPath) × Join IdmefPath)
      (join' : Join IdmefPath)
      → in_table ids lib paths class_name path select_context output r ≡ (ok out', join')
      → Written output out'
  joined_table_columns output out' (err e, join) join' eq = cc
  joined_table_columns output out' (ok t, join) join' eq =
      let table = t.aliased_table_name in
      let flags : Flags = record { group_by = false; order_asc = false; order_desc = false } in
      let writes =
        (resolve_field_name_columns ids lib ample paths class_name distinct path table output h
          flags refl).0 in
      (table, ok_same (sym (ap (λ (r : Result Bytes × Join IdmefPath). r.0) eq) ∙ writes))

  -- Where memory suffices, the classes have different ids, and libprelude's class tree says of the
  -- path what `IsIdmefPath` holds: resolving a selected path that is not the change time of an
  -- inode, if it does not fail, writes the columns of the path in one table behind the text that is
  -- there, and they are as many as the format plugin counts for the path where it is not grouped
  -- by. So the columns that the selection reserves are those that the statement returns.
  pub path_resolve_columns :
      (join join' : Join IdmefPath) (output out' : Bytes) (flags : Flags)
      → flags.group_by ≡ false
      → path_resolve ids lib paths class_name path select_context join output ≡ (ok out', join')
      → (table : Bytes) × (out'
          ≡ output ++ comma_separated (columns ids lib ample paths class_name path table))
        × (length (columns ids lib ample paths class_name path table)
            ≡ object_column_count ids lib paths class_name flags (idmef_path path))
  unfolding path_resolve
  path_resolve_columns join join' output out' flags g e =
      let (table, w) = written in
      (table, w, length-columns ids lib ample paths class_name path table flags g h)
    where
      written : Written output out'
      written = elim (Bool-cases (depth path == 2)) [
        | inl two ↦ elim (Bool-cases (is_time path)) [
          | inl t ↦ joined_table_columns output out' _ join' (rw (two, t) at e)
          | inr t ↦
              top_table_columns output out' two t
                (ap (λ (r : Result Bytes × Join IdmefPath). r.0) (rw (two, t) at e))
        ]
        | inr two ↦ joined_table_columns output out' _ join' (rw two at e)
      ]
