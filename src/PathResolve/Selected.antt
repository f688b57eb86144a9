-- ===== src/PathResolve/Selected.antt =====
-- What plugins/format/classic/classic-path-resolve.c writes for a path that is selected.
use libpreludedb.Base.{
  AreDistinct, ℕ, ◌≡◌, refl, ap, ◌∙◌, sym, true, false, ◌||◌, List, [], ◌∷◌, ◌++◌, Bytes, Result,
  ok, length, text, ◌==◌, ◌=ₛ◌, if◌then◌else◌, Bool-cases, ◌⊎◌, inl, inr,
}
use libpreludedb.Idmef.{StringLib, IsAmple}
use libpreludedb.Joins.{ClassIds, PathLib}
use libpreludedb.PathSelection.{idmef_path, Flags}
use libpreludedb.PathResolve.{search_path, object_column_count}
use libpreludedb.PathResolve.Resolvers.{select_context, parent_class, child_name, column}
use libpreludedb.PathResolve.Columns.{
  comma_separated, columns, IsCounted, length-columns, message_field_lem, field_lems,
  file_field_lem, addata_field_lem, untimed, columns_message, columns_file, columns_data, other,
}

abbrev pub class_ids : ClassIds → List ℕ
class_ids ids =
    ids.alert ∷ ids.heartbeat ∷ ids.process ∷ ids.snmp_service ∷ ids.web_service ∷ ids.checksum
    ∷ ids.file ∷ ids.file_access ∷ ids.additional_data ∷ []

module _ (ids : ClassIds) (lib : StringLib) (ample : IsAmple lib) {IdmefPath : Type 0}
    (paths : PathLib IdmefPath) (class_name : ℕ → Bytes) where
  open ids use {
    alert, heartbeat, process, snmp_service, web_service, checksum, file, file_access,
    additional_data,
  }
  open paths use {depth}

  module _ (distinct : AreDistinct (class_ids ids)) (path : IdmefPath) (table output : Bytes)
      (h : IsCounted ids lib ample paths class_name path) where
    abbrev c : ℕ
    c = parent_class ids lib paths class_name path

    abbrev Writes : Type 0
    Writes =
        (search_path ids lib paths class_name path).resolve_field_name path select_context table
          output
        ≡ ok (output ++ comma_separated (columns ids lib ample paths class_name path table))

    abbrev Named : List Bytes → Type 0
    Named cols = columns ids lib ample paths class_name path table ≡ cols

    written :
        {r : Result Bytes} {cols : List Bytes}
        → r ≡ ok (output ++ comma_separated cols)
        → Named cols
        → r ≡ ok (output ++ comma_separated (columns ids lib ample paths class_name path table))
    written e named = e ∙ ap (λ cols. ok (output ++ comma_separated cols)) (sym named)

    writes_message :
        (depth path == 2) ≡ true
        → (c == file) ≡ false
        → (c == additional_data) ≡ false
        → (c == snmp_service) ≡ false
        → (c == checksum) ≡ false
        → (c == alert) ≡ true ⊎ ((c == alert) ≡ false) × ((c == heartbeat) ≡ true)
        → Writes
    unfolding search_path
    writes_message two f a s k e = elim e [
      | inl al ↦ rw al (
          written (message_field_lem ids lib ample paths class_name path table output)
            (columns_message ids lib ample paths class_name path table h two f a s k))
      | inr (al, hb) ↦
          rw (al, hb)
            (written (message_field_lem ids lib ample paths class_name path table output)
              (columns_message ids lib ample paths class_name path table h two f a s k))
    ]

    abbrev n : Bytes
    n = child_name ids lib paths class_name path

    module _ (no_time : paths.is_time path ≡ false) (a : (c == additional_data) ≡ false) where
      pub plain_columns :
          (c == snmp_service) ≡ false → (c == checksum) ≡ false → Named (column table n ∷ [])
      unfolding columns
      plain_columns s k = rw (no_time, a, s, k)

      snmp_columns :
          (c == snmp_service) ≡ true
          → (c == checksum) ≡ false
          → Named (column table (if n =ₛ text "oid" then text "snmp_oid" else n) ∷ [])
      unfolding columns
      snmp_columns s k = rw (no_time, a, s, k)

      checksum_columns :
          (c == snmp_service) ≡ false
          → (c == checksum) ≡ true
          → Named (column table (if n =ₛ text "key" then text "checksum_key" else n) ∷ [])
      unfolding columns
      checksum_columns s k = rw (no_time, a, s, k)

    -- the last entries of the table, and the default
    writes_last :
        (c == alert) ≡ false
        → (c == heartbeat) ≡ false
        → (c == process) ≡ false
        → (c == snmp_service) ≡ false
        → (c == web_service) ≡ false
        → (c == checksum) ≡ false
        → Writes
    unfolding search_path comma_separated
    writes_last al hb p s w k =
        let (plain, _, _) = field_lems ids lib ample paths class_name path table output in
        let at = other ids lib ample paths class_name path table h in
        let no_time = untimed ids lib ample paths class_name path table h al hb in
        let (_, (_, (_, (_, (_, (_, (fi, (fa, _)))))))) = distinct in
        let deep : (depth path == 2) ≡ false = rw (al, hb) at (sym h.messages) in
        elim (Bool-cases (c == file)) [
          | inl f ↦
              rw (al, hb, p, s, w, k, f)
                (written (file_field_lem ids lib ample paths class_name path table output) (
                  columns_file ids lib ample paths class_name path table h deep f
                    (at file additional_data f fi.1.0) s k))
          | inr f ↦ elim (Bool-cases (c == file_access)) [
            | inl x ↦
                rw (al, hb, p, s, w, k, f, x)
                  (written plain
                    (plain_columns (no_time f) (at file_access additional_data x fa.0) s k))
            | inr x ↦ elim (Bool-cases (c == additional_data)) [
              | inl a ↦
                  rw (al, hb, p, s, w, k, f, x, a)
                    (written (addata_field_lem ids lib ample paths class_name path table output)
                      (columns_data ids lib ample paths class_name path table h (no_time f) a s k))
              | inr a ↦
                  rw (al, hb, p, s, w, k, f, x, a) (written plain (plain_columns (no_time f) a s k))
            ]
          ]
        ]

    -- classes that are neither messages nor files: what is known of them all
    writes_other : (c == alert) ≡ false → (c == heartbeat) ≡ false → Writes
    unfolding search_path comma_separated
    writes_other al hb =
        let (plain, snmp, sum) = field_lems ids lib ample paths class_name path table output in
        let at = other ids lib ample paths class_name path table h in
        let no_time = untimed ids lib ample paths class_name path table h al hb in
        let (_, (_, (pr, (sn, (we, (ch, (fi, (fa, _)))))))) = distinct in
        elim (Bool-cases (c == process)) [
          | inl p ↦
              let f = at process file p pr.1.1.1.0 in
              let a = at process additional_data p pr.1.1.1.1.1.0 in
              let s = at process snmp_service p pr.0 in
              let k = at process checksum p pr.1.1.0 in
              rw (al, hb, p) (written plain (plain_columns (no_time f) a s k))
          | inr p ↦ elim (Bool-cases (c == snmp_service)) [
            | inl s ↦
                let f = at snmp_service file s sn.1.1.0 in
                let a = at snmp_service additional_data s sn.1.1.1.1.0 in
                let k = at snmp_service checksum s sn.1.0 in
                rw (al, hb, p, s) (written snmp (snmp_columns (no_time f) a s k))
            | inr s ↦ elim (Bool-cases (c == web_service)) [
              | inl w ↦
                  let f = at web_service file w we.1.0 in
                  let a = at web_service additional_data w we.1.1.1.0 in
                  let k = at web_service checksum w we.0 in
                  rw (al, hb, p, s, w) (written plain (plain_columns (no_time f) a s k))
              | inr w ↦ elim (Bool-cases (c == checksum)) [
                | inl k ↦
                    let f = at checksum file k ch.0 in
                    let a = at checksum additional_data k ch.1.1.0 in
                    rw (al, hb, p, s, w, k) (written sum (checksum_columns (no_time f) a s k))
                | inr k ↦ writes_last al hb p s w k
              ]
            ]
          ]
        ]

    pub two_elements : (c == alert || c == heartbeat) ≡ true → (depth path == 2) ≡ true
    two_elements e = sym h.messages ∙ e

    -- Where memory suffices, the classes have different ids, and libprelude's class tree says of
    -- the path what `IsCounted` holds: a path that is selected writes its columns, with commas
    -- between them, behind the text that is there, and they are as many as the format plugin
    -- counts for a path that is not grouped by.
    pub resolve_field_name_columns :
        (flags : Flags)
        → flags.group_by ≡ false
        → Writes
          × (length (columns ids lib ample paths class_name path table)
              ≡ object_column_count ids lib paths class_name flags (idmef_path path))
    resolve_field_name_columns flags g =
        (writes, length-columns ids lib ample paths class_name path table flags g h)
      where
        at : (a b : ℕ) → (c == a) ≡ true → (a == b) ≡ false → (c == b) ≡ false
        at = other ids lib ample paths class_name path table h

        writes : Writes
        writes =
            let (al, (hb, _)) = distinct in
            elim (Bool-cases (c == alert)) [
              | inl x ↦
                  writes_message (two_elements (rw x refl)) (at alert file x al.1.1.1.1.1.0)
                    (at alert additional_data x al.1.1.1.1.1.1.1.0)
                    (at alert snmp_service x al.1.1.0) (at alert checksum x al.1.1.1.1.0) (inl x)
              | inr x ↦ elim (Bool-cases (c == heartbeat)) [
                | inl y ↦
                    writes_message (two_elements (rw (x, y) refl))
                      (at heartbeat file y hb.1.1.1.1.0)
                      (at heartbeat additional_data y hb.1.1.1.1.1.1.0)
                      (at heartbeat snmp_service y hb.1.0) (at heartbeat checksum y hb.1.1.1.0)
                      (inr (x, y))
                | inr y ↦ writes_other x y
              ]
            ]
