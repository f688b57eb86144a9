-- ===== src/PathResolve/Columns.antt =====
-- The columns that are selected for a path, in plugins/format/classic/classic-path-resolve.c, and
-- their number in plugins/format/classic/classic.c.
use libpreludedb.Base.{
  ℕ, Bool, ◌≡◌, true, false, ◌&&◌, ◌||◌, List, [], ◌∷◌, ◌++◌, Bytes, ok, text, length, ◌==◌, ◌=ₛ◌,
  if◌then◌else◌, Bool-cases, inl, inr, arith,
}
use libpreludedb.Idmef.{StringLib, IsAmple}
use libpreludedb.PathSelection.{idmef_path, Flags}
use libpreludedb.Joins.{ClassIds, PathLib}
use libpreludedb.PathResolve.{object_column_count}
use libpreludedb.PathResolve.Resolvers.{
  select_context, is_message_time, is_file_time, column, parent_class, child_name, default_field,
  message_field, snmp_field, checksum_field, file_field, addata_field,
}

unfoldable pub comma_separated : List Bytes → Bytes
comma_separated [] = []
comma_separated (x ∷ []) = x
comma_separated (x ∷ y ∷ xs) = x ++ (text ", " ++ comma_separated (y ∷ xs))

module _ (ids : ClassIds) (lib : StringLib) (ample : IsAmple lib) {IdmefPath : Type 0}
    (paths : PathLib IdmefPath) (class_name : ℕ → Bytes) where
  open ids use {
    alert, heartbeat, process, snmp_service, web_service, checksum, file, file_access,
    additional_data, inode,
  }
  open paths use {depth, is_time, is_data}

  -- the column of a value that takes one
  abbrev pub single : IdmefPath → Bytes
  single path =
      let n = child_name ids lib paths class_name path in
      let c = parent_class ids lib paths class_name path in
      if c == snmp_service && n =ₛ text "oid"
      then text "snmp_oid"
      else (if c == checksum && n =ₛ text "key" then text "checksum_key" else n)

  -- The columns that hold a value: a time has its offset, and the time of a message its
  -- microseconds; additional data has its type.
  unfoldable pub columns : IdmefPath → Bytes → List Bytes
  columns path table =
      let n = child_name ids lib paths class_name path in
      let c = parent_class ids lib paths class_name path in
      if is_time path
      then (if depth path == 2
          then column table (text "time")
            ∷ column table (text "gmtoff")
            ∷ column table (text "usec")
            ∷ []
          else column table n ∷ column table (n ++ text "_gmtoff") ∷ [])
      else (if c == additional_data && is_data path
          then column table n ∷ column table (text "type") ∷ []
          else column table (single path) ∷ [])

  -- the change time of an inode
  abbrev pub is_inode_time : IdmefPath → Bool
  is_inode_time path =
      parent_class ids lib paths class_name path == inode
      && child_name ids lib paths class_name path =ₛ text "change_time"

  -- What libprelude's class tree says of a path: which classes are those of messages, which values
  -- are times, and which are data.
  pub record IsIdmefPath (path : IdmefPath) : Type 0 where
    pub messages :
        (parent_class ids lib paths class_name path == alert
          || parent_class ids lib paths class_name path == heartbeat)
        ≡ (depth path == 2)
    pub times : is_time path ≡ (
        depth path == 2 && is_message_time (child_name ids lib paths class_name path)
        || parent_class ids lib paths class_name path == file
          && is_file_time (child_name ids lib paths class_name path)
        || is_inode_time path)
    pub exclusive : (is_time path && is_data path) ≡ false
    pub data_values :
        (parent_class ids lib paths class_name path == additional_data && is_data path) ≡ (
          parent_class ids lib paths class_name path == additional_data
          && child_name ids lib paths class_name path =ₛ text "data")

  -- The same of a path that is not the change time of an inode.
  pub record IsCounted (path : IdmefPath) : Type 0 where
    pub messages :
        (parent_class ids lib paths class_name path == alert
          || parent_class ids lib paths class_name path == heartbeat)
        ≡ (depth path == 2)
    pub times : is_time path ≡ (
        depth path == 2 && is_message_time (child_name ids lib paths class_name path)
        || parent_class ids lib paths class_name path == file
          && is_file_time (child_name ids lib paths class_name path))
    pub exclusive : (is_time path && is_data path) ≡ false
    pub data_values :
        (parent_class ids lib paths class_name path == additional_data && is_data path) ≡ (
          parent_class ids lib paths class_name path == additional_data
          && child_name ids lib paths class_name path =ₛ text "data")

  pub counted : (path : IdmefPath) → IsIdmefPath path → is_inode_time path ≡ false → IsCounted path
  counted path h i = record {
    messages = h.messages;
    times = ground (arith, h.times, i);
    exclusive = h.exclusive;
    data_values = h.data_values;
  }

  pub length-columns :
      (path : IdmefPath) (table : Bytes) (flags : Flags)
      → flags.group_by ≡ false
      → IsCounted path
      → length (columns path table)
        ≡ object_column_count ids lib paths class_name flags (idmef_path path)
  unfolding columns object_column_count
  length-columns path table flags g h = ground (arith, h.exclusive)

  pub message_field_lem :
      (path : IdmefPath) (table output : Bytes)
      → message_field ids lib paths class_name path select_context table output
        ≡ ok (
            output
            ++ comma_separated (
                if is_message_time (child_name ids lib paths class_name path)
                then column table (text "time")
                  ∷ column table (text "gmtoff")
                  ∷ column table (text "usec")
                  ∷ []
                else column table (child_name ids lib paths class_name path) ∷ []))
  unfolding message_field comma_separated
  message_field_lem path table output =
      elim (Bool-cases (is_message_time (child_name ids lib paths class_name path))) [
        | inl e ↦ rw e (ample output _)
        | inr e ↦ rw e (ample output _)
      ]

  pub field_lems :
      (path : IdmefPath) (table output : Bytes)
      → (default_field ids lib paths class_name path select_context table output
          ≡ ok (output ++ column table (child_name ids lib paths class_name path)))
        × (snmp_field ids lib paths class_name path select_context table output
            ≡ ok (
                output
                ++ column table (
                    if child_name ids lib paths class_name path =ₛ text "oid"
                    then text "snmp_oid"
                    else child_name ids lib paths class_name path)))
        × (checksum_field ids lib paths class_name path select_context table output
            ≡ ok (
                output
                ++ column table (
                    if child_name ids lib paths class_name path =ₛ text "key"
                    then text "checksum_key"
                    else child_name ids lib paths class_name path)))
  unfolding default_field snmp_field checksum_field
  field_lems path table output = (ample output _, ample output _, ample output _)

  pub file_field_lem :
      (path : IdmefPath) (table output : Bytes)
      → file_field ids lib paths class_name path select_context table output
        ≡ ok (
            output
            ++ comma_separated (
                if is_file_time (child_name ids lib paths class_name path)
                then column table (child_name ids lib paths class_name path)
                  ∷ column table (child_name ids lib paths class_name path ++ text "_gmtoff")
                  ∷ []
                else column table (child_name ids lib paths class_name path) ∷ []))
  unfolding file_field comma_separated
  file_field_lem path table output =
      elim (Bool-cases (is_file_time (child_name ids lib paths class_name path))) [
        | inl e ↦ rw e (ample output _)
        | inr e ↦ rw e (ample output _)
      ]

  pub addata_field_lem :
      (path : IdmefPath) (table output : Bytes)
      → addata_field ids lib paths class_name path select_context table output
        ≡ ok (
            output
            ++ comma_separated (
                if child_name ids lib paths class_name path =ₛ text "data"
                then column table (child_name ids lib paths class_name path)
                  ∷ column table (text "type")
                  ∷ []
                else column table (child_name ids lib paths class_name path) ∷ []))
  unfolding addata_field comma_separated
  addata_field_lem path table output =
      elim (Bool-cases (child_name ids lib paths class_name path =ₛ text "data")) [
        | inl e ↦ rw e (ample output _)
        | inr e ↦ rw e (ample output _)
      ]

  module _ (path : IdmefPath) (table : Bytes) (h : IsCounted path) where
    abbrev c : ℕ
    c = parent_class ids lib paths class_name path

    abbrev n : Bytes
    n = child_name ids lib paths class_name path

    -- away from messages and files nothing is a time
    pub untimed :
        (c == alert) ≡ false → (c == heartbeat) ≡ false → (c == file) ≡ false → is_time path ≡ false
    untimed a b f = ground (arith, h.times, h.messages)

    pub columns_message :
        (depth path == 2) ≡ true
        → (c == file) ≡ false
        → (c == additional_data) ≡ false
        → (c == snmp_service) ≡ false
        → (c == checksum) ≡ false
        → columns path table ≡ (
            if is_message_time n
            then column table (text "time")
              ∷ column table (text "gmtoff")
              ∷ column table (text "usec")
              ∷ []
            else column table n ∷ [])
    unfolding columns
    columns_message two f a s k =
        let t : is_time path ≡ is_message_time n = ground (arith, h.times) in rw (t, two, a, s, k)

    pub columns_file :
        (depth path == 2) ≡ false
        → (c == file) ≡ true
        → (c == additional_data) ≡ false
        → (c == snmp_service) ≡ false
        → (c == checksum) ≡ false
        → columns path table ≡ (
            if is_file_time n
            then column table n ∷ column table (n ++ text "_gmtoff") ∷ []
            else column table n ∷ [])
    unfolding columns
    columns_file two f a s k =
        let t : is_time path ≡ is_file_time n = ground (arith, h.times) in rw (t, two, a, s, k)

    pub columns_plain :
        is_time path ≡ false
        → (c == additional_data) ≡ false
        → columns path table ≡ column table (single path) ∷ []
    unfolding columns
    columns_plain t a = rw (t, a)

    pub columns_data :
        is_time path ≡ false
        → (c == additional_data) ≡ true
        → (c == snmp_service) ≡ false
        → (c == checksum) ≡ false
        → columns path table ≡ (
            if n =ₛ text "data"
            then column table n ∷ column table (text "type") ∷ []
            else column table n ∷ [])
    unfolding columns
    columns_data t a s k =
        let v : is_data path ≡ (n =ₛ text "data") = rw a at h.data_values in rw (t, a, v, s, k)

    pub other : (a b : ℕ) → (c == a) ≡ true → (a == b) ≡ false → (c == b) ≡ false
    other a b e d = ground arith
