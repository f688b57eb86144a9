-- ===== src/Insert/File.antt =====
-- plugins/format/classic/classic-insert.c: the rows of files and what belongs to them.
use libpreludedb.Base.{ℕ, none, [], ◌∷◌, text, failure}
use libpreludedb.Insert.Call.{Action, ◌>>=◌, ◌>>◌, failing_as}
use libpreludedb.Insert.Classes.{StringRef, Inode, Linkage, FileAccess, Checksum, File}
use libpreludedb.Insert.Row.{
  Database, Index, at, escape_string, get_optional_uint, if_given, insert_all, insert_row,
}
use libpreludedb.Insert.Subject.{insert_user_id}

module _ {St : Type 0} (db : Database St) where
  unfoldable pub insert_given_inode : ℕ → Index → Index → Inode → Action St (Unit {0})
  unfolding ◌>>=◌ failing_as get_optional_uint insert_row
  insert_given_inode message_ident target_index file_index inode = do
    ctime ← failing_as failure (db.time_to_timestamp inode.change_time)
    insert_row db record {
      table = text "Prelude_Inode";
      fields =
          text
            "_message_ident, _parent0_index, _parent1_index, change_time, change_time_gmtoff, number, major_device, minor_device, c_major_device, c_minor_device";
      parent_type = none;
      message_ident = message_ident;
      indexes = target_index ∷ file_index ∷ [];
      columns =
          ctime.time
          ∷ ctime.gmtoff
          ∷ get_optional_uint inode.number
          ∷ get_optional_uint inode.major_device
          ∷ get_optional_uint inode.minor_device
          ∷ get_optional_uint inode.c_major_device
          ∷ get_optional_uint inode.c_minor_device
          ∷ [];
    }

  unfoldable pub insert_linkage : ℕ → Index → Index → Index → Linkage → Action St (Unit {0})
  unfolding ◌>>=◌ escape_string insert_row
  insert_linkage message_ident target_index file_index index linkage = do
    category ← db.escape linkage.category
    name ← escape_string db linkage.name
    path ← escape_string db linkage.path
    insert_row db record {
      table = text "Prelude_Linkage";
      fields = text "_message_ident, _parent0_index, _parent1_index, _index, category, name, path";
      parent_type = none;
      message_ident = message_ident;
      indexes = target_index ∷ file_index ∷ index ∷ [];
      columns = category ∷ name ∷ path ∷ [];
    }

  unfoldable pub insert_file_access_permission :
      ℕ → Index → Index → Index → Index → StringRef → Action St (Unit {0})
  unfolding ◌>>=◌ escape_string insert_row
  insert_file_access_permission message_ident target_index file_index file_access_index perm_index
        perm =
      do
        tmp ← escape_string db perm
        insert_row db record {
          table = text "Prelude_FileAccess_Permission";
          fields =
              text
                "_message_ident, _parent0_index, _parent1_index, _parent2_index, _index, permission";
          parent_type = none;
          message_ident = message_ident;
          indexes = target_index ∷ file_index ∷ file_access_index ∷ perm_index ∷ [];
          columns = tmp ∷ [];
        }

  unfoldable pub insert_file_access : ℕ → Index → Index → Index → FileAccess → Action St (Unit {0})
  unfolding ◌>>◌ insert_row insert_all insert_file_access_permission insert_user_id
  insert_file_access message_ident target_index file_index file_access_index file_access = do
    insert_row db record {
      table = text "Prelude_FileAccess";
      fields = text "_message_ident, _parent0_index, _parent1_index, _index";
      parent_type = none;
      message_ident = message_ident;
      indexes = target_index ∷ file_index ∷ file_access_index ∷ [];
      columns = [];
    }
    insert_all
        (insert_file_access_permission message_ident target_index file_index file_access_index)
        file_access.permissions
    insert_user_id db b'F' message_ident target_index file_index file_access_index (at 0)
        file_access.user_id

  unfoldable pub insert_checksum : ℕ → Index → Index → Index → Checksum → Action St (Unit {0})
  unfolding ◌>>=◌ escape_string insert_row
  insert_checksum message_ident target_index file_index checksum_index checksum = do
    value ← escape_string db checksum.value
    key ← escape_string db checksum.key
    algorithm ← db.escape checksum.algorithm
    insert_row db record {
      table = text "Prelude_Checksum";
      fields =
          text
            "_message_ident, _parent0_index, _parent1_index, _index, value, checksum_key, algorithm";
      parent_type = none;
      message_ident = message_ident;
      indexes = target_index ∷ file_index ∷ checksum_index ∷ [];
      columns = value ∷ key ∷ algorithm ∷ [];
    }

  unfoldable pub insert_file : ℕ → Index → Index → File → Action St (Unit {0})
  unfolding ◌>>=◌ ◌>>◌ escape_string get_optional_uint insert_row insert_all if_given
      insert_file_access insert_linkage insert_given_inode insert_checksum
  insert_file message_ident target_index file_index file = do
    ctime ← db.time_to_timestamp file.create_time
    mtime ← db.time_to_timestamp file.modify_time
    atime ← db.time_to_timestamp file.access_time
    category ← db.escape file.category
    ident ← escape_string db file.ident
    name ← escape_string db file.name
    path ← escape_string db file.path
    file_type ← escape_string db file.file_type
    fstype ← db.escape file.fstype
    insert_row db record {
      table = text "Prelude_File";
      fields =
          text
            "_message_ident, _parent0_index, _index, ident, category, name, path, create_time, create_time_gmtoff, modify_time, modify_time_gmtoff, access_time, access_time_gmtoff, data_size, disk_size, fstype, file_type";
      parent_type = none;
      message_ident = message_ident;
      indexes = target_index ∷ file_index ∷ [];
      columns =
          ident
          ∷ category
          ∷ name
          ∷ path
          ∷ ctime.time
          ∷ ctime.gmtoff
          ∷ mtime.time
          ∷ mtime.gmtoff
          ∷ atime.time
          ∷ atime.gmtoff
          ∷ get_optional_uint file.data_size
          ∷ get_optional_uint file.disk_size
          ∷ fstype
          ∷ file_type
          ∷ [];
    }
    insert_all (insert_file_access message_ident target_index file_index) file.file_accesses
    insert_all (insert_linkage message_ident target_index file_index) file.linkages
    if_given (insert_given_inode message_ident target_index file_index) file.inode
    insert_all (insert_checksum message_ident target_index file_index) file.checksums
