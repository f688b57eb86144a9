-- ===== src/Insert/Steps/File.antt =====
-- plugins/format/classic/classic-insert.c: the steps of the insertion of files.
use libpreludedb.Base.{ℕ, Option, none, some, Bytes, text}
use libpreludedb.Insert.Classes.{StringRef, Inode, Linkage, FileAccess, Checksum, File}
use libpreludedb.Insert.Row.{Index, Database}
use libpreludedb.Insert.File.{
  insert_given_inode, insert_linkage, insert_file_access_permission, insert_file_access,
  insert_checksum, insert_file,
}
use libpreludedb.Insert.Steps.{Inserts, insertion}
use libpreludedb.Insert.Steps.Subject.{insert_user_id-Inserts}

abbrev pub AllowsFile : (Bytes → Option ℕ → Type 0) → Type 0
AllowsFile Allowed =
    (Allowed (text "Prelude_File") none)
    × (Allowed (text "Prelude_Inode") none)
    × (Allowed (text "Prelude_Linkage") none)
    × (Allowed (text "Prelude_FileAccess") none)
    × (Allowed (text "Prelude_FileAccess_Permission") none)
    × (Allowed (text "Prelude_Checksum") none)
    × (Allowed (text "Prelude_UserId") (some b'F'))

module _ {St : Type 0} (db : Database St) (Allowed : Bytes → Option ℕ → Type 0) (ident : ℕ) where
  insert_given_inode-Inserts :
      (i j : Index) (v : Inode)
      → Allowed (text "Prelude_Inode") none
      → Inserts db Allowed ident (insert_given_inode db ident i j v)
  unfolding insert_given_inode
  insert_given_inode-Inserts i j v h = search (insertion) depth 30

  insert_linkage-Inserts :
      (i j k : Index) (v : Linkage)
      → Allowed (text "Prelude_Linkage") none
      → Inserts db Allowed ident (insert_linkage db ident i j k v)
  unfolding insert_linkage
  insert_linkage-Inserts i j k v h = search (insertion) depth 30

  insert_file_access_permission-Inserts :
      (i j k l : Index) (v : StringRef)
      → Allowed (text "Prelude_FileAccess_Permission") none
      → Inserts db Allowed ident (insert_file_access_permission db ident i j k l v)
  unfolding insert_file_access_permission
  insert_file_access_permission-Inserts i j k l v h = search (insertion) depth 30

  insert_file_access-Inserts :
      (i j k : Index) (v : FileAccess)
      → Allowed (text "Prelude_FileAccess") none
      → Allowed (text "Prelude_FileAccess_Permission") none
      → Allowed (text "Prelude_UserId") (some b'F')
      → Inserts db Allowed ident (insert_file_access db ident i j k v)
  unfolding insert_file_access
  insert_file_access-Inserts i j k v h0 h1 h2 =
      search (insertion, insert_file_access_permission-Inserts, insert_user_id-Inserts) depth 30

  insert_checksum-Inserts :
      (i j k : Index) (v : Checksum)
      → Allowed (text "Prelude_Checksum") none
      → Inserts db Allowed ident (insert_checksum db ident i j k v)
  unfolding insert_checksum
  insert_checksum-Inserts i j k v h = search (insertion) depth 30

  pub insert_file-Inserts :
      (i j : Index) (v : File)
      → AllowsFile Allowed
      → Inserts db Allowed ident (insert_file db ident i j v)
  unfolding insert_file
  insert_file-Inserts i j v h =
      search
        (
          insertion, insert_given_inode-Inserts, insert_linkage-Inserts, insert_file_access-Inserts,
          insert_checksum-Inserts,
        )
        depth 30
