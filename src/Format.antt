-- ===== src/Format.antt =====
-- src/preludedb-plugin-format.c: the deletions of a format plugin that has none for lists.
pub mod Listed
mod Tests
use libpreludedb.Base.{ℕ, ◌+◌, Option, none, some, List, [], ◌∷◌, Result, ok, err}

-- A format plugin of src/include/preludedb-plugin-format.h on a database `Db`. A deletion of a list
-- returns how many messages it deleted.
pub record FormatPlugin (Db : Type 0) : Type 0 where
  pub delete_alert : ℕ → Db → Result (Unit {0}) × Db
  pub delete_alert_from_list : Option (List ℕ → Db → Result ℕ × Db)
  pub delete_heartbeat : ℕ → Db → Result (Unit {0}) × Db
  pub delete_heartbeat_from_list : Option (List ℕ → Db → Result ℕ × Db)

module _ {Db : Type 0} where
  abbrev pub or_failed : Result (Unit {0}) × Db → (Db → Result ℕ × Db) → Result ℕ × Db
  or_failed (err e, db) rest = (err e, db)
  or_failed (ok _, db) rest = rest db

  -- `for ( i = 0; i < size; i++ )`, from `i` on. An index of a list in memory does not overflow.
  unfoldable pub delete_each : (ℕ → Db → Result (Unit {0}) × Db) → ℕ → List ℕ → Db → Result ℕ × Db
  delete_each delete i [] db = (ok i, db)
  delete_each delete i (ident ∷ idents) db =
      or_failed (delete ident db) (delete_each delete (i + 1) idents)

  abbrev pub use_list :
      Option (List ℕ → Db → Result ℕ × Db)
      → (ℕ → Db → Result (Unit {0}) × Db)
      → List ℕ
      → Db
      → Result ℕ × Db
  unfolding delete_each
  use_list (some delete_list) delete idents db = delete_list idents db
  use_list none delete idents db = delete_each delete 0 idents db

  -- `_preludedb_plugin_format_delete_alert_from_list`
  unfoldable pub plugin_delete_alert_from_list : FormatPlugin Db → List ℕ → Db → Result ℕ × Db
  unfolding delete_each
  plugin_delete_alert_from_list plugin = use_list plugin.delete_alert_from_list plugin.delete_alert

  -- `_preludedb_plugin_format_delete_heartbeat_from_list`
  unfoldable pub plugin_delete_heartbeat_from_list : FormatPlugin Db → List ℕ → Db → Result ℕ × Db
  unfolding delete_each
  plugin_delete_heartbeat_from_list plugin =
      use_list plugin.delete_heartbeat_from_list plugin.delete_heartbeat
