-- ===== src/Format/Listed.antt =====
-- Which messages the deletions of src/preludedb-plugin-format.c delete.
use libpreludedb.Base.{
  ℕ, ◌+◌, ◌≡◌, refl, ap, none, List, [], ◌∷◌, ◌++◌, length, Result, ok, err, Error, arith,
}
use libpreludedb.Format.{
  FormatPlugin, or_failed, delete_each, plugin_delete_alert_from_list,
  plugin_delete_heartbeat_from_list,
}

module _ {Db : Type 0} (delete : ℕ → Db → Result (Unit {0}) × Db) where
  -- deletions that all succeed, one after the other
  pub data Deleted : List ℕ → Db → Db → Type 0 where
    nothing : (db : Db) → Deleted [] db db
    first :
        {idents : List ℕ} {t u : Db} (ident : ℕ) (db : Db)
        → delete ident db ≡ (ok tt, t)
        → Deleted idents t u
        → Deleted (ident ∷ idents) db u

  -- where a list is cut by the deletion that failed
  pub record Stopped (idents : List ℕ) (db : Db) (e : Error) (u : Db) : Type 0 where
    pub before : List ℕ
    pub ident : ℕ
    pub behind_it : List ℕ
    pub db_before : Db
    pub cut : idents ≡ before ++ ident ∷ behind_it
    pub deleted : Deleted before db db_before
    pub failed : delete ident db_before ≡ (err e, u)

  -- all are deleted and counted, or those before the first that fails are
  abbrev pub Outcome : List ℕ → ℕ → Db → Result ℕ × Db → Type 0
  Outcome idents i db (ok n, u) = (n ≡ i + length idents) × Deleted idents db u
  Outcome idents i db (err e, u) = Stopped idents db e u

  extend :
      (ident : ℕ) (idents : List ℕ) (i : ℕ) (db t : Db)
      → delete ident db ≡ (ok tt, t)
      → (r : Result ℕ × Db) → Outcome idents (i + 1) t r
      → Outcome (ident ∷ idents) i db r
  extend ident idents i db t eq (ok n, u) h = (omega (arith, h.0), first ident db eq h.1)
  extend ident idents i db t eq (err e, u) h = record {
    before = ident ∷ h.before;
    ident = h.ident;
    behind_it = h.behind_it;
    db_before = h.db_before;
    cut = ap (λ l. ident ∷ l) h.cut;
    deleted = first ident db eq h.deleted;
    failed = h.failed;
  }

  pub delete_each-Outcome :
      (i : ℕ) (idents : List ℕ) (db : Db) → Outcome idents i db (delete_each delete i idents db)
  unfolding delete_each
  delete_each-Outcome i [] db = (omega arith, nothing db)
  delete_each-Outcome i (ident ∷ idents) db =
      go (delete ident db) refl (delete_each-Outcome (i + 1) idents)
    where
      go :
          (r : Result (Unit {0}) × Db)
          → delete ident db ≡ r
          → ((t : Db) → Outcome idents (i + 1) t (delete_each delete (i + 1) idents t))
          → Outcome (ident ∷ idents) i db (or_failed r (delete_each delete (i + 1) idents))
      go (err e, u) eq ih = record {
        before = [];
        ident = ident;
        behind_it = idents;
        db_before = db;
        cut = refl;
        deleted = nothing db;
        failed = eq;
      }
      go (ok tt, t) eq ih = extend ident idents i db t eq _ (ih t)

module _ {Db : Type 0} (plugin : FormatPlugin Db) where
  -- A format plugin without deletions of lists: a list of alerts, and one of heartbeats, is deleted
  -- one message after the other, in order, and their number is returned; or the first deletion
  -- that fails ends it with its error, with those before it done.
  pub plugin_delete_from_list-Outcome :
      (idents : List ℕ) (db : Db)
      → plugin.delete_alert_from_list ≡ none
      → plugin.delete_heartbeat_from_list ≡ none
      → Outcome plugin.delete_alert idents 0 db (plugin_delete_alert_from_list plugin idents db)
        × Outcome plugin.delete_heartbeat idents 0 db
            (plugin_delete_heartbeat_from_list plugin idents db)
  unfolding plugin_delete_alert_from_list plugin_delete_heartbeat_from_list
  plugin_delete_from_list-Outcome idents db ea eh = (
    rw ea (delete_each-Outcome plugin.delete_alert 0 idents db),
    rw eh (delete_each-Outcome plugin.delete_heartbeat 0 idents db),
  )
