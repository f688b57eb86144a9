-- ===== src/Joins/TopClass.antt =====
-- The top class of a join, in plugins/format/classic/classic-sql-join.c.
use libpreludedb.Base.{
  ℕ, ◌≡◌, refl, false, [], Bytes, Result, ok, err, All, All-snoc, ◌==◌, ==→eq, Bool-cases, inl, inr,
  arith,
}
use libpreludedb.Idmef.{StringLib}
use libpreludedb.Joins.{ClassIds, PathLib, JoinedTable, Join, joined, new_table}

module _ (ids : ClassIds) (lib : StringLib) {IdmefPath : Type 0} (paths : PathLib IdmefPath) where
  open paths use {class_of}

  abbrev HasClass : ℕ → JoinedTable IdmefPath → Type 0
  HasClass c table = class_of table.path 0 ≡ c

  -- The paths of the tables have the top class of the join; without one there are no tables.
  pub record IsUniform (join : Join IdmefPath) : Type 0 where
    pub classes : All (HasClass join.top_class) join.tables
    pub unset : join.top_class ≡ 0 → join.tables ≡ []

  joined-IsUniform :
      (path : IdmefPath) (table_name aliased : Bytes) (r : Result Bytes) (join : Join IdmefPath)
      → All (HasClass join.top_class) join.tables
      → class_of path 0 ≡ join.top_class
      → (join.top_class == 0) ≡ false
      → IsUniform (joined ids lib paths path table_name aliased r join).1
  joined-IsUniform path table_name aliased (err e) join h c n = record {
    classes = h;
    unset = λ z. absurd (ground arith);
  }
  joined-IsUniform path table_name aliased (ok constraints) join h c n = record {
    classes = All-snoc (HasClass join.top_class) join.tables _ h c;
    unset = λ z. absurd (ground arith);
  }

  -- However tables are created, and whether or not that fails, the paths of all the tables of a
  -- join have its top class. Class ids are not 0.
  pub new_table-IsUniform :
      (join : Join IdmefPath) (path : IdmefPath) (table_name : Bytes)
      → IsUniform join
      → (class_of path 0 == 0) ≡ false
      → IsUniform (new_table ids lib paths join path table_name).1
  unfolding new_table
  new_table-IsUniform join path table_name h n = elim (Bool-cases (join.top_class == 0)) [
    | inl z ↦
        let no_tables = h.unset (==→eq join.top_class 0 z) in
        rw z (joined-IsUniform path table_name _ _ _ (rw no_tables tt) refl n)
    | inr z ↦ elim (Bool-cases (class_of path 0 == join.top_class)) [
      | inl c ↦ rw (z, c) (joined-IsUniform path table_name _ _ _ h.classes (==→eq _ _ c) z)
      | inr c ↦ rw (z, c) h
    ]
  ]
