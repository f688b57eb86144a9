-- ===== src/Joins/Lookup.antt =====
-- Which table of a join is found for a path, in plugins/format/classic/classic-sql-join.c.
use libpreludedb.Base.{
  ℕ, ◌-◌, ◌≡◌, refl, ap, ◌∙◌, sym, true, not, ◌&&◌, Option, none, some, List, [], ◌∷◌, ◌++◌, Bytes,
  Result, ok, err, ◌==◌, if◌then◌else◌, Bool-cases, inl, inr, arith,
}
use libpreludedb.Idmef.{StringLib}
use libpreludedb.Joins.{
  ClassIds, PathLib, JoinedTable, Join, matches, lookup_in, lookup_table, joined, new_table,
}

-- the first, or else the second
abbrev pub or_else {ℓ} : {A : Type ℓ} → Option A → Option A → Option A
or_else none b = b
or_else (some a) b = some a

or_else_twice : {A : Type 0} (a b : Option A) → or_else a (or_else a b) ≡ or_else a b
or_else_twice none b = refl
or_else_twice (some x) b = refl

module _ (ids : ClassIds) (lib : StringLib) {IdmefPath : Type 0} (paths : PathLib IdmefPath) where
  open paths use {same, same_up_to}

  lookup_in-append :
      (path : IdmefPath) (tables : List (JoinedTable IdmefPath)) (table : JoinedTable IdmefPath)
      → lookup_in ids lib paths path (tables ++ table ∷ [])
        ≡ or_else
            (lookup_in ids lib paths path tables)
            (if matches ids lib paths path table then some table else none)
  unfolding lookup_in
  lookup_in-append path [] table = ground arith
  lookup_in-append path (t ∷ tables) table = ground (arith, lookup_in-append path tables table)

  joined_appends :
      (path : IdmefPath) (table_name aliased : Bytes) (r : Result Bytes)
      (join join' : Join IdmefPath) (table : JoinedTable IdmefPath)
      → joined ids lib paths path table_name aliased r join ≡ (ok table, join')
      → (join'.tables ≡ join.tables ++ table ∷ []) × (table.path ≡ path)
  joined_appends path table_name aliased (err e) join join' table eq = cc
  joined_appends path table_name aliased (ok constraints) join join' table eq =
      let built =
        ap
          (λ (r : Result (JoinedTable IdmefPath) × Join IdmefPath). elim r.0 [
            | ok t ↦ t
            | err _ ↦ table
          ])
          eq in
      let grown = ap (λ (r : Result (JoinedTable IdmefPath) × Join IdmefPath). r.1.tables) eq in
      (
        sym grown ∙ ap (λ t. join.tables ++ t ∷ []) built,
        sym (ap (λ (t : JoinedTable IdmefPath). t.path) built),
      )

  -- what a successful call did
  new_table_appends :
      (join join' : Join IdmefPath) (path : IdmefPath) (table_name : Bytes)
      (table : JoinedTable IdmefPath)
      → new_table ids lib paths join path table_name ≡ (ok table, join')
      → (join'.tables ≡ join.tables ++ table ∷ []) × (table.path ≡ path)
  unfolding new_table
  new_table_appends join join' path table_name table e =
      let conflict = not (join.top_class == 0) && not (paths.class_of path 0 == join.top_class) in
      elim (Bool-cases conflict) [
        | inl c ↦ absurd (cc (rw c at e))
        | inr c ↦ joined_appends path table_name _ _ _ join' table (rw c at e)
      ]

  -- Where the comparisons of paths hold of a path and itself: a table that was created for a path
  -- is found for it, unless one was found before; and a table that was found before, for whatever
  -- path, is still found.
  pub lookup_table-new_table :
      (join join' : Join IdmefPath) (path q : IdmefPath) (table_name : Bytes)
      (table : JoinedTable IdmefPath)
      → ((p : IdmefPath) → same p p ≡ true)
      → ((p : IdmefPath) (n : ℕ) → same_up_to p p n ≡ true)
      → new_table ids lib paths join path table_name ≡ (ok table, join')
      → (lookup_table ids lib paths join' path
          ≡ or_else (lookup_table ids lib paths join path) (some table))
        × (or_else (lookup_table ids lib paths join q) (lookup_table ids lib paths join' q)
            ≡ lookup_table ids lib paths join' q)
  unfolding lookup_table
  lookup_table-new_table join join' path q table_name table refl_same refl_up_to e =
      let (tables, at_path) = new_table_appends join join' path table_name table e in
      let fits : matches ids lib paths path table ≡ true =
        rw at_path (ground (arith, refl_same path, refl_up_to path (paths.depth path - 1))) in
      (
        ap (lookup_in ids lib paths path) tables
            ∙ lookup_in-append path join.tables table
            ∙ rw fits refl,
        rw (ap (lookup_in ids lib paths q) tables ∙ lookup_in-append q join.tables table)
            (or_else_twice (lookup_in ids lib paths q join.tables) _),
      )
