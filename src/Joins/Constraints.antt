-- ===== src/Joins/Constraints.antt =====
-- The constraints on the indices of a path, in plugins/format/classic/classic-sql-join.c.
use libpreludedb.Base.{
  ℕ, zero, suc, ◌+◌, ◌-◌, ◌≤◌, ◌≡◌, refl, ap, ◌∙◌, sym, true, false, not, Option, none, some, List,
  [], ◌∷◌, ◌++◌, Bytes, Result, ok, is_empty, text, conjunction, ge→ltb, if◌then◌else◌, ◌>>=◌,
  append_assoc, append-nil, Bool-cases, inl, inr,
}
use libpreludedb.Idmef.{StringLib, IsAmple}
use libpreludedb.Joins.{
  ClassIds, PathIndex, PathLib, is_forbidden, index_column, constraint_text, constraint_test,
  add_index_constraint, parent_constraints, own_index, resolve_indexes,
}

module _ {IdmefPath : Type 0} (paths : PathLib IdmefPath) where
  open paths use {index_of}

  -- The constraints on the `n` depths from `d` on that may have an index, for parent levels from
  -- `level` on.
  unfoldable pub parent_list : ℕ → ℕ → ℕ → IdmefPath → Bytes → List Bytes
  parent_list zero d level path aliased = []
  parent_list (suc n) d level path aliased = elim (is_forbidden (index_of path d)) [
    | true ↦ parent_list n (d + 1) level path aliased
    | false ↦
        constraint_text aliased (some level) (index_of path d)
        ∷ parent_list n (d + 1) (level + 1) path aliased
  ]

is_empty-append : (a b : Bytes) → is_empty b ≡ false → is_empty (a ++ b) ≡ false
is_empty-append [] b e = e
is_empty-append (x ∷ a) b e = refl

is_empty-append_left : (a b : Bytes) → is_empty a ≡ false → is_empty (a ++ b) ≡ false
is_empty-append_left [] b e = cc
is_empty-append_left (x ∷ a) b e = refl

is_empty-index_column : (level : Option ℕ) → is_empty (index_column level) ≡ false
unfolding text
is_empty-index_column none = refl
is_empty-index_column (some level) = refl

is_empty-constraint_text :
    (aliased : Bytes) (level : Option ℕ) (i : PathIndex)
    → is_empty (constraint_text aliased level i) ≡ false
is_empty-constraint_text aliased level i =
    is_empty-append aliased _
      (is_empty-append_left (index_column level) (constraint_test i) (is_empty-index_column level))

module _ (ids : ClassIds) (lib : StringLib) (ample : IsAmple lib) {IdmefPath : Type 0}
    (paths : PathLib IdmefPath) where
  open paths use {index_of, depth}

  add_index_constraint_lem :
      (aliased : Bytes) (level : Option ℕ) (i : PathIndex) (c : Bytes)
      → add_index_constraint ids lib paths aliased level i c
        ≡ ok (
            (c ++ (if not (is_empty c) then text " AND " else []))
            ++ constraint_text aliased level i)
  unfolding add_index_constraint
  add_index_constraint_lem aliased level i [] = ample [] _
  add_index_constraint_lem aliased level i (x ∷ c) =
      rw (ample (x ∷ c) (text " AND ")) (ample _ (constraint_text aliased level i))

  -- the end of `resolve_indexes`
  abbrev own_constraint : IdmefPath → Bytes → Bytes → Result Bytes
  own_constraint path aliased c =
      if is_forbidden (own_index ids lib paths path)
      then ok c
      else add_index_constraint ids lib paths aliased none (own_index ids lib paths path) c

  abbrev pub own_list : IdmefPath → Bytes → List Bytes
  own_list path aliased =
      if is_forbidden (own_index ids lib paths path)
      then []
      else constraint_text aliased none (own_index ids lib paths path) ∷ []

  own_constraint_lem :
      (path : IdmefPath) (aliased c : Bytes)
      → own_constraint path aliased c
        ≡ ok (c ++ conjunction (not (is_empty c)) (own_list path aliased))
  unfolding conjunction
  own_constraint_lem path aliased c =
      elim (Bool-cases (is_forbidden (own_index ids lib paths path))) [
        | inl e ↦ rw e (ap ok (sym (append-nil c)))
        | inr e ↦ rw e (
            add_index_constraint_lem aliased none (own_index ids lib paths path) c
            ∙ ap ok (append_assoc c _ _ ∙ rw append-nil))
      ]

  constraints_lem :
      (n d level : ℕ) (path : IdmefPath) (aliased c : Bytes)
      → (parent_constraints ids lib paths n d level path aliased c >>= own_constraint path aliased)
        ≡ ok (
            c
            ++ conjunction
                (not (is_empty c))
                (parent_list paths n d level path aliased ++ own_list path aliased))
  unfolding parent_constraints parent_list conjunction
  constraints_lem zero d level path aliased c = own_constraint_lem path aliased c
  constraints_lem (suc n) d level path aliased c =
      elim (Bool-cases (is_forbidden (index_of path d))) [
        | inl e ↦
            rw (e, parent_constraints, parent_list) (constraints_lem n (d + 1) level path aliased c)
        | inr e ↦
            let sep = if not (is_empty c) then text " AND " else [] in
            let item = constraint_text aliased (some level) (index_of path d) in
            let more : is_empty ((c ++ sep) ++ item) ≡ false =
              is_empty-append (c ++ sep) item
                (is_empty-constraint_text aliased (some level) (index_of path d)) in
            rw (e, parent_constraints, parent_list)
              (rw (add_index_constraint_lem aliased (some level) (index_of path d) c) (
                constraints_lem n (d + 1) (level + 1) path aliased ((c ++ sep) ++ item)
                ∙ rw more (ap ok (append_assoc (c ++ sep) item _ ∙ append_assoc c sep _))))
      ]

  -- Where memory suffices, the constraints of a path of two elements or more are those on each
  -- depth between the first element and the last two that may have an index, numbered as parent
  -- levels from 0 on, and the one on the last element, or else on the one before it, if it may
  -- have an index, with AND between them.
  pub resolve_indexes_lem :
      (path : IdmefPath) (aliased : Bytes)
      → 2 ≤ depth path
      → resolve_indexes ids lib paths path aliased
        ≡ ok (
            conjunction false
              (parent_list paths (depth path - 3) 1 0 path aliased ++ own_list path aliased))
  unfolding resolve_indexes
  resolve_indexes_lem path aliased p =
      rw (ge→ltb (depth path) 2 p) (constraints_lem (depth path - 3) 1 0 path aliased [])
