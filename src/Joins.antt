-- ===== src/Joins.antt =====
-- plugins/format/classic/classic-sql-join.c: the tables that a SELECT statement of the classic
-- format joins to its top table, each for a path, with the constraints on the path's indices.
mod Paths
pub mod Lookup
pub mod Constraints
pub mod Statement
pub mod TopClass
pub mod Samples
mod Tests
pub use Paths.{ClassIds, PathIndex, at, undefined, forbidden, PathLib}
unfoldable pub use Paths.{
  resolve_file_parent_type, resolve_target_parent_type, resolve_source_parent_type,
  resolve_tool_alert_parent_type, resolve_correlation_alert_parent_type, resolve_alert_parent_type,
  resolve_parent_type,
}
use libpreludedb.Base.{
  ℕ, zero, suc, ◌+◌, ◌-◌, ◌%◌, Bool, true, false, not, ◌&&◌, ◌||◌, Option, none, some, List, [],
  ◌∷◌, ◌++◌, Bytes, Result, ok, err, Error, failure, query, text, print_nat, ltb, ◌==◌, ◌=ₛ◌,
  is_empty, if◌then◌else◌, ◌>>=◌,
}
use libpreludedb.Idmef.{ℤ, pos, negsuc, StringLib, uint32_mod, print_int, print_signed}

-- `struct classic_sql_joined_table`; `parent_type` is the character, if there is one.
pub record JoinedTable (IdmefPath : Type 0) : Type 0 where
  pub path : IdmefPath
  pub table_name : Bytes
  pub aliased_table_name : Bytes
  pub parent_type : Option ℕ
  pub index_constraints : Bytes

-- `struct classic_sql_join`
pub record Join (IdmefPath : Type 0) : Type 0 where
  pub top_class : ℕ
  pub tables : List (JoinedTable IdmefPath)
  pub next_id : ℕ

abbrev pub is_forbidden : PathIndex → Bool
is_forbidden forbidden = true
is_forbidden _ = false

-- the index that a constraint names, and its operator
abbrev pub constraint_test : PathIndex → Bytes
constraint_test (at n) = text " = " ++ print_int n
constraint_test undefined = text " != " ++ print_int (negsuc 0)
constraint_test forbidden = text " != " ++ print_int (negsuc 0)

-- the column of a constraint: that of a parent level, or of the table itself
abbrev pub index_column : Option ℕ → Bytes
index_column none = text "._index"
index_column (some level) = text "._parent" ++ (print_nat level ++ text "_index")

abbrev pub constraint_text : Bytes → Option ℕ → PathIndex → Bytes
constraint_text aliased level i = aliased ++ (index_column level ++ constraint_test i)

module _ (ids : ClassIds) (lib : StringLib) {IdmefPath : Type 0} (paths : PathLib IdmefPath) where
  open ids use {alert, file}
  open lib use {cat}
  open paths use {depth, class_of, name_of, index_of, is_time, same, same_up_to}

  -- the test of a joined table in the loop below
  abbrev pub matches : IdmefPath → JoinedTable IdmefPath → Bool
  matches path table =
      depth path == depth table.path
      && (if not (is_forbidden (index_of path (depth path - 1)))
            || (is_time path && not (class_of path (depth path - 2) == file))
          then same path table.path
          else same_up_to path table.path (depth path - 1))

  unfoldable pub lookup_in :
      IdmefPath → List (JoinedTable IdmefPath) → Option (JoinedTable IdmefPath)
  lookup_in path [] = none
  lookup_in path (table ∷ tables) = elim (matches path table) [
    | true ↦ some table
    | false ↦ lookup_in path tables
  ]

  -- `classic_sql_join_lookup_table`, on paths of two elements or more
  unfoldable pub lookup_table : Join IdmefPath → IdmefPath → Option (JoinedTable IdmefPath)
  unfolding lookup_in
  lookup_table join path = lookup_in path join.tables

  -- `add_index_constraint`, on the constraints of the table with the alias `aliased`
  unfoldable pub add_index_constraint : Bytes → Option ℕ → PathIndex → Bytes → Result Bytes
  add_index_constraint aliased level i constraints = do
    separated ← if is_empty constraints then ok constraints else cat constraints (text " AND ")
    cat separated (constraint_text aliased level i)

  -- The loop of `resolve_indexes`, for `n` depths from `d` on.
  unfoldable pub parent_constraints : ℕ → ℕ → ℕ → IdmefPath → Bytes → Bytes → Result Bytes
  parent_constraints zero d level path aliased constraints = ok constraints
  parent_constraints (suc n) d level path aliased constraints =
      elim (is_forbidden (index_of path d)) [
        | true ↦ parent_constraints n (d + 1) level path aliased constraints
        | false ↦
            add_index_constraint aliased (some level) (index_of path d) constraints
            >>= λ constraints'. parent_constraints n (d + 1) (level + 1) path aliased constraints'
      ]

  -- the index of the last element, or of the one before it
  abbrev pub own_index : IdmefPath → PathIndex
  own_index path =
      if is_forbidden (index_of path (depth path - 1))
      then index_of path (depth path - 2)
      else index_of path (depth path - 1)

  -- `resolve_indexes`, on no constraints
  unfoldable pub resolve_indexes : IdmefPath → Bytes → Result Bytes
  unfolding parent_constraints add_index_constraint
  resolve_indexes path aliased =
      if ltb (depth path) 2
      then err query
      else parent_constraints (depth path - 3) 1 0 path aliased [] >>= λ constraints.
          if is_forbidden (own_index path)
          then ok constraints
          else add_index_constraint aliased none (own_index path) constraints

  -- the table that is appended, or an error: the id and the top class are taken all the same
  abbrev joined :
      IdmefPath
      → Bytes
      → Bytes
      → Result Bytes
      → Join IdmefPath
      → Result (JoinedTable IdmefPath) × Join IdmefPath
  joined path table_name aliased (err e) join = (err e, join)
  joined path table_name aliased (ok constraints) join =
      let table : JoinedTable IdmefPath = record {
        path = path;
        table_name = table_name;
        aliased_table_name = aliased;
        parent_type = resolve_parent_type ids paths path;
        index_constraints = constraints;
      } in
      (ok table, record join { tables = join.tables ++ table ∷ [] })

  abbrev new_alias : Join IdmefPath → Bytes
  new_alias join = text "t" ++ print_signed join.next_id

  -- `classic_sql_join_new_table`
  unfoldable pub new_table :
      Join IdmefPath → IdmefPath → Bytes → Result (JoinedTable IdmefPath) × Join IdmefPath
  unfolding resolve_parent_type resolve_indexes
  new_table join path table_name =
      if not (join.top_class == 0) && not (class_of path 0 == join.top_class)
      then (err failure, join)
      else joined path table_name (new_alias join) (resolve_indexes path (new_alias join))
          (record join {
            top_class = if join.top_class == 0 then class_of path 0 else join.top_class;
            next_id = (join.next_id + 1) % uint32_mod;
          })

  -- a test of a condition before a text is appended
  abbrev cat_if : Bool → Bytes → Bytes → Result Bytes
  cat_if test output s = if test then cat output s else ok output

  abbrev cat_parent_type : Option ℕ → Bytes → Bytes → Result Bytes
  cat_parent_type none aliased output = ok output
  cat_parent_type (some c) aliased output =
      cat output (aliased ++ (text "._parent_type='" ++ (c ∷ text "' AND ")))

  -- `classic_joined_table_to_string`
  unfoldable pub joined_table_to_string : JoinedTable IdmefPath → Bytes → Result Bytes
  joined_table_to_string table output = do
    output₁ ← cat output (
        text " LEFT JOIN "
        ++ (table.table_name ++ (text " AS " ++ (table.aliased_table_name ++ text " ON ("))))
    output₂ ← cat_parent_type table.parent_type table.aliased_table_name output₁
    output₃ ← cat output₂ (table.aliased_table_name ++ text "._message_ident=top_table._ident")
    output₄ ←
        cat_if (not (is_empty table.index_constraints)) output₃
          (text " AND " ++ table.index_constraints)
    cat output₄ (text ")")

  unfoldable pub tables_to_string : List (JoinedTable IdmefPath) → Bytes → Result Bytes
  tables_to_string [] output = ok output
  tables_to_string (table ∷ tables) output =
      joined_table_to_string table output >>= λ output'. tables_to_string tables output'

  -- `classic_sql_join_to_string`
  unfoldable pub join_to_string : Join IdmefPath → Bytes → Result Bytes
  unfolding tables_to_string
  join_to_string join output =
      cat output (
        (if join.top_class == alert then text "Prelude_Alert" else text "Prelude_Heartbeat")
        ++ text " AS top_table")
      >>= λ output'. tables_to_string join.tables output'
