-- ===== src/Joins/Tests.antt =====
-- Joins of plugins/format/classic/classic-sql-join.c for some paths, and the theorems there.
use libpreludedb.Base.{
  ℕ, zero, suc, ◌≡◌, refl, false, some, [], ◌∷◌, ◌++◌, ok, text, print_nat, conjunction, ◌==◌,
  arith,
}
use libpreludedb.Idmef.{StringLib, IsAmple, pos, negsuc, print_int}
use libpreludedb.Joins.{
  PathIndex, at, forbidden, PathLib, JoinedTable, Join, resolve_indexes, new_table,
  joined_table_to_string, join_to_string,
}
use libpreludedb.Joins.Samples.{ids}
use libpreludedb.Joins.Constraints.{parent_list, own_list, resolve_indexes_lem}
use libpreludedb.Joins.TopClass.{IsUniform, new_table-IsUniform}

abbrev unbounded : StringLib
unbounded = record { cat = λ out s. ok (out ++ s) }

unbounded-IsAmple : IsAmple unbounded
unbounded-IsAmple out s = refl

-- alert.source(0).node.address(-1).address, as the number 0; any other number is a path
-- heartbeat.analyzer of its own
abbrev class_at : ℕ → ℕ → ℕ
class_at zero zero = 1
class_at zero (suc n) = 8
class_at (suc p) n = 2

abbrev index_at : ℕ → ℕ → PathIndex
index_at zero (suc zero) = at (pos 0)
index_at zero (suc (suc (suc zero))) = at (negsuc 0)
index_at p n = forbidden

abbrev numbered : PathLib ℕ
numbered = record {
  depth = λ p. if_source p;
  class_of = class_at;
  name_of = λ p n. text "address";
  index_of = index_at;
  is_time = λ p. false;
  is_data = λ p. false;
  same = λ p q. p == q;
  same_up_to = λ p q n. p == q;
}
  where
    if_source : ℕ → ℕ
    if_source zero = 5
    if_source (suc p) = 2

abbrev none_joined : Join ℕ
none_joined = record { top_class = 0; tables = []; next_id = 0 }

abbrev address : JoinedTable ℕ
address = record {
  path = 0;
  table_name = text "Prelude_Address";
  aliased_table_name = text "t0";
  parent_type = some b'S';
  index_constraints = text "t0._parent0_index = 0 AND t0._index = -1";
}

abbrev one_joined : Join ℕ
one_joined = record { top_class = 1; tables = address ∷ []; next_id = 1 }

address_run :
    new_table ids unbounded numbered none_joined 0 (text "Prelude_Address")
    ≡ (ok address, one_joined)
unfolding new_table text print_nat print_int
address_run = refl

statement_run :
    join_to_string ids unbounded numbered one_joined (text "FROM ")
    ≡ ok (
        text
          "FROM Prelude_Alert AS top_table LEFT JOIN Prelude_Address AS t0 ON (t0._parent_type='S' AND t0._message_ident=top_table._ident AND t0._parent0_index = 0 AND t0._index = -1)")
unfolding join_to_string joined_table_to_string text
statement_run = refl

resolve_indexes_lem_example :
    resolve_indexes ids unbounded numbered 0 (text "t0")
    ≡ ok (
        conjunction false (
          parent_list numbered 2 1 0 0 (text "t0")
          ++ own_list ids unbounded unbounded-IsAmple numbered 0 (text "t0")))
resolve_indexes_lem_example =
    resolve_indexes_lem ids unbounded unbounded-IsAmple numbered 0 (text "t0") (omega arith)

new_table-IsUniform_example :
    IsUniform ids unbounded numbered
      (new_table ids unbounded numbered none_joined 0 (text "Prelude_Address")).1
new_table-IsUniform_example =
    new_table-IsUniform ids unbounded numbered none_joined 0 (text "Prelude_Address")
      (record { classes = tt; unset = λ _. refl }) refl
