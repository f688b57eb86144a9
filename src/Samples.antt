-- ===== src/Samples.antt =====
-- Strings without a limit, operators, and a class tree of a few paths, for the tests.
use libpreludedb.Base.{
  ℕ, zero, suc, refl, some, false, [], ◌∷◌, ◌||◌, ◌++◌, Bytes, ok, err, failure, text, leb, ◌==◌,
  if◌then◌else◌,
}
use libpreludedb.Idmef.{ℤ, StringLib, IsAmple, print_int}
use libpreludedb.Sql.Journal.{Journal}
use libpreludedb.Criteria.{Operators, TimeConstraint, Writer}
use libpreludedb.Criteria.Append.{Appends}
use libpreludedb.PathSelection.{Flags}
use libpreludedb.SqlSelect.{Writers}
use libpreludedb.Joins.{PathLib, forbidden, Join}
use libpreludedb.Joins.Samples.{ids}
use libpreludedb.PathResolve.{classic_path_resolve}

abbrev pub unbounded : StringLib
unbounded = record { cat = λ out s. ok (out ++ s) }

pub unbounded-IsAmple : IsAmple unbounded
unbounded-IsAmple out s = refl

-- Operators as numbers: 1 equal, 2 like, 32 null; 100 more for the negation.
abbrev pub numbered : Operators
numbered = record {
  Operator = ℕ;
  null = 32;
  equal = 1;
  is_null = λ op. op == 32;
  is_not_null = λ op. op == 132;
  has_not = λ op. leb 100 op;
  has_substr = λ op. op == 2 || op == 102;
  is_equal = λ op. op == 1;
  is_not_equal = λ op. op == 101;
}

abbrev pub write : Bytes → TimeConstraint → ℕ → ℤ → Bytes
write field type op n = field ++ (text "#" ++ print_int n)

abbrev pub writer : Writer Journal ℕ ℕ
writer = record {
  escape = λ input session. (ok (text "'" ++ (input ++ text "'")), session);
  get_operator_string = λ op. text "IS NULL";
  build_constraint_string = λ out field op value. ok (out ++ (field ++ (text " LIKE " ++ value)));
  build_time_constraint_string = λ out field type op n. ok (out ++ write field type op n);
  build_timestamp_string = λ t. err failure;
  gmtime = λ t. err failure;
}

pub writer-Appends : Appends writer
writer-Appends = record {
  constraint = λ field op value out. refl;
  time_constraint = λ field type op n out. refl;
}

-- 0 is alert.create_time, 1 the oid of an SNMP service in an alert, 2 the change time of an inode
-- of a file of a target, any other number alert.messageid.
abbrev pub class_at : ℕ → ℕ → ℕ
class_at zero n = 1
class_at (suc zero) zero = 1
class_at (suc zero) (suc n) = 15
class_at (suc (suc zero)) zero = 1
class_at (suc (suc zero)) (suc zero) = 9
class_at (suc (suc zero)) (suc (suc zero)) = 10
class_at (suc (suc zero)) (suc (suc (suc n))) = 19
class_at (suc (suc (suc p))) n = 1

abbrev pub name_at : ℕ → ℕ → Bytes
name_at zero n = text "create_time"
name_at (suc zero) n = text "oid"
name_at (suc (suc zero)) n = text "change_time"
name_at (suc (suc (suc p))) n = text "messageid"

abbrev pub depth_of : ℕ → ℕ
depth_of zero = 2
depth_of (suc zero) = 6
depth_of (suc (suc zero)) = 5
depth_of (suc (suc (suc p))) = 2

abbrev pub tree : PathLib ℕ
tree = record {
  depth = depth_of;
  class_of = class_at;
  name_of = name_at;
  index_of = λ p n. forbidden;
  is_time = λ p. p == 0 || p == 2;
  is_data = λ p. false;
  same = λ p q. p == q;
  same_up_to = λ p q n. p == q;
}

abbrev pub class_name : ℕ → Bytes
class_name id = if id == 19 then text "inode" else text "snmp_service"

abbrev pub ungrouped : Flags
ungrouped = record { group_by = false; order_asc = false; order_desc = false }

-- the classic format on the sample paths
abbrev pub classic : Writers ℕ (Join ℕ)
classic = record {
  path_resolve = classic_path_resolve ids unbounded tree class_name;
  time_extract = λ out field unit. err failure;
  time_interval = λ out field value unit. err failure;
  time_timezone = λ out field zone. err failure;
}

abbrev pub time_joined : Join ℕ
time_joined = record {
  top_class = 1;
  tables =
      record {
        path = 0;
        table_name = text "Prelude_CreateTime";
        aliased_table_name = text "t0";
        parent_type = some b'A';
        index_constraints = [];
      }
      ∷ [];
  next_id = 1;
}

-- the tables for the criteria on an oid
abbrev pub oid_joined : Join ℕ
oid_joined = record {
  top_class = 1;
  tables =
      record {
        path = 1;
        table_name = text "Prelude_SnmpService";
        aliased_table_name = text "t0";
        parent_type = some b'A';
        index_constraints = [];
      }
      ∷ [];
  next_id = 1;
}
