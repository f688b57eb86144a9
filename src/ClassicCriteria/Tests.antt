-- ===== src/ClassicCriteria/Tests.antt =====
-- Criteria of plugins/format/classic/classic-path-resolve.c on the sample paths, and the theorems
-- there.
use libpreludedb.Base.{
  ℕ, ◌≡◌, refl, some, none, [], Bytes, ok, err, failure, text, print_nat, ◌=ₛ◌, true, if◌then◌else◌,
}
use libpreludedb.Idmef.{print_int}
use libpreludedb.Sql.{Sql, assert_connected}
use libpreludedb.Sql.Journal.{Journal, journal, fresh}
use libpreludedb.Criteria.{
  fixed, other, sql_escape, fixed_sql_value, fixed_value, criterion_value, like_value, like_loop,
  build_criterion_string,
}
use libpreludedb.Joins.{lookup_table, new_table}
use libpreludedb.Joins.Samples.{ids}
use libpreludedb.Samples.{
  writer-Appends, oid_joined, unbounded, unbounded-IsAmple, numbered, writer, tree, class_name,
}
use libpreludedb.PathResolve.{path_resolve}
use libpreludedb.PathResolve.Resolvers.{default_table_name, default_field, snmp_field}
use libpreludedb.ClassicQueries.{join_new}
use libpreludedb.ClassicCriteria.{
  Criteria, absent, criteria, Criterion, path_resolve_criterion, path_resolve_criteria,
}
use libpreludedb.ClassicCriteria.Reading.{Truth, yes, unknown, read, print, tokens, meaning}
use libpreludedb.ClassicCriteria.Writing.{test_texts}
use libpreludedb.ClassicCriteria.Meaning.{resolve_test, path_resolve_criteria-meaning}

-- an oid that is like a text
abbrev like : Bytes → Criterion ℕ ℕ ℕ
like pattern_text = record {
  path = 1;
  operator = 2;
  value = fixed (other (some pattern_text) (err failure));
}

abbrev leaf : Bytes → Criteria (Criterion ℕ ℕ ℕ)
leaf pattern_text = criteria (like pattern_text) absent absent

abbrev sample : Criteria (Criterion ℕ ℕ ℕ)
sample = criteria (like (text "a*")) (leaf (text "c")) (leaf (text "b"))

abbrev sample_texts : Criteria Bytes
sample_texts =
    criteria (text "t0.snmp_oid LIKE 'a%'") (criteria (text "t0.snmp_oid LIKE 'c'") absent absent)
      (criteria (text "t0.snmp_oid LIKE 'b'") absent absent)

abbrev up : Sql Journal
up = record fresh { session = record { entries = []; up = true }; connected = true }

sample_tests :
    test_texts
      (resolve_test ids unbounded unbounded-IsAmple tree class_name journal numbered writer
        writer-Appends)
      sample
      (join_new, fresh)
    ≡ (ok sample_texts, (oid_joined, up))
unfolding test_texts path_resolve_criterion path_resolve default_table_name default_field snmp_field
    lookup_table new_table build_criterion_string criterion_value fixed_value fixed_sql_value
    sql_escape like_value like_loop assert_connected text print_nat print_int
sample_tests = refl

-- a pattern that no test is like, and one that has no answer
abbrev answers : Bytes → Truth
answers t = if t =ₛ text "t0.snmp_oid LIKE 'b'" then unknown else yes

path_resolve_criteria-meaning_example :
    (path_resolve_criteria ids unbounded tree class_name journal numbered writer sample
        (text "")
        (join_new, fresh)
      ≡ (
        ok (text "((t0.snmp_oid LIKE 'a%' AND t0.snmp_oid LIKE 'b') OR (t0.snmp_oid LIKE 'c'))"),
        (oid_joined, up),
      ))
    × (read answers (tokens sample_texts) ≡ some yes)
unfolding text print tokens meaning
path_resolve_criteria-meaning_example =
    path_resolve_criteria-meaning ids unbounded unbounded-IsAmple tree class_name journal numbered
      writer writer-Appends (like (text "a*")) (leaf (text "c")) (leaf (text "b")) []
      (join_new, fresh) (oid_joined, up) sample_texts answers sample_tests

-- data without a text
abbrev missing : Criterion ℕ ℕ ℕ
missing = record { path = 1; operator = 2; value = fixed (other none (err failure)) }

missing_test :
    test_texts
      (resolve_test ids unbounded unbounded-IsAmple tree class_name journal numbered writer
        writer-Appends)
      (criteria (like (text "a*")) absent (criteria missing absent absent))
      (join_new, fresh)
    ≡ (err failure, (oid_joined, up))
unfolding test_texts path_resolve_criterion path_resolve default_table_name default_field snmp_field
    lookup_table new_table build_criterion_string criterion_value fixed_value fixed_sql_value
    sql_escape like_value like_loop assert_connected text print_nat print_int
missing_test = refl
