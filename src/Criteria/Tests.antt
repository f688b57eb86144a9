-- ===== src/Criteria/Tests.antt =====
-- Criteria of src/preludedb-sql.c on the journal's database, and its theorems there.
use libpreludedb.Base.{
  conjunction, ℕ, ◌≡◌, true, refl, false, some, [], ◌++◌, Bytes, ok, err, failure, text, print_nat,
}
use libpreludedb.Idmef.{pos, negsuc}
use libpreludedb.Sql.{assert_connected}
use libpreludedb.Sql.Journal.{journal, fresh}
use libpreludedb.Idmef.{print_int}
use libpreludedb.Samples.{unbounded, unbounded-IsAmple, numbered, write, writer}
use libpreludedb.Criteria.{
  Tm, other, CriterionValue, fixed, broken_down_time, like_loop, like_value, sql_escape,
  fixed_sql_value, fixed_value, time_loop, time_table, build_criterion_string, criterion_value,
}
use libpreludedb.Criteria.Like.{pieces, glob_piece, like_pieces, like_value_portable}
use libpreludedb.Criteria.Times.{
  parts, constraints, Writes, criterion_string_time_equal, criterion_string_time_not_equal,
}
use libpreludedb.Criteria.Lock.{held-build_criterion_string}

abbrev like_a : CriterionValue ℕ
like_a = fixed (other (some (text "a*")) (err failure))

like_run :
    (build_criterion_string unbounded journal numbered writer [] (text "f") 2 like_a fresh).0
    ≡ ok (text "f LIKE 'a%'")
unfolding build_criterion_string criterion_value fixed_value fixed_sql_value sql_escape like_value
    like_loop assert_connected text
like_run = refl

-- a Monday in May
abbrev monday : Tm
monday = record {
  tm_year = negsuc 0;
  tm_mon = pos 4;
  tm_yday = negsuc 0;
  tm_mday = negsuc 0;
  tm_wday = pos 1;
  tm_hour = negsuc 0;
  tm_min = negsuc 0;
  tm_sec = negsuc 0;
}

time_run :
    (build_criterion_string unbounded journal numbered writer []
      (text "f")
      1
      (broken_down_time monday)
      fresh).0
    ≡ ok (text "f#5 AND f#1")
unfolding build_criterion_string criterion_value time_loop text print_int print_nat
time_run = refl

held-build_criterion_string_example :
    (build_criterion_string unbounded journal numbered writer [] (text "f") 2 like_a fresh).1.held
    ≡ 0
held-build_criterion_string_example =
    held-build_criterion_string unbounded journal numbered writer [] (text "f") 2 like_a fresh

like_value_portable_example :
    (out : Bytes) × (like_value unbounded (some (text "a*\\*")) ≡ ok out)
    × (like_pieces true out ≡ pieces glob_piece false (text "a*\\*"))
unfolding text
like_value_portable_example =
    like_value_portable unbounded unbounded-IsAmple true (text "a*\\*")
      (refl, (refl, (refl, (refl, tt))))

monday_writes :
    Writes unbounded unbounded-IsAmple journal numbered writer
      (text "f")
      1
      (λ type n. write (text "f") type 1 n)
      (time_table monday)
monday_writes = (
  λ _. refl,
  (λ _. refl, (λ _. refl, (λ _. refl, (λ _. refl, (λ _. refl, (λ _. refl, (λ _. refl, tt))))))),
)

criterion_string_time_equal_example :
    build_criterion_string unbounded journal numbered writer []
      (text "f")
      1
      (broken_down_time monday)
      fresh
    ≡ (
      ok (
          []
          ++ parts unbounded unbounded-IsAmple journal numbered writer
              (text "f")
              1
              (λ type n. write (text "f") type 1 n)
              monday),
      fresh,
    )
criterion_string_time_equal_example =
    criterion_string_time_equal unbounded unbounded-IsAmple journal numbered writer (text "f") 1
      (λ type n. write (text "f") type 1 n) [] monday fresh monday_writes refl refl refl refl

criterion_string_time_not_equal_example :
    build_criterion_string unbounded journal numbered writer []
      (text "f")
      101
      (broken_down_time monday)
      fresh
    ≡ (ok (text "(f IS NULL OR NOT(f#5 AND f#1))"), fresh)
unfolding text print_int print_nat conjunction constraints
criterion_string_time_not_equal_example =
    criterion_string_time_not_equal unbounded unbounded-IsAmple journal numbered writer (text "f")
      (λ type n. write (text "f") type 1 n) 101 [] monday fresh monday_writes refl refl refl refl
      refl
