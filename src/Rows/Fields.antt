-- ===== src/Rows/Fields.antt =====
-- The columns of a row, counted from the front or from the back, in src/preludedb-sql.c.
use libpreludedb.Base.{
  ℕ, ◌+◌, ◌-◌, ◌^◌, ◌<◌, ◌≡◌, true, Option, Bytes, Result, err, foreign, leb, arith, Bool-cases,
  inl, inr, if◌then◌else◌,
}
use libpreludedb.Idmef.{pos, negsuc}
use libpreludedb.Sql.{Plugin, Sql}
use libpreludedb.Rows.{Row, column_of, row_get_field}

module _ (plugin : Plugin) (fetch_field : ℕ → Result (Option Bytes)) (ccount : ℕ) (row : Row)
    (s : Sql (plugin.Session)) where
  -- A negative column number counts from the last column; one that reaches before the first column
  -- is an error, as is one behind the last column. There are fewer columns than 2 ^ 31, as there
  -- are numbers of an `int`.
  pub row_get_field_negative :
      (n : ℕ)
      → ccount < 2 ^ 31
      → n < 2 ^ 31
      → row_get_field plugin fetch_field ccount row (negsuc n) s ≡ (
          if leb (n + 1) ccount
          then row_get_field plugin fetch_field ccount row (pos (ccount - (n + 1))) s
          else (err (foreign 21), s))
  unfolding row_get_field
  row_get_field_negative n p q = elim (Bool-cases (leb (n + 1) ccount)) [
    | inl e ↦
        let near : column_of ccount (negsuc n) ≡ ccount - (n + 1) = ground arith in rw (e, near)
    | inr e ↦
        let far : leb ccount (column_of ccount (negsuc n)) ≡ true = ground arith in rw (e, far)
  ]
