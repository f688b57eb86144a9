-- ===== src/Rows/Tests.antt =====
-- Results of src/preludedb-sql.c over a statement that holds its rows, and the theorems there.
use libpreludedb.Base.{
  ◌≡◌, refl, true, false, Option, none, some, List, [], ◌∷◌, ◌++◌, Bytes, Result, ok, err, failure,
  foreign, inl, inr, text, get_elem?, arith,
}
use libpreludedb.Idmef.{negsuc}
use libpreludedb.Sql.Journal.{journal, fresh}
use libpreludedb.Rows.{Table, Cursor, value, null_cell, get_row, row_get_field, add_row, field_copy}
use libpreludedb.Rows.Access.{rows_of, Yields, IsCached}
use libpreludedb.Rows.Append.{row_of}
use libpreludedb.Rows.Random.{get_row_lem}
use libpreludedb.Rows.Fields.{row_get_field_negative}

abbrev Statement : Type 0
Statement = List (List Bytes)

abbrev next : Statement → Result (Option (List Bytes)) × Statement
next [] = (ok none, [])
next (row ∷ rows) = (ok (some row), rows)

-- a result of two columns
abbrev pairs : Cursor Statement
pairs = record { columns = 2; step = next }

abbrev two_rows : List (List Bytes)
two_rows = (text "1" ∷ text "low" ∷ []) ∷ (text "2" ∷ [] ∷ []) ∷ []

abbrev table : Table Statement
table = record { rows = []; column_count = 0; done = false; statement = two_rows }

table-IsCached : IsCached pairs [] two_rows table
unfolding rows_of Yields
table-IsCached = record {
  rows = refl;
  yields = λ _. (_, refl, refl, (_, refl, refl, (_, refl)));
  counts = inl refl;
  finished = λ d. cc;
}

second_run : (get_row pairs journal 1 table fresh).0 ≡ ok (some (some 1))
unfolding get_row add_row
second_run = refl

-- the second row: its empty text is read as NULL
second_fields :
    get_elem? (get_row pairs journal 1 table fresh).1.rows 1
    ≡ some (some (record { index = 1; fields = value (text "2") ∷ null_cell ∷ [] }))
unfolding get_row text add_row field_copy
second_fields = refl

last_field :
    row_get_field journal
      (λ i. err failure)
      2
      (row_of 0 (text "1" ∷ text "low" ∷ []))
      (negsuc 0)
      fresh
    ≡ (ok (some (text "low")), fresh)
unfolding row_get_field text
last_field = refl

get_row_lem_example :
    (seen' rest' : List (List Bytes)) × (t' : Table Statement) × (get_row pairs journal 1 table
        fresh
      ≡ (ok (some (some 1)), t', fresh))
    × (seen' ++ rest' ≡ two_rows)
    × IsCached pairs seen' rest' t'
    × (get_elem? t'.rows 1 ≡ get_elem? (rows_of 0 two_rows) 1)
get_row_lem_example =
    get_row_lem pairs journal [] two_rows 1 table fresh table-IsCached (omega arith)

abbrev ended : Table Statement
ended = record { rows = []; column_count = 2; done = true; statement = [] }

ended-IsCached : IsCached pairs [] [] ended
unfolding rows_of
ended-IsCached = record { rows = refl; yields = λ d. cc; counts = inr refl; finished = λ _. refl }

abbrev destroyed : Table Statement
destroyed = record { rows = none ∷ []; column_count = 2; done = false; statement = [] }

row_get_field_negative_example :
    row_get_field journal
      (λ i. err failure)
      2
      (row_of 0 (text "1" ∷ text "low" ∷ []))
      (negsuc 2)
      fresh
    ≡ (err (foreign 21), fresh)
row_get_field_negative_example =
    row_get_field_negative journal (λ i. err failure) 2 (row_of 0 (text "1" ∷ text "low" ∷ []))
      fresh 2 (omega arith) (omega arith)
