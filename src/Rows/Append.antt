-- ===== src/Rows/Append.antt =====
-- A row of the statement, appended to the rows of src/preludedb-sql.c.
use libpreludedb.Base.{
  ℕ, ◌+◌, ◌-◌, ◌≡◌, refl, ap, ◌∙◌, sym, true, Option, none, some, List, [], ◌∷◌, ◌++◌, Bytes,
  length, length-append, map, set, replicate, leb, if◌then◌else◌, arith, append_assoc, ◌⊎◌, inl,
  inr,
}
use libpreludedb.Rows.{
  Cell, unread, null_cell, value, Row, Table, Cursor, cell_of, column_data, row_new_field,
  field_copy, copy_fields, table_get_column_count, table_new_row, add_row, grown,
}

set-here : {A : Type 0} (xs ys : List A) (y v : A) → set (xs ++ y ∷ ys) (length xs) v ≡ xs ++ v ∷ ys
set-here [] ys y v = refl
set-here (x ∷ xs) ys y v = ap (λ zs. x ∷ zs) (set-here xs ys y v)

-- What a row holds for the bytes of a column of the statement: them, or NULL where there are none,
-- also for a text that is empty.
abbrev pub stored : Bytes → Cell
stored [] = null_cell
stored (c ∷ bytes) = value (c ∷ bytes)

-- the fields of a row of the statement
abbrev pub cells : List Bytes → List Cell
cells bytes = map stored bytes

cell_of-column_data : (bytes : Bytes) → cell_of (column_data bytes) ≡ stored bytes
cell_of-column_data [] = refl
cell_of-column_data (c ∷ bytes) = refl

abbrev pub row_of : ℕ → List Bytes → Row
row_of i bytes = record { index = i; fields = cells bytes }

copy_fields_lem :
    (bytes : List Bytes) (i : ℕ) (done : List Cell)
    → copy_fields
        (record { index = i; fields = done ++ replicate (length bytes) unread })
        (length done)
        bytes
      ≡ record { index = i; fields = done ++ cells bytes }
unfolding copy_fields field_copy row_new_field
copy_fields_lem [] i done = refl
copy_fields_lem (b ∷ bytes) i done =
    let cell = stored b in
    let left = replicate (length bytes) unread in
    let copied : set (done ++ unread ∷ left) (length done) (cell_of (column_data b))
        ≡ (done ++ cell ∷ []) ++ left =
      ap (set (done ++ unread ∷ left) (length done)) (cell_of-column_data b)
      ∙ set-here done left unread cell
      ∙ sym (append_assoc done (cell ∷ []) left) in
    let next : length done + 1 ≡ length (done ++ cell ∷ []) =
      sym (length-append done (cell ∷ [])) in
    let last : (done ++ cell ∷ []) ++ cells bytes ≡ done ++ cell ∷ cells bytes =
      append_assoc done (cell ∷ []) (cells bytes) in
    (λ j. copy_fields (record { index = i; fields = copied j }) (next j) bytes)
    ∙ copy_fields_lem bytes i (done ++ cell ∷ [])
    ∙ (λ j. record { index = i; fields = last j })

module _ {Statement : Type 0} (cursor : Cursor Statement) where
  open cursor use {columns}

  -- the number of columns is asked for once
  abbrev pub Counts : Table Statement → Type 0
  Counts t = (t.column_count ≡ 0) ⊎ (t.column_count ≡ columns)

  counted : (t : Table Statement) → Counts t → (table_get_column_count cursor t).0 ≡ columns
  unfolding table_get_column_count
  counted t (inl e) = rw e refl
  counted t (inr e) = ground arith

  counted_rows : (t : Table Statement) → (table_get_column_count cursor t).1.rows ≡ t.rows
  unfolding table_get_column_count
  counted_rows t = ground arith

  leb_self : (n : ℕ) → leb n n ≡ true
  leb_self n = ground arith

  grown_one : (rows : List (Option Row)) → grown cursor rows (length rows + 1) ≡ rows ++ none ∷ []
  grown_one rows =
      let one : (length rows + 1) - length rows ≡ 1 = omega arith in
      ap (λ n. rows ++ replicate n none) one

  row_added :
      (bytes : List Bytes) (n : ℕ) (rows rows' : List (Option Row))
      → n ≡ length bytes
      → rows' ≡ rows
      → let blank : Row = record { index = length rows; fields = replicate n unread } in
        set
          (set
            (if leb (length rows') (length rows)
              then grown cursor rows' (length rows + 1)
              else rows')
            (length rows)
            (some blank))
          (length rows)
          (some (copy_fields blank 0 bytes))
        ≡ rows ++ some (row_of (length rows) bytes) ∷ []
  row_added bytes n rows rows' e same =
      let blank : Row = record { index = length rows; fields = replicate (length bytes) unread } in
      rw (e, same, leb_self (length rows), grown_one rows)
        (rw (set-here rows [] none (some blank)) (
          set-here rows [] (some blank) _
          ∙ ap (λ r. rows ++ some r ∷ []) (copy_fields_lem bytes (length rows) [])))

  pub rows-add_row :
      (bytes : List Bytes) (t : Table Statement)
      → Counts t
      → length bytes ≡ columns
      → (add_row cursor bytes t).rows ≡ t.rows ++ some (row_of (length t.rows) bytes) ∷ []
  unfolding add_row table_new_row
  rows-add_row bytes t c e =
      row_added bytes (table_get_column_count cursor t).0 t.rows
        (table_get_column_count cursor t).1.rows (counted t c ∙ sym e) (counted_rows t)

  pub Counts-add_row :
      (bytes : List Bytes) (t : Table Statement) → Counts t → Counts (add_row cursor bytes t)
  unfolding add_row table_new_row table_get_column_count
  Counts-add_row bytes t c = ground arith

  pub statement-add_row :
      (bytes : List Bytes) (t : Table Statement) → (add_row cursor bytes t).statement ≡ t.statement
  unfolding add_row table_new_row table_get_column_count
  statement-add_row bytes t = ground arith

  pub done-add_row :
      (bytes : List Bytes) (t : Table Statement) → (add_row cursor bytes t).done ≡ t.done
  unfolding add_row table_new_row table_get_column_count
  done-add_row bytes t = ground arith
