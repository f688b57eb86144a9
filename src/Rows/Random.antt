-- ===== src/Rows/Random.antt =====
-- `preludedb_sql_table_get_row` of src/preludedb-sql.c over a statement of SQLite.
use libpreludedb.Base.{
  ℕ, zero, suc, ◌+◌, ◌-◌, ◌<◌, ◌≤◌, ◌≡◌, refl, ap, ◌∙◌, sym, true, false, none, some, List, [], ◌∷◌,
  ◌++◌, Bytes, ok, err, Error, length, length-append, get_elem?, get_elem?-out,
  get_elem?-append_left, ltb, ltb→lt, ltb→ge, ◌==◌, if◌then◌else◌, arith, append_assoc, inl, inr,
  Bool-cases,
}
use libpreludedb.Sql.{Plugin, Sql}
use libpreludedb.Rows.{Row, Table, Cursor, fetch_rows, fetch_row, get_row, wanted, fetched}
use libpreludedb.Rows.Access.{
  rows_of, rows_of-append, length-rows_of, get_elem?-rows_of, IsCached, pointer, pointer_last,
  length-rows, fetch_rows-taken, fetch_rows-end,
}

split :
    {A : Type 0} (n : ℕ) (xs : List A)
    → n < length xs
    → (y : A) × (ys : List A) × (zs : List A) × (xs ≡ (y ∷ ys) ++ zs) × (length ys ≡ n)
split n [] p = elim p [ ]
split zero (x ∷ xs) p = (x, [], xs, refl, refl)
split (suc n) (x ∷ xs) p =
    let (y, ys, zs, e, l) = split n xs (omega arith) in (x, y ∷ ys, zs, ap (λ l. x ∷ l) e, ap suc l)

module _ {Statement : Type 0} (cursor : Cursor Statement) (plugin : Plugin) where
  module _ (i : ℕ) (t : Table Statement) (s : Sql (plugin.Session)) where
    get_row-cached :
        (row : Row)
        → get_elem? t.rows (wanted cursor plugin i t) ≡ some (some row)
        → get_row cursor plugin i t s ≡ (ok (some (some (wanted cursor plugin i t))), t, s)
    unfolding get_row
    get_row-cached row e = rw (e, get_row)

    get_row-missed :
        get_elem? t.rows (wanted cursor plugin i t) ≡ none
        → t.done ≡ false
        → get_row cursor plugin i t s
          ≡ fetched cursor plugin (fetch_row cursor (wanted cursor plugin i t) t) s
    unfolding get_row
    get_row-missed e live = rw (e, get_row) (rw live)

    get_row-null :
        get_elem? t.rows (wanted cursor plugin i t) ≡ some none
        → t.done ≡ false
        → get_row cursor plugin i t s
          ≡ fetched cursor plugin (fetch_row cursor (wanted cursor plugin i t) t) s
    unfolding get_row
    get_row-null e live = rw (e, get_row) (rw live)

  same_row :
      (seen rest all : List (List Bytes)) (k : ℕ) (t : Table Statement)
      → IsCached cursor seen rest t
      → seen ++ rest ≡ all
      → k < length seen
      → get_elem? t.rows k ≡ get_elem? (rows_of 0 all) k
  same_row seen rest all k t h e p =
      ap (λ rs. get_elem? rs k) h.rows
      ∙ sym (
          get_elem?-append_left (rows_of 0 seen) (rows_of (0 + length seen) rest) k
            (omega (arith, length-rows_of 0 seen)))
      ∙ ap (λ rs. get_elem? rs k) (sym (rows_of-append 0 seen rest) ∙ ap (rows_of 0) e)

  -- a row that was not fetched before: those up to it are fetched
  fetch_row-taken :
      (seen rest : List (List Bytes)) (k : ℕ) (t : Table Statement)
      → IsCached cursor seen rest t
      → t.done ≡ false
      → length seen ≤ k
      → k < length (seen ++ rest)
      → (taken rest' : List (List Bytes)) × (t' : Table Statement) × (fetch_row cursor k t
          ≡ (ok (some (some k)), t'))
        × ((seen ++ taken) ++ rest' ≡ seen ++ rest)
        × IsCached cursor (seen ++ taken) rest' t'
        × (k < length (seen ++ taken))
  unfolding fetch_row
  fetch_row-taken seen rest k t h live q p =
      let (y, ys, zs, e, l) =
        split (k - length seen) rest (omega (arith, length-append seen rest)) in
      let h₁ : IsCached cursor seen ((y ∷ ys) ++ zs) t = rw e at h in
      let (t', run, h') = fetch_rows-taken cursor (y ∷ ys) seen zs none t h₁ live in
      let count : (k + 1) - length t.rows ≡ length (y ∷ ys) =
        omega (arith, length-rows cursor seen rest t h) in
      let last : pointer cursor none (length seen) (y ∷ ys) ≡ some k =
        pointer_last cursor none (length seen) y ys ∙ ap some (omega arith) in
      (
        y ∷ ys,
        zs,
        t',
        ap (λ n. fetch_rows cursor n none t) count ∙ run ∙ ap (λ r. (ok (some r), t')) last,
        append_assoc seen (y ∷ ys) zs ∙ ap (λ r. seen ++ r) (sym e),
        h',
        omega (arith, length-append seen (y ∷ ys)),
      )

  -- Asking for a row of the result: the row comes back, fetched now if it was not before, and
  -- holds the bytes that the statement returned for each of its columns, or NULL for a column of no
  -- bytes, also if its text is empty; the rows stay in order. `i` may be the number that asks for
  -- the row behind those that were fetched.
  pub get_row_lem :
      (seen rest : List (List Bytes)) (i : ℕ) (t : Table Statement) (s : Sql (plugin.Session))
      → IsCached cursor seen rest t
      → wanted cursor plugin i t < length (seen ++ rest)
      → (seen' rest' : List (List Bytes)) × (t' : Table Statement) × (get_row cursor plugin i t s
          ≡ (ok (some (some (wanted cursor plugin i t))), t', s))
        × (seen' ++ rest' ≡ seen ++ rest)
        × IsCached cursor seen' rest' t'
        × (get_elem? t'.rows (wanted cursor plugin i t)
            ≡ get_elem? (rows_of 0 (seen ++ rest)) (wanted cursor plugin i t))
  get_row_lem seen rest i t s h p =
      let k = wanted cursor plugin i t in
      elim (Bool-cases (ltb k (length seen))) [
        | inl q ↦
            let q' = ltb→lt k (length seen) q in
            let (bytes, e) = get_elem?-rows_of 0 k seen q' in
            (
              seen,
              rest,
              t,
              get_row-cached i t s _ (ap (λ rs. get_elem? rs k) h.rows ∙ e),
              refl,
              h,
              same_row seen rest (seen ++ rest) k t h refl q',
            )
        | inr q ↦
            let q' = ltb→ge k (length seen) q in
            elim (Bool-cases t.done) [
              | inl d ↦ absurd (omega (arith, length-append seen rest, ap length (h.finished d)))
              | inr live ↦
                  let (taken, rest', t', run, e, h', r) =
                    fetch_row-taken seen rest k t h live q' p in
                  let missing =
                    get_elem?-out t.rows k (omega (arith, length-rows cursor seen rest t h)) in
                  (
                    seen ++ taken,
                    rest',
                    t',
                    get_row-missed i t s missing live ∙ ap (λ r. fetched cursor plugin r s) run,
                    e,
                    h',
                    same_row (seen ++ taken) rest' (seen ++ rest) k t' h' e r,
                  )
            ]
      ]

  -- Asking for a row behind the last one, as long as the end was not met before, fetches all the
  -- rows that are left, returns 0, and remembers the end.
  pub get_row_end :
      (seen rest : List (List Bytes)) (i : ℕ) (t : Table Statement) (s : Sql (plugin.Session))
      → IsCached cursor seen rest t
      → t.done ≡ false
      → length (seen ++ rest) ≤ wanted cursor plugin i t
      → (t' : Table Statement) × (get_row cursor plugin i t s ≡ (ok none, t', s))
        × IsCached cursor (seen ++ rest) [] t'
        × (t'.done ≡ true)
  unfolding fetch_row
  get_row_end seen rest i t s h live p =
      let k = wanted cursor plugin i t in
      let n = length-rows cursor seen rest t h in
      let (t', run, rows, counts) =
        fetch_rows-end cursor rest seen ((k + 1) - length t.rows) none t h live
          (omega (arith, length-append seen rest, n)) in
      let missing = get_elem?-out t.rows k (omega (arith, length-append seen rest, n)) in
      (
        record t' { done = true },
        get_row-missed i t s missing live ∙ ap (λ r. fetched cursor plugin r s) run,
        record { rows = rows; yields = λ e. cc; counts = counts; finished = λ _. refl },
        refl,
      )

  -- Once the end was met, asking for the row behind the last one returns 0 again, and asking
  -- further is an error; neither touches the statement.
  pub get_row_done :
      (all : List (List Bytes)) (i : ℕ) (t : Table Statement) (s : Sql (plugin.Session))
      → IsCached cursor all [] t
      → t.done ≡ true
      → length all ≤ wanted cursor plugin i t
      → get_row cursor plugin i t s
        ≡ ((if wanted cursor plugin i t == length all then ok none else err Error.index), t, s)
  unfolding get_row
  get_row_done all i t s h d p =
      let n = length-rows cursor all [] t h in
      rw (get_elem?-out t.rows (wanted cursor plugin i t) (omega (arith, n)), get_row) (rw (d, n))

  -- A row that was fetched and destroyed is a null pointer in the table. Asking for it returns 1
  -- without a row: nothing is fetched, and the caller's pointer is left as it was.
  pub get_row_destroyed :
      (i : ℕ) (t : Table Statement) (s : Sql (plugin.Session))
      → get_elem? t.rows (wanted cursor plugin i t) ≡ some none
      → t.done ≡ false
      → get_row cursor plugin i t s ≡ (ok (some none), t, s)
  unfolding fetch_row
  get_row_destroyed i t s e live =
      let k = wanted cursor plugin i t in
      elim (Bool-cases (ltb k (length t.rows))) [
        | inl q ↦
            let none_left : (k + 1) - length t.rows ≡ 0 =
              omega (arith, ltb→lt k (length t.rows) q) in
            let nothing_run : fetch_row cursor k t ≡ (ok (some none), t) =
              ap (λ n. fetch_rows cursor n none t) none_left ∙ unfold fetch_rows in refl in
            get_row-null i t s e live ∙ ap (λ r. fetched cursor plugin r s) nothing_run
        | inr q ↦ let out = get_elem?-out t.rows k (ltb→ge k (length t.rows) q) in absurd (cc)
      ]
