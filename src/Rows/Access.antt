-- ===== src/Rows/Access.antt =====
-- Access to the rows of a result in any order, in src/preludedb-sql.c over
-- plugins/sql/sqlite3/sqlite3.c.
use libpreludedb.Base.{
  ℕ, zero, suc, ◌+◌, ◌<◌, ◌≡◌, refl, ap, ◌∙◌, sym, true, false, Option, none, some, List, [], ◌∷◌,
  ◌++◌, Bytes, Result, ok, length, length-append, get_elem?, arith, append_assoc, append-nil,
}
use libpreludedb.Rows.{Row, Table, Cursor, Pointer, add_row, fetch_rows}
use libpreludedb.Rows.Append.{
  row_of, Counts, rows-add_row, Counts-add_row, statement-add_row, done-add_row,
}

-- the rows of a table, numbered from `i` on
unfoldable pub rows_of : ℕ → List (List Bytes) → List (Option Row)
rows_of i [] = []
rows_of i (bytes ∷ all) = some (row_of i bytes) ∷ rows_of (suc i) all

pub rows_of-append :
    (i : ℕ) (seen rest : List (List Bytes))
    → rows_of i (seen ++ rest) ≡ rows_of i seen ++ rows_of (i + length seen) rest
unfolding rows_of
rows_of-append i [] rest = ap (λ k. rows_of k rest) (omega arith)
rows_of-append i (b ∷ seen) rest =
    let later : suc i + length seen ≡ i + suc (length seen) = omega arith in
    ap (λ rs. some (row_of i b) ∷ rs)
      (rows_of-append (suc i) seen rest ∙ ap (λ k. rows_of (suc i) seen ++ rows_of k rest) later)

pub length-rows_of : (i : ℕ) (all : List (List Bytes)) → length (rows_of i all) ≡ length all
unfolding rows_of
length-rows_of i [] = refl
length-rows_of i (b ∷ all) = ap suc (length-rows_of (suc i) all)

pub get_elem?-rows_of :
    (i k : ℕ) (all : List (List Bytes))
    → k < length all
    → (bytes : List Bytes) × (get_elem? (rows_of i all) k ≡ some (some (row_of (i + k) bytes)))
unfolding rows_of
get_elem?-rows_of i k [] p = elim p [ ]
get_elem?-rows_of i zero (b ∷ all) p = (b, ap (λ n. some (some (row_of n b))) (omega arith))
get_elem?-rows_of i (suc k) (b ∷ all) p =
    let (bytes, e) = get_elem?-rows_of (suc i) k all (omega arith) in
    let later : suc i + k ≡ i + suc k = omega arith in
    (bytes, e ∙ ap (λ n. some (some (row_of n bytes))) later)

module _ {Statement : Type 0} (cursor : Cursor Statement) where
  open cursor use {columns, step}

  -- The rows that a statement still returns, up to its end.
  unfoldable pub Yields : Statement → List (List Bytes) → Type 0
  Yields st [] = (st' : Statement) × (step st ≡ (ok none, st'))
  Yields st (bytes ∷ rest) =
      (st' : Statement) × (step st ≡ (ok (some bytes), st'))
      × (length bytes ≡ columns)
      × Yields st' rest

  -- The table holds the rows `seen`, and its statement returns the rows `rest`, if it is not done.
  pub record IsCached (seen rest : List (List Bytes)) (t : Table Statement) : Type 0 where
    pub rows : t.rows ≡ rows_of 0 seen
    pub yields : t.done ≡ false → Yields t.statement rest
    pub counts : Counts cursor t
    pub finished : t.done ≡ true → rest ≡ []

  fetch_rows-row :
      (missing : ℕ) (row : Pointer) (t : Table Statement) (bytes : List Bytes) (st : Statement)
      → step t.statement ≡ (ok (some bytes), st)
      → fetch_rows cursor (suc missing) row t
        ≡ fetch_rows cursor missing
            (some (length t.rows))
            (add_row cursor bytes (record t { statement = st }))
  unfolding fetch_rows
  fetch_rows-row missing row t bytes st e = rw (
    ap (λ (p : Result (Option (List Bytes)) × Statement). p.0) e,
    ap (λ (p : Result (Option (List Bytes)) × Statement). p.1) e,
    fetch_rows,
  )

  fetch_rows-done :
      (missing : ℕ) (row : Pointer) (t : Table Statement) (st : Statement)
      → step t.statement ≡ (ok none, st)
      → fetch_rows cursor (suc missing) row t ≡ (ok none, record t { statement = st })
  unfolding fetch_rows
  fetch_rows-done missing row t st e = rw (
    ap (λ (p : Result (Option (List Bytes)) × Statement). p.0) e,
    ap (λ (p : Result (Option (List Bytes)) × Statement). p.1) e,
    fetch_rows,
  )

  -- the table behind one more row
  one_more :
      (seen : List (List Bytes)) (bytes : List Bytes) (rest : List (List Bytes))
      (t : Table Statement)
      → IsCached seen (bytes ∷ rest) t
      → t.done ≡ false
      → (st : Statement) × (step t.statement ≡ (ok (some bytes), st))
        × IsCached (seen ++ bytes ∷ []) rest (add_row cursor bytes (record t { statement = st }))
  unfolding Yields
  one_more seen bytes rest t h live =
      let (st, e, full, yields) = h.yields live in
      let t₁ = record t { statement = st } in
      let n : length t.rows ≡ 0 + length seen =
        ap length h.rows ∙ length-rows_of 0 seen ∙ omega arith in
      (
        st,
        e,
        record {
          rows =
              rows-add_row cursor bytes t₁ h.counts full
              ∙ (λ i. h.rows i ++ some (row_of (n i) bytes) ∷ [])
              ∙ unfold rows_of in sym (rows_of-append 0 seen (bytes ∷ []));
          yields = λ _. rw (statement-add_row cursor bytes t₁) yields;
          counts = Counts-add_row cursor bytes t₁ h.counts;
          finished = λ d. let more = h.finished (sym (done-add_row cursor bytes t₁) ∙ d) in cc;
        },
      )

  -- the pointer behind a run of the loop over the rows `taken`
  unfoldable pub pointer : Pointer → ℕ → List (List Bytes) → Pointer
  pointer row k [] = row
  pointer row k (_ ∷ taken) = pointer (some k) (suc k) taken

  pub pointer_last :
      (row : Pointer) (k : ℕ) (bytes : List Bytes) (taken : List (List Bytes))
      → pointer row k (bytes ∷ taken) ≡ some (k + length taken)
  unfolding pointer
  pointer_last row k bytes [] = ap some (omega arith)
  pointer_last row k bytes (b ∷ taken) =
      let later : suc k + length taken ≡ k + suc (length taken) = omega arith in
      pointer_last (some k) (suc k) b taken ∙ ap some later

  pub length-rows :
      (seen rest : List (List Bytes)) (t : Table Statement)
      → IsCached seen rest t
      → length t.rows ≡ length seen
  length-rows seen rest t h = ap length h.rows ∙ length-rows_of 0 seen

  still :
      (bytes : List Bytes) (t : Table Statement) (st : Statement)
      → t.done ≡ false
      → (add_row cursor bytes (record t { statement = st })).done ≡ false
  still bytes t st live = done-add_row cursor bytes (record t { statement = st }) ∙ live

  -- the rows `taken` are fetched one by one
  pub fetch_rows-taken :
      (taken seen rest : List (List Bytes)) (row : Pointer) (t : Table Statement)
      → IsCached seen (taken ++ rest) t
      → t.done ≡ false
      → (t' : Table Statement) × (fetch_rows cursor (length taken) row t
          ≡ (ok (some (pointer row (length seen) taken)), t'))
        × IsCached (seen ++ taken) rest t'
  unfolding pointer
  fetch_rows-taken [] seen rest row t h live =
      (t, unfold fetch_rows in refl, rw (append-nil seen) h)
  fetch_rows-taken (b ∷ taken) seen rest row t h live =
      let (st, e, h') = one_more seen b (taken ++ rest) t h live in
      let t₁ = add_row cursor b (record t { statement = st }) in
      let (t', run, h'') =
        fetch_rows-taken taken (seen ++ b ∷ []) rest (some (length t.rows)) t₁ h'
          (still b t st live) in
      let n = length-rows seen ((b ∷ taken) ++ rest) t h in
      let k : length (seen ++ b ∷ []) ≡ suc (length seen) =
        omega (arith, length-append seen (b ∷ [])) in
      (
        t',
        fetch_rows-row (length taken) row t b st e
            ∙ run
            ∙ (λ i. (ok (some (pointer (some (n i)) (k i) taken)), t')),
        rw (append_assoc seen (b ∷ []) taken) at h'',
      )

  -- more rows are asked for than there are
  pub fetch_rows-end :
      (rest seen : List (List Bytes)) (missing : ℕ) (row : Pointer) (t : Table Statement)
      → IsCached seen rest t
      → t.done ≡ false
      → length rest < missing
      → (t' : Table Statement) × (fetch_rows cursor missing row t ≡ (ok none, t'))
        × (t'.rows ≡ rows_of 0 (seen ++ rest))
        × Counts cursor t'
  unfolding Yields
  fetch_rows-end rest seen zero row t h live p = elim p [ ]
  fetch_rows-end [] seen (suc missing) row t h live p =
      let (st, e) = h.yields live in
      (
        record t { statement = st },
        fetch_rows-done missing row t st e,
        h.rows ∙ ap (rows_of 0) (sym (append-nil seen)),
        h.counts,
      )
  fetch_rows-end (b ∷ rest) seen (suc missing) row t h live p =
      let (st, e, h') = one_more seen b rest t h live in
      let t₁ = add_row cursor b (record t { statement = st }) in
      let (t', run, all, counts) =
        fetch_rows-end rest (seen ++ b ∷ []) missing (some (length t.rows)) t₁ h'
          (still b t st live) (omega arith) in
      (
        t',
        fetch_rows-row missing row t b st e ∙ run,
        all ∙ ap (rows_of 0) (append_assoc seen (b ∷ []) rest),
        counts,
      )
