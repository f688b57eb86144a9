-- ===== src/PathSelection/Layout.antt =====
-- Where the selected paths of src/preludedb-path-selection.c stand in the result.
use libpreludedb.Base.{
  ℕ, suc, ◌+◌, ◌-◌, ◌<◌, ◌%◌, ◌≡◌, ap, List, [], ◌∷◌, ◌++◌, arith, length, length-append,
}
use libpreludedb.Idmef.{ℤ, negsuc}
use libpreludedb.PathSelection.{
  SelectedPath, PathSelection, to_uint32, path_selection_new, placed, path_selection_add,
}
use libpreludedb.Idmef.{uint32_mod}

module _ {IdmefPath : Type 0} where
  -- From index `i` and column `column` on, each path has the next index, and its columns begin where
  -- those of the path before it end; the last column is before `limit`.
  abbrev pub LaidOut : ℕ → ℕ → List (SelectedPath IdmefPath) → ℕ → Type 0
  LaidOut i column [] limit = column ≡ limit
  LaidOut i column (s ∷ selecteds) limit =
      (s.idx ≡ i)
      × (s.position ≡ column)
      × LaidOut (suc i) (column + s.column_count) selecteds limit

  pub record IsLaidOut (selection : PathSelection IdmefPath) : Type 0 where
    pub counted : selection.count ≡ length selection.selecteds
    pub laid_out : LaidOut 0 0 selection.selecteds selection.numpos
    pub count_fits : selection.count < uint32_mod

  LaidOut-snoc :
      (selecteds : List (SelectedPath IdmefPath)) (s : SelectedPath IdmefPath)
      (i column limit limit' : ℕ)
      → LaidOut i column selecteds limit
      → s.idx ≡ i + length selecteds
      → s.position ≡ limit
      → limit' ≡ limit + s.column_count
      → LaidOut i column (selecteds ++ s ∷ []) limit'
  LaidOut-snoc [] s i column limit limit' h a b c = (omega arith, omega arith, omega arith)
  LaidOut-snoc (t ∷ selecteds) s i column limit limit' h a b c = (
    h.0,
    h.1,
    LaidOut-snoc selecteds s (suc i) (column + t.column_count) limit limit' h.2 (omega arith) b c,
  )

  -- An empty selection is laid out.
  pub path_selection_new-IsLaidOut : IsLaidOut path_selection_new
  path_selection_new-IsLaidOut = omega arith

  module _ (columns : SelectedPath IdmefPath → ℤ) (selection : PathSelection IdmefPath)
      (s : SelectedPath IdmefPath) where
    placed_idx : (placed columns selection s).idx ≡ selection.count
    unfolding placed
    placed_idx = ground arith

    placed_position : (placed columns selection s).position ≡ selection.numpos
    unfolding placed
    placed_position = ground arith

    -- Adding a path to a selection lays it out behind the others, as long as the indices and the
    -- columns are numbers of 32 bits.
    pub path_selection_add-IsLaidOut :
        IsLaidOut selection
        → selection.count + 1 < uint32_mod
        → selection.numpos + (placed columns selection s).column_count < uint32_mod
        → IsLaidOut (path_selection_add columns selection s)
    unfolding path_selection_add
    path_selection_add-IsLaidOut h p q = record {
      counted =
          omega
            (arith, h.counted, length-append selection.selecteds (placed columns selection s ∷ []));
      laid_out =
          LaidOut-snoc selection.selecteds (placed columns selection s) 0 0 selection.numpos
            ((selection.numpos + (placed columns selection s).column_count) % uint32_mod) h.laid_out
            (omega (arith, placed_idx, h.counted)) placed_position (omega arith);
      count_fits = omega arith;
    }

    placed_count :
        (n : ℕ)
        → s.column_count ≡ 1
        → ((t : SelectedPath IdmefPath) → columns t ≡ negsuc n)
        → (placed columns selection s).column_count ≡ to_uint32 (negsuc n)
    unfolding placed
    placed_count n one fails =
        let s' = record s {
          idx = selection.count;
          position = selection.numpos;
          column_count = 1;
        } in
        rw one (ap to_uint32 (fails s'))

    -- If the format plugin reports an error as the column count of a path, the path is added all
    -- the same, and the next path is laid over the columns before it: the number of columns goes
    -- down.
    pub path_selection_add_negative :
        (n : ℕ)
        → s.column_count ≡ 1
        → ((t : SelectedPath IdmefPath) → columns t ≡ negsuc n)
        → n < selection.numpos
        → selection.numpos < uint32_mod
        → (path_selection_add columns selection s).numpos ≡ selection.numpos - (n + 1)
    unfolding path_selection_add
    path_selection_add_negative n one fails p q = omega (arith, placed_count n one fails)
