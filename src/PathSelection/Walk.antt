-- ===== src/PathSelection/Walk.antt =====
-- The walk over a selection of src/preludedb-path-selection.c by `preludedb_path_selection_get_next`.
use libpreludedb.Base.{
  ℕ, zero, suc, ◌+◌, ◌<◌, ◌≤◌, ◌%◌, ◌≡◌, refl, sym, ap, ◌∙◌, Option, none, some, List, [], ◌∷◌,
  ◌++◌, arith, length, length-append, get_elem?-append_here, lt→ltb, ge→ltb, ok, err, index,
  append_assoc,
}
use libpreludedb.PathSelection.{SelectedPath, PathSelection, get_selected, get_next, no_error}
use libpreludedb.Idmef.{uint32_mod}
use libpreludedb.PathSelection.Layout.{LaidOut, IsLaidOut}
use mathlib.Core.Option
use native.Mathlib.Numerals.{add-one}

module _ {IdmefPath : Type 0} where
  -- The paths that the loop `while ( (selected = get_next(selection, selected)) )` visits.
  -- `none`: the fuel ran out.
  unfoldable pub walk :
      ℕ
      → PathSelection IdmefPath
      → Option (SelectedPath IdmefPath)
      → Option (List (SelectedPath IdmefPath))
  walk zero selection selected = none
  walk (suc fuel) selection selected = elim (get_next selection selected) [
    | none ↦ some []
    | some s ↦ Option.map (λ rest. s ∷ rest) (walk fuel selection (some s))
  ]

  module _ (selection : PathSelection IdmefPath) (h : IsLaidOut selection) where
    get_selected-append :
        (seen : List (SelectedPath IdmefPath)) (s : SelectedPath IdmefPath)
        (rest : List (SelectedPath IdmefPath))
        → selection.selecteds ≡ seen ++ s ∷ rest
        → get_selected selection (length seen) ≡ ok s
    unfolding get_selected
    get_selected-append seen s rest e = rw (
      lt→ltb (length seen) selection.count
          (omega (arith, h.counted, ap length e, length-append seen (s ∷ rest))),
      e,
      get_elem?-append_here seen rest s,
    )

    get_selected-end :
        (i : ℕ) → length selection.selecteds ≤ i → get_selected selection i ≡ err index
    unfolding get_selected
    get_selected-end i p = rw (ge→ltb i selection.count (omega (arith, h.counted)))

    walk-stop :
        (fuel : ℕ) (selected : Option (SelectedPath IdmefPath))
        → get_next selection selected ≡ none
        → walk (suc fuel) selection selected ≡ some []
    unfolding walk
    walk-stop fuel selected e = rw (e, walk)

    walk-next :
        (fuel : ℕ) (selected : Option (SelectedPath IdmefPath)) (s : SelectedPath IdmefPath)
        (rest : List (SelectedPath IdmefPath))
        → get_next selection selected ≡ some s
        → walk fuel selection (some s) ≡ some rest
        → walk (suc fuel) selection selected ≡ some (s ∷ rest)
    unfolding walk
    walk-next fuel selected s rest e r = rw (e, walk) (rw r)

    get_next-idx :
        (s : SelectedPath IdmefPath) (i : ℕ)
        → s.idx ≡ i
        → i < selection.count
        → get_next selection (some s) ≡ no_error (get_selected selection (i + 1))
    unfolding get_next
    get_next-idx s i e p =
        let same : (s.idx + 1) % uint32_mod ≡ i + 1 = omega (arith, h.count_fits) in
        ap (λ k. no_error (get_selected selection k)) same

    walk_from :
        (fuel : ℕ) (seen : List (SelectedPath IdmefPath)) (s : SelectedPath IdmefPath)
        (rest : List (SelectedPath IdmefPath)) (column : ℕ)
        → selection.selecteds ≡ seen ++ s ∷ rest
        → s.idx ≡ length seen
        → LaidOut (suc (length seen)) column rest selection.numpos
        → length rest < fuel
        → walk fuel selection (some s) ≡ some rest
    walk_from zero seen s rest column e i l p = elim p [ ]
    walk_from (suc fuel) seen s [] column e i l p = walk-stop fuel (some s) (
        get_next-idx s (length seen) i
          (omega (arith, h.counted, ap length e, length-append seen (s ∷ [])))
        ∙ ap no_error (
            get_selected-end (length seen + 1)
              (omega (arith, ap length e, length-append seen (s ∷ [])))))
    walk_from (suc fuel) seen s (t ∷ rest) column e i l p =
        let seen' = seen ++ s ∷ [] in
        let e' : selection.selecteds ≡ seen' ++ t ∷ rest =
          e ∙ sym (append_assoc seen (s ∷ []) (t ∷ rest)) in
        let one_more : length seen' ≡ length seen + 1 = length-append seen (s ∷ []) in
        walk-next fuel (some s) t rest
          (get_next-idx s (length seen) i
              (omega (arith, h.counted, ap length e, length-append seen (s ∷ t ∷ rest)))
            ∙ ap no_error (rw one_more at (get_selected-append seen' t rest e')))
          (walk_from fuel seen' t rest (column + t.column_count) e' (omega (arith, l.0))
            (rw one_more (rw add-one l.2)) (omega arith))

  -- The walk visits every path of a selection that is laid out, once and in order: one round for
  -- each and one more are enough.
  pub walk_lem :
      (fuel : ℕ) (selection : PathSelection IdmefPath)
      → IsLaidOut selection
      → length selection.selecteds < fuel
      → walk fuel selection none ≡ some selection.selecteds
  walk_lem zero selection h p = elim p [ ]
  walk_lem (suc fuel) selection h p = go selection.selecteds refl
    where
      first : get_next selection none ≡ no_error (get_selected selection 0)
      first = unfold get_next in refl

      go :
          (selecteds : List (SelectedPath IdmefPath))
          → selection.selecteds ≡ selecteds
          → walk (suc fuel) selection none ≡ some selecteds
      go [] e =
          walk-stop selection h fuel none
            (first ∙ ap no_error (get_selected-end selection h 0 (omega (arith, ap length e))))
      go (s ∷ rest) e =
          let l : LaidOut 0 0 (s ∷ rest) selection.numpos = rw e at h.laid_out in
          walk-next selection h fuel none s rest
            (first ∙ ap no_error (get_selected-append selection h [] s rest e))
            (walk_from selection h fuel [] s rest (0 + s.column_count) e l.0 l.2
              (omega (arith, ap length e)))
