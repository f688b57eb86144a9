-- ===== src/SqlSelect/Numbers.antt =====
-- A selection of src/preludedb-path-selection.c, added to the SELECT statement of
-- src/preludedb-sql-select.c: the loop, and the columns that the clauses name.
use mathlib.Core.Option
use libpreludedb.Base.{
  ℕ, zero, suc, ◌+◌, ◌<◌, ◌≤◌, ◌^◌, ◌≡◌, refl, ap, ◌∙◌, sym, Option, none, some, List, [], ◌∷◌,
  ◌++◌, Bytes, Result, ok, err, length, Bool-cases, Option-cases, inl, inr, arith, ◌>>=◌, >>=-eq-ok,
}
use libpreludedb.Idmef.{StringLib, IsAmple}
use libpreludedb.PathSelection.{Object, function, SelectedPath, PathSelection, get_next}
use libpreludedb.PathSelection.Layout.{LaidOut, IsLaidOut}
use libpreludedb.PathSelection.Walk.{walk, walk_lem}
use libpreludedb.SqlSelect.{
  Select, Writers, select_new, separate, object_to_string, add_alias, add_options, select_object,
  add_selected, add_selection_from, add_selection,
}
use libpreludedb.SqlSelect.Clauses.{
  append_items, append_items-append, group_items, order_items, with_options, add_options_lem,
}

module _ (lib : StringLib) {IdmefPath State : Type 0} (writers : Writers IdmefPath State) where
  -- The paths of a list added one after the other, up to the first that fails.
  unfoldable pub add_all : List (SelectedPath IdmefPath) → State → Select → Result (Select × State)
  add_all [] d s = ok (s, d)
  add_all (x ∷ xs) d s = add_selected lib writers x d s >>= λ (s', d'). add_all xs d' s'

  module _ (selection : PathSelection IdmefPath) where
    stops :
        (fuel : ℕ) (selected : Option (SelectedPath IdmefPath)) (d : State) (s : Select)
        → get_next selection selected ≡ none
        → (walk (suc fuel) selection selected ≡ some [])
          × (add_selection_from lib writers (suc fuel) selection selected d s ≡ some (ok (s, d)))
    unfolding add_selection_from walk
    stops fuel selected d s g = (rw (g, walk), rw (g, add_selection_from))

    goes_on :
        (fuel : ℕ) (selected : Option (SelectedPath IdmefPath)) (t : SelectedPath IdmefPath)
        (d : State) (s : Select)
        → get_next selection selected ≡ some t
        → (walk (suc fuel) selection selected
            ≡ Option.map (λ rest. t ∷ rest) (walk fuel selection (some t)))
          × (add_selection_from lib writers (suc fuel) selection selected d s
              ≡ elim (add_selected lib writers t d s) [
                | err e ↦ some (err e)
                | ok (s', d') ↦ add_selection_from lib writers fuel selection (some t) d' s'
              ])
    unfolding add_selection_from walk
    goes_on fuel selected t d s g = (rw (g, walk), rw (g, add_selection_from))

    rest_added :
        (fuel : ℕ) (t : SelectedPath IdmefPath) (rest : List (SelectedPath IdmefPath))
        (r : Result (Select × State))
        → ((d : State) (s : Select)
            → add_selection_from lib writers fuel selection (some t) d s ≡ some (add_all rest d s))
        → (elim r [
          | err e ↦ some (err e)
          | ok (s', d') ↦ add_selection_from lib writers fuel selection (some t) d' s'
        ])
          ≡ some (r >>= λ (s', d'). add_all rest d' s')
    rest_added fuel t rest (err e) ih = refl
    rest_added fuel t rest (ok (s', d')) ih = ih d' s'

    -- The loop adds the paths that the walk visits.
    add_selection_from-walk :
        (fuel : ℕ) (selected : Option (SelectedPath IdmefPath))
        (rest : List (SelectedPath IdmefPath)) (d : State) (s : Select)
        → walk fuel selection selected ≡ some rest
        → add_selection_from lib writers fuel selection selected d s ≡ some (add_all rest d s)
    unfolding add_all
    add_selection_from-walk zero selected rest d s e = absurd (unfold walk in cc)
    add_selection_from-walk (suc fuel) selected rest d s e =
        elim (Option-cases (get_next selection selected)) [
          | inl g ↦
              let (w, a) = stops fuel selected d s g in
              let none_left : rest ≡ [] = cc in rw none_left a
          | inr (t, g) ↦
              let (w, a) = goes_on fuel selected t d s g in
              elim (Option-cases (walk fuel selection (some t))) [
                | inl stuck ↦ absurd (cc (rw stuck at w))
                | inr (rest', visited) ↦
                    let w' : walk (suc fuel) selection selected ≡ some (t ∷ rest') =
                      rw visited at w in
                    let first : rest ≡ t ∷ rest' = cc in
                    rw first (
                      a
                      ∙ rest_added fuel t rest' (add_selected lib writers t d s)
                          (λ d' s'. add_selection_from-walk fuel (some t) rest' d' s' visited))
              ]
        ]

  -- Adding a selection that is laid out adds its paths one after the other, up to the first that
  -- fails; the loop ends.
  pub add_selection_lem :
      (selection : PathSelection IdmefPath) (d : State) (s : Select)
      → IsLaidOut selection
      → add_selection lib writers selection d s ≡ some (add_all selection.selecteds d s)
  unfolding add_selection
  add_selection_lem selection d s h =
      add_selection_from-walk selection (suc (length selection.selecteds)) none selection.selecteds
        d s (walk_lem (suc (length selection.selecteds)) selection h (omega arith))

-- The numbers of the columns that a selection groups by, and those that it orders by.
pub selection_group_items : {IdmefPath : Type 0} → List (SelectedPath IdmefPath) → List Bytes
selection_group_items [] = []
selection_group_items (x ∷ xs) =
    group_items x.position x.column_count x.flags ++ selection_group_items xs

pub selection_order_items : {IdmefPath : Type 0} → List (SelectedPath IdmefPath) → List Bytes
selection_order_items [] = []
selection_order_items (x ∷ xs) =
    order_items x.position x.column_count x.flags ++ selection_order_items xs

module _ (lib : StringLib) (ample : IsAmple lib) {IdmefPath State : Type 0}
    (writers : Writers IdmefPath State) where
  -- An alias leaves the clauses and the count alone.
  add_alias-kept :
      (o : Object IdmefPath) (s : Select)
      → ((add_alias lib writers o s).group_by ≡ s.group_by)
        × ((add_alias lib writers o s).order_by ≡ s.order_by)
        × ((add_alias lib writers o s).field_count ≡ s.field_count)
  add_alias-kept (function f args) s = elim (Bool-cases s.alias_function) [
    | inl e ↦ rw e (refl, refl, refl)
    | inr e ↦ rw e (refl, refl, refl)
  ]
  add_alias-kept _ s = (refl, refl, refl)

  -- the clauses and the count of a select with the columns of `x`
  abbrev pub Extends : SelectedPath IdmefPath → Select → Select → Type 0
  Extends x s s' =
      (s'.group_by ≡ append_items s.group_by (group_items s.field_count x.column_count x.flags))
      × (s'.order_by ≡ append_items s.order_by (order_items s.field_count x.column_count x.flags))
      × (s'.field_count ≡ s.field_count + x.column_count)

  Extends-alias :
      (x : SelectedPath IdmefPath) (o : Object IdmefPath) (fields : Bytes) (s : Select)
      → 0 < x.column_count
      → s.field_count + x.column_count < 2 ^ 31
      → (s' : Select)
      → add_options lib x.column_count x.flags
          (add_alias lib writers o (record s { fields = fields }))
        ≡ ok s'
      → Extends x s s'
  Extends-alias x o fields s p q s' e =
      let t = add_alias lib writers o (record s { fields = fields }) in
      let kept = add_alias-kept o (record s { fields = fields }) in
      let done = add_options_lem lib ample x.column_count x.flags t p (rw kept.2 q) in
      let e' : s' ≡ with_options x.column_count x.flags t = cc (e, done) in
      rw e' (rw (kept.0, kept.1, kept.2) (refl, refl, refl))

  select_object-Extends :
      (x : SelectedPath IdmefPath) (o : Option (Object IdmefPath)) (d d' : State) (s s' : Select)
      → 0 < x.column_count
      → s.field_count + x.column_count < 2 ^ 31
      → select_object lib writers x o d s ≡ ok (s', d')
      → Extends x s s'
  select_object-Extends x none d d' s s' p q e = cc
  select_object-Extends x (some o) d d' s s' p q e =
      let (fields, _, e₁) = >>=-eq-ok (separate lib s.fields) _ e in
      let ((fields', d₁), _, e₂) = >>=-eq-ok (object_to_string lib writers x o d fields) _ e₁ in
      let t = add_alias lib writers o (record s { fields = fields' }) in
      let (s₂, done, e₃) = >>=-eq-ok (add_options lib x.column_count x.flags t) _ e₂ in
      let same : s₂ ≡ s' =
        ap (λ (r : Result (Select × State)). elim r [ ok (a, _) ↦ a | err _ ↦ s' ]) e₃ in
      Extends-alias x o fields' s p q s' (done ∙ ap ok same)

  pub add_selected-Extends :
      (x : SelectedPath IdmefPath) (d d' : State) (s s' : Select)
      → 0 < x.column_count
      → s.field_count + x.column_count < 2 ^ 31
      → add_selected lib writers x d s ≡ ok (s', d')
      → Extends x s s'
  unfolding add_selected
  add_selected-Extends x d d' s s' p q e = select_object-Extends x x.object d d' s s' p q e

  -- every path takes a column
  abbrev pub HaveColumns : List (SelectedPath IdmefPath) → Type 0
  HaveColumns [] = Unit
  HaveColumns (x ∷ xs) = (0 < x.column_count) × HaveColumns xs

  LaidOut-reach :
      (xs : List (SelectedPath IdmefPath)) (i column limit : ℕ)
      → LaidOut i column xs limit
      → column ≤ limit
  LaidOut-reach [] i column limit h = omega arith
  LaidOut-reach (x ∷ xs) i column limit h =
      let rest = LaidOut-reach xs (suc i) (column + x.column_count) limit h.2 in omega arith

  add_all-numbers :
      (xs : List (SelectedPath IdmefPath)) (i limit : ℕ) (d d' : State) (s s' : Select)
      → LaidOut i s.field_count xs limit
      → HaveColumns xs
      → limit < 2 ^ 31
      → add_all lib writers xs d s ≡ ok (s', d')
      → (s'.field_count ≡ limit)
        × (s'.group_by ≡ append_items s.group_by (selection_group_items xs))
        × (s'.order_by ≡ append_items s.order_by (selection_order_items xs))
  unfolding add_all append_items selection_group_items selection_order_items
  add_all-numbers [] i limit d d' s s' l c q e =
      let same : s ≡ s' =
        ap (λ (r : Result (Select × State)). elim r [ ok (a, _) ↦ a | err _ ↦ s' ]) e in
      rw (sym same) (l, refl, refl)
  add_all-numbers (x ∷ xs) i limit d d' s s' l c q e =
      let ((s₁, d₁), added, rest) = >>=-eq-ok (add_selected lib writers x d s) _ e in
      let reach = LaidOut-reach xs (suc i) (s.field_count + x.column_count) limit l.2 in
      let (g, o, n) = add_selected-Extends x d d₁ s s₁ c.0 (omega arith) added in
      let l' : LaidOut (suc i) s₁.field_count xs limit = rw n l.2 in
      let (n', g', o') = add_all-numbers xs (suc i) limit d₁ d' s₁ s' l' c.1 q rest in
      let at_x = l.1 in
      (
        n',
        rw g' (
            rw (g, at_x)
              (sym (
                append_items-append s.group_by (group_items s.field_count x.column_count x.flags)
                  (selection_group_items xs)))),
        rw o' (
            rw (o, at_x)
              (sym (
                append_items-append s.order_by (order_items s.field_count x.column_count x.flags)
                  (selection_order_items xs)))),
      )

  -- Adding a selection that is laid out, where every path takes a column, memory suffices no path
  -- fails and the columns are fewer than 2 ^ 31, to a new statement: the statement counts the columns of the selection, and its
  -- GROUP BY and ORDER BY name the columns at the positions of the paths whose flags ask for it.
  pub add_selection_numbers :
      (selection : PathSelection IdmefPath) (d d' : State) (s' : Select)
      → IsLaidOut selection
      → HaveColumns selection.selecteds
      → selection.numpos < 2 ^ 31
      → add_selection lib writers selection d select_new ≡ some (ok (s', d'))
      → (s'.field_count ≡ selection.numpos)
        × (s'.group_by ≡ append_items [] (selection_group_items selection.selecteds))
        × (s'.order_by ≡ append_items [] (selection_order_items selection.selecteds))
  add_selection_numbers selection d d' s' h c q e =
      let all = add_selection_lem lib writers selection d select_new h in
      add_all-numbers selection.selecteds 0 selection.numpos d d' select_new s' h.laid_out c q (cc)
