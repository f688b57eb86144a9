-- ===== src/SqlSelect/Clauses.antt =====
-- The clauses that src/preludedb-sql-select.c builds, where memory suffices.
use libpreludedb.Base.{
  is_empty, ℕ, zero, suc, ◌+◌, ◌<◌, ◌%◌, ◌≡◌, refl, ap, ◌∙◌, sym, false, List, [], ◌∷◌, ◌++◌, Bytes,
  ok, text, print_nat, ◌^◌, lt→ltb, append_assoc, append-nil, ◌||◌, ◌==◌, if◌then◌else◌, Bool-cases,
  inl, inr, ◌>>=◌, arith,
}
use libpreludedb.Idmef.{StringLib, IsAmple}
use libpreludedb.PathSelection.{Flags}
use libpreludedb.Idmef.{uint32_mod}
use libpreludedb.SqlSelect.{
  Select, is_empty, separate, set_group_by, set_order_by, add_group_by, add_order_by, add_option,
  option_rounds, add_options, modifiers_to_string,
}
use libpreludedb.Idmef.{print_signed}

-- An item behind a clause, with a comma between them if there is something.
abbrev pub append_item : Bytes → Bytes → Bytes
append_item clause item = if is_empty clause then item else clause ++ (text ", " ++ item)

unfoldable pub append_items : Bytes → List Bytes → Bytes
append_items clause [] = clause
append_items clause (item ∷ items) = append_items (append_item clause item) items

-- The numbers of `n` columns from `from` on, as GROUP BY and ORDER BY count them: from 1.
unfoldable pub group_items : ℕ → ℕ → Flags → List Bytes
group_items from zero flags = []
group_items from (suc n) flags =
    (if flags.group_by then print_nat (from + 1) ∷ [] else []) ++ group_items (from + 1) n flags

abbrev pub direction : Flags → Bytes
direction flags = text " " ++ (if flags.order_asc then text "ASC" else text "DESC")

unfoldable pub order_items : ℕ → ℕ → Flags → List Bytes
order_items from zero flags = []
order_items from (suc n) flags =
    (if flags.order_asc || flags.order_desc
      then (print_nat (from + 1) ++ direction flags) ∷ []
      else [])
    ++ order_items (from + 1) n flags

pub append_items-append :
    (clause : Bytes) (xs ys : List Bytes)
    → append_items clause (xs ++ ys) ≡ append_items (append_items clause xs) ys
unfolding append_items
append_items-append clause [] ys = refl
append_items-append clause (x ∷ xs) ys = append_items-append (append_item clause x) xs ys

-- the select with the options of `n` columns
abbrev pub with_options : ℕ → Flags → Select → Select
with_options n flags s = record s {
  group_by = append_items s.group_by (group_items s.field_count n flags);
  order_by = append_items s.order_by (order_items s.field_count n flags);
  field_count = s.field_count + n;
}

module _ (lib : StringLib) (ample : IsAmple lib) where
  separate-cat :
      (clause item : Bytes)
      → (separate lib clause >>= λ c. lib.cat c item) ≡ ok (append_item clause item)
  separate-cat [] item = ample [] item
  separate-cat (c ∷ clause) item =
      rw (ample (c ∷ clause) (text ", ")) (ample ((c ∷ clause) ++ text ", ") item ∙ rw append_assoc)

  print_signed_lem : (n : ℕ) → n < 2 ^ 31 → print_signed n ≡ print_nat n
  print_signed_lem n p =
      let small : n % uint32_mod ≡ n = omega arith in rw (small, lt→ltb n (2 ^ 31) p)

  set_group_by_lem :
      (s : Select)
      → s.field_count + 1 < 2 ^ 31
      → set_group_by lib s
        ≡ ok (record s { group_by = append_item s.group_by (print_nat (s.field_count + 1)) })
  set_group_by_lem s p =
      rw (print_signed_lem (s.field_count + 1) p)
        (ground (arith, separate-cat s.group_by (print_nat (s.field_count + 1))))

  set_order_by_lem :
      (flags : Flags) (s : Select)
      → s.field_count + 1 < 2 ^ 31
      → set_order_by lib flags s
        ≡ ok (record s {
          order_by = append_item s.order_by (print_nat (s.field_count + 1) ++ direction flags);
        })
  set_order_by_lem flags s p =
      rw (print_signed_lem (s.field_count + 1) p)
        (ground (arith, separate-cat s.order_by (print_nat (s.field_count + 1) ++ direction flags)))

  add_group_by_lem :
      (flags : Flags) (s : Select)
      → s.field_count + 1 < 2 ^ 31
      → add_group_by lib flags s
        ≡ ok (record s { group_by = append_items s.group_by (group_items s.field_count 1 flags) })
  unfolding add_group_by append_items group_items
  add_group_by_lem flags s p = elim (Bool-cases flags.group_by) [
    | inl e ↦ rw e (set_group_by_lem s p)
    | inr e ↦ rw e
  ]

  add_order_by_lem :
      (flags : Flags) (s : Select)
      → s.field_count + 1 < 2 ^ 31
      → add_order_by lib flags s
        ≡ ok (record s { order_by = append_items s.order_by (order_items s.field_count 1 flags) })
  unfolding add_order_by append_items order_items
  add_order_by_lem flags s p = elim (Bool-cases (flags.order_asc || flags.order_desc)) [
    | inl e ↦ rw e (set_order_by_lem flags s p)
    | inr e ↦ rw e
  ]

  -- one column
  add_option_lem :
      (flags : Flags) (s : Select)
      → s.field_count + 1 < 2 ^ 31
      → add_option lib flags s ≡ ok (with_options 1 flags s)
  unfolding add_option
  add_option_lem flags s h =
      let grouped = record s {
        group_by = append_items s.group_by (group_items s.field_count 1 flags);
      } in
      let same : (s.field_count + 1) % uint32_mod ≡ s.field_count + 1 = omega arith in
      rw (add_group_by_lem flags s h) (rw (add_order_by_lem flags grouped h) (rw same))

  same_select :
      (s : Select) {g g' o o' : Bytes} {n n' : ℕ}
      → g ≡ g'
      → o ≡ o'
      → n ≡ n'
      → record s { group_by = g; order_by = o; field_count = n }
        ≡ record s { group_by = g'; order_by = o'; field_count = n' }
  same_select s p q r = λ i. record s { group_by = p i; order_by = q i; field_count = r i }

  with_options-suc :
      (n : ℕ) (flags : Flags) (s : Select)
      → with_options n flags (with_options 1 flags s) ≡ with_options (suc n) flags s
  unfolding group_items order_items
  with_options-suc n flags s =
      same_select s
        (rw append-nil
          (sym (append_items-append s.group_by _ (group_items (s.field_count + 1) n flags))))
        (rw append-nil
          (sym (append_items-append s.order_by _ (order_items (s.field_count + 1) n flags))))
        (omega arith)

  option_rounds_lem :
      (n : ℕ) (flags : Flags) (s : Select)
      → s.field_count + n < 2 ^ 31
      → option_rounds lib n flags s ≡ ok (with_options n flags s)
  unfolding option_rounds append_items group_items order_items
  option_rounds_lem zero flags s h = ap ok (same_select s refl refl (omega arith))
  option_rounds_lem (suc n) flags s h = rw (add_option_lem flags s (omega arith)) (
      option_rounds_lem n flags (with_options 1 flags s) (omega arith)
      ∙ ap ok (with_options-suc n flags s))

  -- Where memory suffices, the options of a selected path with one column or more append to GROUP
  -- BY and ORDER BY the number of each of its columns, if its flags ask for it, with the direction
  -- in ORDER BY, and count the columns: the numbers are
  -- below 2 ^ 31.
  pub add_options_lem :
      (n : ℕ) (flags : Flags) (s : Select)
      → 0 < n
      → s.field_count + n < 2 ^ 31
      → add_options lib n flags s ≡ ok (with_options n flags s)
  unfolding add_options
  add_options_lem zero flags s p h = elim p [ ]
  add_options_lem (suc n) flags s p h =
      let positive : (suc n == 0) ≡ false = ground arith in
      rw positive (option_rounds_lem (suc n) flags s h)

  -- Where memory suffices, the end of the statement is the two clauses that are not empty, GROUP BY
  -- before ORDER BY.
  pub modifiers_to_string_lem :
      (s : Select) (output : Bytes)
      → modifiers_to_string lib s output
        ≡ ok (
            output
            ++ ((if is_empty s.group_by then [] else text " GROUP BY " ++ s.group_by)
                ++ (if is_empty s.order_by then [] else text " ORDER BY " ++ s.order_by)))
  unfolding modifiers_to_string
  modifiers_to_string_lem s output = elim (Bool-cases (is_empty s.group_by)) [
    | inl g ↦ elim (Bool-cases (is_empty s.order_by)) [
      | inl o ↦ rw (g, o, append-nil)
      | inr o ↦ rw (g, o) (ample output _)
    ]
    | inr g ↦ elim (Bool-cases (is_empty s.order_by)) [
      | inl o ↦ rw (g, o, ample) (rw append-nil)
      | inr o ↦ rw (g, o) (rw (ample output _, ample _ _) (ap ok (append_assoc output _ _)))
    ]
  ]
