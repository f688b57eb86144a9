-- ===== src/Delete/Idents.antt =====
-- The idents of a deletion, in plugins/format/classic/classic-delete.c.
use mathlib.Core.Option
use native.Mathlib.Nat.{add-zero, zero-add}
use libpreludedb.Base.{
  ◌==◌, length-append, ℕ, zero, suc, ◌+◌, ◌%◌, ◌<◌, ◌≡◌, refl, ap, ◌∙◌, Bool, true, false, Option,
  none, some, List, [], ◌∷◌, ◌++◌, Bytes, Result, ok, err, Error, text, print_nat, append_assoc,
  append-nil, arith, length, get_elem?, if◌then◌else◌, get_elem?-append_here, get_elem?-out,
}
use libpreludedb.Idmef.{uint32_mod}
use libpreludedb.Delete.{
  ident_list, string_from_ident_list, result_ident_loop, string_from_result_ident, close_idents,
}

-- The rows of a result that holds `idents`, read without an error.
abbrev pub Holds : (ℕ → Result (Option ℕ)) → List ℕ → Type 0
Holds idents_get idents = (i : ℕ) → idents_get i ≡ ok (get_elem? idents i)

-- one round of the loop, from what it reads
module _ (fuel i : ℕ) (idents_get : ℕ → Result (Option ℕ)) (need_sep : Bool) (ident : ℕ)
    (out : Bytes) where
  loop_stops :
      idents_get i ≡ ok none
      → result_ident_loop (suc fuel) idents_get i need_sep ident out ≡ some (i, out)
  unfolding result_ident_loop
  loop_stops h = rw (h, result_ident_loop)

  loop_reads :
      (ident' : ℕ)
      → idents_get i ≡ ok (some ident')
      → result_ident_loop (suc fuel) idents_get i need_sep ident out
        ≡ result_ident_loop fuel idents_get
            ((i + 1) % uint32_mod)
            true
            ident'
            (out ++ ((if need_sep then text ", " else []) ++ print_nat ident'))
  unfolding result_ident_loop
  loop_reads ident' h = rw (h, result_ident_loop)

  loop_fails :
      (e : Error)
      → idents_get i ≡ err e
      → result_ident_loop (suc fuel) idents_get i need_sep ident out
        ≡ result_ident_loop fuel idents_get
            ((i + 1) % uint32_mod)
            true
            ident
            (out ++ ((if need_sep then text ", " else []) ++ print_nat ident))
  unfolding result_ident_loop
  loop_fails e h = rw (h, result_ident_loop)

at_length :
    (seen idents : List ℕ) (i : ℕ) (j : ℕ)
    → i ≡ length seen
    → get_elem? (seen ++ j ∷ idents) i ≡ some j
at_length seen idents i j e = rw e (get_elem?-append_here seen idents j)

past_end : (seen : List ℕ) (i : ℕ) → i ≡ length seen → get_elem? (seen ++ []) i ≡ none
past_end seen i e = get_elem?-out (seen ++ []) i (omega (arith, length-append seen []))

module _ (idents_get : ℕ → Result (Option ℕ)) where
  result_ident_loop_lem :
      (fuel i : ℕ) (seen idents : List ℕ) (need_sep : Bool) (ident : ℕ) (out : Bytes)
      → Holds idents_get (seen ++ idents)
      → i ≡ length seen
      → length idents < fuel
      → length seen + length idents < uint32_mod
      → result_ident_loop fuel idents_get i need_sep ident out
        ≡ some (i + length idents, out ++ ident_list need_sep idents)
  unfolding ident_list
  result_ident_loop_lem zero i seen idents need_sep ident out h e p q = elim p [ ]
  result_ident_loop_lem (suc fuel) i seen [] need_sep ident out h e p q =
      loop_stops fuel i idents_get need_sep ident out (h i ∙ ap ok (past_end seen i e))
      ∙ rw (add-zero, append-nil)
  result_ident_loop_lem (suc fuel) i seen (j ∷ idents) need_sep ident out h e p q =
      loop_reads fuel i idents_get need_sep ident out j (h i ∙ ap ok (at_length seen idents i j e))
      ∙ ap
          (λ k.
            result_ident_loop fuel idents_get k true j
              (out ++ ((if need_sep then text ", " else []) ++ print_nat j)))
          no_wrap
      ∙ result_ident_loop_lem fuel (i + 1) (seen ++ j ∷ []) idents true j
          (out ++ ((if need_sep then text ", " else []) ++ print_nat j)) (rw append_assoc h)
          (omega (arith, length-append seen (j ∷ []))) (omega arith)
          (omega (arith, length-append seen (j ∷ [])))
      ∙ simp append_assoc (count (omega arith))
    where
      no_wrap : (i + 1) % uint32_mod ≡ i + 1
      no_wrap = omega arith

      count :
          {a b : ℕ} {x : Bytes} → a ≡ b → ◌≡◌ {A = Option (ℕ × Bytes)} (some (a, x)) (some (b, x))
      count {x = x} q = ap (λ n. some (n, x)) q

  -- A result that is read without an error gives the same string as the list of its idents, and
  -- their count; without idents there is nothing to delete. One round for each ident and one more
  -- are enough. There are fewer idents than the 32-bit counter counts.
  pub string_from_result_ident_lem :
      (fuel ident : ℕ) (idents : List ℕ)
      → Holds idents_get idents
      → length idents < fuel
      → length idents < uint32_mod
      → string_from_result_ident fuel idents_get ident
        ≡ some (
            if length idents == 0
            then none
            else some (length idents, string_from_ident_list idents))
  unfolding string_from_result_ident string_from_ident_list
  string_from_result_ident_lem fuel ident idents h p q =
      ap (Option.map close_idents)
        (result_ident_loop_lem fuel 0 [] idents false ident (text "IN (") h refl p (omega arith))
      ∙ closed idents
    where
      closed :
          (idents : List ℕ)
          → ◌≡◌ {A = Option (Option (ℕ × Bytes))}
              (some (close_idents (0 + length idents, text "IN (" ++ ident_list false idents)))
              (some (
                if length idents == 0
                then none
                else some (length idents, text "IN (" ++ (ident_list false idents ++ text ")"))))
      closed [] = refl
      closed (j ∷ idents) = rw (zero-add, append_assoc) (ground arith)

  stuck_loop :
      (fuel i : ℕ) (need_sep : Bool) (ident : ℕ) (out : Bytes)
      → ((k : ℕ) → (e : Error) × (idents_get k ≡ err e))
      → result_ident_loop fuel idents_get i need_sep ident out ≡ none
  unfolding result_ident_loop
  stuck_loop zero i need_sep ident out h = refl
  stuck_loop (suc fuel) i need_sep ident out h =
      loop_fails fuel i idents_get need_sep ident out (h i).0 (h i).1
      ∙ stuck_loop fuel ((i + 1) % uint32_mod) true ident
          (out ++ ((if need_sep then text ", " else []) ++ print_nat ident)) h

  -- An error is taken for a row: on a result whose rows can no longer be read, the loop never
  -- ends, whatever its fuel.
  pub string_from_result_ident_diverges :
      (fuel ident : ℕ)
      → ((k : ℕ) → (e : Error) × (idents_get k ≡ err e))
      → string_from_result_ident fuel idents_get ident ≡ none
  unfolding string_from_result_ident
  string_from_result_ident_diverges fuel ident h =
      ap (Option.map close_idents) (stuck_loop fuel 0 false ident (text "IN (") h)
