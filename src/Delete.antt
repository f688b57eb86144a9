-- ===== src/Delete.antt =====
-- plugins/format/classic/classic-delete.c: the deletion of alerts and heartbeats, a transaction of
-- one statement for each table.
mod Queries
pub mod RunAll
pub mod Lock
pub mod Commit
pub mod Rollback
pub mod Idents
mod Tests
unfoldable pub use Queries.{alert_queries, heartbeat_queries}
use mathlib.Core.Option
use libpreludedb.Base.{
  ℕ, zero, suc, ◌+◌, ◌%◌, Bool, true, false, Option, none, some, List, [], ◌∷◌, ◌++◌, Bytes, Result,
  ok, err, Error, text, print_nat, ◌==◌, ◌&&◌, if◌then◌else◌, length,
}
use libpreludedb.Idmef.{uint32_mod}
use libpreludedb.Sql.{Plugin, Sql, sql_query, transaction_start, transaction_end, transaction_abort}

-- printf with a format whose one directive is "%s"
unfoldable pub expand : Bytes → Bytes → Bytes
expand [] argument = []
expand (c ∷ []) argument = c ∷ []
expand (c ∷ d ∷ format) argument = elim (c == b'%' && d == b's') [
  | true ↦ argument ++ format
  | false ↦ c ∷ expand (d ∷ format) argument
]

-- the loop of `get_string_from_ident_list`
unfoldable pub ident_list : Bool → List ℕ → Bytes
ident_list need_sep [] = []
ident_list need_sep (ident ∷ idents) =
    (if need_sep then text ", " else []) ++ (print_nat ident ++ ident_list true idents)

unfoldable pub string_from_ident_list : List ℕ → Bytes
unfolding ident_list
string_from_ident_list idents = text "IN (" ++ (ident_list false idents ++ text ")")

-- The loop of `get_string_from_result_ident`. `idents_get` is `preludedb_result_idents_get`: an
-- ident, nothing behind the last row, or an error. The loop's test takes an error, which is not
-- zero, for an ident, and prints the ident of the round before again.
unfoldable pub result_ident_loop :
    ℕ → (ℕ → Result (Option ℕ)) → ℕ → Bool → ℕ → Bytes → Option (ℕ × Bytes)
result_ident_loop zero idents_get i need_sep ident out = none
result_ident_loop (suc fuel) idents_get i need_sep ident out = elim (idents_get i) [
  | ok none ↦ some (i, out)
  | ok (some ident') ↦
      result_ident_loop fuel idents_get ((i + 1) % uint32_mod) true ident'
        (out ++ ((if need_sep then text ", " else []) ++ print_nat ident'))
  | err e ↦
      result_ident_loop fuel idents_get ((i + 1) % uint32_mod) true ident
        (out ++ ((if need_sep then text ", " else []) ++ print_nat ident))
]

abbrev close_idents : ℕ × Bytes → Option (ℕ × Bytes)
close_idents (zero, out) = none
close_idents (suc i, out) = some (suc i, out ++ text ")")

-- `none`: the fuel ran out; `some none`: there are no idents. `ident` is what the variable holds
-- before the loop.
unfoldable pub string_from_result_ident :
    ℕ → (ℕ → Result (Option ℕ)) → ℕ → Option (Option (ℕ × Bytes))
unfolding result_ident_loop
string_from_result_ident fuel idents_get ident =
    Option.map close_idents (result_ident_loop fuel idents_get 0 false ident (text "IN ("))

module _ (plugin : Plugin) where
  open plugin use {Session, Table}

  -- `return (tmp < 0) ? tmp : ret`
  abbrev aborted : Error → Result (Unit {0}) × Sql Session → Result (Unit {0}) × Sql Session
  aborted e (err tmp, s) = (err tmp, s)
  aborted e (ok _, s) = (err e, s)

  -- the loop over the queries of `delete_message`
  unfoldable pub run_queries :
      List Bytes → Bytes → Result (Option Table) × Sql Session → Result (Unit {0}) × Sql Session
  run_queries queries idents (err e, s) = aborted e (transaction_abort plugin s)
  run_queries [] idents (ok _, s) = transaction_end plugin s
  run_queries (q ∷ queries) idents (ok _, s) =
      run_queries queries idents (sql_query plugin (expand q idents) s)

  abbrev when_started :
      List Bytes → Bytes → Result (Unit {0}) × Sql Session → Result (Unit {0}) × Sql Session
  when_started queries idents (err e, s) = (err e, s)
  when_started queries idents (ok _, s) = run_queries queries idents (ok none, s)

  unfoldable pub delete_message : List Bytes → Bytes → Sql Session → Result (Unit {0}) × Sql Session
  unfolding run_queries
  delete_message queries idents s = when_started queries idents (transaction_start plugin s)

  pub do_delete_alert : Bytes → Sql Session → Result (Unit {0}) × Sql Session
  unfolding delete_message
  do_delete_alert idents s = delete_message alert_queries idents s

  pub do_delete_heartbeat : Bytes → Sql Session → Result (Unit {0}) × Sql Session
  unfolding delete_message
  do_delete_heartbeat idents s = delete_message heartbeat_queries idents s

  -- `classic_delete_alert`, `classic_delete_heartbeat`
  unfoldable pub delete_alert : ℕ → Sql Session → Result (Unit {0}) × Sql Session
  unfolding do_delete_alert
  delete_alert ident = do_delete_alert (text "= " ++ print_nat ident)

  unfoldable pub delete_heartbeat : ℕ → Sql Session → Result (Unit {0}) × Sql Session
  unfolding do_delete_heartbeat
  delete_heartbeat ident = do_delete_heartbeat (text "= " ++ print_nat ident)

  -- `return (ret < 0) ? ret : count`
  abbrev deleted : ℕ → Result (Unit {0}) × Sql Session → Result ℕ × Sql Session
  deleted count (err e, s) = (err e, s)
  deleted count (ok _, s) = (ok count, s)

  -- `classic_delete_alert_from_list`, `classic_delete_heartbeat_from_list`
  unfoldable pub delete_alert_from_list : List ℕ → Sql Session → Result ℕ × Sql Session
  unfolding do_delete_alert
  delete_alert_from_list idents s =
      deleted (length idents) (do_delete_alert (string_from_ident_list idents) s)

  unfoldable pub delete_heartbeat_from_list : List ℕ → Sql Session → Result ℕ × Sql Session
  unfolding do_delete_heartbeat
  delete_heartbeat_from_list idents s =
      deleted (length idents) (do_delete_heartbeat (string_from_ident_list idents) s)

  -- what `get_string_from_result_ident` returns: nothing without idents, or the string and their
  -- count
  abbrev deleted_all :
      (Bytes → Sql Session → Result (Unit {0}) × Sql Session)
      → Option (ℕ × Bytes)
      → Sql Session
      → Result ℕ × Sql Session
  deleted_all delete none s = (ok 0, s)
  deleted_all delete (some (count, idents)) s = deleted count (delete idents s)

  -- `classic_delete_alert_from_result_idents`, `classic_delete_heartbeat_from_result_idents`;
  -- `none`: the fuel of the loop ran out.
  unfoldable pub delete_alert_from_result_idents :
      ℕ → (ℕ → Result (Option ℕ)) → ℕ → Sql Session → Option (Result ℕ × Sql Session)
  unfolding do_delete_alert
  delete_alert_from_result_idents fuel idents_get ident s =
      Option.map (λ r. deleted_all do_delete_alert r s)
        (string_from_result_ident fuel idents_get ident)

  unfoldable pub delete_heartbeat_from_result_idents :
      ℕ → (ℕ → Result (Option ℕ)) → ℕ → Sql Session → Option (Result ℕ × Sql Session)
  unfolding do_delete_heartbeat
  delete_heartbeat_from_result_idents fuel idents_get ident s =
      Option.map (λ r. deleted_all do_delete_heartbeat r s)
        (string_from_result_ident fuel idents_get ident)
