-- ===== src/Format/Tests.antt =====
-- The deletions of src/preludedb-plugin-format.c at a few inputs.
use libpreludedb.Base.{
  ℕ, ◌≡◌, refl, none, List, [], ◌∷◌, ◌++◌, Result, ok, err, query, ◌==◌, if◌then◌else◌,
}
use libpreludedb.Format.{
  FormatPlugin, delete_each, plugin_delete_alert_from_list, plugin_delete_heartbeat_from_list,
}
use libpreludedb.Format.Listed.{Outcome, plugin_delete_from_list-Outcome}

-- a database that writes down what it deletes, and refuses the message 9
abbrev noted : ℕ → List ℕ → Result (Unit {0}) × List ℕ
noted ident db = if ident == 9 then (err query, db) else (ok tt, db ++ ident ∷ [])

abbrev simple : FormatPlugin (List ℕ)
simple = record {
  delete_alert = noted;
  delete_alert_from_list = none;
  delete_heartbeat = noted;
  delete_heartbeat_from_list = none;
}

stopped_run : plugin_delete_alert_from_list simple (4 ∷ 5 ∷ 9 ∷ 6 ∷ []) [] ≡ (err query, 4 ∷ 5 ∷ [])
unfolding plugin_delete_alert_from_list delete_each
stopped_run = refl

plugin_delete_from_list-Outcome_example :
    Outcome noted
      (4 ∷ 5 ∷ 9 ∷ 6 ∷ [])
      0
      []
      (plugin_delete_alert_from_list simple (4 ∷ 5 ∷ 9 ∷ 6 ∷ []) [])
    × Outcome noted
        (4 ∷ 5 ∷ 9 ∷ 6 ∷ [])
        0
        []
        (plugin_delete_heartbeat_from_list simple (4 ∷ 5 ∷ 9 ∷ 6 ∷ []) [])
plugin_delete_from_list-Outcome_example =
    plugin_delete_from_list-Outcome simple (4 ∷ 5 ∷ 9 ∷ 6 ∷ []) [] refl refl
