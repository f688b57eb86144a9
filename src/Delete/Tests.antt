-- ===== src/Delete/Tests.antt =====
-- Runs of plugins/format/classic/classic-delete.c on the journal's database, and its theorems there.
use libpreludedb.Base.{
  ◌≡◌, refl, ap, true, none, some, List, [], ◌∷◌, ◌++◌, Bytes, Result, ok, err, connection, query,
  text, print_nat, map, get_elem?, length, arith,
}
use libpreludedb.Sql.{Sql, transaction_start, transaction_end}
use libpreludedb.Sql.Journal.{Journal, journal, fresh}
use libpreludedb.Delete.{
  expand, delete_message, delete_alert, string_from_ident_list, string_from_result_ident,
  alert_queries,
}
use libpreludedb.Delete.RunAll.{run_all}
use libpreludedb.Delete.Lock.{held-delete_message}
use libpreludedb.Delete.Commit.{delete_message_committed}
use libpreludedb.Delete.Rollback.{delete_message_rolled_back}
use libpreludedb.Delete.Idents.{string_from_result_ident_lem, string_from_result_ident_diverges}

abbrev ready : Sql Journal
ready = record fresh { session = record { entries = []; up = true }; connected = true }

abbrev two : List Bytes
two = text "A %s" ∷ text "B %s" ∷ []

-- the second query is refused
abbrev refused : List Bytes
refused = text "A %s" ∷ text "bad" ∷ text "B %s" ∷ []

expand_runs :
    expand (text "DELETE FROM T WHERE i %s AND p = 'A'") (text "= 7")
    ≡ text "DELETE FROM T WHERE i = 7 AND p = 'A'"
unfolding expand text
expand_runs = refl

ident_list_runs : string_from_ident_list (3 ∷ 14 ∷ 159 ∷ []) ≡ text "IN (3, 14, 159)"
unfolding string_from_ident_list text print_nat
ident_list_runs = refl

two_run : delete_message journal two (text "= 7") ready ≡ (
  ok tt,
  record ready {
    session = record {
      entries = text "BEGIN" ∷ text "A = 7" ∷ text "B = 7" ∷ text "COMMIT" ∷ [];
      up = true;
    };
  },
)
unfolding delete_message transaction_start transaction_end expand text
two_run = refl

alert_run : length (delete_alert journal 7 ready).1.session.entries ≡ 37
unfolding delete_alert transaction_start transaction_end alert_queries expand text print_nat
alert_run = refl

held-delete_message_example : (delete_message journal refused (text "= 7") ready).1.held ≡ 0
held-delete_message_example = held-delete_message journal refused (text "= 7") ready

delete_message_committed_example :
    run_all journal
      (text "BEGIN" ∷ (map (λ q. expand q (text "= 7")) two ++ text "COMMIT" ∷ []))
      (record { entries = []; up = true })
    ≡ (ok tt, (delete_message journal two (text "= 7") ready).1.session)
delete_message_committed_example =
    delete_message_committed journal two (text "= 7") ready refl refl
      (ap (λ (r : Result (Unit {0}) × Sql Journal). r.0) two_run)

abbrev after_a : Journal
after_a = record { entries = text "BEGIN" ∷ text "A = 7" ∷ []; up = true }

delete_message_rolled_back_example :
    ((delete_message journal refused (text "= 7") ready).0 ≡ err query)
    × ((delete_message journal refused (text "= 7") ready).1.session
        ≡ record { entries = text "BEGIN" ∷ text "A = 7" ∷ text "ROLLBACK" ∷ []; up = true })
unfolding text expand run_all
delete_message_rolled_back_example =
    delete_message_rolled_back journal refused (text "= 7") ready query
      (record { entries = text "BEGIN" ∷ []; up = true }) after_a
      (record { entries = text "BEGIN" ∷ text "A = 7" ∷ text "ROLLBACK" ∷ []; up = true }) none none
      refl refl refl refl refl refl refl

string_from_result_ident_lem_example :
    string_from_result_ident 3 (λ i. ok (get_elem? (5 ∷ 6 ∷ []) i)) 0
    ≡ some (some (2, string_from_ident_list (5 ∷ 6 ∷ [])))
string_from_result_ident_lem_example =
    string_from_result_ident_lem (λ i. ok (get_elem? (5 ∷ 6 ∷ []) i)) 3 0 (5 ∷ 6 ∷ []) (λ i. refl)
      (omega arith) (omega arith)

string_from_result_ident_diverges_example :
    string_from_result_ident 1000 (λ _. err connection) 0 ≡ none
string_from_result_ident_diverges_example =
    string_from_result_ident_diverges (λ _. err connection) 1000 0 (λ k. (connection, refl))
