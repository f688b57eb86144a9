-- ===== src/Sql/Tests.antt =====
-- Runs and the theorems on src/preludedb-sql.c at states of the journal's database.
use libpreludedb.Base.{
  ◌≡◌, refl, false, none, [], ◌∷◌, ok, err, connection, not_in_transaction, text, inl, inr,
}
use libpreludedb.Sql.{sql_query, transaction_start, transaction_end, transaction_abort}
use libpreludedb.Sql.Journal.{journal, fresh, inside, lost}
use libpreludedb.Sql.Transaction.{
  IsSteady, nothing, then_call, run_query, start, end, after, IsBalanced, Runs-IsBalanced,
  reconnect_leaks_lock, commit_on_new_connection,
}

started : transaction_start journal fresh ≡ (ok tt, inside)
unfolding transaction_start text
started = refl

dies :
    sql_query journal (text "die") inside
    ≡ (err connection, record lost { session = record { entries = text "BEGIN" ∷ []; up = false } })
unfolding sql_query text
dies = refl

start-IsSteady : IsSteady (after journal start fresh)
unfolding after text
start-IsSteady = inr refl

bad-IsSteady : IsSteady (after journal (run_query (text "bad")) (after journal start fresh))
unfolding after text
bad-IsSteady = inr refl

Runs-IsBalanced_example :
    IsBalanced 0
      (after journal end (after journal (run_query (text "bad")) (after journal start fresh)))
Runs-IsBalanced_example = Runs-IsBalanced journal 0 {s = fresh} refl (
    then_call
      (then_call (then_call nothing start (inl refl)) (run_query (text "bad")) start-IsSteady) end
      bad-IsSteady)

reconnect_leaks_lock_example :
    let s' = (sql_query journal (text "SELECT 1") lost).1 in
    (transaction_end journal s' ≡ (err not_in_transaction, s'))
    × (transaction_abort journal s' ≡ (err not_in_transaction, s'))
    × (s'.held ≡ 1)
reconnect_leaks_lock_example =
    reconnect_leaks_lock journal lost refl (text "SELECT 1") refl refl refl

commit_on_new_connection_example : (transaction_end journal lost).0 ≡ ok tt
unfolding text
commit_on_new_connection_example =
    commit_on_new_connection journal lost refl none refl refl refl refl
