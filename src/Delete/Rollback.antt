-- ===== src/Delete/Rollback.antt =====
-- A deletion of plugins/format/classic/classic-delete.c that fails at a query.
use libpreludedb.Base.{
  ◌≡◌, refl, sym, ◌∙◌, true, false, Option, none, some, List, [], ◌∷◌, Bytes, Result, ok, err,
  Error, text, arith, map,
}
use libpreludedb.Sql.{
  Plugin, Sql, is_connection_error, sql_query, transaction_start, transaction_abort,
}
use libpreludedb.Delete.RunAll.{run_all, run_all-nil, run_from, run_all-cons}
use libpreludedb.Delete.{expand, run_queries, when_started, delete_message}

module _ (plugin : Plugin) where
  open plugin use {Session, Table, run}

  -- in the transaction, connected, with the database in the state `session`
  record IsReady (session : Session) (s : Sql Session) : Type 0 where
    pub enabled : s.internal_transaction_disabled ≡ false
    pub in_transaction : s.in_transaction ≡ true
    pub connected : s.connected ≡ true
    pub at : s.session ≡ session

  sql_query-IsReady :
      (statement : Bytes) (s : Sql Session) (s₁ s₂ : Session) (r : Result (Option Table))
      → IsReady s₁ s
      → run statement s₁ ≡ (r, s₂)
      → ((e : Error) → r ≡ err e → is_connection_error e ≡ false)
      → ((sql_query plugin statement s).0 ≡ r) × IsReady s₂ (sql_query plugin statement s).1
  unfolding sql_query
  sql_query-IsReady statement s s₁ s₂ (ok none) a b k = ground arith
  sql_query-IsReady statement s s₁ s₂ (ok (some t)) a b k = ground arith
  sql_query-IsReady statement s s₁ s₂ (err e) a b k = ground (arith, k e refl)

  transaction_abort-IsReady :
      (s : Sql Session) (s₂ s₃ : Session) (t : Option Table)
      → IsReady s₂ s
      → run (text "ROLLBACK") s₂ ≡ (ok t, s₃)
      → ((transaction_abort plugin s).0 ≡ ok tt) × ((transaction_abort plugin s).1.session ≡ s₃)
  unfolding transaction_abort sql_query
  transaction_abort-IsReady s s₂ s₃ t a b = ground arith

  begin-IsReady :
      (s : Sql Session) (s₁ : Session) (t : Option Table)
      → s.connected ≡ true
      → s.internal_transaction_disabled ≡ false
      → s.in_transaction ≡ false
      → run (text "BEGIN") s.session ≡ (ok t, s₁)
      → ((transaction_start plugin s).0 ≡ ok tt) × IsReady s₁ (transaction_start plugin s).1
  unfolding transaction_start sql_query
  begin-IsReady s s₁ t c on off b = ground arith

  -- the error that stops the run is the one that a statement answered
  run_from-err :
      (r : Result (Option Table)) (queries : List Bytes) (s s₂ : Session) (e e' : Error)
      → run_from plugin r queries s ≡ (err e, s₂)
      → r ≡ err e'
      → e' ≡ e
  run_from-err (ok t) queries s s₂ e e' f h = cc
  run_from-err (err _) queries s s₂ e e' f h = cc

  module _ (idents : Bytes) (e : Error) (s₂ s₃ : Session) (t : Option Table)
      (kept : is_connection_error e ≡ false) (undone : run (text "ROLLBACK") s₂ ≡ (ok t, s₃)) where
    run_queries_rolled_back :
        (queries : List Bytes) (x : Result (Option Table) × Sql Session) (s₁ : Session)
        → IsReady s₁ x.1
        → run_from plugin x.0 (map (λ q. expand q idents) queries) s₁ ≡ (err e, s₂)
        → ((run_queries plugin queries idents x).0 ≡ err e)
          × ((run_queries plugin queries idents x).1.session ≡ s₃)
    unfolding run_queries
    run_queries_rolled_back queries (err e', s) s₁ a f =
        let here : s₁ ≡ s₂ = cc in
        let aborting = transaction_abort-IsReady s s₂ s₃ t (rw here at a) undone in
        ground (arith, aborting)
    run_queries_rolled_back [] (ok u, s) s₁ a f = absurd (cc (run_all-nil plugin s₁))
    run_queries_rolled_back (q ∷ queries) (ok u, s) s₁ a f =
        let step = run_all-cons plugin (expand q idents) (map (λ q. expand q idents) queries) s₁ in
        let f' = sym step ∙ f in
        let (r, s₁') = run (expand q idents) s₁ in
        let (same, ready) =
          sql_query-IsReady (expand q idents) s s₁ s₁' r a refl
            (λ e' h. rw (run_from-err r _ s₁' s₂ e e' f' h) kept) in
        run_queries_rolled_back queries (sql_query plugin (expand q idents) s) s₁' ready
          (rw same f')

  -- A deletion on a connected database, with internal transactions enabled and none open, where
  -- BEGIN succeeds, a query fails without losing the connection, and ROLLBACK then succeeds: the
  -- error of the query comes back, and the database is left as ROLLBACK left it behind that query;
  -- the queries behind it are not run.
  pub delete_message_rolled_back :
      (queries : List Bytes) (idents : Bytes) (s : Sql Session) (e : Error) (s₁ s₂ s₃ : Session)
      (t t' : Option Table)
      → s.connected ≡ true
      → s.internal_transaction_disabled ≡ false
      → s.in_transaction ≡ false
      → run (text "BEGIN") s.session ≡ (ok t, s₁)
      → run_all plugin (map (λ q. expand q idents) queries) s₁ ≡ (err e, s₂)
      → is_connection_error e ≡ false
      → run (text "ROLLBACK") s₂ ≡ (ok t', s₃)
      → ((delete_message plugin queries idents s).0 ≡ err e)
        × ((delete_message plugin queries idents s).1.session ≡ s₃)
  delete_message_rolled_back queries idents s e s₁ s₂ s₃ t t' c on off b q k r =
      let (started, a) = begin-IsReady s s₁ t c on off b in
      unfold delete_message in go (transaction_start plugin s) started a
    where
      go :
          (x : Result (Unit {0}) × Sql Session)
          → x.0 ≡ ok tt
          → IsReady s₁ x.1
          → ((when_started plugin queries idents x).0 ≡ err e)
            × ((when_started plugin queries idents x).1.session ≡ s₃)
      go (err _, s') h a = cc
      go (ok _, s') h a = run_queries_rolled_back idents e s₂ s₃ t' k r queries (ok none, s') s₁ a q
