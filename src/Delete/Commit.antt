-- ===== src/Delete/Commit.antt =====
-- A deletion of plugins/format/classic/classic-delete.c that succeeds.
use libpreludedb.Base.{
  ℕ, ◌≡◌, refl, Result-cases, ◌∙◌, ◌≢◌, inl, inr, true, false, Option, none, List, [], ◌∷◌, ◌++◌,
  Bytes, Result, ok, err, Error, text, arith, map,
}
use libpreludedb.Sql.{Plugin, Sql, sql_query, transaction_start, transaction_end, transaction_abort}
use libpreludedb.Sql.Query.{session-sql_query_ok}
use libpreludedb.Delete.Lock.{
  IsOpen, Answers, sql_query-Answers, Started, transaction_start-Started,
}
use libpreludedb.Delete.RunAll.{run_all, run_all-ok, run_all-nil}
use libpreludedb.Delete.{expand, aborted, run_queries, when_started, delete_message}

module _ (plugin : Plugin) where
  open plugin use {Session, Table, run}

  transaction_end_committed :
      (s : Sql Session)
      → s.internal_transaction_disabled ≡ false
      → s.in_transaction ≡ true
      → s.connected ≡ true
      → (transaction_end plugin s).0 ≡ ok tt
      → (t : Option Table) × (run (text "COMMIT") s.session
          ≡ (ok t, (transaction_end plugin s).1.session))
  unfolding transaction_end sql_query
  transaction_end_committed s e i c h = elim (Result-cases (run (text "COMMIT") s.session).0) [
    | inl (t, done) ↦ (t, ground arith)
    | inr (e', failed) ↦ absurd (ground arith)
  ]

  aborted-ne-ok : (e : Error) (r : Result (Unit {0}) × Sql Session) → (aborted plugin e r).0 ≢ ok tt
  aborted-ne-ok e (ok _, s) h = cc
  aborted-ne-ok e (err _, s) h = cc

  -- the run of the queries succeeds only if each of them and the commit do
  run_queries-committed :
      (base : ℕ) (queries : List Bytes) (idents : Bytes) (s : Sql Session) (t : Option Table)
      → IsOpen plugin base s
      → s.connected ≡ true
      → (run_queries plugin queries idents (ok t, s)).0 ≡ ok tt
      → run_all plugin (map (λ q. expand q idents) queries ++ text "COMMIT" ∷ []) s.session
        ≡ (ok tt, (run_queries plugin queries idents (ok t, s)).1.session)
  unfolding run_queries
  run_queries-committed base [] idents s t inside c h =
      let (t', e) = transaction_end_committed s inside.enabled inside.in_transaction c h in
      run_all-ok plugin (text "COMMIT") [] s.session _ t' e ∙ run_all-nil plugin _
  run_queries-committed base (q ∷ queries) idents s t inside c h =
      go (sql_query plugin (expand q idents) s) refl
        (λ s' t'. run_queries-committed base queries idents s' t') h
    where
      rest : List Bytes
      rest = map (λ q. expand q idents) queries ++ text "COMMIT" ∷ []

      go :
          (r : Result (Option Table) × Sql Session)
          → sql_query plugin (expand q idents) s ≡ r
          → ((s' : Sql Session) (t' : Option Table)
              → IsOpen plugin base s'
              → s'.connected ≡ true
              → (run_queries plugin queries idents (ok t', s')).0 ≡ ok tt
              → run_all plugin rest s'.session
                ≡ (ok tt, (run_queries plugin queries idents (ok t', s')).1.session))
          → (run_queries plugin queries idents r).0 ≡ ok tt
          → run_all plugin (expand q idents ∷ rest) s.session
            ≡ (ok tt, (run_queries plugin queries idents r).1.session)
      go (err e, s') eq ih h' = absurd (aborted-ne-ok e (transaction_abort plugin s') h')
      go (ok t', s') eq ih h' =
          let a : Answers plugin base (ok t', s') =
            rw eq at (sql_query-Answers plugin base (expand q idents) s inside c) in
          let once : run (expand q idents) s.session ≡ (ok t', s'.session) =
            rw eq at (session-sql_query_ok plugin (expand q idents) s t' c (rw eq)) in
          run_all-ok plugin (expand q idents) rest s.session s'.session t' once
          ∙ ih s' t' a.0 a.1 h'

  transaction_start_begun :
      (s : Sql Session)
      → s.connected ≡ true
      → s.internal_transaction_disabled ≡ false
      → (transaction_start plugin s).0 ≡ ok tt
      → (t : Option Table) × (run (text "BEGIN") s.session
          ≡ (ok t, (transaction_start plugin s).1.session))
  unfolding transaction_start sql_query
  transaction_start_begun s c e h = elim (Result-cases (run (text "BEGIN") s.session).0) [
    | inl (t, done) ↦ (t, ground arith)
    | inr (e', failed) ↦ absurd (ground arith)
  ]

  -- On a connected database, a deletion that succeeds has run BEGIN, every query in order, and
  -- COMMIT, all of them without an error, and nothing else.
  pub delete_message_committed :
      (queries : List Bytes) (idents : Bytes) (s : Sql Session)
      → s.connected ≡ true
      → s.internal_transaction_disabled ≡ false
      → (delete_message plugin queries idents s).0 ≡ ok tt
      → run_all plugin
          (text "BEGIN" ∷ (map (λ q. expand q idents) queries ++ text "COMMIT" ∷ []))
          s.session
        ≡ (ok tt, (delete_message plugin queries idents s).1.session)
  unfolding delete_message
  delete_message_committed queries idents s c on h = go (transaction_start plugin s) refl h
    where
      rest : List Bytes
      rest = map (λ q. expand q idents) queries ++ text "COMMIT" ∷ []

      go :
          (r : Result (Unit {0}) × Sql Session)
          → transaction_start plugin s ≡ r
          → (when_started plugin queries idents r).0 ≡ ok tt
          → run_all plugin (text "BEGIN" ∷ rest) s.session
            ≡ (ok tt, (when_started plugin queries idents r).1.session)
      go (err e, s') eq h' = cc
      go (ok _, s') eq h' =
          let a : Started plugin s.held (ok tt, s') =
            rw eq at (transaction_start-Started plugin s on) in
          let (t, b) = transaction_start_begun s c on (rw eq) in
          let begun : run (text "BEGIN") s.session ≡ (ok t, s'.session) = rw eq at b in
          run_all-ok plugin (text "BEGIN") rest s.session s'.session t begun
          ∙ run_queries-committed s.held queries idents s' none a.0 a.1 h'
