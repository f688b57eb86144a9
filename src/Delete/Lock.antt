-- ===== src/Delete/Lock.antt =====
-- The lock that `delete_message` of plugins/format/classic/classic-delete.c takes.
use libpreludedb.Base.{
  ℕ, ◌+◌, ◌≡◌, ◌∙◌, Bool-cases, inl, inr, true, false, Option, none, List, [], ◌∷◌, Bytes, Result,
  ok, err, arith,
}
use libpreludedb.Sql.{Plugin, Sql, sql_query, transaction_start, transaction_end, transaction_abort}
use libpreludedb.Sql.Query.{held-sql_query, disabled-sql_query}
use libpreludedb.Delete.{expand, run_queries, when_started, delete_message}

module _ (plugin : Plugin) where
  open plugin use {Session, Table, run}

  -- inside the transaction that was opened with the lock held `base` times
  pub record IsOpen (base : ℕ) (s : Sql Session) : Type 0 where
    pub enabled : s.internal_transaction_disabled ≡ false
    pub in_transaction : s.in_transaction ≡ true
    pub held_once : s.held ≡ base + 1

  abbrev IsClosed : ℕ → Sql Session → Type 0
  IsClosed base s = (s.held ≡ base) × (s.in_transaction ≡ false)

  -- a failure may have lost the connection, a success has not
  abbrev pub Answers : ℕ → Result (Option Table) × Sql Session → Type 0
  Answers base (ok _, s) = IsOpen base s × (s.connected ≡ true)
  Answers base (err _, s) = IsOpen base s

  pub sql_query-Answers :
      (base : ℕ) (statement : Bytes) (s : Sql Session)
      → IsOpen base s
      → s.connected ≡ true
      → Answers base (sql_query plugin statement s)
  unfolding sql_query
  sql_query-Answers base statement s inside c = ground arith

  transaction_abort-IsClosed :
      (base : ℕ) (s : Sql Session) → IsOpen base s → IsClosed base (transaction_abort plugin s).1
  unfolding transaction_abort sql_query
  transaction_abort-IsClosed base s inside = ground arith

  transaction_end-IsClosed :
      (base : ℕ) (s : Sql Session)
      → IsOpen base s
      → s.connected ≡ true
      → IsClosed base (transaction_end plugin s).1
  unfolding transaction_end sql_query
  transaction_end-IsClosed base s inside c = ground arith

  run_queries-IsClosed :
      (base : ℕ) (queries : List Bytes) (idents : Bytes) (r : Result (Option Table) × Sql Session)
      → Answers base r
      → IsClosed base (run_queries plugin queries idents r).1
  unfolding run_queries
  run_queries-IsClosed base queries idents (err e, s) h =
      ground (arith, transaction_abort-IsClosed base s h)
  run_queries-IsClosed base [] idents (ok t, s) h = transaction_end-IsClosed base s h.0 h.1
  run_queries-IsClosed base (q ∷ queries) idents (ok t, s) h =
      run_queries-IsClosed base queries idents (sql_query plugin (expand q idents) s)
        (sql_query-Answers base (expand q idents) s h.0 h.1)

  run_queries-disabled :
      (queries : List Bytes) (idents : Bytes) (r : Result (Option Table) × Sql Session)
      → r.1.internal_transaction_disabled ≡ true
      → (run_queries plugin queries idents r).1.held ≡ r.1.held
  unfolding run_queries transaction_abort transaction_end
  run_queries-disabled queries idents (err e, s) h = ground arith
  run_queries-disabled [] idents (ok t, s) h = ground arith
  run_queries-disabled (q ∷ queries) idents (ok t, s) h =
      run_queries-disabled queries idents (sql_query plugin (expand q idents) s)
        (disabled-sql_query plugin (expand q idents) s ∙ h)
      ∙ held-sql_query plugin (expand q idents) s

  abbrev pub Started : ℕ → Result (Unit {0}) × Sql Session → Type 0
  Started base (ok _, s) = IsOpen base s × (s.connected ≡ true)
  Started base (err _, s) = s.held ≡ base

  pub transaction_start-Started :
      (s : Sql Session)
      → s.internal_transaction_disabled ≡ false
      → Started s.held (transaction_start plugin s)
  unfolding transaction_start sql_query
  transaction_start-Started s e = ground arith

  transaction_start-disabled :
      (s : Sql Session)
      → s.internal_transaction_disabled ≡ true
      → transaction_start plugin s ≡ (ok tt, s)
  unfolding transaction_start
  transaction_start-disabled s e = ground arith

  -- The deletion gives the lock back, whatever fails, in a transaction or with transactions
  -- disabled.
  pub held-delete_message :
      (queries : List Bytes) (idents : Bytes) (s : Sql Session)
      → (delete_message plugin queries idents s).1.held ≡ s.held
  unfolding delete_message
  held-delete_message queries idents s = elim (Bool-cases s.internal_transaction_disabled) [
    | inl off ↦
        rw (transaction_start-disabled s off) (run_queries-disabled queries idents (ok none, s) off)
    | inr on ↦ go (transaction_start plugin s) (transaction_start-Started s on)
  ]
    where
      go :
          (r : Result (Unit {0}) × Sql Session)
          → Started s.held r
          → (when_started plugin queries idents r).1.held ≡ s.held
      go (err e, s') h = h
      go (ok _, s') h = (run_queries-IsClosed s.held queries idents (ok none, s') h).0
