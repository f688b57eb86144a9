-- ===== src/Sql/Transaction.antt =====
-- The transactions of src/preludedb-sql.c: what they do to the flags and to the lock, and what a
-- lost connection does to them.
use libpreludedb.Base.{
  ℕ, ◌+◌, ◌≡◌, true, false, Option, Bytes, ok, err, not_in_transaction, already_in_transaction,
  arith, ◌⊎◌, text, if◌then◌else◌,
}
use libpreludedb.Sql.{
  Plugin, Sql, sql_query, transaction_start, transaction_end, transaction_abort, lock, unlock,
  enable_internal_transaction, disable_internal_transaction,
}

-- The lock is held once more than `base` inside a transaction, and `base` times outside.
abbrev pub IsBalanced : {Session : Type 0} → ℕ → Sql Session → Type 0
IsBalanced base s = s.held ≡ (if s.in_transaction then base + 1 else base)

-- No transaction is open over a lost connection.
abbrev pub IsSteady : {Session : Type 0} → Sql Session → Type 0
IsSteady s = (s.in_transaction ≡ false) ⊎ (s.connected ≡ true)

-- What a client may call.
pub data Call : Type 0 where
  run_query : Bytes → Call
  start end abort enable disable : Call

module _ (plugin : Plugin) where
  open plugin use {Session, run, open_session, close_session}

  unfoldable pub after : Call → Sql Session → Sql Session
  unfolding sql_query transaction_start transaction_end transaction_abort
      enable_internal_transaction disable_internal_transaction
  after (run_query statement) s = (sql_query plugin statement s).1
  after start s = (transaction_start plugin s).1
  after end s = (transaction_end plugin s).1
  after abort s = (transaction_abort plugin s).1
  after enable s = enable_internal_transaction plugin s
  after disable s = disable_internal_transaction plugin s

  -- Runs of calls, each made in a steady state.
  pub data Runs (s : Sql Session) : Sql Session → Type 0 where
    nothing : Runs s s
    then_call : {t : Sql Session} → Runs s t → (c : Call) → IsSteady t → Runs s (after c t)

  after-IsBalanced :
      (base : ℕ) (c : Call) (s : Sql Session)
      → IsSteady s
      → IsBalanced base s
      → IsBalanced base (after c s)
  unfolding after
  after-IsBalanced base (run_query statement) s steady h = ground arith
  after-IsBalanced base start s steady h = ground arith
  after-IsBalanced base end s steady h = ground arith
  after-IsBalanced base abort s steady h = ground arith
  after-IsBalanced base _ s steady h = h

  -- Whatever a client calls, in whatever order, and whatever the database answers: as long as no
  -- call is made in a transaction whose connection was lost, the lock is held once more inside a
  -- transaction than outside it.
  pub Runs-IsBalanced :
      (base : ℕ) {s t : Sql Session} → IsBalanced base s → Runs s t → IsBalanced base t
  Runs-IsBalanced base h nothing = h
  Runs-IsBalanced base h (then_call {t = t} r c steady) =
      after-IsBalanced base c t steady (Runs-IsBalanced base h r)

  module _ (s : Sql Session) (enabled : s.internal_transaction_disabled ≡ false) where
    -- Starting a transaction: on success it is open, on a connected session, with the lock held
    -- once more.
    pub transaction_start_ok :
        (transaction_start plugin s).0 ≡ ok tt
        → ((transaction_start plugin s).1.in_transaction ≡ true)
          × ((transaction_start plugin s).1.connected ≡ true)
          × ((transaction_start plugin s).1.held ≡ s.held + 1)
    unfolding transaction_start sql_query
    transaction_start_ok h = ground arith

    -- A transaction in a transaction is refused, and nothing changes.
    pub transaction_start_twice :
        s.in_transaction ≡ true → transaction_start plugin s ≡ (err already_in_transaction, s)
    unfolding transaction_start lock unlock
    transaction_start_twice h = ground arith

    -- The connection was lost inside a transaction, and can be opened again. The next statement
    -- opens it and forgets the transaction without releasing the lock: the transaction can be
    -- neither committed nor aborted, and the lock stays held.
    pub reconnect_leaks_lock :
        (statement : Bytes)
        → s.in_transaction ≡ true
        → s.connected ≡ false
        → (open_session s.session).0 ≡ ok tt
        → let s' = (sql_query plugin statement s).1 in
          (transaction_end plugin s' ≡ (err not_in_transaction, s'))
          × (transaction_abort plugin s' ≡ (err not_in_transaction, s'))
          × (s'.held ≡ s.held)
    unfolding sql_query transaction_end transaction_abort
    reconnect_leaks_lock statement t c o = ground arith

    -- So, too, a commit of that transaction reports success if the database accepts a COMMIT on
    -- the new connection, where no statement of the transaction was run.
    pub commit_on_new_connection :
        (answer : Option (plugin.Table))
        → s.in_transaction ≡ true
        → s.connected ≡ false
        → (open_session s.session).0 ≡ ok tt
        → (run (text "COMMIT") (open_session s.session).1).0 ≡ ok answer
        → (transaction_end plugin s).0 ≡ ok tt
    unfolding sql_query transaction_end
    commit_on_new_connection answer t c o r = ground arith
