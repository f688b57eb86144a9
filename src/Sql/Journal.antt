-- ===== src/Sql/Journal.antt =====
-- A database that keeps a journal of the statements it runs, for the tests.
use libpreludedb.Base.{
  Bool, true, false, Option, none, List, [], ◌∷◌, ◌++◌, Bytes, Result, ok, err, connection, query,
  text, ◌=ₛ◌, if◌then◌else◌,
}
use libpreludedb.Sql.{Plugin, Sql}

-- the statements that a connection has run, and whether it is up
pub record Journal : Type 0 where
  pub entries : List Bytes
  pub up : Bool

-- A statement "die" takes the connection down, and "bad" is refused.
abbrev pub journal_run : Bytes → Journal → Result (Option (Unit {0})) × Journal
journal_run statement j =
    if statement =ₛ text "die"
    then (err connection, record j { up = false })
    else if statement =ₛ text "bad"
    then (err query, j)
    else (ok none, record j { entries = j.entries ++ statement ∷ [] })

abbrev pub journal : Plugin
journal = record {
  Session = Journal;
  Table = Unit;
  open_session = λ j. (ok tt, record j { up = true });
  close_session = λ j. j;
  run = journal_run;
  has_error = λ j. true;
}

abbrev pub fresh : Sql Journal
fresh = record {
  session = record { entries = []; up = false };
  connected = false;
  in_transaction = false;
  internal_transaction_disabled = false;
  held = 0;
  refcount = 1;
}

-- inside a transaction, with the connection up and with the connection lost
abbrev pub inside : Sql Journal
inside = record fresh {
  session = record { entries = text "BEGIN" ∷ []; up = true };
  connected = true;
  in_transaction = true;
  held = 1;
}

abbrev pub lost : Sql Journal
lost = record inside { session = record { entries = []; up = false }; connected = false }
