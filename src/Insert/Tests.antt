-- ===== src/Insert/Tests.antt =====
-- Runs of plugins/format/classic/classic-insert.c on a database that keeps its statements, and its
-- theorems there.
use libpreludedb.Base.{
  ℕ, ◌+◌, ◌≡◌, refl, Bool, ◌||◌, true, false, Option, none, some, List, [], ◌∷◌, ◌++◌, Bytes,
  Result, ok, err, query, text, print_nat, ◌=ₛ◌, if◌then◌else◌,
}
use libpreludedb.Idmef.{pos, print_int}
use libpreludedb.Sql.{transaction_start, Plugin, Sql}
use libpreludedb.Delete.{alert_queries, heartbeat_queries}
use libpreludedb.Insert.{insert_alert_parts, insert_heartbeat_parts, insert_message, classic_insert}
use libpreludedb.Insert.Call.{◌>>=◌, ◌>>◌}
use libpreludedb.Insert.Classes.{
  StringRef, Alert, Heartbeat, Analyzer, Node, Address, Classification, WebService, ToolAlert,
  Alertident, alert_message, default_alert,
}
use libpreludedb.Insert.Row.{
  Index, at, last, Database, print_index, separated, print_values, get_string, escape_string,
  insert_row, get_optional_int32, insert_from, insert_last, insert_all,
}
use libpreludedb.Insert.Service.{insert_given_web_service}
use libpreludedb.Insert.Subject.{insert_address}
use libpreludedb.Insert.Details.{insert_classification}
use libpreludedb.Insert.Kind.{insert_tool_alert, insert_alertident}
use libpreludedb.Insert.Steps.{Steps}
use libpreludedb.Insert.Loops.{numbered, last_copy, insert_listed, insert_all_lem}
use libpreludedb.Insert.Deleted.{IsRemoved, insert_alert_parts-Steps, insert_heartbeat_parts-Steps}
use libpreludedb.Insert.OverSql.{Values, sql_database}
use libpreludedb.Insert.Lock.{LeavesUp, held-classic_insert}
use libpreludedb.Insert.Outcome.{Ends, classic_insert-Ends}
use libpreludedb.Insert.Unchecked.{Succeeds, failed_rows_unreported}

-- a database that keeps its statements, and refuses those it is told to
abbrev kept : (Bytes → Result (Option Bytes)) → Plugin
kept answer = record {
  Session = List Bytes;
  Table = Bytes;
  open_session = λ j. (ok tt, j);
  close_session = λ j. j;
  run = λ statement j. (answer statement, j ++ statement ∷ []);
  has_error = λ j. true;
}

abbrev quoted : Bytes → Bytes
quoted s = text "'" ++ (s ++ text "'")

abbrev plain : (answer : Bytes → Result (Option Bytes)) → Values (kept answer)
plain answer = record {
  Fetched = Bytes;
  Field = Bytes;
  escape = λ s j. (ok (quoted s), j);
  escape_binary = λ s j. (ok (quoted s), j);
  build_timestamp_string = λ t. ok (quoted (print_nat t));
  fetch_row = λ t j. (ok t, j);
  get_field = λ row i. ok row;
  to_uint64 = λ field. ok 7;
}

abbrev accepting : Bytes → Result (Option Bytes)
accepting statement = ok (some statement)

abbrev ready : Sql (List Bytes)
ready = record {
  session = [];
  connected = true;
  in_transaction = false;
  internal_transaction_disabled = false;
  held = 0;
  refcount = 1;
}

abbrev named : Bytes → StringRef
named s = some (some s)

abbrev address : Bytes → Address
address s = record {
  ident = none;
  category = some (text "ipv4-addr");
  address = named s;
  netmask = none;
  vlan_name = none;
  vlan_num = some (pos 3);
}

abbrev node : Node
node = record {
  ident = none;
  category = none;
  name = named (text "host");
  location = none;
  addresses = address (text "10.0.0.1") ∷ address (text "10.0.0.2") ∷ [];
}

abbrev analyzer : Analyzer
analyzer = record {
  analyzerid = named (text "42");
  class = none;
  name = none;
  model = none;
  version = none;
  manufacturer = none;
  ostype = none;
  osversion = none;
  node = some node;
  process = none;
}

abbrev bare : Classification
bare = record { ident = none; text = named (text "scan"); references = [] }

abbrev small : Alert
small = record {
  messageid = named (text "m");
  create_time = none;
  detect_time = none;
  analyzer_time = none;
  assessment = none;
  type = default_alert;
  analyzers = analyzer ∷ [];
  sources = [];
  targets = [];
  classification = some bare;
  additional_data = [];
}

abbrev beat : Heartbeat
beat = record {
  messageid = none;
  heartbeat_interval = some 600;
  analyzers = analyzer ∷ [];
  create_time = none;
  analyzer_time = none;
  additional_data = [];
}

insert_alert_parts-Steps_example :
    Steps
      (sql_database (kept accepting) (plain accepting))
      (IsRemoved alert_queries)
      7
      ready
      (insert_alert_parts (sql_database (kept accepting) (plain accepting)) small 7 ready).1
insert_alert_parts-Steps_example =
    insert_alert_parts-Steps (sql_database (kept accepting) (plain accepting)) small 7 ready

insert_heartbeat_parts-Steps_example :
    Steps
      (sql_database (kept accepting) (plain accepting))
      (IsRemoved heartbeat_queries)
      7
      ready
      (insert_heartbeat_parts (sql_database (kept accepting) (plain accepting)) beat 7 ready).1
insert_heartbeat_parts-Steps_example =
    insert_heartbeat_parts-Steps (sql_database (kept accepting) (plain accepting)) beat 7 ready

held-classic_insert_example :
    (classic_insert
      (sql_database (kept accepting) (plain accepting))
      (some (alert_message (some small)))
      ready).1.held
    ≡ 0
held-classic_insert_example =
    held-classic_insert (kept accepting) (plain accepting) (λ statement s. tt)
      (some (alert_message (some small))) ready refl

-- a child is written down with its index
abbrev note : Index → ℕ → List (Index × ℕ) → Result (Unit {0}) × List (Index × ℕ)
note i x s = (ok tt, s ++ (i, x) ∷ [])

insert_all_lem_example :
    insert_all note (5 ∷ 6 ∷ []) []
    ≡ insert_listed note (numbered 0 (5 ∷ 6 ∷ []) ++ last_copy (5 ∷ 6 ∷ [])) []
insert_all_lem_example = insert_all_lem note (5 ∷ 6 ∷ []) []

insert_all_runs : (insert_all note (5 ∷ 6 ∷ []) []).1 ≡ (at 0, 5) ∷ (at 1, 6) ∷ (last, 6) ∷ []
unfolding insert_all insert_from insert_last ◌>>◌ ◌>>=◌
insert_all_runs = refl

address_run :
    (insert_address
      (sql_database (kept accepting) (plain accepting))
      b'A'
      7
      last
      (at 1)
      (address (text "10.0.0.2"))
      ready).1.session
    ≡ text
        "INSERT INTO Prelude_Address (_parent_type, _message_ident, _parent0_index, _index,ident, category, vlan_name, vlan_num, address, netmask) VALUES('A', 7, -1, 1, NULL, 'ipv4-addr', NULL, 3, '10.0.0.2', NULL)"
      ∷ []
unfolding insert_address ◌>>=◌ escape_string get_string insert_row print_values separated
    print_index get_optional_int32 print_int print_nat text sql_database
address_run = refl

-- the rows that are refused
abbrev refusing : Bytes → Bytes → Bytes → ℕ → Result (Unit {0}) × ℕ
refusing table fields row s =
    if table =ₛ text "Prelude_Alertident" then (ok tt, s + 1) else (err query, s)

abbrev strict : Database ℕ
strict = record {
  Table = Unit;
  Fetched = Unit;
  Field = Unit;
  escape = λ v s. (ok [], s);
  escape_binary = λ v s. (ok [], s);
  time_to_timestamp = λ t s. (ok record { time = []; gmtoff = []; usec = [] }, s);
  insert = refusing;
  query = λ q s. (ok tt, s);
  fetch_row = λ t s. (ok tt, s);
  get_field = λ row i s. (ok tt, s);
  to_uint64 = λ field s. (ok 7, s);
  transaction_start = λ s. (ok tt, s);
  transaction_end = λ s. (ok tt, s);
  transaction_abort = λ s. (ok tt, s);
}

abbrev site : WebService
site = record { url = named (text "/"); cgi = none; http_method = none; args = [] }

abbrev correlated : Alertident
correlated = record { analyzerid = none; alertident = named (text "1") }

abbrev tool : ToolAlert
tool = record { name = none; command = none; alertidents = correlated ∷ [] }

strict-escape : (v : Option Bytes) → Succeeds (strict.escape v)
unfolding Succeeds
strict-escape v s = ([], refl)

strict-alertident : (j : Index) (a : Alertident) → Succeeds (insert_alertident strict b'T' 7 j a)
unfolding Succeeds insert_alertident ◌>>=◌ escape_string insert_row text
strict-alertident j a s = (tt, refl)

failed_rows_unreported_example :
    ((insert_classification strict 7 bare 0).0 ≡ ok tt)
    × ((insert_given_web_service strict b'S' 7 (at 0) site 0).0 ≡ ok tt)
    × ((insert_tool_alert strict 7 tool 0).0 ≡ ok tt)
failed_rows_unreported_example =
    failed_rows_unreported strict strict-escape bare site tool correlated [] b'S' 7 (at 0) 0 refl
      refl refl strict-alertident

-- only the statements of a transaction are answered
abbrev answered_if : Bool → Bytes → Result (Option Bytes)
answered_if c statement = if c then ok (some statement) else err query

abbrev guarding : Bytes → Result (Option Bytes)
guarding statement =
    answered_if (statement =ₛ text "BEGIN" || statement =ₛ text "ROLLBACK") statement

answered_if-LeavesUp : (c : Bool) (statement : Bytes) → LeavesUp (answered_if c statement)
answered_if-LeavesUp true statement = tt
answered_if-LeavesUp false statement = refl

guarding_begins : (transaction_start (kept guarding) ready).0 ≡ ok tt
unfolding transaction_start text
guarding_begins = refl

classic_insert-Ends_example :
    Ends
      (kept guarding)
      (plain guarding)
      (λ statement s. answered_if-LeavesUp _ statement)
      (insert_message
        (sql_database (kept guarding) (plain guarding))
        (alert_message (some small))
        (transaction_start (kept guarding) ready).1)
      (classic_insert
        (sql_database (kept guarding) (plain guarding))
        (some (alert_message (some small)))
        ready)
classic_insert-Ends_example =
    classic_insert-Ends (kept guarding) (plain guarding)
      (λ statement s. answered_if-LeavesUp _ statement) (alert_message (some small)) ready refl
      guarding_begins
