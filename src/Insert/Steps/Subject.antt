-- ===== src/Insert/Steps/Subject.antt =====
-- plugins/format/classic/classic-insert.c: the steps of the insertion of addresses, nodes, users and processes.
use libpreludedb.Base.{ℕ, Option, some, Bytes, text}
use libpreludedb.Insert.Classes.{StringRef, Address, Node, UserId, User, Process}
use libpreludedb.Insert.Row.{Index, Database}
use libpreludedb.Insert.Subject.{
  insert_address, insert_given_node, insert_node, insert_user_id, insert_given_user, insert_user,
  insert_process_arg, insert_process_env, insert_given_process, insert_process,
}
use libpreludedb.Insert.Steps.{Inserts, insertion}

abbrev pub AllowsNode : (Bytes → Option ℕ → Type 0) → ℕ → Type 0
AllowsNode Allowed p =
    (Allowed (text "Prelude_Node") (some p)) × (Allowed (text "Prelude_Address") (some p))

abbrev pub AllowsUser : (Bytes → Option ℕ → Type 0) → ℕ → Type 0
AllowsUser Allowed p =
    (Allowed (text "Prelude_User") (some p)) × (Allowed (text "Prelude_UserId") (some p))

abbrev pub AllowsProcess : (Bytes → Option ℕ → Type 0) → ℕ → Type 0
AllowsProcess Allowed p =
    (Allowed (text "Prelude_Process") (some p))
    × (Allowed (text "Prelude_ProcessArg") (some p))
    × (Allowed (text "Prelude_ProcessEnv") (some p))

module _ {St : Type 0} (db : Database St) (Allowed : Bytes → Option ℕ → Type 0) (ident : ℕ) where
  insert_address-Inserts :
      (p : ℕ) (i j : Index) (a : Address)
      → Allowed (text "Prelude_Address") (some p)
      → Inserts db Allowed ident (insert_address db p ident i j a)
  unfolding insert_address
  insert_address-Inserts p i j a h = search (insertion) depth 30

  insert_given_node-Inserts :
      (p : ℕ) (i : Index) (n : Node)
      → AllowsNode Allowed p
      → Inserts db Allowed ident (insert_given_node db p ident i n)
  unfolding insert_given_node
  insert_given_node-Inserts p i n h = search (insertion, insert_address-Inserts) depth 30

  pub insert_node-Inserts :
      (p : ℕ) (i : Index) (n : Option Node)
      → AllowsNode Allowed p
      → Inserts db Allowed ident (insert_node db p ident i n)
  unfolding insert_node
  insert_node-Inserts p i n h = search (insertion, insert_given_node-Inserts) depth 30

  pub insert_user_id-Inserts :
      (p : ℕ) (i j k l : Index) (u : UserId)
      → Allowed (text "Prelude_UserId") (some p)
      → Inserts db Allowed ident (insert_user_id db p ident i j k l u)
  unfolding insert_user_id
  insert_user_id-Inserts p i j k l u h = search (insertion) depth 30

  insert_given_user-Inserts :
      (p : ℕ) (i : Index) (u : User)
      → AllowsUser Allowed p
      → Inserts db Allowed ident (insert_given_user db p ident i u)
  unfolding insert_given_user
  insert_given_user-Inserts p i u h = search (insertion, insert_user_id-Inserts) depth 30

  pub insert_user-Inserts :
      (p : ℕ) (i : Index) (u : Option User)
      → AllowsUser Allowed p
      → Inserts db Allowed ident (insert_user db p ident i u)
  unfolding insert_user
  insert_user-Inserts p i u h = search (insertion, insert_given_user-Inserts) depth 30

  insert_process_arg-Inserts :
      (p : ℕ) (i j : Index) (v : StringRef)
      → Allowed (text "Prelude_ProcessArg") (some p)
      → Inserts db Allowed ident (insert_process_arg db p ident i j v)
  unfolding insert_process_arg
  insert_process_arg-Inserts p i j v h = search (insertion) depth 30

  insert_process_env-Inserts :
      (p : ℕ) (i j : Index) (v : StringRef)
      → Allowed (text "Prelude_ProcessEnv") (some p)
      → Inserts db Allowed ident (insert_process_env db p ident i j v)
  unfolding insert_process_env
  insert_process_env-Inserts p i j v h = search (insertion) depth 30

  insert_given_process-Inserts :
      (p : ℕ) (i : Index) (v : Process)
      → AllowsProcess Allowed p
      → Inserts db Allowed ident (insert_given_process db p ident i v)
  unfolding insert_given_process
  insert_given_process-Inserts p i v h =
      search (insertion, insert_process_arg-Inserts, insert_process_env-Inserts) depth 30

  pub insert_process-Inserts :
      (p : ℕ) (i : Index) (v : Option Process)
      → AllowsProcess Allowed p
      → Inserts db Allowed ident (insert_process db p ident i v)
  unfolding insert_process
  insert_process-Inserts p i v h = search (insertion, insert_given_process-Inserts) depth 30
