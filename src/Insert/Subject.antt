-- ===== src/Insert/Subject.antt =====
-- plugins/format/classic/classic-insert.c: the rows of addresses, nodes, users and processes.
use libpreludedb.Base.{ℕ, Option, some, [], ◌∷◌, text, failure}
use libpreludedb.Insert.Call.{Action, ◌>>=◌, ◌>>◌, failing_as}
use libpreludedb.Insert.Classes.{StringRef, Address, Node, UserId, User, Process}
use libpreludedb.Insert.Row.{
  Database, Index, at, escape_string, get_optional_int32, get_optional_uint, if_given, insert_all,
  insert_each, insert_row,
}

module _ {St : Type 0} (db : Database St) where
  unfoldable pub insert_address : ℕ → ℕ → Index → Index → Address → Action St (Unit {0})
  unfolding ◌>>=◌ escape_string get_optional_int32 insert_row
  insert_address parent_type message_ident parent_index address_index address = do
    category ← db.escape address.category
    ident ← escape_string db address.ident
    addr ← escape_string db address.address
    netmask ← escape_string db address.netmask
    vlan_name ← escape_string db address.vlan_name
    insert_row db record {
      table = text "Prelude_Address";
      fields =
          text
            "_parent_type, _message_ident, _parent0_index, _index,ident, category, vlan_name, vlan_num, address, netmask";
      parent_type = some parent_type;
      message_ident = message_ident;
      indexes = parent_index ∷ address_index ∷ [];
      columns =
          ident ∷ category ∷ vlan_name ∷ get_optional_int32 address.vlan_num ∷ addr ∷ netmask ∷ [];
    }

  unfoldable pub insert_given_node : ℕ → ℕ → Index → Node → Action St (Unit {0})
  unfolding ◌>>=◌ ◌>>◌ failing_as escape_string insert_row insert_all insert_address
  insert_given_node parent_type message_ident parent_index node = do
    category ← db.escape node.category
    ident ← escape_string db node.ident
    name ← escape_string db node.name
    location ← failing_as failure (escape_string db node.location)
    insert_row db record {
      table = text "Prelude_Node";
      fields = text "_parent_type, _message_ident, _parent0_index, ident, category, location, name";
      parent_type = some parent_type;
      message_ident = message_ident;
      indexes = parent_index ∷ [];
      columns = ident ∷ category ∷ location ∷ name ∷ [];
    }
    insert_all (insert_address parent_type message_ident parent_index) node.addresses

  unfoldable pub insert_node : ℕ → ℕ → Index → Option Node → Action St (Unit {0})
  unfolding if_given insert_given_node
  insert_node parent_type message_ident parent_index =
      if_given (insert_given_node parent_type message_ident parent_index)

  unfoldable pub insert_user_id :
      ℕ → ℕ → Index → Index → Index → Index → UserId → Action St (Unit {0})
  unfolding ◌>>=◌ escape_string get_optional_uint insert_row
  insert_user_id parent_type message_ident parent_index file_index file_access_index index user_id =
      do
        ident ← escape_string db user_id.ident
        tty ← escape_string db user_id.tty
        type ← db.escape user_id.type
        name ← escape_string db user_id.name
        insert_row db record {
          table = text "Prelude_UserId";
          fields =
              text
                "_parent_type, _message_ident, _parent0_index, _parent1_index, _parent2_index, _index, ident, type, name, number, tty";
          parent_type = some parent_type;
          message_ident = message_ident;
          indexes = parent_index ∷ file_index ∷ file_access_index ∷ index ∷ [];
          columns = ident ∷ type ∷ name ∷ get_optional_uint user_id.number ∷ tty ∷ [];
        }

  unfoldable pub insert_given_user : ℕ → ℕ → Index → User → Action St (Unit {0})
  unfolding ◌>>=◌ ◌>>◌ escape_string insert_row insert_all insert_user_id
  insert_given_user parent_type message_ident parent_index user = do
    ident ← escape_string db user.ident
    category ← db.escape user.category
    insert_row db record {
      table = text "Prelude_User";
      fields = text "_parent_type, _message_ident, _parent0_index, ident, category";
      parent_type = some parent_type;
      message_ident = message_ident;
      indexes = parent_index ∷ [];
      columns = ident ∷ category ∷ [];
    }
    insert_all (insert_user_id parent_type message_ident parent_index (at 0) (at 0)) user.user_ids

  unfoldable pub insert_user : ℕ → ℕ → Index → Option User → Action St (Unit {0})
  unfolding if_given insert_given_user
  insert_user parent_type message_ident parent_index =
      if_given (insert_given_user parent_type message_ident parent_index)

  unfoldable pub insert_process_arg : ℕ → ℕ → Index → Index → StringRef → Action St (Unit {0})
  unfolding ◌>>=◌ escape_string insert_row
  insert_process_arg parent_type message_ident parent_index arg_index arg = do
    tmp ← escape_string db arg
    insert_row db record {
      table = text "Prelude_ProcessArg";
      fields = text "_parent_type, _message_ident, _parent0_index, _index, arg";
      parent_type = some parent_type;
      message_ident = message_ident;
      indexes = parent_index ∷ arg_index ∷ [];
      columns = tmp ∷ [];
    }

  unfoldable pub insert_process_env : ℕ → ℕ → Index → Index → StringRef → Action St (Unit {0})
  unfolding ◌>>=◌ escape_string insert_row
  insert_process_env parent_type message_ident parent_index env_index env = do
    tmp ← escape_string db env
    insert_row db record {
      table = text "Prelude_ProcessEnv";
      fields = text "_parent_type, _message_ident, _parent0_index, _index, env";
      parent_type = some parent_type;
      message_ident = message_ident;
      indexes = parent_index ∷ env_index ∷ [];
      columns = tmp ∷ [];
    }

  unfoldable pub insert_given_process : ℕ → ℕ → Index → Process → Action St (Unit {0})
  unfolding ◌>>=◌ ◌>>◌ escape_string get_optional_uint insert_row insert_each insert_process_arg
      insert_process_env
  insert_given_process parent_type message_ident parent_index process = do
    ident ← escape_string db process.ident
    name ← escape_string db process.name
    path ← escape_string db process.path
    insert_row db record {
      table = text "Prelude_Process";
      fields = text "_parent_type, _message_ident, _parent0_index, ident, name, pid, path";
      parent_type = some parent_type;
      message_ident = message_ident;
      indexes = parent_index ∷ [];
      columns = ident ∷ name ∷ get_optional_uint process.pid ∷ path ∷ [];
    }
    insert_each (insert_process_arg parent_type message_ident parent_index) 0 process.args
    insert_each (insert_process_env parent_type message_ident parent_index) 0 process.envs

  unfoldable pub insert_process : ℕ → ℕ → Index → Option Process → Action St (Unit {0})
  unfolding if_given insert_given_process
  insert_process parent_type message_ident parent_index =
      if_given (insert_given_process parent_type message_ident parent_index)
