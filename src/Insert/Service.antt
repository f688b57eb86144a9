-- ===== src/Insert/Service.antt =====
-- plugins/format/classic/classic-insert.c: the rows of services.
use libpreludedb.Base.{ℕ, Option, some, [], ◌∷◌, text, failure}
use libpreludedb.Insert.Call.{Action, ◌>>=◌, ◌>>◌, done, fail, failing_as, unchecked}
use libpreludedb.Insert.Classes.{
  StringRef, SnmpService, WebService, ServiceType, Service, default_service, web_service_type,
  snmp_service_type, other_service,
}
use libpreludedb.Insert.Row.{
  Database, Index, escape_string, get_optional_uint, if_given, insert_all, insert_row,
}

module _ {St : Type 0} (db : Database St) where
  unfoldable pub insert_given_snmp_service : ℕ → ℕ → Index → SnmpService → Action St (Unit {0})
  unfolding ◌>>=◌ escape_string get_optional_uint insert_row
  insert_given_snmp_service parent_type message_ident parent_index snmp_service = do
    oid ← escape_string db snmp_service.oid
    security_name ← escape_string db snmp_service.security_name
    context_name ← escape_string db snmp_service.context_name
    context_engine_id ← escape_string db snmp_service.context_engine_id
    command ← escape_string db snmp_service.command
    insert_row db record {
      table = text "Prelude_SnmpService";
      fields =
          text
            "_parent_type, _message_ident, _parent0_index, snmp_oid, message_processing_model, security_model, security_name, security_level, context_name, context_engine_id, command";
      parent_type = some parent_type;
      message_ident = message_ident;
      indexes = parent_index ∷ [];
      columns =
          oid
          ∷ get_optional_uint snmp_service.message_processing_model
          ∷ get_optional_uint snmp_service.security_model
          ∷ security_name
          ∷ get_optional_uint snmp_service.security_level
          ∷ context_name
          ∷ context_engine_id
          ∷ command
          ∷ [];
    }

  unfoldable pub insert_web_service_arg : ℕ → ℕ → Index → Index → StringRef → Action St (Unit {0})
  unfolding ◌>>=◌ escape_string insert_row
  insert_web_service_arg parent_type message_ident parent_index arg_index arg = do
    tmp ← escape_string db arg
    insert_row db record {
      table = text "Prelude_WebServiceArg";
      fields = text "_parent_type, _message_ident, _parent0_index, _index, arg";
      parent_type = some parent_type;
      message_ident = message_ident;
      indexes = parent_index ∷ arg_index ∷ [];
      columns = tmp ∷ [];
    }

  -- The result of the insertion into Prelude_WebService is not looked at.
  unfoldable pub insert_given_web_service : ℕ → ℕ → Index → WebService → Action St (Unit {0})
  unfolding ◌>>=◌ ◌>>◌ failing_as unchecked escape_string insert_row insert_all
      insert_web_service_arg
  insert_given_web_service parent_type message_ident parent_index web_service = do
    url ← escape_string db web_service.url
    cgi ← failing_as failure (escape_string db web_service.cgi)
    method ← escape_string db web_service.http_method
    unchecked (
        insert_row db record {
          table = text "Prelude_WebService";
          fields = text "_parent_type, _message_ident, _parent0_index, url, cgi, http_method";
          parent_type = some parent_type;
          message_ident = message_ident;
          indexes = parent_index ∷ [];
          columns = url ∷ cgi ∷ method ∷ [];
        })
    insert_all (insert_web_service_arg parent_type message_ident parent_index) web_service.args

  unfoldable pub insert_service_type : ℕ → ℕ → Index → ServiceType → Action St (Unit {0})
  unfolding done fail if_given insert_given_web_service insert_given_snmp_service
  insert_service_type parent_type message_ident parent_index default_service = done
  insert_service_type parent_type message_ident parent_index (web_service_type w) =
      if_given (insert_given_web_service parent_type message_ident parent_index) w
  insert_service_type parent_type message_ident parent_index (snmp_service_type w) =
      if_given (insert_given_snmp_service parent_type message_ident parent_index) w
  insert_service_type parent_type message_ident parent_index other_service = fail failure

  unfoldable pub insert_given_service : ℕ → ℕ → Index → Service → Action St (Unit {0})
  unfolding ◌>>=◌ ◌>>◌ escape_string get_optional_uint insert_row insert_service_type
  insert_given_service parent_type message_ident parent_index service = do
    ident ← escape_string db service.ident
    name ← escape_string db service.name
    iana_protocol_name ← escape_string db service.iana_protocol_name
    portlist ← escape_string db service.portlist
    protocol ← escape_string db service.protocol
    insert_row db record {
      table = text "Prelude_Service";
      fields =
          text
            "_parent_type, _message_ident, _parent0_index, ident, ip_version, name, port, iana_protocol_number, iana_protocol_name, portlist, protocol";
      parent_type = some parent_type;
      message_ident = message_ident;
      indexes = parent_index ∷ [];
      columns =
          ident
          ∷ get_optional_uint service.ip_version
          ∷ name
          ∷ get_optional_uint service.port
          ∷ get_optional_uint service.iana_protocol_number
          ∷ iana_protocol_name
          ∷ portlist
          ∷ protocol
          ∷ [];
    }
    insert_service_type parent_type message_ident parent_index service.type

  unfoldable pub insert_service : ℕ → ℕ → Index → Option Service → Action St (Unit {0})
  unfolding if_given insert_given_service
  insert_service parent_type message_ident parent_index =
      if_given (insert_given_service parent_type message_ident parent_index)
