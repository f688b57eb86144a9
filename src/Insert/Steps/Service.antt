-- ===== src/Insert/Steps/Service.antt =====
-- plugins/format/classic/classic-insert.c: the steps of the insertion of services.
use libpreludedb.Base.{ℕ, Option, some, Bytes, text}
use libpreludedb.Insert.Classes.{
  StringRef, SnmpService, WebService, ServiceType, Service, default_service, web_service_type,
  snmp_service_type, other_service,
}
use libpreludedb.Insert.Row.{Index, Database}
use libpreludedb.Insert.Service.{
  insert_given_snmp_service, insert_web_service_arg, insert_given_web_service, insert_service_type,
  insert_given_service, insert_service,
}
use libpreludedb.Insert.Steps.{Inserts, insertion}

abbrev pub AllowsService : (Bytes → Option ℕ → Type 0) → ℕ → Type 0
AllowsService Allowed p =
    (Allowed (text "Prelude_Service") (some p))
    × (Allowed (text "Prelude_WebService") (some p))
    × (Allowed (text "Prelude_WebServiceArg") (some p))
    × (Allowed (text "Prelude_SnmpService") (some p))

module _ {St : Type 0} (db : Database St) (Allowed : Bytes → Option ℕ → Type 0) (ident : ℕ) where
  insert_given_snmp_service-Inserts :
      (p : ℕ) (i : Index) (v : SnmpService)
      → Allowed (text "Prelude_SnmpService") (some p)
      → Inserts db Allowed ident (insert_given_snmp_service db p ident i v)
  unfolding insert_given_snmp_service
  insert_given_snmp_service-Inserts p i v h = search (insertion) depth 30

  insert_web_service_arg-Inserts :
      (p : ℕ) (i j : Index) (v : StringRef)
      → Allowed (text "Prelude_WebServiceArg") (some p)
      → Inserts db Allowed ident (insert_web_service_arg db p ident i j v)
  unfolding insert_web_service_arg
  insert_web_service_arg-Inserts p i j v h = search (insertion) depth 30

  insert_given_web_service-Inserts :
      (p : ℕ) (i : Index) (v : WebService)
      → Allowed (text "Prelude_WebService") (some p)
      → Allowed (text "Prelude_WebServiceArg") (some p)
      → Inserts db Allowed ident (insert_given_web_service db p ident i v)
  unfolding insert_given_web_service
  insert_given_web_service-Inserts p i v h0 h1 =
      search (insertion, insert_web_service_arg-Inserts) depth 30

  insert_service_type-Inserts :
      (p : ℕ) (i : Index) (v : ServiceType)
      → AllowsService Allowed p
      → Inserts db Allowed ident (insert_service_type db p ident i v)
  unfolding insert_service_type
  insert_service_type-Inserts p i default_service h = search (insertion) depth 30
  insert_service_type-Inserts p i (web_service_type v) h =
      search (insertion, insert_given_web_service-Inserts) depth 30
  insert_service_type-Inserts p i (snmp_service_type v) h =
      search (insertion, insert_given_snmp_service-Inserts) depth 30
  insert_service_type-Inserts p i other_service h = search (insertion) depth 30

  insert_given_service-Inserts :
      (p : ℕ) (i : Index) (v : Service)
      → AllowsService Allowed p
      → Inserts db Allowed ident (insert_given_service db p ident i v)
  unfolding insert_given_service
  insert_given_service-Inserts p i v h = search (insertion, insert_service_type-Inserts) depth 30

  pub insert_service-Inserts :
      (p : ℕ) (i : Index) (v : Option Service)
      → AllowsService Allowed p
      → Inserts db Allowed ident (insert_service db p ident i v)
  unfolding insert_service
  insert_service-Inserts p i v h = search (insertion, insert_given_service-Inserts) depth 30
