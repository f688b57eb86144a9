-- ===== src/Insert/Classes.antt =====
-- libprelude's IDMEF messages, as plugins/format/classic/classic-insert.c reads them: a field for
-- each accessor that it calls. An enumeration is the string that libprelude has for its value, if
-- any; a number that may be missing is an `Option`.
use libpreludedb.Base.{ℕ, Bytes, Option, List, Result}
use libpreludedb.Idmef.{ℤ}

-- A `prelude_string_t *`, which may be null, and whose content may be null.
abbrev pub StringRef : Type 0
StringRef = Option (Option Bytes)

-- what libprelude's `_to_string` functions return, null for a value that they do not know
abbrev pub EnumName : Type 0
EnumName = Option Bytes

-- `idmef_time_t`
pub record Time : Type 0 where
  pub sec : ℕ
  pub usec : ℕ
  pub gmt_offset : ℤ

-- `idmef_data_t`. A `char_string` is stored with a terminating zero, which is not part of the text
-- here; `other` is what `idmef_data_to_string` writes, or its error.
pub data Data : Type 0 where
  byte_string char_string : Bytes → Data
  character : ℕ → Data
  other : Result Bytes → Data

pub record Address : Type 0 where
  pub ident : StringRef
  pub category : EnumName
  pub address : StringRef
  pub netmask : StringRef
  pub vlan_name : StringRef
  pub vlan_num : Option ℤ

pub record Node : Type 0 where
  pub ident : StringRef
  pub category : EnumName
  pub name : StringRef
  pub location : StringRef
  pub addresses : List Address

pub record UserId : Type 0 where
  pub ident : StringRef
  pub tty : StringRef
  pub type : EnumName
  pub name : StringRef
  pub number : Option ℕ

pub record User : Type 0 where
  pub ident : StringRef
  pub category : EnumName
  pub user_ids : List UserId

pub record Process : Type 0 where
  pub ident : StringRef
  pub name : StringRef
  pub path : StringRef
  pub pid : Option ℕ
  pub args : List StringRef
  pub envs : List StringRef

pub record SnmpService : Type 0 where
  pub oid : StringRef
  pub security_name : StringRef
  pub context_name : StringRef
  pub context_engine_id : StringRef
  pub command : StringRef
  pub message_processing_model : Option ℕ
  pub security_model : Option ℕ
  pub security_level : Option ℕ

pub record WebService : Type 0 where
  pub url : StringRef
  pub cgi : StringRef
  pub http_method : StringRef
  pub args : List StringRef

pub data ServiceType : Type 0 where
  default_service other_service : ServiceType
  web_service_type : Option WebService → ServiceType
  snmp_service_type : Option SnmpService → ServiceType

pub record Service : Type 0 where
  pub ident : StringRef
  pub name : StringRef
  pub iana_protocol_name : StringRef
  pub portlist : StringRef
  pub protocol : StringRef
  pub ip_version : Option ℕ
  pub port : Option ℕ
  pub iana_protocol_number : Option ℕ
  pub type : ServiceType

pub record Inode : Type 0 where
  pub change_time : Option Time
  pub number : Option ℕ
  pub major_device : Option ℕ
  pub minor_device : Option ℕ
  pub c_major_device : Option ℕ
  pub c_minor_device : Option ℕ

pub record Linkage : Type 0 where
  pub category : EnumName
  pub name : StringRef
  pub path : StringRef

pub record FileAccess : Type 0 where
  pub permissions : List StringRef
  pub user_id : UserId

pub record Checksum : Type 0 where
  pub value : StringRef
  pub key : StringRef
  pub algorithm : EnumName

pub record File : Type 0 where
  pub create_time : Option Time
  pub modify_time : Option Time
  pub access_time : Option Time
  pub category : EnumName
  pub ident : StringRef
  pub name : StringRef
  pub path : StringRef
  pub file_type : StringRef
  pub fstype : EnumName
  pub data_size : Option ℕ
  pub disk_size : Option ℕ
  pub file_accesses : List FileAccess
  pub linkages : List Linkage
  pub inode : Option Inode
  pub checksums : List Checksum

pub record Source : Type 0 where
  pub ident : StringRef
  pub spoofed : EnumName
  pub interface : StringRef
  pub node : Option Node
  pub user : Option User
  pub process : Option Process
  pub service : Option Service

pub record Target : Type 0 where
  pub ident : StringRef
  pub decoy : EnumName
  pub interface : StringRef
  pub node : Option Node
  pub user : Option User
  pub process : Option Process
  pub service : Option Service
  pub files : List File

pub record Analyzer : Type 0 where
  pub analyzerid : StringRef
  pub class : StringRef
  pub name : StringRef
  pub model : StringRef
  pub version : StringRef
  pub manufacturer : StringRef
  pub ostype : StringRef
  pub osversion : StringRef
  pub node : Option Node
  pub process : Option Process

pub record Reference : Type 0 where
  pub origin : EnumName
  pub url : StringRef
  pub name : StringRef
  pub meaning : StringRef

pub record Classification : Type 0 where
  pub ident : StringRef
  pub text : StringRef
  pub references : List Reference

pub record AdditionalData : Type 0 where
  pub type : EnumName
  pub meaning : StringRef
  pub data_ : Data

pub record Impact : Type 0 where
  pub completion : EnumName
  pub type : EnumName
  pub severity : EnumName
  pub description : StringRef

pub record Act : Type 0 where
  pub category : EnumName
  pub description : StringRef

-- `confidence` is what printf writes for the float.
pub record Confidence : Type 0 where
  pub rating : EnumName
  pub confidence : Bytes

pub record Assessment : Type 0 where
  pub impact : Option Impact
  pub confidence : Option Confidence
  pub actions : List Act

pub record OverflowAlert : Type 0 where
  pub program : StringRef
  pub buffer : Data
  pub size : Option ℕ

pub record Alertident : Type 0 where
  pub analyzerid : StringRef
  pub alertident : StringRef

pub record ToolAlert : Type 0 where
  pub name : StringRef
  pub command : StringRef
  pub alertidents : List Alertident

pub record CorrelationAlert : Type 0 where
  pub name : StringRef
  pub alertidents : List Alertident

pub data AlertType : Type 0 where
  default_alert other_alert : AlertType
  tool_alert_type : Option ToolAlert → AlertType
  overflow_alert_type : OverflowAlert → AlertType
  correlation_alert_type : Option CorrelationAlert → AlertType

pub record Alert : Type 0 where
  pub messageid : StringRef
  pub create_time : Option Time
  pub detect_time : Option Time
  pub analyzer_time : Option Time
  pub assessment : Option Assessment
  pub type : AlertType
  pub analyzers : List Analyzer
  pub sources : List Source
  pub targets : List Target
  pub classification : Option Classification
  pub additional_data : List AdditionalData

pub record Heartbeat : Type 0 where
  pub messageid : StringRef
  pub heartbeat_interval : Option ℕ
  pub analyzers : List Analyzer
  pub create_time : Option Time
  pub analyzer_time : Option Time
  pub additional_data : List AdditionalData

pub data Message : Type 0 where
  alert_message : Option Alert → Message
  heartbeat_message : Option Heartbeat → Message
  other_message : Message
