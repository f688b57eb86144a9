-- ===== src/Joins/Samples.antt =====
-- Class ids for the tests on plugins/format/classic/classic-sql-join.c and classic-path-resolve.c.
use libpreludedb.Joins.{ClassIds}

abbrev pub ids : ClassIds
ids = record {
  alert = 1;
  heartbeat = 2;
  classification = 3;
  assessment = 4;
  overflow_alert = 5;
  tool_alert = 6;
  correlation_alert = 7;
  source = 8;
  target = 9;
  file = 10;
  file_access = 11;
  user_id = 12;
  alertident = 13;
  process = 14;
  snmp_service = 15;
  web_service = 16;
  checksum = 17;
  additional_data = 18;
  inode = 19;
}
