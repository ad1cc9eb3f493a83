-- ===== src/Clients/Record.antt =====
-- schema/api/clients.go: the record that the index stores. A client's record is spread over
-- several documents of this type, each with some of the fields; Go's zero value is a missing field.
use cloudvelo.Prelude.{ℕ, String, List, []}

pub record ClientRecord : Type 0 where
  pub client_id : String
  pub hostname : String
  pub release : String
  pub architecture : String
  pub client_version : String
  pub build_time : String
  pub system : String
  pub first_seen_at : ℕ
  pub last_interrogate : String
  pub ping : ℕ
  pub mac_addresses : List String
  pub assigned_hunts : List String
  pub last_hunt_timestamp : ℕ
  pub last_event_table_version : ℕ
  pub type_ : String
  pub last_label_timestamp : ℕ
  pub labels : List String
  pub lower_labels : List String
  pub doc_type : String
  pub timestamp : ℕ

-- `&ClientRecord{}`.
abbrev pub zero_record : ClientRecord
zero_record = record {
  client_id = "";
  hostname = "";
  release = "";
  architecture = "";
  client_version = "";
  build_time = "";
  system = "";
  first_seen_at = 0;
  last_interrogate = "";
  ping = 0;
  mac_addresses = [];
  assigned_hunts = [];
  last_hunt_timestamp = 0;
  last_event_table_version = 0;
  type_ = "";
  last_label_timestamp = 0;
  labels = [];
  lower_labels = [];
  doc_type = "";
  timestamp = 0;
}
