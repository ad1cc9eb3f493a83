-- ===== src/Foreman/Types.antt =====
-- The data that the foreman works on: hunts with their conditions, the table of event queries,
-- messages to clients, and the plan (foreman/plan.go).
use cloudvelo.Prelude.{ℕ, String, List, [], Option, Assoc}
use cloudvelo.Clients.Record.{ClientRecord}

-- HuntOsCondition: an operating system, or a number of the enumeration that the code has no case for.
pub data Os : Type 0 where
  all windows linux osx : Os
  other : ℕ → Os

-- HuntCondition. `none` is a nil message.
pub record Condition : Type 0 where
  pub labels : Option (List String)
  pub excluded_labels : Option (List String)
  pub os : Option Os

-- ArtifactCollectorArgs: the part that the foreman sets, and the rest.
pub record Request : Type 0 where
  pub client_id : String
  pub artifacts : List String

pub record Hunt : Type 0 where
  pub hunt_id : String
  pub start_time : ℕ  -- microseconds
  pub expires : ℕ  -- microseconds
  pub start_request : Option Request
  pub condition : Option Condition

-- VQLCollectorArgs: an event query.
pub record Event : Type 0 where
  pub query : String
  pub max_wait : ℕ
  pub timeout : ℕ

-- A group of event queries for the clients that have a label.
pub record LabelEvents : Type 0 where
  pub label : String
  pub events : List Event

-- ClientEventTable. `none` is a nil `Artifacts`.
pub record EventTable : Type 0 where
  pub version : ℕ
  pub artifacts : Option (List Event)
  pub label_events : List LabelEvents

-- VeloMessage, with the table that it carries to the client.
pub record Message : Type 0 where
  pub session_id : String
  pub version : ℕ
  pub events : List Event

pub record Plan : Type 0 where
  pub hunts_to_clients : Assoc (List String)
  pub hunts_by_hunt_id : Assoc Hunt
  pub client_id_to_hunts : Assoc (List Hunt)
  pub client_id_to_client_records : Assoc ClientRecord
  pub monitoring_tables : Assoc Message
  pub monitoring_tables_to_clients : Assoc (List String)
  pub current_monitoring_state : EventTable

-- `NewPlan`, once the monitoring service has given its table.
abbrev pub new_plan : EventTable → Plan
new_plan state = record {
  hunts_to_clients = [];
  hunts_by_hunt_id = [];
  client_id_to_hunts = [];
  client_id_to_client_records = [];
  monitoring_tables = [];
  monitoring_tables_to_clients = [];
  current_monitoring_state = state;
}
