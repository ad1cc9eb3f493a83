-- ===== src/Foreman/Plan.antt =====
-- foreman/foreman.go and foreman/plan.go: how one client and one hunt, and one client's event
-- table, enter the plan.
pub mod Eligible
pub mod Hunts
pub mod Monitoring
use cloudvelo.Prelude.{
  ℕ, String, List, [], ◌∷◌, ◌++◌, Option, none, some, Bool, true, false, not, ◌&&◌, ◌||◌,
  if◌then◌else◌, ◌==◌, ltb, leb, lookup, lookup_or, insert, is_some,
}
use cloudvelo.Utils.{Utils}
use cloudvelo.Clients.Record.{ClientRecord}
use cloudvelo.Foreman.Types.{Hunt, Condition, Os, all, windows, linux, osx, other, Plan}
use cloudvelo.Foreman.Labels.{labels_key, get_client_update_event_table_message}

unfoldable pub hunts_contain : List Hunt → String → Bool
hunts_contain [] hunt_id = false
hunts_contain (h ∷ rest) hunt_id = if h.hunt_id == hunt_id then true else hunts_contain rest hunt_id

-- True if any of the labels matches.
unfoldable pub client_has_labels : Utils → ClientRecord → List String → Bool
client_has_labels u client [] = false
client_has_labels u client (label ∷ rest) =
    if u.in_string client.lower_labels (u.to_lower label)
    then true
    else client_has_labels u client rest

unfoldable pub assign_client_to_hunt : ClientRecord → Hunt → Plan → Plan
assign_client_to_hunt client hunt plan = record plan {
  client_id_to_hunts =
      if hunts_contain planned hunt.hunt_id
      then plan.client_id_to_hunts
      else insert client.client_id (planned ++ hunt ∷ []) plan.client_id_to_hunts;
  client_id_to_client_records = insert client.client_id client plan.client_id_to_client_records;
}
  where
    planned : List Hunt
    planned = lookup_or [] client.client_id plan.client_id_to_hunts

-- "Client has none of the specified labels".
unfoldable pub misses_labels : Utils → ClientRecord → Option (List String) → Bool
misses_labels u client none = false
misses_labels u client (some []) = false
misses_labels u client (some (l ∷ ls)) = not (client_has_labels u client (l ∷ ls))

-- "Client has an exclude label".
unfoldable pub has_excluded : Utils → ClientRecord → Option (List String) → Bool
has_excluded u client none = false
has_excluded u client (some []) = false
has_excluded u client (some (l ∷ ls)) = client_has_labels u client (l ∷ ls)

abbrev pub os_name : Os → String
os_name windows = "windows"
os_name linux = "linux"
os_name osx = "darwin"
os_name _ = ""

-- "Handle OS target": the hunt is for another system.
unfoldable pub other_system : ClientRecord → Option Os → Bool
other_system client none = false
other_system client (some all) = false
other_system client (some os) = not (os_name os == "") && not (client.system == os_name os)

unfoldable pub plan_hunt_for_client : Utils → ClientRecord → Hunt → Plan → Plan
unfolding misses_labels has_excluded other_system
plan_hunt_for_client u client hunt plan =
    if u.in_string client.assigned_hunts hunt.hunt_id then plan else elim hunt.condition [
      | none ↦ assign_client_to_hunt client hunt plan
      | some c ↦
          if misses_labels u client c.labels
          then plan
          else if has_excluded u client c.excluded_labels
          then plan
          else if other_system client c.os
          then plan
          else assign_client_to_hunt client hunt plan
    ]

-- The client needs a new event table: its labels changed after the last run, or the table did.
-- `last_run_time` and the two stamps are nanoseconds.
unfoldable pub needs_update : ℕ → ClientRecord → Plan → Bool
needs_update last_run_time client plan =
    leb last_run_time client.last_label_timestamp
    || ltb client.last_event_table_version plan.current_monitoring_state.version

unfoldable pub plan_monitoring_for_client : Utils → ℕ → ℕ → ℕ → ClientRecord → Plan → Plan
plan_monitoring_for_client u now event_max_wait last_run_time client plan =
    if not (needs_update last_run_time client plan) then plan else record plan {
      monitoring_tables =
          if is_some (lookup key plan.monitoring_tables)
          then plan.monitoring_tables
          else insert key
              (get_client_update_event_table_message u now event_max_wait
                plan.current_monitoring_state client.labels)
              plan.monitoring_tables;
      monitoring_tables_to_clients =
          if u.in_string clients client.client_id
          then plan.monitoring_tables_to_clients
          else insert key (client.client_id ∷ clients) plan.monitoring_tables_to_clients;
      client_id_to_client_records =
          insert client.client_id
            (record client { last_event_table_version = plan.current_monitoring_state.version })
            plan.client_id_to_client_records;
    }
  where
    key : String
    key = labels_key u client.labels plan.current_monitoring_state

    clients : List String
    clients = lookup_or [] key plan.monitoring_tables_to_clients
