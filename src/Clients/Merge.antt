-- ===== src/Clients/Merge.antt =====
-- schema/api/clients.go: the documents of several clients, merged into one record for each client.
pub mod Exact
pub mod Fields
use cloudvelo.Prelude.{
  ℕ, String, List, [], ◌∷◌, ◌++◌, Option, none, some, if◌then◌else◌, ltb, length, ◌==◌, Result, ok,
  err, map, Assoc, lookup, insert,
}
use cloudvelo.Clients.Record.{ClientRecord}

abbrev newer_text : String → String → String
newer_text old new = if new == "" then old else new

abbrev newer_number : ℕ → ℕ → ℕ
newer_number old new = if ltb 0 new then new else old

-- `first`, as the call leaves it.
unfoldable pub merge_client_records : ClientRecord → ClientRecord → ClientRecord
merge_client_records first second = record first {
  hostname = newer_text first.hostname second.hostname;
  release = newer_text first.release second.release;
  architecture = newer_text first.architecture second.architecture;
  build_time = newer_text first.build_time second.build_time;
  system = newer_text first.system second.system;
  first_seen_at = newer_number first.first_seen_at second.first_seen_at;
  last_interrogate = newer_text first.last_interrogate second.last_interrogate;
  ping = newer_number first.ping second.ping;
  labels = first.labels ++ second.labels;
  lower_labels =
      if ltb 0 (length second.labels)
      then first.lower_labels ++ second.lower_labels
      else first.lower_labels;
  mac_addresses = first.mac_addresses ++ second.mac_addresses;
  last_hunt_timestamp = newer_number first.last_hunt_timestamp second.last_hunt_timestamp;
  last_event_table_version =
      newer_number first.last_event_table_version second.last_event_table_version;
  assigned_hunts = first.assigned_hunts ++ second.assigned_hunts;
  last_label_timestamp = newer_number first.last_label_timestamp second.last_label_timestamp;
}

abbrev pub merged_with : Option ClientRecord → ClientRecord → ClientRecord
merged_with none hit = hit
merged_with (some first) hit = merge_client_records first hit

-- One round of the loop over the hits: the ordered dictionary keeps the place of a client.
unfoldable pub add_hit : ClientRecord → Assoc ClientRecord → Assoc ClientRecord
add_hit hit found =
    if hit.client_id == ""
    then found
    else insert hit.client_id (merged_with (lookup hit.client_id found) hit) found

-- A hit that does not decode is `none`.
unfoldable pub collect : List (Option ClientRecord) → Assoc ClientRecord → Assoc ClientRecord
collect [] found = found
collect (none ∷ hits) found = collect hits found
collect (some hit ∷ hits) found = collect hits (add_hit hit found)

-- `GetMultipleClients`, given what the index answers for the documents of the clients.
unfoldable pub get_multiple_clients :
    Result (List (Option ClientRecord)) → Result (List ClientRecord)
get_multiple_clients (err e) = err e
get_multiple_clients (ok hits) =
    ok (map (λ (entry : String × ClientRecord). entry.1) (collect hits []))
