-- ===== src/Foreman/Labels.antt =====
-- foreman/event_monitoring.go: the event queries of a client's labels, and the key under which
-- clients share one compiled message.
pub mod Keys
pub mod Sharing
pub mod Owed
use Prim.Native.String.{◌++◌ as str_append}
use cloudvelo.Prelude.{
  ℕ, String, List, [], ◌∷◌, ◌++◌, map, Option, none, some, filter, concat, if◌then◌else◌, nat_eq,
}
use cloudvelo.Utils.{Utils}
use cloudvelo.Foreman.Types.{Event, LabelEvents, EventTable, Message}

-- strings.Join(parts, sep)
unfoldable pub join : String → List String → String
join sep [] = ""
join sep (x ∷ []) = x
join sep (x ∷ y ∷ rest) = str_append x (str_append sep (join sep (y ∷ rest)))

-- The loop of `labelsKey`: the labels of the tables that the client has, in the tables' order.
unfoldable pub matched_labels : Utils → List String → List LabelEvents → List String
matched_labels u labels [] = []
matched_labels u labels (table ∷ rest) =
    let later = matched_labels u labels rest in
    if u.in_string labels table.label then table.label ∷ later else later

unfoldable pub labels_key : Utils → List String → EventTable → String
labels_key u labels state = join "|" (matched_labels u labels state.label_events)

-- The loop over `state.LabelEvents`.
unfoldable pub label_queries : Utils → List String → List LabelEvents → List Event
label_queries u labels [] = []
label_queries u labels (table ∷ rest) =
    let later = label_queries u labels rest in
    if u.in_string labels table.label then table.events ++ later else later

-- The last loop: a wait of zero gets the configured wait, and 120 where that is zero too.
unfoldable pub with_limits : ℕ → Event → Event
with_limits event_max_wait event =
    let configured = if nat_eq event.max_wait 0 then event_max_wait else event.max_wait in
    record event { max_wait = if nat_eq configured 0 then 120 else configured; timeout = 99999999 }

abbrev pub or_no_events : Option (List Event) → List Event
or_no_events none = []
or_no_events (some events) = events

-- `now` is the clock, `event_max_wait` the configuration's `Defaults.EventMaxWait`.
unfoldable pub get_client_update_event_table_message :
    Utils → ℕ → ℕ → EventTable → List String → Message
get_client_update_event_table_message u now event_max_wait state labels = record {
  session_id = "F.Monitoring";
  version = now;
  events =
      map (with_limits event_max_wait)
        (or_no_events state.artifacts ++ label_queries u labels state.label_events);
}
