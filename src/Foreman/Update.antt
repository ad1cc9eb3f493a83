-- ===== src/Foreman/Update.antt =====
-- foreman/foreman.go: reading the clients from the index, splitting the hunts by start time, and
-- filling the plan. The index is outside the repository: `Index` gives the answers to the three
-- queries of the pass, which the pass reads but does not change.
pub mod Exact
pub mod Clients
use cloudvelo.Prelude.{
  ℕ, String, List, [], ◌∷◌, ◌++◌, map, Option, none, some, Bool, true, false, not, ◌&&◌, ◌*◌, ◌-◌,
  if◌then◌else◌, ◌==◌, ltb, leb, nat_eq, Result, ok, err, ◌>>=◌, length,
}
use cloudvelo.Utils.{Utils}
use cloudvelo.Clients.Record.{ClientRecord, zero_record}
use cloudvelo.Foreman.Types.{Hunt, EventTable, Plan, new_plan}
use cloudvelo.Foreman.Plan.{plan_hunt_for_client, plan_monitoring_for_client}

-- The hits of a query, `none` for one that does not decode.
abbrev pub Hits : Type 0
Hits = List (Option ClientRecord)

pub record Index : Type 0 where
  -- getMinimalClientInfoQuery, of a client
  pub client_documents : String → Result Hits
  -- clientMembershipQuery, of a client and the hunts that are asked for
  pub membership_documents : String → List String → Result Hits
  -- getRecentClientsQuery, of the time after which the client was seen
  pub recent_documents : ℕ → Result Hits

-- The two loops of `getMinimalClientInfo` that add what is not there yet.
unfoldable pub add_labels : Utils → List String → ClientRecord → ClientRecord
add_labels u [] r = r
add_labels u (l ∷ ls) r = add_labels u ls (
    if u.in_string r.labels l then r else record r {
      labels = r.labels ++ l ∷ [];
      lower_labels = r.lower_labels ++ u.to_lower l ∷ [];
    })

unfoldable pub add_hunts : Utils → List String → ClientRecord → ClientRecord
add_hunts u [] r = r
add_hunts u (h ∷ hs) r = add_hunts u hs (
    if u.in_string r.assigned_hunts h
    then r
    else record r { assigned_hunts = r.assigned_hunts ++ h ∷ [] })

-- The two stamps of a hit, where it has them.
abbrev pub stamped : ClientRecord → ClientRecord → ClientRecord
stamped r h = record r {
  last_label_timestamp =
      if ltb 0 h.last_label_timestamp then h.last_label_timestamp else r.last_label_timestamp;
  last_event_table_version =
      if ltb 0 h.last_event_table_version
      then h.last_event_table_version
      else r.last_event_table_version;
}

-- One round of the loop over the hits.
unfoldable pub merge_hit : Utils → ClientRecord → ClientRecord → ClientRecord
merge_hit u r h =
    let merged = add_hunts u h.assigned_hunts (add_labels u h.labels (stamped r h)) in
    if h.system == "" then merged else record merged { system = h.system }

unfoldable pub merge_hits : Utils → ClientRecord → Hits → ClientRecord
merge_hits u r [] = r
merge_hits u r (none ∷ hits) = merge_hits u r hits
merge_hits u r (some h ∷ hits) = merge_hits u (merge_hit u r h) hits

unfoldable pub get_minimal_client_info : Utils → Index → String → Result ClientRecord
get_minimal_client_info u index client_id = do
  hits ← index.client_documents client_id
  ok (merge_hits u (record zero_record { client_id = client_id; doc_type = "clients" }) hits)

-- The hunts of the decoded records. Go collects them in a `map[string]bool`, of which only the
-- key set is read.
unfoldable pub hunts_of_hits : Hits → List String
hunts_of_hits [] = []
hunts_of_hits (none ∷ hits) = hunts_of_hits hits
hunts_of_hits (some r ∷ hits) = r.assigned_hunts ++ hunts_of_hits hits

unfoldable pub get_client_hunt_membership : Index → String → List String → Result (List String)
get_client_hunt_membership index client_id hunts = do
  hits ← index.membership_documents client_id hunts
  ok (hunts_of_hits hits)

unfoldable pub ids_of_hits : Hits → List String
ids_of_hits [] = []
ids_of_hits (none ∷ hits) = ids_of_hits hits
ids_of_hits (some r ∷ hits) =
    let rest = ids_of_hits hits in if r.client_id == "" then rest else r.client_id ∷ rest

-- A failing query is logged and gives no clients.
unfoldable pub get_clients_seen_after : Index → ℕ → List String
get_clients_seen_after index early = elim (index.recent_documents early) [
  | ok hits ↦ ids_of_hits hits
  | err e ↦ []
]

-- A key of the set that `getClientHuntMembership` returns.
unfoldable pub seen_hunt : List String → String → Bool
seen_hunt [] k = false
seen_hunt (h ∷ hs) k = if h == k then true else seen_hunt hs k

-- The loop over the running hunts for one client.
unfoldable pub plan_hunts : Utils → ClientRecord → List String → List Hunt → Plan → Plan
plan_hunts u client seen [] plan = plan
plan_hunts u client seen (h ∷ hs) plan =
    plan_hunts u client seen hs
      (if seen_hunt seen h.hunt_id then plan else plan_hunt_for_client u client h plan)

-- The hunt started within the sweep. `start_time` is in microseconds, the others in nanoseconds.
unfoldable pub is_started : ℕ → ℕ → Hunt → Bool
is_started early now h = leb early (h.start_time * 1000) && ltb (h.start_time * 1000) now

unfoldable pub started_hunts : ℕ → ℕ → List Hunt → List Hunt
started_hunts early now [] = []
started_hunts early now (h ∷ hs) =
    let rest = started_hunts early now hs in if is_started early now h then h ∷ rest else rest

unfoldable pub running_hunts : ℕ → ℕ → List Hunt → List Hunt
running_hunts early now [] = []
running_hunts early now (h ∷ hs) =
    let rest = running_hunts early now hs in if is_started early now h then rest else h ∷ rest

abbrev pub hunt_ids : List Hunt → List String
hunt_ids = map (λ (h : Hunt). h.hunt_id)

-- What the pass is run with: the clocks, the configuration and the hunts that keep running.
pub record Pass : Type 0 where
  pub now : ℕ
  pub last_run_time : ℕ
  pub event_max_wait : ℕ

-- The hunts of one client: no query is made where no hunt is running.
unfoldable pub plan_running : Utils → Index → List Hunt → String → ClientRecord → Plan → Result Plan
plan_running u index [] c client plan = ok plan
plan_running u index (h ∷ hs) c client plan = do
  seen ← get_client_hunt_membership index c (hunt_ids (h ∷ hs))
  ok (plan_hunts u client seen (h ∷ hs) plan)

-- The loop over the clients that were seen.
unfoldable pub plan_clients : Utils → Index → Pass → List Hunt → List String → Plan → Result Plan
plan_clients u index pass running [] plan = ok plan
plan_clients u index pass running (c ∷ cs) plan = do
  client ← get_minimal_client_info u index c
  with_hunts ← plan_running u index running c client plan
  plan_clients u index pass running cs (
      plan_monitoring_for_client u pass.now pass.event_max_wait pass.last_run_time client
        with_hunts)

-- `CalculateUpdate`, without the backlog that it starts in the background (`backlog_plan`). A time
-- before 1970 counts as 0 there, and is no number here.
unfoldable pub calculate_update : Utils → Index → Pass → List Hunt → Plan → Result Plan
calculate_update u index pass hunts plan =
    plan_clients u index pass (running_hunts pass.last_run_time pass.now hunts)
      (get_clients_seen_after index pass.last_run_time) plan

-- The goroutine of `scheduleClientsWithBacklog`: a failing membership query abandons the plan
-- (`none`), a failing client query passes over that hunt.
unfoldable pub backlog_hunts : Utils → Index → String → List String → List Hunt → Plan → Plan
backlog_hunts u index c seen [] plan = plan
backlog_hunts u index c seen (h ∷ hs) plan = backlog_hunts u index c seen hs (
    if seen_hunt seen h.hunt_id then plan else elim (get_minimal_client_info u index c) [
      | ok client ↦ plan_hunt_for_client u client h plan
      | err e ↦ plan
    ])

unfoldable pub backlog_clients : Utils → Index → List Hunt → List String → Plan → Option Plan
backlog_clients u index hunts [] plan = some plan
backlog_clients u index hunts (c ∷ cs) plan =
    elim (get_client_hunt_membership index c (hunt_ids hunts)) [
      | ok seen ↦ backlog_clients u index hunts cs (backlog_hunts u index c seen hunts plan)
      | err e ↦ none
    ]

-- 3 hours in nanoseconds.
abbrev pub maximum_ping_backlog : ℕ
maximum_ping_backlog = 10800000000000

-- `n - m` stops at 0, as the code's test on a negative time does.
unfoldable pub backlog_plan : Utils → Index → ℕ → EventTable → List Hunt → Option Plan
backlog_plan u index now state [] = none
backlog_plan u index now state (h ∷ hs) =
    backlog_clients u index (h ∷ hs) (get_clients_seen_after index (now - maximum_ping_backlog))
      (new_plan state)
