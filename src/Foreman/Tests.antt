-- ===== src/Foreman/Tests.antt =====
-- A small fleet: two clients, two hunts and an event table with one label.
use Prim.Native.Char.{code}
use cloudvelo.Foreman.Labels.Keys.{IsPlain}
use cloudvelo.Prelude.{
  ap, ℕ, String, List, [], ◌∷◌, none, some, true, ◌≡◌, refl, ◌↔◌, ◌⊎◌, inl, In, arith, map, lookup,
  lookup_or, insert, Result, ok, err, eq_iff,
}
use cloudvelo.Utils.{utils, search_left, lower_label}
use cloudvelo.Clients.Record.{ClientRecord, zero_record}
use cloudvelo.Foreman.Types.{Hunt, linux, Request, Event, EventTable, Message, Plan, new_plan}
use cloudvelo.Foreman.Labels.{
  labels_key, join, matched_labels, get_client_update_event_table_message,
}
use cloudvelo.Foreman.Labels.Owed.{IsOwed}
use cloudvelo.Foreman.Labels.Sharing.{labels_key-events}
use cloudvelo.Foreman.Plan.{
  plan_hunt_for_client, plan_monitoring_for_client, needs_update, assign_client_to_hunt,
  hunts_contain, client_has_labels,
}
use cloudvelo.Foreman.Plan.Eligible.{Planned, IsEligible}
use cloudvelo.Foreman.Plan.Hunts.{plan_hunt_for_client_exact}
use cloudvelo.Foreman.Plan.Monitoring.{new_plan-IsConsistent, plan_monitoring_for_client_delivers}
use cloudvelo.Foreman.Update.{Index, Pass, Hits, get_minimal_client_info, hunts_of_hits, is_started}
use cloudvelo.Foreman.Update.Clients.{IsMerged, labels_of_hits, get_minimal_client_info_exact}
use cloudvelo.Foreman.Outcome.{done, write_assigned, schedule_many}
use cloudvelo.Foreman.Execute.{
  Services, Launcher, launch_hunts, schedule_request_on_clients, schedule_with, write_assignments,
}
use cloudvelo.Foreman.Execute.Launch.{launch_hunts_complete}
use cloudvelo.Foreman.Run.{
  Org, run_once, run_orgs, run_for_org, tick, sweeps, start, slice_contains_key,
}
use cloudvelo.Foreman.Run.Orgs.{IsFailed, org_failure_starves}

abbrev events_of : String → List Event
events_of q = record { query = q; max_wait = 0; timeout = 0 } ∷ []

abbrev table : EventTable
table = record {
  version = 7;
  artifacts = some (events_of "base");
  label_events = record { label = "lab"; events = events_of "extra" } ∷ [];
}

abbrev request : Request
request = record { client_id = ""; artifacts = "Generic.Client.Info" ∷ [] }

abbrev old_hunt : Hunt
old_hunt = record {
  hunt_id = "H.1";
  start_time = 0;
  expires = 100;
  start_request = some request;
  condition = some (record { labels = some ("Lab" ∷ []); excluded_labels = none; os = some linux });
}

abbrev new_hunt : Hunt
new_hunt = record old_hunt { hunt_id = "H.2"; start_time = 2; condition = none }

abbrev client : ClientRecord
client = record zero_record {
  client_id = "C.1";
  system = "linux";
  labels = "lab" ∷ [];
  lower_labels = "lab" ∷ [];
  assigned_hunts = "H.0" ∷ [];
}

abbrev index : Index
index = record {
  client_documents = λ c. ok (some (record client { client_id = c }) ∷ none ∷ []);
  membership_documents = λ c hs. ok (some client ∷ []);
  recent_documents = λ t. ok (some client ∷ []);
}

abbrev pass : Pass
pass = record { now = 5000; last_run_time = 1000; event_max_wait = 0 }

abbrev plan : Plan
plan = new_plan table

abbrev assigned : Plan
assigned = plan_hunt_for_client utils client old_hunt plan

-- The hunt is in the plan, by its label and its system.
old_hunt_planned : lookup "C.1" assigned.client_id_to_hunts ≡ some (old_hunt ∷ [])
unfolding plan_hunt_for_client assign_client_to_hunt client_has_labels hunts_contain lookup_or
    lookup insert search_left lower_label
old_hunt_planned = refl

plan_hunt_for_client_exact_example : Planned assigned "C.1" "H.1" ↔ (
    Planned plan "C.1" "H.1"
    ⊎ (◌≡◌ {A = String} "C.1" "C.1"
        × ◌≡◌ {A = String} "H.1" "H.1"
        × IsEligible utils client old_hunt))
plan_hunt_for_client_exact_example =
    plan_hunt_for_client_exact utils client old_hunt plan "C.1" "H.1"

monitored : needs_update 1000 client plan ≡ true
unfolding needs_update
monitored = refl

IsPlain-label : IsPlain "lab"
IsPlain-label = (
  λ e. ground (arith, eq_iff "lab" ""),
  (
    λ e. omega (arith, ap code e),
    (λ e. omega (arith, ap code e), (λ e. omega (arith, ap code e), tt)),
  ),
)

plan_monitoring_for_client_delivers_example :
    let p = plan_monitoring_for_client utils 5000 0 1000 client plan in
    (key : String) × (m : Message) × (cs : List String) × (lookup key p.monitoring_tables ≡ some m)
    × (lookup key p.monitoring_tables_to_clients ≡ some cs)
    × In "C.1" cs
    × IsOwed 0 table ("lab" ∷ []) m.events
plan_monitoring_for_client_delivers_example =
    plan_monitoring_for_client_delivers utils 5000 0 1000 table client plan
      (new_plan-IsConsistent utils 0 table) (IsPlain-label, tt) monitored

labels_key-events_example :
    (get_client_update_event_table_message utils 1 0 table ("lab" ∷ "x" ∷ [])).events
    ≡ (get_client_update_event_table_message utils 2 0 table ("lab" ∷ [])).events
unfolding labels_key join matched_labels search_left
labels_key-events_example =
    labels_key-events utils 1 2 0 table ("lab" ∷ "x" ∷ []) ("lab" ∷ []) (IsPlain-label, tt) refl

merged : (r : ClientRecord) × (get_minimal_client_info utils index "C.1" ≡ ok r)
unfolding get_minimal_client_info
merged = (_, refl)

abbrev hits : Hits
hits = some client ∷ none ∷ []

get_minimal_client_info_exact_example :
    IsMerged utils merged.0
    × ((l : String) → In l (merged.0).labels ↔ In l (labels_of_hits hits))
    × ((h : String) → In h (merged.0).assigned_hunts ↔ In h (hunts_of_hits hits))
get_minimal_client_info_exact_example =
    get_minimal_client_info_exact utils index "C.1" {r = merged.0} {hits = hits} refl merged.1

abbrev launcher : Launcher
launcher = record { schedule_many_call = some (λ r cs. none); write_record = λ r. ([], none) }

abbrev services : Services
services = record { launcher = ok launcher; client_manager = err "no manager" }

abbrev entries : List (String × List String)
entries = ("H.1", "C.1" ∷ []) ∷ []

launched :
    launch_hunts services (("H.1", old_hunt) ∷ []) entries
    ≡ done (schedule_many request ("C.1" ∷ []) ∷ write_assigned "C.1" "H.1" ∷ []) tt
unfolding launch_hunts schedule_request_on_clients schedule_with write_assignments lookup
launched = refl

launch_hunts_complete_example :
    In
      (write_assigned "C.1" "H.1")
      (schedule_many request ("C.1" ∷ []) ∷ write_assigned "C.1" "H.1" ∷ [])
unfolding lookup
launch_hunts_complete_example =
    launch_hunts_complete services (("H.1", old_hunt) ∷ []) entries "H.1" ("C.1" ∷ []) old_hunt
      request "C.1" launched (inl refl) refl (inl refl)

abbrev two_rounds : List (ℕ × ℕ)
two_rounds = (1500, 1510) ∷ (5000, 5010) ∷ []

-- A hunt that starts between the two readings of the first round is new in both sweeps.
overlapping_sweeps :
    map
      (λ sweep. is_started sweep.0 sweep.1 new_hunt)
      (sweeps (start 1000) ((2000, 2500) ∷ (5000, 5000) ∷ []))
    ≡ true ∷ true ∷ []
unfolding sweeps tick start is_started
overlapping_sweeps = refl

abbrev no_org : String → Result Org
no_org o = err "no such org"

missing_org : IsFailed (run_for_org utils pass (err "no such org"))
unfolding run_for_org
missing_org = tt

org_failure_starves_example :
    (run_once utils pass no_org [] ("O.1" ∷ "O.2" ∷ [])
      ≡ run_once utils pass no_org [] ("O.1" ∷ []))
    × IsFailed (run_once utils pass no_org [] ("O.1" ∷ "O.2" ∷ []))
    × (run_once utils pass no_org [] ("O.1" ∷ "O.2" ∷ [])
        ≡ run_orgs utils pass no_org [] ("O.1" ∷ "O.2" ∷ []))
unfolding slice_contains_key
org_failure_starves_example =
    org_failure_starves utils pass no_org [] [] "O.1" ("O.2" ∷ []) [] refl missing_org
