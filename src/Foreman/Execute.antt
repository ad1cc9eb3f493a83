-- ===== src/Foreman/Execute.antt =====
-- foreman/plan.go: carrying the plan out. The launcher and the client manager are outside this
-- package; what the foreman asks of them, and what it writes to the index, is a list of effects.
pub mod Inverse
pub mod Launch
pub use cloudvelo.Prelude.Runs.{after_call}
use cloudvelo.Prelude.{
  ℕ, String, List, [], ◌∷◌, ◌++◌, map, Option, none, some, Bool, true, false, if◌then◌else◌, lookup,
  lookup_or, insert, Assoc, Result, ok, err,
}
use cloudvelo.Utils.{Utils}
use cloudvelo.Foreman.Types.{Hunt, Request, Message, Plan}
use cloudvelo.Foreman.Outcome.{
  Outcome, done, failed, ◌>>=◌, ◌>>◌, emit, Effect, schedule_many, write_collection, queue_message,
  queue_many, write_assigned, write_event_version,
}

-- The launcher service. `schedule_many` is there if it is a `MultiLauncher`. `write_record` answers
-- with the tasks that it hands to its callback, and an error if it fails.
pub record Launcher : Type 0 where
  pub schedule_many_call : Option (Request → List String → Option String)
  pub write_record : Request → List Message × Option String

-- The client information manager. `queue_many` is there if it is a `MultiClientMessageQueuer`.
pub record ClientManager : Type 0 where
  pub queue_many_call : Option (List String → Message → Option String)
  pub queue_call : String → Message → Option String

-- The services of an organisation; asking for one may fail.

pub record Services : Type 0 where
  pub launcher : Result Launcher
  pub client_manager : Result ClientManager

-- The callback of `WriteArtifactCollectionRecord`: an error is passed over.
unfoldable pub queue_tasks : Result ClientManager → String → List Message → Outcome (Unit {0})
queue_tasks manager client_id [] = done [] tt
queue_tasks (err e) client_id (task ∷ tasks) = queue_tasks (err e) client_id tasks
queue_tasks (ok m) client_id (task ∷ tasks) = do
  emit (queue_message client_id task)
  queue_tasks (ok m) client_id tasks

-- "Otherwise just schedule clients one at the time".
unfoldable pub schedule_each : Services → Launcher → Request → List String → Outcome (Unit {0})
schedule_each s l request [] = done [] tt
schedule_each s l request (c ∷ cs) =
    let copy : Request = record request { client_id = c } in
    do
      emit (write_collection copy)
      queue_tasks s.client_manager c (l.write_record copy).0
      after_call (l.write_record copy).1
      schedule_each s l request cs

-- "If the launcher support bulk scheduling do this".
abbrev pub schedule_by :
    Option (Request → List String → Option String)
    → Services
    → Launcher
    → Request
    → List String
    → Outcome (Unit {0})
schedule_by none s l request clients = schedule_each s l request clients
schedule_by (some call) s l request clients = do
  emit (schedule_many request clients)
  after_call (call request clients)

unfoldable pub schedule_with : Services → Launcher → Request → List String → Outcome (Unit {0})
schedule_with s l request clients = schedule_by l.schedule_many_call s l request clients

unfoldable pub schedule_request_on_clients : Services → Request → List String → Outcome (Unit {0})
schedule_request_on_clients s request clients = elim s.launcher [
  | err e ↦ failed [] e
  | ok l ↦ schedule_with s l request clients
]

unfoldable pub send_each : ClientManager → Message → List String → Outcome (Unit {0})
send_each m message [] = done [] tt
send_each m message (c ∷ cs) = do
  emit (queue_message c message)
  after_call (m.queue_call c message)
  send_each m message cs

unfoldable pub send_with : ClientManager → Message → List String → Outcome (Unit {0})
send_with m message clients = elim m.queue_many_call [
  | some call ↦ do emit (queue_many clients message); after_call (call clients message)
  | none ↦ send_each m message clients
]

unfoldable pub send_message_to_clients : Services → Message → List String → Outcome (Unit {0})
send_message_to_clients s message clients = elim s.client_manager [
  | err e ↦ failed [] e
  | ok m ↦ send_with m message clients
]

-- "Update all the client records to the latest event table version".
unfoldable pub write_versions : ℕ → List String → Outcome (Unit {0})
write_versions now [] = done [] tt
write_versions now (c ∷ cs) = do emit (write_event_version c now); write_versions now cs

-- The loop of `ExecuteClientMonitoringUpdate`, over the entries in the order of the list.
unfoldable pub update_tables :
    Services → ℕ → Assoc Message → Assoc (List String) → Outcome (Unit {0})
update_tables s now tables [] = done [] tt
update_tables s now tables ((key, clients) ∷ rest) = elim (lookup key tables) [
  | none ↦ update_tables s now tables rest
  | some message ↦ do
    write_versions now clients
    send_message_to_clients s message clients
    update_tables s now tables rest
]

unfoldable pub execute_client_monitoring_update : Services → ℕ → Plan → Outcome (Unit {0})
execute_client_monitoring_update s now plan =
    update_tables s now plan.monitoring_tables plan.monitoring_tables_to_clients

-- The inverse mapping: the inner loop over the hunts of one client, and the outer loop.
unfoldable pub invert_hunts : Utils → String → List Hunt → Assoc (List String) → Assoc (List String)
invert_hunts u c [] m = m
invert_hunts u c (h ∷ hs) m =
    let clients = lookup_or [] h.hunt_id m in
    invert_hunts u c hs (if u.in_string clients c then m else insert h.hunt_id (c ∷ clients) m)

unfoldable pub invert : Utils → Assoc (List Hunt) → Assoc (List String) → Assoc (List String)
invert u [] m = m
invert u ((c, hs) ∷ rest) m = invert u rest (invert_hunts u c hs m)

unfoldable pub index_hunts : List Hunt → Assoc Hunt → Assoc Hunt
index_hunts [] m = m
index_hunts (h ∷ hs) m = index_hunts hs (insert h.hunt_id h m)

unfoldable pub index_all : Assoc (List Hunt) → Assoc Hunt → Assoc Hunt
index_all [] m = m
index_all ((c, hs) ∷ rest) m = index_all rest (index_hunts hs m)

-- "Write a new AssignedHunts record to indicate this hunt ran on this client".
unfoldable pub write_assignments : String → List String → Outcome (Unit {0})
write_assignments hunt_id [] = done [] tt
write_assignments hunt_id (c ∷ cs) = do
  emit (write_assigned c hunt_id)
  write_assignments hunt_id cs

abbrev pub start_request_of : Option Hunt → Option (Hunt × Request)
start_request_of none = none
start_request_of (some h) = elim h.start_request [ none ↦ none | some r ↦ some (h, r) ]

-- The loop over the hunts of the plan. An entry with no clients, no hunt or no request is passed over.
unfoldable pub launch_hunts : Services → Assoc Hunt → Assoc (List String) → Outcome (Unit {0})
launch_hunts s hunts [] = done [] tt
launch_hunts s hunts ((hunt_id, []) ∷ rest) = launch_hunts s hunts rest
launch_hunts s hunts ((hunt_id, c ∷ cs) ∷ rest) = elim (start_request_of (lookup hunt_id hunts)) [
  | none ↦ launch_hunts s hunts rest
  | some (h, request) ↦ do
    schedule_request_on_clients s request (c ∷ cs)
    write_assignments h.hunt_id (c ∷ cs)
    launch_hunts s hunts rest
]

unfoldable pub execute_hunt_update : Utils → Services → Plan → Outcome (Unit {0})
execute_hunt_update u s plan =
    launch_hunts s (index_all plan.client_id_to_hunts plan.hunts_by_hunt_id)
      (invert u plan.client_id_to_hunts [])
