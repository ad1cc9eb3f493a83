-- ===== src/Ingestion/Process.antt =====
-- ingestion/ingestor.go: `Process` gives each message to the handlers of its parts.
use cloudvelo.Prelude.{String, [], Option, none, some, if◌then◌else◌, ◌==◌, is_some}
use cloudvelo.Prelude.Runs.{done, ◌>>=◌, ◌>>◌}
use cloudvelo.Ingestion.Types.{VeloMessage, VqlResponse, Handled, Env}
use cloudvelo.Ingestion.Hunts.{maybe_handle_hunt_response, handle_flow_stats}
use cloudvelo.Ingestion.Clients.{lift, handle_enrolment, handle_ping}
use cloudvelo.Ingestion.Uploads.{handle_uploads}
use cloudvelo.Ingestion.Collections.{
  handle_responses, handle_logs, handle_monitoring_logs, handle_monitoring_responses,
}

-- The well known flow of the event queries.
abbrev pub monitoring_flow : String
monitoring_flow = "F.Monitoring"

abbrev pub monitoring_response : Env → VeloMessage → Option VqlResponse → Handled
monitoring_response env message none = done [] tt
monitoring_response env message (some response) = handle_monitoring_responses env message response

-- Event data go to timed result sets.
unfoldable pub process_monitoring : Env → VeloMessage → Handled
process_monitoring env message = elim message.log_message [
  | some log ↦ handle_monitoring_logs env message log
  | none ↦ monitoring_response env message message.vql_response
]

-- The first part that a message has is handled, and no other.
unfoldable pub process_collection : Env → String → VeloMessage → Handled
process_collection env org message = elim message.log_message [
  | some log ↦ handle_logs env message log
  | none ↦
      if is_some message.vql_response
      then handle_responses env org message
      else if is_some message.flow_stats
      then handle_flow_stats env org message
      else if message.foreman_checkin
      then handle_ping env org message
      else handle_uploads env message
]

unfoldable pub process_authenticated : Env → String → VeloMessage → Handled
process_authenticated env org message =
    if message.session_id == monitoring_flow
    then process_monitoring env message
    else (do maybe_handle_hunt_response env org message; process_collection env org message)

-- "Only accept unauthenticated enrolment requests. Everything below is authenticated."
unfoldable pub process : Env → VeloMessage → Handled
process env message = do
  org ← lift (env.get_org_config message.org_id)
  if message.authenticated
      then process_authenticated env org message
      else handle_enrolment env message
