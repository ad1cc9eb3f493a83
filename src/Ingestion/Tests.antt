-- ===== src/Ingestion/Tests.antt =====
-- Messages of a client that takes part in a hunt.
use cloudvelo.Prelude.{[], ◌∷◌, true, false, none, some, ◌≡◌, refl, In, All, length}
use cloudvelo.Prelude.Runs.{effects}
use cloudvelo.Uploads.Uploader.{VeloCloudUploader, report_of}
use cloudvelo.Ingestion.Types.{
  VeloMessage, FlowStats, succeeded, generic_error, progress, inc_error, inc_completed,
}
use cloudvelo.Ingestion.TestEnv.{env}
use cloudvelo.Ingestion.Hunts.{maybe_handle_hunt_response, handle_flow_stats}
use cloudvelo.Ingestion.Process.{process, process_authenticated, process_collection}
use cloudvelo.Ingestion.Clients.{handle_interrogation}
use cloudvelo.Ingestion.Collections.{handle_responses, handle_special}
use cloudvelo.Ingestion.Authority.{IsAllowed, sender}
use cloudvelo.Ingestion.Authority.Parts.{process-Allows}
use cloudvelo.Ingestion.Flows.{stats_write, hunt_write, handle_flow_stats-counts}
use cloudvelo.Ingestion.UploadKeys.{received}

abbrev stats : FlowStats
stats = record {
  total_uploaded_files = 0;
  total_expected_uploaded_bytes = 0;
  total_uploaded_bytes = 0;
  total_collected_rows = 3;
  total_logs = 1;
  timestamp = 1;
  query_status = succeeded ∷ generic_error ∷ succeeded ∷ [];
}

abbrev message : VeloMessage
message = record {
  source = "C.1";
  session_id = "F.1.H";
  org_id = "O.1";
  authenticated = true;
  urgent = false;
  csr = none;
  log_message = none;
  vql_response = none;
  flow_stats = some stats;
  foreman_checkin = false;
  file_buffer = none;
}

-- The first answer of a hunt's flow: a counter, the row of the hunt's flow, and the packet of rows.
abbrev answer : VeloMessage
answer = record message {
  flow_stats = none;
  vql_response = some (record {
    query = some (record { name = "Generic.Client.Info/BasicInformation"; vql = "SELECT H.1" });
    jsonl_response = 123 ∷ 125 ∷ 10 ∷ [];
    total_rows = 1;
    query_start_row = 0;
  });
}

answer_is_handled : length (effects (process env answer)) ≡ 4
unfolding process process_authenticated process_collection maybe_handle_hunt_response
    handle_responses handle_special handle_interrogation
answer_is_handled = refl

process-Allows_example : All (IsAllowed env (sender answer)) (effects (process env answer))
process-Allows_example = process-Allows env answer

handle_flow_stats-counts_example :
    (In progress stats.query_status
      → effects (handle_flow_stats env "O.1" message)
        ≡ stats_write env "O.1" message stats "stats" ∷ [])
    × (¬ In progress stats.query_status
        → In generic_error stats.query_status
        → effects (handle_flow_stats env "O.1" message)
          ≡ stats_write env "O.1" message stats "completed"
            ∷ inc_error "H.1"
            ∷ hunt_write env "O.1" message "H.1"
            ∷ [])
    × (¬ In progress stats.query_status
        → ¬ In generic_error stats.query_status
        → effects (handle_flow_stats env "O.1" message)
          ≡ stats_write env "O.1" message stats "completed"
            ∷ inc_completed "H.1"
            ∷ hunt_write env "O.1" message "H.1"
            ∷ [])
handle_flow_stats-counts_example =
    handle_flow_stats-counts env "O.1" message stats "H.1" refl refl refl refl
      (λ index id doc. refl)

abbrev uploader : VeloCloudUploader
uploader = record {
  key = "k";
  upload_id = "u";
  upload_number = 4;
  next_upload_id = 5;
  committed = true;
  hashed = [];
  size = 3;
  offset = 3;
  part = 2;
  parts = [];
  session_id = "F.1.H";
  path = record { text = "/a/b"; delegate_path = ""; components = "a" ∷ "b" ∷ [] };
  client_id = "C.1";
  accessor = "file";
  mtime = none;
  atime = none;
  ctime = none;
  btime = none;
  uploader_type = "";
  response = none;
  closed = true;
  index = none;
  sent = [];
  reports = [];
}

abbrev last_report : VeloMessage
last_report = record message {
  flow_stats = none;
  file_buffer = some (received (report_of true 0 uploader));
}
