-- ===== src/Ingestion/Hunts.antt =====
-- ingestion/hunts.go, flow_stats.go: what a message changes of a hunt and of a flow.
use Prim.Native.String.{◌++◌ as str_append}
use cloudvelo.Prelude.{
  String, List, [], ◌∷◌, Bool, true, false, ◌||◌, not, Option, none, some, if◌then◌else◌, ◌==◌,
}
use cloudvelo.Prelude.Runs.{done, ◌>>◌, emit, after_call}
use cloudvelo.Ingestion.Types.{
  VeloMessage, VqlResponse, QueryStatus, progress, generic_error, succeeded, FlowStats,
  CollectorContext, CollectorRecord, Document, hunt_flow, collection, inc_scheduled, inc_error,
  inc_completed, set_index, Handled, Env,
}

-- `SetElasticIndex`: a call that waits for its answer.
abbrev pub set_index_now : Env → String → String → Option String → Document → Handled
set_index_now env org index id doc = do
  emit (set_index org index id doc)
  after_call (env.set_index_call org index id doc)

abbrev pub starts_hunt : Env → Option VqlResponse → Bool
starts_hunt env none = false
starts_hunt env (some response) = elim response.query [
  | none ↦ false
  | some query ↦ env.mentions_hunt query.vql
]

abbrev pub hunt_entry : Env → String → String → String → String → Document
hunt_entry env hunt_id client_id flow_id status = hunt_flow (record {
  hunt_id = hunt_id;
  client_id = client_id;
  flow_id = flow_id;
  timestamp = env.now_unix;
  status = status;
  doc_type = "hunt_flow";
})

-- Hunt responses have special session ids.
unfoldable pub maybe_handle_hunt_response : Env → String → VeloMessage → Handled
maybe_handle_hunt_response env org message = elim (env.extract_hunt_id message.session_id) [
  | none ↦ done [] tt
  | some hunt_id ↦
      if starts_hunt env message.vql_response
      then (do
        emit (inc_scheduled hunt_id)
        set_index_now env org "transient" none
            (hunt_entry env hunt_id message.source message.session_id "started"))
      else done [] tt
]

-- The loop over the statuses; `has_failed` is its variable.
unfoldable pub flow_outcome : Bool → List QueryStatus → Bool × Bool
flow_outcome has_failed [] = (has_failed, true)
flow_outcome has_failed (progress ∷ rest) = (false, false)
flow_outcome has_failed (generic_error ∷ rest) = flow_outcome true rest
flow_outcome has_failed (succeeded ∷ rest) = flow_outcome has_failed rest

-- Whether the flow failed, and whether it is completed.
unfoldable pub calc_flow_outcome : CollectorContext → Bool × Bool
calc_flow_outcome context = flow_outcome false context.query_stats

unfoldable pub maybe_handle_hunt_flow_stats :
    Env → String → CollectorContext → Bool × Bool → Handled
maybe_handle_hunt_flow_stats env org context (has_failed, completed) =
    if not completed then done [] tt else elim (env.extract_hunt_id context.session_id) [
      | none ↦ done [] tt
      | some hunt_id ↦ do
        emit (if has_failed then inc_error hunt_id else inc_completed hunt_id)
        set_index_now env org "transient" none
            (hunt_entry env hunt_id context.client_id context.session_id "updated")
    ]

-- schema/api/collections.go
unfoldable pub get_document_id_for_collection : String → String → String → String
get_document_id_for_collection session_id client_id doc_type =
    let flow = str_append client_id (str_append "_" session_id) in
    if doc_type == "" then flow else str_append flow (str_append "_" doc_type)

unfoldable pub collector_record_from_proto : Env → CollectorContext → String → CollectorRecord
collector_record_from_proto env context id = record {
  client_id = context.client_id;
  session_id = context.session_id;
  raw = context;
  type_ = "";
  timestamp = env.now;
  doc_type = "collection";
  id = id;
}

abbrev pub context_of : VeloMessage → FlowStats → CollectorContext
context_of message msg = record {
  client_id = message.source;
  session_id = message.session_id;
  total_uploaded_files = msg.total_uploaded_files;
  total_expected_uploaded_bytes = msg.total_expected_uploaded_bytes;
  total_uploaded_bytes = msg.total_uploaded_bytes;
  total_collected_rows = msg.total_collected_rows;
  total_logs = msg.total_logs;
  active_time = msg.timestamp;
  query_stats = msg.query_status;
}

-- Progress is written under one id, the final message under another.
unfoldable pub stats_id : CollectorContext → Bool → String
stats_id context completed =
    get_document_id_for_collection context.client_id context.session_id
      (if completed then "completed" else "stats")

abbrev pub stats_record : Env → CollectorContext → CollectorRecord
stats_record env context =
    record (collector_record_from_proto env context
      (stats_id context (calc_flow_outcome context).1)) { type_ = "stats" }

unfoldable pub handle_flow_stats : Env → String → VeloMessage → Handled
handle_flow_stats env org message = elim message.flow_stats [
  | none ↦ done [] tt
  | some msg ↦
      if message.source == "" || message.session_id == ""
      then done [] tt
      else let context = context_of message msg in
        do
          set_index_now env org "transient" none (collection (stats_record env context))
          maybe_handle_hunt_flow_stats env org context (calc_flow_outcome context)
]
