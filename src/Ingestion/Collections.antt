-- ===== src/Ingestion/Collections.antt =====
-- ingestion/collections.go, logs.go and monitoring_logs.go: the rows and the logs that queries send.
use cloudvelo.Prelude.{
  ℕ, String, List, [], ◌∷◌, ◌++◌, Bool, true, false, ◌||◌, none, some, if◌then◌else◌, ◌==◌,
}
use cloudvelo.Prelude.Runs.{done, failed, ◌>>◌, emit, after_call, effects}
use cloudvelo.Ingestion.Types.{
  Bytes, VeloMessage, VqlResponse, LogMessage, append_rows, append_timed, Handled, Env,
}
use cloudvelo.Ingestion.Clients.{handle_interrogation, handle_client_info_updates}
use cloudvelo.Ingestion.Vfs.{handle_system_vfs_list_directory, handle_system_vfs_upload}

-- The query's name; a missing query counts as one without a name.
abbrev pub query_name : VqlResponse → String
query_name response = elim response.query [ none ↦ "" | some query ↦ query.name ]

abbrev pub source_of : String → List String
source_of source = if source == "" then [] else source ∷ []

-- `getFSPathSpec`
unfoldable pub get_fs_path_spec : Env → VeloMessage → String → List String
get_fs_path_spec env message full_artifact_name =
    let (base, source) = env.split_full_source_name full_artifact_name in
    if message.session_id == "F.Monitoring"
    then env.clients_root
      ++ (message.source ∷ "monitoring" ∷ base ∷ (source_of source ++ env.day_name ∷ []))
    else env.clients_root
      ++ (message.source ∷ "artifacts" ∷ base ∷ message.session_id ∷ source_of source)

-- `_ = handler(...)`: what the handler did stays, its error is passed over.
abbrev pub ignored : Handled → Handled
ignored run = done (effects run) tt

-- The artifacts that the ingestor handles itself, beside storing their rows.
unfoldable pub handle_special : Env → String → VeloMessage → String → Handled
handle_special env org message name =
    if name == "System.VFS.ListDirectory/Stats"
    then ignored (handle_system_vfs_list_directory env org message)
    else if name == "Generic.Client.Info/BasicInformation"
        || name == "Custom.Generic.Client.Info/BasicInformation"
    then ignored (handle_interrogation env org message)
    else if name == "System.VFS.DownloadFile"
    then ignored (handle_system_vfs_upload env org message)
    else done [] tt

-- A new writer, its start row, one packet, and its close.
abbrev pub store_rows : Env → List String → Bool → ℕ → Bytes → ℕ → Handled
store_rows env path sync start_row rows total_rows = do
  after_call (env.open_writer path)
  emit (append_rows path sync start_row rows total_rows)

abbrev pub respond : Env → String → VeloMessage → VqlResponse → Handled
respond env org message response = do
  handle_special env org (record message { vql_response = some response }) (query_name response)
  store_rows env (get_fs_path_spec env message (query_name response)) message.urgent
      response.query_start_row response.jsonl_response response.total_rows

unfoldable pub handle_responses : Env → String → VeloMessage → Handled
handle_responses env org message = elim message.vql_response [
  | none ↦ done [] tt
  | some response ↦
      if query_name response == ""
      then done [] tt
      else respond env org message (env.deobfuscate response)
]

abbrev pub is_empty : Bytes → Bool
is_empty [] = true
is_empty (b ∷ bytes) = false

unfoldable pub handle_logs : Env → VeloMessage → LogMessage → Handled
handle_logs env message msg =
    if is_empty msg.jsonl
    then failed [] "Invalid log messages response"
    else store_rows env (env.flow_log message.source message.session_id) message.urgent msg.id
        msg.jsonl msg.number_of_rows

abbrev pub store_timed : Env → List String → Bytes → ℕ → Handled
store_timed env path rows total_rows = do
  after_call (env.open_timed path)
  emit (append_timed path rows total_rows)

unfoldable pub handle_monitoring_logs : Env → VeloMessage → LogMessage → Handled
handle_monitoring_logs env message row =
    let artifact_name = env.deobfuscate_string row.artifact in
    if artifact_name == "Client.Info.Updates"
    then done [] tt
    else store_timed env (env.event_log_path message.source message.session_id artifact_name)
        (env.deobfuscate_bytes row.jsonl) row.number_of_rows

abbrev pub respond_monitoring : Env → VeloMessage → VqlResponse → Handled
respond_monitoring env message response =
    if query_name response == "Server.Internal.ClientInfo"
    then handle_client_info_updates env (record message { vql_response = some response })
    else store_timed env (env.event_path message.source message.session_id (query_name response))
        (env.append_client_id response.jsonl_response message.source) response.total_rows

unfoldable pub handle_monitoring_responses : Env → VeloMessage → VqlResponse → Handled
handle_monitoring_responses env message response =
    if query_name response == ""
    then done [] tt
    else respond_monitoring env message (env.deobfuscate response)
