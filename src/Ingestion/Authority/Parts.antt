-- ===== src/Ingestion/Authority/Parts.antt =====
-- The handlers that write rows and listings do what their message may do, and so does `process`.
use cloudvelo.Prelude.{
  option_elim, ℕ, String, List, [], ◌∷◌, Bool, ◌||◌, not, Option, none, some, ◌==◌, is_some, Result,
  ok, err, All, if_elim, ◌≡◌, refl, if_cases,
}
use cloudvelo.Prelude.Runs.{done, emit, after_call, effects}
use cloudvelo.Ingestion.Types.{
  Bytes, VqlResponse, LogMessage, VeloMessage, ListRow, DownloadRow, Document, set_index_async, Env,
}
use cloudvelo.Ingestion.Hunts.{maybe_handle_hunt_response}
use cloudvelo.Ingestion.Clients.{handle_client_info_updates}
use cloudvelo.Ingestion.Uploads.{handle_uploads}
use cloudvelo.Ingestion.Vfs.{
  list_line, list_lines, handle_system_vfs_list_directory, download_line, download_lines,
  handle_system_vfs_upload,
}
use cloudvelo.Ingestion.Collections.{
  is_empty, handle_special, store_rows, handle_responses, handle_logs, store_timed,
  handle_monitoring_logs, respond_monitoring, handle_monitoring_responses, query_name,
}
use cloudvelo.Ingestion.Process.{
  monitoring_flow, monitoring_response, process_monitoring, process_collection,
  process_authenticated, process,
}
use cloudvelo.Ingestion.Authority.{
  Allows-lift_with, client_of, sender, IsAllowed, Allows, Allows->>=, Allows-after_call,
}
use cloudvelo.Ingestion.Authority.Handlers.{
  Known, Keeps, handle_enrolment-Allows, handle_ping-Allows, handle_flow_stats-Allows,
  maybe_handle_hunt_response-Allows, handle_interrogation-Allows, update_clients-Allows,
}

module _ (env : Env) (org : String) where
  handle_client_info_updates-Allows :
      (m : VeloMessage) → Known env org m → Keeps env org m (handle_client_info_updates env m)
  unfolding handle_client_info_updates
  handle_client_info_updates-Allows m k =
      option_elim (Keeps env org m) m.vql_response tt (λ response e.
        Allows-lift_with env (sender m) (env.get_org_config m.org_id) _ (λ own found.
          Allows->>= env (sender m) (after_call (env.get_client_info_manager own)) _
            (Allows-after_call env (sender m) (env.get_client_info_manager own))
            (λ _. update_clients-Allows env own m (env.scan response.jsonl_response) (k.0, found))))

  list_line-Allows :
      (m : VeloMessage) (line : Result ListRow)
      → Known env org m
      → Keeps env org m (list_line env org m line)
  list_line-Allows m (err e) k = tt
  list_line-Allows m (ok row) (a, o) =
      option_elim (Keeps env org m) row.stats tt (λ stats e. ((a, o, refl), tt))

  list_lines-Allows :
      (m : VeloMessage) (lines : List Bytes)
      → Known env org m
      → Keeps env org m (list_lines env org m lines)
  unfolding list_lines
  list_lines-Allows m [] k = tt
  list_lines-Allows m (line ∷ lines) k =
      Allows->>= env (sender m) (list_line env org m (env.decode_list_row line)) _
        (list_line-Allows m (env.decode_list_row line) k) (λ _. list_lines-Allows m lines k)

  with_components :
      (m : VeloMessage) (components : List String) (doc : Document)
      → Known env org m
      → client_of doc ≡ m.source
      → Keeps env org m (elim components [
        | [] ↦ done [] tt
        | c ∷ cs ↦ emit (set_index_async org "transient" none doc)
      ])
  with_components m [] doc k own = tt
  with_components m (c ∷ cs) doc k own = ((k.0, k.1, own), tt)

  download_line-Allows :
      (m : VeloMessage) (line : Result DownloadRow)
      → Known env org m
      → Keeps env org m (download_line env org m line)
  download_line-Allows m (err e) k = tt
  download_line-Allows m (ok row) k = with_components m row.components _ k refl

  download_lines-Allows :
      (m : VeloMessage) (lines : List Bytes)
      → Known env org m
      → Keeps env org m (download_lines env org m lines)
  unfolding download_lines
  download_lines-Allows m [] k = tt
  download_lines-Allows m (line ∷ lines) k =
      Allows->>= env (sender m)
        (download_line env org m (env.decode_download_row m.session_id line)) _
        (download_line-Allows m (env.decode_download_row m.session_id line) k)
        (λ _. download_lines-Allows m lines k)

  handle_special-Allows :
      (m : VeloMessage) (name : String)
      → Known env org m
      → Keeps env org m (handle_special env org m name)
  unfolding handle_special handle_system_vfs_list_directory handle_system_vfs_upload
  handle_special-Allows m name k =
      if_elim (Keeps env org m) (name == "System.VFS.ListDirectory/Stats")
        (option_elim (Keeps env org m) m.vql_response tt
          (λ response e. list_lines-Allows m (env.scan response.jsonl_response) k))
        (if_elim (Keeps env org m)
          (name == "Generic.Client.Info/BasicInformation"
            || name == "Custom.Generic.Client.Info/BasicInformation")
          (handle_interrogation-Allows env org m k)
          (if_elim (Keeps env org m) (name == "System.VFS.DownloadFile")
            (option_elim (Keeps env org m) m.vql_response tt
              (λ response e. download_lines-Allows m (env.scan response.jsonl_response) k))
            tt))

  store_rows-Allows :
      (m : VeloMessage) (path : List String) (sync : Bool) (start : ℕ) (rows : Bytes) (total : ℕ)
      → Known env org m
      → Keeps env org m (store_rows env path sync start rows total)
  store_rows-Allows m path sync start rows total k =
      Allows->>= env (sender m) (after_call (env.open_writer path)) _
        (Allows-after_call env (sender m) (env.open_writer path)) (λ _. (k.0, tt))

  store_timed-Allows :
      (m : VeloMessage) (path : List String) (rows : Bytes) (total : ℕ)
      → Known env org m
      → Keeps env org m (store_timed env path rows total)
  store_timed-Allows m path rows total k =
      Allows->>= env (sender m) (after_call (env.open_timed path)) _
        (Allows-after_call env (sender m) (env.open_timed path)) (λ _. (k.0, tt))

  handle_responses-Allows :
      (m : VeloMessage) → Known env org m → Keeps env org m (handle_responses env org m)
  unfolding handle_responses
  handle_responses-Allows m k = option_elim (Keeps env org m) m.vql_response tt (λ response e.
      let clear = env.deobfuscate response in
      if_elim (Keeps env org m) (query_name response == "") tt (
        Allows->>= env (sender m)
          (handle_special env org (record m { vql_response = some clear }) (query_name clear)) _
          (handle_special-Allows (record m { vql_response = some clear }) (query_name clear) k)
          (λ _.
            store_rows-Allows m _ m.urgent clear.query_start_row clear.jsonl_response
              clear.total_rows k)))

  handle_uploads-Allows :
      (m : VeloMessage) → Known env org m → Keeps env org m (handle_uploads env m)
  unfolding handle_uploads
  handle_uploads-Allows m k = option_elim (Keeps env org m) m.file_buffer tt (λ response e.
      option_elim (Keeps env org m) response.pathspec tt (λ spec e'.
        if_elim (Keeps env org m) (not response.eof) tt (
          Allows->>= env (sender m)
            (after_call (env.open_writer (env.upload_metadata m.source m.session_id))) _
            (Allows-after_call env (sender m)
              (env.open_writer (env.upload_metadata m.source m.session_id)))
            (λ _. (k.0, tt)))))

  handle_logs-Allows :
      (m : VeloMessage) (log : LogMessage)
      → Known env org m
      → Keeps env org m (handle_logs env m log)
  unfolding handle_logs
  handle_logs-Allows m log k = if_elim (Keeps env org m) (is_empty log.jsonl) tt (
      store_rows-Allows m (env.flow_log m.source m.session_id) m.urgent log.id log.jsonl
        log.number_of_rows k)

  respond_monitoring-Allows :
      (m : VeloMessage) (response : VqlResponse)
      → Known env org m
      → Keeps env org m (respond_monitoring env m response)
  respond_monitoring-Allows m response k =
      if_elim (Keeps env org m) (query_name response == "Server.Internal.ClientInfo")
        (handle_client_info_updates-Allows (record m { vql_response = some response }) k)
        (store_timed-Allows m (env.event_path m.source m.session_id (query_name response))
          (env.append_client_id response.jsonl_response m.source) response.total_rows k)

  monitoring_response-Allows :
      (m : VeloMessage) (response : Option VqlResponse)
      → Known env org m
      → Keeps env org m (monitoring_response env m response)
  unfolding handle_monitoring_responses
  monitoring_response-Allows m none k = tt
  monitoring_response-Allows m (some response) k =
      if_elim (Keeps env org m) (query_name response == "") tt
        (respond_monitoring-Allows m (env.deobfuscate response) k)

  process_monitoring-Allows :
      (m : VeloMessage) → Known env org m → Keeps env org m (process_monitoring env m)
  unfolding process_monitoring handle_monitoring_logs
  process_monitoring-Allows m k =
      option_elim (Keeps env org m) m.log_message (monitoring_response-Allows m m.vql_response k)
        (λ log e.
          if_elim (Keeps env org m) (env.deobfuscate_string log.artifact == "Client.Info.Updates")
            tt
            (store_timed-Allows m
              (env.event_log_path m.source m.session_id (env.deobfuscate_string log.artifact))
              (env.deobfuscate_bytes log.jsonl) log.number_of_rows k))

  process_collection-Allows :
      (m : VeloMessage) → Known env org m → Keeps env org m (process_collection env org m)
  unfolding process_collection
  process_collection-Allows m k =
      option_elim (Keeps env org m) m.log_message
        (if_elim (Keeps env org m) (is_some m.vql_response) (handle_responses-Allows m k) (
          if_elim (Keeps env org m) (is_some m.flow_stats) (handle_flow_stats-Allows env org m k) (
            if_elim (Keeps env org m) m.foreman_checkin (handle_ping-Allows env org m k)
              (handle_uploads-Allows m k))))
        (λ log e. handle_logs-Allows m log k)

  process_authenticated-Allows :
      (m : VeloMessage) → Known env org m → Keeps env org m (process_authenticated env org m)
  unfolding process_authenticated
  process_authenticated-Allows m k =
      if_elim (Keeps env org m) (m.session_id == monitoring_flow) (process_monitoring-Allows m k) (
        Allows->>= env (sender m) (maybe_handle_hunt_response env org m) _
          (maybe_handle_hunt_response-Allows env org m k) (λ _. process_collection-Allows m k))

-- Whatever `process` does, and also where it then fails: it asks for a certificate only for a message
-- that is not authenticated, with the request of that message; it changes a counter, a document or a
-- result set only for an authenticated message, a counter only of the hunt that the message's flow
-- names, and a document only in the organisation that the message names and of the client that sent it.
pub process-Allows :
    (env : Env) (message : VeloMessage)
    → All (IsAllowed env (sender message)) (effects (process env message))
unfolding process
process-Allows env message =
    Allows-lift_with env (sender message) (env.get_org_config message.org_id) _ (λ org found.
      if_cases (Allows env (sender message)) message.authenticated
        (λ known. process_authenticated-Allows env org message (known, found))
        (handle_enrolment-Allows env message))
