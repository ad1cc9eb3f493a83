-- ===== src/Ingestion/Clients.antt =====
-- ingestion/enrolment.go, registration.go and ping.go: what a message changes of a client's records.
use Prim.Native.String.{◌++◌ as str_append}
use cloudvelo.Prelude.{String, List, [], ◌∷◌, Option, none, some, if◌then◌else◌, Result, ok, err}
use cloudvelo.Prelude.Runs.{Run, done, failed, ◌>>=◌, ◌>>◌, emit, after_call}
use cloudvelo.Clients.Record.{ClientRecord, zero_record}
use cloudvelo.Ingestion.Types.{
  Bytes, VeloMessage, ClientInfoUpdate, client, Effect, enrol, set_index, set_index_async, Handled,
  Env,
}
use cloudvelo.Ingestion.Hunts.{set_index_now}

abbrev pub lift : {A : Type 0} → Result A → Run Effect A
lift (ok a) = done [] a
lift (err e) = failed [] e

unfoldable pub handle_enrolment : Env → VeloMessage → Handled
handle_enrolment env message = elim message.csr [
  | none ↦ done [] tt
  | some pem ↦ do emit (enrol pem); after_call (env.add_certificate_request pem)
]

unfoldable pub handle_interrogation : Env → String → VeloMessage → Handled
handle_interrogation env org message = emit (
    set_index_async org "persisted" (some (str_append message.source "_interrogate")) (
      client (record zero_record {
        client_id = message.source;
        type_ = "interrogation";
        last_interrogate = message.session_id;
        doc_type = "clients";
        timestamp = env.now_unix;
      })))

abbrev pub ping_record : Env → VeloMessage → ClientRecord
ping_record env message = record zero_record {
  client_id = message.source;
  type_ = "ping";
  ping = env.now;
  doc_type = "clients";
  timestamp = env.now_unix;
}

abbrev pub ping_answered : Env → Option String → Handled
ping_answered env none = done [] tt
ping_answered env (some e) = if env.is_document_missing e then done [] tt else failed [] e

unfoldable pub handle_ping : Env → String → VeloMessage → Handled
handle_ping env org message =
    let id = some (str_append message.source "_ping") in
    let doc = client (ping_record env message) in
    do
      emit (set_index org "persisted" id doc)
      ping_answered env (env.set_index_call org "persisted" id doc)

-- services/client_info/client_info.go: `Set`.
unfoldable pub set_client_info : Env → String → String → ClientInfoUpdate → Handled
set_client_info env org client_id row = set_index_now env org "persisted" (some client_id) (
    client (record zero_record {
      client_id = client_id;
      hostname = row.hostname;
      system = row.system;
      first_seen_at = row.install_time;
      type_ = "main";
      doc_type = "clients";
      timestamp = env.now_unix;
    }))

-- The loop over the lines: it ends with the first that does not decode or is not stored.
unfoldable pub update_clients : Env → String → String → List Bytes → Handled
update_clients env org client_id [] = done [] tt
update_clients env org client_id (line ∷ lines) = do
  row ← lift (env.decode_client_info line)
  set_client_info env org client_id row
  update_clients env org client_id lines

unfoldable pub handle_client_info_updates : Env → VeloMessage → Handled
handle_client_info_updates env message = elim message.vql_response [
  | none ↦ done [] tt
  | some response ↦ do
    org ← lift (env.get_org_config message.org_id)
    after_call (env.get_client_info_manager org)
    update_clients env org message.source (env.scan response.jsonl_response)
]
