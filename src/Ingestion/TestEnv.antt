-- ===== src/Ingestion/TestEnv.antt =====
-- What the ingestor takes from outside, for tests: an index and a file store that take everything.
use cloudvelo.Prelude.{[], ◌∷◌, false, none, some, if◌then◌else◌, ◌==◌, ok, err}
use cloudvelo.Ingestion.Types.{Env}

abbrev pub env : Env
env = record {
  now = 1000000000;
  now_unix = 1;
  now_time = "1970-01-01T00:00:01Z";
  day_name = "1970-01-01";
  get_org_config = λ id. ok id;
  get_client_info_manager = λ org. none;
  set_index_call = λ org index id doc. none;
  is_document_missing = λ e. false;
  open_writer = λ path. none;
  open_timed = λ path. none;
  add_certificate_request = λ pem. none;
  extract_hunt_id = λ id. if id == "F.1.H" then some "H.1" else none;
  mentions_hunt = λ vql. vql == "SELECT H.1";
  deobfuscate = λ response. response;
  deobfuscate_string = λ text. text;
  deobfuscate_bytes = λ bytes. bytes;
  append_client_id = λ bytes id. bytes;
  split_full_source_name = λ name. (name, "");
  client_id_from_source = λ source. source;
  clients_root = "clients" ∷ [];
  flow_log = λ client id. "clients" ∷ client ∷ id ∷ "logs" ∷ [];
  upload_metadata = λ client id. "clients" ∷ client ∷ id ∷ "uploads" ∷ [];
  event_log_path = λ client id name. "clients" ∷ client ∷ "event_logs" ∷ name ∷ [];
  event_path = λ client id name. "clients" ∷ client ∷ "events" ∷ name ∷ [];
  scan = λ bytes. bytes ∷ [];
  decode_list_row = λ line. err "no listing";
  decode_download_row = λ id line. err "no download";
  decode_client_info = λ line. err "no information";
  hash_name = λ text. "hash";
  make_id = λ text. text;
  join_components = λ parts sep. "path";
}
