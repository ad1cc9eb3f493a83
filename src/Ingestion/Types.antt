-- ===== src/Ingestion/Types.antt =====
-- The messages that a client sends, and what the ingestor does with them (ingestion/*.go).
use cloudvelo.Prelude.{ℕ, String, List, Bool, Option, Result}
use cloudvelo.Prelude.Runs.{Run}
use cloudvelo.Clients.Record.{ClientRecord}

abbrev pub Bytes : Type 0
Bytes = List ℕ

pub record Query : Type 0 where
  pub name : String
  pub vql : String

pub record VqlResponse : Type 0 where
  pub query : Option Query
  pub jsonl_response : Bytes
  pub total_rows : ℕ
  pub query_start_row : ℕ

pub record LogMessage : Type 0 where
  pub id : ℕ
  pub artifact : String
  pub jsonl : Bytes
  pub number_of_rows : ℕ

-- `VeloStatus` of one query.
pub data QueryStatus : Type 0 where
  progress generic_error succeeded : QueryStatus

pub record FlowStats : Type 0 where
  pub total_uploaded_files : ℕ
  pub total_expected_uploaded_bytes : ℕ
  pub total_uploaded_bytes : ℕ
  pub total_collected_rows : ℕ
  pub total_logs : ℕ
  pub timestamp : ℕ
  pub query_status : List QueryStatus

pub record PathSpec : Type 0 where
  pub path : String
  pub accessor : String
  pub components : List String

pub record FileBuffer : Type 0 where
  pub pathspec : Option PathSpec
  pub size : ℕ
  pub stored_size : ℕ
  pub eof : Bool
  pub upload_number : ℕ
  pub is_sparse : Bool

-- `VeloMessage`, whose optional parts are nil pointers in Go. `csr` is the text of the request.
pub record VeloMessage : Type 0 where
  pub source : String
  pub session_id : String
  pub org_id : String
  pub authenticated : Bool
  pub urgent : Bool
  pub csr : Option String
  pub log_message : Option LogMessage
  pub vql_response : Option VqlResponse
  pub flow_stats : Option FlowStats
  pub foreman_checkin : Bool
  pub file_buffer : Option FileBuffer

-- `ArtifactCollectorContext`, as far as the ingestor fills it.
pub record CollectorContext : Type 0 where
  pub client_id : String
  pub session_id : String
  pub total_uploaded_files : ℕ
  pub total_expected_uploaded_bytes : ℕ
  pub total_uploaded_bytes : ℕ
  pub total_collected_rows : ℕ
  pub total_logs : ℕ
  pub active_time : ℕ
  pub query_stats : List QueryStatus

-- `HuntFlowEntry`
pub record HuntFlowEntry : Type 0 where
  pub hunt_id : String
  pub client_id : String
  pub flow_id : String
  pub timestamp : ℕ
  pub status : String
  pub doc_type : String

-- `ArtifactCollectorRecord`: its `Raw` is the context.
pub record CollectorRecord : Type 0 where
  pub client_id : String
  pub session_id : String
  pub raw : CollectorContext
  pub type_ : String
  pub timestamp : ℕ
  pub doc_type : String
  pub id : String

-- `VFSListRow`, a line of the listing's answer, and `DownloadRow`, a line of a download's.
pub record ListRow : Type 0 where
  pub accessor : String
  pub components : List String
  pub stats : Option (ℕ × ℕ)

pub record DownloadRow : Type 0 where
  pub accessor : String
  pub components : List String
  pub flow_id : String
  pub fs_components : List String
  pub size : ℕ
  pub stored_size : ℕ
  pub sha256 : String
  pub md5 : String
  pub in_flight : Bool
  pub mtime : ℕ

-- `VFSListResponse`
pub record ListResponse : Type 0 where
  pub timestamp : ℕ
  pub client_id : String
  pub flow_id : String
  pub total_rows : ℕ
  pub artifact : String
  pub start_idx : ℕ
  pub end_idx : ℕ

pub record VfsRecord : Type 0 where
  pub id : String
  pub client_id : String
  pub flow_id : String
  pub components : List String
  pub downloads : List DownloadRow
  pub json_data : Option ListResponse
  pub doc_type : String
  pub doc_id : String
  pub timestamp : ℕ

-- `ClientInfoUpdate`, as far as it is used.
pub record ClientInfoUpdate : Type 0 where
  pub hostname : String
  pub system : String
  pub install_time : ℕ

-- A document of the index.
pub data Document : Type 0 where
  hunt_flow : HuntFlowEntry → Document
  collection : CollectorRecord → Document
  client : ClientRecord → Document
  vfs : VfsRecord → Document

-- A row of the upload metadata.
pub record UploadRow : Type 0 where
  pub timestamp : ℕ
  pub started : String
  pub vfs_path : String
  pub components : List String
  pub type_ : String
  pub file_size : ℕ
  pub accessor : String
  pub client_components : List String
  pub uploaded_size : ℕ

-- What the ingestor does: the hunt counters, the writes to the index (at once or in bulk), a
-- certificate request, and the writes to result sets.
pub data Effect : Type 0 where
  enrol : String → Effect
  inc_scheduled inc_error inc_completed : String → Effect
  -- organisation, index and document id (none is a random one)
  set_index set_index_async : String → String → Option String → Document → Effect
  -- path, synchronous, start row, rows and their number
  append_rows : List String → Bool → ℕ → Bytes → ℕ → Effect
  -- path, rows and their number, into the set of the day
  append_timed : List String → Bytes → ℕ → Effect
  -- path, start row, rows
  append_uploads : List String → ℕ → List UploadRow → Effect

abbrev pub Handled : Type 0
Handled = Run Effect (Unit {0})

-- What the ingestor takes from outside: Velociraptor's library, the index, the clocks and the JSON
-- decoders. An error is its text; `none` is no error.
pub record Env : Type 0 where
  pub now : ℕ
  pub now_unix : ℕ
  pub now_time : String
  pub day_name : String
  -- the organisation's id in its configuration
  pub get_org_config : String → Result String
  pub get_client_info_manager : String → Option String
  pub set_index_call : String → String → Option String → Document → Option String
  pub is_document_missing : String → Bool
  pub open_writer : List String → Option String
  pub open_timed : List String → Option String
  pub add_certificate_request : String → Option String
  pub extract_hunt_id : String → Option String
  pub mentions_hunt : String → Bool
  pub deobfuscate : VqlResponse → VqlResponse
  pub deobfuscate_string : String → String
  pub deobfuscate_bytes : Bytes → Bytes
  pub append_client_id : Bytes → String → Bytes
  pub split_full_source_name : String → String × String
  pub client_id_from_source : String → String
  pub clients_root : List String
  pub flow_log : String → String → List String
  pub upload_metadata : String → String → List String
  pub event_log_path : String → String → String → List String
  pub event_path : String → String → String → List String
  pub scan : Bytes → List Bytes
  pub decode_list_row : Bytes → Result ListRow
  -- the flow is the default for a line that names none
  pub decode_download_row : String → Bytes → Result DownloadRow
  pub decode_client_info : Bytes → Result ClientInfoUpdate
  pub hash_name : String → String
  pub make_id : String → String
  pub join_components : List String → String → String
