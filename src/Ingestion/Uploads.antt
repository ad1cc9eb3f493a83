-- ===== src/Ingestion/Uploads.antt =====
-- filestore/name_mapping.go and ingestion/uploads.go: where the parts of a client's file are stored,
-- and the record of it.
use Prim.Native.String.{◌++◌ as str_append}
use cloudvelo.Prelude.{String, List, [], ◌∷◌, not, none, some, if◌then◌else◌, ◌==◌}
use cloudvelo.Prelude.Runs.{done, ◌>>◌, emit, after_call}
use cloudvelo.Uploads.Uploader.{UploadRequest}
use cloudvelo.Foreman.Labels.{join}
use cloudvelo.Ingestion.Types.{
  VeloMessage, FileBuffer, PathSpec, UploadRow, append_uploads, Handled, Env,
}

-- The file is named by the hash of its path on the client: `hash_name` is the hexadecimal SHA-256.
unfoldable pub s3_components_for_client_upload : (String → String) → UploadRequest → List String
s3_components_for_client_upload hash_name request =
    let hashed = hash_name (join "\0" request.components) in
    "clients"
    ∷ request.client_id
    ∷ "collections"
    ∷ request.session_id
    ∷ "uploads"
    ∷ request.accessor
    ∷ (if request.type_ == "idx" then str_append hashed ".idx" else hashed)
    ∷ []

-- `NormalizedOrgId` of Velociraptor's library is the second argument.
unfoldable pub s3_key_for_client_upload :
    (String → String) → (String → String) → String → UploadRequest → String
s3_key_for_client_upload hash_name normalized org_id request =
    join "/" ("orgs" ∷ normalized org_id ∷ s3_components_for_client_upload hash_name request)

abbrev pub upload_request_of : Env → VeloMessage → PathSpec → UploadRequest
upload_request_of env message spec = record {
  client_id = env.client_id_from_source message.source;
  session_id = message.session_id;
  accessor = spec.accessor;
  components = spec.components;
  type_ = "";
}

abbrev pub upload_row : Env → VeloMessage → FileBuffer → PathSpec → UploadRow
upload_row env message response spec = record {
  timestamp = env.now_unix;
  started = env.now_time;
  vfs_path = spec.path;
  components = s3_components_for_client_upload env.hash_name (upload_request_of env message spec);
  type_ = "";
  file_size = response.size;
  accessor = spec.accessor;
  client_components = spec.components;
  uploaded_size = response.stored_size;
}

-- The row of the file, and of its index where it is sparse.
abbrev pub upload_rows : Env → VeloMessage → FileBuffer → PathSpec → List UploadRow
upload_rows env message response spec =
    let row = upload_row env message response spec in
    row
    ∷ (if response.is_sparse
        then record row { vfs_path = str_append spec.path ".idx"; type_ = "idx" } ∷ []
        else [])

abbrev pub store_upload : Env → VeloMessage → FileBuffer → PathSpec → Handled
store_upload env message response spec =
    if not response.eof
    then done [] tt
    else let path = env.upload_metadata message.source message.session_id in
      do
        after_call (env.open_writer path)
        emit (append_uploads path response.upload_number (upload_rows env message response spec))

-- "We only store the EOF messages".
unfoldable pub handle_uploads : Env → VeloMessage → Handled
handle_uploads env message = elim message.file_buffer [
  | none ↦ done [] tt
  | some response ↦ elim response.pathspec [
    | none ↦ done [] tt
    | some spec ↦ store_upload env message response spec
  ]
]
