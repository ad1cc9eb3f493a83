-- ===== src/Ingestion/Vfs.antt =====
-- ingestion/vfs.go: the answers of the virtual file system's artifacts.
use Prim.Native.String.{◌++◌ as str_append}
use cloudvelo.Prelude.{
  ℕ, String, List, [], ◌∷◌, ◌++◌, ◌+◌, ◌-◌, ◌%◌, ◌^◌, none, some, if◌then◌else◌, ◌==◌, Result, ok,
  err,
}
use cloudvelo.Prelude.Runs.{done, failed, ◌>>◌, emit}
use cloudvelo.Ingestion.Types.{
  Bytes, VeloMessage, ListRow, DownloadRow, VfsRecord, vfs, set_index_async, Handled, Env,
}
use cloudvelo.Ingestion.Uploads.{s3_components_for_client_upload}

abbrev accessor_or_auto : String → String
accessor_or_auto accessor = if accessor == "" then "auto" else accessor

-- `EndIdx - StartIdx` of two `uint64`.
abbrev pub sub64 : ℕ → ℕ → ℕ
sub64 a b = (a + 2 ^ 64 - b) % 2 ^ 64

abbrev pub listing_record : Env → VeloMessage → ListRow → ℕ × ℕ → VfsRecord
listing_record env message row (start_idx, end_idx) =
    let components = message.source ∷ accessor_or_auto row.accessor ∷ row.components in
    let id = env.make_id (env.join_components components "/") in
    record {
      id = id;
      client_id = message.source;
      flow_id = "";
      components = components;
      downloads = [];
      json_data = some (record {
        timestamp = env.now;
        client_id = message.source;
        flow_id = message.session_id;
        total_rows = sub64 end_idx start_idx;
        artifact = "System.VFS.ListDirectory/Listing";
        start_idx = start_idx;
        end_idx = end_idx;
      });
      doc_type = "vfs";
      doc_id = id;
      timestamp = env.now;
    }

-- A line that does not decode, or has no stats, is passed over.
abbrev pub list_line : Env → String → VeloMessage → Result ListRow → Handled
list_line env org message (err e) = done [] tt
list_line env org message (ok row) = elim row.stats [
  | none ↦ done [] tt
  | some stats ↦
      emit (set_index_async org "transient" none (vfs (listing_record env message row stats)))
]

-- The call that puts a document into the bulk indexer gives no error while the indexer runs.
unfoldable pub list_lines : Env → String → VeloMessage → List Bytes → Handled
list_lines env org message [] = done [] tt
list_lines env org message (line ∷ lines) = do
  list_line env org message (env.decode_list_row line)
  list_lines env org message lines

unfoldable pub handle_system_vfs_list_directory : Env → String → VeloMessage → Handled
handle_system_vfs_list_directory env org message = elim message.vql_response [
  | none ↦ done [] tt
  | some response ↦ list_lines env org message (env.scan response.jsonl_response)
]

-- All but the last.
abbrev pub init : List String → List String
init [] = []
init (x ∷ []) = []
init (x ∷ y ∷ rest) = x ∷ init (y ∷ rest)

abbrev pub download_record : Env → VeloMessage → DownloadRow → VfsRecord
download_record env message row =
    let accessor = accessor_or_auto row.accessor in
    let in_client = message.source ∷ accessor ∷ [] in
    let stored = record row {
      fs_components = s3_components_for_client_upload env.hash_name (record {
        client_id = env.client_id_from_source message.source;
        session_id = message.session_id;
        accessor = accessor;
        components = row.components;
        type_ = "";
      });
      mtime = env.now_unix;
    } in
    record {
      id = env.make_id (env.join_components (in_client ++ init row.components) "/");
      client_id = message.source;
      flow_id = message.session_id;
      components = [];
      downloads = stored ∷ [];
      json_data = none;
      doc_type = "vfs";
      doc_id =
          str_append "download_"
            (env.make_id (env.join_components (in_client ++ row.components) "/"));
      timestamp = env.now;
    }

abbrev pub download_line : Env → String → VeloMessage → Result DownloadRow → Handled
download_line env org message (err e) = failed [] e
download_line env org message (ok row) = elim row.components [
  | [] ↦ done [] tt
  | c ∷ cs ↦ emit (set_index_async org "transient" none (vfs (download_record env message row)))
]

unfoldable pub download_lines : Env → String → VeloMessage → List Bytes → Handled
download_lines env org message [] = done [] tt
download_lines env org message (line ∷ lines) = do
  download_line env org message (env.decode_download_row message.session_id line)
  download_lines env org message lines

unfoldable pub handle_system_vfs_upload : Env → String → VeloMessage → Handled
handle_system_vfs_upload env org message = elim message.vql_response [
  | none ↦ done [] tt
  | some response ↦ download_lines env org message (env.scan response.jsonl_response)
]
