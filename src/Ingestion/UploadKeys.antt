-- ===== src/Ingestion/UploadKeys.antt =====
-- The uploader on the client, the server that keys its parts, and the ingestor that records where they
-- are.
use cloudvelo.Prelude.{String, List, ◌∷◌, true, some, ◌≡◌, All}
use cloudvelo.Uploads.Uploader.{
  VeloCloudUploader, UploadRequest, upload_request, report_of, get_components,
}
use cloudvelo.Foreman.Labels.{join}
use cloudvelo.Ingestion.Types.{VeloMessage, FileBuffer, PathSpec, UploadRow, Env}
use cloudvelo.Ingestion.Uploads.{s3_key_for_client_upload}

-- What arrives of a report.
abbrev pub received : cloudvelo.Uploads.Uploader.FileBuffer → FileBuffer
received report = record {
  pathspec =
      some
        (record { path = report.path; accessor = report.accessor; components = report.components });
  size = report.size;
  stored_size = report.stored_size;
  eof = report.eof;
  upload_number = report.upload_number;
  is_sparse = report.is_sparse;
}

-- The message is the uploader's last report.
pub record IsLastReport (env : Env) (uploader : VeloCloudUploader) (message : VeloMessage)
    : Type 0 where
  pub client : env.client_id_from_source message.source ≡ uploader.client_id
  pub session : message.session_id ≡ uploader.session_id
  pub buffer : message.file_buffer ≡ some (received (report_of true 0 uploader))

abbrev pub Keyed : String → String → List UploadRow → Type 0
Keyed org key rows = All (λ row. join "/" ("orgs" ∷ org ∷ row.components) ≡ key) rows

-- Where the parts of this uploader are stored.
abbrev pub key_of : Env → (String → String) → String → VeloCloudUploader → String
key_of env normalized org_id uploader =
    s3_key_for_client_upload env.hash_name normalized org_id (upload_request uploader)

abbrev spec_of : VeloCloudUploader → PathSpec
spec_of uploader = record {
  path = (uploader.path).text;
  accessor = uploader.accessor;
  components = get_components uploader.path;
}
