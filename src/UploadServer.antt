-- ===== src/UploadServer.antt =====
-- server/upload.go: the handlers behind the upload of a file. They keep no state of their own: what a
-- request does is the calls of S3 that it makes. S3 may answer each call as it likes, also by what
-- it was asked before.
mod Retries
mod Guard
mod Served
mod EndToEnd
mod Tests
use cloudvelo.Prelude.{
  ℕ, zero, suc, ℤ, pos, negsuc, String, List, [], ◌∷◌, ◌++◌, Option, none, some, Bool, true, false,
  ◌||◌, if◌then◌else◌, ◌==◌, length, drop, Result, ok, err, ◌>>=◌,
}
use cloudvelo.Uploads.Api.{Bytes}
use cloudvelo.Uploads.Uploader.{UploadRequest, UploadKey, UploadCompletionRequest}
use cloudvelo.Ingestion.Uploads.{s3_key_for_client_upload}

-- `UploadPutRequest` as the server decodes it, where the part may be negative.
pub record PartRequest : Type 0 where
  pub key : String
  pub upload_id : String
  pub part : ℤ

-- `s3.UploadPartInput`: `body` is what its reader has left.
pub record UploadPartInput : Type 0 where
  pub bucket : String
  pub key : String
  pub upload_id : String
  pub part_number : ℤ
  pub body : Bytes
  pub content_length : ℕ

-- A call of S3: its bucket first.
pub data S3Call : Type 0 where
  create_multipart_upload : String → String → S3Call
  upload_part : UploadPartInput → S3Call
  complete_multipart_upload : String → UploadCompletionRequest → S3Call

-- S3, after the calls so far. An upload id or an ETag is a pointer, that may be nil. `put_part` also
-- tells at which position it leaves the reader of the part's bytes.
pub record S3 : Type 0 where
  pub create : List S3Call → String → String → Result (Option String)
  pub put_part : List S3Call → UploadPartInput → ℕ × Result (Option String)
  pub complete : List S3Call → String → UploadCompletionRequest → Option String

-- The server: its bucket, S3, the crypto manager, the decoders and encoders, and the names of a key.
-- A decoder gives `none` for JSON's `null`, where it is given a pointer to a pointer.
pub record Server : Type 0 where
  pub bucket : String
  pub s3 : S3
  pub decode_base64 : String → Result Bytes
  pub decrypt_source : Bytes → Result String
  pub org_id_from_client_id : String → String
  pub decode_start : Bytes → Result (Option UploadRequest)
  pub decode_put : Bytes → Result PartRequest
  pub decode_completion : Bytes → Result (Option UploadCompletionRequest)
  pub encode_key : UploadKey → String
  pub encode_part : Option String → ℤ → String
  pub hash_name : String → String
  pub normalized_org_id : String → String

-- What is read of an `http.Request`: a header that is missing is empty.
pub record Request : Type 0 where
  pub authorization : String
  pub query : List (String × List String)
  pub body : Result Bytes

-- What the client sees: a status and a body, or a panic, which ends the connection.
pub data Outcome : Type 0 where
  responded : ℕ → String → Outcome
  panicked : Outcome

abbrev pub Handled : Type 0
Handled = List S3Call × Outcome

unfoldable pub verify_token : Server → Request → Result String
verify_token self r = if r.authorization == "" then err "No token provided" else do
  decoded ← self.decode_base64 r.authorization
  source ← self.decrypt_source decoded
  ok (self.org_id_from_client_id source)

-- Where an error is answered with this status.
abbrev pub or_status {ℓ} : {A : Type ℓ} → ℕ → List S3Call → Result A → (A → Handled) → Handled
or_status status calls (err e) next = (calls, responded status e)
or_status status calls (ok a) next = next a

-- A forbidden request is answered without a text.
abbrev pub or_forbidden : List S3Call → Result String → (String → Handled) → Handled
or_forbidden calls (err e) next = (calls, responded 403 "")
or_forbidden calls (ok org_id) next = next org_id

abbrev pub authorised : Server → List S3Call → Request → (String → Handled) → Handled
authorised self calls r next = or_forbidden calls (verify_token self r) next

abbrev pub upload_key : Server → String → UploadRequest → String
upload_key self = s3_key_for_client_upload self.hash_name self.normalized_org_id

-- `err` is nil where S3 gave no error and no upload id, so that `err.Error()` panics.
pub created : Server → String → List S3Call → Result (Option String) → Handled
created self key calls (err e) = (calls, responded 503 e)
created self key calls (ok none) = (calls, panicked)
created self key calls (ok (some upload_id)) =
    (calls, responded 200 (self.encode_key (record { key = key; upload_id = upload_id })))

unfoldable pub start_multipart_upload : Server → List S3Call → Request → Handled
unfolding created
start_multipart_upload self calls r = authorised self calls r λ org_id.
    or_status 503 calls r.body λ serialized.
      or_status 503 calls (self.decode_start serialized) λ decoded. elim decoded [
        | none ↦ (calls, panicked)
        | some request ↦
            let key = upload_key self org_id request in
            created self key (calls ++ create_multipart_upload self.bucket key ∷ [])
              ((self.s3).create calls self.bucket key)
      ]

-- The first payload of the query that is base64. The values of a map come in any order.
unfoldable pub extract_upload_request : Server → List (String × List String) → Result PartRequest
extract_upload_request self [] = err "Invalid Request"
extract_upload_request self ((k, []) ∷ rest) = extract_upload_request self rest
extract_upload_request self ((k, v ∷ more) ∷ rest) =
    let others = extract_upload_request self rest in
    if k == "payload"
    then elim (self.decode_base64 v) [ err e ↦ others | ok serialized ↦ self.decode_put serialized ]
    else others

abbrev pub max_retries : ℕ
max_retries = 10

-- The next try of the part sends what the reader of these bytes has left: all tries share the reader.
abbrev pub next_input : S3 → Bytes → List S3Call → UploadPartInput → UploadPartInput
next_input s3 data_ calls input = record input { body = drop (s3.put_part calls input).0 data_ }

-- The tries of `uploadPart`, of which so many are left after this one.
unfoldable pub try_part :
    S3 → Bytes → UploadPartInput → ℕ → List S3Call → List S3Call × Result (Option String)
try_part s3 data_ input zero calls = (calls ++ upload_part input ∷ [], (s3.put_part calls input).1)
try_part s3 data_ input (suc n) calls = elim (s3.put_part calls input).1 [
  | err e ↦ try_part s3 data_ (next_input s3 data_ calls input) n (calls ++ upload_part input ∷ [])
  | ok etag ↦ (calls ++ upload_part input ∷ [], ok etag)
]

abbrev pub part_input : Server → PartRequest → Bytes → UploadPartInput
part_input self req data_ = record {
  bucket = self.bucket;
  key = req.key;
  upload_id = req.upload_id;
  part_number = req.part;
  body = data_;
  content_length = length data_;
}

abbrev pub is_negative : ℤ → Bool
is_negative (pos n) = false
is_negative (negsuc n) = true

pub part_answered : Server → PartRequest → List S3Call × Result (Option String) → Handled
part_answered self req (calls, err e) = (calls, responded 400 e)
part_answered self req (calls, ok etag) = (calls, responded 200 (self.encode_part etag req.part))

abbrev pub is_bad_part : PartRequest → Bool
is_bad_part req = is_negative req.part || req.upload_id == "" || req.key == ""

unfoldable pub get_upload_part : Server → List S3Call → Request → Handled
unfolding part_answered
get_upload_part self calls r = authorised self calls r λ org_id.
    elim (extract_upload_request self r.query) [
      | err e ↦ (calls, responded 400 "Invalid request")
      | ok req ↦
          if is_bad_part req
          then (calls, responded 400 "Invalid request")
          else or_status 400 calls r.body λ serialized.
            part_answered self req
              (try_part self.s3 serialized (part_input self req serialized) max_retries calls)
    ]

pub completed : List S3Call → Option String → Handled
completed calls none = (calls, responded 200 "")
completed calls (some e) = (calls, responded 503 e)

unfoldable pub complete_multipart_upload_handler : Server → List S3Call → Request → Handled
unfolding completed
complete_multipart_upload_handler self calls r = authorised self calls r λ org_id.
    or_status 503 calls r.body λ serialized.
      or_status 503 calls (self.decode_completion serialized) λ decoded. elim decoded [
        | none ↦ (calls, panicked)
        | some request ↦
            if request.upload_id == "" || request.key == ""
            then (calls, responded 400 "Invalid request")
            else completed (calls ++ complete_multipart_upload self.bucket request ∷ [])
                ((self.s3).complete calls self.bucket request)
      ]

-- The paths that the mux gives to these handlers. An answer that sets no status is 200.
pub data Endpoint : Type 0 where
  upload_start : Endpoint
  upload_put : Endpoint
  upload_commit : Endpoint
  upload_abort : Endpoint

unfoldable pub abort_multipart_upload : List S3Call → Handled
abort_multipart_upload calls = (calls, responded 200 "")

unfoldable pub serve : Server → Endpoint → List S3Call → Request → Handled
serve self upload_start calls r = start_multipart_upload self calls r
serve self upload_put calls r = get_upload_part self calls r
serve self upload_commit calls r = complete_multipart_upload_handler self calls r
serve self upload_abort calls r = abort_multipart_upload calls
