-- ===== src/UploadServer/Served.antt =====
-- A client's uploader and the server: the network between them carries each request of
-- vql/uploads/uploader.go to the handler of its path, and the answer back.
use cloudvelo.Prelude.{
  ℕ, pos, String, List, [], ◌∷◌, ◌++◌, none, some, ◌≡◌, ◌≢◌, refl, Result, ok, err, ==-nonempty,
}
use cloudvelo.Uploads.Api.{Bytes}
use cloudvelo.Uploads.Uploader.{
  UploadRequest, UploadKey, UploadPutRequest, CompletedPart, UploadCompletionRequest, HttpRequest,
  HttpResponse, Network, post_start, put_part, post_commit,
}
use cloudvelo.UploadServer.{
  Server, S3, S3Call, create_multipart_upload, upload_part, complete_multipart_upload, Request,
  UploadPartInput, Outcome, Handled, responded, panicked, verify_token, upload_key, created,
  start_multipart_upload, try_part, part_input, part_answered, extract_upload_request,
  get_upload_part, completed, max_retries, complete_multipart_upload_handler, Endpoint,
  upload_start, upload_put, upload_commit, serve,
}

-- The client's side of the connection: its token, its encoders and decoders, and `net/http`'s name
-- of a status. `encode_put` is the payload of the URL.
pub record Wire : Type 0 where
  pub token : String
  pub encode_start : UploadRequest → Bytes
  pub encode_put : UploadPutRequest → String
  pub encode_completion : UploadCompletionRequest → Bytes
  pub decode_key : String → Result UploadKey
  pub decode_part : String → Result CompletedPart
  pub status_text : ℕ → String
  pub sha256 : Bytes → String
  pub md5 : Bytes → String

abbrev pub request_of : Wire → HttpRequest → Endpoint × Request
request_of wire (post_start request) = (
  upload_start,
  record { authorization = wire.token; query = []; body = ok (wire.encode_start request) },
)
request_of wire (put_part request buf) = (
  upload_put,
  record {
    authorization = wire.token;
    query = ("payload", wire.encode_put request ∷ []) ∷ [];
    body = ok buf;
  },
)
request_of wire (post_commit request) = (
  upload_commit,
  record { authorization = wire.token; query = []; body = ok (wire.encode_completion request) },
)

-- A panic ends the connection without an answer.
abbrev pub response_of : Wire → Outcome → Result HttpResponse
response_of wire (responded code text) =
    ok (record { status_code = code; status = wire.status_text code; body = text })
response_of wire panicked = err "EOF"

unfoldable pub handle : Wire → Server → List S3Call → HttpRequest → Handled
handle wire server calls request =
    serve server (request_of wire request).0 calls (request_of wire request).1

-- The calls of S3 after these requests.
unfoldable pub calls_after : Wire → Server → List S3Call → List HttpRequest → List S3Call
calls_after wire server calls [] = calls
calls_after wire server calls (request ∷ rest) =
    calls_after wire server (handle wire server calls request).0 rest

unfoldable pub connected : Wire → Server → List S3Call → Network
connected wire server calls = record {
  do_ = λ before request.
      response_of wire (handle wire server (calls_after wire server calls before) request).1;
  decode_key = wire.decode_key;
  decode_part = wire.decode_part;
  sha256 = wire.sha256;
  md5 = wire.md5;
}

abbrev pub part_request : UploadKey → ℕ → UploadPutRequest
part_request at n = record { key = at.key; upload_id = at.upload_id; part_number = n }

-- In the upload `at` of this request, that ends with this completion, each side decodes what the
-- other one encodes, and the client's token is one of the organisation.
pub record IsUnderstood (wire : Wire) (server : Server) (org_id : String)
    (etag_of : List S3Call → UploadPartInput → String) (request : UploadRequest)
    (completion : UploadCompletionRequest) (at : UploadKey) : Type 0 where
  pub token :
      (query : List (String × List String)) (body : Result Bytes)
      → verify_token server (record { authorization = wire.token; query = query; body = body })
        ≡ ok org_id
  pub start : server.decode_start (wire.encode_start request) ≡ ok (some request)
  pub put :
      (n : ℕ)
      → (json : Bytes) × (server.decode_base64 (wire.encode_put (part_request at n)) ≡ ok json)
        × (server.decode_put json
            ≡ ok (record { key = at.key; upload_id = at.upload_id; part = pos n }))
  pub commit : server.decode_completion (wire.encode_completion completion) ≡ ok (some completion)
  pub key : wire.decode_key (server.encode_key at) ≡ ok at
  pub part :
      (calls : List S3Call) (input : UploadPartInput) (n : ℕ)
      → wire.decode_part (server.encode_part (some (etag_of calls input)) (pos n))
        ≡ ok (record { etag = etag_of calls input; part_number = n })

-- An S3 that does what it is asked, with the upload ids and ETags that it gives.
pub record IsAvailable (s3 : S3) (id_of : List S3Call → String → String)
    (etag_of : List S3Call → UploadPartInput → String) : Type 0 where
  pub create :
      (calls : List S3Call) (bucket key : String)
      → s3.create calls bucket key ≡ ok (some (id_of calls key))
  pub some_id : (calls : List S3Call) (key : String) → id_of calls key ≢ ""
  pub put :
      (calls : List S3Call) (input : UploadPartInput)
      → (s3.put_part calls input).1 ≡ ok (some (etag_of calls input))
  pub complete :
      (calls : List S3Call) (bucket : String) (request : UploadCompletionRequest)
      → s3.complete calls bucket request ≡ none

pub calls_after-snoc :
    (wire : Wire) (server : Server) (calls : List S3Call) (before : List HttpRequest)
    (request : HttpRequest)
    → calls_after wire server calls (before ++ request ∷ [])
      ≡ (handle wire server (calls_after wire server calls before) request).0
unfolding calls_after
calls_after-snoc wire server calls [] request = refl
calls_after-snoc wire server calls (first ∷ rest) request =
    calls_after-snoc wire server (handle wire server calls first).0 rest request

-- The input of a part that a client puts.
abbrev pub input_of : Server → UploadPutRequest → Bytes → UploadPartInput
input_of server request =
    part_input server
      (record { key = request.key; upload_id = request.upload_id; part = pos request.part_number })

module _ (wire : Wire) (server : Server) (org_id : String) (id_of : List S3Call → String → String)
    (etag_of : List S3Call → UploadPartInput → String) (request : UploadRequest)
    (completion : UploadCompletionRequest) (available : IsAvailable server.s3 id_of etag_of)
    (at : UploadKey)
    (understood : IsUnderstood wire server org_id etag_of request completion at) where
  pub handle-start :
      (calls : List S3Call)
      → let key = upload_key server org_id request in
        handle wire server calls (post_start request) ≡ (
          calls ++ create_multipart_upload server.bucket key ∷ [],
          responded 200 (server.encode_key (record { key = key; upload_id = id_of calls key })),
        )
  unfolding handle serve start_multipart_upload created
  handle-start calls = rw (
    understood.token [] (ok (wire.encode_start request)),
    understood.start,
    available.create calls server.bucket (upload_key server org_id request),
  )

  pub handle-commit :
      (calls : List S3Call)
      → completion.upload_id ≢ ""
      → completion.key ≢ ""
      → handle wire server calls (post_commit completion)
        ≡ (calls ++ complete_multipart_upload server.bucket completion ∷ [], responded 200 "")
  unfolding handle serve complete_multipart_upload_handler completed
  handle-commit calls some_id some_key = rw (
    understood.token [] (ok (wire.encode_completion completion)),
    understood.commit,
    ==-nonempty completion.upload_id some_id,
    ==-nonempty completion.key some_key,
    available.complete calls server.bucket completion,
  )

  try_part-available :
      (data_ : Bytes) (input : UploadPartInput) (calls : List S3Call)
      → try_part server.s3 data_ input max_retries calls
        ≡ (calls ++ upload_part input ∷ [], ok (some (etag_of calls input)))
  unfolding try_part
  try_part-available data_ input calls = rw (available.put calls input)

  pub handle-put :
      (calls : List S3Call) (n : ℕ) (buf : Bytes)
      → at.upload_id ≢ ""
      → at.key ≢ ""
      → let input = input_of server (part_request at n) buf in
        handle wire server calls (put_part (part_request at n) buf) ≡ (
          calls ++ upload_part input ∷ [],
          responded 200 (server.encode_part (some (etag_of calls input)) (pos n)),
        )
  unfolding handle serve get_upload_part extract_upload_request part_answered
  handle-put calls n buf some_id some_key =
      let sent = part_request at n in
      let (json, decoded, read) = understood.put n in
      rw (
        understood.token (("payload", wire.encode_put sent ∷ []) ∷ []) (ok buf),
        decoded,
        read,
        ==-nonempty at.upload_id some_id,
        ==-nonempty at.key some_key,
        try_part-available buf (input_of server sent buf) calls,
      )
