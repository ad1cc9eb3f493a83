-- ===== src/UploadServer/Tests.antt =====
-- A file of two parts for a server with one organisation, and an S3 that answers at once, or after
-- two failures.
use cloudvelo.Prelude.{
  ℕ, zero, suc, ℤ, pos, String, List, [], ◌∷◌, ◌++◌, Option, none, some, false, ltb, ◌≡◌, refl, ap,
  if◌then◌else◌, length, Result, ok, err,
}
use cloudvelo.Uploads.Api.{Bytes}
use cloudvelo.Ingestion.Uploads.{s3_key_for_client_upload, s3_components_for_client_upload}
use cloudvelo.Foreman.Labels.{join}
use cloudvelo.Uploads.Uploader.{
  get_components, VeloCloudUploader, UploadKey, UploadCompletionRequest, upload_request, start,
}
use cloudvelo.UploadServer.{
  Server, S3, S3Call, upload_part, get_upload_part, extract_upload_request, Request,
  UploadPartInput, PartRequest, responded, try_part, max_retries, verify_token, upload_put, serve,
  part_input,
}
use cloudvelo.UploadServer.Guard.{IsGuarded, serve-IsGuarded}
use cloudvelo.UploadServer.Served.{Wire, IsUnderstood, IsAvailable}
use cloudvelo.UploadServer.EndToEnd.{IsUploaded, upload_reaches_s3, net, completion_of, upload_at}

abbrev fresh : VeloCloudUploader
fresh = record {
  key = "";
  upload_id = "";
  upload_number = 0;
  next_upload_id = 1;
  committed = false;
  hashed = [];
  size = 3;
  offset = 0;
  part = 1;
  parts = [];
  session_id = "F.1";
  path = record { text = "/a"; delegate_path = ""; components = "a" ∷ [] };
  client_id = "C.1";
  accessor = "file";
  mtime = none;
  atime = none;
  ctime = none;
  btime = none;
  uploader_type = "";
  response = none;
  closed = false;
  index = none;
  sent = [];
  reports = [];
}

abbrev etag_of : List S3Call → UploadPartInput → String
etag_of calls input = "etag"

abbrev id_of : List S3Call → String → String
id_of calls key = "id"

abbrev ready : S3
ready = record {
  create = λ calls bucket key. ok (some "id");
  put_part = λ calls input. (length input.body, ok (some "etag"));
  complete = λ calls bucket request. none;
}

-- The first two calls fail after they have read a byte each.
abbrev flaky : S3
flaky = record ready {
  put_part = λ calls input.
      if ltb (length calls) 2 then (suc (length calls), err "slow down") else (0, ok (some "etag"));
}

-- A number as a text, and back.
abbrev unary : ℕ → String
unary zero = ""
unary (suc n) = String.◌∷◌ "1" (unary n)

abbrev count : String → ℕ
count String.[] = 0
count (String.◌∷◌ c s) = suc (count s)

count-unary : (n : ℕ) → count (unary n) ≡ n
count-unary zero = refl
count-unary (suc n) = ap suc (count-unary n)

abbrev the_key : UploadKey
the_key = record {
  key = s3_key_for_client_upload (λ name. "hash") (λ org_id. org_id) "root" (upload_request fresh);
  upload_id = "id";
}

abbrev the_completion : UploadCompletionRequest
the_completion = record {
  key = the_key.key;
  upload_id = "id";
  parts =
      record { etag = "etag"; part_number = 1 } ∷ record { etag = "etag"; part_number = 2 } ∷ [];
}

-- The number of a part is all that a text carries here.
abbrev number_of : ℤ → ℕ
number_of (pos n) = n
number_of (cloudvelo.Prelude.negsuc n) = 0

abbrev server : Server
server = record {
  bucket = "bucket";
  s3 = ready;
  decode_base64 = λ text. ok (count text ∷ []);
  decrypt_source = λ bytes. ok "C.1";
  org_id_from_client_id = λ client_id. "root";
  decode_start = λ bytes. ok (some (upload_request fresh));
  decode_put = λ bytes. ok (record {
    key = the_key.key;
    upload_id = "id";
    part = elim bytes [ [] ↦ pos 0 | n ∷ rest ↦ pos n ];
  });
  decode_completion = λ bytes. ok (some the_completion);
  encode_key = λ k. k.key;
  encode_part = λ etag n. unary (number_of n);
  hash_name = λ name. "hash";
  normalized_org_id = λ org_id. org_id;
}

abbrev wire : Wire
wire = record {
  token = "token";
  encode_start = λ request. [];
  encode_put = λ request. unary request.part_number;
  encode_completion = λ request. [];
  decode_key = λ text. ok the_key;
  decode_part = λ text. ok (record { etag = "etag"; part_number = count text });
  status_text = λ code. "";
  sha256 = λ bytes. "";
  md5 = λ bytes. "";
}

abbrev pieces : List Bytes
pieces = (1 ∷ 2 ∷ []) ∷ (3 ∷ []) ∷ []

server-IsAvailable : IsAvailable ready id_of etag_of
server-IsAvailable = record {
  create = λ calls bucket key. refl;
  some_id = λ calls key e. cc e;
  put = λ calls input. refl;
  complete = λ calls bucket request. refl;
}

server-IsUnderstood :
    IsUnderstood wire server "root" etag_of
      (upload_request fresh)
      (completion_of wire server "root" id_of etag_of server-IsAvailable [] fresh pieces)
      (upload_at wire server "root" id_of etag_of server-IsAvailable [] fresh)
unfolding verify_token
server-IsUnderstood = record {
  token = λ query body. refl;
  start = refl;
  put = λ n. (n ∷ [], ap (λ k. ok (k ∷ [])) (count-unary n), refl);
  commit = refl;
  key = refl;
  part = λ calls input n. ap (λ k. ok (record { etag = "etag"; part_number = k })) (count-unary n);
}

upload_reaches_s3_example :
    IsUploaded wire server "root" id_of etag_of server-IsAvailable [] fresh pieces
      (start (net wire server "root" id_of etag_of server-IsAvailable []) fresh)
upload_reaches_s3_example =
    upload_reaches_s3 wire server "root" id_of etag_of server-IsAvailable [] fresh pieces refl refl
      refl server-IsUnderstood

abbrev the_part : PartRequest
the_part = record { key = "k"; upload_id = "id"; part = pos 1 }

abbrev the_input : UploadPartInput
the_input = part_input server the_part (1 ∷ 2 ∷ [])

-- Two failures, and then what the reader has left is taken for the part: nothing.
flaky_tries : try_part flaky (1 ∷ 2 ∷ []) the_input max_retries [] ≡ (
  upload_part the_input
      ∷ upload_part (record the_input { body = 2 ∷ [] })
      ∷ upload_part (record the_input { body = [] })
      ∷ [],
  ok (some "etag"),
)
unfolding try_part
flaky_tries = refl

abbrev the_request : Request
the_request = record {
  authorization = "token";
  query = ("payload", unary 1 ∷ []) ∷ [];
  body = ok (1 ∷ 2 ∷ []);
}

serve-IsGuarded_example : IsGuarded server [] the_request (serve server upload_put [] the_request).0
serve-IsGuarded_example = serve-IsGuarded server upload_put [] the_request

-- The part reaches S3.
the_request_served : serve server upload_put [] the_request ≡ (
  upload_part (part_input server (record the_part { key = the_key.key }) (1 ∷ 2 ∷ [])) ∷ [],
  responded 200 "1",
)
unfolding serve get_upload_part verify_token extract_upload_request try_part
    s3_key_for_client_upload s3_components_for_client_upload join get_components
the_request_served = refl
