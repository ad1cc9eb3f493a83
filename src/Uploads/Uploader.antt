-- ===== src/Uploads/Uploader.antt =====
-- vql/uploads/uploader.go: the uploader that sends the parts to the server over HTTP and reports
-- each of them to the responder. The HTTP client is a function of the requests that it was sent, so
-- that it may answer each of them as it likes; the context is not cancelled.
pub mod Reports
pub mod Requests
pub mod Closing
pub mod Answers
use Prim.Native.String.{◌++◌ as str_append}
use cloudvelo.Prelude.{
  ℕ, String, List, [], ◌∷◌, ◌++◌, ◌+◌, Option, none, some, Bool, true, false, not, if◌then◌else◌,
  nat_eq, ◌==◌, length, is_some, Result, ok, err,
}
use cloudvelo.Uploads.Api.{Bytes, IndexRange, CloudUploader}

-- `accessors.OSPath`: its text, the path that it delegates to, and its components.
pub record OsPath : Type 0 where
  pub text : String
  pub delegate_path : String
  pub components : List String

pub record UploadRequest : Type 0 where
  pub client_id : String
  pub session_id : String
  pub accessor : String
  pub components : List String
  pub type_ : String

-- `UploadResponse` of this file: the key and the id of an upload.
pub record UploadKey : Type 0 where
  pub key : String
  pub upload_id : String

pub record UploadPutRequest : Type 0 where
  pub key : String
  pub upload_id : String
  pub part_number : ℕ

-- `s3.CompletedPart`
pub record CompletedPart : Type 0 where
  pub etag : String
  pub part_number : ℕ

pub record UploadCompletionRequest : Type 0 where
  pub key : String
  pub upload_id : String
  pub parts : List CompletedPart

pub data HttpRequest : Type 0 where
  post_start : UploadRequest → HttpRequest
  put_part : UploadPutRequest → Bytes → HttpRequest
  post_commit : UploadCompletionRequest → HttpRequest

pub record HttpResponse : Type 0 where
  pub status_code : ℕ
  pub status : String
  pub body : String

-- The HTTP client after the requests so far, the JSON decoders, and the hash functions.
pub record Network : Type 0 where
  pub do_ : List HttpRequest → HttpRequest → Result HttpResponse
  pub decode_key : String → Result UploadKey
  pub decode_part : String → Result CompletedPart
  pub sha256 : Bytes → String
  pub md5 : Bytes → String

-- `actions_proto.FileBuffer` with its `PathSpec`.
pub record FileBuffer : Type 0 where
  pub session_id : String
  pub path : String
  pub accessor : String
  pub components : List String
  pub offset : ℕ
  pub size : ℕ
  pub stored_size : ℕ
  pub data_length : ℕ
  pub eof : Bool
  pub upload_number : ℕ
  pub is_sparse : Bool
  pub mtime : ℕ
  pub atime : ℕ
  pub ctime : ℕ
  pub btime : ℕ

-- `uploads.UploadResponse` of the client's library.
pub record VqlResponse : Type 0 where
  pub path : String
  pub stored_name : String
  pub size : ℕ
  pub stored_size : ℕ
  pub sha256 : String
  pub md5 : String
  pub error : String

-- The uploader of one file. `hashed` is what was written to both hashes; `sent` and `reports` are
-- what the HTTP client and the responder were given. A time is `none` where it is zero.
pub record VeloCloudUploader : Type 0 where
  pub key : String
  pub upload_id : String
  pub upload_number : ℕ
  pub next_upload_id : ℕ
  pub committed : Bool
  pub hashed : Bytes
  pub size : ℕ
  pub offset : ℕ
  pub part : ℕ
  pub parts : List CompletedPart
  pub session_id : String
  pub path : OsPath
  pub client_id : String
  pub accessor : String
  pub mtime : Option ℕ
  pub atime : Option ℕ
  pub ctime : Option ℕ
  pub btime : Option ℕ
  pub uploader_type : String
  pub response : Option VqlResponse
  pub closed : Bool
  pub index : Option (List IndexRange)
  pub sent : List HttpRequest
  pub reports : List FileBuffer

abbrev last_range : IndexRange → List IndexRange → IndexRange
last_range r [] = r
last_range r (s ∷ rest) = last_range s rest

unfoldable pub set_index : List IndexRange → VeloCloudUploader → VeloCloudUploader
set_index [] self = self
set_index (r ∷ rest) self = record self {
  index = some (r ∷ rest);
  size = (last_range r rest).original_offset + (last_range r rest).length;
}

abbrev own_response : Network → VeloCloudUploader → Option VqlResponse → VqlResponse
own_response net self (some response) = response
own_response net self none = record {
  path = (self.path).text;
  stored_name = (self.path).text;
  size = self.offset;
  stored_size = self.offset;
  sha256 = net.sha256 self.hashed;
  md5 = net.md5 self.hashed;
  error = "";
}

unfoldable pub get_vql_response : Network → VeloCloudUploader → VqlResponse
get_vql_response net self = own_response net self self.response

unfoldable pub get_components : OsPath → List String
get_components path = if path.delegate_path == "" then path.components else path.text ∷ []

-- `self.client.Do(req)`
abbrev asked : HttpRequest → VeloCloudUploader → VeloCloudUploader
asked request self = record self { sent = self.sent ++ request ∷ [] }

abbrev status_error : String → HttpResponse → String
status_error what resp =
    str_append what (str_append resp.status (str_append ": " (str_append resp.body "\n")))

abbrev started :
    Network → VeloCloudUploader → Result HttpResponse → VeloCloudUploader × Option String
started net self (err e) = (self, some e)
started net self (ok resp) =
    if not (nat_eq resp.status_code 200)
    then (self, some (status_error "Unable to connect: " resp))
    else elim (net.decode_key resp.body) [
      | err e ↦ (self, some e)
      | ok response ↦ (
        record self {
          key = response.key;
          upload_id = response.upload_id;
          upload_number = self.next_upload_id;
          next_upload_id = self.next_upload_id + 1;
        },
        none,
      )
    ]

abbrev pub upload_request : VeloCloudUploader → UploadRequest
upload_request self = record {
  client_id = self.client_id;
  session_id = self.session_id;
  accessor = self.accessor;
  components = get_components self.path;
  type_ = self.uploader_type;
}

abbrev pub start_request : VeloCloudUploader → HttpRequest
start_request self = post_start (upload_request self)

unfoldable pub start : Network → VeloCloudUploader → VeloCloudUploader × Option String
start net self =
    started net (asked (start_request self) self) (net.do_ self.sent (start_request self))

abbrev unix_or_zero : Option ℕ → ℕ
unix_or_zero none = 0
unix_or_zero (some t) = t

abbrev pub report_of : Bool → ℕ → VeloCloudUploader → FileBuffer
report_of eof buffer_size self = record {
  session_id = self.session_id;
  path = (self.path).text;
  accessor = self.accessor;
  components = get_components self.path;
  offset = self.offset;
  size = self.size;
  stored_size = self.offset + buffer_size;
  data_length = buffer_size;
  eof = eof;
  upload_number = self.upload_number;
  is_sparse = is_some self.index;
  mtime = unix_or_zero self.mtime;
  atime = unix_or_zero self.atime;
  ctime = unix_or_zero self.ctime;
  btime = unix_or_zero self.btime;
}

unfoldable pub update_server_stat : Bool → ℕ → VeloCloudUploader → VeloCloudUploader
update_server_stat eof buffer_size self = record self {
  reports = self.reports ++ report_of eof buffer_size self ∷ [];
}

-- After a part was put: the part number moves even where the answer is not decoded.
pub put_decoded :
    Bytes → VeloCloudUploader → Result CompletedPart → VeloCloudUploader × Option String
put_decoded buf self (err e) = (record self { part = self.part + 1 }, some e)
put_decoded buf self (ok completed) =
    let reported =
      update_server_stat false (length buf)
        (record self { part = self.part + 1; parts = self.parts ++ completed ∷ [] }) in
    (record reported { offset = reported.offset + length buf }, none)

pub put_answered :
    Network → Bytes → VeloCloudUploader → Result HttpResponse → VeloCloudUploader × Option String
put_answered net buf self (err e) = (self, some e)
put_answered net buf self (ok resp) =
    if not (nat_eq resp.status_code 200)
    then (self, some (status_error "Unable to put part: " resp))
    else put_decoded buf self (net.decode_part resp.body)

abbrev pub put_request : Bytes → VeloCloudUploader → HttpRequest
put_request buf self =
    put_part (record { key = self.key; upload_id = self.upload_id; part_number = self.part }) buf

unfoldable pub put : Network → Bytes → VeloCloudUploader → VeloCloudUploader × Option String
unfolding put_decoded put_answered
put net buf self =
    let hashing = record self { hashed = self.hashed ++ buf } in
    put_answered net buf (asked (put_request buf self) hashing)
      (net.do_ self.sent (put_request buf self))

unfoldable pub commit : VeloCloudUploader → VeloCloudUploader
commit self = record self { committed = true }

abbrev failed_response : String → VqlResponse
failed_response e = record {
  path = "";
  stored_name = "";
  size = 0;
  stored_size = 0;
  sha256 = "";
  md5 = "";
  error = e;
}

pub close_answered : VeloCloudUploader → Result HttpResponse → VeloCloudUploader × Option String
close_answered self (err e) = (record self { response = some (failed_response e) }, some e)
close_answered self (ok resp) =
    if not (nat_eq resp.status_code 200)
    then (
      record self { response = some (failed_response (status_error "Unable to put part: " resp)) },
      some (status_error "Unable to put part: " resp),
    )
    else (update_server_stat true 0 self, none)

abbrev pub completion_request : VeloCloudUploader → HttpRequest
completion_request self =
    post_commit (record { key = self.key; upload_id = self.upload_id; parts = self.parts })

unfoldable pub close : Network → VeloCloudUploader → VeloCloudUploader × Option String
unfolding close_answered
close net self =
    if self.closed
    then (self, none)
    else close_answered (asked (completion_request self) (record self { closed = true }))
        (net.do_ self.sent (completion_request self))

-- The interface, as a `CloudUploader`.
unfoldable pub velo_cloud_uploader : Network → CloudUploader VeloCloudUploader
velo_cloud_uploader net = record {
  put_whole = put net;
  put = put net;
  commit = commit;
  close = close net;
  set_index = set_index;
}
