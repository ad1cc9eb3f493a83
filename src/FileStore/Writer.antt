-- ===== src/FileStore/Writer.antt =====
-- filestore/writer.go: the writer that sends a file to S3 in parts. S3 is a function of the requests
-- that it got, so that it may answer each of them as it likes.
use cloudvelo.Prelude.{
  ℕ, zero, suc, String, List, [], ◌∷◌, ◌++◌, ◌+◌, Option, none, some, if◌then◌else◌, ltb, ◌==◌,
  length, drop, Result, ok, err,
}

abbrev pub Bytes : Type 0
Bytes = List ℕ

-- `s3.CompletedPart`
pub record CompletedPart : Type 0 where
  pub etag : String
  pub part_number : ℕ

-- The request of a part has its key, upload id, number, what its reader has left, and the length
-- that is told.
pub data Request : Type 0 where
  create_upload : String → Request
  upload_part : String → String → ℕ → Bytes → ℕ → Request
  complete_upload : String → String → List CompletedPart → Request
  delete_object : String → Request

-- The answers of S3 after the requests so far: an upload id where there is one, an etag with the
-- position at which the reader of the part is left, or nothing.
pub record S3 : Type 0 where
  pub create : List Request → String → Result (Option String)
  pub put : List Request → Request → ℕ × Result String
  pub call : List Request → Request → Option String

-- `sent` are all requests.
pub record S3Writer : Type 0 where
  pub key : String
  pub buf : Bytes
  pub parts : List CompletedPart
  pub size : ℕ
  pub upload_id : String
  pub part_number : ℕ
  pub part_size : ℕ
  pub sent : List Request

-- `WriteFile`, with the configured part size.
unfoldable pub write_file : String → ℕ → S3Writer
write_file key configured = record {
  key = key;
  buf = [];
  parts = [];
  size = 0;
  upload_id = "";
  part_number = 1;
  part_size = if ltb 0 configured then configured else 6000000;
  sent = [];
}

abbrev pub max_retries : ℕ
max_retries = 10

unfoldable pub started : S3Writer → Result (Option String) → S3Writer × Option String
started w (err e) = (w, some e)
started w (ok none) = (w, some "Unknown UploadId")
started w (ok (some id)) = (record w { upload_id = id }, none)

unfoldable pub start : S3 → S3Writer → S3Writer × Option String
unfolding started
start s3 w =
    started (record w { sent = w.sent ++ create_upload w.key ∷ [] }) (s3.create w.sent w.key)

-- S3 took the part.
abbrev pub accepted : String → S3Writer → S3Writer
accepted etag w = record w {
  parts = w.parts ++ record { etag = etag; part_number = w.part_number } ∷ [];
  part_number = w.part_number + 1;
}

unfoldable pub answered :
    S3Writer → (String → S3Writer × Option String) → Result String → S3Writer × Option String
answered w later (ok etag) = (accepted etag w, none)
answered w later (err e) = later e

-- The input of a part: of these bytes its reader has `body` left.
abbrev pub part_request : Bytes → Bytes → S3Writer → Request
part_request data_part body w = upload_part w.key w.upload_id w.part_number body (length data_part)

abbrev pub tried : Bytes → Bytes → S3Writer → S3Writer
tried data_part body w = record w { sent = w.sent ++ part_request data_part body w ∷ [] }

-- The loop of `writeBuf`, with the number of retries that are left. All tries share the reader: the
-- next one sends what the one before has left.
unfoldable pub upload_retry : S3 → ℕ → Bytes → Bytes → S3Writer → S3Writer × Option String
unfolding answered
upload_retry s3 zero data_part body w =
    answered (tried data_part body w) (λ e. (tried data_part body w, some e))
      (s3.put w.sent (part_request data_part body w)).1
upload_retry s3 (suc more) data_part body w =
    let (position, answer) = s3.put w.sent (part_request data_part body w) in
    answered (tried data_part body w)
      (λ e. upload_retry s3 more data_part (drop position data_part) (tried data_part body w))
      answer

-- The buffer is given up before the part is sent.
unfoldable pub write_buf : S3 → S3Writer → S3Writer × Option String
write_buf s3 w = upload_retry s3 max_retries w.buf w.buf (record w { buf = [] })

unfoldable pub write_full : S3 → S3Writer → S3Writer × Option String
write_full s3 w = if ltb w.part_size (length w.buf) then write_buf s3 w else (w, none)

unfoldable pub write_started : S3 → Bytes → S3Writer × Option String → S3Writer × Option String
write_started s3 bytes (w, some e) = (w, some e)
write_started s3 bytes (w, none) = write_full s3 (record w { buf = w.buf ++ bytes })

unfoldable pub write : S3 → Bytes → S3Writer → S3Writer × Option String
unfolding write_started
write s3 [] w = (w, none)
write s3 (b ∷ bytes) w =
    write_started s3 (b ∷ bytes) (if w.upload_id == "" then start s3 w else (w, none))

abbrev pub complete_request : S3Writer → Request
complete_request w = complete_upload w.key w.upload_id w.parts

unfoldable pub flush_written : S3 → S3Writer × Option String → S3Writer × Option String
flush_written s3 (w, some e) = (w, some e)
flush_written s3 (w, none) =
    (record w { sent = w.sent ++ complete_request w ∷ [] }, s3.call w.sent (complete_request w))

unfoldable pub flush : S3 → S3Writer → S3Writer × Option String
unfolding flush_written
flush s3 w = flush_written s3 (if ltb 0 (length w.buf) then write_buf s3 w else (w, none))

unfoldable pub close : S3 → S3Writer → S3Writer × Option String
close s3 w = flush s3 w

unfoldable pub truncate : S3 → S3Writer → S3Writer × Option String
truncate s3 w =
    let request = delete_object w.key in
    (record w { buf = []; sent = w.sent ++ request ∷ [] }, s3.call w.sent request)

unfoldable pub get_size : S3Writer → ℕ
get_size w = w.size
