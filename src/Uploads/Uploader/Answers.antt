-- ===== src/Uploads/Uploader/Answers.antt =====
-- What a request leaves behind where the server takes it.
use cloudvelo.Prelude.{String, [], ◌∷◌, ◌++◌, ◌+◌, none, true, false, length, ◌≡◌, ok}
use cloudvelo.Uploads.Api.{Bytes}
use cloudvelo.Uploads.Uploader.{
  VeloCloudUploader, UploadKey, CompletedPart, Network, start_request, start, put, put_request,
  put_answered, put_decoded, update_server_stat, close, close_answered, completion_request,
}

pub start-answered :
    (net : Network) (s : VeloCloudUploader) (status body : String) (k : UploadKey)
    → net.do_ s.sent (start_request s)
      ≡ ok (record { status_code = 200; status = status; body = body })
    → net.decode_key body ≡ ok k
    → start net s ≡ (
      record s {
        sent = s.sent ++ start_request s ∷ [];
        key = k.key;
        upload_id = k.upload_id;
        upload_number = s.next_upload_id;
        next_upload_id = s.next_upload_id + 1;
      },
      none,
    )
unfolding start
start-answered net s status body k answer read = rw (answer, read)

-- The uploader after a part that the server took.
abbrev pub with_part : Bytes → CompletedPart → VeloCloudUploader → VeloCloudUploader
with_part buf completed s =
    record (update_server_stat false (length buf) (record s {
      sent = s.sent ++ put_request buf s ∷ [];
      hashed = s.hashed ++ buf;
      part = s.part + 1;
      parts = s.parts ++ completed ∷ [];
    })) { offset = s.offset + length buf }

pub put-answered :
    (net : Network) (buf : Bytes) (s : VeloCloudUploader) (status body : String)
    (completed : CompletedPart)
    → net.do_ s.sent (put_request buf s)
      ≡ ok (record { status_code = 200; status = status; body = body })
    → net.decode_part body ≡ ok completed
    → put net buf s ≡ (with_part buf completed s, none)
unfolding put put_answered put_decoded update_server_stat
put-answered net buf s status body completed answer read = rw (answer, read)

pub close-answered :
    (net : Network) (s : VeloCloudUploader) (status body : String)
    → s.closed ≡ false
    → net.do_ s.sent (completion_request s)
      ≡ ok (record { status_code = 200; status = status; body = body })
    → close net s ≡ (
      update_server_stat true 0
          (record s { sent = s.sent ++ completion_request s ∷ []; closed = true }),
      none,
    )
unfolding close close_answered update_server_stat
close-answered net s status body unclosed answer = rw (unclosed, answer)
