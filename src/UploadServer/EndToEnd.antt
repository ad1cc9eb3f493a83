-- ===== src/UploadServer/EndToEnd.antt =====
-- A whole upload, from the client's uploader to the calls of S3.
use text.Mathlib.TextLemmas.{append-eq-nil_iff}
use cloudvelo.Prelude.{
  ℕ, String, List, [], ◌∷◌, ◌++◌, ◌+◌, Option, none, false, ◌≡◌, ◌≢◌, refl, sym, ap, ◌∙◌, subst, ok,
  append_assoc, append-nil,
}
use cloudvelo.Uploads.Api.{Bytes, Sent}
use cloudvelo.Uploads.Uploader.{
  VeloCloudUploader, UploadKey, UploadRequest, CompletedPart, UploadCompletionRequest, HttpRequest,
  Network, upload_request, start_request, start, put, put_request, update_server_stat, commit,
  close, completion_request, velo_cloud_uploader,
}
use cloudvelo.Uploads.Uploader.Answers.{start-answered, with_part, put-answered, close-answered}
use cloudvelo.Foreman.Labels.{join}
use cloudvelo.Ingestion.Uploads.{s3_key_for_client_upload}
use cloudvelo.UploadServer.{
  Server, S3Call, create_multipart_upload, upload_part, complete_multipart_upload, UploadPartInput,
  upload_key, Handled, responded,
}
use cloudvelo.UploadServer.Served.{
  Wire, connected, calls_after, calls_after-snoc, IsUnderstood, IsAvailable, input_of, handle,
  part_request, response_of, handle-start, handle-put, handle-commit,
}

abbrev pub upload_of : VeloCloudUploader → UploadKey
upload_of s = record { key = s.key; upload_id = s.upload_id }

abbrev pub completed_by : VeloCloudUploader → UploadCompletionRequest
completed_by s = record { key = s.key; upload_id = s.upload_id; parts = s.parts }

-- One call for each piece, numbered from `n`.
abbrev pub part_calls : Server → UploadKey → ℕ → List Bytes → List S3Call
part_calls server at n [] = []
part_calls server at n (piece ∷ pieces) =
    upload_part (input_of server (part_request at n) piece) ∷ part_calls server at (n + 1) pieces

-- The parts with the ETags that S3 gave them.
abbrev pub parts_of :
    (List S3Call → UploadPartInput → String)
    → Server
    → UploadKey
    → List S3Call
    → ℕ
    → List Bytes
    → List CompletedPart
parts_of etag_of server at calls n [] = []
parts_of etag_of server at calls n (piece ∷ pieces) =
    let input = input_of server (part_request at n) piece in
    record { etag = etag_of calls input; part_number = n }
    ∷ parts_of etag_of server at (calls ++ upload_part input ∷ []) (n + 1) pieces

-- The pieces are put, whatever comes back.
abbrev pub put_all : Network → List Bytes → VeloCloudUploader → VeloCloudUploader
put_all net [] s = s
put_all net (piece ∷ pieces) s = put_all net pieces (put net piece s).0

module _ (wire : Wire) (server : Server) (org_id : String) (id_of : List S3Call → String → String)
    (etag_of : List S3Call → UploadPartInput → String)
    (available : IsAvailable server.s3 id_of etag_of) (before : List S3Call) where
  -- The upload that S3 gives to an uploader.
  abbrev pub upload_at : VeloCloudUploader → UploadKey
  upload_at s =
      let key = upload_key server org_id (upload_request s) in
      record { key = key; upload_id = id_of (calls_after wire server before s.sent) key }

  abbrev pub net : Network
  net = connected wire server before

  abbrev pub calls : VeloCloudUploader → List S3Call
  calls s = calls_after wire server before s.sent

  -- The completion of an upload of these pieces.
  abbrev pub completion_of : VeloCloudUploader → List Bytes → UploadCompletionRequest
  completion_of s pieces =
      let at = upload_at s in
      let create = create_multipart_upload server.bucket at.key in
      record {
        key = at.key;
        upload_id = at.upload_id;
        parts = parts_of etag_of server at (calls s ++ create ∷ []) 1 pieces;
      }

  abbrev pub Understood : UploadRequest → UploadCompletionRequest → UploadKey → Type 0
  Understood = IsUnderstood wire server org_id etag_of

  step_request :
      (s : VeloCloudUploader) (request : HttpRequest) {later : List S3Call} {text : String}
      → handle wire server (calls s) request ≡ (later, responded 200 text)
      → (net.do_ s.sent request
          ≡ ok (record { status_code = 200; status = wire.status_text 200; body = text }))
        × (calls_after wire server before (s.sent ++ request ∷ []) ≡ later)
  unfolding connected
  step_request s request e = (
    ap (λ (h : Handled). response_of wire h.1) e,
    calls_after-snoc wire server before s.sent request ∙ ap (λ (h : Handled). h.0) e,
  )

  -- From `s` to `end` these pieces were put, all without an error.
  record IsAllPut (s : VeloCloudUploader) (pieces : List Bytes) (end : VeloCloudUploader)
      : Type 0 where
    sent : Sent (velo_cloud_uploader net) s pieces end
    key : end.key ≡ s.key
    upload_id : end.upload_id ≡ s.upload_id
    calls_made : calls end ≡ calls s ++ part_calls server (upload_of s) s.part pieces
    parts_given :
        end.parts ≡ s.parts ++ parts_of etag_of server (upload_of s) (calls s) s.part pieces
    closed : end.closed ≡ s.closed

  -- The part that S3's answer makes of a piece.
  answered_part : VeloCloudUploader → Bytes → CompletedPart
  answered_part s piece = record {
    etag = etag_of (calls s) (input_of server (part_request (upload_of s) s.part) piece);
    part_number = s.part;
  }

  put-served :
      (request : UploadRequest) (completion : UploadCompletionRequest) (piece : Bytes)
      (s : VeloCloudUploader)
      → Understood request completion (upload_of s)
      → s.upload_id ≢ ""
      → s.key ≢ ""
      → let input = input_of server (part_request (upload_of s) s.part) piece in
        let t = with_part piece (answered_part s piece) s in
        (put net piece s ≡ (t, none)) × (calls t ≡ calls s ++ upload_part input ∷ [])
  unfolding connected update_server_stat answered_part
  put-served request completion piece s understood some_id some_key =
      let input = input_of server (part_request (upload_of s) s.part) piece in
      let (answer, after) = step_request s (put_request piece s) (
        handle-put wire server org_id id_of etag_of request completion available (upload_of s)
          understood (calls s) s.part piece some_id some_key) in
      (
        put-answered net piece s (wire.status_text 200) _ _ answer
            (understood.part (calls s) input s.part),
        after,
      )

  IsAllPut-cons :
      (s : VeloCloudUploader) (piece : Bytes) (pieces : List Bytes) (end : VeloCloudUploader)
      → let input = input_of server (part_request (upload_of s) s.part) piece in
        let t = with_part piece (answered_part s piece) s in
        put net piece s ≡ (t, none)
        → calls t ≡ calls s ++ upload_part input ∷ []
        → IsAllPut t pieces end
        → IsAllPut s (piece ∷ pieces) end
  unfolding answered_part update_server_stat velo_cloud_uploader
  IsAllPut-cons s piece pieces end accepted after rest =
      let request = part_request (upload_of s) s.part in
      let input = input_of server request piece in
      record {
        sent = (
          ap (λ (x : VeloCloudUploader × Option String). x.1) accepted,
          subst (λ x. Sent (velo_cloud_uploader net) x pieces end)
              (ap (λ (x : VeloCloudUploader × Option String). x.0) (sym accepted)) rest.sent,
        );
        key = rest.key;
        upload_id = rest.upload_id;
        calls_made =
            rest.calls_made
            ∙ ap (λ l. l ++ part_calls server (upload_of s) (s.part + 1) pieces) after
            ∙ append_assoc (calls s) (upload_part input ∷ [])
                (part_calls server (upload_of s) (s.part + 1) pieces);
        parts_given =
            rest.parts_given
            ∙ append_assoc s.parts (answered_part s piece ∷ []) _
            ∙ ap
                (λ l.
                  s.parts
                  ++ answered_part s piece
                    ∷ parts_of etag_of server (upload_of s) l (s.part + 1) pieces)
                after;
        closed = rest.closed;
      }

  put_all-served :
      (request : UploadRequest) (completion : UploadCompletionRequest) (pieces : List Bytes)
      (s : VeloCloudUploader)
      → Understood request completion (upload_of s)
      → s.upload_id ≢ ""
      → s.key ≢ ""
      → IsAllPut s pieces (put_all net pieces s)
  unfolding update_server_stat
  put_all-served request completion [] s understood some_id some_key = record {
    sent = refl;
    key = refl;
    upload_id = refl;
    calls_made = sym (append-nil (calls s));
    parts_given = sym (append-nil s.parts);
    closed = refl;
  }
  put_all-served request completion (piece ∷ pieces) s understood some_id some_key =
      let (accepted, after) = put-served request completion piece s understood some_id some_key in
      let t = with_part piece (answered_part s piece) s in
      subst (IsAllPut s (piece ∷ pieces))
        (ap (λ (x : VeloCloudUploader × Option String). put_all net pieces x.0) (sym accepted))
        (IsAllPut-cons s piece pieces (put_all net pieces t) accepted after
          (put_all-served request completion pieces t understood some_id some_key))

  start-served :
      (completion : UploadCompletionRequest) (s : VeloCloudUploader)
      → Understood (upload_request s) completion (upload_at s)
      → let create = create_multipart_upload server.bucket (upload_at s).key in
        let t = record s {
          sent = s.sent ++ start_request s ∷ [];
          key = (upload_at s).key;
          upload_id = (upload_at s).upload_id;
          upload_number = s.next_upload_id;
          next_upload_id = s.next_upload_id + 1;
        } in
        (start net s ≡ (t, none)) × (calls t ≡ calls s ++ create ∷ [])
  unfolding connected
  start-served completion s understood =
      let (answer, after) = step_request s (start_request s) (
        handle-start wire server org_id id_of etag_of (upload_request s) completion available
          (upload_at s) understood (calls s)) in
      (start-answered net s (wire.status_text 200) _ (upload_at s) answer understood.key, after)

  close-served :
      (request : UploadRequest) (s : VeloCloudUploader)
      → let completion = completed_by s in
        Understood request completion (upload_of s)
        → s.upload_id ≢ ""
        → s.key ≢ ""
        → s.closed ≡ false
        → ((close net (commit s)).1 ≡ none)
          × (calls (close net (commit s)).0
              ≡ calls s ++ complete_multipart_upload server.bucket (completed_by s) ∷ [])
  unfolding commit connected update_server_stat
  close-served request s understood some_id some_key unclosed =
      let (answer, after) = step_request s (completion_request s) (
        handle-commit wire server org_id id_of etag_of request (completed_by s) available
          (upload_of s) understood (calls s) some_id some_key) in
      let closing = close-answered net (commit s) (wire.status_text 200) "" unclosed answer in
      (
        ap (λ (x : VeloCloudUploader × Option String). x.1) closing,
        ap (λ (x : VeloCloudUploader × Option String). calls x.0) closing ∙ after,
      )

  -- A new uploader `s` is started, puts these pieces, is committed and closed: nothing fails, and
  -- S3 is asked to make the upload under the key of its request, to take each piece with a number
  -- that counts up from 1, and then to put together just these parts.
  pub record IsUploaded (s : VeloCloudUploader) (pieces : List Bytes)
      (begun : VeloCloudUploader × Option String) : Type 0 where
    pub started : begun.1 ≡ none
    pub sent : Sent (velo_cloud_uploader net) begun.0 pieces (put_all net pieces begun.0)
    pub closed : (close net (commit (put_all net pieces begun.0))).1 ≡ none
    pub calls_made :
        let create = create_multipart_upload server.bucket (upload_at s).key in
        calls (close net (commit (put_all net pieces begun.0))).0
        ≡ (calls s ++ create ∷ [])
          ++ part_calls server (upload_at s) 1 pieces
          ++ complete_multipart_upload server.bucket (completion_of s pieces) ∷ []

  upload_key-nonempty : (s : VeloCloudUploader) → (upload_at s).key ≢ ""
  unfolding s3_key_for_client_upload join
  upload_key-nonempty s e = cc (append-eq-nil_iff.0 e).0

  -- A new uploader over a network to a server that understands it, with an S3 that does what it is
  -- asked: starting it, putting any pieces, committing and closing it all succeed. S3 is asked to
  -- make an upload under the key of the uploader's request in the organisation of its token, to
  -- take each piece once, in order, with a part number that counts up from 1, and to put together
  -- the parts with just these numbers and the ETags that it gave for them.
  pub upload_reaches_s3 :
      (s : VeloCloudUploader) (pieces : List Bytes)
      → s.part ≡ 1
      → s.parts ≡ []
      → s.closed ≡ false
      → Understood (upload_request s) (completion_of s pieces) (upload_at s)
      → IsUploaded s pieces (start net s)
  upload_reaches_s3 s pieces first no_parts unclosed understood =
      let completion = completion_of s pieces in
      let (begun, created) = start-served completion s understood in
      let some_id = available.some_id (calls s) (upload_at s).key in
      let some_key = upload_key-nonempty s in
      let t = record s {
        sent = s.sent ++ start_request s ∷ [];
        key = (upload_at s).key;
        upload_id = (upload_at s).upload_id;
        upload_number = s.next_upload_id;
        next_upload_id = s.next_upload_id + 1;
      } in
      let h = put_all-served (upload_request s) completion pieces t understood some_id some_key in
      let end = put_all net pieces t in
      let same : completed_by end ≡ completion =
        rw (h.key, h.upload_id, h.parts_given, created, first, no_parts) in
      let at_end : upload_of end ≡ upload_at s = rw (h.key, h.upload_id) in
      let (shut, done) =
        close-served (upload_request s) end
          (subst (Understood (upload_request s) (completed_by end)) (sym at_end)
            (subst (λ c. Understood (upload_request s) c (upload_at s)) (sym same) understood))
          (λ e. some_id (sym h.upload_id ∙ e)) (λ e. some_key (sym h.key ∙ e))
          (h.closed ∙ unclosed) in
      subst (IsUploaded s pieces) (sym begun) (record {
        started = refl;
        sent = h.sent;
        closed = shut;
        calls_made = done ∙ rw (same, h.calls_made, created, first);
      })
