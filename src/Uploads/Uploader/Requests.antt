-- ===== src/Uploads/Uploader/Requests.antt =====
-- The requests to the server, and the answer to the query.
use cloudvelo.Prelude.{
  ℕ, String, List, [], ◌∷◌, ◌++◌, ◌+◌, Option, none, some, false, not, nat_eq, length, concat, ◌≡◌,
  refl, ap, sym, ◌∙◌, inl, inr, arith, Bool-cases, Result, ok, err, length-append, append-nil,
  append_assoc, subst, if_true, if_false,
}
use cloudvelo.Uploads.Api.{Bytes, Sent}
use cloudvelo.Uploads.Uploader.{
  VeloCloudUploader, Network, HttpResponse, HttpRequest, put_part, CompletedPart, VqlResponse, put,
  put_answered, put_decoded, commit, close, close_answered, update_server_stat, put_request,
  completion_request, get_vql_response, velo_cloud_uploader,
}

-- Put requests for these pieces, with consecutive part numbers.
abbrev pub put_requests : String → String → ℕ → List Bytes → List HttpRequest
put_requests key upload_id part [] = []
put_requests key upload_id part (piece ∷ pieces) =
    put_part (record { key = key; upload_id = upload_id; part_number = part }) piece
    ∷ put_requests key upload_id (part + 1) pieces

-- From `s` to `end` these pieces were put, and nothing else.
pub record IsPut (s : VeloCloudUploader) (pieces : List Bytes) (end : VeloCloudUploader)
    : Type 0 where
  pub requests : end.sent ≡ s.sent ++ put_requests s.key s.upload_id s.part pieces
  pub hashed : end.hashed ≡ s.hashed ++ concat pieces
  pub offset : end.offset ≡ s.offset + length (concat pieces)
  pub part : end.part ≡ s.part + length pieces
  pub parts : length end.parts ≡ length s.parts + length pieces
  pub key : end.key ≡ s.key
  pub upload_id : end.upload_id ≡ s.upload_id
  pub response : end.response ≡ s.response
  pub closed : end.closed ≡ s.closed
  pub path : end.path ≡ s.path

put_decoded-none :
    (buf : Bytes) (self : VeloCloudUploader) (decoded : Result CompletedPart)
    → (put_decoded buf self decoded).1 ≡ none
    → (completed : CompletedPart) × ((put_decoded buf self decoded).0
        ≡ record (update_server_stat false
            (length buf)
            (record self { part = self.part + 1; parts = self.parts ++ completed ∷ [] })) {
              offset = self.offset + length buf;
            })
unfolding put_decoded update_server_stat
put_decoded-none buf self (err e) h = cc h
put_decoded-none buf self (ok completed) h = (completed, refl)

put_answered-none :
    (net : Network) (buf : Bytes) (self : VeloCloudUploader) (answer : Result HttpResponse)
    → (put_answered net buf self answer).1 ≡ none
    → (completed : CompletedPart) × ((put_answered net buf self answer).0
        ≡ record (update_server_stat false
            (length buf)
            (record self { part = self.part + 1; parts = self.parts ++ completed ∷ [] })) {
              offset = self.offset + length buf;
            })
unfolding put_answered
put_answered-none net buf self (err e) h = cc h
put_answered-none net buf self (ok resp) h = elim (Bool-cases (not (nat_eq resp.status_code 200))) [
  | inl bad ↦ cc (ap (λ (x : VeloCloudUploader × Option String). x.1) (sym (if_true _ bad)) ∙ h)
  | inr good ↦
      let same =
        if_false (self, some (cloudvelo.Uploads.Uploader.status_error "Unable to put part: " resp))
          good in
      let (completed, after) =
        put_decoded-none buf self (net.decode_part resp.body)
          (ap (λ (x : VeloCloudUploader × Option String). x.1) (sym same) ∙ h) in
      (completed, ap (λ (x : VeloCloudUploader × Option String). x.0) same ∙ after)
]

pub put-IsPut :
    (net : Network) (buf : Bytes) (s : VeloCloudUploader)
    → (put net buf s).1 ≡ none
    → IsPut s (buf ∷ []) (put net buf s).0
unfolding put update_server_stat
put-IsPut net buf s h =
    let (completed, after) = put_answered-none net buf _ (net.do_ s.sent (put_request buf s)) h in
    subst (IsPut s (buf ∷ [])) (sym after) (record {
      requests = refl;
      hashed = ap (λ bs. s.hashed ++ bs) (sym (append-nil buf));
      offset = ap (λ bs. s.offset + length bs) (sym (append-nil buf));
      part = refl;
      parts = length-append s.parts (completed ∷ []);
      key = refl;
      upload_id = refl;
      response = refl;
      closed = refl;
      path = refl;
    })

IsPut-nil : (s : VeloCloudUploader) → IsPut s [] s
IsPut-nil s = record {
  requests = sym (append-nil s.sent);
  hashed = sym (append-nil s.hashed);
  offset = omega arith;
  part = omega arith;
  parts = omega arith;
  key = refl;
  upload_id = refl;
  response = refl;
  closed = refl;
  path = refl;
}

IsPut-cons :
    (s t v : VeloCloudUploader) (piece : Bytes) (pieces : List Bytes)
    → IsPut s (piece ∷ []) t
    → IsPut t pieces v
    → IsPut s (piece ∷ pieces) v
IsPut-cons s t v piece pieces a b = record {
  requests =
      b.requests
      ∙ ap (λ done. done ++ put_requests t.key t.upload_id t.part pieces) a.requests
      ∙ append_assoc s.sent _ _
      ∙ ap (λ k. s.sent ++ first ∷ put_requests k t.upload_id t.part pieces) a.key
      ∙ ap (λ i. s.sent ++ first ∷ put_requests s.key i t.part pieces) a.upload_id
      ∙ ap (λ n. s.sent ++ first ∷ put_requests s.key s.upload_id n pieces) a.part;
  hashed =
      b.hashed
      ∙ ap (λ bs. bs ++ concat pieces) a.hashed
      ∙ append_assoc s.hashed (piece ++ []) (concat pieces)
      ∙ ap (λ bs. s.hashed ++ (bs ++ concat pieces)) (append-nil piece);
  offset =
      omega
        (arith, a.offset, b.offset, length-append piece (concat pieces), length-append piece []);
  part = omega (arith, a.part, b.part);
  parts = omega (arith, a.parts, b.parts);
  key = b.key ∙ a.key;
  upload_id = b.upload_id ∙ a.upload_id;
  response = b.response ∙ a.response;
  closed = b.closed ∙ a.closed;
  path = b.path ∙ a.path;
}
  where
    first : HttpRequest
    first = put_part (record { key = s.key; upload_id = s.upload_id; part_number = s.part }) piece

-- The pieces of an upload whose puts all succeeded, seen from the server: each arrived in one put
-- request, in order, with part numbers that count up, under the key of the upload. The uploader has
-- as many more completed parts, and its offset and its hashes moved by just these bytes.
pub Sent-IsPut :
    (net : Network) (pieces : List Bytes) (s end : VeloCloudUploader)
    → Sent (velo_cloud_uploader net) s pieces end
    → IsPut s pieces end
unfolding velo_cloud_uploader
Sent-IsPut net [] s end e = subst (IsPut s []) e (IsPut-nil s)
Sent-IsPut net (piece ∷ pieces) s end (accepted, rest) =
    IsPut-cons s (put net piece s).0 end piece pieces (put-IsPut net piece s accepted)
      (Sent-IsPut net pieces (put net piece s).0 end rest)
