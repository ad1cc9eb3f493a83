-- ===== src/Uploads/Uploader/Closing.antt =====
-- Closing the upload, and what the query is told.
use cloudvelo.Prelude.{
  ℕ, String, List, [], ◌∷◌, ◌++◌, Option, none, true, false, not, nat_eq, length, concat, ◌≡◌, refl,
  ap, sym, ◌∙◌, ◌⊎◌, inl, inr, arith, Bool-cases, Result, ok, err, append-nil, concat-append, subst,
  if_true, if_false, if_elim,
}
use cloudvelo.Uploads.Api.{Bytes}
use cloudvelo.Uploads.Buffer.Whole.{Delivered, as_one, in_parts}
use cloudvelo.Uploads.Uploader.{
  VeloCloudUploader, Network, HttpResponse, HttpRequest, VqlResponse, commit, close, close_answered,
  update_server_stat, completion_request, own_response, get_vql_response, velo_cloud_uploader,
  OsPath,
}
use cloudvelo.Uploads.Uploader.Requests.{IsPut, put-IsPut, Sent-IsPut, put_requests}

close_answered-closed :
    (s : VeloCloudUploader) (answer : Result HttpResponse)
    → s.closed ≡ true
    → ((close_answered s answer).0).closed ≡ true
unfolding close_answered update_server_stat
close_answered-closed s (err e) h = h
close_answered-closed s (ok resp) h =
    if_elim (λ (x : VeloCloudUploader × Option String). (x.0).closed ≡ true)
      (not (nat_eq resp.status_code 200)) h h

close-closed : (net : Network) (s : VeloCloudUploader) → ((close net s).0).closed ≡ true
unfolding close
close-closed net s = elim (Bool-cases s.closed) [
  | inl shut ↦ ap (λ (x : VeloCloudUploader × Option String). (x.0).closed) (if_true _ shut) ∙ shut
  | inr unclosed ↦
      ap (λ (x : VeloCloudUploader × Option String). (x.0).closed) (if_false _ unclosed)
      ∙ close_answered-closed _ (net.do_ s.sent (completion_request s)) refl
]

-- A second close sends no request, reports nothing and gives no error, however the first one ended.
pub close_idempotent :
    (net : Network) (s : VeloCloudUploader) → close net (close net s).0 ≡ ((close net s).0, none)
unfolding close
close_idempotent net s = if_true _ (close-closed net s)

close_answered-sent :
    (s : VeloCloudUploader) (answer : Result HttpResponse)
    → ((close_answered s answer).0).sent ≡ s.sent
unfolding close_answered update_server_stat
close_answered-sent s (err e) = refl
close_answered-sent s (ok resp) =
    if_elim (λ (x : VeloCloudUploader × Option String). (x.0).sent ≡ s.sent)
      (not (nat_eq resp.status_code 200)) refl refl

close-sent :
    (net : Network) (s : VeloCloudUploader)
    → s.closed ≡ false
    → ((close net s).0).sent ≡ s.sent ++ completion_request s ∷ []
unfolding close
close-sent net s unclosed =
    ap (λ (x : VeloCloudUploader × Option String). (x.0).sent) (if_false _ unclosed)
    ∙ close_answered-sent _ (net.do_ s.sent (completion_request s))

-- An uploader that is not closed asks the server on `close` to complete the upload with its parts,
-- whether or not `commit` was called before.
pub close_without_commit :
    (net : Network) (s : VeloCloudUploader)
    → s.closed ≡ false
    → (((close net s).0).sent ≡ s.sent ++ completion_request s ∷ [])
      × (((close net (commit s)).0).sent ≡ s.sent ++ completion_request s ∷ [])
unfolding commit
close_without_commit net s unclosed =
    (close-sent net s unclosed, close-sent net (commit s) unclosed)

-- What the query is told of an upload stays.
abbrev Kept : VeloCloudUploader → VeloCloudUploader → Type 0
Kept s t =
    (t.response ≡ s.response) × (t.hashed ≡ s.hashed) × (t.offset ≡ s.offset) × (t.path ≡ s.path)

close_answered-Kept :
    (s : VeloCloudUploader) (answer : Result HttpResponse)
    → (close_answered s answer).1 ≡ none
    → Kept s (close_answered s answer).0
unfolding close_answered update_server_stat
close_answered-Kept s (err e) h = cc h
close_answered-Kept s (ok resp) h = elim (Bool-cases (not (nat_eq resp.status_code 200))) [
  | inl bad ↦ cc (ap (λ (x : VeloCloudUploader × Option String). x.1) (sym (if_true _ bad)) ∙ h)
  | inr good ↦
      subst (λ (x : VeloCloudUploader × Option String). Kept s x.0) (sym (if_false _ good))
        (refl, refl, refl, refl)
]

close-Kept :
    (net : Network) (s : VeloCloudUploader) → (close net s).1 ≡ none → Kept s (close net s).0
unfolding close
close-Kept net s h = elim (Bool-cases s.closed) [
  | inl shut ↦
      subst (λ (x : VeloCloudUploader × Option String). Kept s x.0) (sym (if_true _ shut))
        (refl, refl, refl, refl)
  | inr unclosed ↦
      let same = if_false (s, none) unclosed in
      subst (λ (x : VeloCloudUploader × Option String). Kept s x.0) (sym same)
        (close_answered-Kept _ (net.do_ s.sent (completion_request s))
          (ap (λ (x : VeloCloudUploader × Option String). x.1) (sym same) ∙ h))
]

-- The answer to the query for an upload of these bytes.
abbrev pub response_for : Network → OsPath → Bytes → VqlResponse
response_for net path bytes = record {
  path = path.text;
  stored_name = path.text;
  size = length bytes;
  stored_size = length bytes;
  sha256 = net.sha256 bytes;
  md5 = net.md5 bytes;
  error = "";
}

response_of :
    (net : Network) (path : OsPath) (bytes : Bytes) (s : VeloCloudUploader)
    → s.response ≡ none
    → s.hashed ≡ bytes
    → s.offset ≡ length bytes
    → s.path ≡ path
    → get_vql_response net s ≡ response_for net path bytes
unfolding get_vql_response
response_of net path bytes s no_response h o p =
    ap (own_response net s) no_response
    ∙ ap (λ (bs : Bytes). own_response net (record s { hashed = bs }) none) h
    ∙ ap (λ (n : ℕ). own_response net (record s { hashed = bytes; offset = n }) none) o
    ∙ ap
        (λ (q : OsPath).
          own_response net (record s { hashed = bytes; offset = length bytes; path = q }) none)
        p

-- An uploader as `start` leaves a new one.
pub record IsFresh (s : VeloCloudUploader) : Type 0 where
  pub hashed : s.hashed ≡ []
  pub offset : s.offset ≡ 0
  pub part : s.part ≡ 1
  pub parts : s.parts ≡ []
  pub response : s.response ≡ none
  pub closed : s.closed ≡ false

-- The pieces of a file arrived, and then the requests `rest`.
abbrev pub IsArrived :
    VeloCloudUploader → Bytes → List Bytes → List HttpRequest → VeloCloudUploader → Type 0
IsArrived s bytes pieces rest end =
    (concat pieces ≡ bytes) × (end.sent ≡ s.sent ++ put_requests s.key s.upload_id 1 pieces ++ rest)

arrived :
    (net : Network) (s t end : VeloCloudUploader) (bytes : Bytes) (pieces : List Bytes)
    (rest : List HttpRequest)
    → IsFresh s
    → concat pieces ≡ bytes
    → IsPut s pieces t
    → Kept t end
    → end.sent ≡ t.sent ++ rest
    → (get_vql_response net end ≡ response_for net s.path bytes) × IsArrived s bytes pieces rest end
arrived net s t end bytes pieces rest fresh is_bytes put_all
      (k_response, k_hashed, k_offset, k_path) after =
    (
      response_of net s.path bytes end (k_response ∙ put_all.response ∙ fresh.response)
          (k_hashed ∙ put_all.hashed ∙ ap (λ bs. bs ++ concat pieces) fresh.hashed ∙ is_bytes)
          (omega (arith, k_offset, put_all.offset, fresh.offset, ap length is_bytes))
          (k_path ∙ put_all.path),
      (
        is_bytes,
        after
            ∙ ap (λ l. l ++ rest) put_all.requests
            ∙ ap (λ n. s.sent ++ put_requests s.key s.upload_id n pieces ++ rest) fresh.part,
      ),
    )

-- An uploader that was just started was given a file's bytes by the buffer, which was closed,
-- without an error. Then the query is told the number of these bytes and their hashes, and the
-- server got them in put requests, in order and with part numbers that count up from 1. Nothing
-- follows if the file went in one piece, which is then left to be closed; otherwise one request
-- follows, which completes the upload with as many parts as were put.
pub Delivered-exact :
    (net : Network) (s end : VeloCloudUploader) (bytes : Bytes)
    → IsFresh s
    → Delivered (velo_cloud_uploader net) s bytes end
    → (get_vql_response net end ≡ response_for net s.path bytes)
      × ((pieces : List Bytes) × (rest : List HttpRequest) × IsArrived s bytes pieces rest end
          × (((rest ≡ []) × (pieces ≡ bytes ∷ []) × (end.closed ≡ false))
              ⊎ ((t : VeloCloudUploader) × (rest ≡ completion_request t ∷ [])
                  × (t.key ≡ s.key)
                  × (t.upload_id ≡ s.upload_id)
                  × (length t.parts ≡ length pieces))))
unfolding velo_cloud_uploader commit
Delivered-exact net s end bytes fresh (as_one small whole) =
    let put_e = ap (λ (x : VeloCloudUploader × Option String). x.0) whole in
    let put_all =
      subst (IsPut s (bytes ∷ [])) put_e
        (put-IsPut net bytes s (ap (λ (x : VeloCloudUploader × Option String). x.1) whole)) in
    let (told, got) =
      arrived net s end end bytes (bytes ∷ []) [] fresh (append-nil bytes) put_all
        (refl, refl, refl, refl) (sym (append-nil end.sent)) in
    (told, (bytes ∷ [], [], got, inl (refl, refl, put_all.closed ∙ fresh.closed)))
Delivered-exact net s end bytes fresh (in_parts parts last sent full small is_bytes done finished) =
    let pieces = parts ++ last ∷ [] in
    let put_all = Sent-IsPut net pieces s sent done in
    let end_e = ap (λ (x : VeloCloudUploader × Option String). x.0) finished in
    let (told, got) =
      arrived net s sent end bytes pieces (completion_request sent ∷ []) fresh
        (concat-append parts (last ∷ [])
          ∙ ap (λ bs. concat parts ++ bs) (append-nil last)
          ∙ is_bytes)
        put_all
        (subst (Kept sent) end_e (
          close-Kept net (commit sent)
            (ap (λ (x : VeloCloudUploader × Option String). x.1) finished)))
        (ap (λ (x : VeloCloudUploader). x.sent) (sym end_e)
          ∙ close-sent net (commit sent) (put_all.closed ∙ fresh.closed)) in
    (
      told,
      (
        pieces,
        completion_request sent ∷ [],
        got,
        inr (
          sent,
          refl,
          put_all.key,
          put_all.upload_id,
          omega (arith, put_all.parts, ap length fresh.parts),
        ),
      ),
    )
