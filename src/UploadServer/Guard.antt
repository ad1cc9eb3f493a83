-- ===== src/UploadServer/Guard.antt =====
-- What a request may make S3 do.
use cloudvelo.Prelude.{
  ℕ, zero, suc, String, List, [], ◌∷◌, ◌++◌, Option, none, some, Bool, true, false, ◌||◌, ◌==◌,
  length, drop, ◌≤◌, arith, ◌≡◌, ◌≢◌, refl, sym, ap, ◌∙◌, ◌⊎◌, inl, inr, Result, ok, err, All,
  All-append, append_assoc, append-nil, subst, if_cases, option_elim, result_elim, Result-cases,
  eq_refl,
}
use cloudvelo.Uploads.Api.{Bytes}
use cloudvelo.Uploads.Uploader.{UploadRequest}
use cloudvelo.UploadServer.{
  Server, S3, S3Call, create_multipart_upload, upload_part, complete_multipart_upload, Request,
  PartRequest, UploadPartInput, Handled, verify_token, upload_key, or_forbidden, or_status, created,
  start_multipart_upload, next_input, try_part, part_input, is_bad_part, is_negative, part_answered,
  extract_upload_request, get_upload_part, completed, max_retries,
  complete_multipart_upload_handler, Endpoint, upload_start, upload_put, upload_commit,
  upload_abort, abort_multipart_upload, serve,
}

-- A call that this request may cause: in the server's bucket. A new upload is of a key of the
-- organisation. A part, and the end of an upload, are of the key and the upload id that the request
-- names, of whatever organisation, neither of them empty. The number of a part is not negative, and
-- its bytes are no more than the length that is told.
abbrev pub IsAllowed : Server → Request → String → S3Call → Type 0
IsAllowed self r org_id (create_multipart_upload bucket key) =
    (bucket ≡ self.bucket)
    × (body : Bytes) × (request : UploadRequest) × (r.body ≡ ok body)
    × (self.decode_start body ≡ ok (some request))
    × (key ≡ upload_key self org_id request)
IsAllowed self r org_id (upload_part input) =
    (input.bucket ≡ self.bucket)
    × (named : PartRequest) × (extract_upload_request self r.query ≡ ok named)
    × (input.key ≡ named.key)
    × (input.upload_id ≡ named.upload_id)
    × (input.part_number ≡ named.part)
    × (input.key ≢ "")
    × (input.upload_id ≢ "")
    × (is_negative input.part_number ≡ false)
    × (length input.body ≤ input.content_length)
IsAllowed self r org_id (complete_multipart_upload bucket request) =
    (bucket ≡ self.bucket)
    × (body : Bytes) × (r.body ≡ ok body)
    × (self.decode_completion body ≡ ok (some request))
    × (request.key ≢ "")
    × (request.upload_id ≢ "")

-- Calls were added to those so far, each of which satisfies `P`.
abbrev pub Adds : (S3Call → Type 0) → List S3Call → List S3Call → Type 0
Adds P calls later = (added : List S3Call) × (later ≡ calls ++ added) × All P added

-- A request is answered after calls that it may cause with its token's organisation; where the
-- token is not verified, there is no call.
abbrev pub IsGuarded : Server → List S3Call → Request → List S3Call → Type 0
IsGuarded self calls r later =
    ((e : String) × (verify_token self r ≡ err e) × (later ≡ calls))
    ⊎ ((org_id : String) × (verify_token self r ≡ ok org_id)
        × Adds (IsAllowed self r org_id) calls later)

module _ (P : S3Call → Type 0) where
  Adds-none : (calls : List S3Call) → Adds P calls calls
  Adds-none calls = ([], sym (append-nil calls), tt)

  Adds-one : (calls : List S3Call) (call : S3Call) → P call → Adds P calls (calls ++ call ∷ [])
  Adds-one calls call p = (call ∷ [], refl, (p, tt))

  Adds-trans : (a b c : List S3Call) → Adds P a b → Adds P b c → Adds P a c
  Adds-trans a b c (xs, ab, p) (ys, bc, q) =
      (xs ++ ys, bc ∙ ap (λ l. l ++ ys) ab ∙ append_assoc a xs ys, All-append P xs ys p q)

  or_status-Adds :
      {A : Type 0} (status : ℕ) (calls : List S3Call) (result : Result A) (next : A → Handled)
      → ((a : A) → result ≡ ok a → Adds P calls (next a).0)
      → Adds P calls (or_status status calls result next).0
  or_status-Adds status calls (err e) next h = Adds-none calls
  or_status-Adds status calls (ok a) next h = h a refl

  try_part-Adds :
      (s3 : S3) (data_ : Bytes) (input : UploadPartInput) (n : ℕ) (calls : List S3Call)
      → P (upload_part input)
      → ((position : ℕ) → P (upload_part (record input { body = drop position data_ })))
      → Adds P calls (try_part s3 data_ input n calls).0
  unfolding try_part
  try_part-Adds s3 data_ input zero calls p later = Adds-one calls (upload_part input) p
  try_part-Adds s3 data_ input (suc n) calls p later =
      result_elim (λ (run : List S3Call × Result (Option String)). Adds P calls run.0)
        (s3.put_part calls input).1
        (λ text e.
          Adds-trans calls (calls ++ upload_part input ∷ []) _
            (Adds-one calls (upload_part input) p)
            (try_part-Adds s3 data_ (next_input s3 data_ calls input) n
              (calls ++ upload_part input ∷ []) (later (s3.put_part calls input).0) later))
        (λ etag e. Adds-one calls (upload_part input) p)

length-drop_le : {A : Type 0} (n : ℕ) (xs : List A) → length (drop n xs) ≤ length xs
length-drop_le zero xs = omega arith
length-drop_le (suc n) [] = omega arith
length-drop_le (suc n) (x ∷ xs) = omega (arith, length-drop_le n xs)

or_forbidden-IsGuarded :
    (self : Server) (calls : List S3Call) (r : Request) (token : Result String)
    (next : String → Handled)
    → verify_token self r ≡ token
    → ((org_id : String) → Adds (IsAllowed self r org_id) calls (next org_id).0)
    → IsGuarded self calls r (or_forbidden calls token next).0
or_forbidden-IsGuarded self calls r (err e) next same h = inl (e, same, refl)
or_forbidden-IsGuarded self calls r (ok org_id) next same h = inr (org_id, same, h org_id)

created-calls :
    (self : Server) (key : String) (calls : List S3Call) (answer : Result (Option String))
    → (created self key calls answer).0 ≡ calls
unfolding created
created-calls self key calls (err e) = refl
created-calls self key calls (ok none) = refl
created-calls self key calls (ok (some upload_id)) = refl

completed-calls : (calls : List S3Call) (e : Option String) → (completed calls e).0 ≡ calls
unfolding completed
completed-calls calls none = refl
completed-calls calls (some e) = refl

part_answered-calls :
    (self : Server) (req : PartRequest) (run : List S3Call × Result (Option String))
    → (part_answered self req run).0 ≡ run.0
unfolding part_answered
part_answered-calls self req (calls, err e) = refl
part_answered-calls self req (calls, ok etag) = refl

-- What a test of a text against the empty one says.
==-nonempty : (s : String) → (s == "") ≡ false → s ≢ ""
==-nonempty s h e = cc (h, ap (λ t. t == "") e, eq_refl "")

||-false : (a b : Bool) → (a || b) ≡ false → (a ≡ false) × (b ≡ false)
||-false true b h = cc h
||-false false b h = (refl, h)

nonempty-both :
    (bad : Bool) (a b : String)
    → (bad || a == "" || b == "") ≡ false
    → (bad ≡ false) × (a ≢ "") × (b ≢ "")
nonempty-both bad a b h =
    let (front, of_b) = ||-false (bad || a == "") (b == "") h in
    let (good, of_a) = ||-false bad (a == "") front in
    (good, ==-nonempty a of_a, ==-nonempty b of_b)

start-IsGuarded :
    (self : Server) (calls : List S3Call) (r : Request)
    → IsGuarded self calls r (start_multipart_upload self calls r).0
unfolding start_multipart_upload
start-IsGuarded self calls r =
    or_forbidden-IsGuarded self calls r (verify_token self r) _ refl λ org_id.
      let P = IsAllowed self r org_id in
      or_status-Adds P 503 calls r.body _ λ serialized is_body.
        or_status-Adds P 503 calls (self.decode_start serialized) _ λ decoded read.
          option_elim (λ (h : Handled). Adds P calls h.0) decoded (Adds-none P calls)
            (λ request e.
              let key = upload_key self org_id request in
              let call = create_multipart_upload self.bucket key in
              subst (Adds P calls)
                (sym (
                  created-calls self key (calls ++ call ∷ [])
                    ((self.s3).create calls self.bucket key)))
                (Adds-one P calls call (refl, serialized, request, is_body, read ∙ ap ok e, refl)))

put-IsGuarded :
    (self : Server) (calls : List S3Call) (r : Request)
    → IsGuarded self calls r (get_upload_part self calls r).0
unfolding get_upload_part
put-IsGuarded self calls r =
    or_forbidden-IsGuarded self calls r (verify_token self r) _ refl λ org_id.
      let P = IsAllowed self r org_id in
      result_elim (λ (h : Handled). Adds P calls h.0) (extract_upload_request self r.query)
        (λ e same. Adds-none P calls)
        (λ req same.
          if_cases (λ (h : Handled). Adds P calls h.0) (is_bad_part req) (λ bad. Adds-none P calls)
            (λ good. or_status-Adds P 400 calls r.body _ λ serialized is_body.
              let (positive, id, key) =
                nonempty-both (is_negative req.part) req.upload_id req.key good in
              subst (Adds P calls) (sym (part_answered-calls self req _)) (
                try_part-Adds P self.s3 serialized (part_input self req serialized) max_retries
                  calls (refl, req, same, refl, refl, refl, key, id, positive, omega arith)
                  (λ position. (
                    refl,
                    req,
                    same,
                    refl,
                    refl,
                    refl,
                    key,
                    id,
                    positive,
                    length-drop_le position serialized,
                  )))))

commit-IsGuarded :
    (self : Server) (calls : List S3Call) (r : Request)
    → IsGuarded self calls r (complete_multipart_upload_handler self calls r).0
unfolding complete_multipart_upload_handler
commit-IsGuarded self calls r =
    or_forbidden-IsGuarded self calls r (verify_token self r) _ refl λ org_id.
      let P = IsAllowed self r org_id in
      or_status-Adds P 503 calls r.body _ λ serialized is_body.
        or_status-Adds P 503 calls (self.decode_completion serialized) _ λ decoded read.
          option_elim (λ (h : Handled). Adds P calls h.0) decoded (Adds-none P calls)
            (λ request e.
              if_cases (λ (h : Handled). Adds P calls h.0)
                (request.upload_id == "" || request.key == "") (λ bad. Adds-none P calls)
                (λ good.
                  let (ok_, id, key) = nonempty-both false request.upload_id request.key good in
                  let call = complete_multipart_upload self.bucket request in
                  subst (Adds P calls)
                    (sym (
                      completed-calls (calls ++ call ∷ [])
                        ((self.s3).complete calls self.bucket request)))
                    (Adds-one P calls call (refl, serialized, is_body, read ∙ ap ok e, key, id))))

-- A request whose token is not verified makes S3 do nothing. Any other request adds only calls in the
-- server's bucket: the start of an upload under a key of the token's organisation, or parts or the end
-- of the upload that the request names, of whatever organisation that is, with a key and an upload
-- id that are not empty, and for a part with its number, that is not negative.
pub serve-IsGuarded :
    (self : Server) (endpoint : Endpoint) (calls : List S3Call) (r : Request)
    → IsGuarded self calls r (serve self endpoint calls r).0
unfolding serve abort_multipart_upload
serve-IsGuarded self upload_start calls r = start-IsGuarded self calls r
serve-IsGuarded self upload_put calls r = put-IsGuarded self calls r
serve-IsGuarded self upload_commit calls r = commit-IsGuarded self calls r
serve-IsGuarded self upload_abort calls r = elim (Result-cases (verify_token self r)) [
  | inr (e, same) ↦ inl (e, same, refl)
  | inl (org_id, same) ↦ inr (org_id, same, Adds-none (IsAllowed self r org_id) calls)
]
