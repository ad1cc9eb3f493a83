-- ===== src/FileStore/Written.antt =====
-- What was written is what S3 took, and the buffer. What S3 took is read from the requests that were
-- sent and from its answers.
use cloudvelo.Prelude.{
  ℕ, zero, suc, String, List, [], ◌∷◌, ◌++◌, ◌+◌, Option, none, some, if◌then◌else◌, ltb, length,
  map, concat, drop, Result, ok, err, ◌≡◌, ◌≢◌, refl, ap, sym, ◌∙◌, ◌⊎◌, inl, inr, arith, subst,
  append-nil, append_assoc, concat-append, length-append, map-append, false, if_cases, ◌==◌, All,
  All-append, eq_iff,
}
use cloudvelo.FileStore.Writer.{
  Bytes, CompletedPart, S3, S3Writer, started, start, answered, accepted, part_request, tried,
  upload_retry, write_buf, write_full, write_started, write, flush_written, flush, close,
  max_retries, Request, create_upload, upload_part, complete_upload, delete_object,
}

-- A part that S3 took: the request that it answered with an etag.
pub record Taken : Type 0 where
  pub key : String
  pub upload_id : String
  pub part_number : ℕ
  pub body : Bytes
  pub etag : String

abbrev taken_if : String → String → ℕ → Bytes → Result String → List Taken
taken_if key upload_id n body (err e) = []
taken_if key upload_id n body (ok etag) =
    record { key = key; upload_id = upload_id; part_number = n; body = body; etag = etag } ∷ []

abbrev taken_one : S3 → List Request → Request → List Taken
taken_one s3 before (create_upload key) = []
taken_one s3 before (complete_upload key upload_id parts) = []
taken_one s3 before (delete_object key) = []
taken_one s3 before (upload_part key upload_id n body len) =
    taken_if key upload_id n body (s3.put before (upload_part key upload_id n body len)).1

-- The parts that S3 took of these requests, after those before.
abbrev pub taken : S3 → List Request → List Request → List Taken
taken s3 before [] = []
taken s3 before (request ∷ rest) =
    taken_one s3 before request ++ taken s3 (before ++ request ∷ []) rest

abbrev pub body_of : Taken → Bytes
body_of t = t.body

abbrev pub completed_of : Taken → CompletedPart
completed_of t = record { etag = t.etag; part_number = t.part_number }

-- The parts have the numbers from one on.
abbrev pub IsNumbered : ℕ → List Taken → Type 0
IsNumbered n [] = Unit
IsNumbered n (t ∷ ts) = (t.part_number ≡ n) × IsNumbered (n + 1) ts

-- The parts are of one key and one upload.
abbrev pub IsOfUpload : String → String → List Taken → Type 0
IsOfUpload key upload_id ts = All (λ (t : Taken). (t.key ≡ key) × (t.upload_id ≡ upload_id)) ts

-- With these parts taken, the writer holds the bytes: the parts, and then the buffer.
pub record Holds (ts : List Taken) (w : S3Writer) (bytes : Bytes) : Type 0 where
  pub held : concat (map body_of ts) ++ w.buf ≡ bytes
  pub numbered : IsNumbered 1 ts
  pub told : w.parts ≡ map completed_of ts
  pub next_part : w.part_number ≡ length ts + 1
  pub one_upload : IsOfUpload w.key w.upload_id ts
  pub begun : (w.upload_id ≢ "") ⊎ ((ts ≡ []) × (w.buf ≡ []))

-- The bytes are in the parts that S3 took of the writer's requests, and in the buffer.
abbrev pub HasBytes : S3 → S3Writer → Bytes → Type 0
HasBytes s3 w bytes = Holds (taken s3 [] w.sent) w bytes

-- A put that fails leaves the reader of its part at the start, and an upload has a name.
pub record IsRewinding (s3 : S3) : Type 0 where
  pub rewinds :
      (before : List Request) (request : Request) (e : String)
      → (s3.put before request).1 ≡ err e
      → (s3.put before request).0 ≡ 0
  pub named : (before : List Request) (key : String) → s3.create before key ≢ ok (some "")

IsNumbered-snoc :
    (n : ℕ) (ts : List Taken) (t : Taken)
    → IsNumbered n ts
    → t.part_number ≡ n + length ts
    → IsNumbered n (ts ++ t ∷ [])
IsNumbered-snoc n [] t h e = (omega (arith, e), tt)
IsNumbered-snoc n (q ∷ ts) t (e', h) e = (e', IsNumbered-snoc (n + 1) ts t h (omega (arith, e)))

taken-snoc :
    (s3 : S3) (before requests : List Request) (request : Request)
    → taken s3 before (requests ++ request ∷ [])
      ≡ taken s3 before requests ++ taken_one s3 (before ++ requests) request
taken-snoc s3 before [] request =
    append-nil _ ∙ ap (λ b. taken_one s3 b request) (sym (append-nil before))
taken-snoc s3 before (first ∷ rest) request =
    ap (λ ts. taken_one s3 before first ++ ts)
      (taken-snoc s3 (before ++ first ∷ []) rest request
        ∙ ap (λ b. taken s3 (before ++ first ∷ []) rest ++ taken_one s3 b request)
            (append_assoc before (first ∷ []) rest))
    ∙ sym (append_assoc (taken_one s3 before first) _ _)

-- One more part is taken, which is what was in the buffer.
accepted-Holds :
    (ts : List Taken) (w : S3Writer) (data_part bytes : Bytes) (etag : String)
    → w.buf ≡ []
    → w.upload_id ≢ ""
    → Holds ts (record w { buf = data_part }) bytes
    → Holds
        (ts ++ taken_if w.key w.upload_id w.part_number data_part (ok etag))
        (accepted etag w)
        bytes
accepted-Holds ts w data_part bytes etag empty named h =
    let new : Taken = record {
      key = w.key;
      upload_id = w.upload_id;
      part_number = w.part_number;
      body = data_part;
      etag = etag;
    } in
    record {
      held =
          ap (λ b. concat (map body_of (ts ++ new ∷ [])) ++ b) empty
          ∙ append-nil _
          ∙ ap concat (map-append body_of ts (new ∷ []))
          ∙ concat-append (map body_of ts) (data_part ∷ [])
          ∙ ap (λ b. concat (map body_of ts) ++ b) (append-nil data_part)
          ∙ h.held;
      numbered = IsNumbered-snoc 1 ts new h.numbered (omega (arith, h.next_part));
      told =
          ap (λ ps. ps ++ completed_of new ∷ []) h.told
          ∙ sym (map-append completed_of ts (new ∷ []));
      next_part = omega (arith, h.next_part, length-append ts (new ∷ []));
      one_upload = All-append _ ts (new ∷ []) h.one_upload ((refl, refl), tt);
      begun = inl named;
    }

module _ (s3 : S3) (rewinding : IsRewinding s3) where
  -- A request that is not taken changes nothing of what is held.
  passed-Holds :
      (w : S3Writer) (bytes : Bytes) (request : Request)
      → taken_one s3 w.sent request ≡ []
      → Holds (taken s3 [] w.sent) w bytes
      → HasBytes s3 (record w { sent = w.sent ++ request ∷ [] }) bytes
  passed-Holds w bytes request passed h =
      let next = record w { sent = w.sent ++ request ∷ [] } in
      subst (λ ts. Holds ts next bytes)
        (sym (
          taken-snoc s3 [] w.sent request
          ∙ ap (λ ts. taken s3 [] w.sent ++ ts) passed
          ∙ append-nil _))
        (record {
          held = h.held;
          numbered = h.numbered;
          told = h.told;
          next_part = h.next_part;
          one_upload = h.one_upload;
          begun = h.begun;
        })

  -- What is to be shown of a run of the loop.
  Uploaded : Bytes → S3Writer × Option String → Type 0
  Uploaded bytes run = run.1 ≡ none → HasBytes s3 run.0 bytes × ((run.0).buf ≡ [])

  answered-Uploaded :
      (w : S3Writer) (data_part bytes : Bytes) (later : String → S3Writer × Option String)
      (answer : Result String)
      → w.buf ≡ []
      → w.upload_id ≢ ""
      → HasBytes s3 (record w { buf = data_part }) bytes
      → (s3.put w.sent (part_request data_part data_part w)).1 ≡ answer
      → ((e : String)
          → (s3.put w.sent (part_request data_part data_part w)).1 ≡ err e
          → Uploaded bytes (later e))
      → Uploaded bytes (answered (tried data_part data_part w) later answer)
  unfolding answered Uploaded
  answered-Uploaded w data_part bytes later (err e) empty named h same again done =
      again e same done
  answered-Uploaded w data_part bytes later (ok etag) empty named h same again done =
      let ts = taken s3 [] w.sent in
      let got =
        accepted-Holds ts (tried data_part data_part w) data_part bytes etag empty named (record {
          held = h.held;
          numbered = h.numbered;
          told = h.told;
          next_part = h.next_part;
          one_upload = h.one_upload;
          begun = h.begun;
        }) in
      (
        subst (λ qs. Holds qs (accepted etag (tried data_part data_part w)) bytes)
            (sym (
              taken-snoc s3 [] w.sent (part_request data_part data_part w)
              ∙ ap (λ answer. ts ++ taken_if w.key w.upload_id w.part_number data_part answer)
                  same))
            got,
        empty,
      )

  upload_retry-Uploaded :
      (left : ℕ) (data_part bytes : Bytes) (w : S3Writer)
      → w.buf ≡ []
      → w.upload_id ≢ ""
      → HasBytes s3 (record w { buf = data_part }) bytes
      → Uploaded bytes (upload_retry s3 left data_part data_part w)
  unfolding upload_retry Uploaded
  upload_retry-Uploaded zero data_part bytes w empty named h =
      answered-Uploaded w data_part bytes (λ e. (tried data_part data_part w, some e)) _ empty named
        h refl (λ e same. failed (tried data_part data_part w) e)
    where
      failed : (v : S3Writer) (e : String) → Uploaded bytes (v, some e)
      failed v e done = cc done
  upload_retry-Uploaded (suc more) data_part bytes w empty named h =
      let request = part_request data_part data_part w in
      let next = tried data_part data_part w in
      answered-Uploaded w data_part bytes
        (λ e. upload_retry s3 more data_part (drop (s3.put w.sent request).0 data_part) next) _
        empty named h refl
        (λ e same.
          subst
            (λ position.
              Uploaded bytes (upload_retry s3 more data_part (drop position data_part) next))
            (sym (rewinding.rewinds w.sent request e same))
            (upload_retry-Uploaded more data_part bytes next empty named (
              passed-Holds (record w { buf = data_part }) bytes request
                (ap (taken_if w.key w.upload_id w.part_number data_part) same) h)))

  write_buf-Uploaded :
      (w : S3Writer) (bytes : Bytes)
      → w.upload_id ≢ ""
      → HasBytes s3 w bytes
      → Uploaded bytes (write_buf s3 w)
  unfolding write_buf
  write_buf-Uploaded w bytes named h =
      upload_retry-Uploaded max_retries w.buf bytes (record w { buf = [] }) refl named
        (record {
          held = h.held;
          numbered = h.numbered;
          told = h.told;
          next_part = h.next_part;
          one_upload = h.one_upload;
          begun = h.begun;
        })

  -- A run that keeps hold of the bytes, if it has no error.
  abbrev Kept : Bytes → S3Writer × Option String → Type 0
  Kept bytes run = run.1 ≡ none → HasBytes s3 run.0 bytes

  write_full-Kept :
      (w : S3Writer) (bytes : Bytes)
      → w.upload_id ≢ ""
      → HasBytes s3 w bytes
      → Kept bytes (write_full s3 w)
  unfolding write_full Uploaded
  write_full-Kept w bytes named h =
      if_cases (Kept bytes) (ltb w.part_size (length w.buf))
        (λ large done. (write_buf-Uploaded w bytes named h done).0) (λ small done. h)

  -- What is to be shown of a start.
  abbrev Begun : Bytes → S3Writer × Option String → Type 0
  Begun bytes run = run.1 ≡ none → HasBytes s3 run.0 bytes × ((run.0).upload_id ≢ "")

  start-Begun :
      (w : S3Writer) (bytes : Bytes)
      → w.upload_id ≡ ""
      → HasBytes s3 w bytes
      → Begun bytes (start s3 w)
  unfolding start started
  start-Begun w bytes unnamed h = go (s3.create w.sent w.key) refl
    where
      go :
          (answer : Result (Option String))
          → s3.create w.sent w.key ≡ answer
          → Begun bytes (started (record w { sent = w.sent ++ create_upload w.key ∷ [] }) answer)
      go (err e) same done = cc done
      go (ok none) same done = cc done
      go (ok (some id)) same done = elim h.begun [
        | inl named ↦ absurd (named unnamed)
        | inr (nothing, empty) ↦
            let k = passed-Holds w bytes (create_upload w.key) refl h in
            let id_named : id ≢ "" =
              λ e. rewinding.named w.sent w.key (same ∙ ap (λ x. ok (some x)) e) in
            let none_taken =
              taken-snoc s3 [] w.sent (create_upload w.key) ∙ append-nil _ ∙ nothing in
            (
              record {
                held = k.held;
                numbered = k.numbered;
                told = k.told;
                next_part = k.next_part;
                one_upload = subst (IsOfUpload w.key id) (sym none_taken) tt;
                begun = inl id_named;
              },
              id_named,
            )
      ]

  write_started-Kept :
      (bytes more : Bytes) (begun : S3Writer × Option String)
      → Begun bytes begun
      → Kept (bytes ++ more) (write_started s3 more begun)
  unfolding write_started
  write_started-Kept bytes more (w, some e) h done = cc done
  write_started-Kept bytes more (w, none) h done =
      let (k, named) = h refl in
      write_full-Kept (record w { buf = w.buf ++ more }) (bytes ++ more) named
        (record {
          held =
              sym (append_assoc (concat (map body_of (taken s3 [] w.sent))) w.buf more)
              ∙ ap (λ b. b ++ more) k.held;
          numbered = k.numbered;
          told = k.told;
          next_part = k.next_part;
          one_upload = k.one_upload;
          begun = inl named;
        })
        done

  -- If a put that fails leaves the reader of its part at the start, and S3 gives no upload an empty
  -- id, a write without an error adds its bytes to what the writer holds: the bodies of the part
  -- requests that S3 answered with an etag, and then the buffer, are all bytes in order; these
  -- requests are numbered from 1, they are of the writer's key and upload, and the writer's parts
  -- have their numbers and etags.
  pub write-HasBytes :
      (w : S3Writer) (bytes more : Bytes)
      → HasBytes s3 w bytes
      → (write s3 more w).1 ≡ none
      → HasBytes s3 (write s3 more w).0 (bytes ++ more)
  unfolding write
  write-HasBytes w bytes [] h done = subst (HasBytes s3 w) (sym (append-nil bytes)) h
  write-HasBytes w bytes (b ∷ more) h done =
      write_started-Kept bytes (b ∷ more) (if w.upload_id == "" then start s3 w else (w, none))
        (if_cases (Begun bytes) (w.upload_id == "")
          (λ unnamed. start-Begun w bytes ((eq_iff w.upload_id "").0 unnamed) h)
          (λ named done. (h, λ e. cc (named, (eq_iff w.upload_id "").1 e))))
        done

  length-zero : (xs : Bytes) → ltb 0 (length xs) ≡ false → xs ≡ []
  length-zero [] e = refl
  length-zero (x ∷ xs) e = absurd (ground (arith, e))

  -- The parts that S3 took of these requests are all the bytes, and the next request completes them.
  abbrev pub IsComplete : String → String → List Request → Bytes → List Request → Type 0
  IsComplete key upload_id before bytes sent =
      let ts = taken s3 [] before in
      (concat (map body_of ts) ≡ bytes)
      × IsNumbered 1 ts
      × IsOfUpload key upload_id ts
      × (sent ≡ before ++ complete_upload key upload_id (map completed_of ts) ∷ [])

  flush_written-exact :
      (bytes : Bytes) (written : S3Writer × Option String)
      → Uploaded bytes written
      → (flush_written s3 written).1 ≡ none
      → let w' = (flush_written s3 written).0 in
        (before : List Request) × IsComplete w'.key w'.upload_id before bytes w'.sent
  unfolding flush_written Uploaded
  flush_written-exact bytes (w, some e) h done = cc done
  flush_written-exact bytes (w, none) h done =
      let (has, empty) = h refl in
      let ts = taken s3 [] w.sent in
      (
        w.sent,
        (
          sym (append-nil _) ∙ ap (λ b. concat (map body_of ts) ++ b) (sym empty) ∙ has.held,
          has.numbered,
          has.one_upload,
          ap (λ ps. w.sent ++ complete_upload w.key w.upload_id ps ∷ []) has.told,
        ),
      )

  -- If a put that fails leaves the reader of its part at the start, and S3 gives no upload an empty
  -- id, then after a close without an error of a writer that holds some bytes, the bodies of the
  -- part requests that S3 answered with an etag are all these bytes, in order; they are numbered
  -- from 1 and of the writer's key and upload; and the last request asks S3 to complete that upload
  -- with just their numbers and etags.
  pub close_exact :
      (w : S3Writer) (bytes : Bytes)
      → HasBytes s3 w bytes
      → (close s3 w).1 ≡ none
      → let w' = (close s3 w).0 in
        (before : List Request) × IsComplete w'.key w'.upload_id before bytes w'.sent
  unfolding close flush Uploaded
  close_exact w bytes h done =
      flush_written-exact bytes (if ltb 0 (length w.buf) then write_buf s3 w else (w, none))
        (if_cases (Uploaded bytes) (ltb 0 (length w.buf))
          (λ full. elim h.begun [
            | inl named ↦ write_buf-Uploaded w bytes named h
            | inr (nothing, empty) ↦ absurd (ground (arith, full, ap length empty))
          ])
          (λ small e. (h, length-zero w.buf small)))
        done
