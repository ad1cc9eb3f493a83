-- ===== src/Uploads/Sparse/Stored.antt =====
-- What a sparse upload stores, and what it tells of it.
use cloudvelo.Prelude.{
  String, List, [], ◌++◌, ◌≤◌, ◌<◌, Option, none, some, true, false, if◌then◌else◌, length, concat,
  All, ◌≡◌, refl, ap, sym, ◌∙◌, ◌⊎◌, inl, inr, arith, Bool-cases, Result, ok, err, ok_injective,
  subst, if_true, if_false,
}
use cloudvelo.Uploads.Api.{Bytes, CloudUploader, IndexRange, Sent}
use cloudvelo.Uploads.Buffer.{BufferedWriter, new_buffer_writer, buff_size, flush, close}
use cloudvelo.Uploads.Buffer.Copy.{Buffered}
use cloudvelo.Uploads.Buffer.Whole.{with_uploader-none, closed-none, flush-none}
use cloudvelo.Uploads.Uploader.{VqlResponse}
use cloudvelo.Uploads.Sparse.{
  RangeReader, Encoders, Inspected, inspection_start, inspect, with_index, index_put,
  index_marshalled, send_index, sparse_response, SparseRun, index_sent, ranges_copied,
  deferred_close,
}
use cloudvelo.Uploads.Sparse.Index.{
  inspect-index, inspect-expected_size, IsLocated, index-IsLocated,
}
use cloudvelo.Uploads.Sparse.Ranges.{RangesRead, RangesCopied, RangesRead-within, RangesRead-IsFull}

module _ {ℓ} {S : Type ℓ} (up : CloudUploader S) where
  -- The uploader has the index of a file with holes.
  abbrev pub indexed : Inspected → S → S
  indexed seen s = if seen.is_sparse then up.set_index seen.index s else s

  -- What the uploader `s` was given of a file with these bytes, until it was closed as `end`: the
  -- parts that filled the buffer, then the index, and then the rest.
  pub data SparseDelivered (seen : Inspected) (s : S) (bytes : Bytes) (end : S) : Type ℓ where
    as_one :
        length bytes < buff_size
        → up.put_whole bytes (indexed seen s) ≡ (end, none)
        → SparseDelivered seen s bytes end
    in_parts :
        (parts : List Bytes) (last : Bytes) (sent : S)
        → All (λ part. length part ≡ buff_size) parts
        → length last < buff_size
        → concat parts ++ last ≡ bytes
        → Sent up s parts sent
        → (up.put last (indexed seen sent)).1 ≡ none
        → up.close (up.commit (up.put last (indexed seen sent)).0) ≡ (end, none)
        → SparseDelivered seen s bytes end

  close-SparseDelivered :
      (seen : Inspected) (s : S) (bytes : Bytes) (w : BufferedWriter S) {w' : BufferedWriter S}
      → Buffered up (new_buffer_writer s) bytes w
      → close up (record w { uploader = indexed seen w.uploader }) ≡ (w', none)
      → SparseDelivered seen s bytes w'.uploader
  unfolding close new_buffer_writer
  close-SparseDelivered seen s bytes w {w'} b e =
      let v = record w { uploader = indexed seen w.uploader } in
      elim (Bool-cases w.sent_first_buffer) [
        | inl sent_first ↦
            let (accepted, finished) =
              closed-none up v (flush up v) (sym (if_true _ sent_first) ∙ e) in
            let (put_ok, put_end) = flush-none up v accepted in
            in_parts b.parts w.buf w.uploader b.full (omega (arith, b.room, b.same_length)) b.kept
              b.sent put_ok (ap (λ x. up.close (up.commit x)) put_end ∙ finished)
        | inr not_sent ↦
            let answer =
              with_uploader-none up v (up.put_whole w.buf v.uploader)
                (sym (if_false _ not_sent) ∙ e) in
            elim b.first [
              | inr (some_part, sent_first) ↦ cc (not_sent, sent_first)
              | inl (no_parts, same) ↦
                  let buffered : w.buf ≡ bytes =
                    subst (λ ps. concat ps ++ w.buf ≡ bytes) no_parts b.kept in
                  let untouched : s ≡ w.uploader =
                    subst (λ ps. Sent up s ps w.uploader) no_parts b.sent in
                  as_one (omega (arith, ap length buffered, b.room, b.same_length)) (
                    ap (λ bs. up.put_whole bs (indexed seen s)) (sym buffered)
                    ∙ ap (λ x. up.put_whole w.buf (indexed seen x)) untouched
                    ∙ answer)
            ]
      ]

module _ {ℓ μ} {S : Type ℓ} {I : Type μ} (up : CloudUploader S) (idx : CloudUploader I)
    (env : Encoders) where
  -- The index went to its uploader in one piece, which was committed; without a hole, nothing did.
  abbrev pub IndexSent : Inspected → I → I → Type μ
  IndexSent seen i i' =
      ((seen.is_sparse ≡ false) × (i' ≡ i))
      ⊎ ((seen.is_sparse ≡ true)
          × ((serialized : Bytes) × (env.marshal seen.index ≡ ok serialized)
              × ((idx.put serialized i).1 ≡ none)
              × (i' ≡ idx.commit (idx.put serialized i).0)))

  index_put-none :
      (index : List IndexRange) (w : BufferedWriter S) (answer : I × Option String)
      → (index_put up idx index w answer).2 ≡ none
      → (answer.1 ≡ none)
        × (index_put up idx index w answer ≡ (with_index up index w, idx.commit answer.0, none))
  unfolding index_put
  index_put-none index w (i, some e) h = cc h
  index_put-none index w (i, none) h = (refl, refl)

  index_marshalled-none :
      (index : List IndexRange) (w : BufferedWriter S) (i : I) (marshalled : Result Bytes)
      → (index_marshalled up idx index w i marshalled).2 ≡ none
      → (serialized : Bytes) × (marshalled ≡ ok serialized)
        × ((idx.put serialized i).1 ≡ none)
        × (index_marshalled up idx index w i marshalled
            ≡ (with_index up index w, idx.commit (idx.put serialized i).0, none))
  unfolding index_marshalled
  index_marshalled-none index w i (err e) h = cc h
  index_marshalled-none index w i (ok serialized) h =
      let (accepted, after) = index_put-none index w (idx.put serialized i) h in
      (serialized, refl, accepted, after)

  send_index-none :
      (seen : Inspected) (w : BufferedWriter S) (i : I)
      → (send_index up idx env seen w i).2 ≡ none
      → ((send_index up idx env seen w i).0 ≡ record w { uploader = indexed up seen w.uploader })
        × IndexSent seen i (send_index up idx env seen w i).1
  unfolding send_index
  send_index-none seen w i h = elim (Bool-cases seen.is_sparse) [
    | inl sparse ↦
        let (serialized, marshalled, accepted, after) =
          index_marshalled-none seen.index w i (env.marshal seen.index) (rw sparse at h) in
        rw (sparse, after) (refl, inr (refl, (serialized, marshalled, accepted, refl)))
    | inr dense ↦ rw dense (refl, inl (refl, refl))
  ]

module _ {ℓ μ κ} {S : Type ℓ} {I : Type μ} {R : Type κ} (up : CloudUploader S)
    (idx : CloudUploader I) (env : Encoders) (rr : RangeReader R) where
  -- A sparse upload that gave a response: `chunks` were read, one for each range.
  pub record IsStored (path : String) (s : S) (i : I) (r : R) (run : SparseRun S I R)
      (response : VqlResponse) : Type (ℓ ⊔ μ ⊔ κ) where
    pub chunks : List Bytes
    pub read : RangesRead up rr rr.ranges r chunks run.reader
    pub told :
        response
        ≡ sparse_response env path
            (inspect inspection_start rr.ranges).real_size
            (length (concat chunks))
    pub within : length (concat chunks) ≤ (inspect inspection_start rr.ranges).expected_size
    pub located :
        length (concat chunks) ≡ (inspect inspection_start rr.ranges).expected_size
        → IsLocated (concat chunks) (inspect inspection_start rr.ranges).index chunks
    pub index_sent_first :
        IndexSent up idx env (inspect inspection_start rr.ranges) i run.idx_uploader
    pub delivered :
        run.close_error ≡ none
        → SparseDelivered up
            (inspect inspection_start rr.ranges)
            s
            (concat chunks)
            (run.buffer).uploader

  index_sent-ok :
      (r : R) (response told : VqlResponse) (answer : BufferedWriter S × I × Option String)
      → (index_sent up r response answer).result ≡ ok told
      → (answer.2 ≡ none)
        × (told ≡ response)
        × (index_sent up r response answer ≡ deferred_close up answer.0 answer.1 r (ok response))
  unfolding index_sent
  index_sent-ok r response told (w, i, some e) h = cc h
  index_sent-ok r response told (w, i, none) h = (refl, sym (ok_injective h), refl)

  stored :
      (path : String) (s : S) (i : I) (r r' : R) (w : BufferedWriter S) (response : VqlResponse)
      → let seen = inspect inspection_start rr.ranges in
        let run =
          index_sent up r'
            (sparse_response env path seen.real_size w.total)
            (send_index up idx env seen w i) in
        RangesCopied up rr rr.ranges (new_buffer_writer s) r w r'
        → run.result ≡ ok response
        → IsStored path s i r run response
  unfolding new_buffer_writer
  stored path s i r r' w response (chunks, read, buffered) h =
      let seen = inspect inspection_start rr.ranges in
      let answer = send_index up idx env seen w i in
      let (no_error, told, same) =
        index_sent-ok r' (sparse_response env path seen.real_size w.total) response answer h in
      let (after, index) = send_index-none up idx env seen w i no_error in
      let expected = inspect-expected_size rr.ranges inspection_start in
      subst (λ (run : SparseRun S I R). IsStored path s i r run response) (sym same)
        (record {
          chunks = chunks;
          read = read;
          told =
              told ∙ ap (sparse_response env path seen.real_size) (omega (arith, buffered.counted));
          within = omega (arith, expected, RangesRead-within up rr read);
          located = λ full.
              subst (λ entries. IsLocated (concat chunks) entries chunks)
                (sym (inspect-index rr.ranges inspection_start))
                (index-IsLocated rr.ranges chunks []
                  (RangesRead-IsFull up rr read (omega (arith, full, expected))));
          index_sent_first = index;
          delivered = λ no_error.
              close-SparseDelivered up seen s (concat chunks) w buffered
                (ap (close up) (sym after) ∙ ap (λ e. ((close up answer.0).0, e)) no_error);
        })

  finished :
      (path : String) (s : S) (i : I) (r r' : R) (w : BufferedWriter S) (e : Option String)
      → (e ≡ none → RangesCopied up rr rr.ranges (new_buffer_writer s) r w r')
      → (run : SparseRun S I R) × (ranges_copied up idx env path
            (inspect inspection_start rr.ranges)
            i
            (some (w, r', e))
          ≡ some run)
        × ((response : VqlResponse) → run.result ≡ ok response → IsStored path s i r run response)
  unfolding ranges_copied
  finished path s i r r' w none copied =
      (_, refl, λ response. stored path s i r r' w response (copied refl))
  finished path s i r r' w (some e) copied = (_, refl, λ response h. cc h)
