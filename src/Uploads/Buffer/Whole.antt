-- ===== src/Uploads/Buffer/Whole.antt =====
-- A file that goes through the buffer: a new writer, `Copy` and `Close`.
use cloudvelo.Prelude.{
  ℕ, suc, String, List, [], ◌∷◌, ◌++◌, ◌≤◌, ◌<◌, length-append, Option, none, some, length, concat,
  All, ◌≡◌, refl, ap, sym, ◌∙◌, ◌⊎◌, inl, inr, arith, Bool-cases, subst, if_true, if_false,
}
use cloudvelo.Uploads.Api.{Bytes, CloudUploader, Reader, Sent}
use cloudvelo.Uploads.Buffer.{
  BufferedWriter, new_buffer_writer, buff_size, flush, with_uploader, closed, close, copy,
}
use cloudvelo.Uploads.Buffer.Copy.{
  IsBounded, Reads, Buffered, Sent-append, flushed-none, IsStopped, copy_exact,
}

module _ {ℓ} {S : Type ℓ} (up : CloudUploader S) where
  -- What the uploader `s` was given for a file with these bytes, until it was closed as `end`.
  pub data Delivered (s : S) (bytes : Bytes) (end : S) : Type ℓ where
    as_one : length bytes < buff_size → up.put_whole bytes s ≡ (end, none) → Delivered s bytes end
    in_parts :
        (parts : List Bytes) (last : Bytes) (sent : S)
        → All (λ part. length part ≡ buff_size) parts
        → length last < buff_size
        → concat parts ++ last ≡ bytes
        → Sent up s (parts ++ last ∷ []) sent
        → up.close (up.commit sent) ≡ (end, none)
        → Delivered s bytes end

  pub with_uploader-none :
      (w : BufferedWriter S) (answer : S × Option String) {w' : BufferedWriter S}
      → with_uploader w answer ≡ (w', none)
      → answer ≡ (w'.uploader, none)
  unfolding with_uploader
  with_uploader-none w (s, none) e =
      ap (λ (x : BufferedWriter S × Option String). ((x.0).uploader, x.1)) e
  with_uploader-none w (s, some text) e = cc (ap (λ x. x.1) e)

  pub closed-none :
      (w : BufferedWriter S) (answer : BufferedWriter S × Option String) {w' : BufferedWriter S}
      → closed up answer ≡ (w', none)
      → (answer.1 ≡ none) × (up.close (up.commit (answer.0).uploader) ≡ (w'.uploader, none))
  unfolding closed
  closed-none w (v, none) e = (refl, with_uploader-none v _ e)
  closed-none w (v, some text) e = cc (ap (λ x. x.1) e)

  pub flush-none :
      (w : BufferedWriter S)
      → (flush up w).1 ≡ none
      → ((up.put w.buf w.uploader).1 ≡ none)
        × ((up.put w.buf w.uploader).0 ≡ ((flush up w).0).uploader)
  unfolding flush
  flush-none w e =
      let (accepted, after) =
        flushed-none up w (up.put w.buf w.uploader) (ap (λ x. ((flush up w).0, x)) e) in
      (accepted, ap (λ (v : BufferedWriter S). v.uploader) after)

  -- Bytes with a part that fills the buffer are no fewer than the buffer holds.
  full_le :
      (parts : List Bytes) (last bytes : Bytes)
      → 0 < length parts
      → All (λ part. length part ≡ buff_size) parts
      → concat parts ++ last ≡ bytes
      → buff_size ≤ length bytes
  full_le [] last bytes some_part full is_bytes = absurd (omega (arith, some_part))
  full_le (p ∷ ps) last bytes some_part (full, later) is_bytes = omega (
    arith,
    full,
    ap length is_bytes,
    length-append (p ++ concat ps) last,
    length-append p (concat ps),
  )

  close-Delivered :
      (s : S) (bytes : Bytes) (w : BufferedWriter S) {w' : BufferedWriter S}
      → Buffered up (new_buffer_writer s) bytes w
      → close up w ≡ (w', none)
      → Delivered s bytes w'.uploader
        × (length bytes < buff_size → up.put_whole bytes s ≡ (w'.uploader, none))
  unfolding close new_buffer_writer
  close-Delivered s bytes w {w'} b e = elim (Bool-cases w.sent_first_buffer) [
    | inl sent_first ↦
        let (accepted, finished) = closed-none w (flush up w) (sym (if_true _ sent_first) ∙ e) in
        let (put_ok, put_end) = flush-none w accepted in
        (
          in_parts b.parts w.buf ((flush up w).0).uploader b.full
              (omega (arith, b.room, b.same_length)) b.kept
              (Sent-append up s w.uploader ((flush up w).0).uploader b.parts (w.buf ∷ []) b.sent
                (put_ok, put_end))
              finished,
          λ few. elim b.first [
            | inl (no_parts, same) ↦ cc (same, sent_first)
            | inr (some_part, sent) ↦
                absurd (omega (arith, few, full_le b.parts w.buf bytes some_part b.full b.kept))
          ],
        )
    | inr not_sent ↦
        let answer =
          with_uploader-none w (up.put_whole w.buf w.uploader) (sym (if_false _ not_sent) ∙ e) in
        elim b.first [
          | inr (some_part, sent_first) ↦ cc (not_sent, sent_first)
          | inl (no_parts, same) ↦
              let buffered : w.buf ≡ bytes =
                subst (λ ps. concat ps ++ w.buf ≡ bytes) no_parts b.kept in
              let untouched : s ≡ w.uploader =
                subst (λ ps. Sent up s ps w.uploader) no_parts b.sent in
              let given : up.put_whole bytes s ≡ (w'.uploader, none) =
                ap (λ bs. up.put_whole bs s) (sym buffered)
                ∙ ap (λ x. up.put_whole w.buf x) untouched
                ∙ answer in
              (
                as_one (omega (arith, ap length buffered, b.room, b.same_length)) given,
                λ few. given,
              )
        ]
  ]

module _ {ℓ κ} {S : Type ℓ} {R : Type κ} (up : CloudUploader S) (reader : Reader R) where
  -- A reader that gives no more than it is asked for is copied through a new buffer, up to `len`
  -- bytes, and the buffer is closed, neither with an error. Then the bytes that were read are what
  -- the uploader was given: in just one call of `put_whole` if they are fewer than the buffer holds,
  -- and otherwise as parts that fill the buffer and a shorter last one, in order, all accepted, with
  -- a commit and a close at the end. They are `len` bytes, or as many as the reader had.
  pub buffered_upload_exact :
      (len : ℕ) (s : S) (r : R) {w w' : BufferedWriter S} {r' : R}
      → IsBounded reader
      → copy up reader (suc len) len (new_buffer_writer s) r ≡ some (w, r', none)
      → close up w ≡ (w', none)
      → (bytes : Bytes) × Reads reader r bytes r'
        × ((length bytes ≡ len) ⊎ IsStopped up reader r')
        × Delivered up s bytes w'.uploader
        × (length bytes < buff_size → up.put_whole bytes s ≡ (w'.uploader, none))
  unfolding new_buffer_writer
  buffered_upload_exact len s r bounded copied closed_e =
      let (bytes, reads, buffered, within, ended) =
        copy_exact up reader bounded len (new_buffer_writer s) r (omega arith) copied in
      let (delivered, alone) = close-Delivered up s bytes _ buffered closed_e in
      (bytes, reads, ended, delivered, alone)
