-- ===== src/Uploads/Sparse/Ranges.antt =====
-- The loop that copies the ranges: it ends, and the buffer is given the bytes of each range.
use cloudvelo.Prelude.{
  suc, String, List, [], ◌∷◌, ◌≤◌, ◌<◌, Option, none, some, true, false, length, concat, ◌≡◌, refl,
  ap, sym, ◌⊎◌, arith, subst, if_cases, length-append,
}
use cloudvelo.Uploads.Api.{Bytes, CloudUploader}
use cloudvelo.Uploads.Buffer.{BufferedWriter, copy}
use cloudvelo.Uploads.Buffer.Copy.{
  IsBounded, Reads, Buffered, Buffered-nil, Buffered-append, IsStopped, copy_total, copy_exact,
}
use cloudvelo.Uploads.Sparse.{
  SparseRange, RangeReader, range_copied, range_sought, copy_ranges, file_length,
}
use cloudvelo.Uploads.Sparse.Index.{stored_length, IsFull}

module _ {ℓ κ} {S : Type ℓ} {R : Type κ} (up : CloudUploader S) (rr : RangeReader R) where
  -- The chunks that were read, one for each range: a hole gives none, and for any other range the
  -- reader was moved to it and gave all its bytes, or as many as it had.
  pub data RangesRead : List SparseRange → R → List Bytes → R → Type (ℓ ⊔ κ) where
    no_ranges : {r : R} → RangesRead [] r [] r
    hole :
        {rng : SparseRange} {rest : List SparseRange} {r s : R} {chunks : List Bytes}
        → rng.is_sparse ≡ true
        → RangesRead rest r chunks s
        → RangesRead (rng ∷ rest) r ([] ∷ chunks) s
    stored :
        {rng : SparseRange} {rest : List SparseRange} {r q s : R} {chunk : Bytes}
        {chunks : List Bytes}
        → rng.is_sparse ≡ false
        → (rr.seek rng.offset r).1 ≡ none
        → Reads rr.reader (rr.seek rng.offset r).0 chunk q
        → length chunk ≤ rng.length
        → (length chunk ≡ rng.length) ⊎ IsStopped up rr.reader q
        → RangesRead rest q chunks s
        → RangesRead (rng ∷ rest) r (chunk ∷ chunks) s

  -- Where the loop ended without an error.
  abbrev pub RangesCopied :
      List SparseRange → BufferedWriter S → R → BufferedWriter S → R → Type (ℓ ⊔ κ)
  RangesCopied ranges w r w' r' =
      (chunks : List Bytes) × RangesRead ranges r chunks r' × Buffered up w (concat chunks) w'

  -- The loop ended, and if without an error, then as above.
  abbrev pub RangesFinished :
      List SparseRange
      → BufferedWriter S
      → R
      → Option (BufferedWriter S × R × Option String)
      → Type (ℓ ⊔ κ)
  RangesFinished ranges w r result =
      (w' : BufferedWriter S) × (r' : R) × (e : Option String) × (result ≡ some (w', r', e))
      × (e ≡ none → RangesCopied ranges w r w' r')

  abbrev Rest : List SparseRange → Type (ℓ ⊔ κ)
  Rest ranges =
      (w : BufferedWriter S) (r : R)
      → length w.buf < w.buf_length
      → RangesFinished ranges w r (copy_ranges up rr ranges w r)

  module _ (bounded : IsBounded rr.reader) where
    copied-RangesFinished :
        (rng : SparseRange) (rest : List SparseRange) (w : BufferedWriter S) (r q : R)
        → rng.is_sparse ≡ false
        → rr.seek rng.offset r ≡ (q, none)
        → length w.buf < w.buf_length
        → Rest rest
        → (w' : BufferedWriter S) (q' : R) (e : Option String)
        → copy up rr.reader (suc rng.length) rng.length w q ≡ some (w', q', e)
        → RangesFinished (rng ∷ rest) w r (range_copied (copy_ranges up rr rest) (some (w', q', e)))
    unfolding range_copied
    copied-RangesFinished rng rest w r q dense sought room again w' q' (some e) copied =
        (w', q', some e, refl, λ h. cc h)
    copied-RangesFinished rng rest w r q dense sought room again w' q' none copied =
        let (chunk, reads, buffered, within, ended) =
          copy_exact up rr.reader bounded rng.length w q room copied in
        let (v, s, e, is_result, later) = again w' q' buffered.room in
        (
          v,
          s,
          e,
          is_result,
          λ h.
              let (chunks, read, more) = later h in
              (
                chunk ∷ chunks,
                stored dense (ap (λ (x : R × Option String). x.1) sought)
                    (subst (λ p. Reads rr.reader p chunk q')
                      (ap (λ (x : R × Option String). x.0) (sym sought)) reads)
                    within ended read,
                Buffered-append up buffered more,
              ),
        )

    sought-RangesFinished :
        (rng : SparseRange) (rest : List SparseRange) (w : BufferedWriter S) (r : R)
        → rng.is_sparse ≡ false
        → length w.buf < w.buf_length
        → Rest rest
        → (moved : R × Option String) → rr.seek rng.offset r ≡ moved
        → RangesFinished
            (rng ∷ rest)
            w
            r
            (range_sought up rr.reader (copy_ranges up rr rest) rng.length w moved)
    unfolding range_sought
    sought-RangesFinished rng rest w r dense room again (q, some e) sought =
        (w, q, some e, refl, λ h. cc h)
    sought-RangesFinished rng rest w r dense room again (q, none) sought =
        let (w', q', e, ended) = copy_total up rr.reader bounded rng.length w q room in
        subst
          (λ result. RangesFinished (rng ∷ rest) w r (range_copied (copy_ranges up rr rest) result))
          (sym ended) (copied-RangesFinished rng rest w r q dense sought room again w' q' e ended)

    pub copy_ranges-RangesFinished : (ranges : List SparseRange) → Rest ranges
    unfolding copy_ranges
    copy_ranges-RangesFinished [] w r room =
        (w, r, none, refl, λ h. ([], no_ranges, Buffered-nil up w room))
    copy_ranges-RangesFinished (rng ∷ rest) w r room =
        let again = copy_ranges-RangesFinished rest in
        if_cases (RangesFinished (rng ∷ rest) w r) rng.is_sparse
          (λ sparse.
            let (w', r', e, ended, later) = again w r room in
            (
              w',
              r',
              e,
              ended,
              λ h.
                  let (chunks, read, buffered) = later h in
                  ([] ∷ chunks, hole sparse read, buffered),
            ))
          (λ dense. sought-RangesFinished rng rest w r dense room again (rr.seek rng.offset r) refl)

  pub RangesRead-within :
      {ranges : List SparseRange} {r s : R} {chunks : List Bytes}
      → RangesRead ranges r chunks s
      → length (concat chunks) ≤ stored_length ranges
  unfolding file_length
  RangesRead-within no_ranges = omega arith
  RangesRead-within (hole {rng = rng} sparse read) =
      rw sparse (omega (arith, RangesRead-within read))
  RangesRead-within
        (stored {rng = rng} {chunk = chunk} {chunks = chunks} dense moved reads within ended read) =
      rw dense (omega (arith, length-append chunk (concat chunks), within, RangesRead-within read))

  -- Chunks that are together as long as their ranges each are so.
  pub RangesRead-IsFull :
      {ranges : List SparseRange} {r s : R} {chunks : List Bytes}
      → RangesRead ranges r chunks s
      → length (concat chunks) ≡ stored_length ranges
      → IsFull ranges chunks
  unfolding file_length
  RangesRead-IsFull no_ranges all = tt
  RangesRead-IsFull (hole {rng = rng} sparse read) all =
      (rw sparse, RangesRead-IsFull read (let all' = rw sparse at all in omega (arith, all')))
  RangesRead-IsFull
        (stored {rng = rng} {chunk = chunk} {chunks = chunks} dense moved reads within ended read)
        all =
      let all' = rw dense at all in
      let rest = RangesRead-within read in
      (
        rw dense (omega (arith, length-append chunk (concat chunks), within, rest, all')),
        RangesRead-IsFull read
            (omega (arith, length-append chunk (concat chunks), within, rest, all')),
      )
