-- ===== src/Uploads/Sparse.antt =====
-- vql/uploads/sparse.go: the upload of a file that may have holes. The bytes of its ranges go through
-- the buffer; where there is a hole, an index of the ranges goes to an uploader of its own. The error
-- of the deferred `Close` is kept here, though no one reads it.
pub mod Index
pub mod Ranges
pub mod Stored
mod Tests
use cloudvelo.Prelude.{
  ℕ, suc, String, List, [], ◌∷◌, ◌++◌, ◌+◌, Option, none, some, Bool, true, false, not,
  if◌then◌else◌, ltb, Result, ok, err,
}
use cloudvelo.Uploads.Api.{Bytes, CloudUploader, IndexRange, Reader}
use cloudvelo.Uploads.Buffer.{BufferedWriter, new_buffer_writer, copy, close}
use cloudvelo.Uploads.Uploader.{VqlResponse}

-- `uploads.Range`
pub record SparseRange : Type 0 where
  pub offset : ℕ
  pub length : ℕ
  pub is_sparse : Bool

-- `uploads.RangeReader` over its state.
pub record RangeReader {κ} (R : Type κ) : Type κ where
  pub ranges : List SparseRange
  pub seek : ℕ → R → R × Option String
  pub reader : Reader R

-- The JSON encoder and the hash functions.
pub record Encoders : Type 0 where
  pub marshal : List IndexRange → Result Bytes
  pub sha256 : Bytes → String
  pub md5 : Bytes → String

-- The variables of the loop that inspects the ranges.
pub record Inspected : Type 0 where
  pub index : List IndexRange
  pub is_sparse : Bool
  pub expected_size : ℕ
  pub real_size : ℕ

abbrev pub inspection_start : Inspected
inspection_start = record { index = []; is_sparse = false; expected_size = 0; real_size = 0 }

-- How much of a range is in the file that is stored.
unfoldable pub file_length : SparseRange → ℕ
file_length rng = if rng.is_sparse then 0 else rng.length

abbrev pub index_range : ℕ → SparseRange → IndexRange
index_range expected_size rng = record {
  file_offset = expected_size;
  original_offset = rng.offset;
  file_length = file_length rng;
  length = rng.length;
}

unfoldable pub inspect_range : Inspected → SparseRange → Inspected
inspect_range seen rng =
    let end = rng.offset + rng.length in
    record {
      index = seen.index ++ index_range seen.expected_size rng ∷ [];
      is_sparse = if rng.is_sparse then true else seen.is_sparse;
      expected_size =
          if not rng.is_sparse then seen.expected_size + rng.length else seen.expected_size;
      real_size = if ltb seen.real_size end then end else seen.real_size;
    }

unfoldable pub inspect : Inspected → List SparseRange → Inspected
inspect seen [] = seen
inspect seen (rng ∷ rest) = inspect (inspect_range seen rng) rest

module _ {ℓ κ} {S : Type ℓ} {R : Type κ} where
  -- After a copy, and after a seek; `again` goes on with the next range.
  pub range_copied :
      (BufferedWriter S → R → Option (BufferedWriter S × R × Option String))
      → Option (BufferedWriter S × R × Option String)
      → Option (BufferedWriter S × R × Option String)
  range_copied again none = none
  range_copied again (some (w, r, some e)) = some (w, r, some e)
  range_copied again (some (w, r, none)) = again w r

  pub range_sought :
      CloudUploader S
      → Reader R
      → (BufferedWriter S → R → Option (BufferedWriter S × R × Option String))
      → ℕ
      → BufferedWriter S
      → R × Option String
      → Option (BufferedWriter S × R × Option String)
  unfolding range_copied
  range_sought up reader again len w (r, some e) = some (w, r, some e)
  range_sought up reader again len w (r, none) =
      range_copied again (copy up reader (suc len) len w r)

  -- The loop that copies the ranges, `none` where a copy ran out of its rounds.
  unfoldable pub copy_ranges :
      CloudUploader S
      → RangeReader R
      → List SparseRange
      → BufferedWriter S
      → R
      → Option (BufferedWriter S × R × Option String)
  unfolding range_sought
  copy_ranges up rr [] w r = some (w, r, none)
  copy_ranges up rr (rng ∷ rest) w r =
      let again = copy_ranges up rr rest in
      if rng.is_sparse
      then again w r
      else range_sought up rr.reader again rng.length w (rr.seek rng.offset r)

-- What the upload leaves: the main uploader, that of the index, and the reader.
pub record SparseRun {ℓ μ κ} (S : Type ℓ) (I : Type μ) (R : Type κ) : Type (ℓ ⊔ μ ⊔ κ) where
  pub buffer : BufferedWriter S
  pub idx_uploader : I
  pub reader : R
  pub result : Result VqlResponse
  pub close_error : Option String

abbrev pub with_index {ℓ} :
    {S : Type ℓ} → CloudUploader S → List IndexRange → BufferedWriter S → BufferedWriter S
with_index up index w = record w { uploader = up.set_index index w.uploader }

module _ {ℓ μ} {S : Type ℓ} {I : Type μ} where
  pub index_put :
      CloudUploader S
      → CloudUploader I
      → List IndexRange
      → BufferedWriter S
      → I × Option String
      → BufferedWriter S × I × Option String
  index_put up idx index w (i, some e) = (w, i, some e)
  index_put up idx index w (i, none) = (with_index up index w, idx.commit i, none)

  pub index_marshalled :
      CloudUploader S
      → CloudUploader I
      → List IndexRange
      → BufferedWriter S
      → I
      → Result Bytes
      → BufferedWriter S × I × Option String
  unfolding index_put
  index_marshalled up idx index w i (err e) = (w, i, some e)
  index_marshalled up idx index w i (ok serialized) =
      index_put up idx index w (idx.put serialized i)

  -- "If we are sparse upload the sparse file in one part."
  unfoldable pub send_index :
      CloudUploader S
      → CloudUploader I
      → Encoders
      → Inspected
      → BufferedWriter S
      → I
      → BufferedWriter S × I × Option String
  unfolding index_marshalled
  send_index up idx env seen w i =
      if seen.is_sparse
      then index_marshalled up idx seen.index w i (env.marshal seen.index)
      else (w, i, none)

abbrev pub sparse_response : Encoders → String → ℕ → ℕ → VqlResponse
sparse_response env path size stored_size = record {
  path = path;
  stored_name = "";
  size = size;
  stored_size = stored_size;
  sha256 = env.sha256 [];
  md5 = env.md5 [];
  error = "";
}

module _ {ℓ μ κ} {S : Type ℓ} {I : Type μ} {R : Type κ} where
  -- The deferred `Close`, whatever is returned.
  abbrev pub deferred_close :
      CloudUploader S → BufferedWriter S → I → R → Result VqlResponse → SparseRun S I R
  deferred_close up w i r result = record {
    buffer = (close up w).0;
    idx_uploader = i;
    reader = r;
    result = result;
    close_error = (close up w).1;
  }

  pub index_sent :
      CloudUploader S → R → VqlResponse → BufferedWriter S × I × Option String → SparseRun S I R
  index_sent up r response (w, i, some e) = deferred_close up w i r (err e)
  index_sent up r response (w, i, none) = deferred_close up w i r (ok response)

  pub ranges_copied :
      CloudUploader S
      → CloudUploader I
      → Encoders
      → String
      → Inspected
      → I
      → Option (BufferedWriter S × R × Option String)
      → Option (SparseRun S I R)
  unfolding index_sent
  ranges_copied up idx env path seen i none = none
  ranges_copied up idx env path seen i (some (w, r, some e)) =
      some (deferred_close up w i r (err e))
  ranges_copied up idx env path seen i (some (w, r, none)) = some (
      index_sent up r (sparse_response env path seen.real_size w.total)
        (send_index up idx env seen w i))

  unfoldable pub upload_sparse :
      CloudUploader S
      → CloudUploader I
      → Encoders
      → String
      → RangeReader R
      → S
      → I
      → R
      → Option (SparseRun S I R)
  unfolding ranges_copied
  upload_sparse up idx env path rr s i r =
      ranges_copied up idx env path (inspect inspection_start rr.ranges) i
        (copy_ranges up rr rr.ranges (new_buffer_writer s) r)
