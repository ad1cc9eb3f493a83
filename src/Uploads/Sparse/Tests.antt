-- ===== src/Uploads/Sparse/Tests.antt =====
-- A file of ten bytes with a hole in the middle, read two bytes at a time.
use cloudvelo.Prelude.{
  ℕ, String, List, [], ◌∷◌, ◌++◌, ◌-◌, Option, none, some, true, false, ltb, if◌then◌else◌, length,
  take, drop, All, ◌≡◌, refl, ok,
}
use cloudvelo.Uploads.Api.{Bytes, CloudUploader, IndexRange, Reader}
use cloudvelo.Uploads.Buffer.{new_buffer_writer, copy, close, flush_full, filled, to_read}
use cloudvelo.Uploads.Sparse.{
  SparseRange, RangeReader, Encoders, inspect, inspection_start, upload_sparse, copy_ranges,
  send_index, sparse_response, file_length, inspect_range,
}
use cloudvelo.Uploads.Sparse.Index.{IsWithin, index-IsWithin}

-- What an uploader was told.
data Told : Type 0 where
  piece : Bytes → Told
  indexed : List IndexRange → Told
  committed : Told
  closed : Told

abbrev keeps : CloudUploader (List Told)
keeps = record {
  put_whole = λ bytes told. (told ++ piece bytes ∷ [], none);
  put = λ bytes told. (told ++ piece bytes ∷ [], none);
  commit = λ told. told ++ committed ∷ [];
  close = λ told. (told ++ closed ∷ [], none);
  set_index = λ index told. told ++ indexed index ∷ [];
}

abbrev file : Bytes
file = 0 ∷ 1 ∷ 2 ∷ 3 ∷ 0 ∷ 0 ∷ 0 ∷ 7 ∷ 8 ∷ 9 ∷ []

abbrev ranges : List SparseRange
ranges =
    record { offset = 0; length = 4; is_sparse = false }
    ∷ record { offset = 4; length = 3; is_sparse = true }
    ∷ record { offset = 7; length = 3; is_sparse = false }
    ∷ []

-- The state is the position.
abbrev reads_pairs : Reader ℕ
reads_pairs = record {
  read = λ n at.
      let chunk = take n (take 2 (drop at file)) in
      (cloudvelo.Prelude.◌+◌ at (length chunk), (chunk, none));
}

abbrev range_reader : RangeReader ℕ
range_reader = record { ranges = ranges; seek = λ to at. (to, none); reader = reads_pairs }

abbrev encoders : Encoders
encoders = record { marshal = λ index. ok (1 ∷ []); sha256 = λ bytes. ""; md5 = λ bytes. "" }

abbrev the_index : List IndexRange
the_index =
    record { file_offset = 0; original_offset = 0; file_length = 4; length = 4 }
    ∷ record { file_offset = 4; original_offset = 4; file_length = 0; length = 3 }
    ∷ record { file_offset = 4; original_offset = 7; file_length = 3; length = 3 }
    ∷ []

-- The run gives a response.
the_run :
    upload_sparse keeps keeps encoders "/a" range_reader [] [] 0
    ≡ some (record {
      buffer =
          record (new_buffer_writer
            (indexed the_index ∷ piece (0 ∷ 1 ∷ 2 ∷ 3 ∷ 7 ∷ 8 ∷ 9 ∷ []) ∷ [])) {
              buf = 0 ∷ 1 ∷ 2 ∷ 3 ∷ 7 ∷ 8 ∷ 9 ∷ [];
              total = 7;
            };
      idx_uploader = piece (1 ∷ []) ∷ committed ∷ [];
      reader = 10;
      result = ok (sparse_response encoders "/a" 10 7);
      close_error = none;
    })
unfolding upload_sparse copy_ranges inspect inspect_range file_length send_index copy close
    new_buffer_writer flush_full filled to_read
the_run = refl

index-IsWithin_example :
    let seen = inspect inspection_start ranges in
    All (IsWithin seen.expected_size seen.real_size) seen.index
index-IsWithin_example = index-IsWithin ranges
