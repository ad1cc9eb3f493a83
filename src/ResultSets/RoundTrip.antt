-- ===== src/ResultSets/RoundTrip.antt =====
-- Writing rows to a new result set and reading them again.
use cloudvelo.Prelude.{
  ℕ, suc, String, List, [], ◌∷◌, ◌++◌, ◌-◌, ◌≤◌, true, length, drop, concat, map, All, Result, ok,
  none, some, ◌≡◌, refl, ap, sym, ◌∙◌, subst, arith, append_assoc, append-nil,
}
use cloudvelo.ResultSets.Writer.{
  Bytes, ElasticSimpleResultSetWriter, ResultSetMetadataRecord, Limits, new_result_set_writer,
  write, write_packet, close,
}
use cloudvelo.ResultSets.Reader.{Index, json, rows, decoded, read_rows, is_last}
use cloudvelo.ResultSets.Packets.{IsLine, with_newline, unlines}
use cloudvelo.ResultSets.Written.{
  get_result_set_metadata, HasRows, write-HasRows, write_packet-HasRows, close-flushed,
}
use cloudvelo.ResultSets.Reading.{IsAnswering, read_rows_exact}

-- What is written: a row, or a packet of rows that are serialized already.
pub data Batch : Type 0 where
  one_row : Bytes → Batch
  packet : List Bytes → Batch

abbrev pub rows_of : List Batch → List Bytes
rows_of [] = []
rows_of (one_row row ∷ batches) = (row ∷ []) ++ rows_of batches
rows_of (packet rs ∷ batches) = rs ++ rows_of batches

abbrev pub write_all : List Batch → ElasticSimpleResultSetWriter → ElasticSimpleResultSetWriter
write_all [] w = w
write_all (one_row row ∷ batches) w = write_all batches (write (ok row) w)
write_all (packet rs ∷ batches) w = write_all batches (write_packet (unlines rs) (length rs) w)

write_all-HasRows :
    (batches : List Batch) (w : ElasticSimpleResultSetWriter) (before : List Bytes)
    → HasRows w before
    → HasRows (write_all batches w) (before ++ rows_of batches)
write_all-HasRows [] w before h = subst (HasRows w) (sym (append-nil before)) h
write_all-HasRows (one_row row ∷ batches) w before h =
    subst (HasRows _) (append_assoc before (row ∷ []) (rows_of batches)) (
      write_all-HasRows batches (write (ok row) w) (before ++ row ∷ [])
        (write-HasRows w before row h))
write_all-HasRows (packet rs ∷ batches) w before h =
    subst (HasRows _) (append_assoc before rs (rows_of batches)) (
      write_all-HasRows batches (write_packet (unlines rs) (length rs) w) (before ++ rs)
        (write_packet-HasRows w before rs h))

new-HasRows :
    (limits : Limits) (log_path new_id : String) (found : Result ResultSetMetadataRecord)
    → HasRows (new_result_set_writer limits log_path new_id true found) []
unfolding new_result_set_writer
new-HasRows limits log_path new_id found = record {
  sent = [];
  waiting = [];
  split = refl;
  packed = refl;
  next_row = refl;
  end_row = refl;
  stored = λ first. refl;
  in_buffer = refl;
  count = refl;
}

-- A result set that is written from its start, in any mix of rows and packets, and closed.
abbrev pub written :
    Limits
    → String
    → String
    → Result ResultSetMetadataRecord
    → List Batch
    → ElasticSimpleResultSetWriter
written limits log_path new_id found batches =
    close (write_all batches (new_result_set_writer limits log_path new_id true found))

pub concat-singletons : (ls : List Bytes) → concat (map (λ line. line ∷ []) ls) ≡ ls
concat-singletons [] = refl
concat-singletons (l ∷ ls) = ap (λ r. l ∷ r) (concat-singletons ls)

-- Rows that have no newline in their text were written to a new result set, which was closed, and
-- the index answers with its documents and the metadata that it stored last. Whatever the limits on a document are, and however the rows
-- were handed over, reading ends after at most one round for each row that is asked for, and one
-- more, and gives exactly the rows from the one asked for to the last, in the order of the writes.
pub json-written :
    (limits : Limits) (log_path new_id : String) (found : Result ResultSetMetadataRecord)
    (batches : List Batch) (index : Index) (row : ℕ)
    → All IsLine (rows_of batches)
    → IsAnswering index (written limits log_path new_id found batches).documents
    → row ≤ length (rows_of batches)
    → json index
        (get_result_set_metadata log_path (written limits log_path new_id found batches).metadata)
        (suc (length (rows_of batches) - row))
        row
      ≡ some (map with_newline (drop row (rows_of batches)))
unfolding json is_last
json-written limits log_path new_id found batches index row are_lines answering low =
    let rs = rows_of batches in
    let (packed, end_row) =
      close-flushed _ rs
        (write_all-HasRows batches _ [] (new-HasRows limits log_path new_id found)) in
    ap (λ end. read_rows index end (λ line. line ∷ []) (suc (length rs - row)) none row) (end_row _)
    ∙ read_rows_exact (λ line. line ∷ []) index _ rs packed are_lines answering
        (suc (length rs - row)) none row low (omega arith) refl
    ∙ ap some (concat-singletons (map with_newline (drop row rs)))

-- The same for `Rows`: it gives the rows from the one asked for to the last that can be decoded.
pub rows-written {ℓ} :
    {A : Type ℓ} (decode : Bytes → Result A) (limits : Limits) (log_path new_id : String)
    (found : Result ResultSetMetadataRecord) (batches : List Batch) (index : Index) (row : ℕ)
    → All IsLine (rows_of batches)
    → IsAnswering index (written limits log_path new_id found batches).documents
    → row ≤ length (rows_of batches)
    → rows decode index
        (get_result_set_metadata log_path (written limits log_path new_id found batches).metadata)
        (suc (length (rows_of batches) - row))
        row
      ≡ some (
          concat
            (map (λ line. decoded (decode line)) (map with_newline (drop row (rows_of batches)))))
unfolding rows is_last
rows-written decode limits log_path new_id found batches index row are_lines answering low =
    let rs = rows_of batches in
    let (packed, end_row) =
      close-flushed _ rs
        (write_all-HasRows batches _ [] (new-HasRows limits log_path new_id found)) in
    ap (λ end. read_rows index end (λ line. decoded (decode line)) (suc (length rs - row)) none row)
      (end_row _)
    ∙ read_rows_exact (λ line. decoded (decode line)) index _ rs packed are_lines answering
        (suc (length rs - row)) none row low (omega arith) refl
