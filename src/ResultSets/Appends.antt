-- ===== src/ResultSets/Appends.antt =====
-- A result set that is written one packet at a time, as the ingestor does: each packet opens a writer in
-- append mode, sets its row, writes and closes. The index finds the latest metadata (metadata.go).
use cloudvelo.Prelude.{
  pos, ℕ, suc, String, List, [], ◌∷◌, ◌++◌, ◌+◌, ◌-◌, ◌≤◌, ◌<◌, false, length, drop, concat, map,
  All, ok, none, some, nat_eq, ◌≡◌, refl, ap, sym, ◌∙◌, subst, arith, append_assoc, append-nil,
  length-append, Bool-cases, if_true, if_false, if_elim, inl, inr,
}
use cloudvelo.ResultSets.Writer.{
  Bytes, ElasticSimpleResultSetWriter, SimpleResultSetRecord, ResultSetMetadataRecord, Limits,
  new_result_set_writer, set_start_row, write_packet, flush_large, flush, write_jsonl, close,
}
use cloudvelo.ResultSets.Reader.{Index, json, read_rows, is_last}
use cloudvelo.ResultSets.Packets.{IsLine, with_newline, unlines, Packed, Packed-snoc, IsPacket}
use cloudvelo.ResultSets.Reading.{IsAnswering, read_rows_exact}
use cloudvelo.ResultSets.Written.{get_result_set_metadata, latest_or-snoc}
use cloudvelo.ResultSets.RoundTrip.{concat-singletons}

-- What the index holds of a result set, in the order of the writes.
pub record ResultSet : Type 0 where
  pub documents : List SimpleResultSetRecord
  pub metadata : List ResultSetMetadataRecord

abbrev pub appended :
    Limits → String → ResultSetMetadataRecord → ℕ → List Bytes → ElasticSimpleResultSetWriter
appended limits log_path md start rows = close (
    write_packet (unlines rows) (length rows)
      (set_start_row start (new_result_set_writer limits log_path "" false (ok md))))

abbrev pub append_packet : Limits → String → ℕ → List Bytes → ResultSet → ResultSet
append_packet limits log_path start rows set =
    let w = appended limits log_path (get_result_set_metadata log_path set.metadata) start rows in
    record { documents = set.documents ++ w.documents; metadata = set.metadata ++ w.metadata }

-- Packets one after the other, each from the row after the last one of those before.
abbrev pub append_all : Limits → String → ℕ → List (List Bytes) → ResultSet → ResultSet
append_all limits log_path from [] set = set
append_all limits log_path from (rows ∷ later) set =
    append_all limits log_path (from + length rows) later
      (append_packet limits log_path from rows set)

-- The writer has sent one document with these rows, and its metadata.
record IsSent (w : ElasticSimpleResultSetWriter) (start : ℕ) (rows : List Bytes) : Type 0 where
  document : SimpleResultSetRecord
  sent : w.documents ≡ document ∷ []
  starts : document.start_row ≡ start
  packet : IsPacket document rows
  md : ResultSetMetadataRecord
  stored : w.metadata ≡ md ∷ []
  end_row : md.end_row ≡ pos (start + length rows)

abbrev document_of : ElasticSimpleResultSetWriter → SimpleResultSetRecord
document_of w = record {
  start_row = w.start_row;
  end_row = w.start_row + w.buffered_rows;
  vfs_path = w.log_path;
  json_data = w.buff;
  total_rows = w.start_row + w.buffered_rows;
  id = w.version;
  type_ = "result_set";
}

abbrev metadata_of : ElasticSimpleResultSetWriter → ResultSetMetadataRecord
metadata_of w = record (w.md) { end_row = pos (w.start_row + w.buffered_rows) }

flush-IsSent :
    (w : ElasticSimpleResultSetWriter) (rows : List Bytes)
    → 0 < length rows
    → w.documents ≡ []
    → w.metadata ≡ []
    → w.buff ≡ unlines rows
    → w.buffered_rows ≡ length rows
    → IsSent (flush w) w.start_row rows
unfolding flush write_jsonl
flush-IsSent w rows some_row no_document no_md in_buffer count =
    subst (λ v. IsSent v w.start_row rows)
      (sym (if_false {b = nat_eq w.buffered_rows 0} _ (ground (arith, some_row, count))))
      (record {
        document = document_of w;
        sent = ap (λ ds. ds ++ document_of w ∷ []) no_document;
        starts = refl;
        packet = record {
          data_rows = in_buffer;
          end_row = omega (arith, count);
          some_row = some_row;
        };
        md = metadata_of w;
        stored = ap (λ ds. ds ++ metadata_of w ∷ []) no_md;
        end_row = ap pos (omega (arith, count));
      })

-- A flush leaves nothing to flush.
flush-twice : (w : ElasticSimpleResultSetWriter) → flush (flush w) ≡ flush w
unfolding flush write_jsonl
flush-twice w = elim (Bool-cases (nat_eq w.buffered_rows 0)) [
  | inl e ↦ ap flush (if_true _ e)
  | inr e ↦ ap flush (if_false w e) ∙ sym (if_false w e)
]

appended-IsSent :
    (limits : Limits) (log_path : String) (md : ResultSetMetadataRecord) (start : ℕ)
    (rows : List Bytes)
    → 0 < length rows
    → IsSent (appended limits log_path md start rows) start rows
unfolding close write_packet flush_large set_start_row new_result_set_writer
appended-IsSent limits log_path md start rows some_row =
    let w = record (set_start_row start (new_result_set_writer limits log_path "" false (ok md))) {
      buff = unlines rows;
      buffered_rows = 0 + length rows;
    } in
    let once : IsSent (flush w) start rows =
      flush-IsSent w rows some_row refl refl refl (omega arith) in
    if_elim (λ v. IsSent (flush v) start rows) _
      (subst (λ v. IsSent v start rows) (sym (flush-twice w)) once) once

-- The documents hold the rows, and the latest metadata has their number.
record IsWritten (log_path : String) (set : ResultSet) (rows : List Bytes) : Type 0 where
  packed : Packed 0 set.documents rows
  end_row : (get_result_set_metadata log_path set.metadata).end_row ≡ pos (length rows)

append_packet-IsWritten :
    (limits : Limits) (log_path : String) (set : ResultSet) (rows more : List Bytes)
    → 0 < length more
    → IsWritten log_path set rows
    → IsWritten log_path (append_packet limits log_path (length rows) more set) (rows ++ more)
append_packet-IsWritten limits log_path set rows more some_row h =
    let w =
      appended limits log_path (get_result_set_metadata log_path set.metadata) (length rows) more in
    let s =
      appended-IsSent limits log_path (get_result_set_metadata log_path set.metadata) (length rows)
        more some_row in
    record {
      packed =
          subst (λ ds. Packed 0 (set.documents ++ ds) (rows ++ more)) (sym s.sent)
            (Packed-snoc 0 set.documents s.document rows more h.packed (omega (arith, s.starts))
              s.packet);
      end_row =
          ap (λ ms. (get_result_set_metadata log_path (set.metadata ++ ms)).end_row) s.stored
          ∙ ap (λ (md : ResultSetMetadataRecord). md.end_row) (latest_or-snoc _ set.metadata s.md)
          ∙ s.end_row
          ∙ ap pos (sym (length-append rows more));
    }

append_all-IsWritten :
    (limits : Limits) (log_path : String) (packets : List (List Bytes)) (set : ResultSet)
    (rows : List Bytes)
    → All (λ p. 0 < length p) packets
    → IsWritten log_path set rows
    → IsWritten log_path
        (append_all limits log_path (length rows) packets set)
        (rows ++ concat packets)
append_all-IsWritten limits log_path [] set rows full h =
    subst (IsWritten log_path set) (sym (append-nil rows)) h
append_all-IsWritten limits log_path (more ∷ later) set rows (some_row, full) h =
    let next = append_packet limits log_path (length rows) more set in
    subst (IsWritten log_path (append_all limits log_path (length rows + length more) later next))
      (append_assoc rows more (concat later))
      (subst
        (λ n.
          IsWritten log_path (append_all limits log_path n later next)
            ((rows ++ more) ++ concat later))
        (length-append rows more)
        (append_all-IsWritten limits log_path later next (rows ++ more) full
          (append_packet-IsWritten limits log_path set rows more some_row h)))

abbrev pub no_rows : ResultSet
no_rows = record { documents = []; metadata = [] }

-- The packets of a query, none of them empty and each with its start row, are appended in their order, by
-- a writer of its own each, to a result set of which there is nothing yet, and the index answers with
-- the documents. Then reading gives exactly the rows from the one asked for to the last, in the order of
-- the packets.
pub json-append_all :
    (limits : Limits) (log_path : String) (packets : List (List Bytes)) (index : Index) (row : ℕ)
    → All (λ p. 0 < length p) packets
    → All IsLine (concat packets)
    → IsAnswering index (append_all limits log_path 0 packets no_rows).documents
    → row ≤ length (concat packets)
    → json index
        (get_result_set_metadata log_path (append_all limits log_path 0 packets no_rows).metadata)
        (suc (length (concat packets) - row))
        row
      ≡ some (map with_newline (drop row (concat packets)))
unfolding json is_last
json-append_all limits log_path packets index row full are_lines answering low =
    let rs = concat packets in
    let h =
      append_all-IsWritten limits log_path packets no_rows [] full
        (record { packed = refl; end_row = refl }) in
    ap (λ end. read_rows index end (λ line. line ∷ []) (suc (length rs - row)) none row) h.end_row
    ∙ read_rows_exact (λ line. line ∷ []) index _ rs h.packed are_lines answering
        (suc (length rs - row)) none row low (omega arith) refl
    ∙ ap some (concat-singletons (map with_newline (drop row rs)))

-- Whatever was written before, after a packet the latest metadata end with the last row of that packet:
-- so with the last row of the packet that came last, not of the rows there are.
pub append_packet-end_row :
    (limits : Limits) (log_path : String) (start : ℕ) (rows : List Bytes) (set : ResultSet)
    → 0 < length rows
    → (get_result_set_metadata log_path
        (append_packet limits log_path start rows set).metadata).end_row
      ≡ pos (start + length rows)
append_packet-end_row limits log_path start rows set some_row =
    let s =
      appended-IsSent limits log_path (get_result_set_metadata log_path set.metadata) start rows
        some_row in
    ap (λ ms. (get_result_set_metadata log_path (set.metadata ++ ms)).end_row) s.stored
    ∙ ap (λ (md : ResultSetMetadataRecord). md.end_row) (latest_or-snoc _ set.metadata s.md)
    ∙ s.end_row
