-- ===== src/ResultSets/Writer.antt =====
-- result_sets/simple/writer.go and factory.go: the writer. A row is its JSON text, in bytes. What
-- the writer sends to the index is kept in it, in order. The index takes each document.
use cloudvelo.Prelude.{
  ℤ, pos, negsuc, ℕ, String, List, [], ◌∷◌, ◌++◌, ◌+◌, ◌*◌, Bool, true, false, ◌||◌, if◌then◌else◌,
  ltb, nat_eq, length, Result, ok, err,
}

abbrev pub Bytes : Type 0
Bytes = List ℕ

-- `SimpleResultSetRecord`, without the fields that no code sets any more.
pub record SimpleResultSetRecord : Type 0 where
  pub start_row : ℕ
  pub end_row : ℕ
  pub vfs_path : String
  pub json_data : Bytes
  pub total_rows : ℕ
  pub id : String
  pub type_ : String

pub record ResultSetMetadataRecord : Type 0 where
  pub vfs_path : String
  pub id : String
  pub end_row : ℤ
  pub total_rows : ℤ
  pub type_ : String

pub record ElasticSimpleResultSetWriter : Type 0 where
  pub log_path : String
  pub buff : Bytes
  pub buffered_rows : ℕ
  pub start_row : ℕ
  pub truncated : Bool
  pub md : ResultSetMetadataRecord
  pub version : String
  pub rows_per_result_set : ℕ
  pub max_size_per_packet : ℕ
  pub documents : List SimpleResultSetRecord
  pub metadata : List ResultSetMetadataRecord

-- `Cloud.RowsPerResultSet`, `Cloud.MaxSizePerPacket`
pub record Limits : Type 0 where
  pub rows_per_result_set : ℕ
  pub max_size_per_packet : ℕ

abbrev row_count : ℤ → ℕ
row_count (pos n) = n
row_count (negsuc n) = 0

abbrev existing_or :
    ResultSetMetadataRecord → Bool → Result ResultSetMetadataRecord → ResultSetMetadataRecord × Bool
existing_or md true found = (md, false)
existing_or md false (ok existing) = (existing, true)
existing_or md false (err e) = (md, false)

abbrev opened :
    Limits
    → String
    → ResultSetMetadataRecord
    → List ResultSetMetadataRecord
    → ElasticSimpleResultSetWriter
opened limits log_path md written = record {
  log_path = log_path;
  buff = [];
  buffered_rows = 0;
  start_row = row_count md.end_row;
  truncated = false;
  md = md;
  version = md.id;
  rows_per_result_set =
      if nat_eq limits.rows_per_result_set 0 then 1000 else limits.rows_per_result_set;
  max_size_per_packet =
      if nat_eq limits.max_size_per_packet 0 then 1024 * 1024 else limits.max_size_per_packet;
  documents = [];
  metadata = written;
}

abbrev pub new_metadata : String → String → ResultSetMetadataRecord
new_metadata log_path new_id = record {
  vfs_path = log_path;
  id = new_id;
  end_row = pos 0;
  total_rows = pos 0;
  type_ = "rs_metadata";
}

-- `NewResultSetWriter`, given the answer of the index for the metadata. Where that was given up, the
-- code starts at row -1, which is no number here.
unfoldable pub new_result_set_writer :
    Limits → String → String → Bool → Result ResultSetMetadataRecord → ElasticSimpleResultSetWriter
new_result_set_writer limits log_path new_id truncate found =
    let (md, existing) = existing_or (new_metadata log_path new_id) truncate found in
    opened limits log_path md (if existing then [] else md ∷ [])

-- `writeJSONL`: one document.
unfoldable pub write_jsonl : Bytes → ℕ → ElasticSimpleResultSetWriter → ElasticSimpleResultSetWriter
write_jsonl serialized total_rows w =
    let to = w.start_row + total_rows in
    record w {
      documents =
          w.documents
          ++ record {
            start_row = w.start_row;
            end_row = to;
            vfs_path = w.log_path;
            json_data = serialized;
            total_rows = to;
            id = w.version;
            type_ = "result_set";
          }
            ∷ [];
      start_row = to;
      md = record (w.md) { end_row = pos to };
    }

unfoldable pub flush : ElasticSimpleResultSetWriter → ElasticSimpleResultSetWriter
flush w =
    if nat_eq w.buffered_rows 0
    then w
    else let written = write_jsonl w.buff w.buffered_rows w in
      record written {
        buff = [];
        buffered_rows = 0;
        metadata = written.metadata ++ written.md ∷ [];
        truncated = true;
      }

-- "Flush depending on the total size of the buffer."
unfoldable pub flush_large : ElasticSimpleResultSetWriter → ElasticSimpleResultSetWriter
flush_large w =
    if ltb w.rows_per_result_set w.buffered_rows || ltb w.max_size_per_packet (length w.buff)
    then flush w
    else w

-- `WriteJSONL`: rows that are serialized already, each with its newline.
unfoldable pub write_packet :
    Bytes → ℕ → ElasticSimpleResultSetWriter → ElasticSimpleResultSetWriter
write_packet serialized total_rows w =
    flush_large
      (record w { buff = w.buff ++ serialized; buffered_rows = w.buffered_rows + total_rows })

-- `Write`: one row, given what it is serialized as. One that does not serialize is passed over.
unfoldable pub write : Result Bytes → ElasticSimpleResultSetWriter → ElasticSimpleResultSetWriter
write (err e) w = w
write (ok serialized) w =
    flush_large
      (record w { buff = w.buff ++ serialized ++ 10 ∷ []; buffered_rows = w.buffered_rows + 1 })

unfoldable pub set_start_row : ℕ → ElasticSimpleResultSetWriter → ElasticSimpleResultSetWriter
set_start_row start_row w = record w { start_row = start_row; truncated = true }

unfoldable pub close : ElasticSimpleResultSetWriter → ElasticSimpleResultSetWriter
close w = flush w

unfoldable pub abort : ElasticSimpleResultSetWriter → ElasticSimpleResultSetWriter
abort w = close (record w { md = record (w.md) { total_rows = negsuc 0; end_row = negsuc 0 } })
