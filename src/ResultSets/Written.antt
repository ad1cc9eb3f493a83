-- ===== src/ResultSets/Written.antt =====
-- What the writer has sent to the index and has in its buffer is what was written to it.
use cloudvelo.Prelude.{
  pos, String, List, [], ◌∷◌, ◌++◌, nat_eq, length, ok, ◌≡◌, refl, ap, sym, ◌∙◌, inl, inr, arith,
  subst, append-nil, append_assoc, length-append, Bool-cases, if_true, if_false, if_elim,
}
use cloudvelo.ResultSets.Writer.{
  Bytes, ResultSetMetadataRecord, ElasticSimpleResultSetWriter, write_jsonl, flush, flush_large,
  write, write_packet, close,
}
use cloudvelo.ResultSets.Packets.{unlines, unlines-append, Packed, Packed-snoc}

-- `GetResultSetMetadata`: without a record, one with an empty id.
abbrev pub latest_or :
    ResultSetMetadataRecord → List ResultSetMetadataRecord → ResultSetMetadataRecord
latest_or md [] = md
latest_or md (next ∷ rest) = latest_or next rest

abbrev pub get_result_set_metadata : String → List ResultSetMetadataRecord → ResultSetMetadataRecord
get_result_set_metadata log_path written =
    latest_or
      (record {
        vfs_path = log_path;
        id = "";
        end_row = pos 0;
        total_rows = pos 0;
        type_ = "rs_metadata";
      })
      written

pub latest_or-snoc :
    (first : ResultSetMetadataRecord) (written : List ResultSetMetadataRecord)
    (md : ResultSetMetadataRecord)
    → latest_or first (written ++ md ∷ []) ≡ md
latest_or-snoc first [] md = refl
latest_or-snoc first (next ∷ rest) md = latest_or-snoc next rest md

-- The documents hold the first of these rows, from row 0 on, and the buffer the others. The
-- writer's metadata, and the latest that it stored, have the number of the rows in the documents.
pub record HasRows (w : ElasticSimpleResultSetWriter) (rows : List Bytes) : Type 0 where
  pub sent : List Bytes
  pub waiting : List Bytes
  pub split : rows ≡ sent ++ waiting
  pub packed : Packed 0 w.documents sent
  pub next_row : w.start_row ≡ length sent
  pub end_row : (w.md).end_row ≡ pos (length sent)
  pub stored :
      (first : ResultSetMetadataRecord) → (latest_or first w.metadata).end_row ≡ pos (length sent)
  pub in_buffer : w.buff ≡ unlines waiting
  pub count : w.buffered_rows ≡ length waiting

flush-HasRows :
    (w : ElasticSimpleResultSetWriter) (rows : List Bytes) → HasRows w rows → HasRows (flush w) rows
unfolding flush write_jsonl
flush-HasRows w rows h = elim (Bool-cases (nat_eq w.buffered_rows 0)) [
  | inl empty ↦ subst (λ v. HasRows v rows) (sym (if_true _ empty)) h
  | inr full ↦
      subst (λ v. HasRows v rows) (sym (if_false _ full))
        (record {
          sent = h.sent ++ h.waiting;
          waiting = [];
          split = h.split ∙ sym (append-nil _);
          packed =
              Packed-snoc 0 w.documents _ h.sent h.waiting h.packed (omega (arith, h.next_row))
                (record {
                  data_rows = h.in_buffer;
                  end_row = omega (arith, h.count);
                  some_row = ground (arith, full, h.count);
                });
          next_row = omega (arith, h.next_row, h.count, length-append h.sent h.waiting);
          end_row = ap pos (omega (arith, h.next_row, h.count, length-append h.sent h.waiting));
          stored = λ first.
              ap (λ (md : ResultSetMetadataRecord). md.end_row)
                (latest_or-snoc first w.metadata ((write_jsonl w.buff w.buffered_rows w).md))
              ∙ ap pos (omega (arith, h.next_row, h.count, length-append h.sent h.waiting));
          in_buffer = refl;
          count = refl;
        })
]

flush_large-HasRows :
    (w : ElasticSimpleResultSetWriter) (rows : List Bytes)
    → HasRows w rows
    → HasRows (flush_large w) rows
unfolding flush_large
flush_large-HasRows w rows h = if_elim (λ v. HasRows v rows) _ (flush-HasRows w rows h) h

-- Rows in one packet, each with its newline, and their number.
pub write_packet-HasRows :
    (w : ElasticSimpleResultSetWriter) (rows more : List Bytes)
    → HasRows w rows
    → HasRows (write_packet (unlines more) (length more) w) (rows ++ more)
unfolding write_packet
write_packet-HasRows w rows more h = flush_large-HasRows _ (rows ++ more) (record {
  sent = h.sent;
  waiting = h.waiting ++ more;
  split = ap (λ r. r ++ more) h.split ∙ append_assoc h.sent h.waiting more;
  packed = h.packed;
  next_row = h.next_row;
  end_row = h.end_row;
  stored = h.stored;
  in_buffer = ap (λ b. b ++ unlines more) h.in_buffer ∙ sym (unlines-append h.waiting more);
  count = omega (arith, h.count, length-append h.waiting more);
})

pub write-HasRows :
    (w : ElasticSimpleResultSetWriter) (rows : List Bytes) (row : Bytes)
    → HasRows w rows
    → HasRows (write (ok row) w) (rows ++ row ∷ [])
unfolding write
write-HasRows w rows row h = flush_large-HasRows _ (rows ++ row ∷ []) (record {
  sent = h.sent;
  waiting = h.waiting ++ row ∷ [];
  split = ap (λ r. r ++ row ∷ []) h.split ∙ append_assoc h.sent h.waiting (row ∷ []);
  packed = h.packed;
  next_row = h.next_row;
  end_row = h.end_row;
  stored = h.stored;
  in_buffer =
      ap (λ b. b ++ row ++ 10 ∷ []) h.in_buffer
      ∙ append_assoc (unlines h.waiting) row (10 ∷ [])
      ∙ ap (λ b. unlines h.waiting ++ b) (sym (append-nil (row ++ 10 ∷ [])))
      ∙ sym (unlines-append h.waiting (row ∷ []));
  count = omega (arith, h.count, length-append h.waiting (row ∷ []));
})

length-nil : (xs : List Bytes) → length xs ≡ 0 → xs ≡ []
length-nil [] e = refl
length-nil (x ∷ xs) e = absurd (omega (arith, e))

flush-empty : (w : ElasticSimpleResultSetWriter) → (flush w).buffered_rows ≡ 0
unfolding flush
flush-empty w = elim (Bool-cases (nat_eq w.buffered_rows 0)) [
  | inl empty ↦
      subst (λ (v : ElasticSimpleResultSetWriter). v.buffered_rows ≡ 0) (sym (if_true _ empty))
        (ground (arith, empty))
  | inr full ↦
      subst (λ (v : ElasticSimpleResultSetWriter). v.buffered_rows ≡ 0) (sym (if_false _ full)) refl
]

-- A closed writer has sent all rows, and the latest metadata that it stored has their number.
pub close-flushed :
    (w : ElasticSimpleResultSetWriter) (rows : List Bytes)
    → HasRows w rows
    → Packed 0 ((close w).documents) rows
      × ((first : ResultSetMetadataRecord)
          → (latest_or first ((close w).metadata)).end_row ≡ pos (length rows))
unfolding close
close-flushed w rows h =
    let k = flush-HasRows w rows h in
    let none_waiting = length-nil k.waiting (sym k.count ∙ flush-empty w) in
    let all_sent = k.split ∙ ap (λ l. k.sent ++ l) none_waiting ∙ append-nil k.sent in
    (
      subst (λ l. Packed 0 ((flush w).documents) l) (sym all_sent) k.packed,
      λ first. k.stored first ∙ ap (λ l. pos (length l)) (sym all_sent),
    )
