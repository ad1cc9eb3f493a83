-- ===== src/ResultSets/Tests.antt =====
-- Three rows in documents of two, and an index that searches a list of documents.
use cloudvelo.Prelude.{
  pos, ℕ, List, [], ◌∷◌, Bool, true, ◌&&◌, leb, ltb, filter, In, In-filter, All, ok, err, some, ◌≡◌,
  refl, arith, subst, inl, inr,
}
use cloudvelo.ResultSets.Writer.{Bytes, SimpleResultSetRecord, ElasticSimpleResultSetWriter, Limits}
use cloudvelo.ResultSets.Reader.{Index, json}
use cloudvelo.ResultSets.Packets.{Covers}
use cloudvelo.ResultSets.Reading.{IsAnswering}
use cloudvelo.ResultSets.Written.{get_result_set_metadata}
use cloudvelo.ResultSets.RoundTrip.{Batch, one_row, packet, written, json-written}
use cloudvelo.ResultSets.Appends.{
  ResultSet, append_packet, append_all, no_rows, json-append_all, append_packet-end_row,
}

abbrev covers : ℕ → SimpleResultSetRecord → Bool
covers row d = leb d.start_row row && ltb row d.end_row

Covers-of_true : (row : ℕ) (d : SimpleResultSetRecord) → covers row d ≡ true → Covers row d
Covers-of_true row d e = ground arith

covers-of_Covers : (row : ℕ) (d : SimpleResultSetRecord) → Covers row d → covers row d ≡ true
covers-of_Covers row d (low, high) = ground (arith, low, high)

abbrev search : List SimpleResultSetRecord → Index
search docs = record { query_packet = λ row. ok (filter (covers row) docs) }

All-of :
    {P : SimpleResultSetRecord → Type 0} (ds : List SimpleResultSetRecord)
    → ((d : SimpleResultSetRecord) → In d ds → P d)
    → All P ds
All-of [] h = tt
All-of (d ∷ ds) h = (h d (inl refl), All-of ds (λ e m. h e (inr m)))

search-IsAnswering : (docs : List SimpleResultSetRecord) → IsAnswering (search docs) docs
search-IsAnswering docs = record {
  hits = λ row. filter (covers row) docs;
  answers = λ row. refl;
  sound = λ row. All-of (filter (covers row) docs) (λ d m.
      let (member, e) = (In-filter (covers row) d docs).0 m in (member, Covers-of_true row d e));
  complete = λ row d member c nothing.
      subst (In d) nothing ((In-filter (covers row) d docs).1 (member, covers-of_Covers row d c));
}

abbrev batches : List Batch
batches = one_row (97 ∷ []) ∷ packet ((98 ∷ []) ∷ (99 ∷ 100 ∷ []) ∷ []) ∷ []

abbrev limits : Limits
limits = record { rows_per_result_set = 1; max_size_per_packet = 0 }

abbrev writer : ElasticSimpleResultSetWriter
writer = written limits "/clients/C.1" "id" (err "none") batches

json-written_example :
    json (search writer.documents) (get_result_set_metadata "/clients/C.1" writer.metadata) 3 1
    ≡ some ((98 ∷ 10 ∷ []) ∷ (99 ∷ 100 ∷ 10 ∷ []) ∷ [])
json-written_example =
    json-written limits "/clients/C.1" "id" (err "none") batches (search writer.documents) 1
      (
        (λ e. omega (arith, e), tt),
        ((λ e. omega (arith, e), tt), ((λ e. omega (arith, e), (λ e. omega (arith, e), tt)), tt)),
      )
      (search-IsAnswering writer.documents) (omega arith)

abbrev packets : List (List Bytes)
packets = ((97 ∷ []) ∷ []) ∷ ((98 ∷ []) ∷ (99 ∷ 100 ∷ []) ∷ []) ∷ []

abbrev stored : ResultSet
stored = append_all limits "/clients/C.1" 0 packets no_rows

json-append_all_example :
    json (search stored.documents) (get_result_set_metadata "/clients/C.1" stored.metadata) 3 1
    ≡ some ((98 ∷ 10 ∷ []) ∷ (99 ∷ 100 ∷ 10 ∷ []) ∷ [])
json-append_all_example =
    json-append_all limits "/clients/C.1" packets (search stored.documents) 1
      (omega arith, (omega arith, tt))
      (
        (λ e. omega (arith, e), tt),
        ((λ e. omega (arith, e), tt), ((λ e. omega (arith, e), (λ e. omega (arith, e), tt)), tt)),
      )
      (search-IsAnswering stored.documents) (omega arith)

-- The second packet came first: its two rows are stored, and then the metadata end after row 0.
abbrev second_first : ResultSet
second_first = append_packet limits "/clients/C.1" 1 ((98 ∷ []) ∷ (99 ∷ []) ∷ []) no_rows

append_packet-end_row_example :
    (get_result_set_metadata "/clients/C.1"
      (append_packet limits "/clients/C.1" 0 ((97 ∷ []) ∷ []) second_first).metadata).end_row
    ≡ pos 1
append_packet-end_row_example =
    append_packet-end_row limits "/clients/C.1" 0 ((97 ∷ []) ∷ []) second_first (omega arith)
