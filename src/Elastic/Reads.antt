-- ===== src/Elastic/Reads.antt =====
-- services/elasticsearch.go: the reads.
use cloudvelo.Prelude.{
  ℕ, String, List, [], ◌∷◌, map, Option, none, some, Bool, false, not, if◌then◌else◌, ltb, Result,
  ok, err,
}
use cloudvelo.Elastic.Types.{
  ElasticRequest, get_document, get_documents, search, count, ElasticHit, ElasticResponse,
  ErrorDict, Cluster, get_index, make_read_elastic_error, perform,
}

-- A value, no value and no error, `os.ErrNotExist`, another error, or a panic.
pub data ReadResult {ℓ} (A : Type ℓ) : Type ℓ where
  value : A → ReadResult A
  nothing : ReadResult A
  not_exist : ReadResult A
  failed : String → ReadResult A
  panicked : ReadResult A

abbrev pub or_nothing {ℓ} : {A : Type ℓ} → Option String → ReadResult A
or_nothing none = nothing
or_nothing (some e) = failed e

-- An index that is not yet created is a missing record.
abbrev pub or_not_exist {ℓ} : {A : Type ℓ} → Option String → ReadResult A
or_not_exist none = not_exist
or_not_exist (some e) = failed e

-- "found" is false.
abbrev pub is_not_found : ErrorDict → Bool
is_not_found response = elim response.found [ none ↦ false | some found ↦ not found ]

-- What the body of an error says: `e` is its error, which is told by `other` where the body does
-- not say that the document is not found.
abbrev pub error_read :
    {A : Type 0} → Option String → (Option String → ReadResult A) → Result ErrorDict → ReadResult A
error_read e other (err text) = or_nothing e
error_read e other (ok response) = if is_not_found response then not_exist else other e

abbrev pub error_of :
    {A : Type 0} → Cluster → String → (Option String → ReadResult A) → ReadResult A
error_of c data_ other = error_read (make_read_elastic_error c data_) other (c.decode_dict data_)

abbrev pub decoded_or {ℓ} : {A : Type ℓ} → A → Option String → ReadResult A
decoded_or a none = value a
decoded_or a (some e) = failed e

abbrev pub record_read : Cluster → Result (Bool × String) → ReadResult String
record_read c (err e) = failed e
record_read c (ok (is_error, data_)) =
    if not is_error
    then decoded_or ((c.decode_hit data_).0).source (c.decode_hit data_).1
    else error_of c data_ or_not_exist

unfoldable pub get_elastic_record :
    Cluster → String → String → String → List ElasticRequest → ReadResult String
get_elastic_record c org_id index id before =
    record_read c (perform c before (get_document (get_index c org_id index) id))

-- `hit.Hits.Hits[0]` where the total is not zero.
abbrev pub first_hit : ElasticResponse → Option String → ReadResult String
first_hit response e =
    if ltb 0 response.total
    then elim response.hits [ [] ↦ panicked | hit ∷ hits ↦ decoded_or hit.source e ]
    else or_nothing e

abbrev pub hit_read : Cluster → Result (Bool × String) → ReadResult String
hit_read c (err e) = failed e
hit_read c (ok (is_error, data_)) =
    if not is_error
    then first_hit (c.decode_response data_).0 (c.decode_response data_).1
    else error_of c data_ or_nothing

unfoldable pub get_elastic_record_by_query :
    Cluster → String → String → String → List ElasticRequest → ReadResult String
get_elastic_record_by_query c org_id index query before =
    hit_read c (perform c before (search (get_index c org_id index) query))

abbrev pub docs_read : Cluster → Result (Bool × String) → ReadResult (List String)
docs_read c (err e) = failed e
docs_read c (ok (is_error, data_)) =
    if not is_error
    then elim (c.decode_docs data_) [ err e ↦ failed e | ok docs ↦ value docs ]
    else error_of c data_ or_nothing

unfoldable pub get_multiple_elastic_records :
    Cluster → String → String → List String → List ElasticRequest → ReadResult (List String)
get_multiple_elastic_records c org_id index [] before = nothing
get_multiple_elastic_records c org_id index (id ∷ ids) before =
    docs_read c (perform c before (get_documents (get_index c org_id index) (id ∷ ids)))

-- What the searches share: the response, or an error, which is none where the index is missing.
abbrev pub searched :
    {A : Type 0} → Cluster → (ElasticResponse → A) → Result (Bool × String) → ReadResult A
searched c use_ (err e) = failed e
searched c use_ (ok (is_error, data_)) =
    if is_error
    then or_nothing (make_read_elastic_error c data_)
    else elim (c.decode_response data_).1 [
      | some e ↦ or_nothing (make_read_elastic_error c data_)
      | none ↦ value (use_ (c.decode_response data_).0)
    ]

unfoldable pub query_elastic_raw :
    Cluster → String → String → String → List ElasticRequest → ReadResult (List String × ℕ)
query_elastic_raw c org_id index query before =
    searched c (λ response. (map (λ (h : ElasticHit). h.source) response.hits, response.total))
      (perform c before (search (get_index c org_id index) query))

unfoldable pub query_elastic_ids :
    Cluster → String → String → String → List ElasticRequest → ReadResult (List String × ℕ)
query_elastic_ids c org_id index query before =
    searched c (λ response. (map (λ (h : ElasticHit). h.id) response.hits, response.total))
      (perform c before (search (get_index c org_id index) query))

-- Each result is its JSON and its id.
unfoldable pub query_elastic :
    Cluster → String → String → String → List ElasticRequest → ReadResult (List (String × String))
query_elastic c org_id index query before =
    searched c (λ response. map (λ (h : ElasticHit). (h.source, h.id)) response.hits)
      (perform c before (search (get_index c org_id index) query))

abbrev pub aggregated : ElasticResponse → List String
aggregated response = elim response.value [ some v ↦ v ∷ [] | none ↦ response.buckets ]

unfoldable pub query_elastic_aggregations :
    Cluster → String → String → String → List ElasticRequest → ReadResult (List String)
query_elastic_aggregations c org_id index query before =
    searched c aggregated (perform c before (search (get_index c org_id index) query))

abbrev pub count_read : Cluster → Result (Bool × String) → ReadResult ℕ
count_read c (err e) = failed e
count_read c (ok (is_error, data_)) =
    if is_error then or_nothing (make_read_elastic_error c data_) else elim (c.decode_count data_) [
      | err e ↦ or_nothing (make_read_elastic_error c data_)
      | ok n ↦ value n
    ]

unfoldable pub query_count_api :
    Cluster → String → String → String → List ElasticRequest → ReadResult ℕ
query_count_api c org_id index query before =
    count_read c (perform c before (count (get_index c org_id index) query))
