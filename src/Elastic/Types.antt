-- ===== src/Elastic/Types.antt =====
-- services/elasticsearch.go: a request to the index and its answer, and the errors of an answer.
use Prim.Native.String.{◌++◌ as str_append}
use cloudvelo.Prelude.{
  ℕ, String, List, Option, none, some, Bool, if◌then◌else◌, ◌==◌, Result, ok, err,
}

-- What is asked of an index, which is named first. A query is JSON.
pub data ElasticRequest : Type 0 where
  get_document : String → String → ElasticRequest
  get_documents : String → List String → ElasticRequest
  search : String → String → ElasticRequest
  count : String → String → ElasticRequest
  index_document : String → String → String → ElasticRequest
  update_document : String → String → String → ElasticRequest
  delete_document_request : String → String → ElasticRequest
  delete_by_query_request : String → String → ElasticRequest
  delete_by_query_string : String → String → ElasticRequest
  refresh : String → ElasticRequest

-- An answer: `IsError`, and the body, which may not be read to its end.
pub record ElasticAnswer : Type 0 where
  pub is_error : Bool
  pub body : Result String

-- `_ElasticHit`, of which the index is not read.
pub record ElasticHit : Type 0 where
  pub source : String
  pub id : String

-- `_ElasticResponse`; an aggregate's keys are the texts that `to_string` makes of them.
pub record ElasticResponse : Type 0 where
  pub hits : List ElasticHit
  pub total : ℕ
  pub value : Option String
  pub buckets : List String

-- What is read of the JSON object of an error: `found` where it is a boolean.
pub record ErrorDict : Type 0 where
  pub found : Option Bool
  pub error_type : String
  pub text : String

-- The index of the organisation's cluster: why there is no client, the answer after the requests so
-- far, and the JSON decoders. `json.Unmarshal` may fill a value and give an error as well.
pub record Cluster : Type 0 where
  pub no_client : Option String
  pub ask : List ElasticRequest → ElasticRequest → Result ElasticAnswer
  pub decode_dict : String → Result ErrorDict
  pub decode_response : String → ElasticResponse × Option String
  pub decode_hit : String → ElasticHit × Option String
  pub decode_docs : String → Result (List String)
  pub decode_count : String → Result ℕ
  pub to_lower : String → String

unfoldable pub get_index : Cluster → String → String → String
get_index c org_id index =
    let org = if org_id == "root" then "" else org_id in
    if org == "" then index else str_append (c.to_lower org) (str_append "_" index)

abbrev pub elastic_error : String → String
elastic_error text = str_append "Elastic Error: " text

unfoldable pub make_elastic_error : Cluster → String → String
make_elastic_error c data_ = elim (c.decode_dict data_) [
  | err e ↦ elastic_error data_
  | ok response ↦ elastic_error response.text
]

-- A missing index was not written to yet, which is no error.
unfoldable pub make_read_elastic_error : Cluster → String → Option String
make_read_elastic_error c data_ = elim (c.decode_dict data_) [
  | err e ↦ some (elastic_error data_)
  | ok response ↦
      if response.error_type == "index_not_found_exception"
      then none
      else some (elastic_error response.text)
]

-- A request and its answer: `IsError` with the body, unless there was an error before.
abbrev pub read_body : Result ElasticAnswer → Result (Bool × String)
read_body (err e) = err e
read_body (ok answer) = elim answer.body [ err e ↦ err e | ok data_ ↦ ok (answer.is_error, data_) ]

abbrev pub perform : Cluster → List ElasticRequest → ElasticRequest → Result (Bool × String)
perform c before request = elim c.no_client [
  | some e ↦ err e
  | none ↦ read_body (c.ask before request)
]
