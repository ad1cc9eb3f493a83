-- ===== src/Elastic/Writes.antt =====
-- services/elasticsearch.go and services/retry.go: the writes, of which some are tried again.
use cloudvelo.Prelude.{
  ℕ, zero, suc, String, List, [], ◌∷◌, ◌++◌, Option, none, some, Bool, not, if◌then◌else◌, Result,
  ok, err,
}
use cloudvelo.Elastic.Types.{
  ElasticRequest, index_document, update_document, delete_document_request, delete_by_query_request,
  delete_by_query_string, refresh, Cluster, get_index, make_elastic_error, make_read_elastic_error,
  perform,
}

-- The requests that were made, and the error.
abbrev pub Written : Type 0
Written = List ElasticRequest × Option String

-- Without a client no request is made.
abbrev pub asked : Cluster → List ElasticRequest → ElasticRequest → List ElasticRequest
asked c before request = elim c.no_client [ some e ↦ before | none ↦ before ++ request ∷ [] ]

abbrev pub write_error : Cluster → Result (Bool × String) → Option String
write_error c (err e) = some e
write_error c (ok (is_error, data_)) =
    if not is_error then none else some (make_elastic_error c data_)

abbrev pub write_once : Cluster → ElasticRequest → List ElasticRequest → Written
write_once c request before = (asked c before request, write_error c (perform c before request))

-- `retry`, of which so many rounds are left. `retriable` is the match with "version conflict".
unfoldable pub retry : (String → Bool) → (List ElasticRequest → Written) → ℕ → Written → Written
retry retriable call zero (before, last) = (before, last)
retry retriable call (suc n) (before, last) = elim (call before).1 [
  | none ↦ ((call before).0, none)
  | some e ↦
      let again = retry retriable call n ((call before).0, some e) in
      if not (retriable e) then ((call before).0, some e) else again
]

abbrev pub rounds : ℕ
rounds = 10

unfoldable pub update_index :
    Cluster → (String → Bool) → String → String → String → String → List ElasticRequest → Written
update_index c retriable org_id index id query before =
    retry retriable (write_once c (update_document (get_index c org_id index) id query)) rounds
      (before, none)

unfoldable pub set_elastic_index :
    Cluster → (String → Bool) → String → String → String → String → List ElasticRequest → Written
set_elastic_index c retriable org_id index id record_ before =
    retry retriable (write_once c (index_document (get_index c org_id index) id record_)) rounds
      (before, none)

-- `Do` gives no response beside an error, which the deferred `res.Body.Close()` after a refresh reads.
pub data Deletion : Type 0 where
  deleted : Deletion
  refused : String → Deletion
  panicked : Deletion

abbrev pub sent_error : {A : Type 0} → Result A → Option String
sent_error (err e) = some e
sent_error (ok a) = none

abbrev pub refreshed_deletion : Option String → Deletion
refreshed_deletion none = deleted
refreshed_deletion (some e) = panicked

-- Whether there was something to delete is not read of the answer.
abbrev pub delete_and_refresh :
    Cluster → ElasticRequest → String → Bool → List ElasticRequest → List ElasticRequest × Deletion
delete_and_refresh c request index sync before = elim c.no_client [
  | some e ↦ (before, refused e)
  | none ↦ elim (sent_error (c.ask before request)) [
    | some e ↦ (before ++ request ∷ [], refused e)
    | none ↦
        let sent = before ++ request ∷ [] in
        if sync
        then (
          sent ++ refresh index ∷ [],
          refreshed_deletion (sent_error (c.ask sent (refresh index))),
        )
        else (sent, deleted)
  ]
]

unfoldable pub delete_document :
    Cluster → String → String → String → Bool → List ElasticRequest → List ElasticRequest × Deletion
delete_document c org_id index id sync before =
    delete_and_refresh c (delete_document_request (get_index c org_id index) id)
      (get_index c org_id index) sync before

-- The query goes into the URL here.
unfoldable pub delete_document_by_query :
    Cluster → String → String → String → Bool → List ElasticRequest → List ElasticRequest × Deletion
delete_document_by_query c org_id index query sync before =
    delete_and_refresh c (delete_by_query_string (get_index c org_id index) query)
      (get_index c org_id index) sync before

unfoldable pub flush_index : Cluster → String → String → List ElasticRequest → Written
flush_index c org_id index before =
    let request = refresh (get_index c org_id index) in
    (
      asked c before request,
      elim c.no_client [ some e ↦ some e | none ↦ sent_error (c.ask before request) ],
    )

-- A missing index is no error here.
abbrev pub deletion_error : Cluster → Result (Bool × String) → Option String
deletion_error c (err e) = some e
deletion_error c (ok (is_error, data_)) =
    if not is_error then none else make_read_elastic_error c data_

unfoldable pub delete_by_query : Cluster → String → String → String → List ElasticRequest → Written
delete_by_query c org_id index query before =
    let request = delete_by_query_request (get_index c org_id index) query in
    (asked c before request, deletion_error c (perform c before request))
