-- ===== src/Elastic/Retries.antt =====
-- How often a write is tried.
use cloudvelo.Prelude.{
  ℕ, zero, suc, String, List, ◌<◌, Option, none, some, Bool, true, false, not, ◌≡◌, refl, sym, ap,
  ◌⊎◌, inl, inr, arith, option_split, if_cases,
}
use cloudvelo.Elastic.Types.{
  ElasticRequest, index_document, update_document, Cluster, get_index, perform,
}
use cloudvelo.Elastic.Writes.{
  Written, asked, write_error, write_once, retry, update_index, set_elastic_index,
}

-- The requests so far, and then this one so many times.
abbrev pub then_requests : Cluster → List ElasticRequest → ElasticRequest → ℕ → List ElasticRequest
then_requests c before request zero = before
then_requests c before request (suc k) = then_requests c (asked c before request) request k

-- The error of the try after so many.
abbrev pub error_after : Cluster → List ElasticRequest → ElasticRequest → ℕ → Option String
error_after c before request k =
    write_error c (perform c (then_requests c before request k) request)

-- The write was tried `failures` times with an error that is worth another try, and then once
-- more, of which this is the error. That is one of the first `limit` tries, and the last of them
-- unless it had no error, or one that is not worth another try.
pub record IsTried (c : Cluster) (retriable : String → Bool) (before : List ElasticRequest)
    (request : ElasticRequest) (limit : ℕ) (run : Written) : Type 0 where
  pub failures : ℕ
  pub few : failures < limit
  pub requests : run.0 ≡ then_requests c before request (suc failures)
  pub error : run.1 ≡ error_after c before request failures
  pub failed_before :
      (k : ℕ)
      → k < failures
      → (e : String) × (error_after c before request k ≡ some e) × (retriable e ≡ true)
  pub ended :
      (suc failures ≡ limit)
      ⊎ ((run.1 ≡ none) ⊎ ((e : String) × (run.1 ≡ some e) × (retriable e ≡ false)))

module _ (c : Cluster) (retriable : String → Bool) (request : ElasticRequest) where
  ended-IsTried :
      (limit : ℕ) (before : List ElasticRequest) (last : Option String)
      → error_after c before request 0 ≡ last
      → (suc 0 ≡ suc limit)
        ⊎ ((last ≡ none) ⊎ ((e : String) × (last ≡ some e) × (retriable e ≡ false)))
      → IsTried c retriable before request (suc limit) (asked c before request, last)
  ended-IsTried limit before last same why = record {
    failures = 0;
    few = omega arith;
    requests = refl;
    error = sym same;
    failed_before = λ k below. absurd (omega (arith, below));
    ended = why;
  }

  again-IsTried :
      (limit : ℕ) (before : List ElasticRequest) (e : String) (run : Written)
      → error_after c before request 0 ≡ some e
      → retriable e ≡ true
      → IsTried c retriable (asked c before request) request limit run
      → IsTried c retriable before request (suc limit) run
  again-IsTried limit before e run same worth rest = record {
    failures = suc rest.failures;
    few = omega (arith, rest.few);
    requests = rest.requests;
    error = rest.error;
    failed_before = earlier;
    ended = elim rest.ended [ inl last ↦ inl (ap suc last) | inr why ↦ inr why ];
  }
    where
      earlier :
          (k : ℕ)
          → k < suc rest.failures
          → (e : String) × (error_after c before request k ≡ some e) × (retriable e ≡ true)
      earlier zero below = (e, same, worth)
      earlier (suc k) below = rest.failed_before k (omega (arith, below))

  retry-IsTried :
      (limit : ℕ) (before : List ElasticRequest) (last : Option String)
      → IsTried c retriable before request
          (suc limit)
          (retry retriable (write_once c request) (suc limit) (before, last))
  unfolding retry
  retry-IsTried zero before last =
      option_split (IsTried c retriable before request 1) (error_after c before request 0)
        (λ same. ended-IsTried 0 before none same (inl refl))
        (λ e same.
          if_cases (IsTried c retriable before request 1) (not (retriable e))
            (λ bad. ended-IsTried 0 before (some e) same (inl refl))
            (λ worth. ended-IsTried 0 before (some e) same (inl refl)))
  retry-IsTried (suc limit) before last =
      option_split (IsTried c retriable before request (suc (suc limit)))
        (error_after c before request 0)
        (λ same. ended-IsTried (suc limit) before none same (inr (inl refl)))
        (λ e same.
          if_cases (IsTried c retriable before request (suc (suc limit))) (not (retriable e))
            (λ bad.
              ended-IsTried (suc limit) before (some e) same
                (inr (inr (e, refl, ground (arith, bad)))))
            (λ worth.
              again-IsTried (suc limit) before e _ same (ground (arith, worth))
                (retry-IsTried limit (asked c before request) (some e))))

-- `SetElasticIndex` and `UpdateIndex` try their request at most ten times, always the same one. Every
-- try but the last one had a version conflict, the error is that of the last try, and there are fewer
-- than ten only where the last one had no error or another one.
pub writes-IsTried :
    (c : Cluster) (retriable : String → Bool) (org_id index id body : String)
    (before : List ElasticRequest)
    → IsTried c retriable before
        (index_document (get_index c org_id index) id body)
        10
        (set_elastic_index c retriable org_id index id body before)
      × IsTried c retriable before
          (update_document (get_index c org_id index) id body)
          10
          (update_index c retriable org_id index id body before)
unfolding set_elastic_index update_index
writes-IsTried c retriable org_id index id body before = (
  retry-IsTried c retriable (index_document (get_index c org_id index) id body) 9 before none,
  retry-IsTried c retriable (update_document (get_index c org_id index) id body) 9 before none,
)
