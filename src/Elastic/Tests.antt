-- ===== src/Elastic/Tests.antt =====
-- An index of three numbers, asked for in pages of two, and one that conflicts twice or is missing.
use cloudvelo.Prelude.{
  ℕ, String, List, [], ◌∷◌, Option, none, some, Bool, true, false, ltb, length, take, filter, ◌≡◌,
  refl, subst, arith, Result, ok,
}
use cloudvelo.Elastic.Types.{
  ErrorDict, Cluster, index_document, update_document, get_index, make_elastic_error,
}
use cloudvelo.Elastic.Writes.{set_elastic_index, update_index, retry}
use cloudvelo.Elastic.Retries.{IsTried, writes-IsTried}
use cloudvelo.Elastic.Paging.{PageQuery, query_chan, sort_of, send_pages}
use cloudvelo.Elastic.Pages.{IsPaged, query_chan-all}

abbrev numbers : List ℕ
numbers = 3 ∷ 5 ∷ 8 ∷ []

-- The index, for ascending queries.
abbrev page_of : PageQuery ℕ → Result (List ℕ)
page_of q = elim q.search_after [
  | none ↦ ok (take q.size numbers)
  | some key ↦ ok (take q.size (filter (ltb key) numbers))
]

abbrev number_key : ℕ → Option ℕ
number_key n = some n

ascends : sort_of "id" ≡ some ("id", true)
unfolding sort_of
ascends = refl

not_before : (n m k : ℕ) → ltb n m ≡ false → number_key n ≡ some k → ltb k m ≡ false
not_before n m k h e = subst (λ (o : Option ℕ). ltb (number_or m o) m ≡ false) e h
  where
    number_or : ℕ → Option ℕ → ℕ
    number_or z none = z
    number_or z (some x) = x

numbers-IsPaged : IsPaged page_of number_key ltb 1 "{}" "id" numbers
numbers-IsPaged = record {
  from_start = λ q is_query is_sort starts. rw starts refl;
  from_key = λ q key is_query is_sort follows. rw follows refl;
}

query_chan-all_example : query_chan page_of (λ field. number_key) 2 "{}" "id" 4 ≡ some (ok numbers)
query_chan-all_example =
    query_chan-all page_of number_key ltb 1 "{}" "id" numbers "id" (λ field. number_key) 4 refl
      ascends
      (
        (
          3,
          refl,
          refl,
          ((refl, λ k. not_before 5 3 k refl), ((refl, λ k. not_before 8 3 k refl), tt)),
        ),
        ((5, refl, refl, ((refl, λ k. not_before 8 5 k refl), tt)), ((8, refl, refl, tt), tt)),
      )
      numbers-IsPaged (omega arith)

-- The same numbers, sent in descending order: the second page ascends after the last key of the
-- first one, and so repeats a row.
abbrev down : List ℕ
down = 8 ∷ 5 ∷ 3 ∷ []

abbrev down_page : PageQuery ℕ → Result (List ℕ)
down_page q = elim q.search_after [
  | none ↦ ok (take q.size down)
  | some key ↦ ok (take q.size (filter (ltb key) numbers))
]

descending_repeats :
    query_chan down_page (λ field. number_key) 2 "{}" ">id" 5 ≡ some (ok (8 ∷ 5 ∷ 8 ∷ []))
unfolding query_chan send_pages sort_of
descending_repeats = refl

abbrev error_dict : String → ErrorDict
error_dict type = record { found = none; error_type = type; text = type }

-- The index answers each request with this error, until so many were made.
abbrev failing : ℕ → String → Cluster
failing n type = record {
  no_client = none;
  ask = λ before request. ok (record { is_error = ltb (length before) n; body = ok "{}" });
  decode_dict = λ text. ok (error_dict type);
  decode_response = λ text. (record { hits = []; total = 0; value = none; buckets = [] }, none);
  decode_hit = λ text. (record { source = ""; id = "" }, none);
  decode_docs = λ text. ok [];
  decode_count = λ text. ok 0;
  to_lower = λ text. text;
}

abbrev conflict : String → Bool
conflict e = true

writes-IsTried_example :
    IsTried
      (failing 2 "conflict")
      conflict
      []
      (index_document (get_index (failing 2 "conflict") "O1" "persisted") "1" "{}")
      10
      (set_elastic_index (failing 2 "conflict") conflict "O1" "persisted" "1" "{}" [])
    × IsTried
        (failing 2 "conflict")
        conflict
        []
        (update_document (get_index (failing 2 "conflict") "O1" "persisted") "1" "{}")
        10
        (update_index (failing 2 "conflict") conflict "O1" "persisted" "1" "{}" [])
writes-IsTried_example = writes-IsTried (failing 2 "conflict") conflict "O1" "persisted" "1" "{}" []

-- The third try is taken.
third_try :
    (set_elastic_index (failing 2 "conflict") conflict "root" "persisted" "1" "{}" []).1 ≡ none
unfolding set_elastic_index retry make_elastic_error
third_try = refl
