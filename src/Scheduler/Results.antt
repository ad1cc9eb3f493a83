-- ===== src/Scheduler/Results.antt =====
-- The one who schedules a job gets its result.
use cloudvelo.Prelude.{
  ℕ, zero, suc, String, [], ◌∷◌, ◌+◌, ◌<◌, Option, none, some, ◌==◌, not, insert, ◌≡◌, ◌≢◌, refl,
  ap, sym, ◌∙◌, subst, arith, eq_refl, eq_iff, if_true, if_elim, if_cases,
}
use cloudvelo.Scheduler.{
  SchedulerRecordType, SchedulerResponseRecord, result_record, Store, job_done, state_of, is_result,
  or_else, find_result, response_of, wait, wait_for_result,
}

-- The first poll that finds a result ends the wait.
wait-found :
    (n : ℕ) (at : ℕ → Store) (key : String) (i d : ℕ) (result : SchedulerResponseRecord)
    → ((j : ℕ) → j < d → find_result key (at (i + j)) ≡ none)
    → find_result key (at (i + d)) ≡ some result
    → d < n
    → wait n at key i ≡ some (response_of result)
unfolding wait
wait-found zero at key i d result before found low = absurd (omega (arith, low))
wait-found (suc n) at key i zero result before found low =
    subst
      (λ f.
        (elim f [ none ↦ wait n at key (i + 1) | some result' ↦ some (response_of result') ])
        ≡ some (response_of result))
      (sym (ap (λ j. find_result key (at j)) (omega arith) ∙ found)) refl
wait-found (suc n) at key i (suc d) result before found low =
    subst
      (λ f.
        (elim f [ none ↦ wait n at key (i + 1) | some result' ↦ some (response_of result') ])
        ≡ some (response_of result))
      (sym (ap (λ j. find_result key (at j)) (omega arith) ∙ before 0 (omega arith)))
      (wait-found n at key (i + 1) d result
        (λ j l. ap (λ m. find_result key (at m)) (omega arith) ∙ before (suc j) (omega (arith, l)))
        (ap (λ m. find_result key (at m)) (omega arith) ∙ found) (omega (arith, low)))

or_else-none : (a b : Option SchedulerResponseRecord) → or_else a b ≡ none → (a ≡ none) × (b ≡ none)
or_else-none none b e = (refl, e)
or_else-none (some r) b e = cc e

find_result-insert :
    (key doc_id : String) (result : SchedulerResponseRecord) (store : Store)
    → find_result key store ≡ none
    → is_result key (result_record result) ≡ some result
    → find_result key (insert doc_id (result_record result) store) ≡ some result
unfolding find_result insert
find_result-insert key doc_id result [] nothing is = ap (λ r. or_else r none) is
find_result-insert key doc_id result ((other, doc) ∷ store) nothing is =
    let (none_here, none_later) =
      or_else-none (is_result key doc) (find_result key store) nothing in
    if_elim (λ m. find_result key m ≡ some result) (other == doc_id)
      (ap (λ r. or_else r (find_result key store)) is)
      (ap (λ r. or_else r (find_result key (insert doc_id (result_record result) store))) none_here
        ∙ find_result-insert key doc_id result store none_later is)

abbrev result_of : ℕ → String → Option String → SchedulerRecordType → SchedulerResponseRecord
result_of now result error request = record {
  timestamp = now;
  id = request.id;
  type_ = "scheduler_result";
  data_ = result;
  error = state_of error;
}

response_of-result :
    (now : ℕ) (result : String) (error : Option String) (request : SchedulerRecordType)
    → error ≢ some ""
    → response_of (result_of now result error request) ≡ record { job = result; err_ = error }
response_of-result now result none request named = refl
response_of-result now result (some e) request named =
    ap (λ found. record { job = result; err_ = found })
      (if_cases (λ found. found ≡ some e) (not (e == "")) (λ _. refl)
        (λ empty. absurd (named (ap some ((eq_iff e "").0 (ground (arith, empty)))))))

-- The key of a job is new, and the worker that has the job ends it, before one of the 1000 polls of the
-- one who scheduled it, with a text or with an error whose text is not empty: the first poll after that
-- ends the wait, with just this answer, in whatever document the worker wrote it.
pub wait-job_done :
    (at : ℕ → Store) (i : ℕ) (now : ℕ) (result : String) (error : Option String) (doc_id : String)
    (request : SchedulerRecordType) (store : Store)
    → ((j : ℕ) → j < i → find_result request.id (at j) ≡ none)
    → find_result request.id store ≡ none
    → at i ≡ job_done now result error doc_id request store
    → i < 1000
    → error ≢ some ""
    → wait_for_result at request.id ≡ some (record { job = result; err_ = error })
unfolding wait_for_result job_done
wait-job_done at i now result error doc_id request store before new done_ low named =
    wait-found 1000 at request.id 0 i (result_of now result error request)
      (λ j l. ap (λ m. find_result request.id (at m)) (omega arith) ∙ before j l)
      (ap (λ m. find_result request.id (at m)) (omega arith)
        ∙ ap (find_result request.id) done_
        ∙ find_result-insert request.id doc_id (result_of now result error request) store new
            (if_true none (eq_refl request.id)))
      low
    ∙ ap some (response_of-result now result error request named)
