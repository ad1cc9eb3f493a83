-- ===== src/Scheduler/Lease.antt =====
-- What a worker that leases a job changes, and what it does not prevent.
use cloudvelo.Prelude.{
  String, [], ◌∷◌, false, none, some, if◌then◌else◌, ◌==◌, lookup, insert, lookup-insert_self, ok,
  ◌≡◌, refl, ap, ◌∙◌, if_elim, if_cases,
}
use cloudvelo.Scheduler.{
  SchedulerRecordType, job_record, Store, Answers, lease, update_found, get_elastic_record,
  read_leased, after_lease, Leased, try_ids, get_one_job, state_of, job_of,
}

-- The index answers.
abbrev pub serving : String → Answers
serving doc_id = record { update = none; get = none }

abbrev pub leased_record : SchedulerRecordType → SchedulerRecordType
leased_record r = if state_of r.state == "available" then record r { state = none } else r

leased_record-state :
    (r : SchedulerRecordType) → (state_of (leased_record r).state == "available") ≡ false
leased_record-state r =
    if_cases (λ (q : SchedulerRecordType). (state_of q.state == "available") ≡ false)
      (state_of r.state == "available") (λ e. refl) (λ e. e)

leased_record-job : (r : SchedulerRecordType) → job_of (leased_record r) ≡ job_of r
leased_record-job r =
    if_elim (λ (q : SchedulerRecordType). job_of q ≡ job_of r) (state_of r.state == "available")
      refl refl

get_one_job-found :
    (store : Store) (doc_id : String) (r : SchedulerRecordType)
    → lookup doc_id store ≡ some (job_record r)
    → get_one_job serving (ok (doc_id ∷ [])) store
      ≡ (insert doc_id (job_record (leased_record r)) store, some (doc_id, leased_record r))
unfolding get_one_job try_ids lease
get_one_job-found store doc_id r there =
    let after = insert doc_id (job_record (leased_record r)) store in
    ap
      (λ found.
        after_lease (try_ids serving []) (serving doc_id) doc_id store
          (update_found none doc_id store found))
      there
    ∙ ap (λ found. read_leased (try_ids serving []) doc_id after (get_elastic_record none found))
        (lookup-insert_self doc_id (job_record (leased_record r)) store)

-- A worker's query found the document of a job, which is in the index, and the index answers: the worker
-- gets the job, and the document is not available any more. A second worker whose query found the
-- document before that gets the same job, from the same document.
pub get_one_job-twice :
    (store : Store) (doc_id : String) (r : SchedulerRecordType)
    → lookup doc_id store ≡ some (job_record r)
    → let first = get_one_job serving (ok (doc_id ∷ [])) store in
      let second = get_one_job serving (ok (doc_id ∷ [])) first.0 in
      (one : SchedulerRecordType) × (two : SchedulerRecordType) × (first.1 ≡ some (doc_id, one))
      × (job_of one ≡ job_of r)
      × (lookup doc_id first.0 ≡ some (job_record one))
      × ((state_of one.state == "available") ≡ false)
      × (second.1 ≡ some (doc_id, two))
      × (job_of two ≡ job_of r)
get_one_job-twice store doc_id r there =
    let one = leased_record r in
    let found = get_one_job-found store doc_id r there in
    let stays =
      ap (λ (p : Store × Leased). lookup doc_id p.0) found
      ∙ lookup-insert_self doc_id (job_record one) store in
    (
      one,
      leased_record one,
      ap (λ (p : Store × Leased). p.1) found,
      leased_record-job r,
      stays,
      leased_record-state r,
      ap (λ (p : Store × Leased). p.1)
          (get_one_job-found (get_one_job serving (ok (doc_id ∷ [])) store).0 doc_id one stays),
      leased_record-job one ∙ leased_record-job r,
    )
