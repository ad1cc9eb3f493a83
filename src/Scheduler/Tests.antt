-- ===== src/Scheduler/Tests.antt =====
-- One job, which is leased, ended and waited for.
use cloudvelo.Prelude.{
  ℕ, [], ◌∷◌, some, if◌then◌else◌, ◌==◌, lookup, insert, ok, ◌≡◌, refl, arith, ltb, lt→ltb, ap,
  if_true, false,
}
use cloudvelo.Scheduler.{
  SchedulerRecordType, job_record, Store, get_one_job, job_done, schedule, job_of, state_of,
  wait_for_result, find_result,
}
use cloudvelo.Scheduler.Lease.{serving, get_one_job-twice}
use cloudvelo.Scheduler.Results.{wait-job_done}

abbrev request : SchedulerRecordType
request = record {
  timestamp = 1;
  id = "J.1";
  queue = "Notebook";
  job = "{}";
  org_id = "O.1";
  state = some "available";
  type_ = "scheduler";
}

abbrev store : Store
store = ("doc", job_record request) ∷ []

store_is_scheduled : schedule 1 "doc" "J.1" (job_of request) [] ≡ ok store
unfolding schedule insert
store_is_scheduled = refl

get_one_job-twice_example :
    let first = get_one_job serving (ok ("doc" ∷ [])) store in
    let second = get_one_job serving (ok ("doc" ∷ [])) first.0 in
    (one : SchedulerRecordType) × (two : SchedulerRecordType) × (first.1 ≡ some ("doc", one))
    × (job_of one ≡ job_of request)
    × (lookup "doc" first.0 ≡ some (job_record one))
    × ((state_of one.state == "available") ≡ false)
    × (second.1 ≡ some ("doc", two))
    × (job_of two ≡ job_of request)
unfolding lookup
get_one_job-twice_example = get_one_job-twice store "doc" request refl

-- The job is ended between the polls 2 and 3.
abbrev at : ℕ → Store
at i = if ltb i 3 then store else job_done 5 "output" (some "cancelled") "doc" request store

wait-job_done_example :
    wait_for_result at "J.1" ≡ some (record { job = "output"; err_ = some "cancelled" })
unfolding find_result
wait-job_done_example =
    wait-job_done at 3 5 "output" (some "cancelled") "doc" request store
      (λ j l. ap (find_result "J.1") (if_true _ (lt→ltb j 3 l))) refl refl (omega arith) (λ e. cc e)
