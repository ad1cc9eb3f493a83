-- ===== src/Scheduler.antt =====
-- services/scheduler/scheduler.go: jobs are documents of the root organisation's index; a worker leases
-- one, and writes its result in the same place. A document stands under its id.
pub mod Lease
pub mod Results
mod Tests
use cloudvelo.Prelude.{
  ℕ, zero, suc, String, List, [], ◌∷◌, ◌+◌, Option, none, some, if◌then◌else◌, ◌==◌, not, Assoc,
  lookup, insert, Result, ok, err, ◌&&◌,
}

-- `State` is null in the index, `none`, or "available".
pub record SchedulerRecordType : Type 0 where
  pub timestamp : ℕ
  pub id : String
  pub queue : String
  pub job : String
  pub org_id : String
  pub state : Option String
  pub type_ : String

-- `Error` is stored as "state", and `ID` as "key", as it is of the other record.
pub record SchedulerResponseRecord : Type 0 where
  pub timestamp : ℕ
  pub id : String
  pub type_ : String
  pub data_ : String
  pub error : String

pub data Document : Type 0 where
  job_record : SchedulerRecordType → Document
  result_record : SchedulerResponseRecord → Document

abbrev pub Store : Type 0
Store = Assoc Document

-- `services.SchedulerJob` and `services.JobResponse`; the job's `Done` is `job_done`.
pub record SchedulerJob : Type 0 where
  pub queue : String
  pub job : String
  pub org_id : String

pub record JobResponse : Type 0 where
  pub job : String
  pub err_ : Option String

-- What the index may refuse: the update, and the read after it.
pub record Answers : Type 0 where
  pub update : Option String
  pub get : Option String

abbrev pub state_of : Option String → String
state_of none = ""
state_of (some text) = text

-- The script: "if (ctx._source.state == 'available') { ctx._source.state = params.id; }". The parameter
-- that is sent is called "key", so `params.id` is null.
abbrev pub lease_script : Document → Document
lease_script (job_record r) =
    job_record (if state_of r.state == "available" then record r { state = none } else r)
lease_script (result_record r) =
    result_record (if r.error == "available" then record r { error = "" } else r)

-- `UpdateIndex`: a document that is missing is an error.
abbrev pub update_found : Option String → String → Store → Option Document → Result Store
update_found (some e) doc_id store found = err e
update_found none doc_id store none = err "document_missing_exception"
update_found none doc_id store (some doc) = ok (insert doc_id (lease_script doc) store)

unfoldable pub lease : Answers → String → Store → Result Store
lease answers doc_id store = update_found answers.update doc_id store (lookup doc_id store)

-- json.Unmarshal into a `SchedulerRecordType`.
abbrev pub unmarshal : Document → SchedulerRecordType
unmarshal (job_record r) = r
unmarshal (result_record r) = record {
  timestamp = r.timestamp;
  id = r.id;
  queue = "";
  job = r.data_;
  org_id = "";
  state = some r.error;
  type_ = r.type_;
}

-- `GetElasticRecord`
abbrev pub get_elastic_record : Option String → Option Document → Option SchedulerRecordType
get_elastic_record (some e) found = none
get_elastic_record none none = none
get_elastic_record none (some doc) = some (unmarshal doc)

-- A worker's job, its document, and the request that it was made of.
abbrev pub Leased : Type 0
Leased = Option (String × SchedulerRecordType)

-- After the update of a document: `next` goes on with the other ids.
abbrev pub read_leased :
    (Store → Store × Leased) → String → Store → Option SchedulerRecordType → Store × Leased
read_leased next doc_id leased none = next leased
read_leased next doc_id leased (some request) = (leased, some (doc_id, request))

abbrev pub after_lease :
    (Store → Store × Leased) → Answers → String → Store → Result Store → Store × Leased
after_lease next answers doc_id store (err e) = next store
after_lease next answers doc_id store (ok leased) =
    read_leased next doc_id leased (get_elastic_record answers.get (lookup doc_id leased))

-- The loop of `getOneJob` over the ids: an id that is not leased, or not read, is passed over.
unfoldable pub try_ids : (String → Answers) → List String → Store → Store × Leased
try_ids answers [] store = (store, none)
try_ids answers (doc_id ∷ ids) store =
    after_lease (try_ids answers ids) (answers doc_id) doc_id store
      (lease (answers doc_id) doc_id store)

-- `getOneJob`, given what the query for an available job found; the query has "size": 1.
unfoldable pub get_one_job : (String → Answers) → Result (List String) → Store → Store × Leased
get_one_job answers (err e) store = (store, none)
get_one_job answers (ok ids) store = try_ids answers ids store

abbrev pub job_of : SchedulerRecordType → SchedulerJob
job_of request = record { queue = request.queue; job = request.job; org_id = request.org_id }

-- `jobDone`: the result takes the place of the job.
unfoldable pub job_done : ℕ → String → Option String → String → SchedulerRecordType → Store → Store
job_done now result error doc_id request store =
    insert doc_id
      (result_record (record {
        timestamp = now;
        id = request.id;
        type_ = "scheduler_result";
        data_ = result;
        error = state_of error;
      }))
      store

-- `Schedule`, as far as the job's document, for a new random document id and job id.
unfoldable pub schedule : ℕ → String → String → SchedulerJob → Store → Result Store
schedule now doc_id job_id job store =
    if not (job.queue == "Notebook")
    then err "InlineScheduler: Queue not supported"
    else ok (
        insert doc_id
          (job_record (record {
            timestamp = now;
            id = job_id;
            queue = job.queue;
            job = job.job;
            org_id = job.org_id;
            state = some "available";
            type_ = "scheduler";
          }))
          store)

abbrev pub is_result : String → Document → Option SchedulerResponseRecord
is_result key (job_record r) = none
is_result key (result_record r) =
    if r.type_ == "scheduler_result" && r.id == key then some r else none

abbrev or_else :
    Option SchedulerResponseRecord → Option SchedulerResponseRecord → Option SchedulerResponseRecord
or_else none later = later
or_else (some r) later = some r

-- The query for the result with this key.
unfoldable pub find_result : String → Store → Option SchedulerResponseRecord
find_result key [] = none
find_result key ((doc_id, doc) ∷ store) = or_else (is_result key doc) (find_result key store)

abbrev pub response_of : SchedulerResponseRecord → JobResponse
response_of result = record {
  job = result.data_;
  err_ = if not (result.error == "") then some result.error else none;
}

-- The loop that waits for the result: a poll of the index in each of the rounds that are left. `at i` is
-- what the index holds at poll `i`; a poll that fails finds nothing.
unfoldable pub wait : ℕ → (ℕ → Store) → String → ℕ → Option JobResponse
wait zero at key i = none
wait (suc n) at key i =
    let later = wait n at key (i + 1) in
    elim (find_result key (at i)) [ none ↦ later | some result ↦ some (response_of result) ]

-- "for i := 0; i < 1000; i++"
unfoldable pub wait_for_result : (ℕ → Store) → String → Option JobResponse
wait_for_result at key = wait 1000 at key 0
