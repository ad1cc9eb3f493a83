-- ===== src/Ingestion/Authority.antt =====
-- What a message may do: whose records it changes, and in which organisation.
pub mod Handlers
pub mod Parts
use cloudvelo.Prelude.{
  ℕ, String, List, [], ◌∷◌, ◌++◌, Bool, true, false, ◌||◌, not, Option, none, some, if◌then◌else◌,
  ◌==◌, is_some, Result, ok, err, All, All-append, if_elim, ◌≡◌, refl, sym, ap, subst, ◌∙◌, inl,
  inr, Bool-cases,
}
use cloudvelo.Prelude.Runs.{Run, done, failed, after, ◌>>=◌, ◌>>◌, emit, after_call, effects}
use cloudvelo.Ingestion.Types.{
  Bytes, Query, VqlResponse, LogMessage, VeloMessage, QueryStatus, progress, generic_error,
  succeeded, FlowStats, FileBuffer, PathSpec, CollectorContext, ListRow, DownloadRow,
  ClientInfoUpdate, Document, hunt_flow, collection, client, vfs, Effect, enrol, inc_scheduled,
  inc_error, inc_completed, set_index, set_index_async, append_rows, append_timed, append_uploads,
  Handled, Env,
}
use cloudvelo.Ingestion.Hunts.{
  set_index_now, starts_hunt, hunt_entry, maybe_handle_hunt_response, calc_flow_outcome,
  flow_outcome, maybe_handle_hunt_flow_stats, context_of, stats_record, handle_flow_stats,
  collector_record_from_proto,
}
use cloudvelo.Ingestion.Clients.{
  lift, handle_enrolment, handle_interrogation, handle_ping, ping_record, ping_answered,
  set_client_info, update_clients, handle_client_info_updates,
}
use cloudvelo.Ingestion.Uploads.{handle_uploads, store_upload, upload_row, upload_rows}
use cloudvelo.Ingestion.Vfs.{
  list_line, list_lines, handle_system_vfs_list_directory, download_line, download_lines,
  handle_system_vfs_upload,
}
use cloudvelo.Ingestion.Collections.{
  ignored, handle_special, store_rows, respond, handle_responses, handle_logs, store_timed,
  handle_monitoring_logs, respond_monitoring, handle_monitoring_responses, query_name,
}
use cloudvelo.Ingestion.Process.{
  monitoring_response, process_monitoring, process_collection, process_authenticated, process,
}

-- The client that a document is about.
abbrev pub client_of : Document → String
client_of (hunt_flow entry) = entry.client_id
client_of (collection r) = r.client_id
client_of (client r) = r.client_id
client_of (vfs r) = r.client_id

-- What a message says of its sender.
pub record Sender : Type 0 where
  pub authenticated : Bool
  pub csr : Option String
  pub org_id : String
  pub source : String
  pub session_id : String

abbrev pub sender : VeloMessage → Sender
sender m = record {
  authenticated = m.authenticated;
  csr = m.csr;
  org_id = m.org_id;
  source = m.source;
  session_id = m.session_id;
}

abbrev pub IsOwnHunt : Env → Sender → String → Type 0
IsOwnHunt env s hunt_id =
    (s.authenticated ≡ true) × (env.extract_hunt_id s.session_id ≡ some hunt_id)

abbrev pub IsOwnDocument : Env → Sender → String → Document → Type 0
IsOwnDocument env s org doc =
    (s.authenticated ≡ true) × (env.get_org_config s.org_id ≡ ok org) × (client_of doc ≡ s.source)

-- A certificate request needs no authentication; all else is of the message's own client, in its own
-- organisation, and for the hunt of its own flow.
abbrev pub IsAllowed : Env → Sender → Effect → Type 0
IsAllowed env s (enrol pem) = (s.authenticated ≡ false) × (s.csr ≡ some pem)
IsAllowed env s (inc_scheduled hunt_id) = IsOwnHunt env s hunt_id
IsAllowed env s (inc_error hunt_id) = IsOwnHunt env s hunt_id
IsAllowed env s (inc_completed hunt_id) = IsOwnHunt env s hunt_id
IsAllowed env s (set_index org index id doc) = IsOwnDocument env s org doc
IsAllowed env s (set_index_async org index id doc) = IsOwnDocument env s org doc
IsAllowed env s (append_rows path sync start rows total) = s.authenticated ≡ true
IsAllowed env s (append_timed path rows total) = s.authenticated ≡ true
IsAllowed env s (append_uploads path start rows) = s.authenticated ≡ true

abbrev pub Allows : {A : Type 0} → Env → Sender → Run Effect A → Type 0
Allows env s run = All (IsAllowed env s) (effects run)

module _ (env : Env) (s : Sender) where
  pub Allows-after :
      {A : Type 0} (log : List Effect) (run : Run Effect A)
      → All (IsAllowed env s) log
      → Allows env s run
      → Allows env s (after log run)
  Allows-after log (done more a) p q = All-append (IsAllowed env s) log more p q
  Allows-after log (failed more e) p q = All-append (IsAllowed env s) log more p q

  pub Allows->>= :
      {A B : Type 0} (run : Run Effect A) (next : A → Run Effect B)
      → Allows env s run
      → ((a : A) → Allows env s (next a))
      → Allows env s (run >>= next)
  Allows->>= (done log a) next p q = Allows-after log (next a) p (q a)
  Allows->>= (failed log e) next p q = p

  pub Allows-emit :
      {A : Type 0} (e : Effect) (run : Run Effect A)
      → IsAllowed env s e
      → Allows env s run
      → Allows env s (emit e >> run)
  Allows-emit e run p q = Allows-after (e ∷ []) run (p, tt) q

  pub Allows-after_call : (answer : Option String) → Allows env s (after_call answer)
  Allows-after_call none = tt
  Allows-after_call (some e) = tt

  pub Allows-lift : {A : Type 0} (answer : Result A) → Allows env s (lift answer)
  Allows-lift (ok a) = tt
  Allows-lift (err e) = tt

  -- Where the answer is an error, nothing more is done.
  pub Allows-lift_with :
      {A B : Type 0} (answer : Result A) (next : A → Run Effect B)
      → ((a : A) → answer ≡ ok a → Allows env s (next a))
      → Allows env s (lift answer >>= next)
  Allows-lift_with (ok a) next q = Allows-after [] (next a) tt (q a refl)
  Allows-lift_with (err e) next q = tt

  pub Allows-ignored : (run : Handled) → Allows env s run → Allows env s (ignored run)
  Allows-ignored run p = p
