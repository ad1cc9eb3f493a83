-- ===== src/Launcher.antt =====
-- services/launcher/flows.go, storage.go and index.go: a flow's state is spread over several documents,
-- which the ingestor and the launcher append; here they are merged.
pub mod Completion
mod Tests
use cloudvelo.Prelude.{
  ℕ, String, List, [], ◌∷◌, Bool, true, false, ◌&&◌, ◌||◌, not, Option, none, some, if◌then◌else◌,
  ◌==◌, ltb, leb, Assoc, lookup, insert, Result, ok, err,
}
use cloudvelo.Ingestion.Types.{QueryStatus, progress, generic_error, succeeded}

-- `ArtifactCollectorContext_State`, of which only ERROR is looked at.
pub data FlowState : Type 0 where
  flow_error : FlowState
  other_state : ℕ → FlowState

pub record CollectorArgs : Type 0 where
  pub creator : String
  pub artifacts : List String

-- `ArtifactCollectorContext`, as far as it is used.
pub record FlowContext : Type 0 where
  pub client_id : String
  pub session_id : String
  pub request : Option CollectorArgs
  pub state : FlowState
  pub status : String
  pub total_uploaded_files : ℕ
  pub total_expected_uploaded_bytes : ℕ
  pub total_uploaded_bytes : ℕ
  pub total_collected_rows : ℕ
  pub total_logs : ℕ
  pub active_time : ℕ
  pub create_time : ℕ
  pub total_requests : ℕ
  pub outstanding_requests : ℕ
  pub query_stats : List QueryStatus

-- The loop over the statuses.
abbrev pub in_progress : List QueryStatus → Bool
in_progress [] = false
in_progress (progress ∷ rest) = true
in_progress (generic_error ∷ rest) = in_progress rest
in_progress (succeeded ∷ rest) = in_progress rest

abbrev pub running : FlowState → List QueryStatus → Bool
running flow_error stats = false
running (other_state n) stats = in_progress stats

unfoldable pub is_running : FlowContext → Bool
is_running context = running context.state context.query_stats

abbrev pub is_empty : List QueryStatus → Bool
is_empty [] = true
is_empty (s ∷ rest) = false

-- A total that is not zero replaces the one before.
abbrev or_kept : ℕ → ℕ → ℕ
or_kept new old = if ltb 0 new then new else old

-- "if we see a completion message it always replaces the progress message".
abbrev pub merged_stats : FlowContext → FlowContext → List QueryStatus
merged_stats collection stats =
    if is_empty stats.query_stats
    then collection.query_stats
    else if is_empty collection.query_stats || (is_running collection && not (is_running stats))
    then stats.query_stats
    else collection.query_stats

abbrev or_request : Option CollectorArgs → Option CollectorArgs → Option CollectorArgs
or_request none old = old
or_request (some args) old = some args

abbrev pub or_error : FlowState → FlowState → FlowState
or_error flow_error old = flow_error
or_error (other_state n) old = old

abbrev error_status : FlowState → String → String → String
error_status flow_error new old = new
error_status (other_state n) new old = old

unfoldable pub merge_records : FlowContext → FlowContext → FlowContext
merge_records collection stats = record collection {
  request = or_request stats.request collection.request;
  total_uploaded_files = or_kept stats.total_uploaded_files collection.total_uploaded_files;
  total_expected_uploaded_bytes =
      or_kept stats.total_expected_uploaded_bytes collection.total_expected_uploaded_bytes;
  total_uploaded_bytes = or_kept stats.total_uploaded_bytes collection.total_uploaded_bytes;
  total_collected_rows = or_kept stats.total_collected_rows collection.total_collected_rows;
  total_logs = or_kept stats.total_logs collection.total_logs;
  active_time = or_kept stats.active_time collection.active_time;
  create_time = or_kept stats.create_time collection.create_time;
  query_stats = merged_stats collection stats;
  state = or_error stats.state collection.state;
  status = error_status stats.state stats.status collection.status;
}

-- `ArtifactCollectorRecord` as it is read: its `Raw` is decoded by the JSON library.
pub record StoredRecord : Type 0 where
  pub client_id : String
  pub session_id : String
  pub raw : Result FlowContext

abbrev filled : StoredRecord → Result FlowContext → Result FlowContext
filled self (err e) = err e
filled self (ok result) = ok (record result {
  client_id = if result.client_id == "" then self.client_id else result.client_id;
  session_id = if result.session_id == "" then self.session_id else result.session_id;
})

unfoldable pub to_proto : StoredRecord → Result FlowContext
to_proto self = filled self self.raw

-- What `buildIndex` starts a flow with.
abbrev pub first_context : StoredRecord → FlowContext → FlowContext
first_context stored item = record {
  client_id = stored.client_id;
  session_id = stored.session_id;
  request = none;
  state = item.state;
  status = "";
  total_uploaded_files = 0;
  total_expected_uploaded_bytes = 0;
  total_uploaded_bytes = 0;
  total_collected_rows = 0;
  total_logs = 0;
  active_time = 0;
  create_time = 0;
  total_requests = item.total_requests;
  outstanding_requests = item.outstanding_requests;
  query_stats = [];
}

abbrev pub existing_or_first : StoredRecord → FlowContext → Option FlowContext → FlowContext
existing_or_first stored item none = first_context stored item
existing_or_first stored item (some existing) = existing

abbrev pub add_item : Assoc FlowContext → StoredRecord → Result FlowContext → Assoc FlowContext
add_item seen stored (err e) = seen
add_item seen stored (ok item) =
    insert item.session_id
      (merge_records (existing_or_first stored item (lookup item.session_id seen)) item) seen

-- A document that does not decode is passed over.
abbrev pub add_record : Assoc FlowContext → Result StoredRecord → Assoc FlowContext
add_record seen (err e) = seen
add_record seen (ok stored) = add_item seen stored (to_proto stored)

-- The loop of `buildIndex` over the documents of a client.
unfoldable pub merge_all : Assoc FlowContext → List (Result StoredRecord) → Assoc FlowContext
merge_all seen [] = seen
merge_all seen (hit ∷ hits) = merge_all (add_record seen hit) hits
