-- ===== src/Launcher/Completion.antt =====
-- A flow that was reported as completed is shown as completed, whatever the order of its documents.
use cloudvelo.Prelude.{
  ℕ, String, List, Bool, true, ◌&&◌, ◌||◌, not, none, some, if◌then◌else◌, Assoc, lookup, ok, ◌≡◌,
  ◌⊎◌, refl, arith, if_cases, inl, inr,
}
use cloudvelo.Ingestion.Types.{QueryStatus, CollectorContext, CollectorRecord}
use cloudvelo.Launcher.{
  FlowState, flow_error, other_state, FlowContext, in_progress, running, is_running, is_empty,
  or_error, merge_records, StoredRecord, to_proto,
}

-- No query runs, and the flow ended with an error or has the status of some query.
abbrev pub ended : FlowState → List QueryStatus → Bool
ended flow_error stats = true
ended (other_state n) stats = not (is_empty stats) && not (in_progress stats)

abbrev pub is_ended : FlowContext → Bool
is_ended context = ended context.state context.query_stats

-- The statuses of two contexts without an error.
chosen-ended :
    (p q : List QueryStatus) (m n : ℕ)
    → (ended (other_state m) p ≡ true) ⊎ (ended (other_state n) q ≡ true)
    → ended (other_state m) (
        if is_empty q
        then p
        else if is_empty p || (in_progress p && not (in_progress q))
        then q
        else p)
      ≡ true
chosen-ended p q m n h =
    if_cases (λ l. ended (other_state m) l ≡ true) (is_empty q)
      (λ e. elim h [ inl a ↦ a | inr b ↦ ground (arith, e, b) ])
      (λ e.
        if_cases (λ l. ended (other_state m) l ≡ true)
          (is_empty p || (in_progress p && not (in_progress q)))
          (λ f. elim h [ inl a ↦ ground (arith, e, f, a) | inr b ↦ b ])
          (λ f. elim h [ inl a ↦ a | inr b ↦ ground (arith, e, f, b) ]))

-- Whatever the states are.
merged-ended :
    (s t : FlowState) (p q : List QueryStatus)
    → (ended s p ≡ true) ⊎ (ended t q ≡ true)
    → ended (or_error t s) (
        if is_empty q then p else if is_empty p || (running s p && not (running t q)) then q else p)
      ≡ true
merged-ended s flow_error p q h = refl
merged-ended flow_error (other_state n) p q h = refl
merged-ended (other_state m) (other_state n) p q h = chosen-ended p q m n h

pub merge_records-ended :
    (collection stats : FlowContext)
    → (is_ended collection ≡ true) ⊎ (is_ended stats ≡ true)
    → is_ended (merge_records collection stats) ≡ true
unfolding merge_records is_running
merge_records-ended collection stats h =
    merged-ended collection.state stats.state collection.query_stats stats.query_stats h

-- The flow is in the map, and has ended there.
abbrev EndedIn : String → Assoc FlowContext → Type 0
EndedIn id seen = (c : FlowContext) × (lookup id seen ≡ some c) × (is_ended c ≡ true)

-- The document decodes, and is one of this flow.
abbrev pub Holds : StoredRecord → FlowContext → Type 0
Holds stored item = to_proto stored ≡ ok item

-- What the ingestor stores of a flow, as it is read again.
abbrev pub of_stats : CollectorContext → FlowContext
of_stats c = record {
  client_id = c.client_id;
  session_id = c.session_id;
  request = none;
  state = other_state 0;
  status = "";
  total_uploaded_files = c.total_uploaded_files;
  total_expected_uploaded_bytes = c.total_expected_uploaded_bytes;
  total_uploaded_bytes = c.total_uploaded_bytes;
  total_collected_rows = c.total_collected_rows;
  total_logs = c.total_logs;
  active_time = c.active_time;
  create_time = 0;
  total_requests = 0;
  outstanding_requests = 0;
  query_stats = c.query_stats;
}

-- The document that the ingestor writes, when it is read.
abbrev pub stored_as : CollectorRecord → StoredRecord
stored_as r = record {
  client_id = r.client_id;
  session_id = r.session_id;
  raw = ok (of_stats r.raw);
}
