-- ===== src/Ingestion/Flows.antt =====
-- What the statistics of a flow change: the flow's record, and the counters of its hunt.
use cloudvelo.Prelude.{
  String, List, [], ◌∷◌, Bool, true, false, ◌||◌, Option, none, some, if◌then◌else◌, ◌==◌, In,
  some_elim, if_false, ◌≡◌, refl, ap, ◌∙◌, inl, inr,
}
use cloudvelo.Prelude.Runs.{◌>>◌, effects}
use cloudvelo.Ingestion.Types.{
  VeloMessage, QueryStatus, progress, generic_error, succeeded, FlowStats, Document, collection,
  Effect, inc_error, inc_completed, set_index, Handled, Env,
}
use cloudvelo.Ingestion.Hunts.{
  set_index_now, hunt_entry, calc_flow_outcome, flow_outcome, maybe_handle_hunt_flow_stats,
  context_of, stats_id, handle_flow_stats, get_document_id_for_collection,
  collector_record_from_proto,
}

-- The outcome does not depend on the order of the statuses, but for a query that still runs.
flow_outcome-progress :
    (has_failed : Bool) (stats : List QueryStatus)
    → In progress stats
    → flow_outcome has_failed stats ≡ (false, false)
unfolding flow_outcome
flow_outcome-progress has_failed [] m = absurd m
flow_outcome-progress has_failed (progress ∷ rest) m = refl
flow_outcome-progress has_failed (generic_error ∷ rest) m =
    flow_outcome-progress true rest (elim m [ inl e ↦ cc e | inr n ↦ n ])
flow_outcome-progress has_failed (succeeded ∷ rest) m =
    flow_outcome-progress has_failed rest (elim m [ inl e ↦ cc e | inr n ↦ n ])

flow_outcome-failed :
    (stats : List QueryStatus) → ¬ In progress stats → flow_outcome true stats ≡ (true, true)
unfolding flow_outcome
flow_outcome-failed [] n = refl
flow_outcome-failed (progress ∷ rest) n = absurd (n (inl refl))
flow_outcome-failed (generic_error ∷ rest) n = flow_outcome-failed rest (λ m. n (inr m))
flow_outcome-failed (succeeded ∷ rest) n = flow_outcome-failed rest (λ m. n (inr m))

flow_outcome-error :
    (stats : List QueryStatus)
    → ¬ In progress stats
    → In generic_error stats
    → flow_outcome false stats ≡ (true, true)
unfolding flow_outcome
flow_outcome-error [] n m = absurd m
flow_outcome-error (progress ∷ rest) n m = absurd (n (inl refl))
flow_outcome-error (generic_error ∷ rest) n m = flow_outcome-failed rest (λ k. n (inr k))
flow_outcome-error (succeeded ∷ rest) n m =
    flow_outcome-error rest (λ k. n (inr k)) (elim m [ inl e ↦ cc e | inr k ↦ k ])

flow_outcome-completed :
    (stats : List QueryStatus)
    → ¬ In progress stats
    → ¬ In generic_error stats
    → flow_outcome false stats ≡ (false, true)
unfolding flow_outcome
flow_outcome-completed [] n m = refl
flow_outcome-completed (progress ∷ rest) n m = absurd (n (inl refl))
flow_outcome-completed (generic_error ∷ rest) n m = absurd (m (inl refl))
flow_outcome-completed (succeeded ∷ rest) n m =
    flow_outcome-completed rest (λ k. n (inr k)) (λ k. m (inr k))

-- The write of the flow's record under this id.
abbrev pub stats_write : Env → String → VeloMessage → FlowStats → String → Effect
stats_write env org message msg doc_type =
    let context = context_of message msg in
    set_index org "transient" none (
      collection
        (record (collector_record_from_proto env context
          (get_document_id_for_collection message.source message.session_id doc_type)) {
            type_ = "stats";
          }))

-- The row of the hunt's flow.
abbrev pub hunt_write : Env → String → VeloMessage → String → Effect
hunt_write env org message hunt_id =
    set_index org "transient" none
      (hunt_entry env hunt_id message.source message.session_id "updated")

-- The index takes every document.
abbrev pub IsTaking : Env → String → Type 0
IsTaking env org =
    (index : String) (id : Option String) (doc : Document)
    → env.set_index_call org index id doc ≡ none

abbrev with_stats : Env → String → VeloMessage → FlowStats → Bool × Bool → Handled
with_stats env org message msg outcome = do
  set_index_now env org "transient" none (
      collection
        (record (collector_record_from_proto env (context_of message msg)
          (stats_id (context_of message msg) outcome.1)) { type_ = "stats" }))
  maybe_handle_hunt_flow_stats env org (context_of message msg) outcome

handle_flow_stats-with :
    (env : Env) (org : String) (message : VeloMessage) (msg : FlowStats)
    → message.flow_stats ≡ some msg
    → (message.source == "") ≡ false
    → (message.session_id == "") ≡ false
    → handle_flow_stats env org message
      ≡ with_stats env org message msg (calc_flow_outcome (context_of message msg))
unfolding handle_flow_stats
handle_flow_stats-with env org message msg has_stats source session =
    some_elim (λ r. r ≡ with_stats env org message msg (calc_flow_outcome (context_of message msg)))
      message.flow_stats _ _ msg has_stats
      (if_false {b = message.source == "" || message.session_id == ""} _ (simp (source, session)))

-- The three outcomes, when the index answers.
with_stats-progress :
    (env : Env) (org : String) (message : VeloMessage) (msg : FlowStats)
    → IsTaking env org
    → effects (with_stats env org message msg (false, false))
      ≡ stats_write env org message msg "stats" ∷ []
unfolding maybe_handle_hunt_flow_stats stats_id
with_stats-progress env org message msg takes = simp takes

with_stats-ended :
    (env : Env) (org : String) (message : VeloMessage) (msg : FlowStats) (hunt_id : String)
    (has_failed : Bool)
    → IsTaking env org
    → env.extract_hunt_id message.session_id ≡ some hunt_id
    → effects (with_stats env org message msg (has_failed, true))
      ≡ stats_write env org message msg "completed"
        ∷ (if has_failed then inc_error hunt_id else inc_completed hunt_id)
        ∷ hunt_write env org message hunt_id
        ∷ []
unfolding maybe_handle_hunt_flow_stats stats_id
with_stats-ended env org message msg hunt_id has_failed takes hunt = simp (takes, hunt)

-- For statistics with a source and a session, of a flow of a hunt, when the index takes every
-- document: while a query is in progress the flow's record is written with the id of its progress,
-- and nothing else happens; when none is, the record has the id of completed flows, and the hunt counts
-- one more flow, as failed if some query failed and as completed if none did, and gets its row.
pub handle_flow_stats-counts :
    (env : Env) (org : String) (message : VeloMessage) (msg : FlowStats) (hunt_id : String)
    → message.flow_stats ≡ some msg
    → (message.source == "") ≡ false
    → (message.session_id == "") ≡ false
    → env.extract_hunt_id message.session_id ≡ some hunt_id
    → IsTaking env org
    → (In progress msg.query_status
        → effects (handle_flow_stats env org message)
          ≡ stats_write env org message msg "stats" ∷ [])
      × (¬ In progress msg.query_status
          → In generic_error msg.query_status
          → effects (handle_flow_stats env org message)
            ≡ stats_write env org message msg "completed"
              ∷ inc_error hunt_id
              ∷ hunt_write env org message hunt_id
              ∷ [])
      × (¬ In progress msg.query_status
          → ¬ In generic_error msg.query_status
          → effects (handle_flow_stats env org message)
            ≡ stats_write env org message msg "completed"
              ∷ inc_completed hunt_id
              ∷ hunt_write env org message hunt_id
              ∷ [])
unfolding calc_flow_outcome
handle_flow_stats-counts env org message msg hunt_id has_stats source session hunt takes =
    let start = ap effects (handle_flow_stats-with env org message msg has_stats source session) in
    let by = λ (o : Bool × Bool) (e : flow_outcome false msg.query_status ≡ o).
      start ∙ ap (λ o'. effects (with_stats env org message msg o')) e in
    (
      λ m.
          by (false, false) (flow_outcome-progress false msg.query_status m)
          ∙ with_stats-progress env org message msg takes,
      λ n m.
          by (true, true) (flow_outcome-error msg.query_status n m)
          ∙ with_stats-ended env org message msg hunt_id true takes hunt,
      λ n m.
          by (false, true) (flow_outcome-completed msg.query_status n m)
          ∙ with_stats-ended env org message msg hunt_id false takes hunt,
    )
