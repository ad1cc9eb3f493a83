-- ===== src/Ingestion/Authority/Handlers.antt =====
-- Each handler of the ingestor does what its message may do.
use cloudvelo.Prelude.{
  option_elim, String, List, [], ◌∷◌, Bool, true, false, ◌||◌, not, Option, none, some,
  if◌then◌else◌, ◌==◌, ok, if_elim, ◌≡◌, refl,
}
use cloudvelo.Prelude.Runs.{after_call}
use cloudvelo.Ingestion.Types.{
  Bytes, VeloMessage, FlowStats, ClientInfoUpdate, Document, collection, enrol, inc_scheduled,
  inc_error, inc_completed, set_index, Handled, Env,
}
use cloudvelo.Ingestion.Hunts.{
  set_index_now, starts_hunt, hunt_entry, maybe_handle_hunt_response, calc_flow_outcome,
  maybe_handle_hunt_flow_stats, context_of, stats_record, handle_flow_stats,
  collector_record_from_proto,
}
use cloudvelo.Ingestion.Clients.{
  lift, handle_enrolment, handle_interrogation, handle_ping, ping_answered, set_client_info,
  update_clients,
}
use cloudvelo.Ingestion.Authority.{
  client_of, sender, IsAllowed, Allows, Allows->>=, Allows-emit, Allows-after_call, Allows-lift,
}

pub handle_enrolment-Allows :
    (env : Env) (m : VeloMessage)
    → m.authenticated ≡ false
    → Allows env (sender m) (handle_enrolment env m)
unfolding handle_enrolment
handle_enrolment-Allows env m h = option_elim (Allows env (sender m)) m.csr tt (λ pem e.
    Allows-emit env (sender m) (enrol pem) (after_call (env.add_certificate_request pem)) (h, e)
      (Allows-after_call env (sender m) (env.add_certificate_request pem)))

-- An authenticated message, of an organisation that exists.
module _ (env : Env) (org : String) where
  abbrev pub Known : VeloMessage → Type 0
  Known m = (m.authenticated ≡ true) × (env.get_org_config m.org_id ≡ ok org)

  abbrev pub Keeps : VeloMessage → Handled → Type 0
  Keeps m run = Allows env (sender m) run

  pub set_index_now-Allows :
      (m : VeloMessage) (index : String) (id : Option String) (doc : Document)
      → Known m
      → client_of doc ≡ m.source
      → Keeps m (set_index_now env org index id doc)
  set_index_now-Allows m index id doc (a, o) own =
      Allows-emit env (sender m) (set_index org index id doc)
        (after_call (env.set_index_call org index id doc)) (a, o, own)
        (Allows-after_call env (sender m) (env.set_index_call org index id doc))

  pub maybe_handle_hunt_response-Allows :
      (m : VeloMessage) → Known m → Keeps m (maybe_handle_hunt_response env org m)
  unfolding maybe_handle_hunt_response
  maybe_handle_hunt_response-Allows m k =
      option_elim (Keeps m) (env.extract_hunt_id m.session_id) tt (λ hunt_id e.
        if_elim (Keeps m) (starts_hunt env m.vql_response)
          (Allows-emit env (sender m) (inc_scheduled hunt_id) _ (k.0, e)
            (set_index_now-Allows m "transient" none
              (hunt_entry env hunt_id m.source m.session_id "started") k refl))
          tt)

  pub maybe_handle_hunt_flow_stats-Allows :
      (m : VeloMessage) (msg : FlowStats) (outcome : Bool × Bool)
      → Known m
      → Keeps m (maybe_handle_hunt_flow_stats env org (context_of m msg) outcome)
  unfolding maybe_handle_hunt_flow_stats
  maybe_handle_hunt_flow_stats-Allows m msg (has_failed, completed) k =
      if_elim (Keeps m) (not completed) tt (
        option_elim (Keeps m) (env.extract_hunt_id m.session_id) tt (λ hunt_id e.
          Allows-emit env (sender m)
            (if has_failed then inc_error hunt_id else inc_completed hunt_id) _
            (if_elim (IsAllowed env (sender m)) has_failed (k.0, e) (k.0, e))
            (set_index_now-Allows m "transient" none
              (hunt_entry env hunt_id m.source m.session_id "updated") k refl)))

  pub handle_flow_stats-Allows : (m : VeloMessage) → Known m → Keeps m (handle_flow_stats env org m)
  unfolding handle_flow_stats collector_record_from_proto
  handle_flow_stats-Allows m k = option_elim (Keeps m) m.flow_stats tt (λ msg e.
      if_elim (Keeps m) (m.source == "" || m.session_id == "") tt (
        Allows->>= env (sender m)
          (set_index_now env org "transient" none
            (collection (stats_record env (context_of m msg))))
          _
          (set_index_now-Allows m "transient" none
            (collection (stats_record env (context_of m msg))) k refl)
          (λ _.
            maybe_handle_hunt_flow_stats-Allows m msg (calc_flow_outcome (context_of m msg)) k)))

  pub ping_answered-Allows :
      (m : VeloMessage) (answer : Option String) → Keeps m (ping_answered env answer)
  ping_answered-Allows m none = tt
  ping_answered-Allows m (some e) = if_elim (Keeps m) (env.is_document_missing e) tt tt

  pub handle_ping-Allows : (m : VeloMessage) → Known m → Keeps m (handle_ping env org m)
  unfolding handle_ping
  handle_ping-Allows m (a, o) =
      Allows-emit env (sender m) _ _ (a, o, refl) (ping_answered-Allows m _)

  pub handle_interrogation-Allows :
      (m : VeloMessage) → Known m → Keeps m (handle_interrogation env org m)
  unfolding handle_interrogation
  handle_interrogation-Allows m (a, o) = ((a, o, refl), tt)

  pub set_client_info-Allows :
      (m : VeloMessage) (row : ClientInfoUpdate)
      → Known m
      → Keeps m (set_client_info env org m.source row)
  unfolding set_client_info
  set_client_info-Allows m row k = set_index_now-Allows m "persisted" (some m.source) _ k refl

  pub update_clients-Allows :
      (m : VeloMessage) (lines : List Bytes)
      → Known m
      → Keeps m (update_clients env org m.source lines)
  unfolding update_clients
  update_clients-Allows m [] k = tt
  update_clients-Allows m (line ∷ lines) k =
      Allows->>= env (sender m) (lift (env.decode_client_info line)) _
        (Allows-lift env (sender m) (env.decode_client_info line))
        (λ row.
          Allows->>= env (sender m) (set_client_info env org m.source row) _
            (set_client_info-Allows m row k) (λ _. update_clients-Allows m lines k))
