-- ===== src/Foreman/Plan/Monitoring.antt =====
-- The event tables of the plan: every listed client is listed under the message that it is owed.
use cloudvelo.Prelude.{
  ℕ, String, List, [], ◌∷◌, some, true, false, ◌≡◌, refl, sym, ◌∙◌, ◌⊎◌, inl, inr, In, NoDup, arith,
  eq_iff, lookup, lookup_or, lookup-insert, lookup_or-none, lookup_or-some, eq_refl, ap, Bool-cases,
  Option-cases, if◌then◌else◌, ◌==◌, subst,
}
use cloudvelo.Utils.{Utils}
use cloudvelo.Clients.Record.{ClientRecord}
use cloudvelo.Foreman.Types.{Event, EventTable, Message, Plan, new_plan}
use cloudvelo.Foreman.Labels.{labels_key, get_client_update_event_table_message}
use cloudvelo.Foreman.Labels.Sharing.{IsPlainTable, labels_key-events}
use cloudvelo.Foreman.Labels.Owed.{IsOwed, message-IsOwed}
use cloudvelo.Foreman.Plan.{needs_update, plan_monitoring_for_client}

-- The event queries that clients with these labels are owed.
abbrev pub owed : Utils → ℕ → EventTable → List String → List Event
owed u w state labels = (get_client_update_event_table_message u 0 w state labels).events

pub record IsConsistent (u : Utils) (w : ℕ) (state : EventTable) (p : Plan) : Type 0 where
  pub same_state : p.current_monitoring_state ≡ state
  pub right_message :
      (key : String) (m : Message)
      → lookup key p.monitoring_tables ≡ some m
      → (labels : List String) × (labels_key u labels state ≡ key)
        × (m.events ≡ owed u w state labels)
  pub has_message :
      (key : String) (cs : List String)
      → lookup key p.monitoring_tables_to_clients ≡ some cs
      → (m : Message) × (lookup key p.monitoring_tables ≡ some m)
  pub distinct :
      (key : String) (cs : List String)
      → lookup key p.monitoring_tables_to_clients ≡ some cs
      → NoDup cs

pub new_plan-IsConsistent :
    (u : Utils) (w : ℕ) (state : EventTable) → IsConsistent u w state (new_plan state)
unfolding lookup
new_plan-IsConsistent u w state = record {
  same_state = refl;
  right_message = λ key m e. cc;
  has_message = λ key cs e. cc;
  distinct = λ key cs e. cc;
}

module _ (u : Utils) (now w last : ℕ) (client : ClientRecord) (p : Plan) where
  abbrev key : String
  key = labels_key u client.labels p.current_monitoring_state

  abbrev planned : Plan
  planned = plan_monitoring_for_client u now w last client p

  tables_after :
      needs_update last client p ≡ true
      → (k : String)
      → lookup k planned.monitoring_tables ≡ (
          if key == k
          then some (
              lookup_or
                (get_client_update_event_table_message u now w p.current_monitoring_state
                  client.labels)
                key
                p.monitoring_tables)
          else lookup k p.monitoring_tables)
  unfolding plan_monitoring_for_client lookup_or
  tables_after h k = ground (
    arith,
    eq_iff key k,
    lookup-insert key k
        (get_client_update_event_table_message u now w p.current_monitoring_state client.labels)
        p.monitoring_tables,
  )

  clients_after :
      needs_update last client p ≡ true
      → (k : String)
      → let old = lookup_or [] key p.monitoring_tables_to_clients in
        lookup k planned.monitoring_tables_to_clients ≡ (
          if u.in_string old client.client_id
          then lookup k p.monitoring_tables_to_clients
          else if key == k
          then some (client.client_id ∷ old)
          else lookup k p.monitoring_tables_to_clients)
  unfolding plan_monitoring_for_client lookup_or
  clients_after h k = ground (
    arith,
    lookup-insert key k (client.client_id ∷ lookup_or [] key p.monitoring_tables_to_clients)
        p.monitoring_tables_to_clients,
  )

  state_after : planned.current_monitoring_state ≡ p.current_monitoring_state
  unfolding plan_monitoring_for_client
  state_after = ground arith

  unchanged : needs_update last client p ≡ false → planned ≡ p
  unfolding plan_monitoring_for_client
  unchanged h = rw h

events_now :
    (u : Utils) (now w : ℕ) (state : EventTable) (labels : List String)
    → (get_client_update_event_table_message u now w state labels).events ≡ owed u w state labels
unfolding get_client_update_event_table_message
events_now u now w state labels = refl

module _ (u : Utils) (now w last : ℕ) (state : EventTable) (client : ClientRecord) (p : Plan)
    (v : IsConsistent u w state p) where
  abbrev planned' : Plan
  planned' = plan_monitoring_for_client u now w last client p

  abbrev here : String
  here = key u now w last client p

  abbrev msg : Message
  msg = get_client_update_event_table_message u now w p.current_monitoring_state client.labels

  abbrev listed : List String
  listed = lookup_or [] here p.monitoring_tables_to_clients

  here-key : labels_key u client.labels state ≡ here
  here-key = ap (labels_key u client.labels) (sym v.same_state)

  msg-owed : msg.events ≡ owed u w state client.labels
  msg-owed =
      events_now u now w p.current_monitoring_state client.labels
      ∙ ap (λ s. owed u w s client.labels) v.same_state

  right_after :
      needs_update last client p ≡ true
      → (k : String) (m : Message) → lookup k planned'.monitoring_tables ≡ some m
      → (labels : List String) × (labels_key u labels state ≡ k)
        × (m.events ≡ owed u w state labels)
  right_after h k m e = elim (Bool-cases (here == k)) [
    | inr ne ↦ v.right_message k m (sym (rw ne at (tables_after u now w last client p h k)) ∙ e)
    | inl same ↦
        let k-here : here ≡ k = (eq_iff here k).0 same in
        let there : some (lookup_or msg here p.monitoring_tables) ≡ some m =
          sym (rw same at (tables_after u now w last client p h k)) ∙ e in
        elim (Option-cases (lookup here p.monitoring_tables)) [
          | inl absent ↦
              let q : msg ≡ m = cc (there, lookup_or-none msg here p.monitoring_tables absent) in
              (client.labels, here-key ∙ k-here, ap (λ (x : Message). x.events) (sym q) ∙ msg-owed)
          | inr (m', present) ↦
              let q : m' ≡ m = cc (there, lookup_or-some msg here p.monitoring_tables present) in
              v.right_message k m (rw (← k-here, ← q) present)
        ]
  ]

  -- A key that has a message keeps one, and the client's key gets one.
  filed :
      needs_update last client p ≡ true
      → (k : String)
      → ((here == k) ≡ true) ⊎ ((m : Message) × (lookup k p.monitoring_tables ≡ some m))
      → (m : Message) × (lookup k planned'.monitoring_tables ≡ some m)
  filed h k c = elim (Bool-cases (here == k)) [
    | inl same ↦ (
      lookup_or msg here p.monitoring_tables,
      rw same at (tables_after u now w last client p h k),
    )
    | inr ne ↦ elim c [
      | inl same ↦ cc
      | inr (m, e) ↦ (m, rw ne at (tables_after u now w last client p h k) ∙ e)
    ]
  ]

  listed-NoDup : NoDup listed
  listed-NoDup = elim (Option-cases (lookup here p.monitoring_tables_to_clients)) [
    | inl absent ↦
        rw (lookup_or-none {V = List String} [] here p.monitoring_tables_to_clients absent) tt
    | inr (cs, present) ↦
        rw (lookup_or-some [] here p.monitoring_tables_to_clients present)
          (v.distinct here cs present)
  ]

  -- The clients under a key: those of before, or the client in front of them.
  clients_cases :
      needs_update last client p ≡ true
      → (k : String) (cs : List String) → lookup k planned'.monitoring_tables_to_clients ≡ some cs
      → (lookup k p.monitoring_tables_to_clients ≡ some cs)
        ⊎ (((here == k) ≡ true) × (cs ≡ client.client_id ∷ listed) × (¬ In client.client_id listed))
  clients_cases h k cs e =
      let (f, f') = u.in_string_iff listed client.client_id in
      let after = clients_after u now w last client p h k in
      elim (Bool-cases (u.in_string listed client.client_id)) [
        | inl old ↦ inl (sym (rw old at after) ∙ e)
        | inr new ↦ elim (Bool-cases (here == k)) [
          | inl same ↦ inr (same, cc (rw (new, same) at after, e), λ m. cc (f' m))
          | inr ne ↦ inl (sym (rw (new, ne) at after) ∙ e)
        ]
      ]

  -- Planning keeps the tables consistent.
  pub plan_monitoring_for_client-IsConsistent : IsConsistent u w state planned'
  plan_monitoring_for_client-IsConsistent = elim (Bool-cases (needs_update last client p)) [
    | inr idle ↦ rw (unchanged u now w last client p idle) v
    | inl h ↦ record {
      same_state = state_after u now w last client p ∙ v.same_state;
      right_message = right_after h;
      has_message = λ k cs e. elim (clients_cases h k cs e) [
        | inl old ↦ filed h k (inr (v.has_message k cs old))
        | inr new ↦ filed h k (inl new.0)
      ];
      distinct = λ k cs e. elim (clients_cases h k cs e) [
        | inl old ↦ v.distinct k cs old
        | inr new ↦ rw (new.1) (new.2, listed-NoDup)
      ];
    }
  ]

  -- From a consistent plan over a plain event table, planning a client whose labels or whose event
  -- table changed lists it, under a message whose events are the table's queries for all clients and
  -- for the client's labels, no fewer and no others, each with its time limits.
  pub plan_monitoring_for_client_delivers :
      IsPlainTable state
      → needs_update last client p ≡ true
      → (key : String) × (m : Message) × (cs : List String) × (lookup key planned'.monitoring_tables
          ≡ some m)
        × (lookup key planned'.monitoring_tables_to_clients ≡ some cs)
        × In client.client_id cs
        × IsOwed w state client.labels m.events
  plan_monitoring_for_client_delivers plain h =
      let (m, found) = filed h here (inl (eq_refl here)) in
      let (labels, same_key, right) = right_after h here m found in
      let same_events : m.events ≡ owed u w state client.labels =
        right
        ∙ labels_key-events u 0 0 w state labels client.labels plain (same_key ∙ sym here-key) in
      let right' : IsOwed w state client.labels m.events =
        subst (IsOwed w state client.labels) (sym same_events)
          (message-IsOwed u 0 w state client.labels) in
      let (f, f') = u.in_string_iff listed client.client_id in
      let after = clients_after u now w last client p h here in
      elim (Bool-cases (u.in_string listed client.client_id)) [
        | inl old ↦ elim (Option-cases (lookup here p.monitoring_tables_to_clients)) [
          | inl absent ↦ absurd (
              rw (lookup_or-none {V = List String} [] here p.monitoring_tables_to_clients absent) at
                (f old))
          | inr (cs, present) ↦ (
            here,
            m,
            cs,
            found,
            rw old at after ∙ present,
            rw (lookup_or-some [] here p.monitoring_tables_to_clients present) at (f old),
            right',
          )
        ]
        | inr new ↦ (
          here,
          m,
          client.client_id ∷ listed,
          found,
          rw (new, eq_refl here) at after,
          inl refl,
          right',
        )
      ]
