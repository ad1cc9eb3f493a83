-- ===== src/Foreman/Update/Exact.antt =====
-- Which client runs which hunt after a pass over the clients.
use cloudvelo.Prelude.{
  ℕ, String, List, [], ◌∷◌, Bool, true, ltb, leb, ◌||◌, ◌*◌, ◌≡◌, refl, sym, ◌∙◌, ap, ◌↔◌, ◌⊎◌, inl,
  inr, In, arith, eq_iff, Bool-cases, Result-cases, ok_injective, none, some, ◌==◌, if◌then◌else◌,
  ok,
}
use cloudvelo.Utils.{Utils}
use cloudvelo.Clients.Record.{ClientRecord, zero_record}
use cloudvelo.Foreman.Types.{Hunt, Plan}
use cloudvelo.Foreman.Plan.{plan_hunt_for_client}
use cloudvelo.Foreman.Plan.Eligible.{Planned, IsEligible}
use cloudvelo.Foreman.Plan.Hunts.{plan_hunt_for_client_exact}
use cloudvelo.Foreman.Update.{
  Index, Hits, add_labels, add_hunts, merge_hit, merge_hits, get_minimal_client_info,
  get_client_hunt_membership, seen_hunt, plan_hunts, hunt_ids,
}

pub seen_hunt_iff : (seen : List String) (k : String) → (seen_hunt seen k ≡ true) ↔ In k seen
unfolding seen_hunt
seen_hunt_iff [] k = (ground arith, absurd)
seen_hunt_iff (h ∷ hs) k =
    let (f, g) = seen_hunt_iff hs k in
    (ground (arith, eq_iff h k, f), ground (arith, eq_iff h k, g))

-- One of the hunts is `k`, was not seen on the client, and is for the client.
pub record Chosen (u : Utils) (client : ClientRecord) (seen : List String) (hunts : List Hunt)
    (k : String) : Type 0 where
  pub hunt : Hunt
  pub among : In hunt hunts
  pub named : k ≡ hunt.hunt_id
  pub unseen : ¬ In k seen
  pub eligible : IsEligible u client hunt

widen :
    {u : Utils} {client : ClientRecord} {seen : List String} {hs : List Hunt} {k : String}
    (h : Hunt)
    → Chosen u client seen hs k
    → Chosen u client seen (h ∷ hs) k
widen h q = record {
  hunt = q.hunt;
  among = inr q.among;
  named = q.named;
  unseen = q.unseen;
  eligible = q.eligible;
}

-- One hunt of the loop.
plan_one :
    (u : Utils) (client : ClientRecord) (seen : List String) (h : Hunt) (p : Plan) (c k : String)
    → Planned (if seen_hunt seen h.hunt_id then p else plan_hunt_for_client u client h p) c k ↔ (
        Planned p c k
        ⊎ ((c ≡ client.client_id) × (k ≡ h.hunt_id) × (¬ In k seen) × IsEligible u client h))
plan_one u client seen h p c k =
    let (f, f') = seen_hunt_iff seen h.hunt_id in
    let (g, g') = plan_hunt_for_client_exact u client h p c k in
    elim (Bool-cases (seen_hunt seen h.hunt_id)) [
      | inl e ↦ rw e (inl, λ x. elim x [ inl m ↦ m | inr q ↦ absurd (q.2 (rw (q.1) (f e))) ])
      | inr e ↦ rw e (
        λ x. elim (g x) [
          | inl m ↦ inl m
          | inr q ↦ inr (q.0, q.1, (λ m. cc (f' (rw (q.1) at m))), q.2)
        ],
        λ x. g' (elim x [ inl m ↦ inl m | inr q ↦ inr (q.0, q.1, q.3) ]),
      )
    ]

pub plan_hunts_exact :
    (u : Utils) (client : ClientRecord) (seen : List String) (hs : List Hunt) (p : Plan)
    (c k : String)
    → Planned (plan_hunts u client seen hs p) c k
      ↔ (Planned p c k ⊎ ((c ≡ client.client_id) × Chosen u client seen hs k))
unfolding plan_hunts
plan_hunts_exact u client seen [] p c k =
    (inl, λ x. elim x [ inl m ↦ m | inr q ↦ absurd ((q.1).among) ])
plan_hunts_exact u client seen (h ∷ hs) p c k =
    let p' = if seen_hunt seen h.hunt_id then p else plan_hunt_for_client u client h p in
    let (f, f') = plan_hunts_exact u client seen hs p' c k in
    let (g, g') = plan_one u client seen h p c k in
    (
      λ x. elim (f x) [
        | inl m ↦ elim (g m) [
          | inl m' ↦ inl m'
          | inr q ↦ inr (
            q.0,
            record { hunt = h; among = inl refl; named = q.1; unseen = q.2; eligible = q.3 },
          )
        ]
        | inr q ↦ inr (q.0, widen h (q.1))
      ],
      λ x. elim x [
        | inl m ↦ f' (inl (g' (inl m)))
        | inr q ↦ elim ((q.1).among) [
          | inl e ↦ f' (
              inl (
                g' (
                  inr (
                    q.0,
                    (q.1).named ∙ ap (λ (h : Hunt). h.hunt_id) e,
                    (q.1).unseen,
                    rw e at ((q.1).eligible),
                  ))))
          | inr m ↦ f' (
              inr (
                q.0,
                record {
                  hunt = (q.1).hunt;
                  among = m;
                  named = (q.1).named;
                  unseen = (q.1).unseen;
                  eligible = (q.1).eligible;
                },
              ))
        ]
      ],
    )

add_labels-client_id :
    (u : Utils) (ls : List String) (r : ClientRecord) → (add_labels u ls r).client_id ≡ r.client_id
unfolding add_labels
add_labels-client_id u [] r = refl
add_labels-client_id u (l ∷ ls) r = add_labels-client_id u ls _ ∙ ground arith

add_hunts-client_id :
    (u : Utils) (hs : List String) (r : ClientRecord) → (add_hunts u hs r).client_id ≡ r.client_id
unfolding add_hunts
add_hunts-client_id u [] r = refl
add_hunts-client_id u (h ∷ hs) r = add_hunts-client_id u hs _ ∙ ground arith

merge_hit-client_id : (u : Utils) (r h : ClientRecord) → (merge_hit u r h).client_id ≡ r.client_id
unfolding merge_hit
merge_hit-client_id u r h = elim (Bool-cases (h.system == "")) [
  | inl e ↦ rw e (add_hunts-client_id u h.assigned_hunts _ ∙ add_labels-client_id u h.labels _)
  | inr e ↦ rw e (add_hunts-client_id u h.assigned_hunts _ ∙ add_labels-client_id u h.labels _)
]

merge_hits-client_id :
    (u : Utils) (r : ClientRecord) (hits : Hits) → (merge_hits u r hits).client_id ≡ r.client_id
unfolding merge_hits
merge_hits-client_id u r [] = refl
merge_hits-client_id u r (none ∷ hits) = merge_hits-client_id u r hits
merge_hits-client_id u r (some h ∷ hits) =
    merge_hits-client_id u (merge_hit u r h) hits ∙ merge_hit-client_id u r h

-- The merged record is that of the client that was asked for.
pub get_minimal_client_info-client_id :
    (u : Utils) (index : Index) (c : String) {client : ClientRecord}
    → get_minimal_client_info u index c ≡ ok client
    → client.client_id ≡ c
unfolding get_minimal_client_info
get_minimal_client_info-client_id u index c {client} e =
    elim (Result-cases (index.client_documents c)) [
      | inl (hits, there) ↦
          let q : ok
                (merge_hits u (record zero_record { client_id = c; doc_type = "clients" }) hits)
              ≡ ok client =
            rw there at e in
          ap (λ (r : ClientRecord). r.client_id) (sym (ok_injective q))
          ∙ merge_hits-client_id u _ hits
      | inr (m, failed) ↦ cc (rw failed at e)
    ]

-- The pass gives client `c` the hunt `k`: the index has the client's record and the hunts that it
-- ran, and `k` is one of the running hunts that it did not run and is eligible for.
pub record Targeted (u : Utils) (index : Index) (running : List Hunt) (c k : String) : Type 0 where
  pub client : ClientRecord
  pub known : get_minimal_client_info u index c ≡ ok client
  pub seen : List String
  pub membership : get_client_hunt_membership index c (hunt_ids running) ≡ ok seen
  pub chosen : Chosen u client seen running k

-- The hunt started before the sweep, or at its end or later.
abbrev pub is_old : ℕ → ℕ → Hunt → Bool
is_old early now h = ltb (h.start_time * 1000) early || leb now (h.start_time * 1000)
