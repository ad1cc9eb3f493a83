-- ===== src/Foreman/Plan/Hunts.antt =====
-- What planning one hunt for one client does to the plan.
use cloudvelo.Prelude.{
  String, List, [], ◌∷◌, ◌++◌, map, true, false, ◌≡◌, refl, sym, ap, ◌↔◌, ◌⊎◌, inl, inr, In,
  In-append, arith, eq_iff, lookup_or, lookup-insert, Bool-cases, Option-cases, if◌then◌else◌, ◌==◌,
}
use cloudvelo.Utils.{Utils}
use cloudvelo.Clients.Record.{ClientRecord}
use cloudvelo.Foreman.Types.{Hunt, Condition, Plan}
use cloudvelo.Foreman.Plan.{
  hunts_contain, assign_client_to_hunt, plan_hunt_for_client, misses_labels, has_excluded,
  other_system,
}
use cloudvelo.Foreman.Plan.Eligible.{
  Planned, IsEligible, Meets, hunts_contain_iff, misses_labels_iff, has_excluded_iff,
  other_system_iff,
}

abbrev hunt_ids : List Hunt → List String
hunt_ids = map (λ (h : Hunt). h.hunt_id)

hunt_ids-snoc :
    (hs : List Hunt) (h : Hunt) → hunt_ids (hs ++ h ∷ []) ≡ hunt_ids hs ++ h.hunt_id ∷ []
hunt_ids-snoc [] h = refl
hunt_ids-snoc (x ∷ hs) h = ap (◌∷◌ x.hunt_id) (hunt_ids-snoc hs h)

-- The hunts of each client after an assignment.
assigned :
    (client : ClientRecord) (hunt : Hunt) (plan : Plan) (c : String)
    → let old = lookup_or [] c plan.client_id_to_hunts in
      lookup_or [] c (assign_client_to_hunt client hunt plan).client_id_to_hunts ≡ (
        if client.client_id == c
        then (if hunts_contain old hunt.hunt_id then old else old ++ hunt ∷ [])
        else old)
unfolding assign_client_to_hunt lookup_or
assigned client hunt plan c = ground (
  arith,
  eq_iff client.client_id c,
  lookup-insert client.client_id c
      (lookup_or [] client.client_id plan.client_id_to_hunts ++ hunt ∷ []) plan.client_id_to_hunts,
)

In-hunt_ids-snoc :
    (hs : List Hunt) (h : Hunt) (k : String)
    → In k (hunt_ids (hs ++ h ∷ [])) ↔ (In k (hunt_ids hs) ⊎ (k ≡ h.hunt_id))
In-hunt_ids-snoc hs h k =
    let (f, g) = In-append k (hunt_ids hs) (h.hunt_id ∷ []) in
    rw (hunt_ids-snoc hs h) (ground (arith, f), ground (arith, g))

pub Planned-assign :
    (client : ClientRecord) (hunt : Hunt) (plan : Plan) (c k : String)
    → Planned (assign_client_to_hunt client hunt plan) c k
      ↔ (Planned plan c k ⊎ ((c ≡ client.client_id) × (k ≡ hunt.hunt_id)))
Planned-assign client hunt plan c k =
    let old = lookup_or [] c plan.client_id_to_hunts in
    let (f, g) = In-hunt_ids-snoc old hunt k in
    let (f', g') = hunts_contain_iff old hunt.hunt_id in
    rw (assigned client hunt plan c) (elim (Bool-cases (client.client_id == c)) [
      | inl e ↦ elim (Bool-cases (hunts_contain old hunt.hunt_id)) [
        | inl there ↦ rw (e, there) (inl, λ h. elim h [ inl m ↦ m | inr q ↦ rw q.1 (f' there) ])
        | inr new ↦
            rw (e, new)
              (
                λ h. elim (f h) [
                  | inl m ↦ inl m
                  | inr q ↦ inr (sym ((eq_iff client.client_id c).0 e), q)
                ],
                λ h. g (elim h [ inl m ↦ inl m | inr q ↦ inr q.1 ]),
              )
      ]
      | inr ne ↦ rw ne (inl, ground (arith, eq_iff client.client_id c))
    ])

-- The three guards together, against `Meets`.
Meets-condition :
    (u : Utils) (client : ClientRecord) (c : Condition)
    → (Meets u client c
        × (misses_labels u client c.labels ≡ false)
        × (has_excluded u client c.excluded_labels ≡ false)
        × (other_system client c.os ≡ false))
      ⊎ ((¬ Meets u client c)
          × ((misses_labels u client c.labels ≡ true)
              ⊎ (has_excluded u client c.excluded_labels ≡ true)
              ⊎ (other_system client c.os ≡ true)))
Meets-condition u client c =
    let (f, f') = misses_labels_iff u client c.labels in
    let (g, g') = has_excluded_iff u client c.excluded_labels in
    let (h, h') = other_system_iff client c.os in
    elim (Bool-cases (misses_labels u client c.labels)) [
      | inl e ↦ inr (λ m. cc (f' m.labelled), inl e)
      | inr l ↦ elim (Bool-cases (has_excluded u client c.excluded_labels)) [
        | inl e ↦ inr (λ m. cc (g' m.not_excluded), inr (inl e))
        | inr x ↦ elim (Bool-cases (other_system client c.os)) [
          | inl e ↦ inr (λ m. cc (h' m.on_system), inr (inr e))
          | inr o ↦ inl (record { labelled = f l; not_excluded = g x; on_system = h o }, l, x, o)
        ]
      ]
    ]

-- The planner assigns an eligible client and leaves the plan alone for any other.
plan_hunt_for_client-cases :
    (u : Utils) (client : ClientRecord) (hunt : Hunt) (plan : Plan)
    → let plan' = plan_hunt_for_client u client hunt plan in
      ((plan' ≡ assign_client_to_hunt client hunt plan) × IsEligible u client hunt)
      ⊎ ((plan' ≡ plan) × (¬ IsEligible u client hunt))
unfolding plan_hunt_for_client
plan_hunt_for_client-cases u client hunt plan =
    let (f, f') = u.in_string_iff client.assigned_hunts hunt.hunt_id in
    elim (Bool-cases (u.in_string client.assigned_hunts hunt.hunt_id)) [
      | inl e ↦ inr (rw e, λ h. h.0 (f e))
      | inr ne ↦ elim (Option-cases hunt.condition) [
        | inl e ↦ inl (ground arith, (λ m. cc (f' m), rw e tt))
        | inr (c, e) ↦ elim (Meets-condition u client c) [
          | inl (m, l, x, o) ↦ inl (ground arith, (λ i. cc (f' i), rw e m))
          | inr (n, blocked) ↦ inr (ground arith, λ h. n (rw e at (h.1)))
        ]
      ]
    ]

-- After planning one hunt for one client, the plan runs hunt `k` on client `c` exactly if it did
-- before, or `c` is the client, `k` the hunt, and the client is eligible for it.
pub plan_hunt_for_client_exact :
    (u : Utils) (client : ClientRecord) (hunt : Hunt) (plan : Plan) (c k : String)
    → Planned (plan_hunt_for_client u client hunt plan) c k ↔ (
        Planned plan c k ⊎ ((c ≡ client.client_id) × (k ≡ hunt.hunt_id) × IsEligible u client hunt))
plan_hunt_for_client_exact u client hunt plan c k =
    elim (plan_hunt_for_client-cases u client hunt plan) [
      | inl (e, eligible) ↦
          let (f, g) = Planned-assign client hunt plan c k in
          rw e (
            λ h. elim (f h) [ inl m ↦ inl m | inr q ↦ inr (q.0, q.1, eligible) ],
            λ h. g (elim h [ inl m ↦ inl m | inr q ↦ inr (q.0, q.1) ]),
          )
      | inr (e, ineligible) ↦
          rw e (inl, λ h. elim h [ inl m ↦ m | inr q ↦ absurd (ineligible q.2) ])
    ]
