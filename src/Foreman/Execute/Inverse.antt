-- ===== src/Foreman/Execute/Inverse.antt =====
-- The mapping from hunts to clients is the inverse of that from clients to hunts.
use cloudvelo.Prelude.{
  String, List, [], ◌∷◌, map, none, ◌≡◌, sym, ap, ◌↔◌, ◌⊎◌, inl, inr, In, NoDup, arith, eq_iff,
  Bool-cases, Option-cases, if◌then◌else◌, ◌==◌, lookup, lookup_or, insert, lookup-insert,
  lookup_or-none, lookup_or-some, Assoc, keys, In-of-lookup, lookup-of-In, lookup-nil,
}
use cloudvelo.Utils.{Utils}
use cloudvelo.Foreman.Types.{Hunt, Plan}
use cloudvelo.Foreman.Plan.Eligible.{Planned}
use cloudvelo.Foreman.Execute.{invert_hunts, invert}

abbrev hunt_ids : List Hunt → List String
hunt_ids = map (λ (h : Hunt). h.hunt_id)

abbrev clients_of : Assoc (List String) → String → List String
clients_of m k = lookup_or [] k m

lookup_or-insert :
    {V : Type 0} (z v : V) (k j : String) (m : Assoc V)
    → lookup_or z j (insert k v m) ≡ (if k == j then v else lookup_or z j m)
unfolding lookup_or
lookup_or-insert z v k j m = ground (arith, lookup-insert k j v m)

-- One hunt of one client.
invert_one :
    (u : Utils) (b : String) (h : Hunt) (m : Assoc (List String)) (c k : String)
    → let cs = clients_of m h.hunt_id in
      In c (clients_of (if u.in_string cs b then m else insert h.hunt_id (b ∷ cs) m) k)
      ↔ (In c (clients_of m k) ⊎ ((c ≡ b) × (k ≡ h.hunt_id)))
invert_one u b h m c k =
    let cs = clients_of m h.hunt_id in
    elim (Bool-cases (u.in_string cs b)) [
      | inl e ↦
          rw e (inl, λ x. elim x [ inl i ↦ i | inr q ↦ rw (q.0, q.1) ((u.in_string_iff cs b).0 e) ])
      | inr e ↦ elim (Bool-cases (h.hunt_id == k)) [
        | inl same ↦
            let k-h = (eq_iff h.hunt_id k).0 same in
            rw (e, lookup_or-insert [] (b ∷ cs) h.hunt_id k m, same)
              (
                λ x. elim x [ inl q ↦ inr (q, sym k-h) | inr i ↦ inl (rw (← k-h) i) ],
                λ x. elim x [ inl i ↦ inr (rw k-h i) | inr q ↦ inl q.0 ],
              )
        | inr ne ↦
            rw (e, lookup_or-insert [] (b ∷ cs) h.hunt_id k m, ne)
              (inl, λ x. elim x [ inl i ↦ i | inr q ↦ cc (ne, (eq_iff h.hunt_id k).1 (sym q.1)) ])
      ]
    ]

In-invert_hunts :
    (u : Utils) (b : String) (hs : List Hunt) (m : Assoc (List String)) (c k : String)
    → In c (clients_of (invert_hunts u b hs m) k)
      ↔ (In c (clients_of m k) ⊎ ((c ≡ b) × In k (hunt_ids hs)))
unfolding invert_hunts
In-invert_hunts u b [] m c k = (inl, λ x. elim x [ inl i ↦ i | inr q ↦ absurd q.1 ])
In-invert_hunts u b (h ∷ hs) m c k =
    let cs = clients_of m h.hunt_id in
    let (f, g) =
      In-invert_hunts u b hs (if u.in_string cs b then m else insert h.hunt_id (b ∷ cs) m) c k in
    let (f', g') = invert_one u b h m c k in
    (
      λ x. elim (f x) [
        | inl i ↦ elim (f' i) [ inl i' ↦ inl i' | inr q ↦ inr (q.0, inl q.1) ]
        | inr q ↦ inr (q.0, inr q.1)
      ],
      λ x. g (elim x [
        | inl i ↦ inl (g' (inl i))
        | inr q ↦ elim q.1 [ inl s ↦ inl (g' (inr (q.0, s))) | inr i ↦ inr (q.0, i) ]
      ]),
    )

-- Some entry of the mapping gives the hunt to the client.
pub Lists : Assoc (List Hunt) → String → String → Type 0
Lists entries c k = (hs : List Hunt) × In (c, hs) entries × In k (hunt_ids hs)

In-invert :
    (u : Utils) (entries : Assoc (List Hunt)) (m : Assoc (List String)) (c k : String)
    → In c (clients_of (invert u entries m) k) ↔ (In c (clients_of m k) ⊎ Lists entries c k)
unfolding invert Lists
In-invert u [] m c k = (inl, λ x. elim x [ inl i ↦ i | inr q ↦ absurd q.1 ])
In-invert u ((b, hs) ∷ rest) m c k =
    let (f, g) = In-invert u rest (invert_hunts u b hs m) c k in
    let (f', g') = In-invert_hunts u b hs m c k in
    (
      λ x. elim (f x) [
        | inl i ↦ elim (f' i) [
          | inl i' ↦ inl i'
          | inr q ↦ inr (hs, inl (ap (λ d. (d, hs)) q.0), q.1)
        ]
        | inr q ↦ inr (q.0, inr q.1, q.2)
      ],
      λ x. g (elim x [
        | inl i ↦ inl (g' (inl i))
        | inr q ↦ elim q.1 [
          | inl s ↦ inl (
              g' (
                inr (
                  ap (λ (e : String × List Hunt). e.0) s,
                  rw (ap (λ (e : String × List Hunt). e.1) s) at q.2,
                )))
          | inr i ↦ inr (q.0, i, q.2)
        ]
      ]),
    )

Lists-iff :
    (p : Plan) (c k : String)
    → NoDup (keys p.client_id_to_hunts)
    → Lists p.client_id_to_hunts c k ↔ Planned p c k
unfolding Lists
Lists-iff p c k d = (
  λ x.
      rw (lookup_or-some [] c p.client_id_to_hunts (lookup-of-In c p.client_id_to_hunts d x.1)) x.2,
  λ x. elim (Option-cases (lookup c p.client_id_to_hunts)) [
    | inl e ↦ absurd (rw (lookup_or-none {V = List Hunt} [] c p.client_id_to_hunts e) at x)
    | inr (hs, e) ↦ (
      hs,
      In-of-lookup c p.client_id_to_hunts e,
      rw (lookup_or-some [] c p.client_id_to_hunts e) at x,
    )
  ],
)

-- The clients that a hunt is launched on are those for which the plan has it.
pub invert_exact :
    (u : Utils) (p : Plan) (c k : String)
    → NoDup (keys p.client_id_to_hunts)
    → In c (lookup_or [] k (invert u p.client_id_to_hunts [])) ↔ Planned p c k
invert_exact u p c k d =
    let (f, g) = In-invert u p.client_id_to_hunts [] c k in
    let (f', g') = Lists-iff p c k d in
    (
      λ x. elim (f x) [
        | inl i ↦ absurd (rw (lookup_or-none {V = List String} [] k [] nothing) at i)
        | inr l ↦ f' l
      ],
      λ x. g (inr (g' x)),
    )
  where
    nothing : lookup {V = List String} k [] ≡ none
    nothing = lookup-nil k
