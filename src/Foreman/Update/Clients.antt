-- ===== src/Foreman/Update/Clients.antt =====
-- A client's record, merged from its documents: `getMinimalClientInfo` of foreman/foreman.go.
use cloudvelo.Prelude.{
  String, List, [], ◌∷◌, ◌++◌, map, none, some, ◌≡◌, refl, ◌∙◌, ap, ◌↔◌, ◌⊎◌, inl, inr, In,
  In-append, In-snoc, NoDup, NoDup-snoc, arith, Bool-cases, if◌then◌else◌, ok, ok_injective, ◌==◌,
}
use cloudvelo.Utils.{Utils}
use cloudvelo.Clients.Record.{ClientRecord, zero_record}
use cloudvelo.Foreman.Update.{
  Index, Hits, stamped, add_labels, add_hunts, merge_hit, merge_hits, get_minimal_client_info,
  hunts_of_hits,
}

-- No label and no hunt is listed twice, and the lower case labels go with the labels.
pub record IsMerged (u : Utils) (r : ClientRecord) : Type 0 where
  pub parallel : r.lower_labels ≡ map u.to_lower r.labels
  pub labels_once : NoDup r.labels
  pub hunts_once : NoDup r.assigned_hunts

map-snoc :
    (f : String → String) (xs : List String) (x : String)
    → map f (xs ++ x ∷ []) ≡ map f xs ++ f x ∷ []
map-snoc f [] x = refl
map-snoc f (y ∷ ys) x = ap (◌∷◌ (f y)) (map-snoc f ys x)

-- The labels of the decoded hits.
abbrev pub labels_of_hits : Hits → List String
labels_of_hits [] = []
labels_of_hits (none ∷ hits) = labels_of_hits hits
labels_of_hits (some r ∷ hits) = r.labels ++ labels_of_hits hits

-- One addition, then the rest.
both_steps : {A B C D E : Type 0} → A ↔ (B ⊎ C) → B ↔ (D ⊎ E) → A ↔ (D ⊎ (E ⊎ C))
both_steps (f, g) (f', g') = (
  λ a. elim (f a) [
    | inl b ↦ elim (f' b) [ inl d ↦ inl d | inr e ↦ inr (inl e) ]
    | inr c ↦ inr (inr c)
  ],
  λ h. g (elim h [
    | inl d ↦ inl (g' (inl d))
    | inr r ↦ elim r [ inl e ↦ inl (g' (inr e)) | inr c ↦ inr c ]
  ]),
)

-- One document, then the rest.
one_then_rest : {A B C D E F : Type 0} → A ↔ (B ⊎ C) → B ↔ (D ⊎ E) → F ↔ (E ⊎ C) → A ↔ (D ⊎ F)
one_then_rest (f, g) (f', g') (f'', g'') = (
  λ a. elim (f a) [
    | inl b ↦ elim (f' b) [ inl d ↦ inl d | inr e ↦ inr (g'' (inl e)) ]
    | inr c ↦ inr (g'' (inr c))
  ],
  λ h. g (elim h [
    | inl d ↦ inl (g' (inl d))
    | inr r ↦ elim (f'' r) [ inl e ↦ inl (g' (inr e)) | inr c ↦ inr c ]
  ]),
)

from_nothing : {A B : Type 0} → A ↔ (⊥ ⊎ B) → A ↔ B
from_nothing (f, g) = (λ a. elim (f a) [ inl n ↦ absurd n | inr b ↦ b ], λ b. g (inr b))

module _ (u : Utils) where
  add_labels-IsMerged :
      (ls : List String) (r : ClientRecord) → IsMerged u r → IsMerged u (add_labels u ls r)
  unfolding add_labels
  add_labels-IsMerged [] r v = v
  add_labels-IsMerged (l ∷ ls) r v =
      add_labels-IsMerged ls _ (elim (Bool-cases (u.in_string r.labels l)) [
        | inl e ↦ rw e v
        | inr e ↦ rw e (record {
          parallel = rw (v.parallel, map-snoc u.to_lower r.labels l);
          labels_once =
              NoDup-snoc l r.labels v.labels_once (λ m. cc ((u.in_string_iff r.labels l).1 m));
          hunts_once = v.hunts_once;
        })
      ])

  add_hunts-IsMerged :
      (hs : List String) (r : ClientRecord) → IsMerged u r → IsMerged u (add_hunts u hs r)
  unfolding add_hunts
  add_hunts-IsMerged [] r v = v
  add_hunts-IsMerged (h ∷ hs) r v =
      add_hunts-IsMerged hs _ (elim (Bool-cases (u.in_string r.assigned_hunts h)) [
        | inl e ↦ rw e v
        | inr e ↦ rw e (record {
          parallel = v.parallel;
          labels_once = v.labels_once;
          hunts_once =
              NoDup-snoc h r.assigned_hunts v.hunts_once
                (λ m. cc ((u.in_string_iff r.assigned_hunts h).1 m));
        })
      ])

  -- Adding what is not there yet adds it as a member.
  In-add_new :
      (a x : String) (xs : List String)
      → In a (if u.in_string xs x then xs else xs ++ x ∷ []) ↔ (In a xs ⊎ (a ≡ x))
  In-add_new a x xs = elim (Bool-cases (u.in_string xs x)) [
    | inl e ↦ rw e (inl, λ h. elim h [ inl m ↦ m | inr s ↦ rw s ((u.in_string_iff xs x).0 e) ])
    | inr e ↦ rw e (In-snoc a x xs)
  ]

  In-add_labels :
      (a : String) (ls : List String) (r : ClientRecord)
      → In a (add_labels u ls r).labels ↔ (In a r.labels ⊎ In a ls)
  unfolding add_labels
  In-add_labels a [] r = (inl, λ x. elim x [ inl m ↦ m | inr q ↦ absurd q ])
  In-add_labels a (l ∷ ls) r =
      let r' : ClientRecord = if u.in_string r.labels l then r else record r {
        labels = r.labels ++ l ∷ [];
        lower_labels = r.lower_labels ++ u.to_lower l ∷ [];
      } in
      let same : r'.labels ≡ (if u.in_string r.labels l then r.labels else r.labels ++ l ∷ []) =
        ground arith in
      both_steps (In-add_labels a ls r') (rw same (In-add_new a l r.labels))

  In-add_hunts :
      (a : String) (hs : List String) (r : ClientRecord)
      → In a (add_hunts u hs r).assigned_hunts ↔ (In a r.assigned_hunts ⊎ In a hs)
  unfolding add_hunts
  In-add_hunts a [] r = (inl, λ x. elim x [ inl m ↦ m | inr q ↦ absurd q ])
  In-add_hunts a (h ∷ hs) r =
      let r' : ClientRecord =
        if u.in_string r.assigned_hunts h
        then r
        else record r { assigned_hunts = r.assigned_hunts ++ h ∷ [] } in
      let same : r'.assigned_hunts ≡ (
          if u.in_string r.assigned_hunts h then r.assigned_hunts else r.assigned_hunts ++ h ∷ []) =
        ground arith in
      both_steps (In-add_hunts a hs r') (rw same (In-add_new a h r.assigned_hunts))

  add_labels-assigned :
      (ls : List String) (r : ClientRecord) → (add_labels u ls r).assigned_hunts ≡ r.assigned_hunts
  unfolding add_labels
  add_labels-assigned [] r = refl
  add_labels-assigned (l ∷ ls) r = add_labels-assigned ls _ ∙ ground arith

  add_hunts-labels : (hs : List String) (r : ClientRecord) → (add_hunts u hs r).labels ≡ r.labels
  unfolding add_hunts
  add_hunts-labels [] r = refl
  add_hunts-labels (h ∷ hs) r = add_hunts-labels hs _ ∙ ground arith

  merge_hit-IsMerged : (r h : ClientRecord) → IsMerged u r → IsMerged u (merge_hit u r h)
  unfolding merge_hit
  merge_hit-IsMerged r h v =
      let w : IsMerged u (stamped r h) = record {
        parallel = v.parallel;
        labels_once = v.labels_once;
        hunts_once = v.hunts_once;
      } in
      let m =
        add_hunts-IsMerged h.assigned_hunts _ (add_labels-IsMerged h.labels (stamped r h) w) in
      elim (Bool-cases (h.system == "")) [
        | inl e ↦ rw e m
        | inr e ↦ rw e (record {
          parallel = m.parallel;
          labels_once = m.labels_once;
          hunts_once = m.hunts_once;
        })
      ]

  merge_hits-IsMerged :
      (r : ClientRecord) (hits : Hits) → IsMerged u r → IsMerged u (merge_hits u r hits)
  unfolding merge_hits
  merge_hits-IsMerged r [] v = v
  merge_hits-IsMerged r (none ∷ hits) v = merge_hits-IsMerged r hits v
  merge_hits-IsMerged r (some h ∷ hits) v =
      merge_hits-IsMerged (merge_hit u r h) hits (merge_hit-IsMerged r h v)

  -- The labels after one hit.
  merge_hit-labels :
      (a : String) (r h : ClientRecord)
      → In a (merge_hit u r h).labels ↔ (In a r.labels ⊎ In a h.labels)
  unfolding merge_hit
  merge_hit-labels a r h = elim (Bool-cases (h.system == "")) [
    | inl e ↦ rw (e, add_hunts-labels h.assigned_hunts _) (In-add_labels a h.labels _)
    | inr e ↦ rw (e, add_hunts-labels h.assigned_hunts _) (In-add_labels a h.labels _)
  ]

  merge_hit-hunts :
      (a : String) (r h : ClientRecord)
      → In a (merge_hit u r h).assigned_hunts ↔ (In a r.assigned_hunts ⊎ In a h.assigned_hunts)
  unfolding merge_hit add_labels
  merge_hit-hunts a r h = elim (Bool-cases (h.system == "")) [
    | inl e ↦ rw e (
        rw (add_labels-assigned h.labels (stamped r h)) at
          (In-add_hunts a h.assigned_hunts (add_labels u h.labels (stamped r h))))
    | inr e ↦ rw e (
        rw (add_labels-assigned h.labels (stamped r h)) at
          (In-add_hunts a h.assigned_hunts (add_labels u h.labels (stamped r h))))
  ]

  merge_hits-labels :
      (a : String) (r : ClientRecord) (hits : Hits)
      → In a (merge_hits u r hits).labels ↔ (In a r.labels ⊎ In a (labels_of_hits hits))
  unfolding merge_hits
  merge_hits-labels a r [] = (inl, λ x. elim x [ inl m ↦ m | inr q ↦ absurd q ])
  merge_hits-labels a r (none ∷ hits) = merge_hits-labels a r hits
  merge_hits-labels a r (some h ∷ hits) =
      one_then_rest (merge_hits-labels a (merge_hit u r h) hits) (merge_hit-labels a r h)
        (In-append a h.labels (labels_of_hits hits))

  merge_hits-hunts :
      (a : String) (r : ClientRecord) (hits : Hits)
      → In a (merge_hits u r hits).assigned_hunts
        ↔ (In a r.assigned_hunts ⊎ In a (hunts_of_hits hits))
  unfolding merge_hits hunts_of_hits
  merge_hits-hunts a r [] = (inl, λ x. elim x [ inl m ↦ m | inr q ↦ absurd q ])
  merge_hits-hunts a r (none ∷ hits) = merge_hits-hunts a r hits
  merge_hits-hunts a r (some h ∷ hits) =
      one_then_rest (merge_hits-hunts a (merge_hit u r h) hits) (merge_hit-hunts a r h)
        (In-append a h.assigned_hunts (hunts_of_hits hits))

  -- The merged record of a client has, once each, just the labels and the hunts that are in one of
  -- its documents that decode, and its lower case labels are its labels in lower case.
  pub get_minimal_client_info_exact :
      (index : Index) (c : String) {r : ClientRecord} {hits : Hits}
      → index.client_documents c ≡ ok hits
      → get_minimal_client_info u index c ≡ ok r
      → IsMerged u r
        × ((l : String) → In l r.labels ↔ In l (labels_of_hits hits))
        × ((h : String) → In h r.assigned_hunts ↔ In h (hunts_of_hits hits))
  unfolding get_minimal_client_info
  get_minimal_client_info_exact index c {r} {hits} there e =
      let fresh : ClientRecord = record zero_record { client_id = c; doc_type = "clients" } in
      let q : merge_hits u fresh hits ≡ r = ok_injective (rw there at e) in
      rw (← q) (
        merge_hits-IsMerged fresh hits
            (record { parallel = refl; labels_once = tt; hunts_once = tt }),
        λ l. from_nothing (merge_hits-labels l fresh hits),
        λ h. from_nothing (merge_hits-hunts h fresh hits),
      )
