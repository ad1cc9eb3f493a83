-- ===== src/Foreman/Labels/Sharing.antt =====
-- One key, one set of event queries: clients may share a compiled message.
use cloudvelo.Prelude.{
  ℕ, String, List, [], ◌∷◌, ◌≡◌, refl, sym, ap, ◌∙◌, inl, inr, All, In, true, arith, Bool-cases,
}
use cloudvelo.Utils.{Utils}
use cloudvelo.Foreman.Types.{LabelEvents, EventTable}
use cloudvelo.Foreman.Labels.{
  matched_labels, labels_key, label_queries, get_client_update_event_table_message,
}
use cloudvelo.Foreman.Labels.Keys.{IsPlain, join_injective}

-- The labels of the event table are not empty and have no bar in them.
abbrev pub IsPlainTable : EventTable → Type 0
IsPlainTable state = All (λ (t : LabelEvents). IsPlain t.label) state.label_events

matched_labels-IsPlain :
    (u : Utils) (labels : List String) (tables : List LabelEvents)
    → All (λ (t : LabelEvents). IsPlain t.label) tables
    → All IsPlain (matched_labels u labels tables)
unfolding matched_labels
matched_labels-IsPlain u labels [] h = tt
matched_labels-IsPlain u labels (t ∷ ts) h = elim (Bool-cases (u.in_string labels t.label)) [
  | inl e ↦ rw e (h.0, matched_labels-IsPlain u labels ts h.1)
  | inr e ↦ rw e (matched_labels-IsPlain u labels ts h.1)
]

In-matched_labels :
    (u : Utils) (labels : List String) (tables : List LabelEvents) (l : String)
    → In l (matched_labels u labels tables)
    → u.in_string labels l ≡ true
unfolding matched_labels
In-matched_labels u labels [] l m = absurd m
In-matched_labels u labels (t ∷ ts) l m = ground (arith, In-matched_labels u labels ts l)

matched_labels-In :
    (u : Utils) (labels : List String) (tables : List LabelEvents) (t : LabelEvents)
    → In t tables
    → u.in_string labels t.label ≡ true
    → In t.label (matched_labels u labels tables)
unfolding matched_labels
matched_labels-In u labels [] t m h = absurd m
matched_labels-In u labels (x ∷ ts) t (inl e) h =
    let here : u.in_string labels x.label ≡ true = rw (← e) h in
    rw here (inl (ap (λ (y : LabelEvents). y.label) e))
matched_labels-In u labels (x ∷ ts) t (inr m) h = elim (Bool-cases (u.in_string labels x.label)) [
  | inl e ↦ rw e (inr (matched_labels-In u labels ts t m h))
  | inr e ↦ rw e (matched_labels-In u labels ts t m h)
]

-- Both label sets have, or both lack, the label of the table.
Agree : Utils → List String → List String → LabelEvents → Type 0
Agree u ls ls' t = u.in_string ls t.label ≡ u.in_string ls' t.label

matched_labels-Agree :
    (u : Utils) (ls ls' : List String) (tables : List LabelEvents)
    → matched_labels u ls tables ≡ matched_labels u ls' tables
    → (t : LabelEvents) → In t tables
    → Agree u ls ls' t
unfolding Agree
matched_labels-Agree u ls ls' tables e t m = elim (Bool-cases (u.in_string ls t.label)) [
  | inl h ↦
      h
      ∙ sym (In-matched_labels u ls' tables t.label (rw e at (matched_labels-In u ls tables t m h)))
  | inr h ↦ elim (Bool-cases (u.in_string ls' t.label)) [
    | inl h' ↦ cc (
        In-matched_labels u ls tables t.label (rw (← e) at (matched_labels-In u ls' tables t m h')))
    | inr h' ↦ h ∙ sym h'
  ]
]

label_queries-Agree :
    (u : Utils) (ls ls' : List String) (tables : List LabelEvents)
    → ((t : LabelEvents) → In t tables → Agree u ls ls' t)
    → label_queries u ls tables ≡ label_queries u ls' tables
unfolding label_queries Agree
label_queries-Agree u ls ls' [] h = refl
label_queries-Agree u ls ls' (t ∷ ts) h =
    rw (h t (inl refl), label_queries-Agree u ls ls' ts (λ x m. h x (inr m)))

-- If no label of the event table is empty or holds a bar, then clients with one key are owed the
-- same event queries, whatever labels they have besides.
pub labels_key-events :
    (u : Utils) (now now' event_max_wait : ℕ) (state : EventTable) (ls ls' : List String)
    → IsPlainTable state
    → labels_key u ls state ≡ labels_key u ls' state
    → (get_client_update_event_table_message u now event_max_wait state ls).events
      ≡ (get_client_update_event_table_message u now' event_max_wait state ls').events
unfolding labels_key get_client_update_event_table_message
labels_key-events u now now' w state ls ls' plain e =
    let tables = state.label_events in
    let same =
      join_injective _ _ (matched_labels-IsPlain u ls tables plain)
        (matched_labels-IsPlain u ls' tables plain) e in
    rw (label_queries-Agree u ls ls' tables (matched_labels-Agree u ls ls' tables same))
