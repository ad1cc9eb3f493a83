-- ===== src/Foreman/Labels/Owed.antt =====
-- The event queries of a message, told from the event table and the labels alone.
use cloudvelo.Prelude.{
  ℕ, String, List, [], ◌∷◌, ◌++◌, map, Option, none, some, ◌≡◌, ◌≢◌, refl, ap, sym, ◌⊎◌, ◌↔◌, inl,
  inr, In, In-append, arith, Bool-cases, subst,
}
use cloudvelo.Utils.{Utils}
use cloudvelo.Foreman.Types.{Event, LabelEvents, EventTable}
use cloudvelo.Foreman.Labels.{
  label_queries, with_limits, or_no_events, get_client_update_event_table_message,
}

-- A query of the event table that is for all clients, or for one of these labels.
abbrev pub IsSource : EventTable → List String → Event → Type 0
IsSource state labels base =
    ((all : List Event) × (state.artifacts ≡ some all) × In base all)
    ⊎ ((table : LabelEvents) × In table state.label_events
        × In table.label labels
        × In base table.events)

-- The query with its limits: its own wait, or the configured one, or 120, whichever is first not zero.
pub record IsLimited (event_max_wait : ℕ) (base event : Event) : Type 0 where
  pub query : event.query ≡ base.query
  pub timeout : event.timeout ≡ 99999999
  pub own_wait : base.max_wait ≢ 0 → event.max_wait ≡ base.max_wait
  pub configured : base.max_wait ≡ 0 → event_max_wait ≢ 0 → event.max_wait ≡ event_max_wait
  pub default : base.max_wait ≡ 0 → event_max_wait ≡ 0 → event.max_wait ≡ 120

-- The events are the table's queries for the labels, no fewer and no others, each with its limits.
pub record IsOwed (event_max_wait : ℕ) (state : EventTable) (labels : List String)
    (events : List Event) : Type 0 where
  pub only :
      (event : Event)
      → In event events
      → (base : Event) × IsSource state labels base × IsLimited event_max_wait base event
  pub each :
      (base : Event)
      → IsSource state labels base
      → (event : Event) × In event events × IsLimited event_max_wait base event

with_limits-IsLimited : (w : ℕ) (base : Event) → IsLimited w base (with_limits w base)
unfolding with_limits
with_limits-IsLimited w base = record {
  query = refl;
  timeout = refl;
  own_wait = ground arith;
  configured = ground arith;
  default = ground arith;
}

In-map :
    {A B : Type 0} (f : A → B) (b : B) (xs : List A)
    → In b (map f xs)
    → (a : A) × In a xs × (b ≡ f a)
In-map f b [] i = absurd i
In-map f b (x ∷ xs) (inl e) = (x, inl refl, e)
In-map f b (x ∷ xs) (inr i) = let (a, m, e) = In-map f b xs i in (a, inr m, e)

map-In : {A B : Type 0} (f : A → B) (a : A) (xs : List A) → In a xs → In (f a) (map f xs)
map-In f a [] i = absurd i
map-In f a (x ∷ xs) (inl e) = inl (ap f e)
map-In f a (x ∷ xs) (inr i) = inr (map-In f a xs i)

LabelSource : List String → List LabelEvents → Event → Type 0
LabelSource labels tables base =
    (table : LabelEvents) × In table tables × In table.label labels × In base table.events

label_queries_iff :
    (u : Utils) (labels : List String) (tables : List LabelEvents) (base : Event)
    → In base (label_queries u labels tables) ↔ LabelSource labels tables base
unfolding label_queries LabelSource
label_queries_iff u labels [] base = (absurd, λ x. x.1)
label_queries_iff u labels (t ∷ ts) base =
    let (f, g) = label_queries_iff u labels ts base in
    let (has, back) = u.in_string_iff labels t.label in
    elim (Bool-cases (u.in_string labels t.label)) [
      | inl e ↦ rw e (
        λ i. elim ((In-append base t.events (label_queries u labels ts)).0 i) [
          | inl own ↦ (t, inl refl, has e, own)
          | inr more ↦ let (s, m, l, q) = f more in (s, inr m, l, q)
        ],
        λ x. (In-append base t.events (label_queries u labels ts)).1 (elim x.1 [
          | inl same ↦ inl (subst (λ (s : LabelEvents). In base s.events) same x.3)
          | inr m ↦ inr (g (x.0, m, x.2, x.3))
        ]),
      )
      | inr e ↦ rw e (
        λ i. let (s, m, l, q) = f i in (s, inr m, l, q),
        λ x. elim x.1 [
          | inl same ↦ cc (e, back (subst (λ (s : LabelEvents). In s.label labels) same x.2))
          | inr m ↦ g (x.0, m, x.2, x.3)
        ],
      )
    ]

artifacts_iff :
    (o : Option (List Event)) (base : Event)
    → In base (or_no_events o) ↔ ((all : List Event) × (o ≡ some all) × In base all)
artifacts_iff none base = (absurd, λ x. cc x.1)
artifacts_iff (some all) base = (
  λ i. (all, refl, i),
  λ x. subst (λ (o : Option (List Event)). In base (or_no_events o)) (sym x.1) x.2,
)

sources_iff :
    (u : Utils) (state : EventTable) (labels : List String) (base : Event)
    → In base (or_no_events state.artifacts ++ label_queries u labels state.label_events)
      ↔ IsSource state labels base
unfolding LabelSource
sources_iff u state labels base =
    let (f, g) = artifacts_iff state.artifacts base in
    let (f', g') = label_queries_iff u labels state.label_events base in
    let (split, join) =
      In-append base (or_no_events state.artifacts) (label_queries u labels state.label_events) in
    (
      λ i. elim (split i) [ inl a ↦ inl (f a) | inr l ↦ inr (f' l) ],
      λ x. join (elim x [ inl a ↦ inl (g a) | inr l ↦ inr (g' l) ]),
    )

pub message-IsOwed :
    (u : Utils) (now w : ℕ) (state : EventTable) (labels : List String)
    → IsOwed w state labels (get_client_update_event_table_message u now w state labels).events
unfolding get_client_update_event_table_message
message-IsOwed u now w state labels = record {
  only = λ event i.
      let (base, m, e) = In-map (with_limits w) event _ i in
      (
        base,
        (sources_iff u state labels base).0 m,
        subst (IsLimited w base) (sym e) (with_limits-IsLimited w base),
      );
  each = λ base source. (
    with_limits w base,
    map-In (with_limits w) base _ ((sources_iff u state labels base).1 source),
    with_limits-IsLimited w base,
  );
}
