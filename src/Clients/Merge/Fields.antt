-- ===== src/Clients/Merge/Fields.antt =====
-- What the merge of a client's documents has in each field, told from the documents alone.
use cloudvelo.Prelude.{
  ℕ, String, List, [], ◌∷◌, ◌++◌, Option, none, some, if◌then◌else◌, ltb, length, ◌==◌, map, concat,
  ◌≡◌, refl, sym, ap, ◌∙◌, inl, inr, arith, Bool-cases, append-nil, append_assoc,
}
use cloudvelo.Clients.Record.{ClientRecord}
use cloudvelo.Clients.Merge.{merge_client_records}

-- The documents of one client, in their order.
abbrev pub own : String → List (Option ClientRecord) → List ClientRecord
own c [] = []
own c (none ∷ hits) = own c hits
own c (some hit ∷ hits) = let rest = own c hits in if hit.client_id == c then hit ∷ rest else rest

-- The last text that is not empty, and the last number that is not zero, if there is one.
abbrev pub last_text : List String → String
last_text [] = ""
last_text (x ∷ xs) = let later = last_text xs in if later == "" then x else later

abbrev pub last_number : List ℕ → ℕ
last_number [] = 0
last_number (x ∷ xs) = let later = last_number xs in if ltb 0 later then later else x

-- The lower case labels of a document count only where it has labels.
abbrev pub labelled : ClientRecord → List String
labelled d = if ltb 0 (length d.labels) then d.lower_labels else []

-- The record of these documents.
pub record IsRecordOf (first : ClientRecord) (rest : List ClientRecord) (r : ClientRecord)
    : Type 0 where
  pub client_id : r.client_id ≡ first.client_id
  pub client_version : r.client_version ≡ first.client_version
  pub type_ : r.type_ ≡ first.type_
  pub doc_type : r.doc_type ≡ first.doc_type
  pub hostname : r.hostname ≡ last_text (map (λ (d : ClientRecord). d.hostname) (first ∷ rest))
  pub release : r.release ≡ last_text (map (λ (d : ClientRecord). d.release) (first ∷ rest))
  pub architecture :
      r.architecture ≡ last_text (map (λ (d : ClientRecord). d.architecture) (first ∷ rest))
  pub build_time :
      r.build_time ≡ last_text (map (λ (d : ClientRecord). d.build_time) (first ∷ rest))
  pub system : r.system ≡ last_text (map (λ (d : ClientRecord). d.system) (first ∷ rest))
  pub last_interrogate :
      r.last_interrogate ≡ last_text (map (λ (d : ClientRecord). d.last_interrogate) (first ∷ rest))
  pub first_seen_at :
      r.first_seen_at ≡ last_number (map (λ (d : ClientRecord). d.first_seen_at) (first ∷ rest))
  pub ping : r.ping ≡ last_number (map (λ (d : ClientRecord). d.ping) (first ∷ rest))
  pub last_hunt_timestamp :
      r.last_hunt_timestamp
      ≡ last_number (map (λ (d : ClientRecord). d.last_hunt_timestamp) (first ∷ rest))
  pub last_event_table_version :
      r.last_event_table_version
      ≡ last_number (map (λ (d : ClientRecord). d.last_event_table_version) (first ∷ rest))
  pub last_label_timestamp :
      r.last_label_timestamp
      ≡ last_number (map (λ (d : ClientRecord). d.last_label_timestamp) (first ∷ rest))
  pub labels : r.labels ≡ concat (map (λ (d : ClientRecord). d.labels) (first ∷ rest))
  pub lower_labels : r.lower_labels ≡ first.lower_labels ++ concat (map labelled rest)
  pub mac_addresses :
      r.mac_addresses ≡ concat (map (λ (d : ClientRecord). d.mac_addresses) (first ∷ rest))
  pub assigned_hunts :
      r.assigned_hunts ≡ concat (map (λ (d : ClientRecord). d.assigned_hunts) (first ∷ rest))

-- The documents merged one after the other.
abbrev pub fold_merge : ClientRecord → List ClientRecord → ClientRecord
fold_merge first [] = first
fold_merge first (d ∷ ds) = fold_merge (merge_client_records first d) ds

last_text_step :
    (x y later : String)
    → (if later == "" then (if y == "" then x else y) else later)
      ≡ (let rest = (if later == "" then y else later) in if rest == "" then x else rest)
last_text_step x y later = elim (Bool-cases (later == "")) [
  | inl e ↦ rw e refl
  | inr e ↦ ground (arith, e)
]

last_number_step :
    (x y later : ℕ)
    → (if ltb 0 later then later else (if ltb 0 y then y else x))
      ≡ (let rest = (if ltb 0 later then later else y) in if ltb 0 rest then rest else x)
last_number_step x y later = elim (Bool-cases (ltb 0 later)) [
  | inl e ↦ ground (arith, e)
  | inr e ↦ rw e refl
]

fold_merge-text :
    (f : ClientRecord → String)
    → ((a b : ClientRecord) → f (merge_client_records a b) ≡ (if f b == "" then f a else f b))
    → (first : ClientRecord) (rest : List ClientRecord)
    → f (fold_merge first rest) ≡ last_text (map f (first ∷ rest))
fold_merge-text f h first [] = refl
fold_merge-text f h first (d ∷ ds) =
    fold_merge-text f h (merge_client_records first d) ds
    ∙ ap (λ x. last_text (x ∷ map f ds)) (h first d)
    ∙ last_text_step (f first) (f d) (last_text (map f ds))

fold_merge-number :
    (f : ClientRecord → ℕ)
    → ((a b : ClientRecord) → f (merge_client_records a b) ≡ (if ltb 0 (f b) then f b else f a))
    → (first : ClientRecord) (rest : List ClientRecord)
    → f (fold_merge first rest) ≡ last_number (map f (first ∷ rest))
fold_merge-number f h first [] = refl
fold_merge-number f h first (d ∷ ds) =
    fold_merge-number f h (merge_client_records first d) ds
    ∙ ap (λ x. last_number (x ∷ map f ds)) (h first d)
    ∙ last_number_step (f first) (f d) (last_number (map f ds))

fold_merge-list :
    (f g : ClientRecord → List String)
    → ((a b : ClientRecord) → f (merge_client_records a b) ≡ f a ++ g b)
    → (first : ClientRecord) (rest : List ClientRecord)
    → f (fold_merge first rest) ≡ f first ++ concat (map g rest)
fold_merge-list f g h first [] = sym (append-nil (f first))
fold_merge-list f g h first (d ∷ ds) =
    fold_merge-list f g h (merge_client_records first d) ds
    ∙ ap (λ x. x ++ concat (map g ds)) (h first d)
    ∙ append_assoc (f first) (g d) (concat (map g ds))

fold_merge-first :
    (f : ClientRecord → String)
    → ((a b : ClientRecord) → f (merge_client_records a b) ≡ f a)
    → (first : ClientRecord) (rest : List ClientRecord) → f (fold_merge first rest) ≡ f first
fold_merge-first f h first [] = refl
fold_merge-first f h first (d ∷ ds) =
    fold_merge-first f h (merge_client_records first d) ds ∙ h first d

lower_labels-merge :
    (a b : ClientRecord) → (merge_client_records a b).lower_labels ≡ a.lower_labels ++ labelled b
unfolding merge_client_records
lower_labels-merge a b = elim (Bool-cases (ltb 0 (length b.labels))) [
  | inl e ↦ rw e refl
  | inr e ↦ rw e (sym (append-nil a.lower_labels))
]

pub fold_merge-IsRecordOf :
    (first : ClientRecord) (rest : List ClientRecord)
    → IsRecordOf first rest (fold_merge first rest)
unfolding merge_client_records
fold_merge-IsRecordOf first rest = record {
  client_id = fold_merge-first (λ d. d.client_id) (λ a b. refl) first rest;
  client_version = fold_merge-first (λ d. d.client_version) (λ a b. refl) first rest;
  type_ = fold_merge-first (λ d. d.type_) (λ a b. refl) first rest;
  doc_type = fold_merge-first (λ d. d.doc_type) (λ a b. refl) first rest;
  hostname = fold_merge-text (λ d. d.hostname) (λ a b. refl) first rest;
  release = fold_merge-text (λ d. d.release) (λ a b. refl) first rest;
  architecture = fold_merge-text (λ d. d.architecture) (λ a b. refl) first rest;
  build_time = fold_merge-text (λ d. d.build_time) (λ a b. refl) first rest;
  system = fold_merge-text (λ d. d.system) (λ a b. refl) first rest;
  last_interrogate = fold_merge-text (λ d. d.last_interrogate) (λ a b. refl) first rest;
  first_seen_at = fold_merge-number (λ d. d.first_seen_at) (λ a b. refl) first rest;
  ping = fold_merge-number (λ d. d.ping) (λ a b. refl) first rest;
  last_hunt_timestamp = fold_merge-number (λ d. d.last_hunt_timestamp) (λ a b. refl) first rest;
  last_event_table_version =
      fold_merge-number (λ d. d.last_event_table_version) (λ a b. refl) first rest;
  last_label_timestamp = fold_merge-number (λ d. d.last_label_timestamp) (λ a b. refl) first rest;
  labels = fold_merge-list (λ d. d.labels) (λ d. d.labels) (λ a b. refl) first rest;
  lower_labels = fold_merge-list (λ d. d.lower_labels) labelled lower_labels-merge first rest;
  mac_addresses =
      fold_merge-list (λ d. d.mac_addresses) (λ d. d.mac_addresses) (λ a b. refl) first rest;
  assigned_hunts =
      fold_merge-list (λ d. d.assigned_hunts) (λ d. d.assigned_hunts) (λ a b. refl) first rest;
}
