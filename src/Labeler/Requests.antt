-- ===== src/Labeler/Requests.antt =====
-- Sequences of requests on the labels of a client, and the abstract set that they implement.
use cloudvelo.Prelude.{
  String, List, [], ◌∷◌, false, not, Option, none, some, ◌≡◌, refl, sym, subst, arith, eq_iff,
  if_cases, if_elim, All,
}
use cloudvelo.Clients.Record.{ClientRecord}
use cloudvelo.Labeler.{
  Text, Answers, Labelled, all_label_painless, remove_label_painless, update_index, scripted,
  set_if_missing, set_client_label, remove_client_label, first_record, set_elastic_index, missing,
}
use cloudvelo.Labeler.Removal.{remove_label_painless-kept}
use cloudvelo.Labeler.Sets.{
  LabelSet, with_label, without_label, Represents, with-Represents, without-Represents,
}

-- A request on the labels of a client, and how the index answers it.
pub data Request : Type 0 where
  set_label remove_label : Answers → String → Request

abbrev answers_of : Request → Answers
answers_of (set_label answers label) = answers
answers_of (remove_label answers label) = answers

abbrev pub handle : Text → String → Request → Option ClientRecord → Labelled
handle text client_id (set_label answers label) stored =
    set_client_label text answers client_id label stored
handle text client_id (remove_label answers label) stored =
    remove_client_label text answers label stored

-- What an abstract set does: a request that gave an error is none.
abbrev pub acknowledged : Text → Request → Option String → LabelSet → LabelSet
acknowledged text request (some e) s = s
acknowledged text (set_label answers label) none s =
    with_label (text.to_lower (text.trim_space label)) s
acknowledged text (remove_label answers label) none s =
    without_label (text.to_lower (text.trim_space label)) s

abbrev pub handle_all : Text → String → List Request → Option ClientRecord → Option ClientRecord
handle_all text client_id [] stored = stored
handle_all text client_id (request ∷ requests) stored =
    handle_all text client_id requests (handle text client_id request stored).0

-- The acknowledged requests, on a set.
abbrev pub acknowledged_all :
    Text → String → List Request → Option ClientRecord → LabelSet → LabelSet
acknowledged_all text client_id [] stored s = s
acknowledged_all text client_id (request ∷ requests) stored s =
    let answer = handle text client_id request stored in
    acknowledged_all text client_id requests answer.0 (acknowledged text request answer.1 s)

-- The index does not say that a document is missing where it refuses the call for another reason.
abbrev pub IsHonest : Request → Type 0
IsHonest request =
    (e : String)
    → (answers_of request).update ≡ some e
    → (answers_of request).contains_missing e ≡ false

abbrev After : Text → Request → LabelSet → Labelled → Type 0
After text request s answer = Represents text answer.0 (acknowledged text request answer.1 s)

module _ (text : Text) (client_id : String) where
  first-Represents :
      (answers : Answers) (label : String) (s : LabelSet) (set : Option String)
      → Represents text none s
      → After text (set_label answers label) s (
          set_elastic_index set
            (first_record text client_id answers.now answers.now_unix (text.trim_space label))
            none)
  first-Represents answers label s (some e) h = h
  first-Represents answers label s none h =
      let y = text.to_lower (text.trim_space label) in
      (
        record { aligned = refl; single = (λ m. m, tt) },
        λ x. (ground (arith, eq_iff x y), ground (arith, eq_iff x y, h x)),
      )

  set-Represents :
      (answers : Answers) (label : String) (stored : Option ClientRecord) (s : LabelSet)
      (update : Option String)
      → ((e : String) → update ≡ some e → answers.contains_missing e ≡ false)
      → Represents text stored s
      → After text (set_label answers label) s (
          set_if_missing text answers client_id (text.trim_space label) stored (
            update_index update
              (λ doc. some (
                all_label_painless
                  (text.trim_space label)
                  (text.to_lower (text.trim_space label))
                  answers.now
                  doc))
              stored))
  unfolding update_index
  set-Represents answers label stored s (some e) honest h =
      if_cases (After text (set_label answers label) s) (not (answers.contains_missing e)) (λ _. h)
        (λ wrong. cc (wrong, honest e refl))
  set-Represents answers label none s none honest h =
      if_cases (After text (set_label answers label) s) (not (answers.contains_missing missing))
        (λ _. h) (λ _. first-Represents answers label s answers.set h)
  set-Represents answers label (some doc) s none honest h =
      with-Represents text doc s (text.trim_space label) answers.now h

  remove-Represents :
      (answers : Answers) (label : String) (stored : Option ClientRecord) (s : LabelSet)
      (update : Option String)
      → Represents text stored s
      → After text (remove_label answers label) s (
          update_index update
            (remove_label_painless (text.to_lower (text.trim_space label)) answers.now)
            stored)
  unfolding update_index
  remove-Represents answers label stored s (some e) h = h
  remove-Represents answers label none s none h = h
  remove-Represents answers label (some doc) s none h =
      let y = text.to_lower (text.trim_space label) in
      let (after, same, labels, aligned) =
        remove_label_painless-kept text.to_lower y answers.now doc h.0.aligned in
      subst (λ found. After text (remove_label answers label) s (scripted (some doc) found))
        (sym same) (without-Represents text doc after s y h labels aligned)

  handle-Represents :
      (request : Request) (stored : Option ClientRecord) (s : LabelSet)
      → IsHonest request
      → Represents text stored s
      → After text request s (handle text client_id request stored)
  unfolding set_client_label remove_client_label
  handle-Represents (set_label answers label) stored s honest h =
      if_elim (After text (set_label answers label) s)
        (not (text.match_string (text.trim_space label))) h
        (set-Represents answers label stored s answers.update honest h)
  handle-Represents (remove_label answers label) stored s honest h =
      remove-Represents answers label stored s answers.update h

-- The document of a client's labels represents a set of texts: its two lists belong together, and in
-- the one in lower case each member of the set is once, and nothing else. From a document that
-- represents a set, or none for the empty set, any sequence of requests, whatever the index answers
-- them as long as it says of a document that it is missing only where it is, ends in one that
-- represents the set to which the requests that gave no error were applied.
pub handle_all-Represents :
    (text : Text) (client_id : String) (requests : List Request) (stored : Option ClientRecord)
    (s : LabelSet)
    → All IsHonest requests
    → Represents text stored s
    → Represents text
        (handle_all text client_id requests stored)
        (acknowledged_all text client_id requests stored s)
handle_all-Represents text client_id [] stored s honest h = h
handle_all-Represents text client_id (request ∷ requests) stored s (honest, later) h =
    handle_all-Represents text client_id requests _ _ later
      (handle-Represents text client_id request stored s honest h)
