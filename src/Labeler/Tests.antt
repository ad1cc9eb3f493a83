-- ===== src/Labeler/Tests.antt =====
-- Two labels, one of them set twice and removed again.
use cloudvelo.Prelude.{
  String, List, [], ◌∷◌, Option, true, false, none, some, if◌then◌else◌, ◌==◌, ◌≡◌, refl, subst,
}
use cloudvelo.Clients.Record.{zero_record}
use cloudvelo.Labeler.{
  Text, Answers, set_client_label, remove_client_label, update_index, remove_label_painless,
  remove_loop, all_label_painless,
}
use cloudvelo.Labeler.Sets.{Represents}
use cloudvelo.Labeler.Requests.{
  Request, set_label, remove_label, handle_all, acknowledged_all, handle_all-Represents,
}

abbrev text : Text
text = record {
  trim_space = λ label. if label == " Lab" then "Lab" else label;
  match_string = λ label. if label == "a b" then false else true;
  to_lower = λ label. if label == "Lab" then "lab" else label;
}

abbrev answers : Answers
answers = record {
  update = none;
  set = none;
  contains_missing = λ e. e == "document_missing_exception";
  now = 7;
  now_unix = 0;
}

abbrev busy : Answers
busy = record answers { update = some "version_conflict" }

abbrev requests : List Request
requests =
    set_label answers " Lab"
    ∷ set_label answers "lab"
    ∷ set_label answers "home"
    ∷ set_label answers "a b"
    ∷ set_label busy "other"
    ∷ remove_label answers "LAB"
    ∷ remove_label answers "Lab"
    ∷ []

stored_labels :
    handle_all text "C.1" requests none
    ≡ some (record zero_record {
      client_id = "C.1";
      labels = "home" ∷ [];
      lower_labels = "home" ∷ [];
      last_label_timestamp = 7;
      doc_type = "clients";
    })
unfolding set_client_label remove_client_label update_index remove_label_painless remove_loop
    all_label_painless
stored_labels = refl

abbrev text_of : Option String → String
text_of none = ""
text_of (some e) = e

answers-IsHonest : (e : String) → answers.update ≡ some e → answers.contains_missing e ≡ false
answers-IsHonest e h = cc h

busy-IsHonest : (e : String) → busy.update ≡ some e → busy.contains_missing e ≡ false
busy-IsHonest e h = subst (λ o. (text_of o == "document_missing_exception") ≡ false) h refl

handle_all-Represents_example :
    Represents text
      (handle_all text "C.1" requests none)
      (acknowledged_all text "C.1" requests none (λ x. false))
handle_all-Represents_example =
    handle_all-Represents text "C.1" requests none (λ x. false)
      (
        answers-IsHonest,
        (
          answers-IsHonest,
          (
            answers-IsHonest,
            (answers-IsHonest, (busy-IsHonest, (answers-IsHonest, (answers-IsHonest, tt)))),
          ),
        ),
      )
      (λ x. refl)
