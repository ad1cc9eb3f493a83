-- ===== src/Labeler.antt =====
-- services/labeler/labeler.go: the labels of a client, which one document of the index keeps. What the
-- index is asked to run on it, two scripts, is written as functions on that document.
pub mod Removal
pub mod Sets
pub mod Requests
mod Tests
use Prim.Native.String.{◌++◌ as str_append}
use cloudvelo.Prelude.{
  ℕ, zero, suc, String, List, [], ◌∷◌, ◌++◌, Bool, true, false, not, Option, none, some,
  if◌then◌else◌, ◌==◌, length,
}
use cloudvelo.Clients.Record.{ClientRecord, zero_record}

-- strings.TrimSpace, the label's pattern and strings.ToLower.
pub record Text : Type 0 where
  pub trim_space : String → String
  pub match_string : String → Bool
  pub to_lower : String → String

abbrev pub contains : List String → String → Bool
contains [] x = false
contains (y ∷ ys) x = let rest = contains ys x in if y == x then true else rest

-- `all_label_painless`: "if(!ctx._source.lower_labels.contains(params.lower_label)) {...}".
unfoldable pub all_label_painless : String → String → ℕ → ClientRecord → ClientRecord
all_label_painless label lower_label now doc =
    if not (contains doc.lower_labels lower_label)
    then record doc {
      labels = doc.labels ++ label ∷ [];
      lower_labels = doc.lower_labels ++ lower_label ∷ [];
      last_label_timestamp = now;
      last_hunt_timestamp = 0;
      last_event_table_version = 0;
    }
    else doc

-- `list[i]` and `list.remove(i)` of a script; `none` is the exception out of range.
abbrev pub get_elem? : List String → ℕ → Option String
get_elem? [] n = none
get_elem? (x ∷ xs) zero = some x
get_elem? (x ∷ xs) (suc n) = get_elem? xs n

abbrev pub consed : String → Option (List String) → Option (List String)
consed x none = none
consed x (some xs) = some (x ∷ xs)

abbrev pub remove_at : List String → ℕ → Option (List String)
remove_at [] n = none
remove_at (x ∷ xs) zero = some xs
remove_at (x ∷ xs) (suc n) = consed x (remove_at xs n)

abbrev pub removed :
    ℕ → ClientRecord → Option (List String) → Option (List String) → Option ClientRecord
removed now doc (some labels) (some lower_labels) =
    some (record doc { labels = labels; lower_labels = lower_labels; last_label_timestamp = now })
removed now doc none lower_labels = none
removed now doc (some labels) none = none

-- One round of the loop, at an index.
abbrev pub remove_if : String → ℕ → ℕ → ClientRecord → Option String → Option ClientRecord
remove_if lower_label now i doc none = none
remove_if lower_label now i doc (some here) =
    if here == lower_label
    then removed now doc (remove_at doc.labels i) (remove_at doc.lower_labels i)
    else some doc

abbrev pub remove_round : String → ℕ → ℕ → Option ClientRecord → Option ClientRecord
remove_round lower_label now i none = none
remove_round lower_label now i (some doc) =
    remove_if lower_label now i doc (get_elem? doc.lower_labels i)

-- "for (int i=ctx._source.lower_labels.length-1; i>=0; i--)": `n` rounds are left.
unfoldable pub remove_loop : String → ℕ → ℕ → Option ClientRecord → Option ClientRecord
remove_loop lower_label now zero doc = doc
remove_loop lower_label now (suc n) doc =
    remove_loop lower_label now n (remove_round lower_label now n doc)

unfoldable pub remove_label_painless : String → ℕ → ClientRecord → Option ClientRecord
remove_label_painless lower_label now doc =
    remove_loop lower_label now (length doc.lower_labels) (some doc)

-- The document with the client's labels, if there is one, and the error of the call.
abbrev pub Labelled : Type 0
Labelled = Option ClientRecord × Option String

abbrev pub missing : String
missing = "document_missing_exception"

-- `UpdateIndex`: `refuses` is any error of the index but that the document is missing or that the
-- script ended with an exception.
abbrev pub scripted : Option ClientRecord → Option ClientRecord → Labelled
scripted before none = (before, some "script_exception")
scripted before (some after) = (some after, none)

unfoldable pub update_index :
    Option String → (ClientRecord → Option ClientRecord) → Option ClientRecord → Labelled
update_index (some e) script stored = (stored, some e)
update_index none script none = (none, some missing)
update_index none script (some doc) = scripted (some doc) (script doc)

-- `SetElasticIndex` for the same document.
abbrev pub set_elastic_index : Option String → ClientRecord → Option ClientRecord → Labelled
set_elastic_index (some e) doc stored = (stored, some e)
set_elastic_index none doc stored = (some doc, none)

abbrev pub first_record : Text → String → ℕ → ℕ → String → ClientRecord
first_record text client_id now now_unix label = record zero_record {
  client_id = client_id;
  labels = label ∷ [];
  lower_labels = text.to_lower label ∷ [];
  last_label_timestamp = now;
  doc_type = "clients";
  timestamp = now_unix;
}

-- The index's answers to the two calls, and the clock.
pub record Answers : Type 0 where
  pub update : Option String
  pub set : Option String
  -- the error's text has that of a missing document
  pub contains_missing : String → Bool
  pub now : ℕ
  pub now_unix : ℕ

abbrev pub set_if_missing :
    Text → Answers → String → String → Option ClientRecord → Labelled → Labelled
set_if_missing text answers client_id label stored (doc, none) = (doc, none)
set_if_missing text answers client_id label stored (doc, some e) =
    if not (answers.contains_missing e)
    then (doc, some e)
    else set_elastic_index answers.set
        (first_record text client_id answers.now answers.now_unix label) doc

abbrev pub set_trimmed : Text → Answers → String → String → Option ClientRecord → Labelled
set_trimmed text answers client_id label stored =
    if not (text.match_string label)
    then (stored, some "Invalid Label should use only A-Z and 0-9")
    else set_if_missing text answers client_id label stored (
        update_index answers.update
          (λ doc. some (all_label_painless label (text.to_lower label) answers.now doc)) stored)

unfoldable pub set_client_label : Text → Answers → String → String → Option ClientRecord → Labelled
set_client_label text answers client_id label stored =
    set_trimmed text answers client_id (text.trim_space label) stored

unfoldable pub remove_client_label : Text → Answers → String → Option ClientRecord → Labelled
remove_client_label text answers label stored =
    update_index answers.update
      (remove_label_painless (text.to_lower (text.trim_space label)) answers.now) stored
