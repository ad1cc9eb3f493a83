-- ===== src/ClientInfo.antt =====
-- services/client_info/metadata.go: what an operator writes about a client, as an ordered dictionary that
-- one document of the index keeps.
pub mod Override
mod Tests
use cloudvelo.Prelude.{
  String, List, [], ◌∷◌, Bool, true, false, not, Option, none, some, if◌then◌else◌, ◌==◌, filter,
  keys, is_some, Assoc, lookup, insert, Result, ok, err,
}

-- A value: nil, a text, or any other value as its JSON.
pub data Value : Type 0 where
  null : Value
  text : String → Value
  json_value : String → Value

unfoldable pub value_is_remove : Value → Bool
value_is_remove null = true
value_is_remove (text t) = t == ""
value_is_remove (json_value t) = false

-- `Delete` of the dictionary.
abbrev pub delete : String → Assoc Value → Assoc Value
delete key m = filter (λ entry. not (entry.0 == key)) m

-- `GetMetadata`, given the document, where there is one, and the decoders: the entry that it is, and the
-- dictionary in the entry's text. Whatever fails, the dictionary is empty.
abbrev pub or_empty : Result (Assoc Value) → Assoc Value
or_empty (err e) = []
or_empty (ok m) = m

abbrev pub decoded : (String → Result (Assoc Value)) → Result String → Assoc Value
decoded unmarshal (err e) = []
decoded unmarshal (ok metadata) = or_empty (unmarshal metadata)

unfoldable pub get_metadata :
    (String → Result String) → (String → Result (Assoc Value)) → Option String → Assoc Value
get_metadata entry unmarshal none = []
get_metadata entry unmarshal (some message) = decoded unmarshal (entry message)

-- A round of the first loop, for a key of the old dictionary.
abbrev pub merge_key : String → Option Value → Assoc Value → Assoc Value
merge_key k none old = old
merge_key k (some new_value) old =
    if value_is_remove new_value then delete k old else insert k new_value old

unfoldable pub merge_old : List String → Assoc Value → Assoc Value → Assoc Value
merge_old [] metadata old = old
merge_old (k ∷ ks) metadata old = merge_old ks metadata (merge_key k (lookup k metadata) old)

-- A round of the second loop, for an entry of the new dictionary: "Add any missing fields".
abbrev pub add_key : String → Value → Assoc Value → Assoc Value
add_key k value old = if not (is_some (lookup k old)) then insert k value old else old

unfoldable pub add_missing : Assoc Value → Assoc Value → Assoc Value
add_missing [] old = old
add_missing ((k, value) ∷ rest) old = add_missing rest (add_key k value old)

-- `SetMetadata`, as far as the dictionary that is stored.
unfoldable pub set_metadata : Assoc Value → Assoc Value → Assoc Value
set_metadata old metadata = add_missing metadata (merge_old (keys old) metadata old)
