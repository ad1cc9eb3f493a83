-- ===== src/Users.antt =====
-- services/users/storage.go: the users and their options in the persisted index, and the cache in
-- front of them. The index is a state that a record is written to and read from; an entry of the
-- cache may be gone at any time, so that a theorem holds for every cache.
pub mod Options
mod RoundTrip
mod Tests
use Prim.Native.String.{◌++◌ as str_append}
use cloudvelo.Prelude.{
  not, ◌||◌, true, false, String, List, [], ◌∷◌, map, Option, none, some, Bool, if◌then◌else◌, ◌==◌,
  Assoc, lookup, insert, Result, ok, err, ◌>>=◌,
}

-- What a read gives: `none` where the read has neither a record nor an error.
pub data Found : Type 0 where
  found : Option String → Found
  not_exist : Found
  broken : String → Found

-- The persisted index of the root organisation.
pub record Persisted {ℓ} (S : Type ℓ) : Type ℓ where
  pub get_elastic_record : String → S → Found
  pub get_elastic_record_by_query : String → S → Found
  pub set_elastic_index : String → String → S → S × Option String

-- A user's organisation, and the user; `other` is the rest of the message.
pub record UserOrg : Type 0 where
  pub id : String
  pub name : String

pub record VelociraptorUser : Type 0 where
  pub name : String
  pub orgs : List UserOrg
  pub other : String

pub record UserRecord : Type 0 where
  pub username : String
  pub record_ : String
  pub doc_type : String

pub record SetGuiOptionsRequest : Type 0 where
  pub lang : String
  pub theme : String
  pub timezone : String
  pub org : String
  pub options : String
  pub default_password : String
  pub default_downloads_lock : Bool
  pub links : List String
  pub disable_server_events : Bool

pub record UserGuiOptions : Type 0 where
  pub username : String
  pub gui_options : String
  pub type_ : String
  pub doc_type : String

-- The expression that a name has to match, the names that the configuration and the program reserve,
-- the encoders, the organisations, and the merge of links with those of the
-- configuration and the defaults. A missing record is the text "" for a decoder.
pub record Env : Type 0 where
  pub matches_username : String → Bool
  pub api_gw_name : Option String
  pub client_server_name : Option String
  pub gw_name : String
  pub server_name : String
  pub marshal_user : VelociraptorUser → Result String
  pub unmarshal_user : String → Result VelociraptorUser
  pub encode_record : UserRecord → String
  pub decode_record : String → Result UserRecord
  pub marshal_options : SetGuiOptionsRequest → Result String
  pub unmarshal_options : String → SetGuiOptionsRequest × Option String
  pub encode_options : UserGuiOptions → String
  pub decode_options : String → Result UserGuiOptions
  pub org_name : String → Option String
  pub merge_links : List String → List String

abbrev pub is_reserved : Option String → String → Bool
is_reserved none name = false
is_reserved (some reserved) name = reserved == name

unfoldable pub validate_username : Env → String → Option String
validate_username env name =
    if not (env.matches_username name)
    then some (str_append "Unacceptable username " name)
    else if is_reserved env.api_gw_name name
        || is_reserved env.client_server_name name
        || name == env.gw_name
        || name == env.server_name
    then some (str_append "Username is reserved: " name)
    else none

-- What the cache holds: the type that is looked for, or another one.
pub data CacheEntry : Type 0 where
  cached_user_object : Option VelociraptorUser → CacheEntry
  other_object : VelociraptorUser → CacheEntry

pub record UserStorageManager : Type 0 where
  pub lru : Assoc CacheEntry

abbrev pub new_user_storage_manager : UserStorageManager
new_user_storage_manager = record { lru = [] }

abbrev pub or_empty : Option String → String
or_empty none = ""
or_empty (some text) = text

abbrev pub not_exist_text : String
not_exist_text = "file does not exist"

abbrev pub record_found : Found → Result String
record_found (found text) = ok (or_empty text)
record_found not_exist = err not_exist_text
record_found (broken e) = err e

abbrev pub cached : Option CacheEntry → Option VelociraptorUser
cached none = none
cached (some (cached_user_object user)) = user
cached (some (other_object user)) = none

-- The name of an organisation is that of its configuration, where it has one.
abbrev pub with_name : Env → UserOrg → UserOrg
with_name env org = elim (env.org_name org.id) [
  | none ↦ org
  | some name ↦ record org { name = name }
]

unfoldable pub with_names : Env → VelociraptorUser → VelociraptorUser
with_names env user = record user { orgs = map (with_name env) user.orgs }

abbrev pub valid_or_error : Option String → Result (Unit {0})
valid_or_error none = ok tt
valid_or_error (some e) = err e

unfoldable pub read_user {ℓ} :
    {S : Type ℓ} → Env → Persisted S → String → S → Result VelociraptorUser
read_user env index username s = do
  valid ← valid_or_error (validate_username env username)
  serialized ← record_found (index.get_elastic_record username s)
  user_record ← env.decode_record serialized
  user ← env.unmarshal_user user_record.record_
  ok (with_names env user)

-- What is read is put into the cache as another object than the one that is looked for.
abbrev pub user_read :
    String
    → UserStorageManager
    → Result VelociraptorUser
    → UserStorageManager × Result VelociraptorUser
user_read username self (err e) = (self, err e)
user_read username self (ok user) =
    (record self { lru = insert username (other_object user) self.lru }, ok user)

abbrev pub cached_or :
    UserStorageManager
    → UserStorageManager × Result VelociraptorUser
    → Option VelociraptorUser
    → UserStorageManager × Result VelociraptorUser
cached_or self read none = read
cached_or self read (some user) = (self, ok user)

unfoldable pub get_user_with_hashes {ℓ} :
    {S : Type ℓ}
    → Env
    → Persisted S
    → String
    → UserStorageManager
    → S
    → UserStorageManager × Result VelociraptorUser
get_user_with_hashes env index username self s =
    if username == ""
    then (self, err "Must set a username")
    else cached_or self (user_read username self (read_user env index username s))
        (cached (lookup username self.lru))

-- The cached object of the user, which is changed where it is.
abbrev pub renewed : VelociraptorUser → Assoc CacheEntry → Option CacheEntry → Assoc CacheEntry
renewed user lru (some (cached_user_object old)) =
    insert user.name (cached_user_object (some user)) lru
renewed user lru (some (other_object old)) = lru
renewed user lru none = lru

abbrev pub user_marshalled {ℓ} :
    {S : Type ℓ} → Env → Persisted S → VelociraptorUser → S → Result String → S × Option String
user_marshalled env index user s (err e) = (s, some e)
user_marshalled env index user s (ok serialized) =
    index.set_elastic_index user.name
      (env.encode_record
        (record { username = user.name; record_ = serialized; doc_type = "users" }))
      s

abbrev pub name_checked {ℓ} :
    {S : Type ℓ}
    → UserStorageManager
    → S
    → (UserStorageManager × (S × Option String))
    → Option String
    → UserStorageManager × (S × Option String)
name_checked self s next (some e) = (self, (s, some e))
name_checked self s next none = next

unfoldable pub set_user {ℓ} :
    {S : Type ℓ}
    → Env
    → Persisted S
    → VelociraptorUser
    → UserStorageManager
    → S
    → UserStorageManager × (S × Option String)
set_user env index user self s =
    if user.name == ""
    then (self, (s, some "Must set a username"))
    else name_checked self s
        (
          record self { lru = renewed user self.lru (lookup user.name self.lru) },
          user_marshalled env index user s (env.marshal_user user),
        )
        (validate_username env user.name)

-- Documents that are no users are passed over.
abbrev pub listed : Env → List VelociraptorUser → Result VelociraptorUser → List VelociraptorUser
listed env rest (err e) = rest
listed env rest (ok user) = user ∷ rest

abbrev pub user_of_hit : Env → String → Result VelociraptorUser
user_of_hit env hit = do user_record ← env.decode_record hit; env.unmarshal_user user_record.record_

unfoldable pub users_of_hits : Env → List String → List VelociraptorUser
users_of_hits env [] = []
users_of_hits env (hit ∷ hits) = listed env (users_of_hits env hits) (user_of_hit env hit)

-- The hits of the search for all documents.
abbrev pub list_all_users : Env → Result (List String) → Result (List VelociraptorUser)
list_all_users env (err e) = err e
list_all_users env (ok hits) = ok (users_of_hits env hits)
