-- ===== src/Users/RoundTrip.antt =====
-- What is stored of a user, and read again.
use cloudvelo.Prelude.{
  String, [], Option, none, some, true, eq_iff, arith, lookup, Result, ok, err, ◌≡◌, ◌≢◌, refl,
  ==-nonempty,
}
use cloudvelo.Users.{
  found, Persisted, VelociraptorUser, UserRecord, SetGuiOptionsRequest, UserGuiOptions, Env,
  CacheEntry, other_object, cached_user_object, UserStorageManager,
}
use cloudvelo.Users.Options.{
  options_id, with_defaults, get_user_options, merged_options, old_or_none, options_marshalled,
  or_old, new_password, set_user_options,
}

-- The index gives what was written last under an id.
abbrev pub Keeps {ℓ} : {S : Type ℓ} → Persisted S → String → Type ℓ
Keeps {S = S} index id =
    (text : String) (s : S)
    → (index.set_elastic_index id text s).1 ≡ none
    → (index.get_elastic_record id (index.set_elastic_index id text s).0 ≡ found (some text))
      × (index.get_elastic_record_by_query id (index.set_elastic_index id text s).0
          ≡ found (some text))

abbrev pub user_document : VelociraptorUser → String → UserRecord
user_document user text = record { username = user.name; record_ = text; doc_type = "users" }

abbrev pub options_document : String → String → UserGuiOptions
options_document username text = record {
  username = username;
  gui_options = text;
  type_ = "user_options";
  doc_type = "user_options";
}

-- The index keeps the record of this user, and each decoder reads what its encoder wrote.
pub record IsStore {ℓ} {S : Type ℓ} (env : Env) (index : Persisted S) (user : VelociraptorUser)
    : Type ℓ where
  pub kept : Keeps index user.name
  pub marshalled :
      (text : String) → env.marshal_user user ≡ ok text → env.unmarshal_user text ≡ ok user
  pub encoded :
      (text : String)
      → env.decode_record (env.encode_record (user_document user text))
        ≡ ok (user_document user text)

-- The same for the options of a user.
pub record IsOptionsStore {ℓ} {S : Type ℓ} (env : Env) (index : Persisted S) (username : String)
    (options : SetGuiOptionsRequest) : Type ℓ where
  pub kept : Keeps index (options_id username)
  pub marshalled :
      (text : String)
      → env.marshal_options options ≡ ok text
      → (env.unmarshal_options text ≡ (options, none)) × (text ≢ "")
  pub encoded :
      (text : String)
      → env.decode_options (env.encode_options (options_document username text))
        ≡ ok (options_document username text)

-- A text that replaces the old one, unless it is empty.
abbrev pub IsReplaced : String → String → String → Type 0
IsReplaced old new result = (new ≡ "" → result ≡ old) × (new ≢ "" → result ≡ new)

-- The options after a change, field by field.
pub record IsMerged (env : Env) (old new result : SetGuiOptionsRequest) : Type 0 where
  pub lang : IsReplaced old.lang new.lang result.lang
  pub theme : IsReplaced old.theme new.theme result.theme
  pub timezone : IsReplaced old.timezone new.timezone result.timezone
  pub org : IsReplaced old.org new.org result.org
  pub options : IsReplaced old.options new.options result.options
  pub password_kept : new.default_password ≡ "" → result.default_password ≡ old.default_password
  pub password_reset : new.default_password ≡ "-" → result.default_password ≡ ""
  pub password_set :
      new.default_password ≢ ""
      → new.default_password ≢ "-"
      → result.default_password ≡ new.default_password
  pub lock : result.default_downloads_lock ≡ new.default_downloads_lock
  pub links : result.links ≡ env.merge_links []
  pub server_events : result.disable_server_events ≡ true

or_old-IsReplaced : (new old : String) → IsReplaced old new (or_old new old)
or_old-IsReplaced new old = ground (arith, eq_iff new "")

new_password_lem :
    (new old : String)
    → (new ≡ "" → new_password new old ≡ old)
      × (new ≡ "-" → new_password new old ≡ "")
      × (new ≢ "" → new ≢ "-" → new_password new old ≡ new)
new_password_lem new old =
    (λ e. rw e refl, λ e. rw e refl, λ p q. ground (arith, eq_iff new "", eq_iff new "-"))

merged_options-IsMerged :
    (env : Env) (old new : SetGuiOptionsRequest)
    → IsMerged env old new (with_defaults env (merged_options old new))
unfolding merged_options
merged_options-IsMerged env old new =
    let (keeps, resets, sets) = new_password_lem new.default_password old.default_password in
    record {
      lang = or_old-IsReplaced new.lang old.lang;
      theme = or_old-IsReplaced new.theme old.theme;
      timezone = or_old-IsReplaced new.timezone old.timezone;
      org = or_old-IsReplaced new.org old.org;
      options = or_old-IsReplaced new.options old.options;
      password_kept = keeps;
      password_reset = resets;
      password_set = sets;
      lock = refl;
      links = refl;
      server_events = refl;
    }

-- An entry of the cache that is not the object that is looked for, if there is one.
abbrev pub IsOther : Option CacheEntry → Type 0
IsOther none = Unit
IsOther (some (cached_user_object user)) = ⊥
IsOther (some (other_object user)) = Unit

-- No entry of the cache is the object that is looked for.
abbrev pub IsUncached : UserStorageManager → Type 0
IsUncached self = (name : String) → IsOther (lookup name self.lru)

module _ {ℓ} {S : Type ℓ} (env : Env) (index : Persisted S) where
  options_marshalled-none :
      (username : String) (s : S) (marshalled : Result String)
      → (options_marshalled env index username s marshalled).1 ≡ none
      → (text : String) × (marshalled ≡ ok text)
  options_marshalled-none username s (err e) h = cc h
  options_marshalled-none username s (ok text) h = (text, refl)

  options-read :
      (username : String) (options : SetGuiOptionsRequest) (text : String) (s : S)
      → IsOptionsStore env index username options
      → env.marshal_options options ≡ ok text
      → index.get_elastic_record_by_query (options_id username) s
        ≡ found (some (env.encode_options (options_document username text)))
      → get_user_options env index username s ≡ ok (with_defaults env options)
  unfolding get_user_options
  options-read username options text s store marshalled reads =
      let (read, nonempty) = store.marshalled text marshalled in
      rw (reads, store.encoded text, ==-nonempty text nonempty, read)

  -- Options that were set without an error, where the store keeps what is written, are read with
  -- each field of what was given, or of what was there before where the given text is empty (of no
  -- options where the old ones could not be read); the password "-" removes the old one; the lock is
  -- the given one; the links are those that the configuration and the defaults give to none.
  pub get_user_options-set_user_options :
      (username : String) (options : SetGuiOptionsRequest) (s : S)
      → let old = old_or_none (get_user_options env index username s) in
        IsOptionsStore env index username (merged_options old options)
        → (set_user_options env index username options s).1 ≡ none
        → (result : SetGuiOptionsRequest) × (get_user_options env index username
              (set_user_options env index username options s).0
            ≡ ok result)
          × IsMerged env old options result
  unfolding set_user_options
  get_user_options-set_user_options username options s store done =
      let old = old_or_none (get_user_options env index username s) in
      let merged = merged_options old options in
      let (text, marshalled) =
        options_marshalled-none username s (env.marshal_options merged) done in
      let doc = env.encode_options (options_document username text) in
      let reads = (store.kept doc s (rw marshalled at done)).1 in
      (
        with_defaults env merged,
        rw marshalled (
            options-read username merged text
              (index.set_elastic_index (options_id username) doc s).0 store marshalled reads),
        merged_options-IsMerged env old options,
      )
