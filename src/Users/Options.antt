-- ===== src/Users/Options.antt =====
-- services/users/storage.go: the options of a user's interface.
use Prim.Native.String.{◌++◌ as str_append}
use cloudvelo.Prelude.{
  String, [], Option, none, some, true, false, if◌then◌else◌, ◌==◌, Result, ok, err,
}
use cloudvelo.Users.{
  Found, found, not_exist, broken, Persisted, SetGuiOptionsRequest, UserGuiOptions, Env, or_empty,
}

abbrev pub no_options : SetGuiOptionsRequest
no_options = record {
  lang = "";
  theme = "";
  timezone = "";
  org = "";
  options = "";
  default_password = "";
  default_downloads_lock = false;
  links = [];
  disable_server_events = false;
}

abbrev pub options_id : String → String
options_id username = str_append username "_options"

-- The links of the configuration and of the defaults are added.
abbrev pub with_defaults : Env → SetGuiOptionsRequest → SetGuiOptionsRequest
with_defaults env options = record options {
  links = env.merge_links options.links;
  disable_server_events = true;
}

abbrev pub options_unmarshalled :
    Env → SetGuiOptionsRequest × Option String → Result SetGuiOptionsRequest
options_unmarshalled env (options, some e) = err e
options_unmarshalled env (options, none) = ok (with_defaults env options)

abbrev pub options_decoded : Env → Result UserGuiOptions → Result SetGuiOptionsRequest
options_decoded env (err e) = err e
options_decoded env (ok user_record) =
    if user_record.gui_options == ""
    then ok no_options
    else options_unmarshalled env (env.unmarshal_options user_record.gui_options)

abbrev pub options_found : Env → Found → Result SetGuiOptionsRequest
options_found env not_exist = ok no_options
options_found env (broken e) = err e
options_found env (found text) = options_decoded env (env.decode_options (or_empty text))

unfoldable pub get_user_options {ℓ} :
    {S : Type ℓ} → Env → Persisted S → String → S → Result SetGuiOptionsRequest
get_user_options env index username s =
    options_found env (index.get_elastic_record_by_query (options_id username) s)

-- What is set replaces what was there, and an empty text leaves it.
abbrev pub or_old : String → String → String
or_old new old = if new == "" then old else new

-- "Means to reset the password."
abbrev pub new_password : String → String → String
new_password new old = if new == "" then old else if new == "-" then "" else new

unfoldable pub merged_options : SetGuiOptionsRequest → SetGuiOptionsRequest → SetGuiOptionsRequest
merged_options old new = record {
  lang = or_old new.lang old.lang;
  theme = or_old new.theme old.theme;
  timezone = or_old new.timezone old.timezone;
  org = or_old new.org old.org;
  options = or_old new.options old.options;
  default_password = new_password new.default_password old.default_password;
  default_downloads_lock = new.default_downloads_lock;
  links = [];
  disable_server_events = old.disable_server_events;
}

abbrev pub old_or_none : Result SetGuiOptionsRequest → SetGuiOptionsRequest
old_or_none (err e) = no_options
old_or_none (ok old) = old

abbrev pub options_marshalled {ℓ} :
    {S : Type ℓ} → Env → Persisted S → String → S → Result String → S × Option String
options_marshalled env index username s (err e) = (s, some e)
options_marshalled env index username s (ok serialized) =
    index.set_elastic_index (options_id username)
      (env.encode_options (record {
        username = username;
        gui_options = serialized;
        type_ = "user_options";
        doc_type = "user_options";
      }))
      s

unfoldable pub set_user_options {ℓ} :
    {S : Type ℓ} → Env → Persisted S → String → SetGuiOptionsRequest → S → S × Option String
set_user_options env index username options s =
    let old = old_or_none (get_user_options env index username s) in
    options_marshalled env index username s (env.marshal_options (merged_options old options))
