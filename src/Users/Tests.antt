-- ===== src/Users/Tests.antt =====
-- An index that is a map, and one user.
use Prim.Native.String.{◌++◌ as str_append}
use cloudvelo.Prelude.{
  true, String, [], ◌∷◌, Option, none, some, Assoc, lookup, insert, lookup-insert_self, ok, ◌≡◌,
  refl, ap, sym, ◌∙◌, ok_injective,
}
use cloudvelo.Users.{
  Found, found, not_exist, Persisted, VelociraptorUser, SetGuiOptionsRequest, Env,
}
use cloudvelo.Users.Options.{
  no_options, get_user_options, set_user_options, merged_options, old_or_none,
}
use cloudvelo.Users.RoundTrip.{IsMerged, get_user_options-set_user_options, Keeps}

abbrev or_not_exist : Option String → Found
or_not_exist none = not_exist
or_not_exist (some text) = found (some text)

abbrev index : Persisted (Assoc String)
index = record {
  get_elastic_record = λ id s. or_not_exist (lookup id s);
  get_elastic_record_by_query = λ id s. or_not_exist (lookup id s);
  set_elastic_index = λ id text s. (insert id text s, none);
}

abbrev admin : VelociraptorUser
admin = record { name = "admin"; orgs = record { id = "O1"; name = "" } ∷ []; other = "" }

abbrev dark : SetGuiOptionsRequest
dark = record no_options { theme = "dark"; default_password = "-" }

abbrev env : Env
env = record {
  matches_username = λ name. true;
  api_gw_name = none;
  client_server_name = some "server";
  gw_name = "gateway";
  server_name = "VelociraptorServer";
  marshal_user = λ user. ok "admin";
  unmarshal_user = λ text. ok admin;
  encode_record = λ r. r.record_;
  decode_record = λ text. ok (record { username = "admin"; record_ = text; doc_type = "users" });
  marshal_options = λ options. ok "options";
  unmarshal_options = λ text. (record no_options { theme = "dark" }, none);
  encode_options = λ r. r.gui_options;
  decode_options = λ text. ok (record {
    username = "admin";
    gui_options = text;
    type_ = "user_options";
    doc_type = "user_options";
  });
  org_name = λ id. some "Org";
  merge_links = λ links. "link" ∷ [];
}

index-Keeps : (id : String) → Keeps index id
index-Keeps id text s done =
    (ap or_not_exist (lookup-insert_self id text s), ap or_not_exist (lookup-insert_self id text s))

merged_dark :
    merged_options (old_or_none (get_user_options env index "admin" [])) dark
    ≡ record no_options { theme = "dark" }
unfolding merged_options get_user_options lookup
merged_dark = refl

dark_set : (set_user_options env index "admin" dark []).1 ≡ none
unfolding set_user_options
dark_set = refl

get_user_options-set_user_options_example :
    (result : SetGuiOptionsRequest) × (get_user_options env index "admin"
        (set_user_options env index "admin" dark []).0
      ≡ ok result)
    × IsMerged env (old_or_none (get_user_options env index "admin" [])) dark result
get_user_options-set_user_options_example =
    get_user_options-set_user_options env index "admin" dark []
      (record {
        kept = index-Keeps (str_append "admin" "_options");
        marshalled =
            λ text e. (ap (λ o. (o, none)) (sym merged_dark), λ empty. cc (ok_injective e ∙ empty));
        encoded = λ text. refl;
      })
      dark_set
