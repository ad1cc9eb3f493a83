-- ===== src/ClientInfo/Tests.antt =====
-- A key that is to be removed, one that is changed and one that is new.
use cloudvelo.Prelude.{[], ◌∷◌, lookup, Assoc, ◌≡◌}
use cloudvelo.ClientInfo.{Value, text, json_value, set_metadata}
use cloudvelo.ClientInfo.Override.{or_else, set_metadata-override}

abbrev old : Assoc Value
old = ("owner", text "ops") ∷ ("site", text "north") ∷ []

abbrev metadata : Assoc Value
metadata = ("owner", text "") ∷ ("rank", json_value "3") ∷ []

set_metadata-override_example :
    lookup "owner" (set_metadata old metadata)
    ≡ or_else (lookup "owner" metadata) (lookup "owner" old)
set_metadata-override_example = set_metadata-override old metadata "owner"
