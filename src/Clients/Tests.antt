-- ===== src/Clients/Tests.antt =====
-- Two documents of one client.
use cloudvelo.Prelude.{String, List, [], ◌∷◌, Option, none, some, ok, In, NoDup, map, ◌≡◌, ◌≢◌}
use cloudvelo.Clients.Record.{ClientRecord, zero_record}
use cloudvelo.Clients.Merge.{get_multiple_clients}
use cloudvelo.Clients.Merge.Fields.{own}
use cloudvelo.Clients.Merge.Exact.{IsOwnRecord, get_multiple_clients_exact}

abbrev hits : List (Option ClientRecord)
hits =
    some (record zero_record { client_id = "C.1"; hostname = "host" })
    ∷ none
    ∷ some (record zero_record { client_id = "C.1"; labels = "lab" ∷ [] })
    ∷ []

get_multiple_clients_exact_example :
    (records : List ClientRecord) × (get_multiple_clients (ok hits) ≡ ok records)
    × NoDup (map (λ (r : ClientRecord). r.client_id) records)
    × ((r : ClientRecord) → In r records → IsOwnRecord hits r.client_id r)
    × ((c : String) (d : ClientRecord)
        → c ≢ ""
        → In d (own c hits)
        → (r : ClientRecord) × In r records × IsOwnRecord hits c r)
get_multiple_clients_exact_example = get_multiple_clients_exact hits
