-- ===== src/Clients/Merge/Exact.antt =====
-- Each client has one record, of its own documents in their order.
use cloudvelo.Prelude.{
  String, List, [], ◌∷◌, Option, none, some, false, if◌then◌else◌, ◌==◌, ok, map, Assoc, lookup,
  lookup-insert, lookup-nil, keys, NoDup, In, In-of-lookup, lookup-of-In, keys-insert-NoDup, ◌≡◌,
  ◌≢◌, ◌↔◌, refl, ap, sym, ◌∙◌, inl, inr, arith, eq_iff, Bool-cases, if_true, if_false, if_elim,
  All, subst,
}
use cloudvelo.Clients.Record.{ClientRecord}
use cloudvelo.Clients.Merge.Fields.{own, IsRecordOf, fold_merge, fold_merge-IsRecordOf}
use cloudvelo.Clients.Merge.{merged_with, add_hit, collect, get_multiple_clients}

-- The documents of one client, merged one after the other into what is there.
abbrev pub merged_from :
    Option ClientRecord → String → List (Option ClientRecord) → Option ClientRecord
merged_from found c [] = found
merged_from found c (none ∷ hits) = merged_from found c hits
merged_from found c (some hit ∷ hits) =
    merged_from (if hit.client_id == c then some (merged_with found hit) else found) c hits

add_hit-lookup :
    (hit : ClientRecord) (found : Assoc ClientRecord) (c : String)
    → c ≢ ""
    → lookup c (add_hit hit found)
      ≡ (if hit.client_id == c then some (merged_with (lookup c found) hit) else lookup c found)
unfolding add_hit
add_hit-lookup hit found c named = elim (Bool-cases (hit.client_id == "")) [
  | inl unnamed ↦
      let other : (hit.client_id == c) ≡ false =
        ground (arith, unnamed, named, eq_iff hit.client_id "", eq_iff hit.client_id c) in
      ap (lookup c) (if_true _ unnamed) ∙ sym (if_false _ other)
  | inr is_named ↦
      ap (lookup c) (if_false _ is_named)
      ∙ lookup-insert hit.client_id c (merged_with (lookup hit.client_id found) hit) found
      ∙ elim (Bool-cases (hit.client_id == c)) [
        | inl same ↦
            if_true _ same
            ∙ ap (λ k. some (merged_with (lookup k found) hit)) ((eq_iff hit.client_id c).0 same)
            ∙ sym (if_true _ same)
        | inr other ↦ if_false _ other ∙ sym (if_false _ other)
      ]
]

collect-lookup :
    (hits : List (Option ClientRecord)) (found : Assoc ClientRecord) (c : String)
    → c ≢ ""
    → lookup c (collect hits found) ≡ merged_from (lookup c found) c hits
unfolding collect
collect-lookup [] found c named = refl
collect-lookup (none ∷ hits) found c named = collect-lookup hits found c named
collect-lookup (some hit ∷ hits) found c named =
    collect-lookup hits (add_hit hit found) c named
    ∙ ap (λ f. merged_from f c hits) (add_hit-lookup hit found c named)

add_hit-unnamed :
    (hit : ClientRecord) (found : Assoc ClientRecord)
    → lookup "" found ≡ none
    → lookup "" (add_hit hit found) ≡ none
unfolding add_hit
add_hit-unnamed hit found h = elim (Bool-cases (hit.client_id == "")) [
  | inl unnamed ↦ ap (lookup "") (if_true _ unnamed) ∙ h
  | inr named ↦
      ap (lookup "") (if_false _ named)
      ∙ lookup-insert hit.client_id "" (merged_with (lookup hit.client_id found) hit) found
      ∙ if_false _ named
      ∙ h
]

collect-unnamed :
    (hits : List (Option ClientRecord)) (found : Assoc ClientRecord)
    → lookup "" found ≡ none
    → lookup "" (collect hits found) ≡ none
unfolding collect
collect-unnamed [] found h = h
collect-unnamed (none ∷ hits) found h = collect-unnamed hits found h
collect-unnamed (some hit ∷ hits) found h =
    collect-unnamed hits (add_hit hit found) (add_hit-unnamed hit found h)

collect-NoDup :
    (hits : List (Option ClientRecord)) (found : Assoc ClientRecord)
    → NoDup (keys found)
    → NoDup (keys (collect hits found))
unfolding collect add_hit
collect-NoDup [] found d = d
collect-NoDup (none ∷ hits) found d = collect-NoDup hits found d
collect-NoDup (some hit ∷ hits) found d = collect-NoDup hits (add_hit hit found) (
    if_elim (λ (m : Assoc ClientRecord). NoDup (keys m)) (hit.client_id == "") d
      (keys-insert-NoDup hit.client_id (merged_with (lookup hit.client_id found) hit) found d))

-- The values of a dictionary.
In-values :
    (r : ClientRecord) (m : Assoc ClientRecord)
    → In r (map (λ (entry : String × ClientRecord). entry.1) m) ↔ ((k : String) × In (k, r) m)
In-values r [] = (absurd, λ h. h.1)
In-values r ((j, w) ∷ m) = (
  λ h. elim h [
    | inl e ↦ (j, inl (ap (λ x. (j, x)) e))
    | inr i ↦ let (k, m') = (In-values r m).0 i in (k, inr m')
  ],
  λ h. elim h.1 [
    | inl e ↦ inl (ap (λ (entry : String × ClientRecord). entry.1) e)
    | inr i ↦ inr ((In-values r m).1 (h.0, i))
  ],
)

-- The merge of the documents, where there is one.
abbrev record_of : List ClientRecord → Option ClientRecord
record_of [] = none
record_of (first ∷ rest) = some (fold_merge first rest)

merged_from-some :
    (acc : ClientRecord) (c : String) (hits : List (Option ClientRecord))
    → merged_from (some acc) c hits ≡ some (fold_merge acc (own c hits))
merged_from-some acc c [] = refl
merged_from-some acc c (none ∷ hits) = merged_from-some acc c hits
merged_from-some acc c (some hit ∷ hits) = elim (Bool-cases (hit.client_id == c)) [
  | inl e ↦ rw e (merged_from-some (merged_with (some acc) hit) c hits)
  | inr e ↦ rw e (merged_from-some acc c hits)
]

merged_from-own :
    (c : String) (hits : List (Option ClientRecord))
    → merged_from none c hits ≡ record_of (own c hits)
merged_from-own c [] = refl
merged_from-own c (none ∷ hits) = merged_from-own c hits
merged_from-own c (some hit ∷ hits) = elim (Bool-cases (hit.client_id == c)) [
  | inl e ↦ rw e (merged_from-some hit c hits)
  | inr e ↦ rw e (merged_from-own c hits)
]

own-client_id :
    (c : String) (hits : List (Option ClientRecord))
    → All (λ (d : ClientRecord). d.client_id ≡ c) (own c hits)
own-client_id c [] = tt
own-client_id c (none ∷ hits) = own-client_id c hits
own-client_id c (some hit ∷ hits) = elim (Bool-cases (hit.client_id == c)) [
  | inl e ↦ rw e ((eq_iff hit.client_id c).0 e, own-client_id c hits)
  | inr e ↦ rw e (own-client_id c hits)
]

-- A record of the client's own documents.
pub record IsOwnRecord (hits : List (Option ClientRecord)) (c : String) (r : ClientRecord)
    : Type 0 where
  pub named : c ≢ ""
  pub first : ClientRecord
  pub rest : List ClientRecord
  pub documents : own c hits ≡ first ∷ rest
  pub client : r.client_id ≡ c
  pub merged : IsRecordOf first rest r

record_of-own :
    (hits : List (Option ClientRecord)) (c : String) (r : ClientRecord)
    (documents : List ClientRecord)
    → c ≢ ""
    → own c hits ≡ documents
    → record_of documents ≡ some r
    → IsOwnRecord hits c r
record_of-own hits c r [] named same e = cc e
record_of-own hits c r (first ∷ rest) named same e =
    let same_record : fold_merge first rest ≡ r = cc e in
    let merged : IsRecordOf first rest r =
      subst (IsRecordOf first rest) same_record (fold_merge-IsRecordOf first rest) in
    let owned = subst (All (λ (d : ClientRecord). d.client_id ≡ c)) same (own-client_id c hits) in
    record {
      named = named;
      first = first;
      rest = rest;
      documents = same;
      client = merged.client_id ∙ owned.0;
      merged = merged;
    }

-- The records of a dictionary whose records are filed under their clients.
ids-keys :
    (m : Assoc ClientRecord)
    → ((k : String) (r : ClientRecord) → In (k, r) m → r.client_id ≡ k)
    → map (λ (r : ClientRecord). r.client_id) (map (λ (entry : String × ClientRecord). entry.1) m)
      ≡ keys m
ids-keys [] h = refl
ids-keys ((k, r) ∷ m) h = cc (h k r (inl refl), ids-keys m (λ j q i. h j q (inr i)))

collected-IsOwnRecord :
    (hits : List (Option ClientRecord)) (c : String) (r : ClientRecord)
    → In (c, r) (collect hits [])
    → IsOwnRecord hits c r
collected-IsOwnRecord hits c r member =
    let found = lookup-of-In c (collect hits []) (collect-NoDup hits [] tt) member in
    let named : c ≢ "" = λ e. cc (
      sym (ap (λ k. lookup k (collect hits [])) e) ∙ found,
      collect-unnamed hits [] (lookup-nil ""),
    ) in
    record_of-own hits c r (own c hits) named refl (
      sym (merged_from-own c hits)
      ∙ ap (λ f. merged_from f c hits) (sym (lookup-nil c))
      ∙ sym (collect-lookup hits [] c named)
      ∙ found)

-- The call succeeds where the index answers, and gives one record for each client that has a
-- document with its id, and no other. A client's record has, of its own documents in the order of the
-- answer, the last text that is not empty and the last number that is not zero, all labels, addresses
-- and hunts, the lower case labels of the first one and of the others that have labels, and the
-- version and types of the first. Documents that do not decode or have no id play no part.
pub get_multiple_clients_exact :
    (hits : List (Option ClientRecord))
    → (records : List ClientRecord) × (get_multiple_clients (ok hits) ≡ ok records)
      × NoDup (map (λ (r : ClientRecord). r.client_id) records)
      × ((r : ClientRecord) → In r records → IsOwnRecord hits r.client_id r)
      × ((c : String) (d : ClientRecord)
          → c ≢ ""
          → In d (own c hits)
          → (r : ClientRecord) × In r records × IsOwnRecord hits c r)
unfolding get_multiple_clients
get_multiple_clients_exact hits = (_, refl, distinct, forwards, backwards)
  where
    collected : Assoc ClientRecord
    collected = collect hits []

    distinct : NoDup (
        map
          (λ (r : ClientRecord). r.client_id)
          (map (λ (entry : String × ClientRecord). entry.1) collected))
    distinct =
        subst NoDup (sym (ids-keys collected (λ k r i. (collected-IsOwnRecord hits k r i).client)))
          (collect-NoDup hits [] tt)

    forwards :
        (r : ClientRecord)
        → In r (map (λ (entry : String × ClientRecord). entry.1) collected)
        → IsOwnRecord hits r.client_id r
    forwards r i =
        let (c, member) = (In-values r collected).0 i in
        let q = collected-IsOwnRecord hits c r member in
        subst (λ k. IsOwnRecord hits k r) (sym q.client) q

    stored :
        (c : String) (d : ClientRecord) (documents : List ClientRecord)
        → own c hits ≡ documents
        → In d documents
        → (r : ClientRecord) × (merged_from none c hits ≡ some r)
    stored c d [] same i = absurd i
    stored c d (first ∷ rest) same i =
        (fold_merge first rest, merged_from-own c hits ∙ ap record_of same)

    backwards :
        (c : String) (d : ClientRecord)
        → c ≢ ""
        → In d (own c hits)
        → (r : ClientRecord) × In r (map (λ (entry : String × ClientRecord). entry.1) collected)
          × IsOwnRecord hits c r
    backwards c d named i =
        let (r, e) = stored c d (own c hits) refl i in
        let member =
          In-of-lookup c collected
            (collect-lookup hits [] c named ∙ ap (λ f. merged_from f c hits) (lookup-nil c) ∙ e) in
        (r, (In-values r collected).1 (c, member), collected-IsOwnRecord hits c r member)
