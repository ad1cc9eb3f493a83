-- ===== src/ClientInfo/Override.antt =====
-- What a key has after the metadata were set.
use cloudvelo.Prelude.{
  String, List, [], ◌∷◌, Bool, true, false, not, Option, none, some, if◌then◌else◌, ◌==◌, keys,
  is_some, Assoc, lookup, lookup-insert, ◌≡◌, refl, ap, sym, ◌∙◌, arith, In, In-keys, In-of-lookup,
  ◌⊎◌, eq_iff, Bool-cases, if_cases, if_elim, if_true, if_false, inl, inr,
}
use cloudvelo.ClientInfo.{
  Value, value_is_remove, delete, merge_key, merge_old, add_key, add_missing, set_metadata,
}

lookup-delete :
    (key asked : String) (m : Assoc Value)
    → lookup asked (delete key m) ≡ (if key == asked then none else lookup asked m)
unfolding lookup
lookup-delete key asked [] = if_elim (λ (o : Option Value). none ≡ o) (key == asked) refl refl
lookup-delete key asked ((k, v) ∷ m) =
    ground (arith, lookup-delete key asked m, eq_iff k key, eq_iff k asked, eq_iff key asked)

-- What a round leaves of a key that is asked for.
abbrev after_round : Option Value → Option Value → Option Value
after_round none old = old
after_round (some v) old = if value_is_remove v then none else some v

lookup-merge_key :
    (k asked : String) (new : Option Value) (m : Assoc Value)
    → lookup asked (merge_key k new m)
      ≡ (if k == asked then after_round new (lookup asked m) else lookup asked m)
lookup-merge_key k asked none m = if_elim (λ o. lookup asked m ≡ o) (k == asked) refl refl
lookup-merge_key k asked (some v) m =
    if_cases
      (λ n.
        lookup asked n
        ≡ (if k == asked then if value_is_remove v then none else some v else lookup asked m))
      (value_is_remove v) (λ e. ground (arith, e, lookup-delete k asked m))
      (λ e. ground (arith, e, lookup-insert k asked v m))

after_round-twice :
    (new old : Option Value) → after_round new (after_round new old) ≡ after_round new old
after_round-twice none old = refl
after_round-twice (some v) old = refl

-- A round for the key that is asked for, and for another.
merge_key-here :
    (k asked : String) (metadata old : Assoc Value)
    → (k == asked) ≡ true
    → lookup asked (merge_key k (lookup k metadata) old)
      ≡ after_round (lookup asked metadata) (lookup asked old)
merge_key-here k asked metadata old e =
    lookup-merge_key k asked (lookup k metadata) old
    ∙ if_true _ e
    ∙ ap (λ j. after_round (lookup j metadata) (lookup asked old)) ((eq_iff k asked).0 e)

merge_key-other :
    (k asked : String) (metadata old : Assoc Value)
    → (k == asked) ≡ false
    → lookup asked (merge_key k (lookup k metadata) old) ≡ lookup asked old
merge_key-other k asked metadata old e =
    lookup-merge_key k asked (lookup k metadata) old ∙ if_false _ e

merge_old-either :
    (asked : String) (ks : List String) (metadata old : Assoc Value)
    → (lookup asked (merge_old ks metadata old) ≡ lookup asked old)
      ⊎ (lookup asked (merge_old ks metadata old)
          ≡ after_round (lookup asked metadata) (lookup asked old))
unfolding merge_old
merge_old-either asked [] metadata old = inl refl
merge_old-either asked (k ∷ ks) metadata old =
    let rest = merge_old-either asked ks metadata (merge_key k (lookup k metadata) old) in
    elim (Bool-cases (k == asked)) [
      | inl e ↦
          let here = merge_key-here k asked metadata old e in
          elim rest [
            | inl p ↦ inr (p ∙ here)
            | inr p ↦ inr (
                p
                ∙ ap (after_round (lookup asked metadata)) here
                ∙ after_round-twice (lookup asked metadata) (lookup asked old))
          ]
      | inr e ↦
          let here = merge_key-other k asked metadata old e in
          elim rest [
            | inl p ↦ inl (p ∙ here)
            | inr p ↦ inr (p ∙ ap (after_round (lookup asked metadata)) here)
          ]
    ]

merge_old-In :
    (asked : String) (ks : List String) (metadata old : Assoc Value)
    → In asked ks
    → lookup asked (merge_old ks metadata old)
      ≡ after_round (lookup asked metadata) (lookup asked old)
unfolding merge_old
merge_old-In asked [] metadata old m = absurd m
merge_old-In asked (k ∷ ks) metadata old m =
    let next = merge_key k (lookup k metadata) old in
    elim (Bool-cases (k == asked)) [
      | inl e ↦
          let here = merge_key-here k asked metadata old e in
          elim (merge_old-either asked ks metadata next) [
            | inl p ↦ p ∙ here
            | inr p ↦
                p
                ∙ ap (after_round (lookup asked metadata)) here
                ∙ after_round-twice (lookup asked metadata) (lookup asked old)
          ]
      | inr e ↦
          let later : In asked ks = elim m [
            | inl p ↦ cc (e, (eq_iff k asked).1 (sym p))
            | inr n ↦ n
          ] in
          merge_old-In asked ks metadata next later
          ∙ ap (after_round (lookup asked metadata)) (merge_key-other k asked metadata old e)
    ]

-- The first of two that is there.
abbrev pub or_else : Option Value → Option Value → Option Value
or_else none later = later
or_else (some v) later = some v

not_some : (o : Option Value) → not (is_some o) ≡ true → o ≡ none
not_some none e = refl
not_some (some v) e = cc e

some_first : (o later : Option Value) → not (is_some o) ≡ false → or_else o later ≡ o
some_first none later e = cc e
some_first (some v) later e = refl

or_else_assoc : (a b c : Option Value) → or_else (or_else a b) c ≡ or_else a (or_else b c)
or_else_assoc none b c = refl
or_else_assoc (some v) b c = refl

or_else-none : (o : Option Value) → or_else o none ≡ o
or_else-none none = refl
or_else-none (some v) = refl

lookup-add_key :
    (k asked : String) (v : Value) (old : Assoc Value)
    → lookup asked (add_key k v old)
      ≡ or_else (lookup asked old) (if k == asked then some v else none)
lookup-add_key k asked v old = elim (Bool-cases (k == asked)) [
  | inl e ↦
      let same = ap (λ j. lookup j old) ((eq_iff k asked).0 e) in
      if_cases
        (λ n. lookup asked n ≡ or_else (lookup asked old) (if k == asked then some v else none))
        (not (is_some (lookup k old)))
        (λ new.
          lookup-insert k asked v old
          ∙ if_true _ e
          ∙ sym (
              ap (λ o. or_else o (if k == asked then some v else none))
                (sym same ∙ not_some (lookup k old) new)
              ∙ if_true _ e))
        (λ there.
          sym (some_first (lookup asked old) _ (ap (λ o. not (is_some o)) (sym same) ∙ there)))
  | inr e ↦
      if_elim (λ n. lookup asked n ≡ lookup asked old) (not (is_some (lookup k old)))
        (lookup-insert k asked v old ∙ if_false _ e) refl
      ∙ sym
          (ap (or_else (lookup asked old)) (if_false (some v) e) ∙ or_else-none (lookup asked old))
]

lookup-add_missing :
    (asked : String) (metadata old : Assoc Value)
    → lookup asked (add_missing metadata old) ≡ or_else (lookup asked old) (lookup asked metadata)
unfolding add_missing lookup
lookup-add_missing asked [] old = sym (or_else-none (lookup asked old))
lookup-add_missing asked ((k, v) ∷ rest) old =
    lookup-add_missing asked rest (add_key k v old)
    ∙ ap (λ o. or_else o (lookup asked rest)) (lookup-add_key k asked v old)
    ∙ or_else_assoc (lookup asked old) (if k == asked then some v else none) (lookup asked rest)
    ∙ ap (or_else (lookup asked old)) (entry-lookup (k == asked))
  where
    entry-lookup :
        (b : Bool)
        → or_else (if b then some v else none) (lookup asked rest)
          ≡ (if b then some v else lookup asked rest)
    entry-lookup true = refl
    entry-lookup false = refl

after_round-or :
    (n : Value) → or_else (if value_is_remove n then none else some n) (some n) ≡ some n
after_round-or n = if_elim (λ o. or_else o (some n) ≡ some n) (value_is_remove n) refl refl

settled :
    (new old kept : Option Value)
    → (kept ≡ old) ⊎ (kept ≡ after_round new old)
    → ((v : Value) → old ≡ some v → kept ≡ after_round new old)
    → or_else kept new ≡ or_else new old
settled none none kept (inl e) there = or_else-none kept ∙ e
settled none none kept (inr e) there = or_else-none kept ∙ e
settled none (some v) kept either there = or_else-none kept ∙ there v refl
settled (some n) none kept (inl e) there = ap (λ o. or_else o (some n)) e
settled (some n) none kept (inr e) there = ap (λ o. or_else o (some n)) e ∙ after_round-or n
settled (some n) (some v) kept either there =
    ap (λ o. or_else o (some n)) (there v refl) ∙ after_round-or n

-- After the metadata of a client were set, each key has the new value where the new metadata have one,
-- also where that value is nil or the empty text, and else the value that it had.
pub set_metadata-override :
    (old metadata : Assoc Value) (key : String)
    → lookup key (set_metadata old metadata) ≡ or_else (lookup key metadata) (lookup key old)
unfolding set_metadata
set_metadata-override old metadata key =
    lookup-add_missing key metadata (merge_old (keys old) metadata old)
    ∙ settled (lookup key metadata) (lookup key old) _
        (merge_old-either key (keys old) metadata old)
        (λ v found.
          merge_old-In key (keys old) metadata old (In-keys key v old (In-of-lookup key old found)))
