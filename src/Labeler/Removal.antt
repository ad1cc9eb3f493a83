-- ===== src/Labeler/Removal.antt =====
-- The loop that removes a label goes through the whole list, and removes it everywhere.
use cloudvelo.Prelude.{
  ℕ, zero, suc, String, List, [], ◌∷◌, not, Option, none, some, ◌==◌, length, filter, map, ◌≡◌,
  refl, ap, sym, ◌∙◌, Bool-cases, if_true, if_false, inl, inr,
}
use cloudvelo.Clients.Record.{ClientRecord}
use cloudvelo.Labeler.{
  get_elem?, remove_at, consed, removed, remove_if, remove_round, remove_loop,
  remove_label_painless,
}

-- A label and its lower case in front of the others.
abbrev in_front : String → String → Option ClientRecord → Option ClientRecord
in_front x y none = none
in_front x y (some doc) =
    some (record doc { labels = x ∷ doc.labels; lower_labels = y ∷ doc.lower_labels })

module _ (p : String) (now : ℕ) where
  round-none : (n : ℕ) → remove_loop p now n none ≡ none
  unfolding remove_loop
  round-none zero = refl
  round-none (suc n) = round-none n

  removed-in_front :
      (x y : String) (doc : ClientRecord) (ls ks : Option (List String))
      → removed now
          (record doc { labels = x ∷ doc.labels; lower_labels = y ∷ doc.lower_labels })
          (consed x ls)
          (consed y ks)
        ≡ in_front x y (removed now doc ls ks)
  removed-in_front x y doc none ks = refl
  removed-in_front x y doc (some ls) none = refl
  removed-in_front x y doc (some ls) (some ks) = refl

  if-in_front :
      (x y : String) (n : ℕ) (doc : ClientRecord) (here : Option String)
      → remove_if p now
          (suc n)
          (record doc { labels = x ∷ doc.labels; lower_labels = y ∷ doc.lower_labels })
          here
        ≡ in_front x y (remove_if p now n doc here)
  if-in_front x y n doc none = refl
  if-in_front x y n doc (some here) = elim (Bool-cases (here == p)) [
    | inl e ↦
        if_true _ e
        ∙ removed-in_front x y doc (remove_at doc.labels n) (remove_at doc.lower_labels n)
        ∙ ap (in_front x y) (sym (if_true _ e))
    | inr e ↦ if_false _ e ∙ ap (in_front x y) (sym (if_false _ e))
  ]

  -- The rounds at the later places, and then the one at the first.
  loop-in_front :
      (x y : String) (n : ℕ) (doc : Option ClientRecord)
      → remove_loop p now (suc n) (in_front x y doc)
        ≡ remove_round p now 0 (in_front x y (remove_loop p now n doc))
  unfolding remove_loop
  loop-in_front x y zero doc = refl
  loop-in_front x y (suc n) none =
      round-none n ∙ sym (ap (λ d. remove_round p now 0 (in_front x y d)) (round-none n))
  loop-in_front x y (suc n) (some doc) =
      ap (remove_loop p now (suc n)) (if-in_front x y n doc (get_elem? doc.lower_labels n))
      ∙ loop-in_front x y n (remove_if p now n doc (get_elem? doc.lower_labels n))

-- The labels that stay.
abbrev pub kept : (String → String) → String → List String → List String
kept lower p labels = filter (λ l. not (lower l == p)) labels

abbrev pub with_labels : (String → String) → ClientRecord → List String → ClientRecord
with_labels lower doc ls = record doc { labels = ls; lower_labels = map lower ls }

-- The document is one with these labels.
abbrev HasLabels : (String → String) → List String → Option ClientRecord → Type 0
HasLabels lower ls found =
    (doc : ClientRecord) × (found ≡ some doc)
    × (doc.labels ≡ ls)
    × (doc.lower_labels ≡ map lower ls)

module _ (lower : String → String) (p : String) (now : ℕ) where
  first_round :
      (x : String) (ls : List String) (doc : ClientRecord)
      → doc.labels ≡ kept lower p ls
      → doc.lower_labels ≡ map lower (kept lower p ls)
      → HasLabels lower
          (kept lower p (x ∷ ls))
          (remove_round p now 0 (in_front x (lower x) (some doc)))
  first_round x ls doc same lowered = elim (Bool-cases (lower x == p)) [
    | inl e ↦ (
      record doc { last_label_timestamp = now },
      if_true _ e,
      same ∙ sym (if_false _ (ap not e)),
      lowered ∙ ap (map lower) (sym (if_false _ (ap not e))),
    )
    | inr e ↦ (
      record doc { labels = x ∷ doc.labels; lower_labels = lower x ∷ doc.lower_labels },
      if_false _ e,
      ap (◌∷◌ x) same ∙ sym (if_true _ (ap not e)),
      ap (◌∷◌ (lower x)) lowered ∙ ap (map lower) (sym (if_true _ (ap not e))),
    )
  ]

  loop-HasLabels :
      (doc : ClientRecord) (ls : List String)
      → HasLabels lower
          (kept lower p ls)
          (remove_loop p now (length (map lower ls)) (some (with_labels lower doc ls)))
  unfolding remove_loop
  loop-HasLabels doc [] = (record doc { labels = []; lower_labels = [] }, refl, refl, refl)
  loop-HasLabels doc (x ∷ ls) =
      let (found, same, labels, lowered) = loop-HasLabels doc ls in
      let (next, round, labels', lowered') = first_round x ls found labels lowered in
      (
        next,
        loop-in_front p now x (lower x) (length (map lower ls)) (some (with_labels lower doc ls))
            ∙ ap (λ d. remove_round p now 0 (in_front x (lower x) d)) same
            ∙ round,
        labels',
        lowered',
      )

  -- The script raises no exception on a document whose two lists belong together, and leaves just the
  -- labels that have another lower case, in their order, with the lists together again.
  pub remove_label_painless-kept :
      (doc : ClientRecord)
      → doc.lower_labels ≡ map lower doc.labels
      → (after : ClientRecord) × (remove_label_painless p now doc ≡ some after)
        × (after.labels ≡ kept lower p doc.labels)
        × (after.lower_labels ≡ map lower after.labels)
  unfolding remove_label_painless
  remove_label_painless-kept doc aligned =
      let (after, found, labels, lowered) = loop-HasLabels doc doc.labels in
      (
        after,
        ap (λ ks. remove_loop p now (length ks) (some (record doc { lower_labels = ks }))) aligned
            ∙ found,
        labels,
        lowered ∙ ap (map lower) (sym labels),
      )
