-- ===== src/Labeler/Sets.antt =====
-- The labels of a client as a set of texts in lower case, and what the two scripts do to the set.
use cloudvelo.Prelude.{
  ℕ, String, List, [], ◌∷◌, ◌++◌, Bool, true, false, not, Option, none, some, if◌then◌else◌, ◌==◌,
  filter, map, In, In-snoc, In-filter, NoDup, NoDup-snoc, NoDup-filter, map-append, ◌≡◌, ◌↔◌, refl,
  ap, sym, subst, ◌∙◌, arith, eq_iff, Bool-cases, if_true, if_false, if_cases, inl, inr,
}
use cloudvelo.Clients.Record.{ClientRecord}
use cloudvelo.Labeler.{Text, contains, all_label_painless}
use cloudvelo.Labeler.Removal.{kept}

abbrev pub LabelSet : Type 0
LabelSet = String → Bool

abbrev pub with_label : String → LabelSet → LabelSet
with_label y s x = if x == y then true else s x

abbrev pub without_label : String → LabelSet → LabelSet
without_label y s x = if x == y then false else s x

-- The two lists belong together, and no label is twice there.
pub record IsWellFormed (text : Text) (doc : ClientRecord) : Type 0 where
  pub aligned : doc.lower_labels ≡ map text.to_lower doc.labels
  pub single : NoDup doc.lower_labels

-- The stored document represents the set.
abbrev pub Represents : Text → Option ClientRecord → LabelSet → Type 0
Represents text none s = (x : String) → s x ≡ false
Represents text (some doc) s =
    IsWellFormed text doc × ((x : String) → In x doc.lower_labels ↔ (s x ≡ true))

contains-In : (xs : List String) (x : String) → contains xs x ≡ true ↔ In x xs
contains-In [] x = (λ e. cc e, absurd)
contains-In (y ∷ ys) x =
    let (f, g) = contains-In ys x in (ground (arith, f, eq_iff y x), ground (arith, g, eq_iff y x))

with-snoc :
    (s : LabelSet) (y x : String) (ks : List String)
    → In x ks ↔ (s x ≡ true)
    → In x (ks ++ y ∷ []) ↔ (with_label y s x ≡ true)
with-snoc s y x ks (f, g) =
    let (f', g') = In-snoc x y ks in
    (ground (arith, f, f', eq_iff x y), ground (arith, g, g', eq_iff x y))

with-same :
    (s : LabelSet) (y x : String) (ks : List String)
    → In x ks ↔ (s x ≡ true)
    → In y ks
    → In x ks ↔ (with_label y s x ≡ true)
with-same s y x ks (f, g) there = (
  ground (arith, f),
  λ h. elim (Bool-cases (x == y)) [
    | inl e ↦ subst (λ z. In z ks) (sym ((eq_iff x y).0 e)) there
    | inr e ↦ g (sym (if_false _ e) ∙ h)
  ],
)

pub with-Represents :
    (text : Text) (doc : ClientRecord) (s : LabelSet) (label : String) (now : ℕ)
    → Represents text (some doc) s
    → Represents text
        (some (all_label_painless label (text.to_lower label) now doc))
        (with_label (text.to_lower label) s)
unfolding all_label_painless
with-Represents text doc s label now (wf, members) =
    let y = text.to_lower label in
    let (f, g) = contains-In doc.lower_labels y in
    if_cases (λ d. Represents text (some d) (with_label y s)) (not (contains doc.lower_labels y))
      (λ new. (
        record {
          aligned =
              ap (λ ks. ks ++ y ∷ []) wf.aligned
              ∙ sym (map-append text.to_lower doc.labels (label ∷ []));
          single = NoDup-snoc y doc.lower_labels wf.single (λ m. cc (new, g m));
        },
        λ x. with-snoc s y x doc.lower_labels (members x),
      ))
      (λ old. (wf, λ x. with-same s y x doc.lower_labels (members x) (f (ground (arith, old)))))

kept-filter :
    (lower : String → String) (p : String) (ls : List String)
    → map lower (kept lower p ls) ≡ filter (λ k. not (k == p)) (map lower ls)
kept-filter lower p [] = refl
kept-filter lower p (l ∷ ls) =
    if_cases (λ r. map lower r ≡ filter (λ k. not (k == p)) (map lower (l ∷ ls)))
      (not (lower l == p)) (λ e. ap (◌∷◌ (lower l)) (kept-filter lower p ls) ∙ sym (if_true _ e))
      (λ e. kept-filter lower p ls ∙ sym (if_false _ e))

without-filter :
    (s : LabelSet) (y x : String) (ks : List String)
    → In x ks ↔ (s x ≡ true)
    → In x (filter (λ k. not (k == y)) ks) ↔ (without_label y s x ≡ true)
without-filter s y x ks (f, g) =
    let (f', g') = In-filter (λ k. not (k == y)) x ks in
    (ground (arith, f, f'), ground (arith, g, g'))

pub without-Represents :
    (text : Text) (doc after : ClientRecord) (s : LabelSet) (y : String)
    → Represents text (some doc) s
    → after.labels ≡ kept text.to_lower y doc.labels
    → after.lower_labels ≡ map text.to_lower after.labels
    → Represents text (some after) (without_label y s)
without-Represents text doc after s y (wf, members) labels aligned =
    let stays =
      aligned
      ∙ ap (map text.to_lower) labels
      ∙ kept-filter text.to_lower y doc.labels
      ∙ ap (filter (λ k. not (k == y))) (sym wf.aligned) in
    (
      record {
        aligned = aligned;
        single =
            subst NoDup (sym stays) (NoDup-filter (λ k. not (k == y)) doc.lower_labels wf.single);
      },
      λ x.
          subst (λ ks. In x ks ↔ (without_label y s x ≡ true)) (sym stays)
            (without-filter s y x doc.lower_labels (members x)),
    )
