-- ===== src/Foreman/Labels/Keys.antt =====
-- When two label sets have one key: the text of a joined list of labels, read back.
use Prim.Native.Char.{Char}
use Prim.Native.String.{◌++◌ as str_append}
use text.Mathlib.TextLemmas.{
  nil-append, cons-append, nil≢cons, head-eq_of_cons-eq, tail-eq_of_cons-eq,
}
use cloudvelo.Prelude.{String, List, [], ◌∷◌, ◌≡◌, ◌≢◌, refl, sym, ap, ◌∙◌, All}
use cloudvelo.Foreman.Labels.{join}

-- The text has no bar, which separates the labels of a key.
abbrev pub NoBar : String → Type 0
NoBar String.[] = Unit
NoBar (String.◌∷◌ c s) = (c ≢ "|") × NoBar s

-- A label that a key can be read back from.
abbrev pub IsPlain : String → Type 0
IsPlain s = (s ≢ "") × NoBar s

abbrev after_bar : String → String → String
after_bar s t = str_append s (str_append "|" t)

bar : (t : String) → str_append "|" t ≡ String.◌∷◌ "|" t
bar t = cons-append "|" String.[] t ∙ ap (String.◌∷◌ "|") (nil-append t)

after_bar-nil : (t : String) → after_bar String.[] t ≡ String.◌∷◌ "|" t
after_bar-nil t = nil-append _ ∙ bar t

after_bar-cons :
    (c : Char) (s t : String) → after_bar (String.◌∷◌ c s) t ≡ String.◌∷◌ c (after_bar s t)
after_bar-cons c s t = cons-append c s _

NoBar-after_bar : (x s t : String) → NoBar x → ¬ (x ≡ after_bar s t)
NoBar-after_bar String.[] String.[] t n e = nil≢cons (e ∙ after_bar-nil t)
NoBar-after_bar String.[] (String.◌∷◌ c s) t n e = nil≢cons (e ∙ after_bar-cons c s t)
NoBar-after_bar (String.◌∷◌ d x) String.[] t n e = n.0 (head-eq_of_cons-eq (e ∙ after_bar-nil t))
NoBar-after_bar (String.◌∷◌ d x) (String.◌∷◌ c s) t n e =
    NoBar-after_bar x s t n.1 (tail-eq_of_cons-eq (e ∙ after_bar-cons c s t))

after_bar_injective :
    (s s' t t' : String)
    → NoBar s
    → NoBar s'
    → after_bar s t ≡ after_bar s' t'
    → (s ≡ s') × (t ≡ t')
after_bar_injective String.[] String.[] t t' n n' e =
    (refl, tail-eq_of_cons-eq (sym (after_bar-nil t) ∙ e ∙ after_bar-nil t'))
after_bar_injective String.[] (String.◌∷◌ c s') t t' n n' e =
    absurd (n'.0 (sym (head-eq_of_cons-eq (sym (after_bar-nil t) ∙ e ∙ after_bar-cons c s' t'))))
after_bar_injective (String.◌∷◌ c s) String.[] t t' n n' e =
    absurd (n.0 (head-eq_of_cons-eq (sym (after_bar-cons c s t) ∙ e ∙ after_bar-nil t')))
after_bar_injective (String.◌∷◌ c s) (String.◌∷◌ d s') t t' n n' e =
    let both = sym (after_bar-cons c s t) ∙ e ∙ after_bar-cons d s' t' in
    let (p, q) = after_bar_injective s s' t t' n.1 n'.1 (tail-eq_of_cons-eq both) in
    (cc (head-eq_of_cons-eq both, p), q)

empty_key : (x t : String) → ¬ ("" ≡ after_bar x t)
empty_key String.[] t e = nil≢cons (e ∙ after_bar-nil t)
empty_key (String.◌∷◌ c x) t e = nil≢cons (e ∙ after_bar-cons c x t)

-- Lists of plain labels with the same joined text are the same list.
pub join_injective :
    (xs ys : List String) → All IsPlain xs → All IsPlain ys → join "|" xs ≡ join "|" ys → xs ≡ ys
unfolding join
join_injective [] [] px py e = refl
join_injective [] (y ∷ []) px py e = absurd (py.0.0 (sym e))
join_injective [] (y ∷ z ∷ ys) px py e = absurd (empty_key y _ e)
join_injective (x ∷ []) [] px py e = absurd (px.0.0 e)
join_injective (x ∷ []) (y ∷ []) px py e = ap (λ s. s ∷ []) e
join_injective (x ∷ []) (y ∷ z ∷ ys) px py e = absurd (NoBar-after_bar x y _ px.0.1 e)
join_injective (x ∷ w ∷ xs) [] px py e = absurd (empty_key x _ (sym e))
join_injective (x ∷ w ∷ xs) (y ∷ []) px py e = absurd (NoBar-after_bar y x _ py.0.1 (sym e))
join_injective (x ∷ w ∷ xs) (y ∷ z ∷ ys) px py e =
    let (p, q) = after_bar_injective x y _ _ px.0.1 py.0.1 e in
    cc (p, join_injective (w ∷ xs) (z ∷ ys) px.1 py.1 q)
