-- ===== src/Utils.antt =====
-- What the program takes from Velociraptor's `utils` package and from Unicode's case tables. Both
-- lie outside the repository: they are an interface, and every result holds for each value of it.
use cloudvelo.Prelude.{
  String, List, [], ◌∷◌, Bool, true, false, ◌≡◌, ◌↔◌, In, ◌==◌, if◌then◌else◌, arith, eq_iff,
}

pub record Utils : Type 0 where
  -- utils.InString(hay, needle)
  pub in_string : List String → String → Bool
  pub in_string_iff :
      (hay : List String) (needle : String) → (in_string hay needle ≡ true) ↔ In needle hay
  -- strings.ToLower
  pub to_lower : String → String

-- A search from the left, for tests and as the proof that the interface can be met.
unfoldable pub search_left : List String → String → Bool
search_left [] x = false
search_left (y ∷ ys) x = if y == x then true else search_left ys x

pub search_left_iff : (hay : List String) (x : String) → (search_left hay x ≡ true) ↔ In x hay
unfolding search_left
search_left_iff [] x = (ground arith, absurd)
search_left_iff (y ∷ ys) x =
    let (f, g) = search_left_iff ys x in
    (ground (arith, eq_iff y x, f), ground (arith, eq_iff y x, g))

-- Lower case for the few labels of the tests.
unfoldable pub lower_label : String → String
lower_label s = if s == "Lab" then "lab" else s

abbrev pub utils : Utils
utils = record { in_string = search_left; in_string_iff = search_left_iff; to_lower = lower_label }
