-- ===== src/Foreman/Plan/Eligible.antt =====
-- Which clients a hunt is for, stated apart from the code, and that the planner follows it.
use cloudvelo.Prelude.{
  String, List, [], ◌∷◌, map, Option, none, some, Bool, true, false, ◌≡◌, refl, ◌↔◌, ◌⊎◌, inl, inr,
  In, arith, eq_iff, lookup_or, Bool-cases,
}
use cloudvelo.Utils.{Utils}
use cloudvelo.Clients.Record.{ClientRecord}
use cloudvelo.Foreman.Types.{Hunt, Condition, Os, all, windows, linux, osx, other, Plan}
use cloudvelo.Foreman.Plan.{
  hunts_contain, client_has_labels, misses_labels, has_excluded, other_system,
}

abbrev pub listed : Option (List String) → List String
listed none = []
listed (some ls) = ls

-- One of the labels is, in lower case, among the client's lower case labels.
pub HasLabel : Utils → ClientRecord → List String → Type 0
HasLabel u client labels = (l : String) × In l labels × In (u.to_lower l) client.lower_labels

-- The systems that a condition on the operating system admits.
abbrev pub Admits : Option Os → String → Type 0
Admits (some windows) system = system ≡ "windows"
Admits (some linux) system = system ≡ "linux"
Admits (some osx) system = system ≡ "darwin"
Admits _ system = Unit

-- The client meets the hunt's condition.
pub record Meets (u : Utils) (client : ClientRecord) (c : Condition) : Type 0 where
  pub labelled : (listed c.labels ≡ []) ⊎ HasLabel u client (listed c.labels)
  pub not_excluded : ¬ HasLabel u client (listed c.excluded_labels)
  pub on_system : Admits c.os client.system

abbrev pub MeetsAny : Utils → ClientRecord → Option Condition → Type 0
MeetsAny u client none = Unit
MeetsAny u client (some c) = Meets u client c

-- The hunt is for the client, and was not assigned to it before.
abbrev pub IsEligible : Utils → ClientRecord → Hunt → Type 0
IsEligible u client hunt =
    (¬ In hunt.hunt_id client.assigned_hunts) × MeetsAny u client hunt.condition

-- The plan runs the hunt on the client.
abbrev pub Planned : Plan → String → String → Type 0
Planned plan client_id hunt_id =
    In hunt_id (map (λ (h : Hunt). h.hunt_id) (lookup_or [] client_id plan.client_id_to_hunts))

pub hunts_contain_iff :
    (hunts : List Hunt) (k : String)
    → (hunts_contain hunts k ≡ true) ↔ In k (map (λ (h : Hunt). h.hunt_id) hunts)
unfolding hunts_contain
hunts_contain_iff [] k = (ground arith, absurd)
hunts_contain_iff (h ∷ hunts) k =
    let (f, g) = hunts_contain_iff hunts k in
    (ground (arith, eq_iff h.hunt_id k, f), ground (arith, eq_iff h.hunt_id k, g))

client_has_labels_iff :
    (u : Utils) (client : ClientRecord) (labels : List String)
    → (client_has_labels u client labels ≡ true) ↔ HasLabel u client labels
unfolding client_has_labels HasLabel
client_has_labels_iff u client [] = (ground arith, λ h. absurd h.1)
client_has_labels_iff u client (l ∷ labels) = elim (Bool-cases here) [
  | inl e ↦ (λ _. (l, inl refl, at_l.0 e), λ _. ground arith)
  | inr e ↦ (
    λ h. let (x, m, w) = (client_has_labels_iff u client labels).0 (ground arith) in (x, inr m, w),
    λ h. elim h.1 [
      | inl p ↦ ground (arith, at_l.1 (rw p at h.2))
      | inr m ↦ ground (arith, (client_has_labels_iff u client labels).1 (h.0, m, h.2))
    ],
  )
]
  where
    here : Bool
    here = u.in_string client.lower_labels (u.to_lower l)

    at_l : (here ≡ true) ↔ In (u.to_lower l) client.lower_labels
    at_l = u.in_string_iff client.lower_labels (u.to_lower l)

-- Each guard of the planner is true exactly when its part of `Meets` fails.
pub misses_labels_iff :
    (u : Utils) (client : ClientRecord) (o : Option (List String))
    → (misses_labels u client o ≡ false) ↔ ((listed o ≡ []) ⊎ HasLabel u client (listed o))
unfolding misses_labels
misses_labels_iff u client none = (λ _. inl refl, λ _. refl)
misses_labels_iff u client (some []) = (λ _. inl refl, λ _. refl)
misses_labels_iff u client (some (l ∷ ls)) =
    let (f, g) = client_has_labels_iff u client (l ∷ ls) in (ground (arith, f), ground (arith, g))

pub has_excluded_iff :
    (u : Utils) (client : ClientRecord) (o : Option (List String))
    → (has_excluded u client o ≡ false) ↔ (¬ HasLabel u client (listed o))
unfolding has_excluded HasLabel
has_excluded_iff u client none = (λ _ h. h.1, λ _. refl)
has_excluded_iff u client (some []) = (λ _ h. h.1, λ _. refl)
has_excluded_iff u client (some (l ∷ ls)) = (
  λ e h. cc ((client_has_labels_iff u client (l ∷ ls)).1 h),
  λ n. elim (Bool-cases (client_has_labels u client (l ∷ ls))) [
    | inl e ↦ absurd (n ((client_has_labels_iff u client (l ∷ ls)).0 e))
    | inr e ↦ e
  ],
)

pub other_system_iff :
    (client : ClientRecord) (o : Option Os)
    → (other_system client o ≡ false) ↔ Admits o client.system
unfolding other_system
other_system_iff client none = (λ _. tt, λ _. refl)
other_system_iff client (some all) = (λ _. tt, λ _. refl)
other_system_iff client (some windows) =
    (ground (arith, eq_iff client.system "windows"), ground (arith, eq_iff client.system "windows"))
other_system_iff client (some linux) =
    (ground (arith, eq_iff client.system "linux"), ground (arith, eq_iff client.system "linux"))
other_system_iff client (some osx) =
    (ground (arith, eq_iff client.system "darwin"), ground (arith, eq_iff client.system "darwin"))
other_system_iff client (some (other n)) = (λ _. tt, λ _. refl)
