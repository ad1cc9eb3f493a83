-- ===== src/Foreman/Run/Active.antt =====
-- Expired hunts are stopped, and the others are kept in order.
use cloudvelo.Prelude.{
  ℕ, String, List, [], ◌∷◌, ◌/◌, Option, none, Bool, true, not, ◌≡◌, refl, inl, inr, Bool-cases,
  ltb, filter, In, append-nil,
}
use cloudvelo.Foreman.Types.{Hunt}
use cloudvelo.Foreman.Outcome.{done, Effect, stop_hunt}
use cloudvelo.Foreman.Run.{keep_active}

-- The hunt's expiry has passed. `now` is in nanoseconds, the expiry in microseconds.
abbrev pub expired : ℕ → Hunt → Bool
expired now h = ltb h.expires (now / 1000)

-- The updates that stop the hunts.
abbrev pub stops : List Hunt → List Effect
stops [] = []
stops (h ∷ hs) = stop_hunt h.hunt_id ∷ stops hs

-- If every expired hunt can be stopped, then each of them is stopped, in order and once for each
-- time that it is listed, and the active hunts are just those that have not expired, in order.
pub keep_active_all :
    (now : ℕ) (stop : String → Option String) (hunts : List Hunt)
    → ((h : Hunt) → In h hunts → expired now h ≡ true → stop h.hunt_id ≡ none)
    → keep_active now stop hunts
      ≡ done (stops (filter (expired now) hunts)) (filter (λ h. not (expired now h)) hunts)
unfolding keep_active
keep_active_all now stop [] ok_stop = refl
keep_active_all now stop (h ∷ hs) ok_stop = elim (Bool-cases (expired now h)) [
  | inl e ↦
      rw (e, ok_stop h (inl refl) e, keep_active_all now stop hs (λ x i. ok_stop x (inr i))) refl
  | inr e ↦ rw (e, keep_active_all now stop hs (λ x i. ok_stop x (inr i))) (rw append-nil)
]
