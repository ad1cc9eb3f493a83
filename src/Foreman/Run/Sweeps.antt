-- ===== src/Foreman/Run/Sweeps.antt =====
-- The sweeps of the loop leave no gap, and overlap only between the two readings of the clock.
use cloudvelo.Prelude.{ℕ, List, [], ◌∷◌, ◌≤◌, ◌*◌, In}
use cloudvelo.Foreman.Types.{Hunt}

-- The end of the last sweep, where the one before the rounds ended at `t`.
abbrev pub last_end : ℕ → List (ℕ × ℕ) → ℕ
last_end t [] = t
last_end t ((begun, now) ∷ later) = last_end now later

-- Each round starts at the end of the one before or later, and reads the clock twice.
abbrev pub IsRising : ℕ → List (ℕ × ℕ) → Type 0
IsRising t [] = Unit
IsRising t ((begun, now) ∷ later) = (t ≤ begun) × (begun ≤ now) × IsRising now later

-- The hunt does not start between the two readings of the clock in any of the rounds.
abbrev pub IsApart : List (ℕ × ℕ) → Hunt → Type 0
IsApart rounds h =
    (begun : ℕ) (now : ℕ)
    → In (begun, now) rounds
    → begun ≤ h.start_time * 1000
    → now ≤ h.start_time * 1000
