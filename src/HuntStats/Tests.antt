-- ===== src/HuntStats/Tests.antt =====
-- One hunt: two flows are scheduled, one flush is refused.
use cloudvelo.Prelude.{lookup, insert, List, [], ◌∷◌, ◌+◌, ◌≤◌, none, some, ◌≡◌, refl, arith}
use cloudvelo.HuntStats.{
  HuntStats, HuntStatsUpdater, Step, get_updater, increment, expiry, scheduled_flows, steps, update,
  flush, expire, inc_scheduled,
}
use cloudvelo.HuntStats.Counting.{over, dropped, counted, stored, read}
use cloudvelo.HuntStats.Conservation.{held, steps-held}
use cloudvelo.HuntStats.Stranded.{steps-stranded}

abbrev empty : HuntStats
empty = record {
  lru = [];
  heap = [];
  index = λ hunt_id. record { scheduled = 0; errors = 0; completed = 0 };
}

abbrev run : List Step
run =
    get_updater "H.1"
    ∷ increment 0 scheduled_flows
    ∷ get_updater "H.1"
    ∷ increment 0 scheduled_flows
    ∷ expiry "H.1" none
    ∷ get_updater "H.1"
    ∷ increment 1 scheduled_flows
    ∷ expiry "H.1" (some "version_conflict")
    ∷ []

record_of_run : stored scheduled_flows ((steps run empty).index "H.1") ≡ 2
unfolding update inc_scheduled expire flush lookup insert
record_of_run = refl

steps-held_example :
    held scheduled_flows "H.1" (steps run empty) + over (dropped scheduled_flows "H.1") run empty
    ≡ held scheduled_flows "H.1" empty + over (counted scheduled_flows "H.1") run empty
steps-held_example = steps-held scheduled_flows "H.1" run empty (omega arith)

-- The entry expired between the call that gave the updater and the increment.
abbrev late_updater : HuntStatsUpdater
late_updater = record { hunt_id = "H.1"; scheduled = 1; errors = 0; completed = 0 }

abbrev late : HuntStats
late = record empty { heap = late_updater ∷ [] }

late_is_reached :
    (steps (get_updater "H.1" ∷ expiry "H.1" none ∷ increment 0 scheduled_flows ∷ []) empty).heap
    ≡ late.heap
unfolding update inc_scheduled expire flush lookup insert
late_is_reached = refl

steps-stranded_example :
    stored scheduled_flows ((steps (get_updater "H.1" ∷ expiry "H.1" none ∷ []) late).index "H.1")
      + read scheduled_flows late_updater
    ≤ held scheduled_flows "H.1" late
      + over (counted scheduled_flows "H.1") (get_updater "H.1" ∷ expiry "H.1" none ∷ []) late
steps-stranded_example =
    steps-stranded scheduled_flows 0 late_updater (get_updater "H.1" ∷ expiry "H.1" none ∷ []) late
      (refl, tt) (tt, (tt, tt)) (omega arith)
