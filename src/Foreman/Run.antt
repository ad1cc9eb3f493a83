-- ===== src/Foreman/Run.antt =====
-- foreman/foreman.go: a run over the organisations, and the sweeps of the foreman's loop.
pub mod Active
pub mod Sweeps
pub mod Orgs
use cloudvelo.Prelude.{
  ℕ, String, List, [], ◌∷◌, ◌/◌, Option, none, some, Bool, true, false, if◌then◌else◌, ◌==◌, ltb,
  Result, ok, err,
}
use cloudvelo.Utils.{Utils}
use cloudvelo.Foreman.Types.{Hunt, EventTable, Plan, new_plan}
use cloudvelo.Foreman.Outcome.{Outcome, done, failed, after, ◌>>=◌, ◌>>◌, emit, stop_hunt, flush}
use cloudvelo.Foreman.Update.{Index, Pass, calculate_update, backlog_plan, started_hunts}
use cloudvelo.Foreman.Execute.{
  Services, after_call, execute_hunt_update, execute_client_monitoring_update,
}

-- An organisation as the run finds it: the running hunts of its dispatcher, its monitoring state,
-- its index and services, and the update that stops a hunt.
pub record Org : Type 0 where
  pub running : Result (List Hunt)
  pub monitoring : Result EventTable
  pub index : Index
  pub services : Services
  pub stop : String → Option String

-- The loop that the dispatcher makes over the running hunts. `now` is in nanoseconds.
unfoldable pub keep_active : ℕ → (String → Option String) → List Hunt → Outcome (List Hunt)
keep_active now stop [] = done [] []
keep_active now stop (h ∷ hs) =
    if ltb h.expires (now / 1000)
    then (do emit (stop_hunt h.hunt_id); after_call (stop h.hunt_id); keep_active now stop hs)
    else (do rest ← keep_active now stop hs; done [] (h ∷ rest))

abbrev pub lift {ℓ} : {A : Type ℓ} → Result A → Outcome A
lift (ok a) = done [] a
lift (err e) = failed [] e

unfoldable pub get_active_hunts : ℕ → Org → Outcome (List Hunt)
get_active_hunts now org = do hunts ← lift org.running; keep_active now org.stop hunts

unfoldable pub update_plan : Utils → Pass → Org → Plan → Outcome (Unit {0})
update_plan u pass org plan = do
  hunts ← get_active_hunts pass.now org
  filled ← lift (calculate_update u org.index pass hunts plan)
  execute_hunt_update u org.services filled
  execute_client_monitoring_update org.services pass.now filled

-- What the goroutine of `scheduleClientsWithBacklog` does, beside `update_plan`. Its error is logged.
unfoldable pub run_backlog : Utils → Pass → Org → EventTable → List Hunt → Outcome (Unit {0})
run_backlog u pass org state hunts =
    elim (backlog_plan u org.index pass.now state
      (started_hunts pass.last_run_time pass.now hunts)) [
        | none ↦ done [] tt
        | some plan ↦ execute_hunt_update u org.services plan
      ]

unfoldable pub run_for_org : Utils → Pass → Result Org → Outcome (Unit {0})
run_for_org u pass found = do
  org ← lift found
  state ← lift org.monitoring
  update_plan u pass org (new_plan state)

unfoldable pub slice_contains_key : List String → String → Bool
slice_contains_key [] key = false
slice_contains_key (v ∷ vs) key = if v == key then true else slice_contains_key vs key

-- The loop over the organisations: an error of one ends the run.
unfoldable pub run_orgs :
    Utils → Pass → (String → Result Org) → List String → List String → Outcome (Unit {0})
run_orgs u pass find excluded [] = done [] tt
run_orgs u pass find excluded (o ∷ os) =
    let rest = run_orgs u pass find excluded os in
    if slice_contains_key excluded o then rest else (do run_for_org u pass (find o); rest)

-- `RunOnce`, where no organisation has a dedicated foreman.
unfoldable pub run_once :
    Utils → Pass → (String → Result Org) → List String → List String → Outcome (Unit {0})
run_once u pass find excluded orgs = do run_orgs u pass find excluded orgs; emit flush

-- The two times of the foreman.
pub record Times : Type 0 where
  pub last_run_time : ℕ
  pub next_run_time : ℕ

-- `Start` before its loop.
unfoldable pub start : ℕ → Times
start now = record { last_run_time = now; next_run_time = now }

-- One round of the loop, by two readings of the clock: `begun`, when the round sets the next time,
-- and `now`, when `calculate_update` of the round sets the end of its sweep. The sweep goes from
-- `last_run_time` to the second, and the next one starts at the first, whether or not the round ends
-- with an error.
unfoldable pub tick : Times → ℕ × ℕ → Times × (ℕ × ℕ)
tick s (begun, now) =
    let round = record s { next_run_time = begun } in
    (record round { last_run_time = round.next_run_time }, (round.last_run_time, now))

unfoldable pub sweeps : Times → List (ℕ × ℕ) → List (ℕ × ℕ)
sweeps s [] = []
sweeps s (round ∷ later) = let (s', sweep) = tick s round in sweep ∷ sweeps s' later
