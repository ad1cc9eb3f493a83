-- ===== src/Foreman/Run/Orgs.antt =====
-- Which organisations a run reaches.
use cloudvelo.Prelude.{
  String, List, [], ◌∷◌, ◌++◌, false, not, ◌≡◌, refl, ap, Bool-cases, filter, Result, inl, inr,
}
use cloudvelo.Utils.{Utils}
use cloudvelo.Foreman.Outcome.{Outcome, done, failed, after, Effect, emit, flush, ◌>>◌}
use cloudvelo.Foreman.Update.{Pass}
use cloudvelo.Foreman.Run.{Org, run_for_org, run_orgs, run_once, slice_contains_key}

abbrev pub IsFailed : {A : Type 0} → Outcome A → Type 0
IsFailed (done log a) = ⊥
IsFailed (failed log e) = Unit

module _ (u : Utils) (pass : Pass) (find : String → Result Org) where
  -- A run passes over the excluded organisations, and only over those.
  pub run_orgs-excluded :
      (excluded orgs : List String)
      → run_orgs u pass find excluded orgs
        ≡ run_orgs u pass find [] (filter (λ o. not (slice_contains_key excluded o)) orgs)
  unfolding run_orgs slice_contains_key
  run_orgs-excluded excluded [] = refl
  run_orgs-excluded excluded (o ∷ os) = elim (Bool-cases (slice_contains_key excluded o)) [
    | inl e ↦ rw e (run_orgs-excluded excluded os)
    | inr e ↦ rw e (ap (λ r. run_for_org u pass (find o) >> r) (run_orgs-excluded excluded os))
  ]

  IsFailed-run_orgs :
      (excluded : List String) (o : String) (os os' : List String)
      → slice_contains_key excluded o ≡ false
      → IsFailed (run_for_org u pass (find o))
      → (run_orgs u pass find excluded (o ∷ os) ≡ run_orgs u pass find excluded (o ∷ os'))
        × IsFailed (run_orgs u pass find excluded (o ∷ os))
  unfolding run_orgs
  IsFailed-run_orgs excluded o os os' e h = rw e (stuck (run_for_org u pass (find o)) h)
    where
      stuck :
          (m : Outcome (Unit {0}))
          → IsFailed m
          → ((m >> run_orgs u pass find excluded os) ≡ (m >> run_orgs u pass find excluded os'))
            × IsFailed (m >> run_orgs u pass find excluded os)
      stuck (failed log x) h = (refl, tt)
      stuck (done log a) h = absurd h

  >>-IsFailed : (log : List Effect) (m : Outcome (Unit {0})) → IsFailed m → IsFailed (after log m)
  >>-IsFailed log (failed l e) h = tt
  >>-IsFailed log (done l a) h = absurd h

  starved :
      (excluded before : List String) (o : String) (os os' : List String)
      → slice_contains_key excluded o ≡ false
      → IsFailed (run_for_org u pass (find o))
      → (run_orgs u pass find excluded (before ++ o ∷ os)
          ≡ run_orgs u pass find excluded (before ++ o ∷ os'))
        × IsFailed (run_orgs u pass find excluded (before ++ o ∷ os))
  unfolding run_orgs
  starved excluded [] o os os' e h = IsFailed-run_orgs excluded o os os' e h
  starved excluded (b ∷ before) o os os' e h = elim (Bool-cases (slice_contains_key excluded b)) [
    | inl x ↦ rw x (starved excluded before o os os' e h)
    | inr x ↦ rw x (
      ap (λ r. run_for_org u pass (find b) >> r) (starved excluded before o os os' e h).0,
      then_failed (run_for_org u pass (find b)) (run_orgs u pass find excluded (before ++ o ∷ os))
          (starved excluded before o os os' e h).1,
    )
  ]
    where
      then_failed : (m k : Outcome (Unit {0})) → IsFailed k → IsFailed (m >> k)
      then_failed (done log a) k f = >>-IsFailed log k f
      then_failed (failed log x) k f = tt

  -- If the run of an organisation that is not excluded fails, then the whole run fails, it has the
  -- same effects and error with any other organisations listed after that one, and these are the
  -- effects of the loop over the organisations alone: no flush of the pending writes follows them.
  pub org_failure_starves :
      (excluded before : List String) (o : String) (os os' : List String)
      → slice_contains_key excluded o ≡ false
      → IsFailed (run_for_org u pass (find o))
      → (run_once u pass find excluded (before ++ o ∷ os)
          ≡ run_once u pass find excluded (before ++ o ∷ os'))
        × IsFailed (run_once u pass find excluded (before ++ o ∷ os))
        × (run_once u pass find excluded (before ++ o ∷ os)
            ≡ run_orgs u pass find excluded (before ++ o ∷ os))
  unfolding run_once
  org_failure_starves excluded before o os os' e h =
      let (same, bad) = starved excluded before o os os' e h in
      let (fails, alone) = last _ bad in (ap (λ m. m >> emit flush) same, fails, alone)
    where
      last :
          (m : Outcome (Unit {0}))
          → IsFailed m
          → IsFailed (m >> emit flush) × ((m >> emit flush) ≡ m)
      last (failed log x) f = (tt, refl)
      last (done log a) f = absurd f
