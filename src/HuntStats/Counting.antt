-- ===== src/HuntStats/Counting.antt =====
-- What the updaters and the index have of a counter of a hunt, and how each operation changes it.
use cloudvelo.Prelude.{
  ℕ, zero, suc, String, List, [], ◌∷◌, ◌++◌, ◌+◌, ◌%◌, ◌^◌, ◌<◌, Bool, true, false, ◌&&◌, Option,
  none, some, if◌then◌else◌, ◌==◌, lookup, ◌≡◌, refl, ap, sym, ◌∙◌, subst, arith, Bool-cases,
  if_elim, if_true, if_false, inl, inr,
}
use cloudvelo.HuntStats.{
  HuntStatsUpdater, HuntCounters, HuntStats, new_updater, inc_scheduled, inc_error, inc_completed,
  updated_painless_query, script_on, reset, get_elem?, modify, Counter, scheduled_flows,
  failed_flows, completed_flows, inc, Step, get_updater, increment, expiry, step,
}

abbrev pub read : Counter → HuntStatsUpdater → ℕ
read scheduled_flows u = u.scheduled
read failed_flows u = u.errors
read completed_flows u = u.completed

abbrev pub stored : Counter → HuntCounters → ℕ
stored scheduled_flows c = c.scheduled
stored failed_flows c = c.errors
stored completed_flows c = c.completed

abbrev pub same : Counter → Counter → Bool
same scheduled_flows scheduled_flows = true
same failed_flows failed_flows = true
same completed_flows completed_flows = true
same scheduled_flows failed_flows = false
same scheduled_flows completed_flows = false
same failed_flows scheduled_flows = false
same failed_flows completed_flows = false
same completed_flows scheduled_flows = false
same completed_flows failed_flows = false

-- What an updater has for this hunt.
abbrev pub waiting_in : Counter → String → HuntStatsUpdater → ℕ
waiting_in k h u = if u.hunt_id == h then read k u else 0

-- What all updaters have for it.
abbrev pub waiting : Counter → String → List HuntStatsUpdater → ℕ
waiting k h [] = 0
waiting k h (u ∷ us) = waiting_in k h u + waiting k h us

abbrev pub at_address : (HuntStatsUpdater → ℕ) → Option HuntStatsUpdater → ℕ
at_address f none = 0
at_address f (some u) = f u

-- The increments of this counter of this hunt, step by step.
abbrev pub counted : Counter → String → Step → HuntStats → ℕ
counted k h (get_updater hunt_id) self = 0
counted k h (increment address j) self =
    at_address (λ u. if u.hunt_id == h && same j k then 1 else 0) (get_elem? self.heap address)
counted k h (expiry hunt_id answer) self = 0

-- What a flush had that the index refused.
abbrev pub refused : Counter → String → Option String → HuntStats → Option ℕ → ℕ
refused k h none self found = 0
refused k h (some e) self none = 0
refused k h (some e) self (some address) = at_address (waiting_in k h) (get_elem? self.heap address)

abbrev pub dropped : Counter → String → Step → HuntStats → ℕ
dropped k h (get_updater hunt_id) self = 0
dropped k h (increment address j) self = 0
dropped k h (expiry hunt_id answer) self = refused k h answer self (lookup hunt_id self.lru)

-- Over a sequence of steps.
abbrev pub over : (Step → HuntStats → ℕ) → List Step → HuntStats → ℕ
over f [] self = 0
over f (s ∷ rest) self = f s self + over f rest (step s self)

wrapped : (n : ℕ) → n + 1 < 2 ^ 64 → (n + 1) % 2 ^ 64 ≡ n + 1
wrapped n small = omega arith

read-inc :
    (k j : Counter) (u : HuntStatsUpdater)
    → read k u + 1 < 2 ^ 64
    → read k (inc j u) ≡ read k u + (if same j k then 1 else 0)
unfolding inc_scheduled inc_error inc_completed
read-inc scheduled_flows scheduled_flows u small = wrapped u.scheduled small
read-inc failed_flows failed_flows u small = wrapped u.errors small
read-inc completed_flows completed_flows u small = wrapped u.completed small
read-inc scheduled_flows failed_flows u small = omega arith
read-inc scheduled_flows completed_flows u small = omega arith
read-inc failed_flows scheduled_flows u small = omega arith
read-inc failed_flows completed_flows u small = omega arith
read-inc completed_flows scheduled_flows u small = omega arith
read-inc completed_flows failed_flows u small = omega arith

inc-hunt_id : (j : Counter) (u : HuntStatsUpdater) → (inc j u).hunt_id ≡ u.hunt_id
unfolding inc_scheduled inc_error inc_completed
inc-hunt_id scheduled_flows u = refl
inc-hunt_id failed_flows u = refl
inc-hunt_id completed_flows u = refl

read-zero :
    (k : Counter) (hunt_id : String)
    → read k (record { hunt_id = hunt_id; scheduled = 0; errors = 0; completed = 0 }) ≡ 0
read-zero scheduled_flows hunt_id = refl
read-zero failed_flows hunt_id = refl
read-zero completed_flows hunt_id = refl

stored-script :
    (k : Counter) (u : HuntStatsUpdater) (c : HuntCounters)
    → stored k (updated_painless_query u c) ≡ stored k c + read k u
stored-script scheduled_flows u c = refl
stored-script failed_flows u c = refl
stored-script completed_flows u c = refl

module _ (k : Counter) (h : String) where
  pub waiting-snoc :
      (heap : List HuntStatsUpdater) (u : HuntStatsUpdater)
      → waiting k h (heap ++ u ∷ []) ≡ waiting k h heap + waiting_in k h u
  waiting-snoc [] u = omega arith
  waiting-snoc (v ∷ heap) u = omega (arith, waiting-snoc heap u)

  pub new-empty : (hunt_id : String) → waiting_in k h (new_updater hunt_id) ≡ 0
  new-empty hunt_id = if_elim (λ n. n ≡ 0) (hunt_id == h) (read-zero k hunt_id) refl

  pub reset-empty : (u : HuntStatsUpdater) → waiting_in k h (reset u) ≡ 0
  reset-empty u = if_elim (λ n. n ≡ 0) (u.hunt_id == h) (read-zero k u.hunt_id) refl

  pub waiting_in-inc :
      (j : Counter) (u : HuntStatsUpdater)
      → waiting_in k h u + 1 < 2 ^ 64
      → waiting_in k h (inc j u) ≡ waiting_in k h u + (if u.hunt_id == h && same j k then 1 else 0)
  waiting_in-inc j u small = elim (Bool-cases (u.hunt_id == h)) [
    | inl e ↦
        let small' : read k u + 1 < 2 ^ 64 = subst (λ n. n + 1 < 2 ^ 64) (if_true 0 e) small in
        ap (λ id. if id == h then read k (inc j u) else 0) (inc-hunt_id j u)
        ∙ if_true 0 e
        ∙ read-inc k j u small'
        ∙ sym (ground (arith, e))
    | inr e ↦
        ap (λ id. if id == h then read k (inc j u) else 0) (inc-hunt_id j u)
        ∙ if_false (read k (inc j u)) e
        ∙ sym (ground (arith, e))
  ]

  pub waiting-inc :
      (a : ℕ) (j : Counter) (heap : List HuntStatsUpdater)
      → waiting k h heap + 1 < 2 ^ 64
      → waiting k h (modify a (inc j) heap)
        ≡ waiting k h heap
          + at_address (λ u. if u.hunt_id == h && same j k then 1 else 0) (get_elem? heap a)
  waiting-inc zero j [] small = refl
  waiting-inc (suc a) j [] small = refl
  waiting-inc zero j (u ∷ heap) small = omega (arith, waiting_in-inc j u (omega (arith, small)))
  waiting-inc (suc a) j (u ∷ heap) small =
      omega (arith, waiting-inc a j heap (omega (arith, small)))

  pub waiting-reset :
      (a : ℕ) (heap : List HuntStatsUpdater)
      → waiting k h (modify a reset heap) + at_address (waiting_in k h) (get_elem? heap a)
        ≡ waiting k h heap
  waiting-reset zero [] = refl
  waiting-reset (suc a) [] = refl
  waiting-reset zero (u ∷ heap) = omega (arith, reset-empty u)
  waiting-reset (suc a) (u ∷ heap) = omega (arith, waiting-reset a heap)

  pub stored-script_on :
      (u : HuntStatsUpdater) (index : String → HuntCounters)
      → stored k (script_on u index h) ≡ stored k (index h) + waiting_in k h u
  stored-script_on u index = elim (Bool-cases (u.hunt_id == h)) [
    | inl e ↦
        ap (stored k) (if_true (index h) e)
        ∙ stored-script k u (index h)
        ∙ ap (λ n. stored k (index h) + n) (sym (if_true 0 e))
    | inr e ↦
        ap (stored k) (if_false (updated_painless_query u (index h)) e)
        ∙ omega (arith, if_false {b = u.hunt_id == h} (read k u) {y = 0} e)
  ]
