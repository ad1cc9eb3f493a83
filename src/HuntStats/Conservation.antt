-- ===== src/HuntStats/Conservation.antt =====
-- No increment is counted twice, and none is lost but by a flush that the index refuses.
use cloudvelo.Prelude.{
  ℕ, String, List, [], ◌∷◌, ◌+◌, ◌^◌, ◌≤◌, ◌<◌, ◌&&◌, Option, none, some, if◌then◌else◌, ◌==◌, not,
  length, filter, lookup, ◌≡◌, refl, ap, arith, if_elim,
}
use cloudvelo.HuntStats.{
  HuntStatsUpdater, HuntStats, new_updater, found_or_new, update, get_elem?, flushed, flush,
  expired, expire, Counter, Step, get_updater, increment, expiry, step, steps,
}
use cloudvelo.HuntStats.Counting.{
  stored, same, waiting_in, waiting, at_address, counted, refused, dropped, over, waiting-snoc,
  new-empty, waiting-inc, waiting-reset, stored-script_on,
}

module _ (k : Counter) (h : String) where
  -- What the index and the updaters have of the hunt.
  abbrev pub held : HuntStats → ℕ
  held self = stored k (self.index h) + waiting k h self.heap

  flushed-held :
      (a : ℕ) (answer : Option String) (self : HuntStats) (found : Option HuntStatsUpdater)
      → get_elem? self.heap a ≡ found
      → held (flushed a answer found self)
          + (elim answer [ none ↦ 0 | some e ↦ at_address (waiting_in k h) found ])
        ≡ held self
  flushed-held a none self none e = omega arith
  flushed-held a (some r) self none e = omega arith
  flushed-held a none self (some u) e = omega (
    arith,
    waiting-reset k h a self.heap,
    ap (at_address (waiting_in k h)) e,
    stored-script_on k h u self.index,
  )
  flushed-held a (some r) self (some u) e =
      omega (arith, waiting-reset k h a self.heap, ap (at_address (waiting_in k h)) e)

  expired-held :
      (hunt_id : String) (answer : Option String) (self : HuntStats) (found : Option ℕ)
      → held (expired hunt_id answer self found) + refused k h answer self found ≡ held self
  unfolding flush
  expired-held hunt_id none self none = omega arith
  expired-held hunt_id (some e) self none = omega arith
  expired-held hunt_id none self (some a) =
      flushed-held a none
        (record self { lru = filter (λ entry. not (entry.0 == hunt_id)) self.lru })
        (get_elem? self.heap a) refl
  expired-held hunt_id (some e) self (some a) =
      flushed-held a (some e)
        (record self { lru = filter (λ entry. not (entry.0 == hunt_id)) self.lru })
        (get_elem? self.heap a) refl

  update-held :
      (hunt_id : String) (self : HuntStats) (found : Option ℕ)
      → held (found_or_new hunt_id self found).1 ≡ held self
  update-held hunt_id self (some a) = refl
  update-held hunt_id self none =
      omega (arith, waiting-snoc k h self.heap (new_updater hunt_id), new-empty k h hunt_id)

  at_address-once :
      (found : Option HuntStatsUpdater) (j : Counter)
      → at_address (λ u. if u.hunt_id == h && same j k then 1 else 0) found ≤ 1
  at_address-once none j = omega arith
  at_address-once (some u) j =
      if_elim (λ n. n ≤ 1) (u.hunt_id == h && same j k) (omega arith) (omega arith)

  step-held :
      (s : Step) (self : HuntStats)
      → waiting k h self.heap + 1 < 2 ^ 64
      → held (step s self) + dropped k h s self ≡ held self + counted k h s self
  unfolding update expire
  step-held (get_updater hunt_id) self small =
      omega (arith, update-held hunt_id self (lookup hunt_id self.lru))
  step-held (increment a j) self small = omega (arith, waiting-inc k h a j self.heap small)
  step-held (expiry hunt_id answer) self small =
      omega (arith, expired-held hunt_id answer self (lookup hunt_id self.lru))

  update-waiting :
      (hunt_id : String) (self : HuntStats) (found : Option ℕ)
      → waiting k h ((found_or_new hunt_id self found).1).heap ≡ waiting k h self.heap
  update-waiting hunt_id self (some a) = refl
  update-waiting hunt_id self none =
      omega (arith, waiting-snoc k h self.heap (new_updater hunt_id), new-empty k h hunt_id)

  flushed-waiting :
      (a : ℕ) (answer : Option String) (self : HuntStats) (found : Option HuntStatsUpdater)
      → waiting k h (flushed a answer found self).heap ≤ waiting k h self.heap
  flushed-waiting a answer self none = omega arith
  flushed-waiting a answer self (some u) = omega (arith, waiting-reset k h a self.heap)

  expired-waiting :
      (hunt_id : String) (answer : Option String) (self : HuntStats) (found : Option ℕ)
      → waiting k h (expired hunt_id answer self found).heap ≤ waiting k h self.heap
  unfolding flush
  expired-waiting hunt_id answer self none = omega arith
  expired-waiting hunt_id answer self (some a) =
      flushed-waiting a answer
        (record self { lru = filter (λ entry. not (entry.0 == hunt_id)) self.lru })
        (get_elem? self.heap a)

  step-waiting :
      (s : Step) (self : HuntStats)
      → waiting k h self.heap + 1 < 2 ^ 64
      → waiting k h (step s self).heap ≤ waiting k h self.heap + 1
  unfolding update expire
  step-waiting (get_updater hunt_id) self small =
      omega (arith, update-waiting hunt_id self (lookup hunt_id self.lru))
  step-waiting (increment a j) self small =
      omega (arith, waiting-inc k h a j self.heap small, at_address-once (get_elem? self.heap a) j)
  step-waiting (expiry hunt_id answer) self small =
      omega (arith, expired-waiting hunt_id answer self (lookup hunt_id self.lru))

  -- For each counter of a hunt, and any sequence of steps that is not so long that a counter of an
  -- updater could wrap around: what the hunt's record and the updaters have together in the end, with
  -- what the index refused, is what they had at first, with one for each increment in between.
  pub steps-held :
      (ss : List Step) (self : HuntStats)
      → waiting k h self.heap + length ss < 2 ^ 64
      → held (steps ss self) + over (dropped k h) ss self ≡ held self + over (counted k h) ss self
  steps-held [] self small = refl
  steps-held (s ∷ rest) self small =
      let one = step-held s self (omega (arith, small)) in
      let later =
        steps-held rest (step s self)
          (omega (arith, small, step-waiting s self (omega (arith, small)))) in
      omega (arith, one, later)
