-- ===== src/HuntStats/Stranded.antt =====
-- An updater that a handler holds after its entry has left the cache is not flushed any more.
use cloudvelo.Prelude.{
  ℕ, zero, suc, String, List, [], ◌∷◌, ◌++◌, ◌≤◌, ◌<◌, ◌+◌, ◌^◌, Option, none, some, ◌==◌, not,
  length, filter, lookup, insert, Assoc, ◌≡◌, ◌≢◌, refl, ap, sym, ◌∙◌, arith, Bool-cases, if_elim,
  if_true, if_false, inl, inr, All, eq_refl,
}
use cloudvelo.HuntStats.{
  HuntStatsUpdater, HuntStats, found_or_new, update, reset, get_elem?, modify, flushed, flush,
  expired, expire, Counter, inc, Step, get_updater, increment, expiry, step, steps,
}
use cloudvelo.HuntStats.Counting.{read, stored, waiting, waiting_in, at_address, over, counted}
use cloudvelo.HuntStats.Conservation.{held, steps-held}

-- No entry of the cache has this address.
abbrev pub IsUncached : ℕ → Assoc ℕ → Type 0
IsUncached a [] = Unit
IsUncached a ((k, b) ∷ rest) = (b ≢ a) × IsUncached a rest

lookup-of_uncached :
    (a : ℕ) (key : String) (b : ℕ) (m : Assoc ℕ) → IsUncached a m → lookup key m ≡ some b → b ≢ a
unfolding lookup
lookup-of_uncached a key b [] u e = cc e
lookup-of_uncached a key b ((k, c) ∷ m) u e = elim (Bool-cases (k == key)) [
  | inl same ↦ λ q. u.0 (cc (sym (if_true _ same) ∙ e, q))
  | inr other ↦ lookup-of_uncached a key b m u.1 (sym (if_false _ other) ∙ e)
]

insert-IsUncached :
    (a : ℕ) (key : String) (b : ℕ) (m : Assoc ℕ)
    → IsUncached a m
    → b ≢ a
    → IsUncached a (insert key b m)
unfolding insert
insert-IsUncached a key b [] u n = (n, tt)
insert-IsUncached a key b ((k, c) ∷ m) u n =
    if_elim (IsUncached a) (k == key) (n, u.1) (u.0, insert-IsUncached a key b m u.1 n)

filter-IsUncached :
    (a : ℕ) (key : String) (m : Assoc ℕ)
    → IsUncached a m
    → IsUncached a (filter (λ entry. not (entry.0 == key)) m)
filter-IsUncached a key [] u = tt
filter-IsUncached a key ((k, c) ∷ m) u =
    if_elim (IsUncached a) (not (k == key)) (u.0, filter-IsUncached a key m u.1)
      (filter-IsUncached a key m u.1)

get-modify_other :
    (a b : ℕ) (f : HuntStatsUpdater → HuntStatsUpdater) (heap : List HuntStatsUpdater)
    → b ≢ a
    → get_elem? (modify b f heap) a ≡ get_elem? heap a
get-modify_other a zero f [] n = refl
get-modify_other a (suc b) f [] n = refl
get-modify_other zero zero f (u ∷ heap) n = absurd (n refl)
get-modify_other (suc a) zero f (u ∷ heap) n = refl
get-modify_other zero (suc b) f (u ∷ heap) n = refl
get-modify_other (suc a) (suc b) f (u ∷ heap) n = get-modify_other a b f heap (λ e. n (ap suc e))

get-append :
    (a : ℕ) (heap more : List HuntStatsUpdater) {u : HuntStatsUpdater}
    → get_elem? heap a ≡ some u
    → get_elem? (heap ++ more) a ≡ some u
get-append a [] more e = cc e
get-append zero (u ∷ heap) more e = e
get-append (suc a) (u ∷ heap) more e = get-append a heap more e

get-length :
    (heap : List HuntStatsUpdater) (a : ℕ) {u : HuntStatsUpdater}
    → get_elem? heap a ≡ some u
    → length heap ≢ a
get-length [] a e = cc e
get-length (u ∷ heap) zero e = λ q. omega (arith, q)
get-length (u ∷ heap) (suc a) e = λ q. get-length heap a e (omega (arith, q))

-- The updater is at the address, and out of the cache.
abbrev pub IsStranded : ℕ → HuntStatsUpdater → HuntStats → Type 0
IsStranded a u self = (get_elem? self.heap a ≡ some u) × IsUncached a self.lru

-- A step that is not an increment at this address.
abbrev pub IsElsewhere : ℕ → Step → Type 0
IsElsewhere a (get_updater hunt_id) = Unit
IsElsewhere a (increment b j) = b ≢ a
IsElsewhere a (expiry hunt_id answer) = Unit

module _ (a : ℕ) (u : HuntStatsUpdater) where
  update-IsStranded :
      (hunt_id : String) (self : HuntStats) (found : Option ℕ)
      → IsStranded a u self
      → IsStranded a u (found_or_new hunt_id self found).1
  update-IsStranded hunt_id self (some b) h = h
  update-IsStranded hunt_id self none (there, out) = (
    get-append a self.heap _ there,
    insert-IsUncached a hunt_id (length self.heap) self.lru out (get-length self.heap a there),
  )

  flushed-IsStranded :
      (b : ℕ) (answer : Option String) (self : HuntStats) (found : Option HuntStatsUpdater)
      → b ≢ a
      → IsStranded a u self
      → IsStranded a u (flushed b answer found self)
  flushed-IsStranded b answer self none n h = h
  flushed-IsStranded b answer self (some v) n (there, out) =
      (get-modify_other a b reset self.heap n ∙ there, out)

  expired-IsStranded :
      (hunt_id : String) (answer : Option String) (self : HuntStats) (found : Option ℕ)
      → lookup hunt_id self.lru ≡ found
      → IsStranded a u self
      → IsStranded a u (expired hunt_id answer self found)
  unfolding flush
  expired-IsStranded hunt_id answer self none e h = h
  expired-IsStranded hunt_id answer self (some b) e (there, out) =
      flushed-IsStranded b answer
        (record self { lru = filter (λ entry. not (entry.0 == hunt_id)) self.lru })
        (get_elem? self.heap b) (lookup-of_uncached a hunt_id b self.lru out e)
        (there, filter-IsUncached a hunt_id self.lru out)

  step-IsStranded :
      (s : Step) (self : HuntStats)
      → IsElsewhere a s
      → IsStranded a u self
      → IsStranded a u (step s self)
  unfolding update expire
  step-IsStranded (get_updater hunt_id) self e h =
      update-IsStranded hunt_id self (lookup hunt_id self.lru) h
  step-IsStranded (increment b j) self n (there, out) =
      (get-modify_other a b (inc j) self.heap n ∙ there, out)
  step-IsStranded (expiry hunt_id answer) self e h =
      expired-IsStranded hunt_id answer self (lookup hunt_id self.lru) refl h

  steps-IsStranded :
      (ss : List Step) (self : HuntStats)
      → All (IsElsewhere a) ss
      → IsStranded a u self
      → IsStranded a u (steps ss self)
  steps-IsStranded [] self e h = h
  steps-IsStranded (s ∷ rest) self (e, es) h =
      steps-IsStranded rest (step s self) es (step-IsStranded s self e h)

get-waiting :
    (k : Counter) (h : String) (heap : List HuntStatsUpdater) (a : ℕ) (u : HuntStatsUpdater)
    → get_elem? heap a ≡ some u
    → waiting_in k h u ≤ waiting k h heap
get-waiting k h [] a u e = cc e
get-waiting k h (v ∷ heap) zero u e = omega (arith, ap (at_address (waiting_in k h)) e)
get-waiting k h (v ∷ heap) (suc a) u e = omega (arith, get-waiting k h heap a u e)

-- An updater that a handler got, and whose entry then left the cache, is not flushed any more: after any
-- steps but further increments at its address, and as long as no counter wraps around, the record
-- of its hunt lacks at least what the updater holds of what the record and the updaters had at first and
-- what was counted since.
pub steps-stranded :
    (k : Counter) (a : ℕ) (u : HuntStatsUpdater) (ss : List Step) (self : HuntStats)
    → IsStranded a u self
    → All (IsElsewhere a) ss
    → waiting k u.hunt_id self.heap + length ss < 2 ^ 64
    → stored k ((steps ss self).index u.hunt_id) + read k u
      ≤ held k u.hunt_id self + over (counted k u.hunt_id) ss self
steps-stranded k a u ss self h elsewhere small =
    let (there, out) = steps-IsStranded a u ss self elsewhere h in
    omega (
      arith,
      steps-held k u.hunt_id ss self small,
      get-waiting k u.hunt_id (steps ss self).heap a u there,
      if_true {b = u.hunt_id == u.hunt_id} {x = read k u} 0 (eq_refl u.hunt_id),
    )
