-- ===== src/HuntStats.antt =====
-- ingestion/services/hunts.go: the statistics of a hunt are collected in an updater, which is flushed to
-- the hunt's record when it expires. Updaters are shared through pointers: an address here is a place in
-- the list of all updaters that were made.
pub mod Counting
pub mod Conservation
pub mod Stranded
mod Tests
use cloudvelo.Prelude.{
  ℕ, zero, suc, String, List, [], ◌∷◌, ◌++◌, ◌+◌, ◌%◌, ◌^◌, Option, none, some, if◌then◌else◌, ◌==◌,
  not, length, filter, Assoc, lookup, insert,
}

-- `HuntStatsUpdater`; its counters are `uint64`.
pub record HuntStatsUpdater : Type 0 where
  pub hunt_id : String
  pub scheduled : ℕ
  pub errors : ℕ
  pub completed : ℕ

-- The counters of the hunt's record in the index, which are not bounded here.
pub record HuntCounters : Type 0 where
  pub scheduled : ℕ
  pub errors : ℕ
  pub completed : ℕ

-- The manager's cache, all updaters, and the hunts' records.
pub record HuntStats : Type 0 where
  pub lru : Assoc ℕ
  pub heap : List HuntStatsUpdater
  pub index : String → HuntCounters

abbrev pub new_updater : String → HuntStatsUpdater
new_updater hunt_id = record { hunt_id = hunt_id; scheduled = 0; errors = 0; completed = 0 }

-- `Update`: the cached updater, or a new one, by its address.
abbrev pub found_or_new : String → HuntStats → Option ℕ → ℕ × HuntStats
found_or_new hunt_id self (some address) = (address, self)
found_or_new hunt_id self none = (
  length self.heap,
  record self {
    lru = insert hunt_id (length self.heap) self.lru;
    heap = self.heap ++ new_updater hunt_id ∷ [];
  },
)

unfoldable pub update : String → HuntStats → ℕ × HuntStats
update hunt_id self = found_or_new hunt_id self (lookup hunt_id self.lru)

unfoldable pub inc_scheduled : HuntStatsUpdater → HuntStatsUpdater
inc_scheduled self = record self { scheduled = (self.scheduled + 1) % 2 ^ 64 }

unfoldable pub inc_error : HuntStatsUpdater → HuntStatsUpdater
inc_error self = record self { errors = (self.errors + 1) % 2 ^ 64 }

unfoldable pub inc_completed : HuntStatsUpdater → HuntStatsUpdater
inc_completed self = record self { completed = (self.completed + 1) % 2 ^ 64 }

-- `updatedPainlessQuery`
abbrev pub updated_painless_query : HuntStatsUpdater → HuntCounters → HuntCounters
updated_painless_query params source = record {
  scheduled = source.scheduled + params.scheduled;
  errors = source.errors + params.errors;
  completed = source.completed + params.completed;
}

abbrev pub script_on : HuntStatsUpdater → (String → HuntCounters) → String → HuntCounters
script_on params index hunt_id =
    if params.hunt_id == hunt_id
    then updated_painless_query params (index hunt_id)
    else index hunt_id

abbrev pub update_index :
    Option String → HuntStatsUpdater → (String → HuntCounters) → String → HuntCounters
update_index (some e) params index = index
update_index none params index = script_on params index

abbrev pub reset : HuntStatsUpdater → HuntStatsUpdater
reset self = record self { scheduled = 0; errors = 0; completed = 0 }

-- The object at an address.
abbrev pub get_elem? : List HuntStatsUpdater → ℕ → Option HuntStatsUpdater
get_elem? [] n = none
get_elem? (x ∷ xs) zero = some x
get_elem? (x ∷ xs) (suc n) = get_elem? xs n

abbrev pub modify :
    ℕ → (HuntStatsUpdater → HuntStatsUpdater) → List HuntStatsUpdater → List HuntStatsUpdater
modify n f [] = []
modify zero f (x ∷ xs) = f x ∷ xs
modify (suc n) f (x ∷ xs) = x ∷ modify n f xs

-- `Flush`: the counters are zero before the index is asked, and stay so when it refuses, `answer`.
abbrev pub flushed : ℕ → Option String → Option HuntStatsUpdater → HuntStats → HuntStats
flushed address answer none self = self
flushed address answer (some updater) self = record self {
  heap = modify address reset self.heap;
  index = update_index answer updater self.index;
}

unfoldable pub flush : ℕ → Option String → HuntStats → HuntStats
flush address answer self = flushed address answer (get_elem? self.heap address) self

abbrev pub expired : String → Option String → HuntStats → Option ℕ → HuntStats
expired hunt_id answer self none = self
expired hunt_id answer self (some address) =
    flush address answer (record self { lru = filter (λ entry. not (entry.0 == hunt_id)) self.lru })

-- The expiration callback, for an entry that leaves the cache. Its error is only logged.
unfoldable pub expire : String → Option String → HuntStats → HuntStats
expire hunt_id answer self = expired hunt_id answer self (lookup hunt_id self.lru)

pub data Counter : Type 0 where
  scheduled_flows failed_flows completed_flows : Counter

abbrev pub inc : Counter → HuntStatsUpdater → HuntStatsUpdater
inc scheduled_flows = inc_scheduled
inc failed_flows = inc_error
inc completed_flows = inc_completed

-- One step of the process: a handler asks for an updater, or increments one that it got before; an entry
-- expires. Each holds the lock on its updater.
pub data Step : Type 0 where
  get_updater : String → Step
  increment : ℕ → Counter → Step
  expiry : String → Option String → Step

abbrev pub step : Step → HuntStats → HuntStats
step (get_updater hunt_id) self = (update hunt_id self).1
step (increment address counter) self = record self {
  heap = modify address (inc counter) self.heap;
}
step (expiry hunt_id answer) self = expire hunt_id answer self

abbrev pub steps : List Step → HuntStats → HuntStats
steps [] self = self
steps (s ∷ rest) self = steps rest (step s self)
